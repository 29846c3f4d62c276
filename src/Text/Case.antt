-- ===== src/Text/Case.antt =====
-- NickToLower and ChanToLower of internal/ircserver/ircserver.go.
use robustirc.Base.{ℕ, ◌≡◌, refl, [], ◌∷◌, map, arith, nat_beq, if◌then◌else◌}
use robustirc.Text.{Text, lower, to_lower}

-- nickToLowerReplacer, at one character
unfoldable pub replace_bracket : ℕ → ℕ
replace_bracket c =
    if nat_beq c b'['
    then b'{'
    else if nat_beq c b']'
    then b'}'
    else if nat_beq c 92
    then b'|'
    else c

unfoldable pub nick_to_lower : Text → Text
unfolding replace_bracket
nick_to_lower nick = map replace_bracket (to_lower nick)

unfoldable pub chan_to_lower : Text → Text
chan_to_lower channelname = to_lower channelname

lower_idem : (c : ℕ) → lower (lower c) ≡ lower c
unfolding lower
lower_idem c = ground arith

replace-lower_idem :
    (c : ℕ) → replace_bracket (lower (replace_bracket (lower c))) ≡ replace_bracket (lower c)
unfolding replace_bracket lower
replace-lower_idem c = ground arith

-- Lower-casing a nickname twice is lower-casing it once: the keys of the maps are fixed points.
pub nick_to_lower_idem : (nick : Text) → nick_to_lower (nick_to_lower nick) ≡ nick_to_lower nick
unfolding nick_to_lower to_lower
nick_to_lower_idem [] = refl
nick_to_lower_idem (c ∷ s) = cc (replace-lower_idem c, nick_to_lower_idem s)

pub chan_to_lower_idem : (name : Text) → chan_to_lower (chan_to_lower name) ≡ chan_to_lower name
unfolding chan_to_lower to_lower
chan_to_lower_idem [] = refl
chan_to_lower_idem (c ∷ s) = cc (lower_idem c, chan_to_lower_idem s)
