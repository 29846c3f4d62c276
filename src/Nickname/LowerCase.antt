-- ===== src/Nickname/LowerCase.antt =====
-- internal/ircserver/ircserver.go: valid nicknames and the keys of the map of nicknames.
use robustirc.Base.{
  Bool, [], ap, arith, every, false, length, refl, suc, true, ℕ, ◌&&◌, ◌+◌, ◌∷◌, ◌≡◌, ◌≤◌,
}
use robustirc.Nickname.{
  is_digit, is_letter, is_special, is_valid_nickname, max_nick_len, nick_part, nick_start,
}
use robustirc.Text.{Text, lower, to_lower}
use robustirc.Text.Case.{nick_to_lower, nick_to_lower_idem, replace_bracket}

and_true : (a b : Bool) → (a && b) ≡ true → (a ≡ true) × (b ≡ true)
and_true true b h = (refl, h)
and_true false b h = (h, absurd (cc))

nick_start-lower : (c : ℕ) → nick_start c ≡ true → nick_start (replace_bracket (lower c)) ≡ true
unfolding is_letter is_special replace_bracket lower
nick_start-lower c h = ground arith

nick_part-lower : (c : ℕ) → nick_part c ≡ true → nick_part (replace_bracket (lower c)) ≡ true
unfolding is_letter is_special is_digit replace_bracket lower
nick_part-lower c h = ground arith

length-lower : (rest : Text) → length (nick_to_lower rest) ≡ length rest
unfolding nick_to_lower to_lower
length-lower [] = refl
length-lower (c ∷ rest) = ap suc (length-lower rest)

every-lower :
    (rest : Text) → every nick_part rest ≡ true → every nick_part (nick_to_lower rest) ≡ true
unfolding nick_to_lower to_lower
every-lower [] h = refl
every-lower (c ∷ rest) h =
    let parts = and_true (nick_part c) (every nick_part rest) h in
    rw (nick_part-lower c parts.0, every-lower rest parts.1) refl

-- The key of a valid nickname is a valid nickname again, so that it is not empty, and has at most
-- 31 characters, one more than maxNickLen, and NickToLower leaves it as it is.
pub is_valid_nickname-nick_to_lower :
    (nick : Text)
    → is_valid_nickname nick ≡ true
    → (is_valid_nickname (nick_to_lower nick) ≡ true)
      × (length (nick_to_lower nick) ≤ max_nick_len + 1)
      × (nick_to_lower (nick_to_lower nick) ≡ nick_to_lower nick)
unfolding is_valid_nickname nick_to_lower to_lower
is_valid_nickname-nick_to_lower [] h = (h, omega arith, refl)
is_valid_nickname-nick_to_lower (c ∷ rest) h =
    let start : nick_start c ≡ true = ground (arith, h) in
    let all : every nick_part rest ≡ true = ground (arith, h) in
    let short : length rest ≤ max_nick_len = ground (arith, h) in
    (
      ground (arith, nick_start-lower c start, every-lower rest all, length-lower rest, short),
      omega (arith, length-lower rest, short),
      nick_to_lower_idem (c ∷ rest),
    )
