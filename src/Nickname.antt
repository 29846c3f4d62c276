-- ===== src/Nickname.antt =====
-- internal/ircserver/ircserver.go: which nicknames and channel names are valid, and passwords.
pub mod LowerCase
use robustirc.Base.{
  Bool, List, [], any, drop, every, false, if◌then◌else◌, leb, length, nat_beq, nat_eq, not, ℕ,
  ◌&&◌, ◌++◌, ◌+◌, ◌==◌, ◌||◌, ◌∷◌,
}
use robustirc.Robust.{id_eq}
use robustirc.Text.{Text, has_prefix, has_suffix, text, text_eq, to_lower}
use robustirc.Text.Split.{split}

unfoldable pub is_letter : ℕ → Bool
is_letter c = (leb 0x41 c && leb c 0x5a) || (leb 0x61 c && leb c 0x7a)

unfoldable pub is_digit : ℕ → Bool
is_digit c = leb 0x30 c && leb c 0x39

unfoldable pub is_special : ℕ → Bool
is_special c = (leb 0x5b c && leb c 0x60) || (leb 0x7b c && leb c 0x7d)

abbrev pub nick_start : ℕ → Bool
nick_start c = is_letter c || is_special c

abbrev pub nick_part : ℕ → Bool
nick_part c = is_letter c || is_digit c || is_special c || nat_beq c b'-'

abbrev pub max_nick_len : ℕ
max_nick_len = 30

abbrev pub max_channel_len : ℕ
max_channel_len = 32

-- IsValidNickname: validNickRe is a start character and up to maxNickLen more
unfoldable pub is_valid_nickname : Text → Bool
is_valid_nickname [] = false
is_valid_nickname (c ∷ rest) =
    nick_start c && every nick_part rest && leb (length rest) max_nick_len

-- the class chanstring
unfoldable pub chan_part : ℕ → Bool
chan_part c =
    (leb 1 c && leb c 6)
    || (leb 8 c && leb c 9)
    || (leb 0xb c && leb c 0xc)
    || (leb 0xe c && leb c 0x1f)
    || (leb 0x21 c && leb c 0x2b)
    || (leb 0x2d c && leb c 0x39)
    || (leb 0x3b c && leb c 0xff)

-- IsValidChannel
unfoldable pub is_valid_channel : Text → Bool
is_valid_channel [] = false
is_valid_channel (c ∷ rest) =
    nat_beq c b'#' && every chan_part rest && leb (length rest) max_channel_len

-- IsServicesNickname
unfoldable pub is_services_nickname : Text → Bool
is_services_nickname nick = has_suffix (to_lower nick) (text "serv")

-- The prefixes that end a password in extractPassword.
abbrev pub password_keys : List Text
password_keys =
    text "nickserv="
    ∷ text "services="
    ∷ text "network="
    ∷ text "session="
    ∷ text "oper="
    ∷ text "captcha="
    ∷ []

unfoldable pub has_password_key : Text → Bool
has_password_key part = any (has_prefix part) password_keys

-- One round of the loop of extractPassword.
unfoldable pub extract_part : Text → Text → Text → Text
extract_part key extracted part =
    let extracted' =
      if has_prefix (to_lower part) (key ++ b'=' ∷ [])
      then drop (length key + 1) part
      else extracted in
    if not (has_password_key part) && not (extracted' == [])
    then extracted' ++ (b':' ∷ part)
    else extracted'

unfoldable pub extract_parts : Text → Text → List Text → Text
extract_parts key extracted [] = extracted
extract_parts key extracted (part ∷ parts) =
    extract_parts key (extract_part key extracted part) parts

-- extractPassword
unfoldable pub extract_password : Text → Text → Text
extract_password password key = extract_parts key [] (split b':' password)
