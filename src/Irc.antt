-- ===== src/Irc.antt =====
-- What the program takes from packages that are not in the repository, or from parts of Go's
-- standard library that are taken as given: the structs of gopkg.in/sorcix/irc.v2 and, in `Env`,
-- the functions that it calls.
use robustirc.Base.{ℕ, Bool, List, Option, ◌⊎◌}
use robustirc.Text.{Text}

-- irc.Prefix
pub record Prefix : Type 0 where
  pub name : Text
  pub user : Text
  pub host : Text

-- irc.Message; a nil prefix is `none`
pub record Msg : Type 0 where
  pub prefix : Option Prefix
  pub command : Text
  pub params : List Text

pub record Env : Type 0 where
  -- irc.Message.Trailing, irc.Prefix.String, irc.ParseMessage
  pub trailing : Msg → Text
  pub prefix_string : Prefix → Text
  pub parse_message : Text → Option Msg
  -- regexp.Compile's error, and MatchString of a pattern; the verb %q
  pub compile_error : Text → Option Text
  pub matches : Text → Text → Bool
  pub quoted : Text → Text
  -- Captchas, by hmac, base64 and net/url: the URL from the base URL, the secret, the purpose and
  -- the challenge; and whether verifyCaptchaNonEmpty accepts an answer, from the secret, the
  -- answer and the session's last activity.
  pub captcha_url : Text → Text → Text → Text → Text
  pub captcha_accepts : Text → Text → ℕ → Bool
  -- time.Time.String
  pub time_string : ℕ → Text
  -- fnv.New64 over a text
  pub fnv64 : Text → ℕ
  -- time.ParseDuration in nanoseconds, time.Unix of strconv.ParseInt(s, 0, 64), or the error
  pub parse_duration : Text → ℕ ⊎ Text
  pub parse_unix : Text → ℕ ⊎ Text
  -- strconv.ParseInt(s, 0, 64) as a uint64, or none
  pub parse_int : Text → Option ℕ
