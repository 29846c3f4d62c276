-- ===== src/Sessions/Throttle.antt =====
-- ThrottleUntil of internal/ircserver/ircserver.go: the delay between two messages of a session.
use robustirc.Base.{none, some, false, true, ℕ, ◌*◌, ◌+◌, ◌<◌, ◌^◌, ◌≡◌, ◌≤◌, ◌⊎◌}
use robustirc.Config.{millisecond}
use robustirc.Base.Assoc.{lookup}
use robustirc.Robust.{RobustId, id_eq}
use robustirc.Server.{IrcServer, Session, set_session}

-- The delay of a session is below twice the cool-off, or is the shortest one.
pub record IsThrottled (cooloff : ℕ) (s : Session) : Type 0 where
  pub bounded :
      (s.throttling_exponent ≡ 0) ⊎ (2 ^ s.throttling_exponent * millisecond < 2 * cooloff)

abbrev IsBounded : ℕ → ℕ → Type 0
IsBounded cooloff e = (e ≡ 0) ⊎ (2 ^ e * millisecond < 2 * cooloff)

-- How long a session waits, counted from its last activity.
abbrev pub Waits : ℕ → Session → ℕ → Type 0
Waits cooloff s until =
    (s.last_activity + millisecond ≤ until)
    × ((until < s.last_activity + 2 * cooloff) ⊎ (until ≡ s.last_activity + millisecond))

-- The sessions that ThrottleUntil does not slow down: all of them without a cool-off, those that do
-- not exist, and services.
abbrev pub IsExempt : RobustId → IrcServer → Type 0
IsExempt id i =
    (i.config.post_message_cooloff ≡ 0)
    ⊎ ((lookup id i.sessions ≡ none)
        ⊎ ((r : ℕ) × (lookup id i.sessions ≡ some r) × ((i.heap r).server ≡ true)))

-- The session that has to wait, and what changes in the server.
abbrev pub IsSlowed : RobustId → ℕ → IrcServer → IrcServer × ℕ → Type 0
IsSlowed id now i result =
    (r : ℕ) × (s : Session) × (lookup id i.sessions ≡ some r)
    × ((i.heap r).server ≡ false)
    × (result.0 ≡ record i { heap = set_session r s i.heap })
    × IsThrottled i.config.post_message_cooloff s
    × Waits i.config.post_message_cooloff (i.heap r) result.1
