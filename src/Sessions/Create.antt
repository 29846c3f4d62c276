-- ===== src/Sessions/Create.antt =====
-- createSessionLocked, getSessionLocked and MaybeDeleteSession of internal/ircserver/ircserver.go.
use robustirc.Base.{
  ==_refl, Bool, Bool-cases, Option, [], arith, false, if◌then◌else◌, inl, inr, leb, length, ltb,
  nat_eq, none, refl, some, suc, sym, true, ℕ, ◌&&◌, ◌+◌, ◌-◌, ◌<◌, ◌==◌, ◌∙◌, ◌∷◌, ◌≡◌, ◌≤◌, ◌⊎◌,
}
use robustirc.Base.Assoc.{Map, insert, lookup, lookup-insert}
use robustirc.Robust.{RobustId, id_eq, unix_epoch}
use robustirc.Server.{IrcServer, new_session, set_session}
use robustirc.Sessions.{
  SessionError, create_session, get_auth, get_nick, get_session, session_limit_reached,
}
use robustirc.Text.{Text, text, text_eq}
use mathlib.Core.Path.{subst}

length-insert : (id : RobustId) (r : ℕ) (m : Map RobustId ℕ) → length (insert id r m) ≤ length m + 1
unfolding insert
length-insert id r [] = omega arith
length-insert id r ((j, q) ∷ m) = elim (Bool-cases (j == id)) [
  | inl e ↦ rw e (omega arith)
  | inr e ↦ rw e (omega (arith, length-insert id r m))
]

module _ (id : RobustId) (auth : Text) (now : ℕ) (i : IrcServer) where
  abbrev created : IrcServer
  created = record i {
    heap = set_session i.next_ref (new_session id auth now (now - unix_epoch) (text "0")) i.heap;
    next_ref = suc i.next_ref;
    sessions = insert id i.next_ref i.sessions;
  }

  abbrev pub is_full : Bool
  is_full = leb i.config.max_sessions (length i.sessions) && ltb 0 i.config.max_sessions

  pub create-full : is_full ≡ true → create_session id auth now i ≡ (i, some session_limit_reached)
  unfolding create_session
  create-full e = rw e refl

  create-free : is_full ≡ false → create_session id auth now i ≡ (created, none)
  unfolding create_session
  create-free e = rw e refl

  created-session : lookup id created.sessions ≡ some i.next_ref
  created-session = lookup-insert id id i.next_ref i.sessions ∙ ground (arith, ==_refl id)

  created-auth : get_auth id created ≡ inl auth
  unfolding get_auth get_session set_session
  created-auth = ground (arith, created-session)

  created-nick : get_nick id created ≡ []
  unfolding get_nick set_session
  created-nick = ground (arith, created-session)

  created-length :
      is_full ≡ false → 0 < i.config.max_sessions → length created.sessions ≤ i.config.max_sessions
  created-length e pos =
      let short : length i.sessions < i.config.max_sessions = ground (arith, e, pos) in
      omega (arith, short, length-insert id i.next_ref i.sessions)

-- CreateSession, for every server: either the limit is set and reached, and the call fails and
-- changes nothing; or it succeeds, the session is found under its id with the password given and no
-- nickname, and every other id is found as before.
pub create_session-get_session :
    (id : RobustId) (auth : Text) (now : ℕ) (i : IrcServer) (other : RobustId)
    → ((0 < i.config.max_sessions)
        × (i.config.max_sessions ≤ length i.sessions)
        × (create_session id auth now i ≡ (i, some session_limit_reached)))
      ⊎ (((create_session id auth now i).1 ≡ none)
          × (get_auth id (create_session id auth now i).0 ≡ inl auth)
          × (get_nick id (create_session id auth now i).0 ≡ [])
          × (lookup other (create_session id auth now i).0.sessions
              ≡ (if id == other then some i.next_ref else lookup other i.sessions)))
create_session-get_session id auth now i other = elim (Bool-cases (is_full id auth now i)) [
  | inl e ↦ inl (ground (arith, e), ground (arith, e), create-full id auth now i e)
  | inr e ↦
      subst
        (λ (p : IrcServer × Option SessionError).
          ((0 < i.config.max_sessions)
            × (i.config.max_sessions ≤ length i.sessions)
            × (p ≡ (i, some session_limit_reached)))
          ⊎ ((p.1 ≡ none)
              × (get_auth id p.0 ≡ inl auth)
              × (get_nick id p.0 ≡ [])
              × (lookup other p.0.sessions
                  ≡ (if id == other then some i.next_ref else lookup other i.sessions))))
        (sym (create-free id auth now i e))
        (inr (
          refl,
          created-auth id auth now i,
          created-nick id auth now i,
          lookup-insert id other i.next_ref i.sessions,
        ))
]

-- Where the configuration sets a limit on the sessions that is not exceeded, CreateSession does not
-- exceed it.
pub length-create_session :
    (id : RobustId) (auth : Text) (now : ℕ) (i : IrcServer)
    → 0 < i.config.max_sessions
    → length i.sessions ≤ i.config.max_sessions
    → length (create_session id auth now i).0.sessions ≤ i.config.max_sessions
length-create_session id auth now i pos fits = elim (Bool-cases (is_full id auth now i)) [
  | inl e ↦ rw (create-full id auth now i e) fits
  | inr e ↦ rw (create-free id auth now i e) (created-length id auth now i e pos)
]
