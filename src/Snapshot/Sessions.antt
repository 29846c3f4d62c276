-- ===== src/Snapshot/Sessions.antt =====
-- internal/ircserver/serialize.go: the sessions, under the references that Unmarshal gives them.
use robustirc.Base.{
  Bool-cases, List, Option, Option-cases, [], arith, if◌then◌else◌, inl, inr, nat_eq, none, refl,
  some, suc, sym, ℕ, ◌++◌, ◌<◌, ◌==◌, ◌∙◌, ◌∷◌, ◌≡◌, ap, Eq,
}
use robustirc.Base.Assoc.{Map, insert, keys, lookup, lookup-insert}
use robustirc.Base.Distinct.{Distinct, lookup-elem}
use robustirc.Robust.{RobustId, id_eq}
use robustirc.Server.{IrcServer, Modes, Session, no_modes, set_session}
use robustirc.Snapshot.{SnapshotSession}
use robustirc.Snapshot.Copy.{
  AreStorable, IsStorableSession, carrier, server_ids, session_with_id, session_with_nick,
}
use robustirc.Snapshot.Decode.{
  add_session, read_logged_in, read_modes, read_session, unmarshal_sessions,
}
use robustirc.Snapshot.Encode.{marshal_modes, marshal_session, marshal_sessions}
use robustirc.Snapshot.Fields.{
  channel_set_lem, read_modes-marshal_modes, timestamp_to_time-time_to_timestamp,
}
use robustirc.Text.{Text, text_eq}
use robustirc.Text.Case.{nick_to_lower}
use mathlib.Core.List.{append_assoc, append-nil}
use mathlib.Core.Option

read_session-marshal_session :
    (id : RobustId) (s : Session)
    → IsStorableSession id s
    → read_session (marshal_session id s) s.modes ≡ s
unfolding read_session marshal_session read_logged_in
read_session-marshal_session id s h = ground (
  arith,
  timestamp_to_time-time_to_timestamp s.last_activity h.activity,
  timestamp_to_time-time_to_timestamp s.last_non_ping h.non_ping,
  timestamp_to_time-time_to_timestamp s.last_solved_captcha h.captcha,
  channel_set_lem s.channels h.on_channels,
  channel_set_lem s.invited_to h.invitations,
)

marshal_session-modes :
    (id : RobustId) (s : Session) → (marshal_session id s).modes ≡ marshal_modes s.modes
unfolding marshal_session
marshal_session-modes id s = refl

abbrev pub add_sessions : (ℕ → Session) → Map RobustId ℕ → IrcServer → IrcServer
add_sessions heap [] i = i
add_sessions heap ((id, r) ∷ m) i = add_sessions heap m (add_session (heap r) i)

unmarshal_sessions_step :
    (s : SnapshotSession) (rest : List SnapshotSession) (i : IrcServer) {modes : Modes}
    → read_modes s.modes no_modes ≡ some modes
    → unmarshal_sessions (s ∷ rest) i
      ≡ unmarshal_sessions rest (add_session (read_session s modes) i)
unfolding unmarshal_sessions
unmarshal_sessions_step s rest i h = ground arith

pub unmarshal_sessions-marshal_sessions :
    (heap : ℕ → Session) (m : Map RobustId ℕ) (i : IrcServer)
    → AreStorable heap m
    → unmarshal_sessions (marshal_sessions heap m) i ≡ some (add_sessions heap m i)
unfolding marshal_sessions
unmarshal_sessions-marshal_sessions heap [] i h = unfold unmarshal_sessions in refl
unmarshal_sessions-marshal_sessions heap ((id, r) ∷ m) i (h, hs) =
    unmarshal_sessions_step (marshal_session id (heap r)) (marshal_sessions heap m) i (
      ap (λ (letters : List Text). read_modes letters no_modes) (marshal_session-modes id (heap r))
      ∙ read_modes-marshal_modes (heap r).modes h.letters)
    ∙ ap (λ (s : Session). unmarshal_sessions (marshal_sessions heap m) (add_session s i))
        (read_session-marshal_session id (heap r) h)
    ∙ unmarshal_sessions-marshal_sessions heap m (add_session (heap r) i) hs

-- Every reference in the map is allocated.
abbrev pub Allocated {ℓ} : {K : Type ℓ} ⦃e : Eq K⦄ → Map K ℕ → ℕ → Type ℓ
Allocated {K} m n = (k : K) (r : ℕ) → lookup k m ≡ some r → r < n

module _ {ℓ} {K : Type ℓ} ⦃e : Eq K⦄ (m : Map K ℕ) (n : ℕ) (allocated : Allocated m n) where
  Allocated-insert : (k : K) → Allocated (insert k n m) (suc n)
  Allocated-insert k j r h = ground (arith, lookup-insert k j n m, allocated j r)

  map-lookup-insert :
      (k j : K) (s : Session) (heap : ℕ → Session)
      → Option.map (set_session n s heap) (lookup j (insert k n m))
        ≡ (if k == j then some s else Option.map heap (lookup j m))
  unfolding set_session
  map-lookup-insert k j s heap = elim (Option-cases (lookup j m)) [
    | inl free ↦ rw (lookup-insert k j n m) (ground arith)
    | inr (r, found) ↦ rw (lookup-insert k j n m) (ground (arith, allocated j r found))
  ]

-- Both maps hold allocated references only, as in a new server.
pub record HasAllocated (i : IrcServer) : Type 0 where
  pub of_sessions : Allocated i.sessions i.next_ref
  pub of_nicks : Allocated i.nicks i.next_ref

add_session-HasAllocated :
    (s : Session) (i : IrcServer) → HasAllocated i → HasAllocated (add_session s i)
unfolding add_session
add_session-HasAllocated s i h = record {
  of_sessions = Allocated-insert i.sessions i.next_ref h.of_sessions s.id;
  of_nicks = Allocated-insert i.nicks i.next_ref h.of_nicks (nick_to_lower s.nick);
}

add_session-id :
    (s : Session) (i : IrcServer) (id : RobustId)
    → HasAllocated i
    → session_with_id id (add_session s i) ≡ (if s.id == id then some s else session_with_id id i)
unfolding add_session
add_session-id s i id h = map-lookup-insert i.sessions i.next_ref h.of_sessions s.id id s i.heap

add_session-nick :
    (s : Session) (i : IrcServer) (nick : Text)
    → HasAllocated i
    → session_with_nick nick (add_session s i)
      ≡ (if nick_to_lower s.nick == nick then some s else session_with_nick nick i)
unfolding add_session
add_session-nick s i nick h =
    map-lookup-insert i.nicks i.next_ref h.of_nicks (nick_to_lower s.nick) nick s i.heap

-- The value, or a default.
abbrev pub or_else {ℓ} : {A : Type ℓ} → Option A → Option A → Option A
or_else none d = d
or_else (some a) d = some a

pub add_sessions-id :
    (heap : ℕ → Session) (m : Map RobustId ℕ) (i : IrcServer) (id : RobustId)
    → HasAllocated i
    → AreStorable heap m
    → Distinct (keys m)
    → session_with_id id (add_sessions heap m i)
      ≡ or_else (Option.map heap (lookup id m)) (session_with_id id i)
unfolding lookup
add_sessions-id heap [] i id h stored distinct = refl
add_sessions-id heap ((key, r) ∷ m) i id h (s, stored) (once, distinct) =
    add_sessions-id heap m (add_session (heap r) i) id (add_session-HasAllocated (heap r) i h)
      stored distinct
    ∙ ground (
      arith,
      add_session-id (heap r) i id h,
      s.own_id,
      lookup-elem key m once,
      id_eq.beq_iff key id,
    )

pub add_sessions-nick :
    (heap : ℕ → Session) (m : Map RobustId ℕ) (i : IrcServer) (nick : Text)
    → HasAllocated i
    → session_with_nick nick (add_sessions heap m i)
      ≡ or_else (Option.map heap (carrier nick heap m)) (session_with_nick nick i)
add_sessions-nick heap [] i nick h = refl
add_sessions-nick heap ((key, r) ∷ m) i nick h =
    add_sessions-nick heap m (add_session (heap r) i) nick (add_session-HasAllocated (heap r) i h)
    ∙ ground (arith, add_session-nick (heap r) i nick h)

services_step :
    (heap : ℕ → Session) (key : RobustId) (r : ℕ) (m : Map RobustId ℕ) (i : IrcServer)
    → (heap r).id ≡ key
    → (add_session (heap r) i).server_sessions ++ server_ids heap m
      ≡ i.server_sessions ++ server_ids heap ((key, r) ∷ m)
unfolding add_session
services_step heap key r m i own = elim (Bool-cases (heap r).server) [
  | inl e ↦ rw (e, own) (append_assoc i.server_sessions (key.id ∷ []) (server_ids heap m))
  | inr e ↦ rw e refl
]

pub add_sessions-services :
    (heap : ℕ → Session) (m : Map RobustId ℕ) (i : IrcServer)
    → AreStorable heap m
    → (add_sessions heap m i).server_sessions ≡ i.server_sessions ++ server_ids heap m
add_sessions-services heap [] i stored = sym (append-nil i.server_sessions)
add_sessions-services heap ((key, r) ∷ m) i (s, stored) =
    add_sessions-services heap m (add_session (heap r) i) stored
    ∙ services_step heap key r m i s.own_id

-- What adding a session leaves as it is.
pub record KeepsRest (i j : IrcServer) : Type 0 where
  pub channels : j.channels ≡ i.channels
  pub svsholds : j.svsholds ≡ i.svsholds

pub add_sessions-KeepsRest :
    (heap : ℕ → Session) (m : Map RobustId ℕ) (i : IrcServer) → KeepsRest i (add_sessions heap m i)
unfolding add_session
add_sessions-KeepsRest heap [] i = record { channels = refl; svsholds = refl }
add_sessions-KeepsRest heap ((key, r) ∷ m) i =
    let rest = add_sessions-KeepsRest heap m (add_session (heap r) i) in
    record { channels = rest.channels; svsholds = rest.svsholds }
