-- ===== src/Sessions.antt =====
-- internal/ircserver/ircserver.go: the life of sessions and channels, outside of commands.
pub mod Delete
pub mod Create
pub mod Throttle
pub mod Purge
use robustirc.Base.{
  Bool, List, Option, [], if◌then◌else◌, inl, inr, leb, length, ltb, nat_beq, nat_eq, none, not,
  remove_elem, some, suc, true, ℕ, ◌%◌, ◌&&◌, ◌*◌, ◌++◌, ◌+◌, ◌-◌, ◌^◌, ◌||◌, ◌∷◌, ◌⊎◌,
}
use robustirc.Base.Assoc.{Map, delete, insert, keys, lookup, values}
use robustirc.Config.{millisecond}
use robustirc.Robust.{Message, RobustId, id_eq, timestamp, unix_epoch}
use robustirc.Server.{Channel, IrcServer, Session, new_session, set_session}
use robustirc.Text.{Text, has_prefix, hexadecimal, text, text_eq, to_lower}
use robustirc.Text.Case.{chan_to_lower, nick_to_lower}

pub data SessionError : Type 0 where
  session_not_yet_seen no_such_session session_limit_reached : SessionError

-- updateIrcPrefix
unfoldable pub update_irc_prefix : Session → Session
update_irc_prefix s = record s {
  irc_prefix = record {
    name = s.nick;
    user = s.username;
    host = text "robust/0x" ++ hexadecimal s.id.id;
  };
}

-- createSessionLocked; the error is the second component
unfoldable pub create_session : RobustId → Text → ℕ → IrcServer → IrcServer × Option SessionError
create_session id auth timestamp i =
    let limit = i.config.max_sessions in
    if leb limit (length i.sessions) && ltb 0 limit then (i, some session_limit_reached) else (
      record i {
        heap =
            set_session i.next_ref
              (new_session id auth timestamp (timestamp - unix_epoch) (text "0")) i.heap;
        next_ref = suc i.next_ref;
        sessions = insert id i.next_ref i.sessions;
      },
      none,
    )

-- for _, s := range i.sessions { delete(s.invitedTo, lc) }
unfoldable pub forget_invites : Text → List ℕ → (ℕ → Session) → ℕ → Session
forget_invites lc [] heap = heap
forget_invites lc (r ∷ rs) heap =
    forget_invites lc rs
      (set_session r (record (heap r) { invited_to = remove_elem lc (heap r).invited_to }) heap)

-- maybeDeleteChannelLocked, of the channel with this value
unfoldable pub maybe_delete_channel : Channel → IrcServer → IrcServer
maybe_delete_channel c i = elim c.nicks [
  | [] ↦ record i {
    channels = delete (chan_to_lower c.name) i.channels;
    heap = forget_invites (chan_to_lower c.name) (values i.sessions) i.heap;
  }
  | _ ∷ _ ↦ i
]

-- delete(c.nicks, nick) and maybeDeleteChannelLocked(c), for the channel with this key
unfoldable pub leave_channel : Text → Text → IrcServer → IrcServer
leave_channel nick key i = elim (lookup key i.channels) [
  | none ↦ i
  | some c ↦
      let c' = record c { nicks = delete nick c.nicks } in
      maybe_delete_channel c' (record i { channels = insert key c' i.channels })
]

unfoldable pub leave_channels : Text → List Text → IrcServer → IrcServer
leave_channels nick [] i = i
leave_channels nick (key ∷ rest) i = leave_channels nick rest (leave_channel nick key i)

-- deleteSessionLocked
unfoldable pub delete_session : ℕ → IrcServer → IrcServer
delete_session r i =
    let nick = nick_to_lower (i.heap r).nick in
    let i' = leave_channels nick (keys i.channels) i in
    record i' {
      nicks = delete nick i'.nicks;
      heap = set_session r (record (i'.heap r) { deleted = true }) i'.heap;
    }

-- getSessionLocked; the session is given by its reference
unfoldable pub get_session : RobustId → IrcServer → ℕ ⊎ SessionError
get_session id i = elim (lookup id i.sessions) [
  | some r ↦ inl r
  | none ↦ inr (if ltb id.id i.last_processed.id then no_such_session else session_not_yet_seen)
]

abbrev pub ping_prefix : Text → Bool
ping_prefix payload = has_prefix (to_lower payload) (text "ping")

-- UpdateLastClientMessageID
unfoldable pub update_last_client_message_id : Message → IrcServer → IrcServer × Option SessionError
update_last_client_message_id msg i = elim (get_session msg.session i) [
  | inr err ↦ (i, some err)
  | inl r ↦
      let s = i.heap r in
      (
        record i {
          heap =
              set_session r
                (record s {
                  last_activity = timestamp msg;
                  last_non_ping =
                      if ping_prefix msg.payload then s.last_non_ping else timestamp msg;
                  last_client_message_id = msg.client_message_id;
                })
                i.heap;
        },
        none,
      )
]

-- SetLastProcessed
unfoldable pub set_last_processed : RobustId → IrcServer → IrcServer
set_last_processed id i = record i { last_processed = id }

unfoldable pub purge_deleted : (ℕ → Session) → Map RobustId ℕ → Map RobustId ℕ
purge_deleted heap [] = []
purge_deleted heap ((id, r) ∷ m) =
    let rest = purge_deleted heap m in if (heap r).deleted then rest else (id, r) ∷ rest

-- MaybeDeleteSession
unfoldable pub maybe_delete_session : RobustId → IrcServer → IrcServer
maybe_delete_session session i = elim (lookup session i.sessions) [
  | none ↦ i
  | some r ↦
      let s = i.heap r in
      let sessions' =
        if s.server || s.operator then purge_deleted i.heap i.sessions else i.sessions in
      record i { sessions = if s.deleted then delete session sessions' else sessions' }
]

-- GetAuth
unfoldable pub get_auth : RobustId → IrcServer → Text ⊎ SessionError
get_auth id i = elim (get_session id i) [ inr err ↦ inr err | inl r ↦ inl (i.heap r).auth ]

-- GetNick
unfoldable pub get_nick : RobustId → IrcServer → Text
get_nick id i = elim (lookup id i.sessions) [ none ↦ [] | some r ↦ (i.heap r).nick ]

-- LastPostMessage
unfoldable pub last_post_message : RobustId → IrcServer → ℕ
last_post_message id i = elim (lookup id i.sessions) [
  | none ↦ 0
  | some r ↦ (i.heap r).last_client_message_id
]

-- time.Duration(math.Pow(2, e)) * time.Millisecond, as the 64 bits of an int64. From e = 58 on they
-- are zero, also where the conversion overflows, as on amd64.
unfoldable pub delay_bits : ℕ → ℕ
delay_bits e = 2 ^ e * millisecond % 2 ^ 64

-- delay < cooloff, for the bits of a delay, which is negative from 2 ^ 63 on
unfoldable pub delay_ltb : ℕ → ℕ → Bool
delay_ltb bits cooloff = leb (2 ^ 63) bits || ltb bits cooloff

-- t.Add(delay), not before the zero time
unfoldable pub add_delay : ℕ → ℕ → ℕ
add_delay t bits = if ltb bits (2 ^ 63) then t + bits else t - (2 ^ 64 - bits)

-- The body of ThrottleUntil for one session, at a time: the session after it, and the time until
-- which it has to wait.
unfoldable pub throttle_session : ℕ → ℕ → Session → Session × ℕ
throttle_session cooloff now s =
    let exponent = if ltb cooloff (now - s.last_activity) then 0 else s.throttling_exponent in
    let delay = delay_bits exponent in
    (
      record s { throttling_exponent = if delay_ltb delay cooloff then exponent + 1 else exponent },
      add_delay s.last_activity delay,
    )

-- ThrottleUntil at a time: the server after it, and the time, which is zero without a cool-off, for
-- an unknown session and for services
unfoldable pub throttle_until : RobustId → ℕ → IrcServer → IrcServer × ℕ
throttle_until id now i =
    let cooloff = i.config.post_message_cooloff in
    if nat_beq cooloff 0 then (i, 0) else elim (lookup id i.sessions) [
      | none ↦ (i, 0)
      | some r ↦
          if (i.heap r).server
          then (i, 0)
          else let (s, until) = throttle_session cooloff now (i.heap r) in
            (record i { heap = set_session r s i.heap }, until)
    ]

-- The sessions that ExpireSessions asks to delete, at a time.
unfoldable pub expired : IrcServer → ℕ → Map RobustId ℕ → List RobustId
expired i now [] = []
expired i now ((id, r) ∷ m) =
    let rest = expired i now m in
    if not (nat_beq id.reply 0)
    then rest
    else if leb (now - (i.heap r).last_activity) i.config.session_expiration
    then rest
    else id ∷ rest

unfoldable pub expire_sessions : ℕ → IrcServer → List RobustId
expire_sessions now i = expired i now i.sessions
