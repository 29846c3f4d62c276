-- ===== src/Api.antt =====
-- internal/api/api.go, postmessage.go, deletesession.go: the requests that put a message into the
-- log for a session, from the session's id in the path to the message that is handed to raft.
pub mod Authentic
use robustirc.Base.{
  Bool, Option, [], false, if◌then◌else◌, inl, inr, nat_beq, nat_eq, none, not, option_case,
  or_default, some, ℕ, ◌==◌, ◌∷◌, ◌⊎◌,
}
use robustirc.Base.Assoc.{lookup}
use robustirc.Robust.{Message, MessageType, RobustId}
use robustirc.Server.{IrcServer, zero_id}
use robustirc.Sessions.{
  SessionError, get_auth, last_post_message, session_not_yet_seen, throttle_until,
}
use robustirc.Text.{Text, text_eq}

-- The body of a POST, as encoding/json decodes it.
pub record PostBody : Type 0 where
  pub payload : Text
  pub client_message_id : ℕ

-- What the handlers read of an http.Request: headers, the address, and the body in the form that
-- each handler decodes, none for an error (also of http.MaxBytesReader).
pub record Request : Type 0 where
  pub session_auth : Text
  pub bridge_auth : Text
  pub forwarded_for : Text
  pub remote_addr : Text
  pub posted : Option PostBody
  pub quit_message : Option Text

-- The errors of session.
pub data AuthError : Type 0 where
  invalid_session no_auth invalid_auth : AuthError
  session_error : SessionError → AuthError

-- How a request ends before raft: with an error of HTTP, with nothing to do, at the leader, or with a
-- message for applyMessageWait.
pub data Outcome : Type 0 where
  not_found bad_request internal_error already_seen to_leader : Outcome
  hand_over : Message → Outcome

-- The two calls of dispatchPublic with a session id in the path that end in a message.
pub data Call : Type 0 where
  post_message delete_session : Call

-- strings.IndexByte or strings.Index of one character, and the slice before it
unfoldable pub before : ℕ → Text → Text
before sep [] = []
before sep (c ∷ s) = let rest = before sep s in if nat_beq c sep then [] else c ∷ rest

-- IRCServer.TrustedBridge
unfoldable pub trusted_bridge : Text → IrcServer → Text
trusted_bridge auth i =
    if auth == [] then [] else or_default [] (lookup auth i.config.trusted_bridges)

-- A message of these handlers; the id and the time are set later.
abbrev pub new_message : RobustId → MessageType → Text → Message
new_message session type payload = record {
  id = zero_id;
  session = session;
  type = type;
  payload = payload;
  unix_nano = 0;
  servers = [];
  current_master = [];
  client_message_id = 0;
  revision = 0;
  remote_addr = [];
}

-- strconv.ParseUint(s, 0, 64), and the host of net.SplitHostPort, none for an error
module _ (parse_uint : Text → Option ℕ) (split_host_port : Text → Option Text) where
  -- HTTP.session
  unfoldable pub session : Request → Text → IrcServer → RobustId ⊎ AuthError
  session r session_id i = elim (parse_uint session_id) [
    | none ↦ inr invalid_session
    | some id ↦
        if r.session_auth == []
        then inr no_auth
        else elim (get_auth (record { id = id; reply = 0 }) i) [
          | inr err ↦ inr (session_error err)
          | inl auth ↦
              if r.session_auth == auth
              then inl (record { id = id; reply = 0 })
              else inr invalid_auth
        ]
  ]

  -- The remote address in handlePostMessage
  unfoldable pub client_addr : Request → IrcServer → Text
  client_addr r i =
      let remote_addr =
        if trusted_bridge r.bridge_auth i == []
        then r.remote_addr
        else before b',' r.forwarded_for in
      option_case (split_host_port remote_addr) remote_addr (λ host. host)

  -- handlePostMessage after the wait
  unfoldable pub post_body : Request → RobustId → Bool → PostBody → IrcServer → Outcome
  post_body r session is_leader body i =
      if nat_beq (last_post_message session i) body.client_message_id
      then already_seen
      else if is_leader
      then hand_over
          (record (new_message session MessageType.irc_from_client (before 10 body.payload)) {
            client_message_id = body.client_message_id;
            remote_addr = client_addr r i;
          })
      else to_leader

  -- handlePostMessage at a time; `wait` is what others do to the server while the handler sleeps
  unfoldable pub handle_post_message :
      Request → RobustId → Bool → ℕ → (IrcServer → IrcServer) → IrcServer → IrcServer × Outcome
  handle_post_message r session is_leader now wait i =
      let i' = wait (throttle_until session now i).0 in
      (i', elim r.posted [ none ↦ bad_request | some body ↦ post_body r session is_leader body i' ])

  -- handleDeleteSession
  unfoldable pub handle_delete_session : Request → RobustId → Bool → Outcome
  handle_delete_session r session is_leader = elim r.quit_message [
    | none ↦ internal_error
    | some quit ↦
        if is_leader
        then hand_over (new_message session MessageType.delete_session quit)
        else to_leader
  ]

  -- sessionOrProxy
  unfoldable pub session_or_proxy :
      Request → Text → Bool → IrcServer → (RobustId → IrcServer × Outcome) → IrcServer × Outcome
  session_or_proxy r session_id is_leader i next = elim (session r session_id i) [
    | inl id ↦ next id
    | inr (session_error session_not_yet_seen) ↦ (i, if is_leader then not_found else to_leader)
    | inr err ↦ (i, not_found)
  ]

  -- dispatchPublic for these calls: the server after them, and how they end
  unfoldable pub dispatch_public :
      Call → Request → Text → Bool → ℕ → (IrcServer → IrcServer) → IrcServer → IrcServer × Outcome
  dispatch_public post_message r session_id is_leader now wait i =
      session_or_proxy r session_id is_leader i
        (λ session. handle_post_message r session is_leader now wait i)
  dispatch_public delete_session r session_id is_leader now wait i =
      session_or_proxy r session_id is_leader i
        (λ session. (i, handle_delete_session r session is_leader))
