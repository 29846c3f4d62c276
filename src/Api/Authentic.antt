-- ===== src/Api/Authentic.antt =====
-- internal/api: whose messages reach raft, and what they hold.
use robustirc.Base.{
  Bool, Bool-cases, Option, Option-cases, [], arith, elem, false, inl, inr, nat_eq, refl, some,
  true, ℕ, ◌==◌, ◌∷◌, ◌≡◌, ◌≢◌, ◌⊎◌, ap, ◌∙◌, sym,
}
use robustirc.Api.{
  AuthError, invalid_session, no_auth, invalid_auth, Call, Outcome, Request, before, delete_session,
  dispatch_public, hand_over, handle_delete_session, handle_post_message, post_body, post_message,
  session, session_error, session_or_proxy,
}
use robustirc.Robust.{Message, MessageType, RobustId}
use robustirc.Server.{IrcServer}
use robustirc.Sessions.{SessionError, get_auth, last_post_message}
use robustirc.Text.{Text, text_beq_iff, text_eq}

before-elem : (sep : ℕ) (s : Text) → elem sep (before sep s) ≡ false
unfolding before elem
before-elem sep [] = refl
before-elem sep (c ∷ s) = ground (arith, before-elem sep s)

-- What a call may hand to raft for a session, from the state after the wait.
abbrev pub IsCallOf : Call → RobustId → IrcServer → Message → Type 0
IsCallOf post_message id i m =
    (m.type ≡ MessageType.irc_from_client)
    × (elem 10 m.payload ≡ false)
    × (last_post_message id i ≢ m.client_message_id)
IsCallOf delete_session id i m = m.type ≡ MessageType.delete_session

auth-cases :
    (a : Text ⊎ SessionError)
    → ((auth : Text) × (a ≡ inl auth)) ⊎ ((e : SessionError) × (a ≡ inr e))
auth-cases (inl auth) = inl (auth, refl)
auth-cases (inr e) = inr (e, refl)

module _ (parse_uint : Text → Option ℕ) (split_host_port : Text → Option Text) where
  session-cases :
      (r : Request) (session_id : Text) (i : IrcServer)
      → ((e : AuthError) × (session parse_uint split_host_port r session_id i ≡ inr e))
        ⊎ ((id : ℕ) × (parse_uint session_id ≡ some id)
            × (r.session_auth ≢ [])
            × (get_auth (record { id = id; reply = 0 }) i ≡ inl r.session_auth)
            × (session parse_uint split_host_port r session_id i
                ≡ inl (record { id = id; reply = 0 })))
  unfolding session
  session-cases r session_id i = elim (Option-cases (parse_uint session_id)) [
    | inl bad ↦ inl (invalid_session, rw (bad, session) refl)
    | inr (id, parsed) ↦ elim (Bool-cases (r.session_auth == [])) [
      | inl empty ↦ inl (no_auth, rw (parsed, empty, session) refl)
      | inr some_auth ↦ elim (auth-cases (get_auth (record { id = id; reply = 0 }) i)) [
        | inr (err, unknown) ↦
            inl (session_error err, rw (parsed, some_auth, unknown, session) refl)
        | inl (auth, known) ↦ elim (Bool-cases (r.session_auth == auth)) [
          | inr other ↦ inl (invalid_auth, rw (parsed, some_auth, known, other, session) refl)
          | inl same ↦ inr (
            id,
            parsed,
            (λ e. ground (arith, some_auth, text_beq_iff r.session_auth [], e)),
            known ∙ ap inl (sym ((text_beq_iff r.session_auth auth).0 same)),
            rw (parsed, some_auth, known, same, session) refl,
          )
        ]
      ]
    ]
  ]

  session_or_proxy-refused :
      (r : Request) (session_id : Text) (is_leader : Bool) (i j : IrcServer)
      (next : RobustId → IrcServer × Outcome) (e : AuthError) (m : Message)
      → session parse_uint split_host_port r session_id i ≡ inr e
      → session_or_proxy parse_uint split_host_port r session_id is_leader i next ≡ (j, hand_over m)
      → ⊥
  unfolding session_or_proxy
  session_or_proxy-refused r session_id is_leader i j next e m h out = ground (arith, h)

  post_message-IsCallOf :
      (r : Request) (id : RobustId) (is_leader : Bool) (now : ℕ) (wait : IrcServer → IrcServer)
      (i j : IrcServer) (m : Message)
      → handle_post_message parse_uint split_host_port r id is_leader now wait i ≡ (j, hand_over m)
      → (is_leader ≡ true) × (m.session ≡ id) × IsCallOf post_message id j m
  unfolding handle_post_message post_body
  post_message-IsCallOf r id is_leader now wait i j m h = elim (Option-cases r.posted) [
    | inl e ↦ absurd (ground (arith, e))
    | inr (body, e) ↦ (
      ground (arith, e),
      ground (arith, e),
      (
        ground (arith, e),
        ground (arith, e, before-elem 10 body.payload),
        (λ seen. ground (arith, e, seen)),
      ),
    )
  ]

  delete_session-IsCallOf :
      (r : Request) (id : RobustId) (is_leader : Bool) (i j : IrcServer) (m : Message)
      → ◌≡◌ {A = IrcServer × Outcome}
          (i, handle_delete_session parse_uint split_host_port r id is_leader)
          (j, hand_over m)
      → (is_leader ≡ true) × (m.session ≡ id) × IsCallOf delete_session id j m
  unfolding handle_delete_session
  delete_session-IsCallOf r id is_leader i j m h = elim (Option-cases r.quit_message) [
    | inl e ↦ absurd (ground (arith, e))
    | inr (quit, e) ↦ (ground (arith, e), ground (arith, e), ground (arith, e))
  ]

  session_or_proxy-accepted :
      (r : Request) (session_id : Text) (id : RobustId) (is_leader : Bool) (i : IrcServer)
      (next : RobustId → IrcServer × Outcome)
      → session parse_uint split_host_port r session_id i ≡ inl id
      → session_or_proxy parse_uint split_host_port r session_id is_leader i next ≡ next id
  unfolding session_or_proxy
  session_or_proxy-accepted r session_id id is_leader i next h = rw (h, session_or_proxy) refl

  -- If a POST of a message or a DELETE, with this session id in its path, hands a message to raft,
  -- then the id is a number, the header X-Session-Auth is not empty and is the secret of the session
  -- with that number, the node is the leader, and the message is for that session. A message of a
  -- POST is a line of IRC without a newline, and its client message id is not the last one of the
  -- session after the time that the handler has slept; that of a DELETE deletes the session.
  pub dispatch_public-IsCallOf :
      (call : Call) (r : Request) (session_id : Text) (is_leader : Bool) (now : ℕ)
      (wait : IrcServer → IrcServer) (i j : IrcServer) (m : Message)
      → dispatch_public parse_uint split_host_port call r session_id is_leader now wait i
        ≡ (j, hand_over m)
      → (id : ℕ) × (parse_uint session_id ≡ some id)
        × (r.session_auth ≢ [])
        × (get_auth (record { id = id; reply = 0 }) i ≡ inl r.session_auth)
        × ((is_leader ≡ true)
            × (m.session ≡ record { id = id; reply = 0 })
            × IsCallOf call (record { id = id; reply = 0 }) j m)
  unfolding dispatch_public
  dispatch_public-IsCallOf post_message r session_id is_leader now wait i j m h =
      elim (session-cases r session_id i) [
        | inl (e, refused) ↦
            absurd (session_or_proxy-refused r session_id is_leader i j _ e m refused h)
        | inr (id, parsed, given, known, accepted) ↦ (
          id,
          parsed,
          given,
          known,
          post_message-IsCallOf r (record { id = id; reply = 0 }) is_leader now wait i j m
              (sym (
                  session_or_proxy-accepted r session_id (record { id = id; reply = 0 }) is_leader i
                    (λ id. handle_post_message parse_uint split_host_port r id is_leader now wait i)
                    accepted)
                ∙ h),
        )
      ]
  dispatch_public-IsCallOf delete_session r session_id is_leader now wait i j m h =
      elim (session-cases r session_id i) [
        | inl (e, refused) ↦
            absurd (session_or_proxy-refused r session_id is_leader i j _ e m refused h)
        | inr (id, parsed, given, known, accepted) ↦ (
          id,
          parsed,
          given,
          known,
          delete_session-IsCallOf r (record { id = id; reply = 0 }) is_leader i j m
              (sym (
                  session_or_proxy-accepted r session_id (record { id = id; reply = 0 }) is_leader i
                    (λ id. (i, handle_delete_session parse_uint split_host_port r id is_leader))
                    accepted)
                ∙ h),
        )
      ]
