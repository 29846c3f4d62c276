-- ===== src/Tests/State.antt =====
-- The theorems about sessions and the log at concrete inputs.
use robustirc.Base.{
  [], arith, if◌then◌else◌, inl, length, list_case, nat_eq, none, refl, some, true, ◌<◌, ◌==◌, ◌≡◌,
  ◌≤◌, ◌⊎◌,
}
use robustirc.Base.Assoc.{delete, lookup}
use robustirc.Examples.{chan, client_line, full_server, id_of, test_channel, test_env, test_server}
use robustirc.Fsm.{apply_robust_message}
use robustirc.Fsm.Log.{Applies, Applies-Answers, apply, fresh}
use robustirc.OutputStream.{get_next, new_output_stream}
use robustirc.OutputStream.Reader.{Answers}
use robustirc.Robust.{id_eq, timestamp}
use robustirc.Server.{new_irc_server}
use robustirc.Sessions.{
  create_session, delete_session, get_auth, get_nick, leave_channel, session_limit_reached,
}
use robustirc.Sessions.Create.{create_session-get_session, length-create_session}
use robustirc.Sessions.Delete.{IsGone, delete_session-IsGone, lookup-leave_channel}
use robustirc.Text.{lower, text, text_beq, text_eq, to_lower}
use robustirc.Text.Case.{chan_to_lower, nick_to_lower}
use robustirc.Robust.{MessageType}

delete_session-IsGone_example :
    IsGone (nick_to_lower (test_server.heap 1).nick) (delete_session 1 test_server)
    × (((delete_session 1 test_server).heap 1).deleted ≡ true)
delete_session-IsGone_example = delete_session-IsGone 1 test_server

create_session-get_session_example :
    ((0 < test_server.config.max_sessions)
      × (test_server.config.max_sessions ≤ length test_server.sessions)
      × (create_session (id_of 8) (text "pw") 5 test_server
          ≡ (test_server, some session_limit_reached)))
    ⊎ (((create_session (id_of 8) (text "pw") 5 test_server).1 ≡ none)
        × (get_auth (id_of 8) (create_session (id_of 8) (text "pw") 5 test_server).0
            ≡ inl (text "pw"))
        × (get_nick (id_of 8) (create_session (id_of 8) (text "pw") 5 test_server).0 ≡ [])
        × (lookup (id_of 1) (create_session (id_of 8) (text "pw") 5 test_server).0.sessions ≡ (
            if id_of 8 == id_of 1
            then some test_server.next_ref
            else lookup (id_of 1) test_server.sessions)))
create_session-get_session_example =
    create_session-get_session (id_of 8) (text "pw") 5 test_server (id_of 1)

length-create_session_example :
    length (create_session (id_of 8) (text "pw") 5 full_server).0.sessions
    ≤ full_server.config.max_sessions
length-create_session_example =
    length-create_session (id_of 8) (text "pw") 5 full_server (omega arith) (omega arith)

-- A log of one message that creates a session.
one_message :
    Applies ⦃env = test_env⦄
      (λ s. none)
      10
      (record {
        server =
            (create_session (id_of 9) (text "PING") (timestamp (client_line 9 1)) test_server).0;
        output = some new_output_stream;
      })
unfolding apply_robust_message create_session timestamp new_irc_server
one_message =
    apply 1 (record { server = test_server; output = some new_output_stream }) _
      (record (client_line 9 1) { type = MessageType.create_session }) none (fresh test_server)
      (omega arith) (omega arith) refl

Applies-Answers_example : Answers 3 new_output_stream (get_next 3 new_output_stream)
Applies-Answers_example =
    Applies-Answers ⦃env = test_env⦄ (λ s. none) 10 _ new_output_stream 3 one_message refl
      (omega arith)

lookup-leave_channel_example :
    lookup chan (leave_channel (text "bob") chan test_server).channels ≡ (
      if chan == chan
      then list_case
          (delete (text "bob") test_channel.nicks)
          none
          (λ _ _. some (record test_channel { nicks = delete (text "bob") test_channel.nicks }))
      else lookup chan test_server.channels)
unfolding text text_beq lookup chan_to_lower to_lower lower
lookup-leave_channel_example =
    lookup-leave_channel (text "bob") chan chan test_server test_channel refl refl
