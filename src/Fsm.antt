-- ===== src/Fsm.antt =====
-- statemachine.go: the effect of one message of the replicated log on the server and the output.
pub mod Log
pub mod Seen
use robustirc.Base.{List, Option, [], inl, inr, none, some, ◌++◌, ◌∷◌}
use robustirc.Config.{Network}
use robustirc.Dispatch.{new_reply, process_message}
use robustirc.Irc.{Env, Msg}
use robustirc.OutputStream.{OutputStream, add}
use robustirc.Robust.{Message, MessageType, RobustId, irc_from_client, message_of_death, timestamp}
use robustirc.Run.{OutMsg, ok, panic}
use robustirc.Server.{IrcServer}
use robustirc.Sessions.{
  SessionError, create_session, delete_session, get_session, maybe_delete_session,
  set_last_processed, update_last_client_message_id,
}
use robustirc.Text.{Text, text}

pub record Node : Type 0 where
  pub server : IrcServer
  -- nil in a snapshot's temporary server
  pub output : Option OutputStream

-- What applyRobustMessage does: it returns, with an error or nil, or it panics.
pub data Applied : Type 0 where
  applied : Node → Option SessionError → Applied
  message_of_death_panic : Applied

-- sendMessages
unfoldable pub send_messages : List OutMsg → Option OutputStream → Option OutputStream
send_messages [] o = o
send_messages (m ∷ ms) none = none
send_messages (m ∷ ms) (some o) = some (add m ms o)

module _ ⦃env : Env⦄ where
  -- ProcessMessage, SetLastProcessed, sendMessages and MaybeDeleteSession
  unfoldable pub process : Message → Option Msg → RobustId → Node → Applied
  process msg ircmsg last n =
      elim (process_message msg ircmsg
        (record { server = n.server; reply = new_reply msg.id.id })) [
          | panic ↦ message_of_death_panic
          | ok _ st ↦
              applied
                (record {
                  server = maybe_delete_session msg.session (set_last_processed last st.server);
                  output = send_messages st.reply.messages n.output;
                })
                none
        ]

  unfoldable pub apply_delete_session : Message → Node → Applied
  apply_delete_session msg n = elim (get_session msg.session n.server) [
    | inr err ↦ applied n none
    | inl r ↦
        process msg (env.parse_message (text "QUIT :" ++ msg.payload))
          (record { id = msg.id.id; reply = 0 }) n
  ]

  unfoldable pub apply_irc_from_client : Message → Node → Applied
  apply_irc_from_client msg n =
      let (i, err) = update_last_client_message_id msg n.server in
      elim err [
        | some e ↦ applied n none
        | none ↦
            process msg (env.parse_message msg.payload) (record { id = msg.session.id; reply = 0 })
              (record n { server = i })
      ]

  -- applyRobustMessage; the configuration is parsed by config.FromString, none for an error
  unfoldable pub apply_robust_message :
      (Text → Option Network) → Message → MessageType → Node → Applied
  apply_robust_message from_string msg MessageType.message_of_death n =
      applied (record n { server = (update_last_client_message_id msg n.server).0 }) none
  apply_robust_message from_string msg MessageType.create_session n =
      let (i, err) = create_session msg.id msg.payload (timestamp msg) n.server in
      applied (record n { server = i }) err
  apply_robust_message from_string msg MessageType.delete_session n = apply_delete_session msg n
  apply_robust_message from_string msg MessageType.irc_from_client n = apply_irc_from_client msg n
  apply_robust_message from_string msg MessageType.config n = elim (from_string msg.payload) [
    | none ↦ applied n none
    | some cfg ↦
        applied
          (record n {
            server = record n.server { config = record cfg { revision = msg.revision } };
          })
          none
  ]
  apply_robust_message from_string msg _ n = applied n none
