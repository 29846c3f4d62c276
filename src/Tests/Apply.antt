-- ===== src/Tests/Apply.antt =====
-- A log entry on which the server panics.
use robustirc.Base.{option_case, [], elem, false, nat_eq, refl, some, true, none, ◌≡◌}
use robustirc.Base.Assoc.{lookup}
use robustirc.Command.Topic.{cmd_topic, topic_locked, topic_of, unset_topic}
use robustirc.Compaction.{message_of}
use robustirc.Compaction.Apply.{
  ApplyResult, IsRetyped, Running, apply, apply-crosses_out, apply_dies, apply_done, apply_proto,
  keep_log,
}
use robustirc.Dispatch.{
  check_remote_addr, client_commands, commands, dispatch, new_reply, process_message,
  process_session, run_command,
}
use robustirc.Examples.{client_line, test_env, test_server, unset_topic_msg}
use robustirc.Fsm.{apply_irc_from_client, apply_robust_message, process}
use robustirc.Irc.{Env}
use robustirc.OutputStream.{new_output_stream}
use robustirc.Robust.{Message, MessageType, id_beq, id_eq, timestamp}
use robustirc.Run.{crash, deref, gets, modify, non_nil, param, pure, update_session, ◌>>=◌}
use robustirc.Send.{find_channel, is_chanop}
use robustirc.Server.{IrcServer, set_session}
use robustirc.Sessions.{last_post_message, get_session, update_last_client_message_id}
use robustirc.Tests.Compaction.{plain_setup}
use robustirc.Tests.RaftStore.{test_log}
use robustirc.Tests.Wire.{plain-IsLosslessWire, plain_wire}
use robustirc.Text.{lower, text, text_beq, text_eq, to_lower, to_upper, upper}
use robustirc.Text.Case.{chan_to_lower, nick_to_lower, replace_bracket}
use robustirc.Wire.{
  EntryData, RaftLog, from_proto_message, log_from_bytes, message_bytes, new_message_from_bytes,
  proto, proto_message, with_index,
}

-- Eve, who has registered and is not on the channel, takes its topic away.
abbrev topic_env : Env
topic_env = record test_env { parse_message = λ line. some unset_topic_msg }

abbrev topic_log : RaftLog (EntryData plain_wire)
topic_log = test_log 9 (client_line 9 3)

abbrev before : Running ⦃env = topic_env⦄ plain_setup
before = record {
  fsm = record {
    ircstore = plain_setup.logs.empty;
    skip_deletion_for_canary = false;
    last_snapshot_state = [];
    session_expiration = 0;
    output = new_output_stream;
  };
  server = record test_server {
    heap =
        set_session 2
          (record (test_server.heap 2) {
            logged_in = true;
            nick = text "eve";
            username = text "eve";
          })
          test_server.heap;
  };
  store = plain_setup.logs.empty;
}

abbrev running_of :
    ApplyResult ⦃env = topic_env⦄ plain_setup → Running ⦃env = topic_env⦄ plain_setup
running_of (apply_dies r) = r
running_of _ = before

abbrev after : Running ⦃env = topic_env⦄ plain_setup
after = running_of (apply ⦃env = topic_env⦄ plain_setup true topic_log before)

dies : apply ⦃env = topic_env⦄ plain_setup true topic_log before ≡ apply_dies after
unfolding apply apply_proto keep_log message_of new_message_from_bytes message_bytes with_index
    from_proto_message proto_message apply_robust_message apply_irc_from_client process
    process_message process_session update_last_client_message_id get_session lookup id_beq text
    timestamp check_remote_addr dispatch run_command commands client_commands elem text_beq to_upper
    upper ◌>>=◌ gets deref non_nil pure param update_session modify new_reply set_session
    nick_to_lower to_lower lower cmd_topic topic_of unset_topic topic_locked find_channel is_chanop
    chan_to_lower replace_bracket crash
dies = refl

apply-crosses_out_example :
    (msg : Message) × (l' : RaftLog (EntryData plain_wire)) × IsRetyped ⦃env = topic_env⦄
      plain_setup MessageType.message_of_death msg topic_log l'
    × (after.store ≡ plain_setup.logs.store 9 (proto l') before.store)
    × (log_from_bytes plain_wire (proto l') ≡ some l')
    × (server' : IrcServer) × (server'
        ≡ (update_last_client_message_id
            (record msg { type = MessageType.message_of_death })
            before.server).0)
    × (last_post_message msg.session server'
        ≡ option_case
            (lookup msg.session before.server.sessions)
            0
            (λ session. msg.client_message_id))
    × (apply ⦃env = topic_env⦄ plain_setup false l' before
        ≡ apply_done
            (record (keep_log ⦃env = topic_env⦄ plain_setup false l' before) { server = server' })
            none)
apply-crosses_out_example =
    apply-crosses_out ⦃env = topic_env⦄ plain_setup true false topic_log before after before
      plain-IsLosslessWire dies
