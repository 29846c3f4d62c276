-- ===== src/Tests/Quit.antt =====
-- A session that quits, at a concrete input.
use robustirc.Base.{elem, inr, nat_eq, none, refl, some, ◌≡◌}
use robustirc.Base.Assoc.{delete, insert, lookup}
use robustirc.Command.Oper.{cmd_quit}
use robustirc.Dispatch.{
  check_remote_addr, client_commands, commands, dispatch, new_reply, process_message,
  process_session, run_command,
}
use robustirc.Examples.{id_of, quit_line, quit_node, test_env, test_node, test_server}
use robustirc.Fsm.{applied, apply_irc_from_client, process}
use robustirc.Fsm.Seen.{client-not_yet_seen}
use robustirc.Robust.{id_beq, id_eq, timestamp}
use robustirc.Run.{deref, gets, modify, non_nil, pure, update_session, ◌>>=◌}
use robustirc.Server.{set_session}
use robustirc.Sessions.{
  delete_session, get_session, leave_channel, leave_channels, maybe_delete_channel,
  maybe_delete_session, purge_deleted, session_not_yet_seen, set_last_processed, update_irc_prefix,
  update_last_client_message_id,
}
use robustirc.Sessions.Delete.{delete_session-IsGone}
use robustirc.Sessions.Purge.{maybe_delete_session-gone, maybe_delete_session-live}
use robustirc.Text.{text, text_beq, text_eq, to_lower, to_upper, upper}
use robustirc.Text.Case.{nick_to_lower}

quit_runs : apply_irc_from_client ⦃env = test_env⦄ quit_line test_node ≡ applied quit_node none
unfolding apply_irc_from_client process process_message process_session
    update_last_client_message_id get_session lookup id_beq text timestamp check_remote_addr
    dispatch run_command commands client_commands elem text_beq to_upper upper ◌>>=◌ gets deref
    non_nil pure update_session modify cmd_quit new_reply set_session delete_session leave_channels
    leave_channel maybe_delete_channel delete nick_to_lower to_lower
quit_runs = refl

quit_gone : lookup quit_line.session quit_node.server.sessions ≡ none
unfolding apply_irc_from_client process process_message process_session
    update_last_client_message_id get_session lookup id_beq text timestamp check_remote_addr
    dispatch run_command commands client_commands elem text_beq to_upper upper ◌>>=◌ gets deref
    non_nil pure update_session modify cmd_quit new_reply set_session delete_session leave_channels
    leave_channel maybe_delete_channel delete nick_to_lower to_lower maybe_delete_session insert
    purge_deleted set_last_processed
quit_gone = refl

client-not_yet_seen_example :
    get_session quit_line.session quit_node.server ≡ inr session_not_yet_seen
unfolding lookup id_beq
client-not_yet_seen_example =
    client-not_yet_seen ⦃env = test_env⦄ quit_line test_node quit_node none 2 refl quit_runs
      quit_gone

maybe_delete_session-live_example :
    lookup (id_of 1) (maybe_delete_session (id_of 2) test_server).sessions ≡ some 0
unfolding lookup id_beq set_session update_irc_prefix
maybe_delete_session-live_example =
    maybe_delete_session-live (id_of 2) (id_of 1) 0 test_server refl refl

maybe_delete_session-gone_example :
    lookup (id_of 3) (maybe_delete_session (id_of 3) (delete_session 2 test_server)).sessions ≡ none
unfolding lookup id_beq delete_session leave_channels leave_channel maybe_delete_channel delete
    insert set_session nick_to_lower text text_beq to_lower
maybe_delete_session-gone_example =
    maybe_delete_session-gone (id_of 3) 2 (delete_session 2 test_server) refl
      (delete_session-IsGone 2 test_server).1
