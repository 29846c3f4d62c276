-- ===== src/Tests/Faults.antt =====
-- The theorems about faults at concrete inputs.
use robustirc.Base.{arith, nat_eq, none, refl, ◌≡◌}
use robustirc.Base.Assoc.{lookup}
use robustirc.Command.Topic.{cmd_topic}
use robustirc.Examples.{
  chan, full_state, nick_msg, test_channel, test_env, test_server, test_state, unset_topic_msg,
}
use robustirc.Panic.{cmd_server_nick-panic, cmd_topic-panic, svs_change_nick-lost}
use robustirc.Robust.{id_beq, id_eq}
use robustirc.Run.{panic}
use robustirc.Server.{set_session}
use robustirc.ServerCommand.Nick.{cmd_server_nick, svs_change_nick}
use robustirc.Sessions.{update_irc_prefix}
use robustirc.Text.{lower, text, text_beq, text_eq, to_lower}
use robustirc.Text.Case.{chan_to_lower, nick_to_lower, replace_bracket}

cmd_topic-panic_example : cmd_topic ⦃env = test_env⦄ 2 unset_topic_msg test_state ≡ panic
unfolding lookup text_beq text chan_to_lower nick_to_lower to_lower lower set_session
cmd_topic-panic_example =
    cmd_topic-panic ⦃env = test_env⦄ 2 unset_topic_msg test_state chan test_channel refl refl refl
      refl refl refl

cmd_server_nick-panic_example : cmd_server_nick ⦃env = test_env⦄ 0 nick_msg full_state ≡ panic
unfolding lookup text_beq text nick_to_lower replace_bracket to_lower lower set_session id_beq
    update_irc_prefix
cmd_server_nick-panic_example =
    cmd_server_nick-panic ⦃env = test_env⦄ 0 nick_msg full_state (text "NickServ") refl refl refl
      (omega arith) (omega arith) refl

svs_change_nick-lost_example :
    (((svs_change_nick ⦃env = test_env⦄ 1
          (nick_to_lower (text "bob"))
          (text "BOB")
          test_server).heap
        1).nick
      ≡ text "BOB")
    × (lookup
          (nick_to_lower (text "BOB"))
          (svs_change_nick ⦃env = test_env⦄ 1
            (nick_to_lower (text "bob"))
            (text "BOB")
            test_server).nicks
        ≡ none)
unfolding text nick_to_lower replace_bracket to_lower lower
svs_change_nick-lost_example =
    svs_change_nick-lost ⦃env = test_env⦄ 1 (text "bob") (text "BOB") test_server refl
