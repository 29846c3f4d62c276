-- ===== src/Tests/Delivery.antt =====
-- A message from Bob to the channel, which Alice gets.
use robustirc.Base.{List, [], elem, nat_eq, refl, true, ℕ, ◌↔◌, ◌≡◌}
use robustirc.Base.Assoc.{keys, lookup}
use robustirc.Command.Message.{cmd_privmsg}
use robustirc.Delivery.Channel.{HasOther, cmd_privmsg-HasOther, relayed}
use robustirc.Delivery.Sent.{sent}
use robustirc.Dispatch.{new_reply}
use robustirc.Examples.{chan, hello_msg, test_channel, test_env, test_server, test_state}
use robustirc.Robust.{id_eq}
use robustirc.Run.{ok}
use robustirc.Send.{on_channel}
use robustirc.Server.{set_session}
use robustirc.Sessions.{update_irc_prefix}
use robustirc.Text.{has_prefix, lower, text, text_beq, text_eq, to_lower}
use robustirc.Text.Case.{chan_to_lower, nick_to_lower, replace_bracket}

cmd_privmsg-HasOther_example :
    (ids : List ℕ) × (cmd_privmsg ⦃env = test_env⦄ 1 hello_msg test_state
      ≡ ok tt (sent test_state (relayed ⦃env = test_env⦄ 1 hello_msg chan test_server) ids))
    × ((x : ℕ) → (elem x ids ≡ true) ↔ HasOther test_server 1 x (keys test_channel.nicks))
unfolding lookup text_beq text chan_to_lower nick_to_lower replace_bracket to_lower lower
    set_session has_prefix update_irc_prefix new_reply on_channel
cmd_privmsg-HasOther_example =
    cmd_privmsg-HasOther ⦃env = test_env⦄ 1 hello_msg test_state chan test_channel (text "hello") []
      refl refl refl refl ((0, refl), ((1, refl), tt)) refl
