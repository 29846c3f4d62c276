-- ===== src/Reply/Services.antt =====
-- The commands of the services number their messages.
use robustirc.Base.{Bool, ℕ}
use robustirc.Irc.{Env, Msg, Prefix}
use robustirc.Modes.{ModeCmd}
use robustirc.Reply.Login.{client_rules}
use robustirc.Reply.Send.{IsNumbered}
use robustirc.Run.Keeps.{Keeps}
use robustirc.Server.{Channel, Session}
use robustirc.ServerCommand.Channels.{
  add_member, cmd_server_invite, cmd_server_join, cmd_server_kick, cmd_server_part,
  cmd_server_svsjoin, cmd_server_svspart, ensure_channel, server_invite_to, server_join_as,
  server_join_one, server_kick_from, server_no_channel, server_not_on_channel, server_part_from,
  server_part_one, svsjoin_session, svspart_from,
}
use robustirc.ServerCommand.Message.{
  cmd_server_privmsg, cmd_server_topic, server_privmsg_to, server_set_topic, server_topic_of,
}
use robustirc.ServerCommand.Mode.{
  cmd_server_mode, cmd_server_svsmode, server_change_chanop, server_change_mode, server_mode_of,
  svs_change, svsmode_session, unknown_flag,
}
use robustirc.ServerCommand.Nick.{cmd_server_nick, cmd_server_svsnick, introduce, svsnick_session}
use robustirc.ServerCommand.Server.{
  become_server, burst_channel, burst_nick, burst_session, cmd_server,
}
use robustirc.ServerCommand.Sessions.{
  cmd_server_kill, cmd_server_quit, cmd_server_svshold, kill_prefix, quit_subsession,
  server_kill_session, server_kill_target, set_hold,
}
use robustirc.Text.{Text}

module _ ⦃env : Env⦄ {msgid : ℕ} where
  pub Keeps-ensure_channel :
      (channelname : Text) → Keeps (IsNumbered msgid) (ensure_channel channelname)
  unfolding ensure_channel
  Keeps-ensure_channel channelname = search client_rules depth 12

  pub Keeps-add_member :
      (r : ℕ) (nick : Text) (chan : Text) (op : Bool)
      → Keeps (IsNumbered msgid) (add_member r nick chan op)
  unfolding add_member
  Keeps-add_member r nick chan op = search client_rules depth 12

  pub Keeps-server_join_as :
      (prefix : Prefix) (channelname : Text) (r : ℕ)
      → Keeps (IsNumbered msgid) (server_join_as prefix channelname r)
  unfolding server_join_as
  Keeps-server_join_as prefix channelname r =
      search (client_rules, Keeps-ensure_channel, Keeps-add_member) depth 12

  pub Keeps-server_join_one :
      (msg : Msg) (channelname : Text) → Keeps (IsNumbered msgid) (server_join_one msg channelname)
  unfolding server_join_one
  Keeps-server_join_one msg channelname = search (client_rules, Keeps-server_join_as) depth 12

  pub Keeps-cmd_server_join : (s : ℕ) (msg : Msg) → Keeps (IsNumbered msgid) (cmd_server_join s msg)
  unfolding cmd_server_join
  Keeps-cmd_server_join s msg = search (client_rules, Keeps-server_join_one) depth 12

  pub Keeps-svsjoin_session :
      (nick : Text) (channelname : Text) (r : ℕ)
      → Keeps (IsNumbered msgid) (svsjoin_session nick channelname r)
  unfolding svsjoin_session
  Keeps-svsjoin_session nick channelname r =
      search (client_rules, Keeps-ensure_channel, Keeps-add_member) depth 12

  pub Keeps-cmd_server_svsjoin :
      (s : ℕ) (msg : Msg) → Keeps (IsNumbered msgid) (cmd_server_svsjoin s msg)
  unfolding cmd_server_svsjoin
  Keeps-cmd_server_svsjoin s msg = search (client_rules, Keeps-svsjoin_session) depth 12

  pub Keeps-server_no_channel :
      (msg : Msg) (channelname : Text) (reason : Text)
      → Keeps (IsNumbered msgid) (server_no_channel msg channelname reason)
  unfolding server_no_channel
  Keeps-server_no_channel msg channelname reason = search client_rules depth 12

  pub Keeps-server_not_on_channel :
      (msg : Msg) (channelname : Text)
      → Keeps (IsNumbered msgid) (server_not_on_channel msg channelname)
  unfolding server_not_on_channel
  Keeps-server_not_on_channel msg channelname = search client_rules depth 12

  pub Keeps-server_part_from :
      (msg : Msg) (channelname : Text) (c : Channel)
      → Keeps (IsNumbered msgid) (server_part_from msg channelname c)
  unfolding server_part_from
  Keeps-server_part_from msg channelname c =
      search (client_rules, Keeps-server_not_on_channel) depth 12

  pub Keeps-server_part_one :
      (msg : Msg) (channelname : Text) → Keeps (IsNumbered msgid) (server_part_one msg channelname)
  unfolding server_part_one
  Keeps-server_part_one msg channelname =
      search (client_rules, Keeps-server_no_channel, Keeps-server_part_from) depth 12

  pub Keeps-cmd_server_part : (s : ℕ) (msg : Msg) → Keeps (IsNumbered msgid) (cmd_server_part s msg)
  unfolding cmd_server_part
  Keeps-cmd_server_part s msg = search (client_rules, Keeps-server_part_one) depth 12

  pub Keeps-svspart_from :
      (msg : Msg) (nick : Text) (channelname : Text) (r : ℕ) (c : Channel)
      → Keeps (IsNumbered msgid) (svspart_from msg nick channelname r c)
  unfolding svspart_from
  Keeps-svspart_from msg nick channelname r c =
      search (client_rules, Keeps-server_not_on_channel) depth 12

  pub Keeps-cmd_server_svspart :
      (s : ℕ) (msg : Msg) → Keeps (IsNumbered msgid) (cmd_server_svspart s msg)
  unfolding cmd_server_svspart
  Keeps-cmd_server_svspart s msg =
      search (client_rules, Keeps-server_no_channel, Keeps-svspart_from) depth 12

  pub Keeps-server_kick_from :
      (msg : Msg) (channelname : Text) (target : Text) (c : Channel)
      → Keeps (IsNumbered msgid) (server_kick_from msg channelname target c)
  unfolding server_kick_from
  Keeps-server_kick_from msg channelname target c = search client_rules depth 12

  pub Keeps-cmd_server_kick : (s : ℕ) (msg : Msg) → Keeps (IsNumbered msgid) (cmd_server_kick s msg)
  unfolding cmd_server_kick
  Keeps-cmd_server_kick s msg =
      search (client_rules, Keeps-server_no_channel, Keeps-server_kick_from) depth 12

  pub Keeps-server_invite_to :
      (msg : Msg) (nickname : Text) (channelname : Text) (r : ℕ) (c : Channel)
      → Keeps (IsNumbered msgid) (server_invite_to msg nickname channelname r c)
  unfolding server_invite_to
  Keeps-server_invite_to msg nickname channelname r c = search client_rules depth 12

  pub Keeps-cmd_server_invite :
      (s : ℕ) (msg : Msg) → Keeps (IsNumbered msgid) (cmd_server_invite s msg)
  unfolding cmd_server_invite
  Keeps-cmd_server_invite s msg =
      search (client_rules, Keeps-server_no_channel, Keeps-server_invite_to) depth 12

  pub Keeps-kill_prefix : (s : ℕ) (msg : Msg) → Keeps (IsNumbered msgid) (kill_prefix s msg)
  unfolding kill_prefix
  Keeps-kill_prefix s msg = search client_rules depth 12

  pub Keeps-server_kill_session :
      (msg : Msg) (prefix : Prefix) (r : ℕ)
      → Keeps (IsNumbered msgid) (server_kill_session msg prefix r)
  unfolding server_kill_session
  Keeps-server_kill_session msg prefix r = search client_rules depth 12

  pub Keeps-server_kill_target :
      (s : ℕ) (msg : Msg) (target : Text)
      → Keeps (IsNumbered msgid) (server_kill_target s msg target)
  unfolding server_kill_target
  Keeps-server_kill_target s msg target =
      search (client_rules, Keeps-kill_prefix, Keeps-server_kill_session) depth 12

  pub Keeps-cmd_server_kill : (s : ℕ) (msg : Msg) → Keeps (IsNumbered msgid) (cmd_server_kill s msg)
  unfolding cmd_server_kill
  Keeps-cmd_server_kill s msg = search (client_rules, Keeps-server_kill_target) depth 12

  pub Keeps-quit_subsession : (msg : Msg) (r : ℕ) → Keeps (IsNumbered msgid) (quit_subsession msg r)
  unfolding quit_subsession
  Keeps-quit_subsession msg r = search client_rules depth 12

  pub Keeps-cmd_server_quit : (s : ℕ) (msg : Msg) → Keeps (IsNumbered msgid) (cmd_server_quit s msg)
  unfolding cmd_server_quit
  Keeps-cmd_server_quit s msg = search (client_rules, Keeps-quit_subsession) depth 12

  pub Keeps-set_hold :
      (s : ℕ) (msg : Msg) (nick : Text) (seconds : Text)
      → Keeps (IsNumbered msgid) (set_hold s msg nick seconds)
  unfolding set_hold
  Keeps-set_hold s msg nick seconds = search client_rules depth 12

  pub Keeps-cmd_server_svshold :
      (s : ℕ) (msg : Msg) → Keeps (IsNumbered msgid) (cmd_server_svshold s msg)
  unfolding cmd_server_svshold
  Keeps-cmd_server_svshold s msg = search (client_rules, Keeps-set_hold) depth 12

  pub Keeps-server_privmsg_to :
      (msg : Msg) (prefix : Prefix) (target : Text)
      → Keeps (IsNumbered msgid) (server_privmsg_to msg prefix target)
  unfolding server_privmsg_to
  Keeps-server_privmsg_to msg prefix target = search client_rules depth 12

  pub Keeps-cmd_server_privmsg :
      (s : ℕ) (msg : Msg) → Keeps (IsNumbered msgid) (cmd_server_privmsg s msg)
  unfolding cmd_server_privmsg
  Keeps-cmd_server_privmsg s msg = search (client_rules, Keeps-server_privmsg_to) depth 12

  pub Keeps-server_set_topic :
      (msg : Msg) (channel : Text) (nick : Text) (time : ℕ) (topic : Text)
      → Keeps (IsNumbered msgid) (server_set_topic msg channel nick time topic)
  unfolding server_set_topic
  Keeps-server_set_topic msg channel nick time topic = search client_rules depth 12

  pub Keeps-server_topic_of :
      (msg : Msg) (channel : Text) → Keeps (IsNumbered msgid) (server_topic_of msg channel)
  unfolding server_topic_of
  Keeps-server_topic_of msg channel = search (client_rules, Keeps-server_set_topic) depth 12

  pub Keeps-cmd_server_topic :
      (s : ℕ) (msg : Msg) → Keeps (IsNumbered msgid) (cmd_server_topic s msg)
  unfolding cmd_server_topic
  Keeps-cmd_server_topic s msg =
      search (client_rules, Keeps-server_no_channel, Keeps-server_topic_of) depth 12

  pub Keeps-server_change_chanop :
      (msg : Msg) (channelname : Text) (mode : ModeCmd)
      → Keeps (IsNumbered msgid) (server_change_chanop msg channelname mode)
  unfolding server_change_chanop
  Keeps-server_change_chanop msg channelname mode = search client_rules depth 12

  pub Keeps-server_change_mode :
      (msg : Msg) (channelname : Text) (mode : ModeCmd)
      → Keeps (IsNumbered msgid) (server_change_mode msg channelname mode)
  unfolding server_change_mode
  Keeps-server_change_mode msg channelname mode =
      search (client_rules, Keeps-server_change_chanop) depth 12

  pub Keeps-server_mode_of :
      (msg : Msg) (channelname : Text) → Keeps (IsNumbered msgid) (server_mode_of msg channelname)
  unfolding server_mode_of
  Keeps-server_mode_of msg channelname = search (client_rules, Keeps-server_change_mode) depth 12

  pub Keeps-cmd_server_mode : (s : ℕ) (msg : Msg) → Keeps (IsNumbered msgid) (cmd_server_mode s msg)
  unfolding cmd_server_mode
  Keeps-cmd_server_mode s msg =
      search (client_rules, Keeps-server_no_channel, Keeps-server_mode_of) depth 12

  pub Keeps-unknown_flag : Keeps (IsNumbered msgid) (unknown_flag)
  unfolding unknown_flag
  Keeps-unknown_flag = search client_rules depth 12

  pub Keeps-svs_change : (r : ℕ) (mode : ModeCmd) → Keeps (IsNumbered msgid) (svs_change r mode)
  unfolding svs_change
  Keeps-svs_change r mode = search (client_rules, Keeps-unknown_flag) depth 12

  pub Keeps-svsmode_session :
      (s : ℕ) (msg : Msg) (r : ℕ) → Keeps (IsNumbered msgid) (svsmode_session s msg r)
  unfolding svsmode_session
  Keeps-svsmode_session s msg r =
      search (client_rules, Keeps-unknown_flag, Keeps-svs_change) depth 12

  pub Keeps-cmd_server_svsmode :
      (s : ℕ) (msg : Msg) → Keeps (IsNumbered msgid) (cmd_server_svsmode s msg)
  unfolding cmd_server_svsmode
  Keeps-cmd_server_svsmode s msg = search (client_rules, Keeps-svsmode_session) depth 12

  pub Keeps-introduce :
      (s : ℕ) (msg : Msg) (nick : Text) → Keeps (IsNumbered msgid) (introduce s msg nick)
  unfolding introduce
  Keeps-introduce s msg nick = search client_rules depth 12

  pub Keeps-cmd_server_nick : (s : ℕ) (msg : Msg) → Keeps (IsNumbered msgid) (cmd_server_nick s msg)
  unfolding cmd_server_nick
  Keeps-cmd_server_nick s msg = search (client_rules, Keeps-introduce) depth 12

  pub Keeps-svsnick_session :
      (target : Text) (nick : Text) (r : ℕ)
      → Keeps (IsNumbered msgid) (svsnick_session target nick r)
  unfolding svsnick_session
  Keeps-svsnick_session target nick r = search client_rules depth 12

  pub Keeps-cmd_server_svsnick :
      (s : ℕ) (msg : Msg) → Keeps (IsNumbered msgid) (cmd_server_svsnick s msg)
  unfolding cmd_server_svsnick
  Keeps-cmd_server_svsnick s msg = search (client_rules, Keeps-svsnick_session) depth 12

  pub Keeps-burst_channel :
      (session : Session) (channelname : Text)
      → Keeps (IsNumbered msgid) (burst_channel session channelname)
  unfolding burst_channel
  Keeps-burst_channel session channelname = search client_rules depth 12

  pub Keeps-burst_session : (session : Session) → Keeps (IsNumbered msgid) (burst_session session)
  unfolding burst_session
  Keeps-burst_session session = search (client_rules, Keeps-burst_channel) depth 12

  pub Keeps-burst_nick : (nick : Text) → Keeps (IsNumbered msgid) (burst_nick nick)
  unfolding burst_nick
  Keeps-burst_nick nick = search (client_rules, Keeps-burst_session) depth 12

  pub Keeps-become_server : (s : ℕ) (name : Text) → Keeps (IsNumbered msgid) (become_server s name)
  unfolding become_server
  Keeps-become_server s name = search (client_rules, Keeps-burst_nick) depth 12

  pub Keeps-cmd_server : (s : ℕ) (msg : Msg) → Keeps (IsNumbered msgid) (cmd_server s msg)
  unfolding cmd_server
  Keeps-cmd_server s msg = search (client_rules, Keeps-become_server) depth 12

  pub ruleset service_rules = (
    client_rules, Keeps-ensure_channel, Keeps-add_member, Keeps-server_join_as,
    Keeps-server_join_one, Keeps-cmd_server_join, Keeps-svsjoin_session, Keeps-cmd_server_svsjoin,
    Keeps-server_no_channel, Keeps-server_not_on_channel, Keeps-server_part_from,
    Keeps-server_part_one, Keeps-cmd_server_part, Keeps-svspart_from, Keeps-cmd_server_svspart,
    Keeps-server_kick_from, Keeps-cmd_server_kick, Keeps-server_invite_to, Keeps-cmd_server_invite,
    Keeps-kill_prefix, Keeps-server_kill_session, Keeps-server_kill_target, Keeps-cmd_server_kill,
    Keeps-quit_subsession, Keeps-cmd_server_quit, Keeps-set_hold, Keeps-cmd_server_svshold,
    Keeps-server_privmsg_to, Keeps-cmd_server_privmsg, Keeps-server_set_topic,
    Keeps-server_topic_of, Keeps-cmd_server_topic, Keeps-server_change_chanop,
    Keeps-server_change_mode, Keeps-server_mode_of, Keeps-cmd_server_mode, Keeps-unknown_flag,
    Keeps-svs_change, Keeps-svsmode_session, Keeps-cmd_server_svsmode, Keeps-introduce,
    Keeps-cmd_server_nick, Keeps-svsnick_session, Keeps-cmd_server_svsnick, Keeps-burst_channel,
    Keeps-burst_session, Keeps-burst_nick, Keeps-become_server, Keeps-cmd_server,
  )
