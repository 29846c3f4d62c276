-- ===== src/Reply/Commands.antt =====
-- Commands of clients number their messages.
use robustirc.Base.{Bool, List, Option, [], false, none, some, true, ℕ, ◌∷◌}
use robustirc.Command.Message.{cmd_privmsg, privmsg_channel, privmsg_to, privmsg_user}
use robustirc.Command.Mode.{
  announce_modes, change_ban, change_captcha_mode, change_chanop, change_mode, channel_mode,
  cmd_mode, is_change, mode_loop, mode_of_nick, query_bans, unknown_mode, user_mode,
}
use robustirc.Command.Names.{cmd_list, cmd_names, end_of_names, list_one, member_names, names_of}
use robustirc.Command.Oper.{
  become_operator, cmd_gline, cmd_kill, cmd_oper, cmd_quit, gline_session, kill_session,
}
use robustirc.Command.Simple.{
  cmd_away, cmd_ison, cmd_knock, cmd_motd, cmd_ping, cmd_userhost, knock_on,
}
use robustirc.Command.Topic.{cmd_topic, get_topic, set_topic, topic_locked, topic_of, unset_topic}
use robustirc.Command.Who.{
  cmd_who, cmd_whois, end_of_who, member_nicks, send_last, who_channel, who_members, who_reply,
  whois_channels, whois_flags, whois_of,
}
use robustirc.Handler.{no_privileges, no_such_channel, no_such_nick, not_chanop, not_on_channel}
use robustirc.Irc.{Env, Msg}
use robustirc.Modes.{ModeCmd}
use robustirc.Reply.Send.{IsNumbered, Keeps-channel_at, Keeps-session_of_nick, reply_rules}
use robustirc.Run.Keeps.{Keeps, Keeps-bind, Keeps-if, Keeps-pure}
use robustirc.Send.{MsgPtr}
use robustirc.Server.{Channel, Perms, Session}
use robustirc.Text.{Text}

module _ ⦃env : Env⦄ {msgid : ℕ} where
  pub Keeps-no_such_channel :
      (s : ℕ) (channelname : Text) → Keeps (IsNumbered msgid) (no_such_channel s channelname)
  unfolding no_such_channel
  Keeps-no_such_channel s channelname = search reply_rules depth 12

  pub Keeps-not_on_channel :
      (s : ℕ) (channelname : Text) → Keeps (IsNumbered msgid) (not_on_channel s channelname)
  unfolding not_on_channel
  Keeps-not_on_channel s channelname = search reply_rules depth 12

  pub Keeps-not_chanop :
      (s : ℕ) (channelname : Text) → Keeps (IsNumbered msgid) (not_chanop s channelname)
  unfolding not_chanop
  Keeps-not_chanop s channelname = search reply_rules depth 12

  pub Keeps-no_such_nick :
      (s : ℕ) (target : Text) → Keeps (IsNumbered msgid) (no_such_nick s target)
  unfolding no_such_nick
  Keeps-no_such_nick s target = search reply_rules depth 12

  pub Keeps-no_privileges : (s : ℕ) → Keeps (IsNumbered msgid) (no_privileges s)
  unfolding no_privileges
  Keeps-no_privileges s = search reply_rules depth 12

  pub Keeps-cmd_ping : (s : ℕ) (msg : Msg) → Keeps (IsNumbered msgid) (cmd_ping s msg)
  unfolding cmd_ping
  Keeps-cmd_ping s msg = search reply_rules depth 12

  pub Keeps-cmd_away : (s : ℕ) (msg : Msg) → Keeps (IsNumbered msgid) (cmd_away s msg)
  unfolding cmd_away
  Keeps-cmd_away s msg = search reply_rules depth 12

  pub Keeps-cmd_motd : (s : ℕ) (msg : Msg) → Keeps (IsNumbered msgid) (cmd_motd s msg)
  unfolding cmd_motd
  Keeps-cmd_motd s msg = search reply_rules depth 12

  pub Keeps-cmd_ison : (s : ℕ) (msg : Msg) → Keeps (IsNumbered msgid) (cmd_ison s msg)
  unfolding cmd_ison
  Keeps-cmd_ison s msg = search reply_rules depth 12

  pub Keeps-cmd_userhost : (s : ℕ) (msg : Msg) → Keeps (IsNumbered msgid) (cmd_userhost s msg)
  unfolding cmd_userhost
  Keeps-cmd_userhost s msg = search reply_rules depth 12

  pub Keeps-knock_on :
      (s : ℕ) (msg : Msg) (channelname : Text) (c : Channel)
      → Keeps (IsNumbered msgid) (knock_on s msg channelname c)
  unfolding knock_on
  Keeps-knock_on s msg channelname c = search reply_rules depth 12

  pub Keeps-cmd_knock : (s : ℕ) (msg : Msg) → Keeps (IsNumbered msgid) (cmd_knock s msg)
  unfolding cmd_knock
  Keeps-cmd_knock s msg = search (reply_rules, Keeps-knock_on) depth 12

  pub Keeps-privmsg_channel :
      (s : ℕ) (msg : Msg) (target : Text) → Keeps (IsNumbered msgid) (privmsg_channel s msg target)
  unfolding privmsg_channel
  Keeps-privmsg_channel s msg target = search (reply_rules, Keeps-no_such_channel) depth 12

  pub Keeps-privmsg_user :
      (s : ℕ) (msg : Msg) (target : Text) (r : ℕ)
      → Keeps (IsNumbered msgid) (privmsg_user s msg target r)
  unfolding privmsg_user
  Keeps-privmsg_user s msg target r = search reply_rules depth 12

  pub Keeps-privmsg_to :
      (s : ℕ) (msg : Msg) (target : Text) → Keeps (IsNumbered msgid) (privmsg_to s msg target)
  unfolding privmsg_to
  Keeps-privmsg_to s msg target =
      search (reply_rules, Keeps-no_such_nick, Keeps-privmsg_channel, Keeps-privmsg_user) depth 12

  pub Keeps-cmd_privmsg : (s : ℕ) (msg : Msg) → Keeps (IsNumbered msgid) (cmd_privmsg s msg)
  unfolding cmd_privmsg
  Keeps-cmd_privmsg s msg = search (reply_rules, Keeps-privmsg_to) depth 12

  pub Keeps-topic_locked :
      (c : Channel) (nick : Text) → Keeps (IsNumbered msgid) (topic_locked c nick)
  unfolding topic_locked
  Keeps-topic_locked c nick = search reply_rules depth 12

  pub Keeps-unset_topic :
      (s : ℕ) (msg : Msg) (channel : Text) (c : Channel)
      → Keeps (IsNumbered msgid) (unset_topic s msg channel c)
  unfolding unset_topic
  Keeps-unset_topic s msg channel c =
      search (reply_rules, Keeps-not_chanop, Keeps-topic_locked) depth 12

  pub Keeps-get_topic :
      (s : ℕ) (channel : Text) (c : Channel) → Keeps (IsNumbered msgid) (get_topic s channel c)
  unfolding get_topic
  Keeps-get_topic s channel c = search reply_rules depth 12

  pub Keeps-set_topic :
      (s : ℕ) (msg : Msg) (channel : Text) (c : Channel)
      → Keeps (IsNumbered msgid) (set_topic s msg channel c)
  unfolding set_topic
  Keeps-set_topic s msg channel c =
      search (reply_rules, Keeps-not_chanop, Keeps-topic_locked) depth 12

  pub Keeps-topic_of :
      (s : ℕ) (msg : Msg) (channel : Text) (c : Channel)
      → Keeps (IsNumbered msgid) (topic_of s msg channel c)
  unfolding topic_of
  Keeps-topic_of s msg channel c =
      search
        (reply_rules, Keeps-not_on_channel, Keeps-unset_topic, Keeps-get_topic, Keeps-set_topic)
        depth 12

  pub Keeps-cmd_topic : (s : ℕ) (msg : Msg) → Keeps (IsNumbered msgid) (cmd_topic s msg)
  unfolding cmd_topic
  Keeps-cmd_topic s msg = search (reply_rules, Keeps-no_such_channel, Keeps-topic_of) depth 12

  pub Keeps-member_names : (x0 : List (Text × Perms)) → Keeps (IsNumbered msgid) (member_names x0)
  unfolding member_names
  Keeps-member_names [] = search reply_rules depth 12
  Keeps-member_names ((nick, perms) ∷ rest) =
      Keeps-bind _ _ (Keeps-session_of_nick nick)
        (λ u. Keeps-bind _ _ (Keeps-member_names rest) (λ more. Keeps-pure _))

  pub Keeps-end_of_names :
      (s : ℕ) (channelname : Text) → Keeps (IsNumbered msgid) (end_of_names s channelname)
  unfolding end_of_names
  Keeps-end_of_names s channelname = search reply_rules depth 12

  pub Keeps-names_of :
      (s : ℕ) (channelname : Text) (c : Channel)
      → Keeps (IsNumbered msgid) (names_of s channelname c)
  unfolding names_of
  Keeps-names_of s channelname c =
      search (reply_rules, Keeps-member_names, Keeps-end_of_names) depth 12

  pub Keeps-cmd_names : (s : ℕ) (msg : Msg) → Keeps (IsNumbered msgid) (cmd_names s msg)
  unfolding cmd_names
  Keeps-cmd_names s msg = search (reply_rules, Keeps-end_of_names, Keeps-names_of) depth 12

  pub Keeps-list_one : (s : ℕ) (channel : Text) → Keeps (IsNumbered msgid) (list_one s channel)
  unfolding list_one
  Keeps-list_one s channel = search reply_rules depth 12

  pub Keeps-cmd_list : (s : ℕ) (msg : Msg) → Keeps (IsNumbered msgid) (cmd_list s msg)
  unfolding cmd_list
  Keeps-cmd_list s msg = search (reply_rules, Keeps-list_one) depth 12

  pub Keeps-end_of_who :
      (u : Session) (channelname : Text) → Keeps (IsNumbered msgid) (end_of_who u channelname)
  unfolding end_of_who
  Keeps-end_of_who u channelname = search reply_rules depth 12

  pub Keeps-send_last : (s : ℕ) (lastmsg : MsgPtr) → Keeps (IsNumbered msgid) (send_last s lastmsg)
  unfolding send_last
  Keeps-send_last s lastmsg = search reply_rules depth 12

  pub Keeps-member_nicks : (x0 : List Text) → Keeps (IsNumbered msgid) (member_nicks x0)
  unfolding member_nicks
  Keeps-member_nicks [] = search reply_rules depth 12
  Keeps-member_nicks (nick ∷ rest) =
      Keeps-bind _ _ (Keeps-session_of_nick nick)
        (λ u. Keeps-bind _ _ (Keeps-member_nicks rest) (λ more. Keeps-pure _))

  pub Keeps-who_reply :
      (s : ℕ) (channelname : Text) (nick : Text)
      → Keeps (IsNumbered msgid) (who_reply s channelname nick)
  unfolding who_reply
  Keeps-who_reply s channelname nick = search reply_rules depth 12

  pub Keeps-who_members :
      (s : ℕ) (channelname : Text) (lastmsg : MsgPtr) (c : Channel)
      → Keeps (IsNumbered msgid) (who_members s channelname lastmsg c)
  unfolding who_members
  Keeps-who_members s channelname lastmsg c =
      search (reply_rules, Keeps-send_last, Keeps-member_nicks, Keeps-who_reply) depth 12

  pub Keeps-who_channel :
      (s : ℕ) (channelname : Text) → Keeps (IsNumbered msgid) (who_channel s channelname)
  unfolding who_channel
  Keeps-who_channel s channelname =
      search (reply_rules, Keeps-end_of_who, Keeps-send_last, Keeps-who_members) depth 12

  pub Keeps-cmd_who : (s : ℕ) (msg : Msg) → Keeps (IsNumbered msgid) (cmd_who s msg)
  unfolding cmd_who
  Keeps-cmd_who s msg = search (reply_rules, Keeps-who_channel) depth 12

  pub Keeps-whois_channels :
      (x0 : Session) (x1 : Session) (x2 : List Text)
      → Keeps (IsNumbered msgid) (whois_channels x0 x1 x2)
  unfolding whois_channels
  Keeps-whois_channels u session [] = search reply_rules depth 12
  Keeps-whois_channels u session (channel ∷ rest) =
      Keeps-bind _ _ (Keeps-channel_at channel)
        (λ c. Keeps-bind _ _ (Keeps-whois_channels u session rest) (λ more. search reply_rules))

  pub Keeps-whois_flags :
      (s : ℕ) (u : Session) (session : Session) → Keeps (IsNumbered msgid) (whois_flags s u session)
  unfolding whois_flags
  Keeps-whois_flags s u session = search reply_rules depth 12

  pub Keeps-whois_of : (s : ℕ) (r : ℕ) → Keeps (IsNumbered msgid) (whois_of s r)
  unfolding whois_of
  Keeps-whois_of s r = search (reply_rules, Keeps-whois_channels, Keeps-whois_flags) depth 12

  pub Keeps-cmd_whois : (s : ℕ) (msg : Msg) → Keeps (IsNumbered msgid) (cmd_whois s msg)
  unfolding cmd_whois
  Keeps-cmd_whois s msg = search (reply_rules, Keeps-no_such_nick, Keeps-whois_of) depth 12

  pub Keeps-unknown_mode : (s : ℕ) (char : ℕ) → Keeps (IsNumbered msgid) (unknown_mode s char)
  unfolding unknown_mode
  Keeps-unknown_mode s char = search reply_rules depth 12

  pub Keeps-change_chanop :
      (s : ℕ) (channelname : Text) (mode : ModeCmd)
      → Keeps (IsNumbered msgid) (change_chanop s channelname mode)
  unfolding change_chanop
  Keeps-change_chanop s channelname mode = search reply_rules depth 12

  pub Keeps-change_captcha_mode :
      (s : ℕ) (channelname : Text) (mode : ModeCmd)
      → Keeps (IsNumbered msgid) (change_captcha_mode s channelname mode)
  unfolding change_captcha_mode
  Keeps-change_captcha_mode s channelname mode = search reply_rules depth 12

  pub Keeps-change_ban :
      (s : ℕ) (channelname : Text) (mode : ModeCmd)
      → Keeps (IsNumbered msgid) (change_ban s channelname mode)
  unfolding change_ban
  Keeps-change_ban s channelname mode = search reply_rules depth 12

  pub Keeps-change_mode :
      (s : ℕ) (channelname : Text) (mode : ModeCmd)
      → Keeps (IsNumbered msgid) (change_mode s channelname mode)
  unfolding change_mode
  Keeps-change_mode s channelname mode =
      search
        (
          reply_rules, Keeps-unknown_mode, Keeps-change_chanop, Keeps-change_captcha_mode,
          Keeps-change_ban,
        )
        depth 12

  pub Keeps-query_bans :
      (s : ℕ) (channelname : Text) → Keeps (IsNumbered msgid) (query_bans s channelname)
  unfolding query_bans
  Keeps-query_bans s channelname = search reply_rules depth 12

  pub Keeps-mode_loop :
      (x0 : ℕ) (x1 : Text) (x2 : Bool) (x3 : Bool) (x4 : List ModeCmd)
      → Keeps (IsNumbered msgid) (mode_loop x0 x1 x2 x3 x4)
  unfolding mode_loop
  Keeps-mode_loop s channelname is_op query_only [] =
      search (reply_rules, Keeps-not_chanop, Keeps-change_mode, Keeps-query_bans) depth 12
  Keeps-mode_loop s channelname is_op query_only (mode ∷ modes) =
      Keeps-if (is_change mode) _ _
        (Keeps-if is_op _ _
          (Keeps-bind _ _ (Keeps-change_mode s channelname mode)
            (λ _. Keeps-mode_loop s channelname is_op false modes))
          (search (reply_rules, Keeps-not_chanop)))
        (Keeps-bind _ _ (Keeps-query_bans s channelname)
          (λ _. Keeps-mode_loop s channelname is_op query_only modes))

  pub Keeps-announce_modes :
      (x0 : ℕ) (x1 : Text) (x2 : List ModeCmd) (x3 : Option Bool)
      → Keeps (IsNumbered msgid) (announce_modes x0 x1 x2 x3)
  unfolding announce_modes
  Keeps-announce_modes s channelname modes none = search reply_rules depth 12
  Keeps-announce_modes s channelname modes (some true) = search reply_rules depth 12
  Keeps-announce_modes s channelname modes (some false) = search reply_rules depth 12

  pub Keeps-channel_mode :
      (x0 : ℕ) (x1 : Text) (x2 : List ModeCmd) → Keeps (IsNumbered msgid) (channel_mode x0 x1 x2)
  unfolding channel_mode
  Keeps-channel_mode s channelname [] =
      search (reply_rules, Keeps-mode_loop, Keeps-announce_modes) depth 12
  Keeps-channel_mode s channelname (mode ∷ modes) =
      search (reply_rules, Keeps-mode_loop, Keeps-announce_modes) depth 12

  pub Keeps-user_mode :
      (x0 : ℕ) (x1 : ℕ) (x2 : List ModeCmd) → Keeps (IsNumbered msgid) (user_mode x0 x1 x2)
  unfolding user_mode
  Keeps-user_mode s r [] = search reply_rules depth 12
  Keeps-user_mode s r (mode ∷ modes) = search reply_rules depth 12

  pub Keeps-mode_of_nick :
      (x0 : ℕ) (x1 : Msg) (x2 : Text) (x3 : Option ℕ)
      → Keeps (IsNumbered msgid) (mode_of_nick x0 x1 x2 x3)
  unfolding mode_of_nick
  Keeps-mode_of_nick s msg target none =
      search (reply_rules, Keeps-not_on_channel, Keeps-user_mode) depth 12
  Keeps-mode_of_nick s msg target (some r) =
      search (reply_rules, Keeps-not_on_channel, Keeps-user_mode) depth 12

  pub Keeps-cmd_mode : (s : ℕ) (msg : Msg) → Keeps (IsNumbered msgid) (cmd_mode s msg)
  unfolding cmd_mode
  Keeps-cmd_mode s msg = search (reply_rules, Keeps-channel_mode, Keeps-mode_of_nick) depth 12

  pub Keeps-become_operator : (s : ℕ) → Keeps (IsNumbered msgid) (become_operator s)
  unfolding become_operator
  Keeps-become_operator s = search reply_rules depth 12

  pub Keeps-cmd_oper : (s : ℕ) (msg : Msg) → Keeps (IsNumbered msgid) (cmd_oper s msg)
  unfolding cmd_oper
  Keeps-cmd_oper s msg = search (reply_rules, Keeps-become_operator) depth 12

  pub Keeps-kill_session :
      (s : ℕ) (msg : Msg) (r : ℕ) → Keeps (IsNumbered msgid) (kill_session s msg r)
  unfolding kill_session
  Keeps-kill_session s msg r = search reply_rules depth 12

  pub Keeps-cmd_kill : (s : ℕ) (msg : Msg) → Keeps (IsNumbered msgid) (cmd_kill s msg)
  unfolding cmd_kill
  Keeps-cmd_kill s msg =
      search (reply_rules, Keeps-no_such_nick, Keeps-no_privileges, Keeps-kill_session) depth 12

  pub Keeps-gline_session :
      (s : ℕ) (msg : Msg) (r : ℕ) → Keeps (IsNumbered msgid) (gline_session s msg r)
  unfolding gline_session
  Keeps-gline_session s msg r = search (reply_rules, Keeps-cmd_kill) depth 12

  pub Keeps-cmd_gline : (s : ℕ) (msg : Msg) → Keeps (IsNumbered msgid) (cmd_gline s msg)
  unfolding cmd_gline
  Keeps-cmd_gline s msg =
      search (reply_rules, Keeps-no_such_nick, Keeps-no_privileges, Keeps-gline_session) depth 12

  pub Keeps-cmd_quit : (s : ℕ) (msg : Msg) → Keeps (IsNumbered msgid) (cmd_quit s msg)
  unfolding cmd_quit
  Keeps-cmd_quit s msg = search reply_rules depth 12

  pub ruleset command_rules = (
    reply_rules, Keeps-no_such_channel, Keeps-not_on_channel, Keeps-not_chanop, Keeps-no_such_nick,
    Keeps-no_privileges, Keeps-cmd_ping, Keeps-cmd_away, Keeps-cmd_motd, Keeps-cmd_ison,
    Keeps-cmd_userhost, Keeps-knock_on, Keeps-cmd_knock, Keeps-privmsg_channel, Keeps-privmsg_user,
    Keeps-privmsg_to, Keeps-cmd_privmsg, Keeps-topic_locked, Keeps-unset_topic, Keeps-get_topic,
    Keeps-set_topic, Keeps-topic_of, Keeps-cmd_topic, Keeps-member_names, Keeps-end_of_names,
    Keeps-names_of, Keeps-cmd_names, Keeps-list_one, Keeps-cmd_list, Keeps-end_of_who,
    Keeps-send_last, Keeps-member_nicks, Keeps-who_reply, Keeps-who_members, Keeps-who_channel,
    Keeps-cmd_who, Keeps-whois_channels, Keeps-whois_flags, Keeps-whois_of, Keeps-cmd_whois,
    Keeps-unknown_mode, Keeps-change_chanop, Keeps-change_captcha_mode, Keeps-change_ban,
    Keeps-change_mode, Keeps-query_bans, Keeps-mode_loop, Keeps-announce_modes, Keeps-channel_mode,
    Keeps-user_mode, Keeps-mode_of_nick, Keeps-cmd_mode, Keeps-become_operator, Keeps-cmd_oper,
    Keeps-kill_session, Keeps-cmd_kill, Keeps-gline_session, Keeps-cmd_gline, Keeps-cmd_quit,
  )
