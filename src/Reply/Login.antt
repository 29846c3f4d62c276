-- ===== src/Reply/Login.antt =====
-- Logging in, joining and leaving number their messages.
use robustirc.Base.{Bool, List, Option, [], ℕ, ◌∷◌}
use robustirc.Base.Assoc.{keys}
use robustirc.Command.Invite.{cmd_invite, invite_session, invite_to}
use robustirc.Command.Join.{
  announce_join, ask_captcha, captcha_join, cmd_join, enter_channel, join_all, join_existing,
  join_new, join_one, may_join,
}
use robustirc.Command.Login.{
  cmd_pass, cmd_service_alias, cmd_user, generate_captcha_url, identify, login_captcha, login_oper,
  maybe_login, verify_captcha, welcome,
}
use robustirc.Command.Nick.{check_hold, cmd_nick, erroneous_nickname, request_nick, take_nick}
use robustirc.Command.Part.{
  cmd_kick, cmd_part, kick_from, kick_member, part_from, part_one, remove_member,
}
use robustirc.Irc.{Env, Msg}
use robustirc.Reply.Commands.{command_rules}
use robustirc.Reply.Send.{IsNumbered}
use robustirc.Run.Keeps.{Keeps, Keeps-bind}
use robustirc.Send.{MsgPtr}
use robustirc.Server.{Channel}
use robustirc.Text.{Text}

module _ ⦃env : Env⦄ {msgid : ℕ} where
  pub Keeps-generate_captcha_url :
      (s : ℕ) (purpose : Text) → Keeps (IsNumbered msgid) (generate_captcha_url s purpose)
  unfolding generate_captcha_url
  Keeps-generate_captcha_url s purpose = search command_rules depth 12

  pub Keeps-verify_captcha :
      (s : ℕ) (captcha : Text) → Keeps (IsNumbered msgid) (verify_captcha s captcha)
  unfolding verify_captcha
  Keeps-verify_captcha s captcha = search command_rules depth 12

  pub Keeps-login_captcha : (s : ℕ) → Keeps (IsNumbered msgid) (login_captcha s)
  unfolding login_captcha
  Keeps-login_captcha s =
      search (command_rules, Keeps-generate_captcha_url, Keeps-verify_captcha) depth 12

  pub Keeps-welcome : (s : ℕ) → Keeps (IsNumbered msgid) (welcome s)
  unfolding welcome
  Keeps-welcome s = search command_rules depth 12

  pub Keeps-identify : (s : ℕ) → Keeps (IsNumbered msgid) (identify s)
  unfolding identify
  Keeps-identify s = search command_rules depth 12

  pub Keeps-login_oper : (s : ℕ) → Keeps (IsNumbered msgid) (login_oper s)
  unfolding login_oper
  Keeps-login_oper s = search command_rules depth 12

  pub Keeps-maybe_login : (s : ℕ) (msg : Msg) → Keeps (IsNumbered msgid) (maybe_login s msg)
  unfolding maybe_login
  Keeps-maybe_login s msg =
      search (command_rules, Keeps-login_captcha, Keeps-welcome, Keeps-identify, Keeps-login_oper)
        depth 12

  pub Keeps-cmd_user : (s : ℕ) (msg : Msg) → Keeps (IsNumbered msgid) (cmd_user s msg)
  unfolding cmd_user
  Keeps-cmd_user s msg = search (command_rules, Keeps-maybe_login) depth 12

  pub Keeps-cmd_pass : (s : ℕ) (msg : Msg) → Keeps (IsNumbered msgid) (cmd_pass s msg)
  unfolding cmd_pass
  Keeps-cmd_pass s msg = search (command_rules, Keeps-maybe_login) depth 12

  pub Keeps-cmd_service_alias :
      (s : ℕ) (msg : Msg) → Keeps (IsNumbered msgid) (cmd_service_alias s msg)
  unfolding cmd_service_alias
  Keeps-cmd_service_alias s msg = search command_rules depth 12

  pub Keeps-erroneous_nickname :
      (s : ℕ) (dest : Text) (nick : Text) (reason : Text)
      → Keeps (IsNumbered msgid) (erroneous_nickname s dest nick reason)
  unfolding erroneous_nickname
  Keeps-erroneous_nickname s dest nick reason = search command_rules depth 12

  pub Keeps-check_hold :
      (s : ℕ) (dest : Text) (nick : Text) → Keeps (IsNumbered msgid) (check_hold s dest nick)
  unfolding check_hold
  Keeps-check_hold s dest nick = search (command_rules, Keeps-erroneous_nickname) depth 12

  pub Keeps-take_nick :
      (s : ℕ) (msg : Msg) (nick : Text) (only_caps : Bool)
      → Keeps (IsNumbered msgid) (take_nick s msg nick only_caps)
  unfolding take_nick
  Keeps-take_nick s msg nick only_caps = search (command_rules, Keeps-maybe_login) depth 12

  pub Keeps-request_nick :
      (s : ℕ) (msg : Msg) (nick : Text) → Keeps (IsNumbered msgid) (request_nick s msg nick)
  unfolding request_nick
  Keeps-request_nick s msg nick =
      search (command_rules, Keeps-erroneous_nickname, Keeps-check_hold, Keeps-take_nick) depth 12

  pub Keeps-cmd_nick : (s : ℕ) (msg : Msg) → Keeps (IsNumbered msgid) (cmd_nick s msg)
  unfolding cmd_nick
  Keeps-cmd_nick s msg = search (command_rules, Keeps-request_nick) depth 12

  pub Keeps-remove_member :
      (r : ℕ) (nick : Text) (channelname : Text)
      → Keeps (IsNumbered msgid) (remove_member r nick channelname)
  unfolding remove_member
  Keeps-remove_member r nick channelname = search command_rules depth 12

  pub Keeps-part_from :
      (s : ℕ) (channelname : Text) (c : Channel)
      → Keeps (IsNumbered msgid) (part_from s channelname c)
  unfolding part_from
  Keeps-part_from s channelname c = search (command_rules, Keeps-remove_member) depth 12

  pub Keeps-part_one :
      (s : ℕ) (channelname : Text) → Keeps (IsNumbered msgid) (part_one s channelname)
  unfolding part_one
  Keeps-part_one s channelname = search (command_rules, Keeps-part_from) depth 12

  pub Keeps-cmd_part : (s : ℕ) (msg : Msg) → Keeps (IsNumbered msgid) (cmd_part s msg)
  unfolding cmd_part
  Keeps-cmd_part s msg = search (command_rules, Keeps-part_one) depth 12

  pub Keeps-kick_member :
      (s : ℕ) (msg : Msg) (channelname : Text) (target : Text)
      → Keeps (IsNumbered msgid) (kick_member s msg channelname target)
  unfolding kick_member
  Keeps-kick_member s msg channelname target = search command_rules depth 12

  pub Keeps-kick_from :
      (s : ℕ) (msg : Msg) (channelname : Text) (target : Text) (c : Channel)
      → Keeps (IsNumbered msgid) (kick_from s msg channelname target c)
  unfolding kick_from
  Keeps-kick_from s msg channelname target c = search (command_rules, Keeps-kick_member) depth 12

  pub Keeps-cmd_kick : (s : ℕ) (msg : Msg) → Keeps (IsNumbered msgid) (cmd_kick s msg)
  unfolding cmd_kick
  Keeps-cmd_kick s msg = search (command_rules, Keeps-kick_from) depth 12

  pub Keeps-ask_captcha : (s : ℕ) (c : Channel) → Keeps (IsNumbered msgid) (ask_captcha s c)
  unfolding ask_captcha
  Keeps-ask_captcha s c = search (command_rules, Keeps-generate_captcha_url) depth 12

  pub Keeps-captcha_join :
      (s : ℕ) (key : Text) (c : Channel) → Keeps (IsNumbered msgid) (captcha_join s key c)
  unfolding captcha_join
  Keeps-captcha_join s key c =
      search (command_rules, Keeps-verify_captcha, Keeps-ask_captcha) depth 12

  pub Keeps-may_join :
      (s : ℕ) (channelname : Text) (key : Text) (c : Channel)
      → Keeps (IsNumbered msgid) (may_join s channelname key c)
  unfolding may_join
  Keeps-may_join s channelname key c = search (command_rules, Keeps-captcha_join) depth 12

  pub Keeps-announce_join :
      (s : ℕ) (channelname : Text) (modesmsg : Option MsgPtr)
      → Keeps (IsNumbered msgid) (announce_join s channelname modesmsg)
  unfolding announce_join
  Keeps-announce_join s channelname modesmsg = search command_rules depth 12

  pub Keeps-enter_channel :
      (s : ℕ) (channelname : Text) (is_new : Bool) (modesmsg : Option MsgPtr)
      → Keeps (IsNumbered msgid) (enter_channel s channelname is_new modesmsg)
  unfolding enter_channel
  Keeps-enter_channel s channelname is_new modesmsg =
      search (command_rules, Keeps-announce_join) depth 12

  pub Keeps-join_new :
      (s : ℕ) (channelname : Text) → Keeps (IsNumbered msgid) (join_new s channelname)
  unfolding join_new
  Keeps-join_new s channelname = search (command_rules, Keeps-enter_channel) depth 12

  pub Keeps-join_existing :
      (s : ℕ) (channelname : Text) (key : Text) (c : Channel)
      → Keeps (IsNumbered msgid) (join_existing s channelname key c)
  unfolding join_existing
  Keeps-join_existing s channelname key c =
      search (command_rules, Keeps-may_join, Keeps-enter_channel) depth 12

  pub Keeps-join_one :
      (s : ℕ) (channelname : Text) (key : Text)
      → Keeps (IsNumbered msgid) (join_one s channelname key)
  unfolding join_one
  Keeps-join_one s channelname key =
      search (command_rules, Keeps-join_new, Keeps-join_existing) depth 12

  pub Keeps-join_all :
      (x0 : ℕ) (x1 : List Text) (x2 : List Text) → Keeps (IsNumbered msgid) (join_all x0 x1 x2)
  unfolding join_all
  Keeps-join_all s [] keys = search (command_rules, Keeps-join_one) depth 12
  Keeps-join_all s (channelname ∷ rest) keys =
      Keeps-bind _ _ (Keeps-join_one s channelname _) (λ _. Keeps-join_all s rest _)

  pub Keeps-cmd_join : (s : ℕ) (msg : Msg) → Keeps (IsNumbered msgid) (cmd_join s msg)
  unfolding cmd_join
  Keeps-cmd_join s msg = search (command_rules, Keeps-join_all) depth 12

  pub Keeps-invite_session :
      (s : ℕ) (nickname : Text) (channelname : Text) (c : Channel) (r : ℕ)
      → Keeps (IsNumbered msgid) (invite_session s nickname channelname c r)
  unfolding invite_session
  Keeps-invite_session s nickname channelname c r = search command_rules depth 12

  pub Keeps-invite_to :
      (s : ℕ) (nickname : Text) (channelname : Text) (c : Channel)
      → Keeps (IsNumbered msgid) (invite_to s nickname channelname c)
  unfolding invite_to
  Keeps-invite_to s nickname channelname c = search (command_rules, Keeps-invite_session) depth 12

  pub Keeps-cmd_invite : (s : ℕ) (msg : Msg) → Keeps (IsNumbered msgid) (cmd_invite s msg)
  unfolding cmd_invite
  Keeps-cmd_invite s msg = search (command_rules, Keeps-invite_to) depth 12

  pub ruleset client_rules = (
    command_rules, Keeps-generate_captcha_url, Keeps-verify_captcha, Keeps-login_captcha,
    Keeps-welcome, Keeps-identify, Keeps-login_oper, Keeps-maybe_login, Keeps-cmd_user,
    Keeps-cmd_pass, Keeps-cmd_service_alias, Keeps-erroneous_nickname, Keeps-check_hold,
    Keeps-take_nick, Keeps-request_nick, Keeps-cmd_nick, Keeps-remove_member, Keeps-part_from,
    Keeps-part_one, Keeps-cmd_part, Keeps-kick_member, Keeps-kick_from, Keeps-cmd_kick,
    Keeps-ask_captcha, Keeps-captcha_join, Keeps-may_join, Keeps-announce_join, Keeps-enter_channel,
    Keeps-join_new, Keeps-join_existing, Keeps-join_one, Keeps-join_all, Keeps-cmd_join,
    Keeps-invite_session, Keeps-invite_to, Keeps-cmd_invite,
  )
