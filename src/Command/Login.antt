-- ===== src/Command/Login.antt =====
-- cmd_user.go and cmd_pass.go; maybeLogin and cmdServiceAlias of commands.go; captchas of
-- ircserver.go.
use robustirc.Base.{
  Bool, [], false, if◌then◌else◌, length, ltb, nat_eq, not, option_case, or_default, take, true, ℕ,
  ◌++◌, ◌-◌, ◌==◌, ◌||◌, ◌∷◌,
}
use robustirc.Base.Assoc.{Map, lookup}
use robustirc.Command.Message.{cmd_privmsg}
use robustirc.Command.Oper.{cmd_oper}
use robustirc.Command.Simple.{cmd_motd}
use robustirc.Config.{minute}
use robustirc.Handler.{Handler}
use robustirc.Irc.{Env}
use robustirc.Nickname.{extract_password, has_password_key, max_channel_len, max_nick_len}
use robustirc.Robust.{id_eq, unix_epoch}
use robustirc.Run.{M, crash, deref, done, gets, non_nil, param, pure, update_session, ◌>>=◌, ◌>>◌}
use robustirc.Send.{bare_msg, prefixed_msg, reply_user, send_services}
use robustirc.Sessions.{update_irc_prefix}
use robustirc.Text.{Text, decimal, text, text_eq, to_upper}
use robustirc.Text.Split.{join}

module _ ⦃env : Env⦄ where
  -- generateCaptchaURL; s.auth[:8] is out of range for a shorter secret
  unfoldable pub generate_captcha_url : ℕ → Text → M Text
  generate_captcha_url s purpose = do
    u ← deref s
    i ← gets (λ i. i)
    if ltb (length u.auth) 8
        then crash
        else pure (
            env.captcha_url i.config.captcha_url (or_default [] i.config.captcha_hmac_secret)
              purpose (take 8 u.auth))

  -- verifyCaptcha, whether it returns no error
  unfoldable pub verify_captcha : ℕ → Text → M Bool
  verify_captcha s captcha = do
    u ← deref s
    i ← gets (λ i. i)
    if ltb (u.last_activity - u.last_solved_captcha) minute
        then pure true
        else if captcha == []
        then pure false
        else if not (
            env.captcha_accepts (or_default [] i.config.captcha_hmac_secret) captcha
              u.last_activity)
        then pure false
        else do
          update_session s (λ u. record u { last_solved_captcha = u.last_activity })
          pure true

  -- the captcha of maybeLogin, whether the login goes on
  unfoldable pub login_captcha : ℕ → M Bool
  login_captcha s = do
    i ← gets (λ i. i)
    u ← deref s
    if not i.config.captcha_required_for_login then pure true else do
      solved ← verify_captcha s (extract_password u.pass (text "captcha"))
      if solved then pure true else do
        url ←
            generate_captcha_url s
              (text "login:" ++ (decimal (u.last_activity - unix_epoch) ++ text ":"))
        reply_user s (text "NOTICE") (u.nick ∷ (text "To login, please go to " ++ url) ∷ [])
        pure false

  unfoldable pub welcome : ℕ → M (Unit {0})
  welcome s = do
    u ← deref s
    i ← gets (λ i. i)
    reply_user s (text "001") (u.nick ∷ text "Welcome to RobustIRC!" ∷ [])
    reply_user s (text "002") (u.nick ∷ (text "Your host is " ++ i.server_prefix.name) ∷ [])
    reply_user s (text "003")
        (u.nick ∷ (text "This server was created " ++ env.time_string i.server_creation) ∷ [])
    reply_user s (text "004") (u.nick ∷ (i.server_prefix.name ++ text " v1 i nstix") ∷ [])
    reply_user s (text "005") (
        text "CHANTYPES=#"
        ∷ (text "CHANNELLEN=" ++ decimal max_channel_len)
        ∷ (text "NICKLEN=" ++ decimal max_nick_len)
        ∷ text "MODES=1"
        ∷ text "PREFIX=(o)@"
        ∷ text "KNOCK"
        ∷ text "are supported by this server"
        ∷ [])
    send_services (
        bare_msg (text "NICK") (
          u.nick
          ∷ text "1"
          ∷ text "1"
          ∷ u.username
          ∷ u.irc_prefix.host
          ∷ i.server_prefix.name
          ∷ u.svid
          ∷ text "+"
          ∷ u.realname
          ∷ []))
    done

  unfoldable pub identify : ℕ → M (Unit {0})
  identify s = do
    u ← deref s
    let pass = extract_password u.pass (text "nickserv")
    if pass == [] then done else do
      send_services (
          prefixed_msg u.irc_prefix (text "PRIVMSG")
            (text "NickServ" ∷ (text "IDENTIFY " ++ pass) ∷ []))
      done

  unfoldable pub login_oper : ℕ → M (Unit {0})
  login_oper s = do
    u ← deref s
    let pass = extract_password u.pass (text "oper")
    if pass == [] then done else do
      parsed ← non_nil (env.parse_message (text "OPER " ++ pass))
      if ltb 1 (length parsed.params) then cmd_oper s parsed else done

  unfoldable pub maybe_login : Handler
  maybe_login s msg = do
    u ← deref s
    if u.logged_in then done else if u.nick == [] || u.username == [] then done else do
      proceed ← login_captcha s
      if not proceed then done else do
        update_session s (λ u. record u { logged_in = true })
        welcome s
        identify s
        login_oper s
        update_session s (λ u. record u { pass = [] })
        cmd_motd s msg

  unfoldable pub cmd_user : Handler
  cmd_user s msg = do
    username ← param msg 0
    update_session s
        (λ u. update_irc_prefix (record u { username = username; realname = env.trailing msg }))
    maybe_login s msg

  -- a password with no key gets "nickserv="
  unfoldable pub with_password_key : Text → Text
  with_password_key pass = if has_password_key pass then pass else text "nickserv=" ++ pass

  unfoldable pub cmd_pass : Handler
  cmd_pass s msg = do
    update_session s (λ u. record u {
      pass =
          with_password_key
            (if ltb 0 (length msg.params) then join (text " ") msg.params else u.pass);
    })
    maybe_login s msg

  abbrev pub aliases : Map Text Text
  aliases =
      (text "NICKSERV", text "PRIVMSG NickServ :")
      ∷ (text "NS", text "PRIVMSG NickServ :")
      ∷ (text "CHANSERV", text "PRIVMSG ChanServ :")
      ∷ (text "CS", text "PRIVMSG ChanServ :")
      ∷ (text "OPERSERV", text "PRIVMSG OperServ :")
      ∷ (text "OS", text "PRIVMSG OperServ :")
      ∷ (text "MEMOSERV", text "PRIVMSG MemoServ :")
      ∷ (text "MS", text "PRIVMSG MemoServ :")
      ∷ (text "HOSTSERV", text "PRIVMSG HostServ :")
      ∷ (text "HS", text "PRIVMSG HostServ :")
      ∷ (text "BOTSERV", text "PRIVMSG BotServ :")
      ∷ (text "BS", text "PRIVMSG BotServ :")
      ∷ []

  unfoldable pub cmd_service_alias : Handler
  cmd_service_alias s msg = option_case (lookup (to_upper msg.command) aliases) done (λ expanded. do
    parsed ← non_nil (env.parse_message (expanded ++ join (text " ") msg.params))
    cmd_privmsg s parsed)
