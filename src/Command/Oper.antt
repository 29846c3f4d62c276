-- ===== src/Command/Oper.antt =====
-- cmd_oper.go, cmd_kill.go, cmd_gline.go and cmd_quit.go
use robustirc.Base.{
  Bool, List, [], false, if◌then◌else◌, nat_eq, not, option_case, true, ℕ, ◌&&◌, ◌++◌, ◌==◌, ◌||◌,
  ◌∷◌,
}
use robustirc.Base.Assoc.{insert}
use robustirc.Config.{IrcOp}
use robustirc.Handler.{Handler, no_privileges, no_such_nick}
use robustirc.Irc.{Env, Msg}
use robustirc.Modes.{mode_string}
use robustirc.Robust.{id_eq}
use robustirc.Run.{M, deref, done, gets, modify, param, update_session, ◌>>=◌, ◌>>◌}
use robustirc.Send.{
  bare_msg, find_nick, prefixed_msg, reply_user, send_common_channels, send_services, send_user,
  server_msg,
}
use robustirc.Server.{Session, set_mode}
use robustirc.Sessions.{delete_session}
use robustirc.Text.{Text, text, text_eq}

unfoldable pub is_operator : Text → Text → List IrcOp → Bool
is_operator name password [] = false
is_operator name password (op ∷ ops) =
    (op.name == name && op.password == password) || is_operator name password ops

module _ ⦃env : Env⦄ where
  unfoldable pub become_operator : ℕ → M (Unit {0})
  become_operator s = do
    update_session s (λ u. record u { operator = true; modes = set_mode b'o' true u.modes })
    u ← deref s
    reply_user s (text "381") (u.nick ∷ text "You are now an IRC operator" ∷ [])
    send_services (send_user s (server_msg (text "MODE") (u.nick ∷ mode_string u.modes ∷ [])))
    done

  unfoldable pub cmd_oper : Handler
  cmd_oper s msg = do
    name ← param msg 0
    password ← param msg 1
    i ← gets (λ i. i)
    u ← deref s
    if not (is_operator name password i.config.irc.operators)
        then reply_user s (text "464") (u.nick ∷ text "Password incorrect" ∷ [])
        else become_operator s

  -- "Closing Link: nick[host] (reason)"
  unfoldable pub closing_link : Session → Text → Text
  closing_link session reason =
      text "Closing Link: "
      ++ (session.nick
          ++ (text "[" ++ (session.irc_prefix.host ++ (text "] (" ++ (reason ++ text ")")))))

  unfoldable pub kill_session : ℕ → Msg → ℕ → M (Unit {0})
  kill_session s msg r = do
    modify (delete_session r)
    u ← deref s
    session ← deref r
    send_services (
        send_common_channels r (
          prefixed_msg session.irc_prefix (text "QUIT")
            ((text "Killed by " ++ (u.nick ++ (text ": " ++ env.trailing msg))) ∷ [])))
    send_user r (
        prefixed_msg u.irc_prefix (text "KILL") (
          session.nick
          ∷ (text "ircd!"
              ++ (u.irc_prefix.host
                  ++ (text "!" ++ (u.nick ++ (text " (" ++ (env.trailing msg ++ text ")"))))))
          ∷ []))
    send_user r (
        bare_msg (text "ERROR") (
          closing_link session
            (text "Killed (" ++ (u.nick ++ (text " (" ++ (env.trailing msg ++ text "))"))))
          ∷ []))
    done

  unfoldable pub cmd_kill : Handler
  cmd_kill s msg = do
    u ← deref s
    if not u.operator then no_privileges s else do
      target ← param msg 0
      found ← find_nick target
      option_case found (no_such_nick s target) (λ r. kill_session s msg r)

  unfoldable pub gline_session : ℕ → Msg → ℕ → M (Unit {0})
  gline_session s msg r = do
    u ← deref s
    session ← deref r
    if session.remote_addr == []
        then reply_user s (text "NOTICE") (
            u.nick
            ∷ (text "Cannot kill " ++ (session.nick ++ text ": no IP address known yet"))
            ∷ [])
        else do
          modify (λ i. record i {
            config = record i.config {
              banned = insert session.remote_addr (env.trailing msg) i.config.banned;
            };
          })
          cmd_kill s msg

  unfoldable pub cmd_gline : Handler
  cmd_gline s msg = do
    u ← deref s
    if not u.operator then no_privileges s else do
      target ← param msg 0
      found ← find_nick target
      option_case found (no_such_nick s target) (λ r. gline_session s msg r)

  unfoldable pub cmd_quit : Handler
  cmd_quit s msg = do
    modify (delete_session s)
    u ← deref s
    if not u.logged_in then done else do
      send_services
          (send_common_channels s (prefixed_msg u.irc_prefix (text "QUIT") (env.trailing msg ∷ [])))
      send_user s (bare_msg (text "ERROR") (closing_link u (env.trailing msg) ∷ []))
      done
