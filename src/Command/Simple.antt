-- ===== src/Command/Simple.antt =====
-- cmd_ping.go, cmd_away.go, cmd_motd.go, cmd_ison.go, cmd_userhost.go, cmd_knock.go
use robustirc.Base.{
  List, [], drop, if◌then◌else◌, length, list_case, ltb, nat_eq, not, option_case, ℕ, ◌++◌, ◌==◌,
  ◌∷◌,
}
use robustirc.Base.Assoc.{lookup}
use robustirc.Handler.{Handler}
use robustirc.Irc.{Env, Msg}
use robustirc.Robust.{id_eq}
use robustirc.Run.{M, deref, gets, param, update_session, ◌>>=◌, ◌>>◌}
use robustirc.Send.{find_channel, reply_user, send_channel, server_msg}
use robustirc.Server.{Channel, IrcServer, Session}
use robustirc.Text.{Text, text, text_eq, trim_space}
use robustirc.Text.Case.{chan_to_lower, nick_to_lower}
use robustirc.Text.Split.{join}

module _ ⦃env : Env⦄ where
  unfoldable pub cmd_ping : Handler
  cmd_ping s msg = do
    u ← deref s
    list_case msg.params (reply_user s (text "409") (u.nick ∷ text "No origin specified" ∷ []))
        (λ origin _. reply_user s (text "PONG") (origin ∷ []))

  unfoldable pub cmd_away : Handler
  cmd_away s msg = do
    let away = trim_space (env.trailing msg)
    update_session s (λ u. record u { away_msg = away })
    u ← deref s
    if not (away == [])
        then reply_user s (text "306") (u.nick ∷ text "You have been marked as being away" ∷ [])
        else reply_user s (text "305") (u.nick ∷ text "You are no longer marked as being away" ∷ [])

  unfoldable pub cmd_motd : Handler
  cmd_motd s msg = do
    u ← deref s
    i ← gets (λ i. i)
    reply_user s (text "375")
        (u.nick ∷ (text "- " ++ (i.server_prefix.name ++ text " Message of the day -")) ∷ [])
    reply_user s (text "372") (u.nick ∷ text "- No MOTD configured yet." ∷ [])
    reply_user s (text "376") (u.nick ∷ text "End of MOTD command" ∷ [])

  -- the nicknames of those that are online
  unfoldable pub online : IrcServer → List Text → List Text
  online i [] = []
  online i (nickname ∷ rest) =
      let more = online i rest in
      option_case (lookup (nick_to_lower nickname) i.nicks) more (λ r. (i.heap r).nick ∷ more)

  unfoldable pub cmd_ison : Handler
  cmd_ison s msg = do
    u ← deref s
    i ← gets (λ i. i)
    reply_user s (text "303") (u.nick ∷ join (text " ") (online i msg.params) ∷ [])

  unfoldable pub userhost : Session → Text
  userhost u =
      (if u.operator then u.nick ++ text "*" else u.nick)
      ++ (text "="
          ++ ((if u.away_msg == [] then text "+" else text "-") ++ env.prefix_string u.irc_prefix))

  unfoldable pub userhosts : IrcServer → List Text → List Text
  userhosts i [] = []
  userhosts i (nickname ∷ rest) =
      let more = userhosts i rest in
      option_case (lookup (nick_to_lower nickname) i.nicks) more (λ r. userhost (i.heap r) ∷ more)

  unfoldable pub cmd_userhost : Handler
  cmd_userhost s msg = do
    u ← deref s
    i ← gets (λ i. i)
    reply_user s (text "302") (u.nick ∷ join (text " ") (userhosts i msg.params) ∷ [])

  unfoldable pub knock_on : ℕ → Msg → Text → Channel → M (Unit {0})
  knock_on s msg channelname c = do
    u ← deref s
    let reason =
        if ltb 1 (length msg.params)
        then join (text " ") (drop 1 msg.params)
        else text "no reason specified"
    send_channel (chan_to_lower channelname) (
        server_msg (text "NOTICE") (
          c.name
          ∷ (text "[Knock] by "
              ++ (env.prefix_string u.irc_prefix ++ (text " (" ++ (reason ++ text ")"))))
          ∷ []))
    reply_user s (text "NOTICE") (u.nick ∷ (text "Knocked on " ++ c.name) ∷ [])

  unfoldable pub cmd_knock : Handler
  cmd_knock s msg = do
    channelname ← param msg 0
    found ← find_channel channelname
    u ← deref s
    option_case found
        (reply_user s (text "480") (
          u.nick
          ∷ (text "Cannot knock on " ++ (channelname ++ text " (Channel does not exist)"))
          ∷ []))
        (λ c.
          if not (c.modes b'i')
          then reply_user s (text "480") (
              u.nick
              ∷ (text "Cannot knock on " ++ (channelname ++ text " (Channel is not invite only)"))
              ∷ [])
          else knock_on s msg channelname c)
