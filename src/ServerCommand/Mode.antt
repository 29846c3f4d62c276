-- ===== src/ServerCommand/Mode.antt =====
-- scmd_mode.go and scmd_svsmode.go
use robustirc.Base.{[], elem, if◌then◌else◌, ltb, nat_beq, nat_eq, not, option_case, ℕ, ◌&&◌, ◌∷◌}
use robustirc.Command.Mode.{set_chanop}
use robustirc.Handler.{Handler}
use robustirc.Irc.{Env, Msg}
use robustirc.Modes.{ModeCmd, irc_params, mode_char, mode_string, normalize_modes}
use robustirc.Robust.{id_eq}
use robustirc.Run.{M, deref, done, for_each, param, prefix_of, update_session, ◌>>=◌, ◌>>◌}
use robustirc.Send.{
  channel_at, find_channel, find_nick, on_channel, prefixed_msg, replies, reply_services,
  send_channel, send_user, update_channel,
}
use robustirc.Server.{set_mode}
use robustirc.ServerCommand.Channels.{server_no_channel, services_prefix}
use robustirc.Text.{Text, has_prefix, text, text_eq}
use robustirc.Text.Case.{chan_to_lower, nick_to_lower}

module _ ⦃env : Env⦄ where
  unfoldable pub server_change_chanop : Msg → Text → ModeCmd → M (Unit {0})
  server_change_chanop msg channelname mode = do
    c ← channel_at (chan_to_lower channelname)
    if on_channel c mode.arg
        then update_channel (chan_to_lower channelname)
            (set_chanop (nick_to_lower mode.arg) mode.adding)
        else do
          prefix ← prefix_of msg
          reply_services (text "441")
              (prefix.name ∷ mode.arg ∷ channelname ∷ text "They aren't on that channel" ∷ [])

  unfoldable pub server_change_mode : Msg → Text → ModeCmd → M (Unit {0})
  server_change_mode msg channelname mode =
      let char = mode_char mode in
      if elem char (b't' ∷ b's' ∷ b'r' ∷ b'i' ∷ [])
      then update_channel (chan_to_lower channelname)
          (λ c. record c { modes = set_mode char mode.adding c.modes })
      else if nat_beq char b'o'
      then server_change_chanop msg channelname mode
      else do
        prefix ← prefix_of msg
        reply_services (text "472")
            (prefix.name ∷ (char ∷ []) ∷ text "is unknown mode char to me" ∷ [])

  unfoldable pub server_mode_of : Msg → Text → M (Unit {0})
  server_mode_of msg channelname = do
    let modes = normalize_modes msg.params
    for_each modes (server_change_mode msg channelname)
    replyid ← replies
    if ltb 0 replyid then done else do
      prefix ← prefix_of msg
      send_channel (chan_to_lower channelname)
          (prefixed_msg (services_prefix prefix) (text "MODE") (channelname ∷ irc_params modes))
      done

  unfoldable pub cmd_server_mode : Handler
  cmd_server_mode s msg = do
    channelname ← param msg 0
    found ← find_channel channelname
    option_case found (server_no_channel msg channelname (text "No such nick/channel"))
        (λ c. server_mode_of msg channelname)

  unfoldable pub unknown_flag : M (Unit {0})
  unknown_flag = reply_services (text "501") (text "*" ∷ text "Unknown MODE flag" ∷ [])

  unfoldable pub svs_change : ℕ → ModeCmd → M (Unit {0})
  svs_change r mode =
      let char = mode_char mode in
      if nat_beq char b'd'
      then update_session r (λ v. record v { svid = mode.arg })
      else if nat_beq char b'r'
      then update_session r (λ v. record v { modes = set_mode b'r' mode.adding v.modes })
      else unknown_flag

  unfoldable pub svsmode_session : ℕ → Msg → ℕ → M (Unit {0})
  svsmode_session s msg r = do
    modestr ← param msg 1
    if not (has_prefix modestr (text "+")) && not (has_prefix modestr (text "-"))
        then unknown_flag
        else do
          for_each (normalize_modes msg.params) (svs_change r)
          u ← deref s
          session ← deref r
          send_user r (
              prefixed_msg u.irc_prefix (text "MODE")
                (session.nick ∷ mode_string session.modes ∷ []))
          done

  unfoldable pub cmd_server_svsmode : Handler
  cmd_server_svsmode s msg = do
    nick ← param msg 0
    found ← find_nick nick
    option_case found
        (reply_services (text "401") (text "*" ∷ nick ∷ text "No such nick/channel" ∷ []))
        (λ r. svsmode_session s msg r)
