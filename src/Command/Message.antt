-- ===== src/Command/Message.antt =====
-- cmd_privmsg.go
use robustirc.Base.{
  Bool, [], any, elem, if◌then◌else◌, length, list_case, ltb, nat_eq, not, option_case, ℕ, ◌&&◌,
  ◌++◌, ◌==◌, ◌∷◌,
}
use robustirc.Handler.{Handler, no_such_channel, no_such_nick}
use robustirc.Irc.{Env, Msg}
use robustirc.Robust.{id_eq}
use robustirc.Run.{M, deref, done, ◌>>=◌, ◌>>◌}
use robustirc.Send.{
  find_channel, find_nick, on_channel, prefixed_msg, reply_user, send_channel_but_one, send_user,
}
use robustirc.Server.{Session}
use robustirc.Text.{Text, has_prefix, text, text_eq}
use robustirc.Text.Case.{chan_to_lower}

module _ ⦃env : Env⦄ where
  -- to a channel
  unfoldable pub privmsg_channel : ℕ → Msg → Text → M (Unit {0})
  privmsg_channel s msg target = do
    found ← find_channel target
    u ← deref s
    option_case found (no_such_channel s target) (λ c.
        if not (on_channel c u.nick) && c.modes b'n'
        then reply_user s (text "404") (u.nick ∷ c.name ∷ text "Cannot send to channel" ∷ [])
        else do
          send_channel_but_one (chan_to_lower target) s
              (prefixed_msg u.irc_prefix msg.command (target ∷ env.trailing msg ∷ []))
          done)

  -- for channelname := range session.Channels, whether the sender is on one of them
  unfoldable pub common_channel : Session → Session → Bool
  common_channel session u = any (λ channelname. elem channelname u.channels) session.channels

  unfoldable pub privmsg_user : ℕ → Msg → Text → ℕ → M (Unit {0})
  privmsg_user s msg target r = do
    u ← deref s
    session ← deref r
    if session.modes b'i' && not (common_channel session u) then done else do
      send_user r (prefixed_msg u.irc_prefix msg.command (target ∷ env.trailing msg ∷ []))
      if not (session.away_msg == []) && msg.command == text "PRIVMSG"
          then reply_user s (text "301") (u.nick ∷ target ∷ session.away_msg ∷ [])
          else done

  unfoldable pub privmsg_to : ℕ → Msg → Text → M (Unit {0})
  privmsg_to s msg target =
      if has_prefix target (text "#") then privmsg_channel s msg target else do
        found ← find_nick target
        option_case found (no_such_nick s target) (λ r. privmsg_user s msg target r)

  unfoldable pub cmd_privmsg : Handler
  cmd_privmsg s msg = do
    u ← deref s
    list_case msg.params
        (reply_user s (text "411")
          (u.nick ∷ (text "No recipient given (" ++ (msg.command ++ text ")")) ∷ []))
        (λ target _.
          if ltb (length msg.params) 2
          then reply_user s (text "412") (u.nick ∷ text "No text to send" ∷ [])
          else privmsg_to s msg target)
