-- ===== src/ServerCommand/Message.antt =====
-- scmd_privmsg.go and scmd_topic.go
use robustirc.Base.{
  [], if◌then◌else◌, length, list_case, nat_beq, nat_eq, option_case, sum_case, ℕ, ◌&&◌, ◌++◌, ◌==◌,
  ◌∷◌,
}
use robustirc.Handler.{Handler}
use robustirc.Irc.{Env, Msg, Prefix}
use robustirc.Robust.{id_eq}
use robustirc.Run.{M, done, param, prefix_of, ◌>>=◌, ◌>>◌}
use robustirc.Send.{
  find_channel, find_nick, prefixed_msg, reply_services, send_channel, send_user, update_channel,
}
use robustirc.ServerCommand.Channels.{server_no_channel, services_prefix}
use robustirc.Text.{Text, has_prefix, text, text_eq}
use robustirc.Text.Case.{chan_to_lower}

module _ ⦃env : Env⦄ where
  unfoldable pub server_privmsg_to : Msg → Prefix → Text → M (Unit {0})
  server_privmsg_to msg prefix target = do
    channel ← find_channel target
    session ← find_nick target
    let message = prefixed_msg (services_prefix prefix) msg.command (target ∷ env.trailing msg ∷ [])
    if has_prefix target (text "#")
        then option_case channel
            (reply_services (text "403") (prefix.name ∷ target ∷ text "No such channel" ∷ []))
            (λ c. send_channel (chan_to_lower target) message >> done)
        else option_case session
            (reply_services (text "401") (prefix.name ∷ target ∷ text "No such nick/channel" ∷ []))
            (λ r. send_user r message >> done)

  unfoldable pub cmd_server_privmsg : Handler
  cmd_server_privmsg s msg = do
    prefix ← prefix_of msg
    list_case msg.params
        (reply_services (text "411")
          (prefix.name ∷ (text "No recipient given (" ++ (msg.command ++ text ")")) ∷ []))
        (λ target _.
          if env.trailing msg == []
          then reply_services (text "412") (prefix.name ∷ text "No text to send" ∷ [])
          else server_privmsg_to msg prefix target)

  unfoldable pub server_set_topic : Msg → Text → Text → ℕ → Text → M (Unit {0})
  server_set_topic msg channel nick time topic = do
    prefix ← prefix_of msg
    update_channel (chan_to_lower channel)
        (λ c. record c { topic_nick = nick; topic_time = time; topic = topic })
    send_channel (chan_to_lower channel)
        (prefixed_msg (services_prefix prefix) (text "TOPIC") (channel ∷ env.trailing msg ∷ []))
    done

  unfoldable pub server_topic_of : Msg → Text → M (Unit {0})
  server_topic_of msg channel =
      if env.trailing msg == [] && nat_beq (length msg.params) 2
      then server_set_topic msg channel [] 0 []
      else do
        ts ← param msg 2
        sum_case (env.parse_unix ts)
            (λ time. do
              nick ← param msg 1
              server_set_topic msg channel nick time (env.trailing msg))
            (λ err.
              reply_services (text "461")
                (text "*" ∷ channel ∷ (text "Could not parse timestamp: " ++ err) ∷ []))

  unfoldable pub cmd_server_topic : Handler
  cmd_server_topic s msg = do
    channel ← param msg 0
    found ← find_channel channel
    option_case found (server_no_channel msg channel (text "No such channel"))
        (λ c. server_topic_of msg channel)
