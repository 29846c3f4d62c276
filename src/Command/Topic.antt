-- ===== src/Command/Topic.antt =====
-- cmd_topic.go
use robustirc.Base.{
  Bool, [], elem, false, if◌then◌else◌, length, nat_beq, nat_eq, not, option_case, ℕ, ◌&&◌, ◌-◌,
  ◌/◌, ◌==◌, ◌∷◌,
}
use robustirc.Config.{second}
use robustirc.Handler.{Handler, no_such_channel, not_chanop, not_on_channel}
use robustirc.Irc.{Env, Msg}
use robustirc.Robust.{id_eq, unix_epoch}
use robustirc.Run.{M, deref, done, param, pure, ◌>>=◌, ◌>>◌}
use robustirc.Send.{
  find_channel, is_chanop, prefixed_msg, reply_user, send_channel, send_services, update_channel,
}
use robustirc.Server.{Channel}
use robustirc.Text.{Text, decimal, text, text_eq}
use robustirc.Text.Case.{chan_to_lower}

module _ ⦃env : Env⦄ where
  -- whether mode +t keeps the user from changing the topic; the second test is made only if the
  -- first holds
  unfoldable pub topic_locked : Channel → Text → M Bool
  topic_locked c nick =
      if c.modes b't' then (do op ← is_chanop c nick; pure (not op)) else pure false

  -- "TOPIC :", i.e. unset the topic
  unfoldable pub unset_topic : ℕ → Msg → Text → Channel → M (Unit {0})
  unset_topic s msg channel c = do
    u ← deref s
    locked ← topic_locked c u.nick
    if locked then not_chanop s channel else do
      update_channel (chan_to_lower channel)
          (λ c. record c { topic_nick = []; topic_time = 0; topic = [] })
      send_channel (chan_to_lower channel)
          (prefixed_msg u.irc_prefix (text "TOPIC") (channel ∷ env.trailing msg ∷ []))
      send_services (
          prefixed_msg (record { name = u.nick; user = []; host = [] }) (text "TOPIC")
            (channel ∷ u.nick ∷ text "0" ∷ env.trailing msg ∷ []))
      done

  -- "TOPIC", i.e. get the topic
  unfoldable pub get_topic : ℕ → Text → Channel → M (Unit {0})
  get_topic s channel c = do
    u ← deref s
    if nat_beq c.topic_time 0
        then reply_user s (text "331") (u.nick ∷ channel ∷ text "No topic is set" ∷ [])
        else do
          reply_user s (text "332") (u.nick ∷ channel ∷ c.topic ∷ [])
          reply_user s (text "333") (
              u.nick ∷ channel ∷ c.topic_nick ∷ decimal ((c.topic_time - unix_epoch) / second) ∷ [])

  unfoldable pub set_topic : ℕ → Msg → Text → Channel → M (Unit {0})
  set_topic s msg channel c = do
    u ← deref s
    locked ← topic_locked c u.nick
    if locked then not_chanop s channel else do
      update_channel (chan_to_lower channel) (λ c. record c {
        topic_nick = u.nick;
        topic_time = u.last_activity;
        topic = env.trailing msg;
      })
      send_channel (chan_to_lower channel)
          (prefixed_msg u.irc_prefix (text "TOPIC") (channel ∷ env.trailing msg ∷ []))
      send_services (
          prefixed_msg (record { name = u.nick; user = []; host = [] }) (text "TOPIC")
            (channel
              ∷ u.nick
              ∷ decimal ((u.last_activity - unix_epoch) / second)
              ∷ env.trailing msg
              ∷ []))
      done

  unfoldable pub topic_of : ℕ → Msg → Text → Channel → M (Unit {0})
  topic_of s msg channel c = do
    u ← deref s
    if env.trailing msg == [] && nat_beq (length msg.params) 2
        then unset_topic s msg channel c
        else if not (elem (chan_to_lower channel) u.channels)
        then not_on_channel s channel
        else if nat_beq (length msg.params) 1
        then get_topic s channel c
        else set_topic s msg channel c

  unfoldable pub cmd_topic : Handler
  cmd_topic s msg = do
    channel ← param msg 0
    found ← find_channel channel
    option_case found (no_such_channel s channel) (λ c. topic_of s msg channel c)
