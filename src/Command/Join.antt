-- ===== src/Command/Join.antt =====
-- cmd_join.go
use robustirc.Base.{
  Bool, List, Option, [], add_elem, drop, elem, false, get_elem?, if◌then◌else◌, leb, length, ltb,
  nat_eq, none, not, option_case, or_default, remove_elem, some, true, ℕ, ◌&&◌, ◌++◌, ◌-◌, ◌||◌,
  ◌∷◌,
}
use robustirc.Base.Assoc.{insert, keys}
use robustirc.Command.Login.{generate_captcha_url, verify_captcha}
use robustirc.Command.Mode.{cmd_mode}
use robustirc.Command.Names.{cmd_names}
use robustirc.Command.Simple.{userhost}
use robustirc.Command.Topic.{cmd_topic}
use robustirc.Handler.{Handler, no_such_channel}
use robustirc.Irc.{Env, Msg}
use robustirc.Nickname.{is_valid_channel}
use robustirc.Robust.{id_eq, unix_epoch}
use robustirc.Run.{M, deref, done, gets, modify, param, pure, update_session, ◌>>=◌, ◌>>◌}
use robustirc.Send.{
  MsgPtr, channel_at, find_channel, is_chanop, on_channel, prefixed_msg, reply_user, send_channel,
  send_services, server_msg, update_channel,
}
use robustirc.Server.{BanPattern, Channel, no_modes, set_mode}
use robustirc.Text.{Text, decimal, text, text_eq}
use robustirc.Text.Case.{chan_to_lower, nick_to_lower}
use robustirc.Text.Split.{split}

module _ ⦃env : Env⦄ where
  unfoldable pub is_banned : List BanPattern → Text → Text → Bool
  is_banned [] userhost userhost_addr = false
  is_banned (b ∷ bans) userhost userhost_addr =
      (env.matches b.source userhost || env.matches b.source userhost_addr)
      || is_banned bans userhost userhost_addr

  -- &channel{…} with modes +n and +t
  abbrev pub new_channel : Text → Channel
  new_channel name = record {
    name = name;
    topic_nick = [];
    topic_time = 0;
    topic = [];
    nicks = [];
    modes = set_mode b't' true (set_mode b'n' true no_modes);
    bans = [];
  }

  -- the answer to a join of a +x channel with no valid captcha
  unfoldable pub ask_captcha : ℕ → Channel → M (Unit {0})
  ask_captcha s c = do
    u ← deref s
    url ←
        generate_captcha_url s
          (text "join:" ++ (decimal (u.last_activity - unix_epoch) ++ (text ":" ++ c.name)))
    reply_user s (text "NOTICE")
        (u.nick ∷ (text "To join " ++ (c.name ++ (text ", please go to " ++ url))) ∷ [])
    reply_user s (text "473")
        (u.nick ∷ c.name ∷ (text "Cannot join channel (+x). Please go to " ++ url) ∷ [])

  -- the test of a +x channel
  unfoldable pub captcha_join : ℕ → Text → Channel → M Bool
  captcha_join s key c = do
    solved ← verify_captcha s key
    if solved then pure true else ask_captcha s c >> pure false

  -- Whether the user may join a channel that exists; a refusal is sent.
  unfoldable pub may_join : ℕ → Text → Text → Channel → M Bool
  may_join s channelname key c = do
    u ← deref s
    let invited = elem (chan_to_lower channelname) u.invited_to
    if c.modes b'i' && not invited
        then reply_user s (text "473") (u.nick ∷ c.name ∷ text "Cannot join channel (+i)" ∷ [])
          >> pure false
        else if c.modes b'x' && not invited
        then captcha_join s key c
        else if is_banned c.bans (env.prefix_string u.irc_prefix)
            (u.nick ++ (text "!" ++ (u.username ++ (text "@" ++ u.remote_addr))))
        then reply_user s (text "474") (u.nick ∷ c.name ∷ text "Cannot join channel (+b)" ∷ [])
          >> pure false
        else pure true

  -- &irc.Message{Command: command, Params: []string{channelname}}
  abbrev pub about : Text → Text → Msg
  about command channelname = record { prefix = none; command = command; params = channelname ∷ [] }

  -- the messages of a join, with `modesmsg` if the channel is new
  unfoldable pub announce_join : ℕ → Text → Option MsgPtr → M (Unit {0})
  announce_join s channelname modesmsg = do
    u ← deref s
    let chan = chan_to_lower channelname
    send_channel chan (prefixed_msg u.irc_prefix (text "JOIN") (channelname ∷ []))
    option_case modesmsg done (λ p. do send_channel chan (pure p); done)
    c ← channel_at chan
    op ← is_chanop c u.nick
    send_services (
        server_msg (text "SJOIN")
          (text "1" ∷ channelname ∷ ((if op then b'@' ∷ [] else []) ++ u.nick) ∷ []))
    cmd_mode s (about (text "MODE") channelname)
    cmd_topic s (about (text "TOPIC") channelname)
    cmd_names s (about (text "NAMES") channelname)

  -- From "Invites are only valid once" on.
  unfoldable pub enter_channel : ℕ → Text → Bool → Option MsgPtr → M (Unit {0})
  enter_channel s channelname is_new modesmsg = do
    let chan = chan_to_lower channelname
    c ← channel_at chan
    (if c.modes b'i' || c.modes b'x'
        then update_session s (λ u. record u { invited_to = remove_elem chan u.invited_to })
        else done)
    u ← deref s
    if on_channel c u.nick then done else do
      update_channel chan (λ c. record c {
        nicks = insert (nick_to_lower u.nick) (record { chanop = is_new; voice = false }) c.nicks;
      })
      update_session s (λ u. record u { channels = add_elem chan u.channels })
      announce_join s channelname modesmsg

  unfoldable pub join_new : ℕ → Text → M (Unit {0})
  join_new s channelname = do
    i ← gets (λ i. i)
    let limit = i.config.max_channels
    if leb limit (length i.channels) && ltb 0 limit then no_such_channel s channelname else do
      modesmsg ← server_msg (text "MODE") (channelname ∷ text "+nt" ∷ [])
      modify (λ i. record i {
        channels = insert (chan_to_lower channelname) (new_channel channelname) i.channels;
      })
      enter_channel s channelname true (some modesmsg)

  unfoldable pub join_existing : ℕ → Text → Text → Channel → M (Unit {0})
  join_existing s channelname key c = do
    allowed ← may_join s channelname key c
    if allowed then enter_channel s channelname false none else done

  unfoldable pub join_one : ℕ → Text → Text → M (Unit {0})
  join_one s channelname key =
      if not (is_valid_channel channelname) then no_such_channel s channelname else do
        found ← find_channel channelname
        option_case found (join_new s channelname) (λ c. join_existing s channelname key c)

  -- for idx, channelname := range …, with the keys that are left
  unfoldable pub join_all : ℕ → List Text → List Text → M (Unit {0})
  join_all s [] keys = done
  join_all s (channelname ∷ rest) keys =
      join_one s channelname (or_default [] (get_elem? keys 0)) >> join_all s rest (drop 1 keys)

  unfoldable pub cmd_join : Handler
  cmd_join s msg = do
    targets ← param msg 0
    join_all s (split b',' targets)
        (option_case (get_elem? msg.params 1) [] (λ keys. split b',' keys))
