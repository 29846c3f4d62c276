-- ===== src/ServerCommand/Channels.antt =====
-- scmd_join.go, scmd_svsjoin.go, scmd_part.go, scmd_svspart.go, scmd_kick.go, scmd_invite.go
use robustirc.Base.{
  Bool, [], add_elem, false, if◌then◌else◌, nat_eq, not, option_case, true, ℕ, ◌++◌, ◌∷◌,
}
use robustirc.Base.Assoc.{insert}
use robustirc.Command.Join.{about}
use robustirc.Command.Names.{cmd_names}
use robustirc.Command.Part.{forget_channel, remove_member}
use robustirc.Command.Topic.{cmd_topic}
use robustirc.Handler.{Handler}
use robustirc.Irc.{Env, Msg, Prefix}
use robustirc.Nickname.{is_valid_channel}
use robustirc.Robust.{id_eq}
use robustirc.Run.{
  M, deref, done, for_each, modify, non_nil, param, prefix_of, pure, update_session, ◌>>=◌, ◌>>◌,
}
use robustirc.Send.{
  channel_at, find_channel, find_nick, on_channel, prefixed_msg, reply_services, send_channel,
  send_common_channels, send_services, send_user, server_msg, update_channel,
}
use robustirc.Server.{Channel, no_modes}
use robustirc.Sessions.{leave_channel}
use robustirc.Text.{Text, text, text_eq}
use robustirc.Text.Case.{chan_to_lower, nick_to_lower}
use robustirc.Text.Split.{split}

-- servicesPrefix
unfoldable pub services_prefix : Prefix → Prefix
services_prefix prefix = record {
  name = prefix.name;
  user = text "services";
  host = text "services";
}

-- &channel{…} with no modes
abbrev pub bare_channel : Text → Channel
bare_channel name = record {
  name = name;
  topic_nick = [];
  topic_time = 0;
  topic = [];
  nicks = [];
  modes = no_modes;
  bans = [];
}

-- Make the channel if it is missing; whether it was.
unfoldable pub ensure_channel : Text → M Bool
ensure_channel channelname = do
  found ← find_channel channelname
  option_case found
      (do
        modify (λ i. record i {
          channels = insert (chan_to_lower channelname) (bare_channel channelname) i.channels;
        })
        pure true)
      (λ c. pure false)

-- c.nicks[nick] = …; session.Channels[…] = true
unfoldable pub add_member : ℕ → Text → Text → Bool → M (Unit {0})
add_member r nick chan op = do
  update_channel chan
      (λ c. record c { nicks = insert nick (record { chanop = op; voice = false }) c.nicks })
  update_session r (λ v. record v { channels = add_elem chan v.channels })

module _ ⦃env : Env⦄ where
  unfoldable pub server_join_as : Prefix → Text → ℕ → M (Unit {0})
  server_join_as prefix channelname r = do
    is_new ← ensure_channel channelname
    add_member r (nick_to_lower prefix.name) (chan_to_lower channelname) is_new
    send_common_channels r (prefixed_msg (services_prefix prefix) (text "JOIN") (channelname ∷ []))
    done

  unfoldable pub server_join_one : Msg → Text → M (Unit {0})
  server_join_one msg channelname = do
    prefix ← prefix_of msg
    found ← find_nick prefix.name
    if not (is_valid_channel channelname)
        then reply_services (text "403") (prefix.name ∷ channelname ∷ text "No such channel" ∷ [])
        else option_case found
            (reply_services (text "401")
              (prefix.name ∷ channelname ∷ text "No such nick/channel" ∷ []))
            (λ r. server_join_as prefix channelname r)

  unfoldable pub cmd_server_join : Handler
  cmd_server_join s msg = do
    targets ← param msg 0
    for_each (split b',' targets) (server_join_one msg)

  unfoldable pub svsjoin_session : Text → Text → ℕ → M (Unit {0})
  svsjoin_session nick channelname r = do
    is_new ← ensure_channel channelname
    let chan = chan_to_lower channelname
    c ← channel_at chan
    session ← deref r
    if on_channel c nick then done else do
      add_member r (nick_to_lower nick) chan is_new
      send_channel chan (prefixed_msg session.irc_prefix (text "JOIN") (channelname ∷ []))
      send_services (
          server_msg (text "SJOIN")
            (text "1" ∷ channelname ∷ ((if is_new then b'@' ∷ [] else []) ++ session.nick) ∷ []))
      cmd_topic r (about (text "TOPIC") channelname)
      cmd_names r (about (text "NAMES") channelname)

  unfoldable pub cmd_server_svsjoin : Handler
  cmd_server_svsjoin s msg = do
    nick ← param msg 0
    channelname ← param msg 1
    found ← find_nick nick
    option_case found
        (do
          prefix ← prefix_of msg
          reply_services (text "401") (prefix.name ∷ nick ∷ text "No such nick/channel" ∷ []))
        (λ r. if is_valid_channel channelname then svsjoin_session nick channelname r else do
          prefix ← prefix_of msg
          reply_services (text "403") (prefix.name ∷ channelname ∷ text "No such channel" ∷ []))

  unfoldable pub server_no_channel : Msg → Text → Text → M (Unit {0})
  server_no_channel msg channelname reason = do
    prefix ← prefix_of msg
    reply_services (text "403") (prefix.name ∷ channelname ∷ reason ∷ [])

  unfoldable pub server_not_on_channel : Msg → Text → M (Unit {0})
  server_not_on_channel msg channelname = do
    prefix ← prefix_of msg
    reply_services (text "442") (prefix.name ∷ channelname ∷ text "You're not on that channel" ∷ [])

  unfoldable pub server_part_from : Msg → Text → Channel → M (Unit {0})
  server_part_from msg channelname c = do
    prefix ← prefix_of msg
    if not (on_channel c prefix.name) then server_not_on_channel msg channelname else do
      session ← find_nick prefix.name
      r ← non_nil session
      send_common_channels r
          (prefixed_msg (services_prefix prefix) (text "PART") (channelname ∷ []))
      remove_member r prefix.name channelname

  unfoldable pub server_part_one : Msg → Text → M (Unit {0})
  server_part_one msg channelname = do
    found ← find_channel channelname
    option_case found (server_no_channel msg channelname (text "No such channel"))
        (λ c. server_part_from msg channelname c)

  unfoldable pub cmd_server_part : Handler
  cmd_server_part s msg = do
    targets ← param msg 0
    for_each (split b',' targets) (server_part_one msg)

  unfoldable pub svspart_from : Msg → Text → Text → ℕ → Channel → M (Unit {0})
  svspart_from msg nick channelname r c =
      if not (on_channel c nick) then server_not_on_channel msg channelname else do
        session ← deref r
        send_services (
            send_channel (chan_to_lower channelname)
              (prefixed_msg session.irc_prefix (text "PART") (channelname ∷ [])))
        remove_member r nick channelname

  unfoldable pub cmd_server_svspart : Handler
  cmd_server_svspart s msg = do
    nick ← param msg 0
    channelname ← param msg 1
    session ← find_nick nick
    found ← find_channel channelname
    option_case session
        (do
          prefix ← prefix_of msg
          reply_services (text "401") (prefix.name ∷ nick ∷ text "No such nick/channel" ∷ []))
        (λ r.
          option_case found (server_no_channel msg channelname (text "No such channel"))
            (λ c. svspart_from msg nick channelname r c))

  unfoldable pub server_kick_from : Msg → Text → Text → Channel → M (Unit {0})
  server_kick_from msg channelname target c = do
    prefix ← prefix_of msg
    if not (on_channel c target)
        then reply_services (text "441")
            (prefix.name ∷ target ∷ channelname ∷ text "They aren't on that channel" ∷ [])
        else do
          session ← find_nick target
          send_services (
              send_channel (chan_to_lower channelname) (
                prefixed_msg (services_prefix prefix) (text "KICK")
                  (channelname ∷ target ∷ env.trailing msg ∷ [])))
          modify (leave_channel (nick_to_lower target) (chan_to_lower channelname))
          r ← non_nil session
          update_session r (forget_channel (chan_to_lower channelname))

  unfoldable pub cmd_server_kick : Handler
  cmd_server_kick s msg = do
    channelname ← param msg 0
    target ← param msg 1
    found ← find_channel channelname
    option_case found (server_no_channel msg channelname (text "No such nick/channel"))
        (λ c. server_kick_from msg channelname target c)

  unfoldable pub server_invite_to : Msg → Text → Text → ℕ → Channel → M (Unit {0})
  server_invite_to msg nickname channelname r c = do
    prefix ← prefix_of msg
    session ← deref r
    if on_channel c nickname
        then reply_services (text "443")
            (prefix.name ∷ session.nick ∷ c.name ∷ text "is already on channel" ∷ [])
        else do
          let chan = chan_to_lower channelname
          update_session r (λ v. record v { invited_to = add_elem chan v.invited_to })
          reply_services (text "341") (prefix.name ∷ nickname ∷ c.name ∷ [])
          send_user r
              (prefixed_msg (services_prefix prefix) (text "INVITE") (session.nick ∷ c.name ∷ []))
          send_channel chan (
              server_msg (text "NOTICE") (
                c.name
                ∷ (prefix.name ++ (text " invited " ++ (nickname ++ text " into the channel.")))
                ∷ []))
          done

  unfoldable pub cmd_server_invite : Handler
  cmd_server_invite s msg = do
    nickname ← param msg 0
    channelname ← param msg 1
    session ← find_nick nickname
    found ← find_channel channelname
    option_case session
        (do
          prefix ← prefix_of msg
          reply_services (text "401") (prefix.name ∷ nickname ∷ text "No such nick/channel" ∷ []))
        (λ r.
          option_case found (server_no_channel msg channelname (text "No such channel"))
            (λ c. server_invite_to msg nickname channelname r c))
