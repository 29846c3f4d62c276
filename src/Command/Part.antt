-- ===== src/Command/Part.antt =====
-- cmd_part.go and cmd_kick.go
use robustirc.Base.{[], if◌then◌else◌, nat_eq, not, option_case, remove_elem, ℕ, ◌∷◌}
use robustirc.Base.Assoc.{lookup}
use robustirc.Handler.{Handler, no_such_channel, not_chanop, not_on_channel}
use robustirc.Irc.{Env, Msg}
use robustirc.Robust.{id_eq}
use robustirc.Run.{M, deref, for_each, modify, non_nil, param, update_session, ◌>>=◌, ◌>>◌}
use robustirc.Send.{
  find_channel, find_nick, on_channel, prefixed_msg, reply_user, send_channel, send_services,
}
use robustirc.Server.{Channel, Session}
use robustirc.Sessions.{leave_channel}
use robustirc.Text.{Text, text, text_eq}
use robustirc.Text.Case.{chan_to_lower, nick_to_lower}
use robustirc.Text.Split.{split}

-- delete(session.Channels, key)
unfoldable pub forget_channel : Text → Session → Session
forget_channel key session = record session { channels = remove_elem key session.channels }

module _ ⦃env : Env⦄ where
  -- The end of PART and KICK: delete(c.nicks, …), maybeDeleteChannelLocked and
  -- delete(session.Channels, …).
  unfoldable pub remove_member : ℕ → Text → Text → M (Unit {0})
  remove_member r nick channelname = do
    modify (leave_channel (nick_to_lower nick) (chan_to_lower channelname))
    update_session r (forget_channel (chan_to_lower channelname))

  unfoldable pub part_from : ℕ → Text → Channel → M (Unit {0})
  part_from s channelname c = do
    u ← deref s
    if not (on_channel c u.nick) then not_on_channel s channelname else do
      send_services (
          send_channel (chan_to_lower channelname)
            (prefixed_msg u.irc_prefix (text "PART") (channelname ∷ [])))
      remove_member s u.nick channelname

  unfoldable pub part_one : ℕ → Text → M (Unit {0})
  part_one s channelname = do
    found ← find_channel channelname
    option_case found (no_such_channel s channelname) (λ c. part_from s channelname c)

  unfoldable pub cmd_part : Handler
  cmd_part s msg = do targets ← param msg 0; for_each (split b',' targets) (part_one s)

  -- after the checks
  unfoldable pub kick_member : ℕ → Msg → Text → Text → M (Unit {0})
  kick_member s msg channelname target = do
    u ← deref s
    session ← find_nick target
    send_services (
        send_channel (chan_to_lower channelname)
          (prefixed_msg u.irc_prefix (text "KICK") (channelname ∷ target ∷ env.trailing msg ∷ [])))
    modify (leave_channel (nick_to_lower target) (chan_to_lower channelname))
    r ← non_nil session
    update_session r (forget_channel (chan_to_lower channelname))

  unfoldable pub kick_from : ℕ → Msg → Text → Text → Channel → M (Unit {0})
  kick_from s msg channelname target c = do
    u ← deref s
    option_case (lookup (nick_to_lower u.nick) c.nicks) (not_on_channel s channelname) (λ perms.
        if not perms.chanop
        then not_chanop s channelname
        else if not (on_channel c target)
        then reply_user s (text "441")
            (u.nick ∷ target ∷ channelname ∷ text "They aren't on that channel" ∷ [])
        else kick_member s msg channelname target)

  unfoldable pub cmd_kick : Handler
  cmd_kick s msg = do
    channelname ← param msg 0
    found ← find_channel channelname
    u ← deref s
    option_case found
        (reply_user s (text "403") (u.nick ∷ channelname ∷ text "No such nick/channel" ∷ []))
        (λ c. do target ← param msg 1; kick_from s msg channelname target c)
