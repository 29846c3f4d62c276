-- ===== src/Command/Invite.antt =====
-- cmd_invite.go
use robustirc.Base.{[], add_elem, if◌then◌else◌, nat_eq, not, option_case, ℕ, ◌&&◌, ◌++◌, ◌==◌, ◌∷◌}
use robustirc.Handler.{Handler, no_such_nick, not_chanop, not_on_channel}
use robustirc.Irc.{Env}
use robustirc.Robust.{id_eq}
use robustirc.Run.{M, deref, done, param, update_session, ◌>>=◌, ◌>>◌}
use robustirc.Send.{
  find_channel, find_nick, is_chanop, on_channel, prefixed_msg, reply_user, send_channel,
  send_services, send_user, server_msg,
}
use robustirc.Server.{Channel}
use robustirc.Text.{Text, text, text_eq}
use robustirc.Text.Case.{chan_to_lower}

module _ ⦃env : Env⦄ where
  -- after the checks
  unfoldable pub invite_session : ℕ → Text → Text → Channel → ℕ → M (Unit {0})
  invite_session s nickname channelname c r = do
    let chan = chan_to_lower channelname
    update_session r (λ v. record v { invited_to = add_elem chan v.invited_to })
    u ← deref s
    session ← deref r
    reply_user s (text "341") (u.nick ∷ session.nick ∷ c.name ∷ [])
    send_services
        (send_user r (prefixed_msg u.irc_prefix (text "INVITE") (session.nick ∷ c.name ∷ [])))
    send_channel chan (
        server_msg (text "NOTICE")
          (c.name ∷ (u.nick ++ (text " invited " ++ (nickname ++ text " into the channel."))) ∷ []))
    if session.away_msg == []
        then done
        else reply_user s (text "301") (u.nick ∷ nickname ∷ session.away_msg ∷ [])

  unfoldable pub invite_to : ℕ → Text → Text → Channel → M (Unit {0})
  invite_to s nickname channelname c = do
    u ← deref s
    found ← find_nick nickname
    if not (on_channel c u.nick)
        then not_on_channel s channelname
        else option_case found (no_such_nick s nickname) (λ r. do
          session ← deref r
          op ← is_chanop c u.nick
          if on_channel c nickname
              then reply_user s (text "443")
                  (u.nick ∷ session.nick ∷ c.name ∷ text "is already on channel" ∷ [])
              else if c.modes b'i' && not op
              then not_chanop s c.name
              else invite_session s nickname channelname c r)

  unfoldable pub cmd_invite : Handler
  cmd_invite s msg = do
    nickname ← param msg 0
    channelname ← param msg 1
    found ← find_channel channelname
    option_case found (not_on_channel s channelname) (λ c. invite_to s nickname channelname c)
