-- ===== src/Command/Who.antt =====
-- cmd_who.go and cmd_whois.go
use robustirc.Base.{
  List, [], elem, if◌then◌else◌, length, list_case, ltb, nat_eq, not, option_case, ℕ, ◌&&◌, ◌++◌,
  ◌-◌, ◌/◌, ◌==◌, ◌∷◌,
}
use robustirc.Base.Assoc.{keys}
use robustirc.Config.{second}
use robustirc.Handler.{Handler, no_such_nick}
use robustirc.Irc.{Env}
use robustirc.Robust.{id_eq}
use robustirc.Run.{M, deref, done, for_each, gets, param, pure, ◌>>=◌, ◌>>◌}
use robustirc.Send.{
  MsgPtr, channel_at, find_channel, find_nick, is_chanop, on_channel, reply_user, send_user,
  server_msg, session_of_nick,
}
use robustirc.Server.{Channel, Session}
use robustirc.Text.{Text, decimal, sort_texts, text, text_eq}
use robustirc.Text.Case.{nick_to_lower}
use robustirc.Text.Split.{join}

module _ ⦃env : Env⦄ where
  unfoldable pub end_of_who : Session → Text → M MsgPtr
  end_of_who u channelname =
      server_msg (text "315") (u.nick ∷ channelname ∷ text "End of /WHO list" ∷ [])

  unfoldable pub send_last : ℕ → MsgPtr → M (Unit {0})
  send_last s lastmsg = do send_user s (pure lastmsg); done

  -- for nick := range c.nicks
  unfoldable pub member_nicks : List Text → M (List Text)
  member_nicks [] = pure []
  member_nicks (nick ∷ rest) = do
    u ← session_of_nick nick
    more ← member_nicks rest
    pure (u.nick ∷ more)

  unfoldable pub who_reply : ℕ → Text → Text → M (Unit {0})
  who_reply s channelname nick = do
    u ← deref s
    i ← gets (λ i. i)
    session ← session_of_nick (nick_to_lower nick)
    let prefix = session.irc_prefix
    reply_user s (text "352") (
        u.nick
        ∷ channelname
        ∷ prefix.user
        ∷ prefix.host
        ∷ i.server_prefix.name
        ∷ prefix.name
        ∷ (if session.away_msg == [] then text "H" else text "G")
        ∷ (text "0 " ++ session.realname)
        ∷ [])

  unfoldable pub who_members : ℕ → Text → MsgPtr → Channel → M (Unit {0})
  who_members s channelname lastmsg c = do
    nicks ← member_nicks (keys c.nicks)
    for_each (sort_texts nicks) (who_reply s channelname)
    send_last s lastmsg

  unfoldable pub who_channel : ℕ → Text → M (Unit {0})
  who_channel s channelname = do
    u ← deref s
    lastmsg ← end_of_who u channelname
    found ← find_channel channelname
    option_case found (send_last s lastmsg) (λ c.
        if c.modes b's' && not (on_channel c u.nick)
        then send_last s lastmsg
        else who_members s channelname lastmsg c)

  unfoldable pub cmd_who : Handler
  cmd_who s msg = do
    u ← deref s
    list_case msg.params (reply_user s (text "315") (u.nick ∷ text "End of /WHO list" ∷ []))
        (λ channelname _. who_channel s channelname)

  -- for channel := range session.Channels
  unfoldable pub whois_channels : Session → Session → List Text → M (List Text)
  whois_channels u session [] = pure []
  whois_channels u session (channel ∷ rest) = do
    c ← channel_at channel
    more ← whois_channels u session rest
    if c.modes b's' && not u.operator && not (elem channel u.channels) then pure more else do
      op ← is_chanop c session.nick
      pure (((if op then text "@" else []) ++ c.name) ∷ more)

  unfoldable pub whois_flags : ℕ → Session → Session → M (Unit {0})
  whois_flags s u session = do
    (if session.operator
        then reply_user s (text "313") (u.nick ∷ session.nick ∷ text "is an IRC operator" ∷ [])
        else done)
    (if session.away_msg == []
        then done
        else reply_user s (text "301") (u.nick ∷ session.nick ∷ session.away_msg ∷ []))
    reply_user s (text "317") (
        u.nick
        ∷ session.nick
        ∷ decimal ((u.last_activity - session.last_non_ping) / second)
        ∷ decimal (session.created / second)
        ∷ text "seconds idle, signon time"
        ∷ [])
    (if session.modes b'r'
        then reply_user s (text "307")
            (u.nick ∷ session.nick ∷ text "user has identified to services" ∷ [])
        else done)
    reply_user s (text "318") (u.nick ∷ session.nick ∷ text "End of /WHOIS list" ∷ [])

  unfoldable pub whois_of : ℕ → ℕ → M (Unit {0})
  whois_of s r = do
    u ← deref s
    session ← deref r
    i ← gets (λ i. i)
    reply_user s (text "311") (
        u.nick
        ∷ session.nick
        ∷ session.irc_prefix.user
        ∷ session.irc_prefix.host
        ∷ text "*"
        ∷ session.realname
        ∷ [])
    channels ← whois_channels u session session.channels
    (if ltb 0 (length channels)
        then reply_user s (text "319")
            (u.nick ∷ session.nick ∷ join (text " ") (sort_texts channels) ∷ [])
        else done)
    reply_user s (text "312") (u.nick ∷ session.nick ∷ i.server_prefix.name ∷ text "RobustIRC" ∷ [])
    whois_flags s u session

  unfoldable pub cmd_whois : Handler
  cmd_whois s msg = do
    target ← param msg 0
    found ← find_nick target
    option_case found (no_such_nick s target) (λ r. whois_of s r)
