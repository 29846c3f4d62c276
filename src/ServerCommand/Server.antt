-- ===== src/ServerCommand/Server.antt =====
-- server_commands.go: SERVER, by which a session becomes a connection of the services.
use robustirc.Base.{
  Bool, List, [], false, if◌then◌else◌, nat_beq, nat_eq, not, true, ℕ, ◌++◌, ◌==◌, ◌||◌, ◌∷◌,
}
use robustirc.Base.Assoc.{keys}
use robustirc.Config.{Service}
use robustirc.Handler.{Handler}
use robustirc.Irc.{Env}
use robustirc.Modes.{mode_string}
use robustirc.Robust.{id_eq}
use robustirc.Run.{M, deref, done, for_each, gets, modify, param, update_session, ◌>>=◌, ◌>>◌}
use robustirc.Send.{
  bare_msg, channel_at, is_chanop, send_services, send_user, server_msg, session_of_nick,
}
use robustirc.Server.{Session}
use robustirc.Text.{Text, sort_texts, text, text_eq}

unfoldable pub is_service : Text → List Service → Bool
is_service pass [] = false
is_service pass (service ∷ rest) =
    pass == text "services=" ++ service.password || is_service pass rest

module _ ⦃env : Env⦄ where
  -- one channel of a session in the burst
  unfoldable pub burst_channel : Session → Text → M (Unit {0})
  burst_channel session channelname = do
    c ← channel_at channelname
    op ← is_chanop c session.nick
    send_services (
        server_msg (text "SJOIN")
          (text "1" ∷ c.name ∷ ((if op then b'@' ∷ [] else []) ++ session.nick) ∷ []))
    done

  unfoldable pub burst_session : Session → M (Unit {0})
  burst_session session = do
    i ← gets (λ i. i)
    send_services (
        bare_msg (text "NICK") (
          session.nick
          ∷ text "1"
          ∷ text "1"
          ∷ session.username
          ∷ session.irc_prefix.host
          ∷ i.server_prefix.name
          ∷ session.svid
          ∷ mode_string session.modes
          ∷ session.realname
          ∷ []))
    for_each (sort_texts session.channels) (burst_channel session)

  unfoldable pub burst_nick : Text → M (Unit {0})
  burst_nick nick = do
    session ← session_of_nick nick
    if not session.logged_in || session.server || not (nat_beq session.id.reply 0)
        then done
        else burst_session session

  unfoldable pub become_server : ℕ → Text → M (Unit {0})
  become_server s name = do
    update_session s
        (λ u. record u { server = true; irc_prefix = record { name = name; user = []; host = [] } })
    u ← deref s
    modify (λ i. record i { server_sessions = i.server_sessions ++ u.id.id ∷ [] })
    i ← gets (λ i. i)
    send_services (bare_msg (text "SERVER") (i.server_prefix.name ∷ text "1" ∷ text "23" ∷ []))
    for_each (sort_texts (keys i.nicks)) burst_nick

  unfoldable pub cmd_server : Handler
  cmd_server s msg = do
    u ← deref s
    i ← gets (λ i. i)
    name ← param msg 0
    if not (is_service u.pass i.config.irc.services)
        then send_user s (bare_msg (text "ERROR") (text "Invalid password" ∷ [])) >> done
        else become_server s name
