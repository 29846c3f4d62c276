-- ===== src/ServerCommand/Nick.antt =====
-- scmd_nick.go and scmd_svsnick.go
use robustirc.Base.{[], if◌then◌else◌, is_some, length, nat_beq, nat_eq, not, option_case, ℕ, ◌∷◌}
use robustirc.Base.Assoc.{delete, insert, lookup}
use robustirc.Command.Nick.{rename_in_channels}
use robustirc.Handler.{Handler}
use robustirc.Irc.{Env, Msg}
use robustirc.Nickname.{is_valid_nickname}
use robustirc.Robust.{RobustId, id_eq}
use robustirc.Run.{M, deref, done, gets, modify, non_nil, param, update_session, ◌>>=◌, ◌>>◌}
use robustirc.Send.{
  find_nick, prefixed_msg, reply_services, send_common_channels, send_services, send_user,
}
use robustirc.Server.{IrcServer, set_session}
use robustirc.Sessions.{create_session, update_irc_prefix}
use robustirc.Text.{Text, text, text_eq}
use robustirc.Text.Case.{nick_to_lower}

module _ ⦃env : Env⦄ where
  -- The error of createSessionLocked is ignored, and the session is read back from the map.
  unfoldable pub introduce : ℕ → Msg → Text → M (Unit {0})
  introduce s msg nick = do
    u ← deref s
    let id : RobustId = record { id = u.id.id; reply = env.fnv64 nick }
    modify (λ i. (create_session id [] u.last_activity i).0)
    i ← gets (λ i. i)
    ss ← non_nil (lookup id i.sessions)
    update_session ss (λ v. record v { nick = nick })
    modify (λ i. record i { nicks = insert (nick_to_lower nick) ss i.nicks })
    username ← param msg 3
    update_session ss
        (λ v. update_irc_prefix (record v { username = username; realname = env.trailing msg }))

  unfoldable pub cmd_server_nick : Handler
  cmd_server_nick s msg = if nat_beq (length msg.params) 1 then done else do
    nick ← param msg 0
    found ← find_nick nick
    if is_some found
        then reply_services (text "433") (text "*" ∷ nick ∷ text "Nickname is already in use" ∷ [])
        else introduce s msg nick

  -- the writes of SVSNICK, at the old key and the new nickname
  unfoldable pub svs_change_nick : ℕ → Text → Text → IrcServer → IrcServer
  svs_change_nick r old nick i =
      let new = nick_to_lower nick in
      record i {
        heap = set_session r (update_irc_prefix (record (i.heap r) { nick = nick })) i.heap;
        nicks = delete old (insert new r i.nicks);
        channels = rename_in_channels old new i.channels;
      }

  unfoldable pub svsnick_session : Text → Text → ℕ → M (Unit {0})
  svsnick_session target nick r = do
    session ← deref r
    modify (svs_change_nick r (nick_to_lower target) nick)
    send_services (
        send_common_channels r
          (send_user r (prefixed_msg session.irc_prefix (text "NICK") (nick ∷ []))))
    done

  unfoldable pub cmd_server_svsnick : Handler
  cmd_server_svsnick s msg = do
    target ← param msg 0
    nick ← param msg 1
    found ← find_nick target
    if not (is_valid_nickname nick)
        then reply_services (text "432") (text "*" ∷ nick ∷ text "Erroneous nickname" ∷ [])
        else option_case found
            (reply_services (text "401") (text "*" ∷ target ∷ text "No such nick/channel" ∷ []))
            (λ r. svsnick_session target nick r)
