-- ===== src/ServerCommand/Sessions.antt =====
-- scmd_kill.go, scmd_quit.go and scmd_svshold.go
use robustirc.Base.{
  Bool, List, Option, [], any, get_elem?, if◌then◌else◌, length, ltb, nat_beq, nat_eq, none, not,
  option_case, some, sum_case, ℕ, ◌&&◌, ◌++◌, ◌==◌, ◌∷◌,
}
use robustirc.Base.Assoc.{Map, delete, insert, keys}
use robustirc.Handler.{Handler}
use robustirc.Irc.{Env, Msg, Prefix}
use robustirc.Robust.{RobustId, id_eq}
use robustirc.Run.{M, crash, deref, done, for_each, gets, modify, non_nil, param, pure, ◌>>=◌, ◌>>◌}
use robustirc.Send.{
  find_nick, prefixed_msg, reply_services, send_common_channels, send_services, send_user,
}
use robustirc.Server.{Session}
use robustirc.Sessions.{delete_session}
use robustirc.Text.{Text, text, text_eq}
use robustirc.Text.Case.{nick_to_lower}

-- The sessions that a connection of the services introduced: the same Id, and a Reply.
unfoldable pub is_subsession : ℕ → RobustId → Bool
is_subsession connection id = nat_beq id.id connection && not (nat_beq id.reply 0)

-- The first subsession with this nickname, as the loops over i.sessions find it.
unfoldable pub find_subsession : (ℕ → Session) → ℕ → Text → Map RobustId ℕ → Option ℕ
find_subsession heap connection name [] = none
find_subsession heap connection name ((id, r) ∷ m) =
    if is_subsession connection id && nick_to_lower (heap r).nick == nick_to_lower name
    then some r
    else find_subsession heap connection name m

unfoldable pub subsessions : ℕ → Map RobustId ℕ → List ℕ
subsessions connection [] = []
subsessions connection ((id, r) ∷ m) =
    let rest = subsessions connection m in if is_subsession connection id then r ∷ rest else rest

-- strings.Replace(path, "!!", "!", -1)
unfoldable pub single_bangs : Text → Text
single_bangs [] = []
single_bangs (c ∷ []) = c ∷ []
single_bangs (c ∷ d ∷ s) =
    let matched = b'!' ∷ single_bangs s in
    let skipped = c ∷ single_bangs (d ∷ s) in
    if nat_beq c b'!' && nat_beq d b'!' then matched else skipped

module _ ⦃env : Env⦄ where
  unfoldable pub kill_prefix : ℕ → Msg → M (Option Prefix)
  kill_prefix s msg = do
    u ← deref s
    i ← gets (λ i. i)
    option_case msg.prefix
        (if any (is_subsession u.id.id) (keys i.sessions) then crash else pure none)
        (λ p.
          option_case (find_subsession i.heap u.id.id p.name i.sessions) (pure (some p))
            (λ r. pure (some (i.heap r).irc_prefix)))

  unfoldable pub server_kill_session : Msg → Prefix → ℕ → M (Unit {0})
  server_kill_session msg prefix r = do
    session ← deref r
    let path = single_bangs (text "ircd!" ++ (prefix.host ++ (text "!" ++ prefix.name)))
    send_user r (
        prefixed_msg prefix (text "KILL")
          (session.nick ∷ (path ++ (text " (" ++ (env.trailing msg ++ text ")"))) ∷ []))
    send_services (
        send_common_channels r (
          prefixed_msg session.irc_prefix (text "QUIT")
            ((text "Killed: " ++ env.trailing msg) ∷ [])))
    modify (delete_session r)

  unfoldable pub server_kill_target : ℕ → Msg → Text → M (Unit {0})
  server_kill_target s msg target = do
    prefix ← kill_prefix s msg
    found ← find_nick target
    option_case found
        (reply_services (text "401") (text "*" ∷ target ∷ text "No such nick/channel" ∷ []))
        (λ r. do p ← non_nil prefix; server_kill_session msg p r)

  unfoldable pub cmd_server_kill : Handler
  cmd_server_kill s msg = do
    target ← param msg 0
    if ltb (length msg.params) 2
        then reply_services (text "461")
            (text "*" ∷ msg.command ∷ text "Not enough parameters" ∷ [])
        else server_kill_target s msg target

  unfoldable pub quit_subsession : Msg → ℕ → M (Unit {0})
  quit_subsession msg r = do
    session ← deref r
    send_common_channels r (prefixed_msg session.irc_prefix (text "QUIT") (env.trailing msg ∷ []))
    modify (delete_session r)

  unfoldable pub cmd_server_quit : Handler
  cmd_server_quit s msg = do
    u ← deref s
    i ← gets (λ i. i)
    option_case msg.prefix
        (do
          modify (delete_session s)
          for_each (subsessions u.id.id i.sessions) (quit_subsession msg))
        (λ p.
          option_case (find_subsession i.heap u.id.id p.name i.sessions) done
            (λ r. quit_subsession msg r))

  unfoldable pub set_hold : ℕ → Msg → Text → Text → M (Unit {0})
  set_hold s msg nick seconds = do
    u ← deref s
    sum_case (env.parse_duration (seconds ++ text "s"))
        (λ duration. modify (λ i. record i {
          svsholds =
              insert (nick_to_lower nick)
                (record { added = u.last_activity; duration = duration; reason = env.trailing msg })
                i.svsholds;
        }))
        (λ err.
          reply_services (text "NOTICE")
            (u.irc_prefix.name ∷ (text "Invalid duration: " ++ err) ∷ []))

  unfoldable pub cmd_server_svshold : Handler
  cmd_server_svshold s msg = do
    nick ← param msg 0
    option_case (get_elem? msg.params 1)
        (modify (λ i. record i { svsholds = delete (nick_to_lower nick) i.svsholds }))
        (λ seconds. set_hold s msg nick seconds)
