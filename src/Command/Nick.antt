-- ===== src/Command/Nick.antt =====
-- cmd_nick.go
use robustirc.Base.{
  Bool, [], false, get_elem?, if◌then◌else◌, is_some, ltb, nat_eq, not, option_case, or_default,
  true, ℕ, ◌&&◌, ◌++◌, ◌+◌, ◌==◌, ◌||◌, ◌∷◌,
}
use robustirc.Base.Assoc.{Map, delete, insert, lookup}
use robustirc.Command.Login.{maybe_login}
use robustirc.Handler.{Handler}
use robustirc.Irc.{Env, Msg}
use robustirc.Nickname.{is_services_nickname, is_valid_nickname}
use robustirc.Robust.{id_eq}
use robustirc.Run.{M, deref, done, gets, modify, pure, ◌>>=◌, ◌>>◌}
use robustirc.Send.{
  find_nick, prefixed_msg, reply_user, send_common_channels, send_services, send_user,
}
use robustirc.Server.{Channel, IrcServer, set_session}
use robustirc.Sessions.{update_irc_prefix}
use robustirc.Text.{Text, text, text_eq}
use robustirc.Text.Case.{nick_to_lower}

-- The move of a member's entry in one channel.
unfoldable pub rename_member : Text → Text → Channel → Channel
rename_member old new c = record c {
  nicks =
      option_case (lookup old c.nicks) (delete old c.nicks)
        (λ modes. delete old (insert new modes c.nicks));
}

-- for _, c := range i.channels
unfoldable pub rename_in_channels : Text → Text → Map Text Channel → Map Text Channel
rename_in_channels old new [] = []
rename_in_channels old new ((key, c) ∷ m) =
    (key, rename_member old new c) ∷ rename_in_channels old new m

-- From `s.Nick = nick` to updateIrcPrefix; the old key is given in lower case.
unfoldable pub change_nick : ℕ → Text → Text → Bool → IrcServer → IrcServer
change_nick r old nick only_caps i =
    let new = nick_to_lower nick in
    let nicks = insert new r i.nicks in
    let moves = not (old == []) && not only_caps in
    record i {
      heap = set_session r (update_irc_prefix (record (i.heap r) { nick = nick })) i.heap;
      nicks = if moves then delete old nicks else nicks;
      channels = if moves then rename_in_channels old new i.channels else i.channels;
    }

module _ ⦃env : Env⦄ where
  unfoldable pub erroneous_nickname : ℕ → Text → Text → Text → M (Unit {0})
  erroneous_nickname s dest nick reason = reply_user s (text "432") (dest ∷ nick ∷ reason ∷ [])

  -- Whether a hold of the services refuses the nickname; an expired hold is removed.
  unfoldable pub check_hold : ℕ → Text → Text → M Bool
  check_hold s dest nick = do
    i ← gets (λ i. i)
    u ← deref s
    option_case (lookup (nick_to_lower nick) i.svsholds) (pure false) (λ hold.
        if not (ltb (hold.added + hold.duration) u.last_activity)
        then erroneous_nickname s dest nick (text "Erroneous Nickname: " ++ hold.reason)
          >> pure true
        else modify (λ i. record i { svsholds = delete (nick_to_lower nick) i.svsholds })
          >> pure false)

  -- After the checks.
  unfoldable pub take_nick : ℕ → Msg → Text → Bool → M (Unit {0})
  take_nick s msg nick only_caps = do
    u ← deref s
    let old = nick_to_lower u.nick
    modify (change_nick s old nick only_caps)
    if not (old == [])
        then send_services (
            send_common_channels s
              (send_user s (prefixed_msg u.irc_prefix (text "NICK") (nick ∷ []))))
          >> done
        else maybe_login s msg

  unfoldable pub request_nick : ℕ → Msg → Text → M (Unit {0})
  request_nick s msg nick = do
    u ← deref s
    found ← find_nick nick
    let dest = if u.logged_in then u.nick else text "*"
    let only_caps = u.logged_in && nick_to_lower nick == nick_to_lower u.nick
    if not (is_valid_nickname nick)
        then erroneous_nickname s dest nick (text "Erroneous nickname")
        else if (is_some found && not only_caps) || is_services_nickname nick
        then reply_user s (text "433") (dest ∷ nick ∷ text "Nickname is already in use" ∷ [])
        else do held ← check_hold s dest nick; if held then done else take_nick s msg nick only_caps

  unfoldable pub cmd_nick : Handler
  cmd_nick s msg =
      let nick = or_default [] (get_elem? msg.params 0) in
      if nick == []
      then reply_user s (text "431") (text "No nickname given" ∷ [])
      else request_nick s msg nick
