-- ===== src/Command/Mode.antt =====
-- cmd_mode.go
pub mod Ban
use robustirc.Base.{
  Bool, List, Option, [], elem, false, if◌then◌else◌, is_some, ltb, nat_beq, nat_eq, none, not,
  option_case, some, true, ℕ, ◌&&◌, ◌++◌, ◌==◌, ◌||◌, ◌∷◌,
}
use robustirc.Base.Assoc.{insert, lookup}
use robustirc.Handler.{Handler, not_chanop, not_on_channel}
use robustirc.Irc.{Env, Msg}
use robustirc.Modes.{ModeCmd, irc_params, mode_char, mode_string, normalize_modes}
use robustirc.Robust.{id_eq}
use robustirc.Run.{M, deref, done, for_each, gets, param, pure, update_session, ◌>>=◌, ◌>>◌}
use robustirc.Send.{
  channel_at, find_nick, is_chanop, on_channel, prefixed_msg, replies, reply_user, send_channel,
  send_services, send_user, update_channel,
}
use robustirc.Server.{Channel, Modes, set_mode}
use robustirc.Text.{Text, text, text_eq}
use robustirc.Text.Case.{chan_to_lower, nick_to_lower}
use Ban.{ban_both, ban_list, ban_pattern, resolve_session_to_remote_addr}

module _ ⦃env : Env⦄ where
  -- the write c.nicks[nick][chanop] = newvalue
  unfoldable pub set_chanop : Text → Bool → Channel → Channel
  set_chanop nick value c =
      option_case (lookup nick c.nicks) c
        (λ perms. record c { nicks = insert nick (record perms { chanop = value }) c.nicks })

  unfoldable pub unknown_mode : ℕ → ℕ → M (Unit {0})
  unknown_mode s char = do
    u ← deref s
    reply_user s (text "472") (u.nick ∷ (char ∷ []) ∷ text "is unknown mode char to me" ∷ [])

  -- case 'o'
  unfoldable pub change_chanop : ℕ → Text → ModeCmd → M (Unit {0})
  change_chanop s channelname mode = do
    c ← channel_at (chan_to_lower channelname)
    u ← deref s
    if on_channel c mode.arg
        then update_channel (chan_to_lower channelname)
            (set_chanop (nick_to_lower mode.arg) mode.adding)
        else reply_user s (text "441")
            (u.nick ∷ mode.arg ∷ channelname ∷ text "They aren't on that channel" ∷ [])

  -- case 'x'
  unfoldable pub change_captcha_mode : ℕ → Text → ModeCmd → M (Unit {0})
  change_captcha_mode s channelname mode = do
    i ← gets (λ i. i)
    u ← deref s
    if not (i.config.captcha_url == []) && is_some i.config.captcha_hmac_secret
        then update_channel (chan_to_lower channelname)
            (λ c. record c { modes = set_mode b'x' mode.adding c.modes })
        else reply_user s (text "NOTICE")
            (u.nick ∷ text "Cannot set mode +x, no CaptchaURL/CaptchaHMACSecret configured" ∷ [])

  -- case 'b' with a parameter
  unfoldable pub change_ban : ℕ → Text → ModeCmd → M (Unit {0})
  change_ban s channelname mode = do
    i ← gets (λ i. i)
    c ← channel_at (chan_to_lower channelname)
    u ← deref s
    let pattern = ban_pattern mode.arg
    let (c', err) =
        ban_both c mode.adding mode.arg pattern (resolve_session_to_remote_addr i pattern)
    update_channel (chan_to_lower channelname) (λ _. c')
    option_case err done (λ e.
        reply_user s (text "472") (
          u.nick
          ∷ text "+b"
          ∷ (env.quoted mode.arg ++ (text " is not a valid regexp: " ++ e))
          ∷ []))

  -- the switch over the modes which are no queries
  unfoldable pub change_mode : ℕ → Text → ModeCmd → M (Unit {0})
  change_mode s channelname mode =
      let char = mode_char mode in
      if elem char (b't' ∷ b's' ∷ b'i' ∷ b'n' ∷ [])
      then update_channel (chan_to_lower channelname)
          (λ c. record c { modes = set_mode char mode.adding c.modes })
      else if nat_beq char b'x'
      then change_captcha_mode s channelname mode
      else if nat_beq char b'o'
      then change_chanop s channelname mode
      else if nat_beq char b'b'
      then change_ban s channelname mode
      else unknown_mode s char

  -- mode.Mode != "+b" || mode.Param != ""
  unfoldable pub is_change : ModeCmd → Bool
  is_change mode = not (mode.adding && nat_beq mode.rune b'b') || not (mode.arg == [])

  -- the query +b
  unfoldable pub query_bans : ℕ → Text → M (Unit {0})
  query_bans s channelname = do
    c ← channel_at (chan_to_lower channelname)
    u ← deref s
    for_each (ban_list c.bans)
        (λ pattern. reply_user s (text "367") (u.nick ∷ channelname ∷ pattern ∷ []))
    reply_user s (text "368") (u.nick ∷ channelname ∷ text "End of Channel Ban List" ∷ [])

  -- The loop over the modes, with `queryOnly`; none if the code returns from within.
  unfoldable pub mode_loop : ℕ → Text → Bool → Bool → List ModeCmd → M (Option Bool)
  mode_loop s channelname is_op query_only [] = pure (some query_only)
  mode_loop s channelname is_op query_only (mode ∷ modes) =
      if is_change mode
      then (if is_op
          then change_mode s channelname mode >> mode_loop s channelname is_op false modes
          else not_chanop s channelname >> pure none)
      else (query_bans s channelname >> mode_loop s channelname is_op query_only modes)

  -- what follows the loop
  unfoldable pub announce_modes : ℕ → Text → List ModeCmd → Option Bool → M (Unit {0})
  announce_modes s channelname modes none = done
  announce_modes s channelname modes (some true) = done
  announce_modes s channelname modes (some false) = do
    replyid ← replies
    u ← deref s
    if ltb 0 replyid then done else do
      send_services (
          send_channel (chan_to_lower channelname)
            (prefixed_msg u.irc_prefix (text "MODE") (channelname ∷ irc_params modes)))
      done

  unfoldable pub channel_mode : ℕ → Text → List ModeCmd → M (Unit {0})
  channel_mode s channelname [] = do
    c ← channel_at (chan_to_lower channelname)
    u ← deref s
    reply_user s (text "324") (u.nick ∷ channelname ∷ mode_string c.modes ∷ [])
  channel_mode s channelname (mode ∷ modes) = do
    c ← channel_at (chan_to_lower channelname)
    u ← deref s
    op ← is_chanop c u.nick
    result ← mode_loop s channelname (op || u.operator) true (mode ∷ modes)
    announce_modes s channelname (mode ∷ modes) result

  -- the loop over the modes of a user, where only +i and -i do anything
  unfoldable pub user_modes : List ModeCmd → Modes → Modes
  user_modes [] modes = modes
  user_modes (mode ∷ rest) modes =
      user_modes rest
        (if nat_beq (mode_char mode) b'i' then set_mode b'i' mode.adding modes else modes)

  abbrev pub first_or_empty : List Text → Text
  first_or_empty [] = []
  first_or_empty (p ∷ _) = p

  unfoldable pub user_mode : ℕ → ℕ → List ModeCmd → M (Unit {0})
  user_mode s r [] = do
    u ← deref s
    session ← deref r
    send_services (
        send_user s
          (prefixed_msg u.irc_prefix (text "MODE") (session.nick ∷ mode_string session.modes ∷ [])))
    done
  user_mode s r (mode ∷ modes) = do
    update_session r (λ session. record session { modes = user_modes (mode ∷ modes) session.modes })
    u ← deref s
    session ← deref r
    send_services (
        send_user r (
          prefixed_msg u.irc_prefix (text "MODE")
            (session.nick ∷ first_or_empty (irc_params (mode ∷ modes)) ∷ [])))
    done

  unfoldable pub mode_of_nick : ℕ → Msg → Text → Option ℕ → M (Unit {0})
  mode_of_nick s msg target none = not_on_channel s target
  mode_of_nick s msg target (some r) = do
    u ← deref s
    if not (nick_to_lower target == nick_to_lower u.nick) && not u.operator
        then reply_user s (text "502") (u.nick ∷ text "Can't change mode for other users" ∷ [])
        else user_mode s r (normalize_modes msg.params)

  unfoldable pub cmd_mode : Handler
  cmd_mode s msg = do
    target ← param msg 0
    u ← deref s
    if elem (chan_to_lower target) u.channels
        then channel_mode s target (normalize_modes msg.params)
        else do found ← find_nick target; mode_of_nick s msg target found
