-- ===== src/Handler.antt =====
-- The type of the functions of commands.go: the session is given by its reference.
use robustirc.Base.{[], ℕ, ◌∷◌}
use robustirc.Irc.{Msg}
use robustirc.Run.{M, deref, ◌>>=◌}
use robustirc.Send.{reply_user}
use robustirc.Text.{Text, text}

abbrev pub Handler : Type 0
Handler = ℕ → Msg → M (Unit {0})

-- "You're not channel operator" and the other refusals that several commands send.
unfoldable pub no_such_channel : ℕ → Text → M (Unit {0})
no_such_channel s channelname = do
  u ← deref s
  reply_user s (text "403") (u.nick ∷ channelname ∷ text "No such channel" ∷ [])

unfoldable pub not_on_channel : ℕ → Text → M (Unit {0})
not_on_channel s channelname = do
  u ← deref s
  reply_user s (text "442") (u.nick ∷ channelname ∷ text "You're not on that channel" ∷ [])

unfoldable pub not_chanop : ℕ → Text → M (Unit {0})
not_chanop s channelname = do
  u ← deref s
  reply_user s (text "482") (u.nick ∷ channelname ∷ text "You're not channel operator" ∷ [])

unfoldable pub no_such_nick : ℕ → Text → M (Unit {0})
no_such_nick s target = do
  u ← deref s
  reply_user s (text "401") (u.nick ∷ target ∷ text "No such nick/channel" ∷ [])

unfoldable pub no_privileges : ℕ → M (Unit {0})
no_privileges s = do
  u ← deref s
  reply_user s (text "481") (u.nick ∷ text "Permission Denied - You're not an IRC operator" ∷ [])
