-- ===== src/Command/Names.antt =====
-- cmd_names.go and cmd_list.go
use robustirc.Base.{
  List, [], elem, if◌then◌else◌, is_some, length, list_case, nat_eq, not, option_case, ℕ, ◌&&◌,
  ◌++◌, ◌∷◌,
}
use robustirc.Base.Assoc.{keys, lookup}
use robustirc.Handler.{Handler}
use robustirc.Irc.{Env}
use robustirc.Robust.{id_eq}
use robustirc.Run.{M, deref, done, for_each, gets, pure, ◌>>=◌, ◌>>◌}
use robustirc.Send.{channel_at, find_channel, reply_user, session_of_nick}
use robustirc.Server.{Channel, IrcServer, Perms}
use robustirc.Text.{Text, decimal, sort_texts, text, text_eq, trim_space}
use robustirc.Text.Case.{chan_to_lower}
use robustirc.Text.Split.{join, split}

module _ ⦃env : Env⦄ where
  -- for nick, perms := range c.nicks
  unfoldable pub member_names : List (Text × Perms) → M (List Text)
  member_names [] = pure []
  member_names ((nick, perms) ∷ rest) = do
    u ← session_of_nick nick
    more ← member_names rest
    pure (((if perms.chanop then b'@' ∷ [] else []) ++ u.nick) ∷ more)

  unfoldable pub end_of_names : ℕ → Text → M (Unit {0})
  end_of_names s channelname = do
    u ← deref s
    reply_user s (text "366") (u.nick ∷ channelname ∷ text "End of /NAMES list." ∷ [])

  unfoldable pub names_of : ℕ → Text → Channel → M (Unit {0})
  names_of s channelname c = do
    u ← deref s
    names ← member_names c.nicks
    reply_user s (text "353")
        (u.nick ∷ text "=" ∷ channelname ∷ join (text " ") (sort_texts names) ∷ [])
    end_of_names s channelname

  unfoldable pub cmd_names : Handler
  cmd_names s msg = list_case msg.params (end_of_names s (text "*")) (λ channelname _. do
    found ← find_channel channelname
    option_case found (end_of_names s (text "*")) (λ c. names_of s channelname c))

  -- the channels that LIST asks for
  unfoldable pub listed : IrcServer → List Text → List Text
  listed i [] = []
  listed i (channel ∷ rest) =
      let more = listed i rest in
      let channelname = chan_to_lower (trim_space channel) in
      if is_some (lookup channelname i.channels) then channelname ∷ more else more

  unfoldable pub list_channels : IrcServer → List Text → List Text
  list_channels i [] = sort_texts (keys i.channels)
  list_channels i (targets ∷ _) = listed i (split b',' targets)

  unfoldable pub list_one : ℕ → Text → M (Unit {0})
  list_one s channel = do
    c ← channel_at channel
    u ← deref s
    if c.modes b's' && not u.operator && not (elem channel u.channels)
        then done
        else reply_user s (text "322") (u.nick ∷ c.name ∷ decimal (length c.nicks) ∷ c.topic ∷ [])

  unfoldable pub cmd_list : Handler
  cmd_list s msg = do
    i ← gets (λ i. i)
    for_each (list_channels i msg.params) (list_one s)
    u ← deref s
    reply_user s (text "323") (u.nick ∷ text "End of LIST" ∷ [])
