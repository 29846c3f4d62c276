-- ===== src/Privacy/Hidden.antt =====
-- internal/privacy/filter.go, and PrivacyFilter of internal/robust/robust.go: what is hidden.
use robustirc.Base.{
  Bool-cases, List, [], ap, arith, false, inl, inr, refl, some, sym, true, ◌++◌, ◌∙◌, ◌∷◌, ◌≡◌, ◌≢◌,
  ◌⊎◌,
}
use robustirc.Irc.{Env, Msg}
use robustirc.Privacy.{
  filter_ircmsg, filter_msg, filtered, hide_last, is_irc, is_private, privacy_filter,
}
use robustirc.Robust.{Message}
use mathlib.Core.Option
use robustirc.Text.{Text, has_suffix, text, text_beq, text_beq_iff, text_eq, to_upper, upper}

hide_last-append :
    (front : List Text) (secret : Text) → hide_last (front ++ secret ∷ []) ≡ front ++ filtered ∷ []
unfolding hide_last
hide_last-append [] secret = refl
hide_last-append (p ∷ []) secret = refl
hide_last-append (p ∷ q ∷ front) secret = ap (λ ps. p ∷ ps) (hide_last-append (q ∷ front) secret)

-- The three commands that both filters name.
abbrev pub IsSecret : Text → Type 0
IsSecret command =
    (command ≡ text "PRIVMSG") ⊎ ((command ≡ text "NOTICE") ⊎ (command ≡ text "PASS"))

secret-private : (command : Text) → IsSecret command → is_private command ≡ true
unfolding is_private text_beq text
secret-private command (inl e) = rw e refl
secret-private command (inr (inl e)) = rw e refl
secret-private command (inr (inr e)) = rw e refl

secret-upper : (command : Text) → IsSecret command → to_upper command ≡ command
unfolding to_upper text upper
secret-upper command (inl e) = rw e refl
secret-upper command (inr (inl e)) = rw e refl
secret-upper command (inr (inr e)) = rw e refl

filter_ircmsg-secret :
    (msg : Msg)
    → IsSecret msg.command
    → filter_ircmsg (some msg) ≡ some (record msg { params = hide_last msg.params })
unfolding filter_ircmsg
filter_ircmsg-secret msg secret = ground (
  arith,
  secret,
  text_beq_iff msg.command (text "PRIVMSG"),
  text_beq_iff msg.command (text "NOTICE"),
  text_beq_iff msg.command (text "PASS"),
)

-- No text in upper case ends in "serv".
upper-serv : (command : Text) → has_suffix (to_upper command) (text "serv") ≡ false
unfolding has_suffix to_upper text_beq upper text
upper-serv [] = refl
upper-serv (c ∷ command) = ground (arith, upper-serv command)

-- The parsed line of a message is `msg` with `secret` for its last parameter.
abbrev pub Carries : ⦃env : Env⦄ → Message → Msg → List Text → Text → Type 0
Carries ⦃env⦄ m msg front secret =
    env.parse_message m.payload ≡ some (record msg { params = front ++ secret ∷ [] })

module _ ⦃env : Env⦄ (line_of : Msg → Text) (msg : Msg) (front : List Text) where
  privacy_filter-hidden :
      (m : Message) (secret : Text)
      → IsSecret msg.command
      → is_irc m.type ≡ true
      → Carries m msg front secret
      → privacy_filter line_of m ≡ line_of (record msg { params = front ++ filtered ∷ [] })
  unfolding privacy_filter
  privacy_filter-hidden m secret private irc carries = ground (
    arith,
    irc,
    carries,
    secret-upper msg.command private,
    secret-private msg.command private,
    hide_last-append front secret,
  )

  -- What FilterMsg leaves of a message with that line.
  abbrev hidden_msg : Message → Message
  hidden_msg m = record {
    id = m.id;
    session = m.session;
    type = m.type;
    payload = line_of (record msg { params = front ++ filtered ∷ [] });
    unix_nano = 0;
    servers = [];
    current_master = [];
    client_message_id = 0;
    revision = 0;
    remote_addr = [];
  }

  filter_msg-hidden :
      (m : Message) (secret : Text)
      → IsSecret msg.command
      → Carries m msg front secret
      → filter_msg line_of m ≡ some (hidden_msg m)
  unfolding filter_msg
  filter_msg-hidden m secret private carries = ground (
    arith,
    carries,
    filter_ircmsg-secret (record msg { params = front ++ secret ∷ [] }) private,
    hide_last-append front secret,
  )

-- Of two messages between clients and server whose lines are the same PRIVMSG, NOTICE or PASS but
-- for the last parameter, both filters show the same, whatever the two parameters are: PrivacyFilter
-- the same line, and FilterMsg the same message but for its id, session and type.
pub filters-hide :
    ⦃env : Env⦄ (line_of : Msg → Text) (msg : Msg) (front : List Text) (m n : Message)
    (secret other : Text)
    → IsSecret msg.command
    → is_irc m.type ≡ true
    → is_irc n.type ≡ true
    → Carries m msg front secret
    → Carries n msg front other
    → (privacy_filter line_of m ≡ privacy_filter line_of n)
      × (filter_msg line_of n
          ≡ Option.map
              (λ (r : Message). record r { id = n.id; session = n.session; type = n.type })
              (filter_msg line_of m))
filters-hide line_of msg front m n secret other private m_irc n_irc m_carries n_carries = (
  privacy_filter-hidden line_of msg front m secret private m_irc m_carries
      ∙ sym (privacy_filter-hidden line_of msg front n other private n_irc n_carries),
  rw
      (
        filter_msg-hidden line_of msg front m secret private m_carries,
        filter_msg-hidden line_of msg front n other private n_carries,
      )
      refl,
)

text_beq-ne : (a b : Text) → a ≢ b → text_beq a b ≡ false
text_beq-ne a b differ = elim (Bool-cases (text_beq a b)) [
  | inl e ↦ absurd (differ ((text_beq_iff a b).0 e))
  | inr e ↦ e
]

upper-not_private :
    (command : Text) → ¬ IsSecret (to_upper command) → is_private (to_upper command) ≡ false
unfolding is_private
upper-not_private command open_command =
    rw
      (
        text_beq-ne (to_upper command) (text "PRIVMSG") (λ e. open_command (inl e)),
        text_beq-ne (to_upper command) (text "NOTICE") (λ e. open_command (inr (inl e))),
        text_beq-ne (to_upper command) (text "PASS") (λ e. open_command (inr (inr e))),
      )
      (upper-serv command)

-- For every other message PrivacyFilter shows the line as it is. So it does for a command that ends
-- in "serv", in any case, which the code means to hide: the command is in upper case by the time
-- that it is compared with the suffix "serv", and never matches.
privacy_filter-serv :
    ⦃env : Env⦄ (line_of : Msg → Text) (m : Message) (msg : Msg)
    → env.parse_message m.payload ≡ some msg
    → ¬ IsSecret (to_upper msg.command)
    → privacy_filter line_of m ≡ m.payload
unfolding privacy_filter
privacy_filter-serv line_of m msg parsed open_command =
    ground (arith, parsed, upper-not_private msg.command open_command)
