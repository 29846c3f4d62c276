-- ===== src/Delivery/Channel.antt =====
-- sendChannelButOne of ircserver.go and cmd_privmsg.go: a message to a channel reaches the other
-- members and nobody else.
use robustirc.Base.{
  Bool-cases, List, [], add_elem, arith, elem, false, if◌then◌else◌, inl, inr, length, list_case,
  ltb, nat_beq, nat_eq, not, refl, some, sym, true, ℕ, ◌&&◌, ◌++◌, ◌||◌, ◌↔◌, ◌∙◌, ◌∷◌, ◌≡◌, ◌≢◌,
  ◌⊎◌,
}
use robustirc.Base.Assoc.{keys, lookup}
use robustirc.Command.Message.{cmd_privmsg, privmsg_channel, privmsg_to}
use robustirc.Delivery.Sent.{IsFresh, interested-sent, send-sent, sent}
use robustirc.Irc.{Env, Msg}
use robustirc.Robust.{id_eq}
use robustirc.Run.{Res, St, deref, for_each, gets, non_nil, ok, pure, ◌>>=◌, ◌>>◌}
use robustirc.Send.{
  MsgPtr, channel_at, find_channel, interest_but, on_channel, prefixed_msg, reply_user,
  send_channel_but_one,
}
use robustirc.Server.{Channel, IrcServer}
use robustirc.Text.{Text, has_prefix, text, text_eq}
use robustirc.Text.Case.{chan_to_lower}
use mathlib.Core.Path.{subst}
use mathlib.Core.Option.{some-injective}

-- Every nickname of the list belongs to a session.
abbrev pub AllKnown : IrcServer → List Text → Type 0
AllKnown i [] = Unit
AllKnown i (n ∷ ns) = ((r : ℕ) × (lookup n i.nicks ≡ some r)) × AllKnown i ns

-- A nickname of the list belongs to a session with the id `x` that is not the session `user`.
abbrev pub HasOther : IrcServer → ℕ → ℕ → List Text → Type 0
HasOther i user x [] = ⊥
HasOther i user x (n ∷ ns) =
    ((r : ℕ) × (lookup n i.nicks ≡ some r) × (r ≢ user) × ((i.heap r).id.id ≡ x))
    ⊎ HasOther i user x ns

elem-append : (x y : ℕ) (xs : List ℕ) → elem x (xs ++ y ∷ []) ≡ (elem x xs || nat_beq y x)
unfolding elem
elem-append x y [] = ground arith
elem-append x y (z ∷ xs) = ground (arith, elem-append x y xs)

elem-add_elem : (x y : ℕ) (xs : List ℕ) → elem x (add_elem y xs) ≡ (elem x xs || nat_beq y x)
unfolding add_elem
elem-add_elem x y xs = elim (Bool-cases (elem y xs)) [
  | inl e ↦ elim (Bool-cases (nat_beq y x)) [
    | inl t ↦
        let q : y ≡ x = ground (arith, t) in
        let p : elem x xs ≡ true = subst (λ (y : ℕ). elem y xs ≡ true) q e in
        ground (arith, e, t, p)
    | inr t ↦ ground (arith, e, t)
  ]
  | inr e ↦ ground (arith, e, elem-append x y xs)
]

add_elem-to : (x y : ℕ) (xs : List ℕ) → elem x (add_elem y xs) ≡ true → (elem x xs ≡ true) ⊎ (y ≡ x)
add_elem-to x y xs h = elim (Bool-cases (elem x xs)) [
  | inl e ↦ inl e
  | inr e ↦ inr (ground (arith, h, e, elem-add_elem x y xs))
]

add_elem-from :
    (x y : ℕ) (xs : List ℕ) → (elem x xs ≡ true) ⊎ (y ≡ x) → elem x (add_elem y xs) ≡ true
add_elem-from x y xs (inl h) = ground (arith, h, elem-add_elem x y xs)
add_elem-from x y xs (inr e) = elim (Bool-cases (elem x xs)) [
  | inl h ↦ ground (arith, h, elem-add_elem x y xs)
  | inr h ↦ ground (arith, h, e, elem-add_elem x y xs)
]

-- What the loop over the nicknames leaves, with the sessions that are interested before it.
record Delivered (i : IrcServer) (st : St) (msg : Msg) (user : ℕ) (ns : List Text) (before : List ℕ)
    : Type 0 where
  ids : List ℕ
  result : for_each ns (interest_but user) (sent st msg before) ≡ ok tt (sent st msg ids)
  to : (x : ℕ) → elem x ids ≡ true → (elem x before ≡ true) ⊎ HasOther i user x ns
  from : (x : ℕ) → (elem x before ≡ true) ⊎ HasOther i user x ns → elem x ids ≡ true

module _ (st : St) (msg : Msg) (user : ℕ) where
  interest_other :
      (n : Text) (before : List ℕ) (r : ℕ)
      → lookup n st.server.nicks ≡ some r
      → nat_beq r user ≡ false
      → interest_but user n (sent st msg before)
        ≡ ok tt (sent st msg (add_elem (st.server.heap r).id.id before))
  unfolding interest_but ◌>>=◌ gets deref
  interest_other n before r e ne =
      rw (e, ne) (interested-sent (st.server.heap r).id.id st msg before)

  interest_self :
      (n : Text) (before : List ℕ) (r : ℕ)
      → lookup n st.server.nicks ≡ some r
      → nat_beq r user ≡ true
      → interest_but user n (sent st msg before) ≡ ok tt (sent st msg before)
  unfolding interest_but ◌>>=◌ gets pure
  interest_self n before r e same = rw (e, same) refl

  abbrev Other : Text → ℕ → Type 0
  Other n x =
      (r : ℕ) × (lookup n st.server.nicks ≡ some r) × (r ≢ user) × ((st.server.heap r).id.id ≡ x)

  self-not :
      (n : Text) (r x : ℕ)
      → lookup n st.server.nicks ≡ some r
      → nat_beq r user ≡ true
      → Other n x
      → ⊥
  self-not n r x e same (q, f, ne, _) = ne (some-injective q r (sym f ∙ e) ∙ ground (arith, same))

  same_id :
      (n : Text) (r x : ℕ)
      → lookup n st.server.nicks ≡ some r
      → Other n x
      → (st.server.heap r).id.id ≡ x
  same_id n r x e (q, f, _, id) =
      subst (λ (k : ℕ). (st.server.heap k).id.id ≡ x) (some-injective q r (sym f ∙ e)) id

  after-first :
      (n : Text) (ns : List Text) (before ids ids' : List ℕ)
      → interest_but user n (sent st msg before) ≡ ok tt (sent st msg ids)
      → for_each ns (interest_but user) (sent st msg ids) ≡ ok tt (sent st msg ids')
      → for_each (n ∷ ns) (interest_but user) (sent st msg before) ≡ ok tt (sent st msg ids')
  unfolding for_each ◌>>=◌
  after-first n ns before ids ids' e f = rw e f

  Delivered-all :
      (ns : List Text) (before : List ℕ)
      → AllKnown st.server ns
      → Delivered st.server st msg user ns before
  unfolding for_each pure
  Delivered-all [] before known = record {
    ids = before;
    result = refl;
    to = λ x h. inl h;
    from = λ x h. elim h [ inl a ↦ a | inr b ↦ absurd b ];
  }
  Delivered-all (n ∷ ns) before ((r, e), known) = elim (Bool-cases (nat_beq r user)) [
    | inl same ↦
        let rest = Delivered-all ns before known in
        record {
          ids = rest.ids;
          result =
              after-first n ns before before rest.ids (interest_self n before r e same) rest.result;
          to = λ x h. elim (rest.to x h) [ inl a ↦ inl a | inr b ↦ inr (inr b) ];
          from = λ x h. elim h [
            | inl a ↦ rest.from x (inl a)
            | inr (inl q) ↦ absurd (self-not n r x e same q)
            | inr (inr b) ↦ rest.from x (inr b)
          ];
        }
    | inr ne ↦
        let id = (st.server.heap r).id.id in
        let rest = Delivered-all ns (add_elem id before) known in
        record {
          ids = rest.ids;
          result =
              after-first n ns before (add_elem id before) rest.ids (interest_other n before r e ne)
                rest.result;
          to = λ x h. elim (rest.to x h) [
            | inl a ↦ elim (add_elem-to x id before a) [
              | inl p ↦ inl p
              | inr q ↦ inr (inl (r, e, (λ p. ground (arith, ne, p)), q))
            ]
            | inr b ↦ inr (inr b)
          ];
          from = λ x h. elim h [
            | inl a ↦ rest.from x (inl (add_elem-from x id before (inl a)))
            | inr (inl q) ↦ rest.from x (inl (add_elem-from x id before (inr (same_id n r x e q))))
            | inr (inr b) ↦ rest.from x (inr b)
          ];
        }
  ]

members-sent :
    {A : Type 0} (st st' : St) (key : Text) (c : Channel) (user : ℕ) (a : A)
    → lookup key st.server.channels ≡ some c
    → for_each (keys c.nicks) (interest_but user) st ≡ ok tt st'
    → (channel_at key >>= λ c. for_each (keys c.nicks) (interest_but user) >> pure a) st ≡ ok a st'
unfolding channel_at ◌>>=◌ gets non_nil pure
members-sent st st' key c user a found e = rw (found, e) refl

-- the message that PRIVMSG and NOTICE send on
abbrev pub relayed : ⦃env : Env⦄ → ℕ → Msg → Text → IrcServer → Msg
relayed ⦃env⦄ s msg target i = record {
  prefix = some (i.heap s).irc_prefix;
  command = msg.command;
  params = target ∷ env.trailing msg ∷ [];
}

module _ ⦃env : Env⦄ (s : ℕ) (msg : Msg) (st : St) (target : Text) (c : Channel) where
  but_one-sent :
      (ids : List ℕ)
      → IsFresh st
      → lookup (chan_to_lower target) st.server.channels ≡ some c
      → for_each (keys c.nicks) (interest_but s) (sent st (relayed s msg target st.server) [])
        ≡ ok tt (sent st (relayed s msg target st.server) ids)
      → send_channel_but_one
          (chan_to_lower target)
          s
          (prefixed_msg (st.server.heap s).irc_prefix msg.command (target ∷ env.trailing msg ∷ []))
          st
        ≡ ok
            (record { addr = st.reply.next_msg; msg = relayed s msg target st.server })
            (sent st (relayed s msg target st.server) ids)
  unfolding send_channel_but_one
  but_one-sent ids unused found e =
      send-sent (st.server.heap s).irc_prefix msg.command (target ∷ env.trailing msg ∷ []) _ st
        unused
      ∙ members-sent (sent st (relayed s msg target st.server) []) _ (chan_to_lower target) c s _
          found e

  privmsg_channel-sent :
      (st' : St) (p : MsgPtr)
      → lookup (chan_to_lower target) st.server.channels ≡ some c
      → (not (on_channel c (st.server.heap s).nick) && c.modes b'n') ≡ false
      → send_channel_but_one
          (chan_to_lower target)
          s
          (prefixed_msg (st.server.heap s).irc_prefix msg.command (target ∷ env.trailing msg ∷ []))
          st
        ≡ ok p st'
      → privmsg_channel s msg target st ≡ ok tt st'
  unfolding privmsg_channel ◌>>=◌ find_channel gets deref pure
  privmsg_channel-sent st' p found open_to e = rw (found, open_to, e) refl

  privmsg_to-channel :
      has_prefix target (text "#") ≡ true
      → privmsg_to s msg target st ≡ privmsg_channel s msg target st
  unfolding privmsg_to
  privmsg_to-channel hash = rw hash refl

  two_params : (line : Text) (rest : List Text) → ltb (length (target ∷ line ∷ rest)) 2 ≡ false
  two_params line rest = ground arith

  cmd_privmsg-sent :
      (line : Text) (rest : List Text) (r : Res (Unit {0}))
      → msg.params ≡ target ∷ line ∷ rest
      → has_prefix target (text "#") ≡ true
      → privmsg_channel s msg target st ≡ r
      → cmd_privmsg s msg st ≡ r
  unfolding cmd_privmsg ◌>>=◌ deref gets
  cmd_privmsg-sent line rest r given hash e =
      subst
        (λ (params : List Text).
          list_case params
            (reply_user s (text "411") (
              (st.server.heap s).nick
              ∷ (text "No recipient given (" ++ (msg.command ++ text ")"))
              ∷ []))
            (λ t _.
              if ltb (length params) 2
              then reply_user s (text "412") ((st.server.heap s).nick ∷ text "No text to send" ∷ [])
              else privmsg_to s msg t)
            st
          ≡ r)
        (sym given) (rw (two_params line rest) (privmsg_to-channel hash ∙ e))

  -- PRIVMSG or NOTICE with a text to a channel that the session may send to: where every member of
  -- the channel has a session, the handler returns, the server is left as it was, and the reply
  -- has exactly one more message, the one of the sender with the text. It is of interest to exactly
  -- the ids of the sessions of the members other than the sender's session.
  pub cmd_privmsg-HasOther :
      (line : Text) (rest : List Text)
      → msg.params ≡ target ∷ line ∷ rest
      → has_prefix target (text "#") ≡ true
      → lookup (chan_to_lower target) st.server.channels ≡ some c
      → (not (on_channel c (st.server.heap s).nick) && c.modes b'n') ≡ false
      → AllKnown st.server (keys c.nicks)
      → IsFresh st
      → (ids : List ℕ) × (cmd_privmsg s msg st
          ≡ ok tt (sent st (relayed s msg target st.server) ids))
        × ((x : ℕ) → (elem x ids ≡ true) ↔ HasOther st.server s x (keys c.nicks))
  unfolding elem
  cmd_privmsg-HasOther line rest given hash found open_to known unused =
      let d = Delivered-all st (relayed s msg target st.server) s (keys c.nicks) [] known in
      (
        d.ids,
        cmd_privmsg-sent line rest _ given hash
            (privmsg_channel-sent _ _ found open_to (but_one-sent d.ids unused found d.result)),
        λ x. (λ h. elim (d.to x h) [ inl a ↦ absurd (cc) | inr b ↦ b ], λ h. d.from x (inr h)),
      )
