-- ===== src/Privilege/Send.antt =====
-- The functions of Send leave the server as it is.
use robustirc.Base.{
  Bool, Bool-cases, List, Option, false, if◌then◌else◌, inl, inr, nat_eq, none, not, refl, some,
  sym, true, ℕ, ◌≡◌, ◌⊎◌,
}
use robustirc.Base.Assoc.{lookup}
use robustirc.Command.Topic.{topic_locked}
use robustirc.Handler.{no_privileges, no_such_channel, no_such_nick, not_chanop, not_on_channel}
use robustirc.Irc.{Env, Msg, Prefix}
use robustirc.Robust.{id_eq}
use robustirc.Run.{M, Res, St, crash, gets, non_nil, pure, ◌>>=◌}
use robustirc.Run.Guarded.{Guarded, Guarded-gets, Guarded-non_nil, IsSame}
use robustirc.Run.Keeps.{After, Keeps, keeps_rules}
use robustirc.Send.{
  MsgPtr, bare_msg, channel_at, find_channel, find_nick, interest_but, interest_channel,
  interest_members, interested, is_chanop, is_last, new_msg, prefixed_msg, replies, reply_services,
  reply_user, send, send_channel, send_channel_but_one, send_common_channels, send_services,
  send_user, server_msg, session_of_nick,
}
use robustirc.Server.{Channel, IrcServer, Perms}
use robustirc.Text.{Text, text_eq}
use robustirc.Text.Case.{chan_to_lower, nick_to_lower}
use mathlib.Core.Path.{subst}

module _ {i : IrcServer} where
  pub Keeps-new_msg : (msg : Msg) → Keeps (IsSame i) (new_msg msg)
  unfolding new_msg
  Keeps-new_msg msg = record { at = λ st h. record { same = h.same } }

  pub Keeps-send : (p : MsgPtr) → Keeps (IsSame i) (send p)
  unfolding send
  Keeps-send p = record {
    at = λ st h. elim (Bool-cases (is_last st.reply.lastmsg p.addr)) [
      | inl e ↦ rw e h
      | inr e ↦ rw e (record { same = h.same })
    ];
  }

  pub Keeps-interested : (session : ℕ) → Keeps (IsSame i) (interested session)
  unfolding interested
  Keeps-interested session = record { at = λ st h. record { same = h.same } }

  pub Keeps-replies : Keeps (IsSame i) replies
  unfolding replies
  Keeps-replies = record { at = λ st h. h }

  pub ruleset send_rules = (keeps_rules, Keeps-send, Keeps-interested, Keeps-new_msg, Keeps-replies)

  pub Keeps-session_of_nick : (nick : Text) → Keeps (IsSame i) (session_of_nick nick)
  unfolding session_of_nick
  Keeps-session_of_nick nick = search send_rules

  pub Keeps-interest_members : (c : Channel) → Keeps (IsSame i) (interest_members c)
  unfolding interest_members
  Keeps-interest_members c = search (send_rules, Keeps-session_of_nick)

  pub Keeps-interest_channel : (name : Text) → Keeps (IsSame i) (interest_channel name)
  unfolding interest_channel
  Keeps-interest_channel name = search (send_rules, Keeps-interest_members)

  pub Keeps-channel_at : (key : Text) → Keeps (IsSame i) (channel_at key)
  unfolding channel_at
  Keeps-channel_at key = search send_rules

  pub Keeps-interest_but : (user : ℕ) (nick : Text) → Keeps (IsSame i) (interest_but user nick)
  unfolding interest_but
  Keeps-interest_but user nick = search send_rules

  pub ruleset interest_rules = (
    send_rules, Keeps-session_of_nick, Keeps-interest_members, Keeps-interest_channel,
    Keeps-channel_at, Keeps-interest_but,
  )

  pub Keeps-send_user :
      (user : ℕ) (m : M MsgPtr) → Keeps (IsSame i) m → Keeps (IsSame i) (send_user user m)
  unfolding send_user
  Keeps-send_user user m k = search interest_rules depth 9

  pub Keeps-send_common_channels :
      (user : ℕ) (m : M MsgPtr)
      → Keeps (IsSame i) m
      → Keeps (IsSame i) (send_common_channels user m)
  unfolding send_common_channels
  Keeps-send_common_channels user m k = search interest_rules depth 9

  pub Keeps-send_channel :
      (key : Text) (m : M MsgPtr) → Keeps (IsSame i) m → Keeps (IsSame i) (send_channel key m)
  unfolding send_channel
  Keeps-send_channel key m k = search interest_rules depth 9

  pub Keeps-send_channel_but_one :
      (key : Text) (user : ℕ) (m : M MsgPtr)
      → Keeps (IsSame i) m
      → Keeps (IsSame i) (send_channel_but_one key user m)
  unfolding send_channel_but_one
  Keeps-send_channel_but_one key user m k = search interest_rules depth 9

  pub Keeps-send_services : (m : M MsgPtr) → Keeps (IsSame i) m → Keeps (IsSame i) (send_services m)
  unfolding send_services
  Keeps-send_services m k = search interest_rules depth 9

  pub Keeps-server_msg :
      (command : Text) (params : List Text) → Keeps (IsSame i) (server_msg command params)
  unfolding server_msg
  Keeps-server_msg command params = search send_rules

  pub Keeps-bare_msg :
      (command : Text) (params : List Text) → Keeps (IsSame i) (bare_msg command params)
  unfolding bare_msg
  Keeps-bare_msg command params = search send_rules

  pub Keeps-prefixed_msg :
      (prefix : Prefix) (command : Text) (params : List Text)
      → Keeps (IsSame i) (prefixed_msg prefix command params)
  unfolding prefixed_msg
  Keeps-prefixed_msg prefix command params = search send_rules

  pub Keeps-reply_user :
      (user : ℕ) (command : Text) (params : List Text)
      → Keeps (IsSame i) (reply_user user command params)
  unfolding reply_user
  Keeps-reply_user user command params = search (send_rules, Keeps-send_user, Keeps-server_msg)

  pub Keeps-reply_services :
      (command : Text) (params : List Text) → Keeps (IsSame i) (reply_services command params)
  unfolding reply_services
  Keeps-reply_services command params = search (send_rules, Keeps-send_services, Keeps-server_msg)

  pub Keeps-find_channel : (name : Text) → Keeps (IsSame i) (find_channel name)
  unfolding find_channel
  Keeps-find_channel name = search send_rules

  pub Keeps-find_nick : (name : Text) → Keeps (IsSame i) (find_nick name)
  unfolding find_nick
  Keeps-find_nick name = search send_rules

  pub Keeps-is_chanop : (c : Channel) (nick : Text) → Keeps (IsSame i) (is_chanop c nick)
  unfolding is_chanop
  Keeps-is_chanop c nick = search send_rules

  pub ruleset reply_rules = (
    interest_rules, Keeps-send_user, Keeps-send_common_channels, Keeps-send_channel,
    Keeps-send_channel_but_one, Keeps-send_services, Keeps-server_msg, Keeps-bare_msg,
    Keeps-prefixed_msg, Keeps-reply_user, Keeps-reply_services, Keeps-find_channel, Keeps-find_nick,
    Keeps-is_chanop,
  )

  pub Keeps-no_such_channel : (s : ℕ) (name : Text) → Keeps (IsSame i) (no_such_channel s name)
  unfolding no_such_channel
  Keeps-no_such_channel s name = search reply_rules depth 9

  pub Keeps-not_on_channel : (s : ℕ) (name : Text) → Keeps (IsSame i) (not_on_channel s name)
  unfolding not_on_channel
  Keeps-not_on_channel s name = search reply_rules depth 9

  pub Keeps-not_chanop : (s : ℕ) (name : Text) → Keeps (IsSame i) (not_chanop s name)
  unfolding not_chanop
  Keeps-not_chanop s name = search reply_rules depth 9

  pub Keeps-no_such_nick : (s : ℕ) (target : Text) → Keeps (IsSame i) (no_such_nick s target)
  unfolding no_such_nick
  Keeps-no_such_nick s target = search reply_rules depth 9

  pub Keeps-no_privileges : (s : ℕ) → Keeps (IsSame i) (no_privileges s)
  unfolding no_privileges
  Keeps-no_privileges s = search reply_rules depth 9

  pub ruleset refusal_rules = (
    reply_rules, Keeps-no_such_channel, Keeps-not_on_channel, Keeps-not_chanop, Keeps-no_such_nick,
    Keeps-no_privileges,
  )

-- What a guarded action does to every state, its own server put in for `i`.
pub Guarded-After :
    {A : Type 0} (Q : IrcServer → Type 0) (m : M A)
    → ((i : IrcServer) → Guarded i (Q i) m)
    → (st : St) → After (λ st'. IsSame st.server st' ⊎ Q st.server) (m st)
Guarded-After Q m g st = (g st.server).at st (record { same = refl })

-- The read and the dereference of `channel_at` in one.
channel_at-value :
    {B : Type 0} (P : Res B → Type 0) (key : Text) (f : Channel → M B) (st : St)
    → P ((non_nil (lookup key st.server.channels) >>= f) st)
    → P ((channel_at key >>= f) st)
unfolding channel_at ◌>>=◌ gets
channel_at-value P key f st h = h

module _ {i : IrcServer} {Q : Type 0} where
  pub Guarded-find_channel :
      {B : Type 0} (name : Text) (f : Option Channel → M B)
      → Guarded i Q (f (lookup (chan_to_lower name) i.channels))
      → Guarded i Q (find_channel name >>= f)
  unfolding find_channel
  Guarded-find_channel name f k = Guarded-gets _ f k

  pub Guarded-find_nick :
      {B : Type 0} (name : Text) (f : Option ℕ → M B)
      → Guarded i Q (f (lookup (nick_to_lower name) i.nicks))
      → Guarded i Q (find_nick name >>= f)
  unfolding find_nick
  Guarded-find_nick name f k = Guarded-gets _ f k

  pub Guarded-channel_at :
      {B : Type 0} (key : Text) (f : Channel → M B)
      → ((c : Channel) → lookup key i.channels ≡ some c → Guarded i Q (f c))
      → Guarded i Q (channel_at key >>= f)
  Guarded-channel_at key f k = record {
    at = λ st h. channel_at-value (After (λ st'. IsSame i st' ⊎ Q)) key f st (
        subst
          (λ (j : IrcServer).
            After (λ st'. IsSame i st' ⊎ Q) ((non_nil (lookup key j.channels) >>= f) st))
          (sym h.same) ((Guarded-non_nil (lookup key i.channels) f k).at st h));
  }

  chanop-value :
      {B : Type 0} (o : Option Perms) (f : Bool → M B)
      → ((p : Perms) → o ≡ some p → Guarded i Q (f p.chanop))
      → Guarded i Q ((non_nil o >>= λ perms. pure perms.chanop) >>= f)
  unfolding ◌>>=◌ non_nil pure crash
  chanop-value none f k = record { at = λ st h. tt }
  chanop-value (some p) f k = record { at = λ st h. (k p refl).at st h }

  pub Guarded-is_chanop :
      {B : Type 0} (c : Channel) (nick : Text) (f : Bool → M B)
      → ((p : Perms) → lookup (nick_to_lower nick) c.nicks ≡ some p → Guarded i Q (f p.chanop))
      → Guarded i Q (is_chanop c nick >>= f)
  unfolding is_chanop
  Guarded-is_chanop c nick f k = chanop-value _ f k

  locked-value :
      {B : Type 0} (b : Bool) (o : Option Perms) (f : Bool → M B)
      → (b ≡ false → Guarded i Q (f false))
      → ((p : Perms) → o ≡ some p → Guarded i Q (f (not p.chanop)))
      → Guarded i Q (
          (if b
            then ((non_nil o >>= λ perms. pure perms.chanop) >>= λ op. pure (not op))
            else pure false)
          >>= f)
  unfolding ◌>>=◌ non_nil pure crash
  locked-value false o f k l = record { at = λ st h. (k refl).at st h }
  locked-value true none f k l = record { at = λ st h. tt }
  locked-value true (some p) f k l = record { at = λ st h. (l p refl).at st h }

  pub Guarded-topic_locked :
      ⦃env : Env⦄ {B : Type 0} (c : Channel) (nick : Text) (f : Bool → M B)
      → (c.modes b't' ≡ false → Guarded i Q (f false))
      → ((p : Perms)
          → lookup (nick_to_lower nick) c.nicks ≡ some p
          → Guarded i Q (f (not p.chanop)))
      → Guarded i Q (topic_locked c nick >>= f)
  unfolding topic_locked is_chanop
  Guarded-topic_locked c nick f k l = locked-value (c.modes b't') _ f k l
