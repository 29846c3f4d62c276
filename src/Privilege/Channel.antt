-- ===== src/Privilege/Channel.antt =====
-- cmd_kick.go, cmd_topic.go and cmd_invite.go: what a user may change about a channel.
use robustirc.Base.{
  Bool, [], elem, false, get_elem?, if◌then◌else◌, inl, inr, length, nat_beq, nat_eq, not, refl,
  some, sym, true, ℕ, ◌&&◌, ◌==◌, ◌≡◌, ◌⊎◌,
}
use robustirc.Base.Assoc.{lookup}
use robustirc.Command.Part.{cmd_kick, kick_from}
use robustirc.Command.Topic.{cmd_topic, get_topic, set_topic, topic_locked, topic_of, unset_topic}
use robustirc.Handler.{not_chanop, not_on_channel}
use robustirc.Irc.{Env, Msg}
use robustirc.Privilege.Send.{
  Guarded-After, Guarded-find_channel, Guarded-topic_locked, Keeps-no_such_channel,
  Keeps-not_chanop, Keeps-not_on_channel, Keeps-reply_user, refusal_rules,
}
use robustirc.Robust.{id_eq}
use robustirc.Run.{M, St, ◌>>=◌}
use robustirc.Run.Guarded.{
  Guarded, Guarded-any, Guarded-deref, Guarded-if, Guarded-Keeps, Guarded-option, Guarded-param,
  IsSame,
}
use robustirc.Run.Keeps.{After, Keeps}
use robustirc.Server.{Channel, IrcServer, Perms}
use robustirc.Text.{Text, text_eq}
use robustirc.Text.Case.{chan_to_lower, nick_to_lower}

-- The session's nickname is a channel operator of the channel with this name.
pub record IsChanop (i : IrcServer) (s : ℕ) (name : Text) : Type 0 where
  pub channel : Channel
  pub found : lookup (chan_to_lower name) i.channels ≡ some channel
  pub perms : Perms
  pub member : lookup (nick_to_lower (i.heap s).nick) channel.nicks ≡ some perms
  pub op : perms.chanop ≡ true

-- The parameter at an index names a channel of which the session is an operator.
pub record IsChanopOf (i : IrcServer) (s : ℕ) (msg : Msg) (n : ℕ) : Type 0 where
  pub name : Text
  pub named : get_elem? msg.params n ≡ some name
  pub chanop : IsChanop i s name

pub not-false : (b : Bool) → not b ≡ false → b ≡ true
not-false true e = refl
not-false false e = sym e

module _ ⦃env : Env⦄ where
  Guarded-kick_from :
      (i : IrcServer) (s : ℕ) (msg : Msg) (name target : Text) (c : Channel)
      → get_elem? msg.params 0 ≡ some name
      → lookup (chan_to_lower name) i.channels ≡ some c
      → Guarded i (IsChanopOf i s msg 0) (kick_from s msg name target c)
  unfolding kick_from
  Guarded-kick_from i s msg name target c named found = Guarded-deref s _ (
      Guarded-option _ _ _ (λ _. Guarded-Keeps _ (Keeps-not_on_channel s name))
        (λ perms member.
          Guarded-if _ _ _ (λ _. Guarded-Keeps _ (Keeps-not_chanop s name))
            (λ e. Guarded-any _ (record {
              name = name;
              named = named;
              chanop = record {
                channel = c;
                found = found;
                perms = perms;
                member = member;
                op = not-false perms.chanop e;
              };
            }))))

  Guarded-cmd_kick :
      (s : ℕ) (msg : Msg) (i : IrcServer) → Guarded i (IsChanopOf i s msg 0) (cmd_kick s msg)
  unfolding cmd_kick
  Guarded-cmd_kick s msg i = Guarded-param msg 0 _ (λ name named. Guarded-find_channel name _ (
      Guarded-deref s _ (
        Guarded-option _ _ _ (λ _. Guarded-Keeps _ (Keeps-reply_user s _ _))
          (λ c found.
            Guarded-param msg 1 _
              (λ target _. Guarded-kick_from i s msg name target c named found)))))

  -- KICK, whatever its parameters and the state: if it does not panic, the server is left as it
  -- was, or the session's nickname is an operator of the channel that the first parameter names.
  pub cmd_kick-IsChanopOf :
      (s : ℕ) (msg : Msg) (st : St)
      → After (λ st'. IsSame st.server st' ⊎ IsChanopOf st.server s msg 0) (cmd_kick s msg st)
  cmd_kick-IsChanopOf s msg st =
      Guarded-After (λ i. IsChanopOf i s msg 0) (cmd_kick s msg) (Guarded-cmd_kick s msg) st

-- The first parameter names a channel without mode +t, or of which the session is an operator.
pub record MayTopic (i : IrcServer) (s : ℕ) (msg : Msg) : Type 0 where
  pub name : Text
  pub named : get_elem? msg.params 0 ≡ some name
  pub channel : Channel
  pub found : lookup (chan_to_lower name) i.channels ≡ some channel
  pub allowed : (channel.modes b't' ≡ false) ⊎ IsChanop i s name

module _ ⦃env : Env⦄ (i : IrcServer) (s : ℕ) (msg : Msg) (name : Text) (c : Channel)
    (named : get_elem? msg.params 0 ≡ some name)
    (found : lookup (chan_to_lower name) i.channels ≡ some c) where
  may : (c.modes b't' ≡ false) ⊎ IsChanop i s name → MayTopic i s msg
  may allowed = record { name = name; named = named; channel = c; found = found; allowed = allowed }

  op-may :
      (perms : Perms)
      → lookup (nick_to_lower (i.heap s).nick) c.nicks ≡ some perms
      → not perms.chanop ≡ false
      → MayTopic i s msg
  op-may perms member e = may (
      inr (record {
        channel = c;
        found = found;
        perms = perms;
        member = member;
        op = not-false perms.chanop e;
      }))

  Guarded-locked :
      (f : M (Unit {0}))
      → Guarded i
          (MayTopic i s msg)
          (topic_locked c (i.heap s).nick >>= λ locked. if locked then not_chanop s name else f)
  Guarded-locked f =
      Guarded-topic_locked c _ _ (λ e. Guarded-any _ (may (inl e)))
        (λ p member.
          Guarded-if _ _ _ (λ _. Guarded-Keeps _ (Keeps-not_chanop s name))
            (λ e. Guarded-any _ (op-may p member e)))

  Guarded-unset_topic : Guarded i (MayTopic i s msg) (unset_topic s msg name c)
  unfolding unset_topic
  Guarded-unset_topic = Guarded-deref s _ (Guarded-locked _)

  Guarded-set_topic : Guarded i (MayTopic i s msg) (set_topic s msg name c)
  unfolding set_topic
  Guarded-set_topic = Guarded-deref s _ (Guarded-locked _)

  Keeps-get_topic : Keeps (IsSame i) (get_topic s name c)
  unfolding get_topic
  Keeps-get_topic = search refusal_rules depth 9

  abbrev get_or_set : M (Unit {0})
  get_or_set = if nat_beq (length msg.params) 1 then get_topic s name c else set_topic s msg name c

  abbrev rest : M (Unit {0})
  rest =
      if not (elem (chan_to_lower name) (i.heap s).channels)
      then not_on_channel s name
      else get_or_set

  Guarded-topic_of : Guarded i (MayTopic i s msg) (topic_of s msg name c)
  unfolding topic_of
  Guarded-topic_of = Guarded-deref s _ (
      Guarded-if (env.trailing msg == [] && nat_beq (length msg.params) 2) _ rest
        (λ _. Guarded-unset_topic)
        (λ _.
          Guarded-if (not (elem (chan_to_lower name) (i.heap s).channels)) _ get_or_set
            (λ _. Guarded-Keeps _ (Keeps-not_on_channel s name))
            (λ _.
              Guarded-if (nat_beq (length msg.params) 1) _ _ (λ _. Guarded-Keeps _ Keeps-get_topic)
                (λ _. Guarded-set_topic))))

module _ ⦃env : Env⦄ where
  Guarded-cmd_topic :
      (s : ℕ) (msg : Msg) (i : IrcServer) → Guarded i (MayTopic i s msg) (cmd_topic s msg)
  unfolding cmd_topic
  Guarded-cmd_topic s msg i = Guarded-param msg 0 _ (λ name named. Guarded-find_channel name _ (
      Guarded-option _ _ _ (λ _. Guarded-Keeps _ (Keeps-no_such_channel s name))
        (λ c found. Guarded-topic_of i s msg name c named found)))

  -- TOPIC, whatever its parameters and the state: if it does not panic, the server is left as it
  -- was, or the first parameter names a channel that has no mode +t or of which the session's
  -- nickname is an operator.
  pub cmd_topic-MayTopic :
      (s : ℕ) (msg : Msg) (st : St)
      → After (λ st'. IsSame st.server st' ⊎ MayTopic st.server s msg) (cmd_topic s msg st)
  cmd_topic-MayTopic s msg st =
      Guarded-After (λ i. MayTopic i s msg) (cmd_topic s msg) (Guarded-cmd_topic s msg) st
