-- ===== src/Privilege/Mode.antt =====
-- cmd_mode.go: who may change the modes of a channel or of a user.
use robustirc.Base.{
  Bool, Bool-cases, List, Option, [], arith, elem, false, get_elem?, inl, inr, nat_eq, none, not,
  refl, some, true, ℕ, ◌&&◌, ◌==◌, ◌||◌, ◌∷◌, ◌≡◌, ◌⊎◌,
}
use robustirc.Base.Assoc.{lookup}
use robustirc.Command.Mode.{
  announce_modes, channel_mode, cmd_mode, is_change, mode_loop, mode_of_nick, query_bans,
}
use robustirc.Irc.{Env, Msg}
use robustirc.Modes.{ModeCmd, normalize_modes}
use robustirc.Privilege.Channel.{IsChanop}
use robustirc.Privilege.Send.{
  Guarded-After, Guarded-channel_at, Guarded-find_nick, Guarded-is_chanop, Keeps-not_chanop,
  Keeps-not_on_channel, Keeps-reply_user, refusal_rules,
}
use robustirc.Robust.{id_eq}
use robustirc.Run.{St, ◌>>=◌}
use robustirc.Run.Guarded.{
  Guarded, Guarded-any, Guarded-deref, Guarded-if, Guarded-Keeps, Guarded-param, IsSame,
}
use robustirc.Run.Keeps.{After, Keeps, Keeps-bind, Keeps-if, Keeps-pure}
use robustirc.Send.{find_nick}
use robustirc.Server.{Channel, IrcServer, Perms}
use robustirc.Text.{Text, text_beq_iff, text_eq}
use robustirc.Text.Case.{chan_to_lower, nick_to_lower}

-- The first parameter is a channel of which the session is an operator, or the session's own
-- nickname, or the session is an IRC operator.
pub record MayMode (i : IrcServer) (s : ℕ) (msg : Msg) : Type 0 where
  pub target : Text
  pub named : get_elem? msg.params 0 ≡ some target
  pub allowed :
      ((i.heap s).operator ≡ true)
      ⊎ (IsChanop i s target ⊎ (nick_to_lower target ≡ nick_to_lower (i.heap s).nick))

or_true : (a b : Bool) → (a || b) ≡ true → (b ≡ true) ⊎ (a ≡ true)
or_true true b e = inr refl
or_true false b e = inl e

own_or_operator :
    (target nick : Text) (operator : Bool)
    → (not (target == nick) && not operator) ≡ false
    → (operator ≡ true) ⊎ (target ≡ nick)
own_or_operator target nick true e = inl refl
own_or_operator target nick false e = inr ((text_beq_iff target nick).0 (ground (arith, e)))

module _ ⦃env : Env⦄ {i : IrcServer} where
  Keeps-query_bans : (s : ℕ) (name : Text) → Keeps (IsSame i) (query_bans s name)
  unfolding query_bans
  Keeps-query_bans s name = search refusal_rules depth 10

  -- For a session that is no operator, the loop changes nothing.
  Keeps-mode_loop :
      (s : ℕ) (name : Text) (q : Bool) (modes : List ModeCmd)
      → Keeps (IsSame i) (mode_loop s name false q modes)
  unfolding mode_loop
  Keeps-mode_loop s name q [] = Keeps-pure _
  Keeps-mode_loop s name q (mode ∷ modes) =
      Keeps-if (is_change mode) _ _ (Keeps-bind _ _ (Keeps-not_chanop s name) (λ _. Keeps-pure _))
        (Keeps-bind _ _ (Keeps-query_bans s name) (λ _. Keeps-mode_loop s name q modes))

  Keeps-announce_modes :
      (s : ℕ) (name : Text) (modes : List ModeCmd) (q : Option Bool)
      → Keeps (IsSame i) (announce_modes s name modes q)
  unfolding announce_modes
  Keeps-announce_modes s name modes none = Keeps-pure tt
  Keeps-announce_modes s name modes (some true) = Keeps-pure tt
  Keeps-announce_modes s name modes (some false) = search refusal_rules depth 10

module _ ⦃env : Env⦄ (i : IrcServer) (s : ℕ) (msg : Msg) (target : Text)
    (named : get_elem? msg.params 0 ≡ some target) where
  Guarded-loop :
      (a b : Bool) (modes : List ModeCmd)
      → ((b ≡ true) ⊎ (a ≡ true) → MayMode i s msg)
      → Guarded i
          (MayMode i s msg)
          (mode_loop s target (a || b) true modes >>= announce_modes s target modes)
  Guarded-loop a b modes may = elim (Bool-cases (a || b)) [
    | inl e ↦ Guarded-any _ (may (or_true a b e))
    | inr e ↦ rw e (
        Guarded-Keeps _ (
          Keeps-bind _ _ (Keeps-mode_loop s target true modes)
            (λ q. Keeps-announce_modes s target modes q)))
  ]

  op-may :
      (c : Channel) (perms : Perms)
      → lookup (chan_to_lower target) i.channels ≡ some c
      → lookup (nick_to_lower (i.heap s).nick) c.nicks ≡ some perms
      → ((i.heap s).operator ≡ true) ⊎ (perms.chanop ≡ true)
      → MayMode i s msg
  op-may c perms found member (inl e) = record { target = target; named = named; allowed = inl e }
  op-may c perms found member (inr e) = record {
    target = target;
    named = named;
    allowed =
        inr (inl (record { channel = c; found = found; perms = perms; member = member; op = e }));
  }

  Keeps-query_modes : Keeps (IsSame i) (channel_mode s target [])
  unfolding channel_mode
  Keeps-query_modes = search refusal_rules depth 10

  Guarded-channel_mode :
      (modes : List ModeCmd) → Guarded i (MayMode i s msg) (channel_mode s target modes)
  unfolding channel_mode
  Guarded-channel_mode [] = Guarded-Keeps _ Keeps-query_modes
  Guarded-channel_mode (mode ∷ modes) = Guarded-channel_at _ _ (λ c found. Guarded-deref s _ (
      Guarded-is_chanop c _ _ (λ p member.
        Guarded-loop p.chanop (i.heap s).operator (mode ∷ modes) (op-may c p found member))))

  nick-may :
      ((i.heap s).operator ≡ true) ⊎ (nick_to_lower target ≡ nick_to_lower (i.heap s).nick)
      → MayMode i s msg
  nick-may (inl e) = record { target = target; named = named; allowed = inl e }
  nick-may (inr e) = record { target = target; named = named; allowed = inr (inr e) }

  Guarded-mode_of_nick :
      (found : Option ℕ) → Guarded i (MayMode i s msg) (mode_of_nick s msg target found)
  unfolding mode_of_nick
  Guarded-mode_of_nick none = Guarded-Keeps _ (Keeps-not_on_channel s target)
  Guarded-mode_of_nick (some r) = Guarded-deref s _ (
      Guarded-if _ _ _ (λ _. Guarded-Keeps _ (Keeps-reply_user s _ _))
        (λ e. Guarded-any _ (nick-may (own_or_operator _ _ _ e))))

module _ ⦃env : Env⦄ where
  Guarded-cmd_mode :
      (s : ℕ) (msg : Msg) (i : IrcServer) → Guarded i (MayMode i s msg) (cmd_mode s msg)
  unfolding cmd_mode
  Guarded-cmd_mode s msg i = Guarded-param msg 0 _ (λ target named. Guarded-deref s _ (
      Guarded-if (elem (chan_to_lower target) (i.heap s).channels)
        (channel_mode s target (normalize_modes msg.params))
        (find_nick target >>= mode_of_nick s msg target)
        (λ _. Guarded-channel_mode i s msg target named (normalize_modes msg.params))
        (λ _.
          Guarded-find_nick target (mode_of_nick s msg target)
            (Guarded-mode_of_nick i s msg target named _))))

  -- MODE, whatever its parameters and the state: if it does not panic, the server is left as it
  -- was, or the session is an IRC operator, or the first parameter is a channel of which the
  -- session's nickname is an operator, or it is the session's own nickname.
  pub cmd_mode-MayMode :
      (s : ℕ) (msg : Msg) (st : St)
      → After (λ st'. IsSame st.server st' ⊎ MayMode st.server s msg) (cmd_mode s msg st)
  cmd_mode-MayMode s msg st =
      Guarded-After (λ i. MayMode i s msg) (cmd_mode s msg) (Guarded-cmd_mode s msg) st
