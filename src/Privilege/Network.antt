-- ===== src/Privilege/Network.antt =====
-- cmd_kill.go, cmd_gline.go, cmd_oper.go, server_commands.go and ProcessMessage of ircserver.go:
-- what takes the rights of an IRC operator, of the services, or a login.
use robustirc.Base.{
  Bool-cases, List, [], arith, elem, false, get_elem?, inl, inr, ltb, nat_eq, not, refl, some, true,
  ℕ, ◌&&◌, ◌*◌, ◌++◌, ◌-◌, ◌<◌, ◌==◌, ◌∷◌, ◌≡◌, ◌⊎◌,
}
use robustirc.Command.Oper.{cmd_gline, cmd_kill, cmd_oper, is_operator}
use robustirc.Config.{IrcOp, Service, minute}
use robustirc.Dispatch.{before_login, dispatch, not_registered}
use robustirc.Irc.{Env, Msg}
use robustirc.Privilege.Channel.{not-false}
use robustirc.Privilege.Send.{Guarded-After, Keeps-no_privileges, Keeps-reply_user, refusal_rules}
use robustirc.Robust.{id_eq, unix}
use robustirc.Run.{St}
use robustirc.Run.Guarded.{
  Guarded, Guarded-any, Guarded-bind, Guarded-deref, Guarded-gets, Guarded-if, Guarded-Keeps,
  Guarded-param, IsSame,
}
use robustirc.Run.Keeps.{After, Keeps-pure}
use robustirc.Server.{IrcServer}
use robustirc.ServerCommand.Server.{cmd_server, is_service}
use robustirc.Text.{Text, text, text_beq_iff, text_eq}

module _ ⦃env : Env⦄ where
  Guarded-cmd_kill :
      (s : ℕ) (msg : Msg) (i : IrcServer) → Guarded i ((i.heap s).operator ≡ true) (cmd_kill s msg)
  unfolding cmd_kill
  Guarded-cmd_kill s msg i = Guarded-deref s _ (
      Guarded-if _ _ _ (λ _. Guarded-Keeps _ (Keeps-no_privileges s))
        (λ e. Guarded-any _ (not-false _ e)))

  Guarded-cmd_gline :
      (s : ℕ) (msg : Msg) (i : IrcServer) → Guarded i ((i.heap s).operator ≡ true) (cmd_gline s msg)
  unfolding cmd_gline
  Guarded-cmd_gline s msg i = Guarded-deref s _ (
      Guarded-if _ _ _ (λ _. Guarded-Keeps _ (Keeps-no_privileges s))
        (λ e. Guarded-any _ (not-false _ e)))

  -- KILL and GLINE, whatever their parameters and the state: if they do not panic, the server is
  -- left as it was, or the session is an IRC operator.
  pub cmd_kill-operator :
      (s : ℕ) (msg : Msg) (st : St)
      → After
          (λ st'. IsSame st.server st' ⊎ ((st.server.heap s).operator ≡ true))
          (cmd_kill s msg st)
        × After
            (λ st'. IsSame st.server st' ⊎ ((st.server.heap s).operator ≡ true))
            (cmd_gline s msg st)
  cmd_kill-operator s msg st = (
    Guarded-After (λ i. (i.heap s).operator ≡ true) (cmd_kill s msg) (Guarded-cmd_kill s msg) st,
    Guarded-After (λ i. (i.heap s).operator ≡ true) (cmd_gline s msg) (Guarded-cmd_gline s msg) st,
  )

-- An operator of the configuration with this name and this password.
abbrev pub HasOper : Text → Text → List IrcOp → Type 0
HasOper name password [] = ⊥
HasOper name password (op ∷ ops) =
    ((op.name ≡ name) × (op.password ≡ password)) ⊎ HasOper name password ops

-- A service of the configuration whose password, behind services=, is the one given.
abbrev pub HasService : Text → List Service → Type 0
HasService pass [] = ⊥
HasService pass (service ∷ rest) =
    (pass ≡ text "services=" ++ service.password) ⊎ HasService pass rest

is_operator-HasOper :
    (name password : Text) (ops : List IrcOp)
    → is_operator name password ops ≡ true
    → HasOper name password ops
unfolding is_operator
is_operator-HasOper name password [] e = absurd (cc)
is_operator-HasOper name password (op ∷ ops) e =
    elim (Bool-cases (op.name == name && op.password == password)) [
      | inl t ↦ inl (
        (text_beq_iff op.name name).0 (ground (arith, t)),
        (text_beq_iff op.password password).0 (ground (arith, t)),
      )
      | inr t ↦ inr (is_operator-HasOper name password ops (ground (arith, t, e)))
    ]

is_service-HasService :
    (pass : Text) (services : List Service)
    → is_service pass services ≡ true
    → HasService pass services
unfolding is_service
is_service-HasService pass [] e = absurd (cc)
is_service-HasService pass (service ∷ rest) e =
    elim (Bool-cases (pass == text "services=" ++ service.password)) [
      | inl t ↦ inl ((text_beq_iff pass (text "services=" ++ service.password)).0 t)
      | inr t ↦ inr (is_service-HasService pass rest (ground (arith, t, e)))
    ]

-- The parameters are the name and the password of a configured operator.
pub record HasPassword (i : IrcServer) (msg : Msg) : Type 0 where
  pub name : Text
  pub named : get_elem? msg.params 0 ≡ some name
  pub password : Text
  pub given : get_elem? msg.params 1 ≡ some password
  pub known : HasOper name password i.config.irc.operators

module _ ⦃env : Env⦄ where
  Guarded-cmd_oper :
      (s : ℕ) (msg : Msg) (i : IrcServer) → Guarded i (HasPassword i msg) (cmd_oper s msg)
  unfolding cmd_oper
  Guarded-cmd_oper s msg i = Guarded-param msg 0 _ (λ name named.
      Guarded-param msg 1 _ (λ password given. Guarded-gets _ _ (
        Guarded-deref s _ (
          Guarded-if _ _ _ (λ _. Guarded-Keeps _ (Keeps-reply_user s _ _))
            (λ e. Guarded-any _ (record {
              name = name;
              named = named;
              password = password;
              given = given;
              known = is_operator-HasOper name password _ (not-false _ e);
            }))))))

  Guarded-cmd_server :
      (s : ℕ) (msg : Msg) (i : IrcServer)
      → Guarded i (HasService (i.heap s).pass i.config.irc.services) (cmd_server s msg)
  unfolding cmd_server
  Guarded-cmd_server s msg i = Guarded-deref s _ (
      Guarded-gets _ _ (
        Guarded-param msg 0 _ (λ name _.
          Guarded-if _ _ _ (λ _. Guarded-Keeps _ (search refusal_rules depth 9))
            (λ e. Guarded-any _ (is_service-HasService _ _ (not-false _ e))))))

  -- OPER and SERVER, whatever the state: if they do not panic, the server is left as it was, or,
  -- for OPER, the parameters are the name and password of a configured operator, and for SERVER,
  -- the session's password is services= and the password of a configured service.
  pub cmd_oper-HasPassword :
      (s : ℕ) (msg : Msg) (st : St)
      → After (λ st'. IsSame st.server st' ⊎ HasPassword st.server msg) (cmd_oper s msg st)
        × After
            (λ st'.
              IsSame st.server st'
              ⊎ HasService (st.server.heap s).pass st.server.config.irc.services)
            (cmd_server s msg st)
  cmd_oper-HasPassword s msg st = (
    Guarded-After (λ i. HasPassword i msg) (cmd_oper s msg) (Guarded-cmd_oper s msg) st,
    Guarded-After (λ i. HasService (i.heap s).pass i.config.irc.services) (cmd_server s msg)
        (Guarded-cmd_server s msg) st,
  )

late : (a b : ℕ) → not (ltb a b) ≡ false → a < b
late a b e = ground (arith, e)

module _ ⦃env : Env⦄ where
  Guarded-not_registered :
      (s : ℕ) (cmd : Text) (i : IrcServer)
      → Guarded i
          (10 * minute < (i.heap s).last_activity - unix (i.heap s).created)
          (not_registered s cmd)
  unfolding not_registered
  Guarded-not_registered s cmd i = Guarded-deref s _ (
      Guarded-bind _ _ (Guarded-Keeps _ (Keeps-reply_user s _ _)) (λ _.
        Guarded-if _ _ _ (λ _. Guarded-Keeps _ (Keeps-pure tt)) (λ e. Guarded-any _ (late _ _ e))))

  -- A client that has not registered, and is no server, changes nothing by a command other than
  -- NICK, USER, PASS, QUIT and SERVER: if the dispatch of the command does not panic, the server is
  -- left as it was, or the session was created more than ten minutes before its last activity.
  pub dispatch-not_registered :
      (s : ℕ) (msg : Msg) (cmd : Text) (st : St)
      → (st.server.heap s).logged_in ≡ false
      → (st.server.heap s).server ≡ false
      → elem cmd before_login ≡ false
      → After
          (λ st'.
            IsSame st.server st'
            ⊎ (10 * minute < (st.server.heap s).last_activity - unix (st.server.heap s).created))
          (dispatch s msg cmd st)
  unfolding dispatch
  dispatch-not_registered s msg cmd st out client other =
      (Guarded-deref s _ (rw (out, client, other) (Guarded-not_registered s cmd st.server))).at st
        (record { same = refl })
