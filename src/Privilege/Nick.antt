-- ===== src/Privilege/Nick.antt =====
-- cmd_nick.go: which nicknames a user may take.
use robustirc.Base.{
  Bool, Option, [], arith, false, get_elem?, if◌then◌else◌, inl, inr, is_some, nat_eq, none, not,
  or_default, refl, some, true, ℕ, ◌&&◌, ◌==◌, ◌||◌, ◌∷◌, ◌≡◌, ◌⊎◌,
}
use robustirc.Base.Assoc.{lookup}
use robustirc.Command.Nick.{check_hold, cmd_nick, erroneous_nickname, request_nick, take_nick}
use robustirc.Irc.{Env, Msg}
use robustirc.Nickname.{is_services_nickname, is_valid_nickname}
use robustirc.Privilege.Channel.{not-false}
use robustirc.Privilege.Send.{Guarded-After, Guarded-find_nick, Keeps-reply_user}
use robustirc.Robust.{id_eq}
use robustirc.Run.{M, St, done, ◌>>=◌}
use robustirc.Run.Guarded.{Guarded, Guarded-Keeps, Guarded-any, Guarded-deref, Guarded-if, IsSame}
use robustirc.Run.Keeps.{After, Keeps}
use robustirc.Send.{reply_user}
use robustirc.Server.{IrcServer}
use robustirc.Text.{Text, text, text_beq_iff, text_eq}
use robustirc.Text.Case.{nick_to_lower}

-- The nickname that NICK asks for.
abbrev pub wanted : Msg → Text
wanted msg = or_default [] (get_elem? msg.params 0)

-- It is valid, not one for services, and not in the map of nicknames or the session's own up to its
-- capitals.
pub record MayTake (i : IrcServer) (s : ℕ) (nick : Text) : Type 0 where
  pub valid : is_valid_nickname nick ≡ true
  pub no_service : is_services_nickname nick ≡ false
  pub available :
      (lookup (nick_to_lower nick) i.nicks ≡ none)
      ⊎ (nick_to_lower nick ≡ nick_to_lower (i.heap s).nick)

free_or_own :
    (found : Option ℕ) (logged_in : Bool) (new old : Text)
    → (is_some found && not (logged_in && new == old)) ≡ false
    → (found ≡ none) ⊎ (new ≡ old)
free_or_own none logged_in new old e = inl refl
free_or_own (some r) true new old e = inr ((text_beq_iff new old).0 (ground (arith, e)))
free_or_own (some r) false new old e = absurd (cc)

or_false : (a b : Bool) → (a || b) ≡ false → (a ≡ false) × (b ≡ false)
or_false true b e = absurd (cc)
or_false false b e = (refl, e)

module _ ⦃env : Env⦄ where
  Keeps-erroneous_nickname :
      {i : IrcServer} (s : ℕ) (dest nick reason : Text)
      → Keeps (IsSame i) (erroneous_nickname s dest nick reason)
  unfolding erroneous_nickname
  Keeps-erroneous_nickname s dest nick reason = Keeps-reply_user s _ _

  -- the end of NICK, after its checks
  abbrev take : ℕ → Msg → Text → Text → Bool → M (Unit {0})
  take s msg dest nick only_caps = do
    held ← check_hold s dest nick
    if held then done else take_nick s msg nick only_caps

  Guarded-request_nick :
      (s : ℕ) (msg : Msg) (nick : Text) (i : IrcServer)
      → Guarded i (MayTake i s nick) (request_nick s msg nick)
  unfolding request_nick
  Guarded-request_nick s msg nick i =
      let u = i.heap s in
      let dest = if u.logged_in then u.nick else text "*" in
      let only_caps = u.logged_in && nick_to_lower nick == nick_to_lower u.nick in
      let found = lookup (nick_to_lower nick) i.nicks in
      let refuse =
        reply_user s (text "433") (dest ∷ nick ∷ text "Nickname is already in use" ∷ []) in
      Guarded-deref s _ (
        Guarded-find_nick nick _ (
          Guarded-if (not (is_valid_nickname nick))
            (erroneous_nickname s dest nick (text "Erroneous nickname"))
            (if (is_some found && not only_caps) || is_services_nickname nick
              then refuse
              else take s msg dest nick only_caps)
            (λ _. Guarded-Keeps _ (Keeps-erroneous_nickname s dest nick _))
            (λ valid.
              Guarded-if ((is_some found && not only_caps) || is_services_nickname nick) refuse
                (take s msg dest nick only_caps) (λ _. Guarded-Keeps _ (Keeps-reply_user s _ _))
                (λ e.
                  let parts =
                    or_false (is_some found && not only_caps) (is_services_nickname nick) e in
                  Guarded-any _ (record {
                    valid = not-false _ valid;
                    no_service = parts.1;
                    available = free_or_own found u.logged_in _ _ parts.0;
                  })))))

  Guarded-cmd_nick :
      (s : ℕ) (msg : Msg) (i : IrcServer) → Guarded i (MayTake i s (wanted msg)) (cmd_nick s msg)
  unfolding cmd_nick
  Guarded-cmd_nick s msg i =
      Guarded-if (wanted msg == []) (reply_user s (text "431") (text "No nickname given" ∷ []))
        (request_nick s msg (wanted msg)) (λ _. Guarded-Keeps _ (Keeps-reply_user s _ _))
        (λ _. Guarded-request_nick s msg (wanted msg) i)

  -- NICK, whatever its parameters and the state: if it does not panic, the server is left as it
  -- was, or the nickname asked for is valid, does not end in serv, and either the map of nicknames
  -- has no entry for it, in upper or lower case, or it is the session's own up to the case.
  pub cmd_nick-MayTake :
      (s : ℕ) (msg : Msg) (st : St)
      → After (λ st'. IsSame st.server st' ⊎ MayTake st.server s (wanted msg)) (cmd_nick s msg st)
  cmd_nick-MayTake s msg st =
      Guarded-After (λ i. MayTake i s (wanted msg)) (cmd_nick s msg) (Guarded-cmd_nick s msg) st
