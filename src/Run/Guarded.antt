-- ===== src/Run/Guarded.antt =====
-- Actions that change the server only under a condition on the server before them.
use robustirc.Base.{
  Bool, Option, false, get_elem?, if◌then◌else◌, inl, inr, none, option_case, refl, some, sym, true,
  ℕ, ◌≡◌, ◌⊎◌,
}
use robustirc.Irc.{Msg}
use robustirc.Run.{M, Res, St, continue, crash, deref, gets, non_nil, ok, panic, param, pure, ◌>>=◌}
use robustirc.Run.Keeps.{After, Keeps}
use robustirc.Server.{IrcServer, Session}
use robustirc.Text.{Text}
use mathlib.Core.Path.{subst}

-- The server is still the one given.
pub record IsSame (i : IrcServer) (st : St) : Type 0 where
  pub same : st.server ≡ i

-- From the server `i`, the action leaves the server as it is, or `Q` holds.
pub record Guarded {A : Type 0} (i : IrcServer) (Q : Type 0) (m : M A) : Type 0 where
  pub at : (st : St) → IsSame i st → After (λ st'. IsSame i st' ⊎ Q) (m st)

module _ (i : IrcServer) (Q : Type 0) where
  After-any : {A : Type 0} (r : Res A) → Q → After (λ st'. IsSame i st' ⊎ Q) r
  After-any (ok a st) q = inr q
  After-any panic q = tt

  After-inl : {A : Type 0} (r : Res A) → After (IsSame i) r → After (λ st'. IsSame i st' ⊎ Q) r
  After-inl (ok a st) h = inl h
  After-inl panic h = tt

  After-bind :
      {A B : Type 0} (r : Res A) (f : A → M B)
      → After (λ st'. IsSame i st' ⊎ Q) r
      → ((a : A) → Guarded i Q (f a))
      → After (λ st'. IsSame i st' ⊎ Q) (continue r f)
  After-bind (ok a st) f (inl h) k = (k a).at st h
  After-bind (ok a st) f (inr q) k = After-any (f a st) q
  After-bind panic f h k = tt

module _ {i : IrcServer} {Q : Type 0} where
  pub Guarded-any : {A : Type 0} (m : M A) → Q → Guarded i Q m
  Guarded-any m q = record { at = λ st h. After-any i Q (m st) q }

  pub Guarded-Keeps : {A : Type 0} (m : M A) → Keeps (IsSame i) m → Guarded i Q m
  Guarded-Keeps m k = record { at = λ st h. After-inl i Q (m st) (k.at st h) }

  pub Guarded-bind :
      {A B : Type 0} (m : M A) (f : A → M B)
      → Guarded i Q m
      → ((a : A) → Guarded i Q (f a))
      → Guarded i Q (m >>= f)
  unfolding ◌>>=◌
  Guarded-bind m f km kf = record { at = λ st h. After-bind i Q (m st) f (km.at st h) kf }

  -- What is read from the server is read from `i`.
  pub Guarded-gets :
      {A B : Type 0} (g : IrcServer → A) (f : A → M B)
      → Guarded i Q (f (g i))
      → Guarded i Q (gets g >>= f)
  unfolding ◌>>=◌ gets
  Guarded-gets g f k = record {
    at = λ st h.
        subst (λ (j : IrcServer). After (λ st'. IsSame i st' ⊎ Q) (f (g j) st)) (sym h.same)
          (k.at st h);
  }

  pub Guarded-deref :
      {B : Type 0} (s : ℕ) (f : Session → M B)
      → Guarded i Q (f (i.heap s))
      → Guarded i Q (deref s >>= f)
  unfolding deref
  Guarded-deref s f k = Guarded-gets _ f k

  pub Guarded-non_nil :
      {A B : Type 0} (o : Option A) (f : A → M B)
      → ((a : A) → o ≡ some a → Guarded i Q (f a))
      → Guarded i Q (non_nil o >>= f)
  unfolding ◌>>=◌ non_nil crash pure
  Guarded-non_nil none f k = record { at = λ st h. tt }
  Guarded-non_nil (some a) f k = record { at = λ st h. (k a refl).at st h }

  pub Guarded-param :
      {B : Type 0} (msg : Msg) (n : ℕ) (f : Text → M B)
      → ((p : Text) → get_elem? msg.params n ≡ some p → Guarded i Q (f p))
      → Guarded i Q (param msg n >>= f)
  unfolding param
  Guarded-param msg n f k = Guarded-non_nil _ f k

  pub Guarded-if :
      {A : Type 0} (b : Bool) (m n : M A)
      → (b ≡ true → Guarded i Q m)
      → (b ≡ false → Guarded i Q n)
      → Guarded i Q (if b then m else n)
  Guarded-if true m n then_m else_n = then_m refl
  Guarded-if false m n then_m else_n = else_n refl

  pub Guarded-option :
      {A B : Type 0} (o : Option A) (m : M B) (f : A → M B)
      → (o ≡ none → Guarded i Q m)
      → ((a : A) → o ≡ some a → Guarded i Q (f a))
      → Guarded i Q (option_case o m f)
  Guarded-option none m f km kf = km refl
  Guarded-option (some a) m f km kf = kf a refl
