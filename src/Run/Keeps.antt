-- ===== src/Run/Keeps.antt =====
-- Invariants of actions, one rule for each way to build an action.
use robustirc.Base.{
  Bool, List, Option, [], false, if◌then◌else◌, inl, inr, list_case, none, option_case, some,
  sum_case, true, ℕ, ◌∷◌, ◌⊎◌,
}
use robustirc.Irc.{Msg}
use robustirc.Run.{
  M, Res, St, continue, crash, deref, for_each, gets, non_nil, ok, panic, param, prefix_of, pure,
  ◌>>=◌,
}
use robustirc.Server.{IrcServer}

abbrev pub After : {A : Type 0} → (St → Type 0) → Res A → Type 0
After P (ok a st) = P st
After P panic = Unit

-- `m` keeps `P`, if it does not panic.
pub record Keeps {A : Type 0} (P : St → Type 0) (m : M A) : Type 0 where
  pub at : (st : St) → P st → After P (m st)

module _ {P : St → Type 0} where
  After-continue :
      {A B : Type 0} (r : Res A) (f : A → M B)
      → After P r
      → ((a : A) → Keeps P (f a))
      → After P (continue r f)
  After-continue (ok a st) f h k = (k a).at st h
  After-continue panic f h k = tt

  pub Keeps-bind :
      {A B : Type 0} (m : M A) (f : A → M B)
      → Keeps P m
      → ((a : A) → Keeps P (f a))
      → Keeps P (m >>= f)
  unfolding ◌>>=◌
  Keeps-bind first rest keeps_first keeps_rest = record {
    at = λ st h. After-continue (first st) rest (keeps_first.at st h) keeps_rest;
  }

  pub Keeps-pure : {A : Type 0} (a : A) → Keeps P (pure a)
  unfolding pure
  Keeps-pure a = record { at = λ st h. h }

  pub Keeps-crash : {A : Type 0} → Keeps P (crash {A = A})
  unfolding crash
  Keeps-crash = record { at = λ st h. tt }

  pub Keeps-gets : {A : Type 0} (f : IrcServer → A) → Keeps P (gets f)
  unfolding gets
  Keeps-gets f = record { at = λ st h. h }

  pub Keeps-if :
      {A : Type 0} (b : Bool) (m n : M A) → Keeps P m → Keeps P n → Keeps P (if b then m else n)
  Keeps-if true m n km kn = km
  Keeps-if false m n km kn = kn

  pub Keeps-option :
      {A B : Type 0} (o : Option A) (m : M B) (f : A → M B)
      → Keeps P m
      → ((a : A) → Keeps P (f a))
      → Keeps P (option_case o m f)
  Keeps-option none m f km kf = km
  Keeps-option (some a) m f km kf = kf a

  pub Keeps-list :
      {A B : Type 0} (xs : List A) (m : M B) (f : A → List A → M B)
      → Keeps P m
      → ((a : A) (rest : List A) → Keeps P (f a rest))
      → Keeps P (list_case xs m f)
  Keeps-list [] m f km kf = km
  Keeps-list (a ∷ rest) m f km kf = kf a rest

  pub Keeps-sum :
      {A B C : Type 0} (e : A ⊎ B) (f : A → M C) (g : B → M C)
      → ((a : A) → Keeps P (f a))
      → ((b : B) → Keeps P (g b))
      → Keeps P (sum_case e f g)
  Keeps-sum (inl a) f g kf kg = kf a
  Keeps-sum (inr b) f g kf kg = kg b

  pub Keeps-for_each :
      {A : Type 0} (xs : List A) (body : A → M (Unit {0}))
      → ((x : A) → Keeps P (body x))
      → Keeps P (for_each xs body)
  unfolding for_each
  Keeps-for_each [] body k = Keeps-pure tt
  Keeps-for_each (x ∷ xs) body k = Keeps-bind _ _ (k x) (λ _. Keeps-for_each xs body k)

  pub Keeps-non_nil : {A : Type 0} (o : Option A) → Keeps P (non_nil o)
  unfolding non_nil
  Keeps-non_nil none = Keeps-crash
  Keeps-non_nil (some a) = Keeps-pure a

  pub Keeps-param : (msg : Msg) (n : ℕ) → Keeps P (param msg n)
  unfolding param
  Keeps-param msg n = Keeps-non_nil _

  pub Keeps-prefix_of : (msg : Msg) → Keeps P (prefix_of msg)
  unfolding prefix_of
  Keeps-prefix_of msg = Keeps-non_nil _

  pub Keeps-deref : (r : ℕ) → Keeps P (deref r)
  unfolding deref
  Keeps-deref r = Keeps-gets _

pub ruleset keeps_rules = (
  Keeps-bind, Keeps-pure, Keeps-crash, Keeps-gets, Keeps-if, Keeps-option, Keeps-list, Keeps-sum,
  Keeps-for_each, Keeps-non_nil, Keeps-param, Keeps-prefix_of, Keeps-deref,
)
