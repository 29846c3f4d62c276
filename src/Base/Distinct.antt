-- ===== src/Base/Distinct.antt =====
-- Lists without repetitions, and the maps that they are the keys of.
use mathlib.Core.Path.{◌≡◌, refl}
use mathlib.Core.Bool.{true, false, ◌||◌}
use mathlib.Core.List.{List, [], ◌∷◌, ◌++◌}
use mathlib.Core.Option.{none}
use native.Mathlib.Omega.{arith}
use robustirc.Base.Tests.{==_refl, Eq, ◌==◌}
use robustirc.Base.Lists.{All, elem}
use robustirc.Base.Assoc.{Map, delete, insert, keys, lookup}

module _ {ℓ} {A : Type ℓ} ⦃e : Eq A⦄ where
  abbrev pub Distinct : List A → Type 0
  Distinct [] = Unit
  Distinct (x ∷ xs) = (elem x xs ≡ false) × Distinct xs

  -- None of the first list stands in the second one.
  abbrev pub Apart : List A → List A → Type 0
  Apart xs ys = All (λ x. elem x ys ≡ false) xs

  pub elem-append : (a : A) (xs ys : List A) → elem a (xs ++ ys) ≡ (elem a xs || elem a ys)
  unfolding elem
  elem-append a [] ys = refl
  elem-append a (x ∷ xs) ys = ground (arith, elem-append a xs ys)

  pub Apart-append :
      (x : A) (xs ys : List A) → elem x xs ≡ false → Apart xs ys → Apart xs (ys ++ x ∷ [])
  unfolding elem
  Apart-append x [] ys h apart = tt
  Apart-append x (y ∷ xs) ys h (new, apart) = (
    ground (arith, elem-append y ys (x ∷ []), e.beq_iff x y, e.beq_iff y x),
    Apart-append x xs ys (ground arith) apart,
  )

  pub Apart-nil : (xs : List A) → Apart xs []
  unfolding elem
  Apart-nil [] = tt
  Apart-nil (x ∷ xs) = (refl, Apart-nil xs)

module _ {ℓ κ} {K : Type ℓ} {V : Type κ} ⦃e : Eq K⦄ where
  pub insert-append :
      (k : K) (v : V) (m : Map K V) → elem k (keys m) ≡ false → insert k v m ≡ m ++ (k, v) ∷ []
  unfolding elem insert
  insert-append k v [] h = refl
  insert-append k v ((j, w) ∷ m) h = ground (arith, insert-append k v m)

  delete-elem : (k : K) (m : Map K V) → elem k (keys m) ≡ false → delete k m ≡ m
  unfolding elem delete
  delete-elem k [] h = refl
  delete-elem k ((j, w) ∷ m) h = ground (arith, delete-elem k m)

  elem-middle :
      (m : Map K V) (j k : K) (v : V) (n : Map K V)
      → elem j (keys (m ++ (k, v) ∷ n)) ≡ false
      → (j == k) ≡ false
  unfolding elem
  elem-middle [] j k v n h = ground (arith, e.beq_iff j k, e.beq_iff k j)
  elem-middle ((i, w) ∷ m) j k v n h = elem-middle m j k v n (ground arith)

  -- The entry with a key that stands once is taken out where it stands.
  pub delete-append :
      (m : Map K V) (k : K) (v : V) (n : Map K V)
      → Distinct (keys (m ++ (k, v) ∷ n))
      → delete k (m ++ (k, v) ∷ n) ≡ m ++ n
  unfolding elem delete
  delete-append [] k v n (once, distinct) = ground (arith, delete-elem k n once, e.beq_iff k k)
  delete-append ((j, w) ∷ m) k v n (once, distinct) =
      rw (elem-middle m j k v n once, delete-append m k v n distinct) refl

  pub lookup-elem : (k : K) (m : Map K V) → elem k (keys m) ≡ false → lookup k m ≡ none
  unfolding elem lookup
  lookup-elem k [] h = refl
  lookup-elem k ((j, w) ∷ m) h = ground (arith, lookup-elem k m)

module _ {ℓ κ} {K : Type ℓ} {V : Type κ} where
  pub keys-append : (m n : Map K V) → keys (m ++ n) ≡ keys m ++ keys n
  keys-append [] n = refl
  keys-append ((k, v) ∷ m) n = cc (keys-append m n)

module _ {ℓ κ} {K : Type ℓ} {V : Type κ} ⦃e : Eq K⦄ where
  pub elem-keys :
      (front : Map K V) (k : K) (v : V) (m : Map K V) → elem k (keys (front ++ (k, v) ∷ m)) ≡ true
  unfolding elem
  elem-keys front k v m =
      rw (keys-append front ((k, v) ∷ m), elem-append k (keys front) (k ∷ keys m), ==_refl k)
        (ground arith)
