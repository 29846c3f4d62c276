-- ===== src/RaftStore/Order.antt =====
-- internal/raftstore/leveldb.go: the keys of logs are ordered as their indexes are.
use robustirc.Base.{
  [], ap, arith, false, length, length-append, ltb, not, refl, suc, sym, take, zero, ℕ, ◌%◌, ◌&&◌,
  ◌*◌, ◌++◌, ◌+◌, ◌/◌, ◌<◌, ◌^◌, ◌∙◌, ◌∷◌, ◌≡◌, ◌≤◌, ◌||◌,
}
use robustirc.RaftStore.{big_endian, from_big_endian, from_digits, key_ltb, log_key, stable_prefix}
use robustirc.Text.{Text, text}

pub length-big_endian : (n v : ℕ) → length (big_endian n v) ≡ n
unfolding big_endian
length-big_endian zero v = refl
length-big_endian (suc n) v =
    omega
      (arith, length-append (big_endian n (v / 256)) (v % 256 ∷ []), length-big_endian n (v / 256))

from_digits-append :
    (acc b : ℕ) (bs : Text) → from_digits acc (bs ++ b ∷ []) ≡ from_digits acc bs * 256 + b
unfolding from_digits
from_digits-append acc b [] = refl
from_digits-append acc b (c ∷ bs) = from_digits-append (acc * 256 + c) b bs

from_digits-big_endian : (n v : ℕ) → v < 256 ^ n → from_digits 0 (big_endian n v) ≡ v
unfolding big_endian
from_digits-big_endian zero v h = unfold from_digits in omega arith
from_digits-big_endian (suc n) v h =
    rw
      (
        from_digits-append 0 (v % 256) (big_endian n (v / 256)),
        from_digits-big_endian n (v / 256) (grind arith),
      )
      (omega arith)

take-all : (n : ℕ) (xs : Text) → length xs ≡ n → take n xs ≡ xs
take-all zero [] h = refl
take-all zero (x ∷ xs) h = absurd (omega arith)
take-all (suc n) [] h = refl
take-all (suc n) (x ∷ xs) h = ap (λ ys. x ∷ ys) (take-all n xs (omega arith))

-- A key of a log gives its index back.
pub from_big_endian-log_key : (i : ℕ) → i < 2 ^ 64 → from_big_endian (log_key i) ≡ i
unfolding from_big_endian
from_big_endian-log_key i h =
    ap (from_digits 0) (take-all 8 (log_key i) (length-big_endian 8 i))
    ∙ from_digits-big_endian 8 i h

-- Keys of one length, by their last bytes.
key_ltb-snoc :
    (xs ys : Text) (a b : ℕ)
    → length xs ≡ length ys
    → key_ltb (xs ++ a ∷ []) (ys ++ b ∷ []) ≡ (key_ltb xs ys || (not (key_ltb ys xs) && ltb a b))
unfolding key_ltb
key_ltb-snoc [] [] a b h = ground arith
key_ltb-snoc [] (y ∷ ys) a b h = absurd (omega arith)
key_ltb-snoc (x ∷ xs) [] a b h = absurd (omega arith)
key_ltb-snoc (x ∷ xs) (y ∷ ys) a b h = ground (arith, key_ltb-snoc xs ys a b (omega arith))

key_ltb-big_endian :
    (n i j : ℕ) → i < 256 ^ n → j < 256 ^ n → key_ltb (big_endian n i) (big_endian n j) ≡ ltb i j
unfolding big_endian
key_ltb-big_endian zero i j hi hj = unfold key_ltb in ground arith
key_ltb-big_endian (suc n) i j hi hj =
    rw
      (
        key_ltb-snoc (big_endian n (i / 256)) (big_endian n (j / 256)) (i % 256) (j % 256)
            (length-big_endian n (i / 256) ∙ sym (length-big_endian n (j / 256))),
        key_ltb-big_endian n (i / 256) (j / 256) (grind arith) (grind arith),
        key_ltb-big_endian n (j / 256) (i / 256) (grind arith) (grind arith),
      )
      (ground arith)

-- The order of the keys of logs is that of the indexes.
pub key_ltb-log_key :
    (i j : ℕ) → i < 2 ^ 64 → j < 2 ^ 64 → key_ltb (log_key i) (log_key j) ≡ ltb i j
key_ltb-log_key i j hi hj = key_ltb-big_endian 8 i j hi hj

key_ltb-append : (xs ys zs : Text) → length xs ≡ length ys → key_ltb (xs ++ zs) ys ≡ key_ltb xs ys
unfolding key_ltb
key_ltb-append [] [] [] h = refl
key_ltb-append [] [] (z ∷ zs) h = refl
key_ltb-append [] (y ∷ ys) zs h = absurd (omega arith)
key_ltb-append (x ∷ xs) [] zs h = absurd (omega arith)
key_ltb-append (x ∷ xs) (y ∷ ys) zs h = ground (arith, key_ltb-append xs ys zs (omega arith))

-- The number whose eight bytes are the first of the prefix "stablestore-".
abbrev pub stable_bound : ℕ
stable_bound = 8319381487013426036

stable-log_key :
    (rest : Text) → stable_prefix ++ rest ≡ log_key stable_bound ++ (text "ore-" ++ rest)
unfolding text big_endian
stable-log_key rest = refl

-- No setting stands before the key of a log, as long as its index is below that number.
pub key_ltb-stable :
    (rest : Text) (i : ℕ) → i ≤ stable_bound → key_ltb (stable_prefix ++ rest) (log_key i) ≡ false
key_ltb-stable rest i h =
    ap (λ (key : Text). key_ltb key (log_key i)) (stable-log_key rest)
    ∙ key_ltb-append (log_key stable_bound) (log_key i) (text "ore-" ++ rest)
        (length-big_endian 8 stable_bound ∙ sym (length-big_endian 8 i))
    ∙ key_ltb-log_key stable_bound i (omega arith) (omega arith)
    ∙ ground arith
