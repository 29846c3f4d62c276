-- ===== src/Text/Digits.antt =====
-- The digits of strconv.FormatInt and of the verb %x: the fuel of Text is enough for them.
use robustirc.Base.{
  Bool-cases, [], arith, if◌then◌else◌, inl, inr, ltb, refl, suc, zero, ℕ, ◌%◌, ◌*◌, ◌++◌, ◌+◌, ◌-◌,
  ◌/◌, ◌<◌, ◌∙◌, ◌∷◌, ◌≡◌, ◌≤◌,
}
use robustirc.Text.{Text, decimal, digit, digits_in, hexadecimal}

-- The digit that a character stands for.
abbrev digit_value : ℕ → ℕ
digit_value c = if ltb c 58 then c - 48 else c - 87

-- The number that some digits stand for, after others that stand for a number.
unfoldable value_after : ℕ → ℕ → Text → ℕ
value_after base v [] = v
value_after base v (c ∷ s) = value_after base (v * base + digit_value c) s

value_after-append :
    (base v : ℕ) (s t : Text)
    → value_after base v (s ++ t) ≡ value_after base (value_after base v s) t
unfolding value_after
value_after-append base v [] t = refl
value_after-append base v (c ∷ s) t = value_after-append base (v * base + digit_value c) s t

digit_value-digit : (d : ℕ) → d < 16 → digit_value (digit d) ≡ d
unfolding digit
digit_value-digit d h = ground arith

-- A base, with what division by it does.
module _ (base : ℕ) (small : base ≤ 16) (positive : (n : ℕ) → n % base < base)
    (whole : (n : ℕ) → (n / base) * base + n % base ≡ n)
    (less : (n : ℕ) → base ≤ n → n / base < n) where
  value-digits_in : (fuel n : ℕ) → n < fuel → value_after base 0 (digits_in base fuel n) ≡ n
  unfolding digits_in value_after
  value-digits_in zero n h = absurd (omega arith)
  value-digits_in (suc fuel) n h = elim (Bool-cases (ltb n base)) [
    | inl e ↦
        let alone : (x : ℕ) → 0 * base + x ≡ x = λ x. omega arith in
        rw (e, alone) (digit_value-digit n (ground arith))
    | inr e ↦ rw e (
        value_after-append base 0 (digits_in base fuel (n / base)) (digit (n % base) ∷ [])
        ∙ rw
            (
              value-digits_in fuel (n / base) (ground (arith, less n)),
              digit_value-digit (n % base) (omega (arith, positive n)),
            )
            (whole n))
  ]

  digits_in-fuel :
      (fuel more n : ℕ) → n < fuel → n < more → digits_in base fuel n ≡ digits_in base more n
  unfolding digits_in
  digits_in-fuel zero more n h g = absurd (omega arith)
  digits_in-fuel (suc fuel) zero n h g = absurd (omega arith)
  digits_in-fuel (suc fuel) (suc more) n h g = elim (Bool-cases (ltb n base)) [
    | inl e ↦ rw e refl
    | inr e ↦
        rw
          (e, digits_in-fuel fuel more (n / base) (ground (arith, less n)) (ground (arith, less n)))
          refl
  ]

-- The digits of a number, in both bases, stand for that number.
value-decimal :
    (n : ℕ) → (value_after 10 0 (decimal n) ≡ n) × (value_after 16 0 (hexadecimal n) ≡ n)
unfolding decimal hexadecimal
value-decimal n = (
  value-digits_in 10 (omega arith) (λ m. omega arith) (λ m. omega arith) (λ m h. omega arith)
      (suc n) n (omega arith),
  value-digits_in 16 (omega arith) (λ m. omega arith) (λ m. omega arith) (λ m h. omega arith)
      (suc n) n (omega arith),
)

-- More fuel than decimal and hexadecimal take does not change the digits.
decimal-fuel :
    (n fuel : ℕ)
    → n < fuel
    → (digits_in 10 fuel n ≡ decimal n) × (digits_in 16 fuel n ≡ hexadecimal n)
unfolding decimal hexadecimal
decimal-fuel n fuel h = (
  digits_in-fuel 10 (omega arith) (λ m. omega arith) (λ m. omega arith) (λ m h. omega arith) fuel
      (suc n) n h (omega arith),
  digits_in-fuel 16 (omega arith) (λ m. omega arith) (λ m. omega arith) (λ m h. omega arith) fuel
      (suc n) n h (omega arith),
)
