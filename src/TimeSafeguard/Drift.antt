-- ===== src/TimeSafeguard/Drift.antt =====
-- internal/timesafeguard/timesafeguard.go: what an accepted measurement says about the clocks.
use robustirc.Base.{
  All, Bool, Bool-cases, List, [], arith, false, if◌then◌else◌, inl, inr, nat_beq, none, not, refl,
  true, ℕ, ◌+◌, ◌<◌, ◌↔◌, ◌∷◌, ◌≡◌, ◌≤◌, ◌⊎◌,
}
use robustirc.TimeSafeguard.{
  TimeResult, election_timeout, non_zero_results, synchronized_with_network, time_in_sync,
  worst_case_drift,
}
use native.Mathlib.Decide.{ℕ_discrete}

-- At every instant of the measurement, the local time and the remote time are less than
-- ElectionTimeout apart.
pub record IsClose (t : TimeResult) : Type 0 where
  pub close :
      (now : ℕ)
      → t.start ≤ now
      → now ≤ t.end
      → (now < t.result + election_timeout) × (t.result < now + election_timeout)

-- The measurement is ignored, or its worst case is below ElectionTimeout.
abbrev pub IsGood : TimeResult → Type 0
IsGood t = (t.result ≡ 0) ⊎ (worst_case_drift t < election_timeout)

below-IsClose : (t : TimeResult) → worst_case_drift t < election_timeout → IsClose t
unfolding worst_case_drift
below-IsClose t h = record {
  close = λ now low up. (ground (arith, h, low, up), ground (arith, h, low, up));
}

step-to :
    (t : TimeResult) (rest : List TimeResult)
    → time_in_sync (if not (nat_beq t.result 0) then t ∷ rest else rest) ≡ true
    → IsGood t × (time_in_sync rest ≡ true)
unfolding time_in_sync
step-to t rest h = elim (ℕ_discrete t.result 0) [
  | yes e ↦ (inl e, ground (arith, e))
  | no n ↦ (inr (ground (arith, n)), ground (arith, n))
]

step-from :
    (t : TimeResult) (rest : List TimeResult)
    → IsGood t
    → time_in_sync rest ≡ true
    → time_in_sync (if not (nat_beq t.result 0) then t ∷ rest else rest) ≡ true
unfolding time_in_sync
step-from t rest (inl e) h = ground (arith, e, h)
step-from t rest (inr p) h = ground (arith, p, h)

in_sync-IsGood :
    (ts : List TimeResult) → (time_in_sync (non_zero_results ts) ≡ true) ↔ All IsGood ts
unfolding time_in_sync non_zero_results
in_sync-IsGood [] = (λ h. tt, λ h. refl)
in_sync-IsGood (t ∷ ts) =
    let ih = in_sync-IsGood ts in
    let rest = non_zero_results ts in
    (λ h. let q = step-to t rest h in (q.0, ih.0 q.1), λ h. step-from t rest h.0 (ih.1 h.1))

refused-unless :
    (flag : Bool) (ts : List TimeResult)
    → synchronized_with_network flag ts ≡ none
    → (flag ≡ true) ⊎ (time_in_sync (non_zero_results ts) ≡ true)
unfolding synchronized_with_network
refused-unless flag ts h = elim (Bool-cases (time_in_sync (non_zero_results ts))) [
  | inl e ↦ inr e
  | inr e ↦ inl (ground (arith, e, h))
]

accepted-if :
    (flag : Bool) (ts : List TimeResult)
    → (flag ≡ true) ⊎ (time_in_sync (non_zero_results ts) ≡ true)
    → synchronized_with_network flag ts ≡ none
unfolding synchronized_with_network
accepted-if flag ts (inl e) = ground (arith, e)
accepted-if flag ts (inr e) = ground (arith, e)

-- The node may join the network exactly if the check is switched off or every measurement with a
-- remote time has a worst case drift below ElectionTimeout.
pub synchronized-IsGood :
    (flag : Bool) (ts : List TimeResult)
    → (synchronized_with_network flag ts ≡ none) ↔ ((flag ≡ true) ⊎ All IsGood ts)
synchronized-IsGood flag ts = (
  λ h. elim (refused-unless flag ts h) [ inl e ↦ inl e | inr e ↦ inr ((in_sync-IsGood ts).0 e) ],
  λ h. accepted-if flag ts (elim h [ inl e ↦ inl e | inr g ↦ inr ((in_sync-IsGood ts).1 g) ]),
)

All-IsClose : (ts : List TimeResult) → All IsGood ts → All (λ t. (t.result ≡ 0) ⊎ IsClose t) ts
All-IsClose [] h = tt
All-IsClose (t ∷ ts) (inl e, h) = (inl e, All-IsClose ts h)
All-IsClose (t ∷ ts) (inr p, h) = (inr (below-IsClose t p), All-IsClose ts h)

-- Where the check is switched on and lets a node join, then for every node that gave a time, the
-- two clocks were less than ElectionTimeout apart at every instant of the measurement, in either
-- direction.
pub synchronized-IsClose :
    (ts : List TimeResult)
    → synchronized_with_network false ts ≡ none
    → All (λ t. (t.result ≡ 0) ⊎ IsClose t) ts
synchronized-IsClose ts h = elim ((synchronized-IsGood false ts).0 h) [
  | inl e ↦ absurd (cc)
  | inr g ↦ All-IsClose ts g
]
