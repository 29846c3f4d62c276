-- ===== src/TimeSafeguard.antt =====
-- internal/timesafeguard/timesafeguard.go: the clocks of the other nodes.
pub mod Drift
use robustirc.Base.{
  Bool, List, Option, [], false, if◌then◌else◌, keep, leb, ltb, nat_beq, none, not, some, true, ℕ,
  ◌*◌, ◌+◌, ◌-◌, ◌∷◌,
}
use robustirc.Config.{second}

-- ElectionTimeout
abbrev pub election_timeout : ℕ
election_timeout = 2 * second

-- timeResult, in nanoseconds since the zero time
pub record TimeResult : Type 0 where
  pub start : ℕ
  pub end : ℕ
  pub result : ℕ

-- worstCaseDrift: the distance of the remote time from the start, and what the measurement took.
-- The difference of two times saturates in Go only beyond 292 years.
unfoldable pub worst_case_drift : TimeResult → ℕ
worst_case_drift t =
    let drift = if ltb t.result t.start then t.start - t.result else t.result - t.start in
    drift + (t.end - t.start)

-- timeInSync
unfoldable pub time_in_sync : List TimeResult → Bool
time_in_sync [] = true
time_in_sync (t ∷ ts) =
    let rest = time_in_sync ts in if leb election_timeout (worst_case_drift t) then false else rest

-- the measurements that are not ignored
unfoldable pub non_zero_results : List TimeResult → List TimeResult
non_zero_results = keep (λ t. not (nat_beq t.result 0))

-- the measurements that an error names
unfoldable pub conflicting : List TimeResult → List TimeResult
conflicting = keep (λ t. leb election_timeout (worst_case_drift t))

-- synchronizedWithNetwork, with the flag: the conflicting measurements of the error, or none
unfoldable pub synchronized_with_network : Bool → List TimeResult → Option (List TimeResult)
synchronized_with_network disable_timesafeguard results =
    let remote = non_zero_results results in
    if time_in_sync remote
    then none
    else if disable_timesafeguard
    then none
    else some (conflicting remote)
