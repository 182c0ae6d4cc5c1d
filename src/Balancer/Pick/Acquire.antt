-- ===== src/Balancer/Pick/Acquire.antt =====
-- internal/balancer/pool.go: `AcquireVersioned`, which picks a key and starts an attempt.
pub mod Cursor
pub mod Retired
pub mod Safety
use Prim.Native.String.{String}
use jc_proxy.Prelude.{ℕ, ◌+◌, ◌%◌, List, Option, none, some, length, get_elem?, modify}
use jc_proxy.Prelude.Int.{ℤ, Time, Duration, time_sub}
use jc_proxy.Prelude.Float.{FloatOps}
use jc_proxy.Balancer.KeyState.{KeyState}
use jc_proxy.Balancer.Pool.{
  Pool, round_robin, random, least_used, least_requests, lowest_latency, highest_success, adaptive,
  Excluded, Strategy,
}
use jc_proxy.Balancer.Pick.RoundRobin.{pick_round_robin}
use jc_proxy.Balancer.Pick.Random.{pick_random}
use jc_proxy.Balancer.Pick.Score.{pick_by_score, used_score, requests_score}
use jc_proxy.Balancer.Pick.Performance.{pick_performance}

-- Every strategy but random moves the cursor behind its pick.
abbrev advance : {F : Type 0} → Pool F × Option ℕ → Pool F × Option ℕ
advance (p, none) = (p, none)
advance (p, some i) = (record p { rr_idx = (i + 1) % length p.keys }, some i)

module _ {F : Type 0} ⦃fl : FloatOps F⦄ where
  -- The switch of `AcquireVersioned`; round robin is its default.
  pick_as :
      Strategy → (ℕ → ℕ) → Duration → Time → Excluded → Option (List ℕ) → Pool F → Pool F × Option ℕ
  unfolding pick_round_robin pick_random pick_by_score used_score requests_score pick_performance
  pick_as random intn tick now excluded allowed p = (p, pick_random intn now excluded allowed p)
  pick_as least_used intn tick now excluded allowed p =
      advance (p, pick_by_score (used_score p) now excluded allowed p)
  pick_as least_requests intn tick now excluded allowed p =
      advance (p, pick_by_score (requests_score p) now excluded allowed p)
  pick_as lowest_latency intn tick now excluded allowed p =
      advance (pick_performance tick now excluded allowed p)
  pick_as highest_success intn tick now excluded allowed p =
      advance (pick_performance tick now excluded allowed p)
  pick_as adaptive intn tick now excluded allowed p =
      advance (pick_performance tick now excluded allowed p)
  pick_as round_robin intn tick now excluded allowed p =
      advance (p, pick_round_robin now excluded allowed p)

pub record Attempt : Type 0 where
  pub idx : ℕ
  pub key : String
  pub version : ℤ

module _ {F : Type 0} where
  abbrev begin : Duration → KeyState F → KeyState F
  begin tick k = record k { inflight = k.inflight + 1; last_attempt = tick }

  abbrev attempt_of : ℕ → Option (KeyState F) → Option Attempt
  attempt_of i none = none
  attempt_of i (some k) = some (record { idx = i; key = k.key; version = k.version })

  abbrev start : Duration → Pool F × Option ℕ → Pool F × Option Attempt
  start tick (p, none) = (p, none)
  start tick (p, some i) =
      (record p { keys = modify p.keys i (begin tick) }, attempt_of i (get_elem? p.keys i))

-- `AcquireVersioned`, at an instant and the scheduler's epoch; `none` is the result `ok = false`.
unfoldable pub acquire :
    {F : Type 0} ⦃fl : FloatOps F⦄
    → (ℕ → ℕ)
    → Time
    → Time
    → Excluded
    → Option (List ℕ)
    → Pool F
    → Pool F × Option Attempt
unfolding pick_as
acquire intn now epoch excluded allowed p =
    start (time_sub now epoch) (pick_as p.strategy intn (time_sub now epoch) now excluded allowed p)
