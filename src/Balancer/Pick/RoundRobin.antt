-- ===== src/Balancer/Pick/RoundRobin.antt =====
-- internal/balancer/pool.go: `pickRoundRobinLocked`.
pub mod Choice
pub mod Turn
use jc_proxy.Prelude.{ℕ, zero, suc, ◌+◌, ◌%◌, List, Option, none, some, ltb, if◌then◌else◌, length}
use jc_proxy.Prelude.Int.{Time}
use jc_proxy.Balancer.KeyState.{KeyState}
use jc_proxy.Balancer.Pool.{Pool, Excluded, is_available}
use jc_proxy.Balancer.Pick.Distance.{distance, scan}

-- The body of the loop over `allowed`, of a candidate that is available; without a best so far any distance is smaller.
nearer : ℕ → ℕ → ℕ → Option (ℕ × ℕ) → Option (ℕ × ℕ)
nearer n rr candidate none = some (candidate, distance n rr candidate)
nearer n rr candidate (some (best, gap)) =
    if ltb (distance n rr candidate) gap
    then some (candidate, distance n rr candidate)
    else some (best, gap)

abbrev first_of_pair : Option (ℕ × ℕ) → Option ℕ
first_of_pair none = none
first_of_pair (some (i, _)) = some i

module _ {F : Type 0} where
  -- The loop of `pickRoundRobinLocked` over all keys, `rounds` of it left.
  rr_scan : List (KeyState F) → Time → Excluded → ℕ → ℕ → ℕ → Option ℕ
  unfolding is_available
  rr_scan keys now excluded rr zero try = none
  rr_scan keys now excluded rr (suc rounds) try =
      let candidate = (rr + try) % length keys in
      let rest = rr_scan keys now excluded rr rounds (try + 1) in
      if is_available keys now excluded candidate then some candidate else rest

  -- The loop over `allowed`.
  rr_nearest : List (KeyState F) → Time → Excluded → ℕ → List ℕ → Option (ℕ × ℕ)
  unfolding is_available nearer scan
  rr_nearest keys now excluded rr allowed =
      scan (λ _. is_available keys now excluded) (nearer (length keys) rr) allowed none

  unfoldable pub pick_round_robin : Time → Excluded → Option (List ℕ) → Pool F → Option ℕ
  unfolding rr_scan rr_nearest
  pick_round_robin now excluded none p = rr_scan p.keys now excluded p.rr_idx (length p.keys) 0
  pick_round_robin now excluded (some allowed) p =
      first_of_pair (rr_nearest p.keys now excluded p.rr_idx allowed)
