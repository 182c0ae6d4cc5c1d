-- ===== src/Balancer/Pick/Acquire/Cursor.antt =====
-- The cursor of a pool of internal/balancer stays within its keys.
use native.Mathlib.Nat.{mod-lt}
use jc_proxy.Prelude.{
  ℕ, ◌+◌, ◌%◌, ◌<◌, ◌≤◌, ◌≡◌, refl, sym, ap, ◌∙◌, List, Option, none, some, length, length-modify,
  arith,
}
use jc_proxy.Prelude.Int.{Time, Duration, time_sub}
use jc_proxy.Prelude.Float.{FloatOps}
use jc_proxy.Balancer.KeyState.Health.{healths, length-healths}
use jc_proxy.Balancer.Pool.{
  Pool, Strategy, round_robin, random, least_used, least_requests, lowest_latency, highest_success,
  adaptive, Excluded,
}
use jc_proxy.Balancer.Pool.Availability.{available-lt}
use jc_proxy.Balancer.Pick.RoundRobin.{pick_round_robin}
use jc_proxy.Balancer.Pick.RoundRobin.Choice.{pick_round_robin-Picks}
use jc_proxy.Balancer.Pick.Score.{used_score, requests_score, pick_by_score}
use jc_proxy.Balancer.Pick.Score.Choice.{pick_by_score-Picks}
use jc_proxy.Balancer.Pick.Performance.{pick_performance}
use jc_proxy.Balancer.Pick.Performance.Choice.{
  pick_performance-Picks, pick_performance-healths, pick_performance-rr_idx,
}
use jc_proxy.Balancer.Pick.Acquire.{advance, pick_as, begin, start, acquire}
use jc_proxy.Balancer.Pick.Acquire.Safety.{Picked}

module _ {F : Type 0} where
  abbrev pub CursorIn : Pool F → Type 0
  CursorIn p = p.rr_idx ≤ length p.keys

  module _ (now : Time) (excluded : Excluded) (allowed : Option (List ℕ)) (p : Pool F) where
    same_length : (q : Pool F) → healths q.keys ≡ healths p.keys → length q.keys ≡ length p.keys
    same_length q e = sym (length-healths q.keys) ∙ ap length e ∙ length-healths p.keys

    advance-CursorIn :
        (r : Pool F × Option ℕ)
        → Picked now excluded allowed p r
        → r.0.rr_idx ≡ p.rr_idx
        → CursorIn p
        → CursorIn (advance r).0
    advance-CursorIn (q, none) (e, h) c v = omega (arith, same_length q e)
    advance-CursorIn (q, some i) (e, (a, m)) c v =
        let low : i < length p.keys = available-lt p.keys now excluded i a in
        let some_key : 0 < length q.keys = omega (arith, same_length q e) in
        let next : (i + 1) % length q.keys < length q.keys = mod-lt (i + 1) some_key in omega arith

    start-CursorIn :
        (tick : Duration) (r : Pool F × Option ℕ) → CursorIn r.0 → CursorIn (start tick r).0
    start-CursorIn tick (q, none) v = v
    start-CursorIn tick (q, some i) v = omega (arith, length-modify q.keys i (begin tick))

module _ {F : Type 0} ⦃fl : FloatOps F⦄ (intn : ℕ → ℕ) (tick : Duration) (now : Time)
    (excluded : Excluded) (allowed : Option (List ℕ)) (p : Pool F) (v : CursorIn p) where
  performance-CursorIn : CursorIn (advance (pick_performance tick now excluded allowed p)).0
  performance-CursorIn =
      advance-CursorIn now excluded allowed p (pick_performance tick now excluded allowed p)
        (
          pick_performance-healths tick now excluded allowed p,
          pick_performance-Picks tick now excluded allowed p,
        )
        (pick_performance-rr_idx tick now excluded allowed p) v

  pick_as-CursorIn : (s : Strategy) → CursorIn (pick_as s intn tick now excluded allowed p).0
  unfolding pick_as
  pick_as-CursorIn random = v
  pick_as-CursorIn least_used =
      advance-CursorIn now excluded allowed p
        (p, pick_by_score (used_score p) now excluded allowed p)
        (refl, pick_by_score-Picks (used_score p) now excluded allowed p) refl v
  pick_as-CursorIn least_requests =
      advance-CursorIn now excluded allowed p
        (p, pick_by_score (requests_score p) now excluded allowed p)
        (refl, pick_by_score-Picks (requests_score p) now excluded allowed p) refl v
  pick_as-CursorIn round_robin =
      advance-CursorIn now excluded allowed p (p, pick_round_robin now excluded allowed p)
        (refl, pick_round_robin-Picks now excluded allowed p) refl v
  pick_as-CursorIn lowest_latency = performance-CursorIn
  pick_as-CursorIn highest_success = performance-CursorIn
  pick_as-CursorIn adaptive = performance-CursorIn

-- Acquiring keeps the cursor of round robin at most the number of keys, whatever the strategy.
pub acquire-CursorIn :
    {F : Type 0} ⦃fl : FloatOps F⦄ (intn : ℕ → ℕ) (now epoch : Time) (excluded : Excluded)
    (allowed : Option (List ℕ)) (p : Pool F)
    → CursorIn p
    → CursorIn (acquire intn now epoch excluded allowed p).0
unfolding acquire
acquire-CursorIn intn now epoch excluded allowed p v =
    start-CursorIn now excluded allowed p (time_sub now epoch)
      (pick_as p.strategy intn (time_sub now epoch) now excluded allowed p)
      (pick_as-CursorIn intn (time_sub now epoch) now excluded allowed p v p.strategy)
