-- ===== src/Balancer/Pick/Acquire/Safety.antt =====
-- What `AcquireVersioned` of internal/balancer/pool.go promises, whatever the strategy.
use mathlib.Core.List.{Memᴰ}
use jc_proxy.Prelude.{
  ℕ, ◌+◌, ◌<◌, ◌≡◌, refl, sym, ap, ◌∙◌, true, false, List, Option, none, some, length,
  get_elem?-some, get_elem?, modify, arith,
}
use jc_proxy.Prelude.Int.{Time, Duration, time_sub}
use jc_proxy.Prelude.Float.{FloatOps}
use jc_proxy.Balancer.KeyState.{KeyState}
use jc_proxy.Balancer.KeyState.Health.{
  Health, health, healths, healths-modify, get_elem?-healths, length-healths,
}
use jc_proxy.Balancer.Pool.{
  Pool, Strategy, round_robin, random, least_used, least_requests, lowest_latency, highest_success,
  adaptive, Excluded, is_available, candidates, has_available,
}
use jc_proxy.Balancer.Pool.Availability.{available-lt}
use jc_proxy.Balancer.Pick.Picks.{Picks}
use jc_proxy.Balancer.Pick.RoundRobin.Choice.{pick_round_robin-Picks}
use jc_proxy.Balancer.Pick.Random.Choice.{pick_random-Picks}
use jc_proxy.Balancer.Pick.Score.{used_score, requests_score}
use jc_proxy.Balancer.Pick.Score.Choice.{pick_by_score-Picks}
use jc_proxy.Balancer.Pick.Performance.{pick_performance}
use jc_proxy.Balancer.Pick.Performance.Choice.{pick_performance-Picks, pick_performance-healths}
use jc_proxy.Balancer.Pick.Acquire.{Attempt, advance, pick_as, begin, start, acquire}

-- One more attempt under way.
abbrev pub begin_health : {F : Type 0} → Health F → Health F
begin_health h = record h { inflight = h.inflight + 1 }

module _ {F : Type 0} (now : Time) (excluded : Excluded) (allowed : Option (List ℕ))
    (p : Pool F) where
  -- No candidate is available and nothing changed, or the attempt is on an available candidate,
  -- carries that key and its version, and is counted on that key alone.
  abbrev pub Acquired : Pool F × Option Attempt → Type 0
  Acquired (q, none) =
      (has_available now excluded allowed p ≡ false) × (healths q.keys ≡ healths p.keys)
  Acquired (q, some a) =
      Memᴰ a.idx (candidates p.keys allowed)
      × (is_available p.keys now excluded a.idx ≡ true)
      × ((h : Health F) × (get_elem? (healths p.keys) a.idx ≡ some h)
          × (a.key ≡ h.key)
          × (a.version ≡ h.version))
      × (healths q.keys ≡ modify (healths p.keys) a.idx begin_health)

  abbrev pub Picked : Pool F × Option ℕ → Type 0
  Picked (q, r) =
      (healths q.keys ≡ healths p.keys) × Picks p.keys now excluded (candidates p.keys allowed) r

  advance-Picked : (r : Pool F × Option ℕ) → Picked r → Picked (advance r)
  advance-Picked (q, none) h = h
  advance-Picked (q, some i) h = h

  found :
      (q : Pool F) (i : ℕ)
      → healths q.keys ≡ healths p.keys
      → is_available p.keys now excluded i ≡ true
      → (k : KeyState F) × (get_elem? q.keys i ≡ some k)
  found q i e a = get_elem?-some q.keys i (
      omega (
        arith,
        available-lt p.keys now excluded i a,
        length-healths p.keys,
        length-healths q.keys,
        ap length e,
      ))

  start-Acquired : (tick : Duration) (r : Pool F × Option ℕ) → Picked r → Acquired (start tick r)
  unfolding has_available
  start-Acquired tick (q, none) (e, h) = (h, e)
  start-Acquired tick (q, some i) (e, (a, m)) =
      let hit = found q i e a in
      rw hit.1 (
        m,
        a,
        (
          health hit.0,
          ap (λ xs. get_elem? xs i) (sym e) ∙ get_elem?-healths q.keys i hit.0 hit.1,
          refl,
          refl,
        ),
        healths-modify (begin tick) begin_health (λ k. refl) q.keys i
            ∙ ap (λ xs. modify xs i begin_health) e,
      )

module _ {F : Type 0} ⦃fl : FloatOps F⦄ (intn : ℕ → ℕ) (tick : Duration) (now : Time)
    (excluded : Excluded) (allowed : Option (List ℕ)) (below : (n : ℕ) → 0 < n → intn n < n) where
  performance-Picked :
      (p : Pool F) → Picked now excluded allowed p (pick_performance tick now excluded allowed p)
  performance-Picked p = (
    pick_performance-healths tick now excluded allowed p,
    pick_performance-Picks tick now excluded allowed p,
  )

  pick_as-Picked :
      (s : Strategy) (p : Pool F)
      → Picked now excluded allowed p (pick_as s intn tick now excluded allowed p)
  unfolding pick_as
  pick_as-Picked random p = (refl, pick_random-Picks intn now excluded allowed p below)
  pick_as-Picked least_used p =
      advance-Picked now excluded allowed p (p, _)
        (refl, pick_by_score-Picks (used_score p) now excluded allowed p)
  pick_as-Picked least_requests p =
      advance-Picked now excluded allowed p (p, _)
        (refl, pick_by_score-Picks (requests_score p) now excluded allowed p)
  pick_as-Picked round_robin p =
      advance-Picked now excluded allowed p (p, _)
        (refl, pick_round_robin-Picks now excluded allowed p)
  pick_as-Picked lowest_latency p =
      advance-Picked now excluded allowed p (pick_performance tick now excluded allowed p)
        (performance-Picked p)
  pick_as-Picked highest_success p =
      advance-Picked now excluded allowed p (pick_performance tick now excluded allowed p)
        (performance-Picked p)
  pick_as-Picked adaptive p =
      advance-Picked now excluded allowed p (pick_performance tick now excluded allowed p)
        (performance-Picked p)

-- Whatever the strategy, if `Intn` draws below its bound: either no candidate is available, and the
-- identity, health, statistics and attempts of every key stay; or the attempt is on an available
-- candidate, carries its key and version, and counts as one more attempt on that key alone.
pub acquire-Acquired :
    {F : Type 0} ⦃fl : FloatOps F⦄ (intn : ℕ → ℕ) (now epoch : Time) (excluded : Excluded)
    (allowed : Option (List ℕ)) (p : Pool F)
    → ((n : ℕ) → 0 < n → intn n < n)
    → Acquired now excluded allowed p (acquire intn now epoch excluded allowed p)
unfolding acquire
acquire-Acquired intn now epoch excluded allowed p below =
    start-Acquired now excluded allowed p (time_sub now epoch) _
      (pick_as-Picked intn (time_sub now epoch) now excluded allowed below p.strategy p)
