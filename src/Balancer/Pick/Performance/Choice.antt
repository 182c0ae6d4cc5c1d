-- ===== src/Balancer/Pick/Performance/Choice.antt =====
-- What `pickPerformanceLocked` chooses.
use mathlib.Core.List.{Memᴰ}
use jc_proxy.Prelude.{
  ℕ, ◌+◌, ◌≡◌, refl, ◌∙◌, Bool, true, false, ◌&&◌, ◌||◌, List, Option, none, some, inl, inr, arith,
  get_elem?, modify, Bool-cases, Option-cases, ltb, leb, if◌then◌else◌,
}
use jc_proxy.Prelude.Int.{Time, Duration}
use jc_proxy.Prelude.Float.{FloatOps}
use jc_proxy.Balancer.KeyState.{KeyState, is_ready, sync_stats_generation}
use jc_proxy.Balancer.KeyState.Health.{healths, health-sync, healths-modify_same}
use jc_proxy.Balancer.Pool.{Pool, Excluded, is_available, candidates}
use jc_proxy.Balancer.Pool.Availability.{available-modify}
use jc_proxy.Balancer.Pick.Distance.{Best, best_index}
use jc_proxy.Balancer.Pick.Picks.{Picks, Held, Moves, scan-Picks}
use jc_proxy.Balancer.Pick.Performance.{
  Scan, cheaper, older, last_attempt_at, probe_with, consider_key, consider_found, performance_scan,
  conclude, pick_performance, is_due,
}

sync-is_ready :
    {F : Type 0} (now : Time) (g : ℕ) (tick : Duration) (k : KeyState F)
    → is_ready now (sync_stats_generation g tick k) ≡ is_ready now k
unfolding is_ready sync_stats_generation
sync-is_ready now g tick k = ground arith

module _ {F : Type 0} ⦃fl : FloatOps F⦄ (p : Pool F) (now : Time) (excluded : Excluded)
    (tick : Duration) (credit : ℕ) (is : List ℕ) where
  -- The keys of a scan are as available as the pool's, and its probe is one of them.
  record Good (s : Scan F) : Type 0 where
    same : (j : ℕ) → is_available s.keys now excluded j ≡ is_available p.keys now excluded j
    held : Held p.keys now excluded is s.probe
    healthy : healths s.keys ≡ healths p.keys

  found :
      (i : ℕ) (s : Scan F)
      → is_available s.keys now excluded i ≡ true
      → (k : KeyState F) × (get_elem? s.keys i ≡ some k)
  unfolding is_available
  found i s a = elim (Option-cases (get_elem? s.keys i)) [
    | inl e ↦ absurd (ground arith)
    | inr hit ↦ hit
  ]

  cheaper-Moves :
      (i gap : ℕ) (cost : F) (s : Option (Best F))
      → Moves p.keys now excluded i (best_index s) (best_index (cheaper i cost gap s))
  unfolding cheaper
  cheaper-Moves i gap cost none = inl refl
  cheaper-Moves i gap cost (some b) =
      elim (Bool-cases (fl.less cost b.score || (fl.equal cost b.score && ltb gap b.gap))) [
        | inl e ↦ rw e (inl refl)
        | inr e ↦ rw e (inr (b.index, refl, refl))
      ]

  probe-Held :
      (i : ℕ) (k : KeyState F) (keys : List (KeyState F)) (b : Bool) (r : Option ℕ)
      → (is_available p.keys now excluded i ≡ true) × Memᴰ i is
      → Held p.keys now excluded is r
      → Held p.keys now excluded is (if b then probe_with keys i k r else r)
  unfolding probe_with
  probe-Held i k keys false r new old = old
  probe-Held i k keys true none new old = new
  probe-Held i k keys true (some j) new old =
      elim (Bool-cases (older k.last_attempt (last_attempt_at keys j))) [
        | inl e ↦ rw e new
        | inr e ↦ rw e old
      ]

  keep_key :
      (i : ℕ) (k : KeyState F) (s : Scan F)
      → Memᴰ i is
      → is_available p.keys now excluded i ≡ true
      → Good s
      → Good (consider_key p tick credit i k s)
  unfolding consider_key
  keep_key i k s m a g = record {
    same = λ j.
        available-modify now (λ x. sync_stats_generation x.stats.generation tick x)
          (λ x. sync-is_ready now x.stats.generation tick x) s.keys i j excluded
        ∙ g.same j;
    held =
        probe-Held i (sync_stats_generation k.stats.generation tick k)
          (modify s.keys i (λ x. sync_stats_generation x.stats.generation tick x))
          (leb 10 credit && is_due tick (sync_stats_generation k.stats.generation tick k)) s.probe
          (a, m) g.held;
    healthy =
        healths-modify_same (λ x. sync_stats_generation x.stats.generation tick x)
          (λ x. health-sync x.stats.generation tick x) s.keys i
        ∙ g.healthy;
  }

  keep :
      (i : ℕ) (s : Scan F)
      → Memᴰ i is
      → is_available p.keys now excluded i ≡ true
      → Good s
      → Good (consider_found p tick credit i s (get_elem? s.keys i))
  unfolding consider_found
  keep i s m a g = let hit = found i s (g.same i ∙ a) in rw hit.1 (keep_key i hit.0 s m a g)

  Moves-key :
      (i : ℕ) (k : KeyState F) (s : Scan F)
      → Moves p.keys now excluded i
          (best_index s.best)
          (best_index (consider_key p tick credit i k s).best)
  unfolding consider_key
  Moves-key i k s = cheaper-Moves i _ _ s.best

  moves :
      (i : ℕ) (s : Scan F)
      → is_available p.keys now excluded i ≡ true
      → Good s
      → Moves p.keys now excluded i
          (best_index s.best)
          (best_index (consider_found p tick credit i s (get_elem? s.keys i)).best)
  unfolding consider_found
  moves i s a g = let hit = found i s (g.same i ∙ a) in rw hit.1 (Moves-key i hit.0 s)

  scanned :
      let s = performance_scan p now excluded tick credit is in
      Good s × Picks p.keys now excluded is (best_index s.best)
  unfolding performance_scan
  scanned =
      scan-Picks p.keys now excluded is (λ s. is_available s.keys now excluded)
        (λ i s. consider_found p tick credit i s (get_elem? s.keys i)) Good (λ s i g. g.same i) keep
        (λ s. best_index s.best) moves _ (record { same = λ j. refl; held = tt; healthy = refl })
        refl

  concluded :
      (s : Scan F) (best probe : Option ℕ)
      → Held p.keys now excluded is probe
      → Picks p.keys now excluded is best
      → Picks p.keys now excluded is (conclude p credit s best probe).1
  concluded s none probe h b = b
  concluded s (some j) none h b = b
  concluded s (some j) (some i) h b = h

  concluded_health :
      (s : Scan F) (best probe : Option ℕ)
      → Good s
      → healths (conclude p credit s best probe).0.keys ≡ healths p.keys
  concluded_health s none probe g = g.healthy
  concluded_health s (some j) none g = g.healthy
  concluded_health s (some j) (some i) g = g.healthy

pub pick_performance-healths :
    {F : Type 0} ⦃fl : FloatOps F⦄ (tick : Duration) (now : Time) (excluded : Excluded)
    (allowed : Option (List ℕ)) (p : Pool F)
    → healths (pick_performance tick now excluded allowed p).0.keys ≡ healths p.keys
unfolding pick_performance
pick_performance-healths tick now excluded allowed p =
    let credit = if ltb p.credit 10 then p.credit + 1 else p.credit in
    let is = candidates p.keys allowed in
    let s = scanned p now excluded tick credit is in
    concluded_health p now excluded tick credit is (performance_scan p now excluded tick credit is)
      _ _ s.0

pub pick_performance-Picks :
    {F : Type 0} ⦃fl : FloatOps F⦄ (tick : Duration) (now : Time) (excluded : Excluded)
    (allowed : Option (List ℕ)) (p : Pool F)
    → Picks p.keys now excluded
        (candidates p.keys allowed)
        (pick_performance tick now excluded allowed p).1
unfolding pick_performance
pick_performance-Picks tick now excluded allowed p =
    let credit = if ltb p.credit 10 then p.credit + 1 else p.credit in
    let is = candidates p.keys allowed in
    let s = scanned p now excluded tick credit is in
    concluded p now excluded tick credit is (performance_scan p now excluded tick credit is) _ _
      s.0.held s.1

conclude-rr_idx :
    {F : Type 0} ⦃fl : FloatOps F⦄ (p : Pool F) (credit : ℕ) (s : Scan F) (best probe : Option ℕ)
    → (conclude p credit s best probe).0.rr_idx ≡ p.rr_idx
conclude-rr_idx p credit s none probe = refl
conclude-rr_idx p credit s (some b) none = refl
conclude-rr_idx p credit s (some b) (some i) = refl

pub pick_performance-rr_idx :
    {F : Type 0} ⦃fl : FloatOps F⦄ (tick : Duration) (now : Time) (excluded : Excluded)
    (allowed : Option (List ℕ)) (p : Pool F)
    → (pick_performance tick now excluded allowed p).0.rr_idx ≡ p.rr_idx
unfolding pick_performance
pick_performance-rr_idx tick now excluded allowed p =
    let credit = if ltb p.credit 10 then p.credit + 1 else p.credit in
    conclude-rr_idx p credit
      (performance_scan p now excluded tick credit (candidates p.keys allowed)) _ _
