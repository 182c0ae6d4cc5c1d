-- ===== src/Gateway/StatsPersister/Ledger.antt =====
-- internal/gateway/stats_persister.go: what the batches of a flush say of one counter of a key, against
-- the counters of the running gateway.
use Prim.Native.String.{String}
use jc_proxy.Prelude.{
  Bool, ◌||◌, if◌then◌else◌, ℕ, ◌+◌, ◌≡◌, refl, sym, ap, ◌∙◌, Bool-cases, true, inl, inr, arith,
  List, [], ◌∷◌, Option, none, some, ◌-◌, ltb,
}
use jc_proxy.Prelude.Float.{FloatOps}
use jc_proxy.Prelude.Result.{Result, ok, err}
use jc_proxy.Prelude.Table.{Table, lookup}
use jc_proxy.Prelude.Table.Unique.{Unique}
use jc_proxy.Keystore.RuntimeStats.{delta_since, RuntimeStats, difference, is_zero, shrinks}
use jc_proxy.Keystore.RuntimeStats.Deltas.{Dominates, Dominates-shrinks, delta_since-eq}
use jc_proxy.Keystore.FileStore.{StoreError, is_nil}
use jc_proxy.Keystore.FileStore.Statistics.{RuntimeStatsDelta}
use jc_proxy.Gateway.StatsPersister.{
  KeyStats, Baseline, StatsStore, RuntimeStatsPersister, PersisterError, delta_of, since,
  unless_zero, vendor_deltas, merge_vendors, build_runtime_stats_deltas, capture_runtime_stats,
  flush_locked, after_apply,
}
use jc_proxy.Gateway.StatsPersister.Deltas.{
  AllUnique, stats_at, delta_at, delta_for, vendor_deltas-delta_at,
}
use jc_proxy.Gateway.StatsPersister.Baseline.{
  or_else, merge_vendors-stats_at, Sound, capture_runtime_stats-Sound,
}

-- The lifetime counters.
pub data Counter : Type 0 where
  total success unauthorized forbidden rate_limit other_error : Counter

module _ {F : Type 0} where
  abbrev pub count : Counter → RuntimeStats F → ℕ
  count total s = s.total_requests
  count success s = s.success_count
  count unauthorized s = s.unauthorized_count
  count forbidden s = s.forbidden_count
  count rate_limit s = s.rate_limit_count
  count other_error s = s.other_error_count

  abbrev pub counted : Counter → Option (RuntimeStats F) → ℕ
  counted c none = 0
  counted c (some s) = count c s

  -- Some counter is less than it was.
  fell : RuntimeStats F → RuntimeStats F → Bool
  fell s prev =
      ltb s.total_requests prev.total_requests
      || ltb s.success_count prev.success_count
      || ltb s.unauthorized_count prev.unauthorized_count
      || ltb s.forbidden_count prev.forbidden_count
      || ltb s.rate_limit_count prev.rate_limit_count
      || ltb s.other_error_count prev.other_error_count

  -- What is to be sent of a counter: its growth since the baseline, or all of it where there is no
  -- baseline or some counter started anew.
  unfoldable pub to_send : Counter → Option (RuntimeStats F) → Option (RuntimeStats F) → ℕ
  unfolding fell
  to_send c none prev = 0
  to_send c (some s) none = count c s
  to_send c (some s) (some prev) = if fell s prev then count c s else count c s - count c prev

  -- No counter of the key fell since the baseline.
  abbrev pub Grows : Option (RuntimeStats F) → Option (RuntimeStats F) → Type 0
  Grows (some s) (some prev) = Dominates s prev
  Grows _ _ = Unit

  unless_zero-counted : (c : Counter) (s : RuntimeStats F) → counted c (unless_zero s) ≡ count c s
  unfolding unless_zero is_zero
  unless_zero-counted total s = ground arith
  unless_zero-counted success s = ground arith
  unless_zero-counted unauthorized s = ground arith
  unless_zero-counted forbidden s = ground arith
  unless_zero-counted rate_limit s = ground arith
  unless_zero-counted other_error s = ground arith

module _ {F : Type 0} ⦃fl : FloatOps F⦄ where
  difference-count :
      (c : Counter) (s prev : RuntimeStats F)
      → Dominates s prev
      → count c (difference s prev) + count c prev ≡ count c s
  unfolding difference
  difference-count total s prev d = ground arith
  difference-count success s prev d = ground arith
  difference-count unauthorized s prev d = ground arith
  difference-count forbidden s prev d = ground arith
  difference-count rate_limit s prev d = ground arith
  difference-count other_error s prev d = ground arith

  delta_for-counted :
      (c : Counter) (current prev : Option (RuntimeStats F))
      → Grows current prev
      → counted c (delta_for current prev) + counted c prev ≡ counted c (or_else current prev)
  unfolding delta_of since
  delta_for-counted c none none g = omega arith
  delta_for-counted c none (some p) g = omega arith
  delta_for-counted c (some s) none g = omega (arith, unless_zero-counted c s)
  delta_for-counted c (some s) (some p) g =
      rw (delta_since-eq s p (Dominates-shrinks s p g))
        (omega (arith, unless_zero-counted c (difference s p), difference-count c s p g))

  difference-less :
      (c : Counter) (s prev : RuntimeStats F)
      → count c (difference s prev) ≡ count c s - count c prev
  unfolding difference
  difference-less total s prev = refl
  difference-less success s prev = refl
  difference-less unauthorized s prev = refl
  difference-less forbidden s prev = refl
  difference-less rate_limit s prev = refl
  difference-less other_error s prev = refl

  delta_for-to_send :
      (c : Counter) (current prev : Option (RuntimeStats F))
      → counted c (delta_for current prev) ≡ to_send c current prev
  unfolding delta_of since delta_since to_send
  delta_for-to_send c none prev = refl
  delta_for-to_send c (some s) none = unless_zero-counted c s
  delta_for-to_send c (some s) (some prev) = elim (Bool-cases (shrinks s prev)) [
    | inl e ↦ rw e (unless_zero-counted c s)
    | inr e ↦ rw e (unless_zero-counted c (difference s prev) ∙ difference-less c s prev)
  ]

  -- A flush sends of each counter of a key its growth since the baseline. Where the baseline has no
  -- counters of the key, or one of them fell since, it sends the whole counter, and for a key that
  -- the snapshot does not have it sends nothing. No vendor and no key stands twice in the snapshot.
  pub vendor_deltas-counted :
      (c : Counter) (current previous : Baseline F) (v k : String)
      → Unique current
      → AllUnique current
      → counted c (delta_at (vendor_deltas current previous) v k)
        ≡ to_send c (stats_at current v k) (stats_at previous v k)
  vendor_deltas-counted c current previous v k u us =
      ap (counted c) (vendor_deltas-delta_at current previous v k u us)
      ∙ delta_for-to_send c (stats_at current v k) (stats_at previous v k)

module _ {S F : Type 0} ⦃fl : FloatOps F⦄ (store : StatsStore S F) (c : Counter)
    (v k : String) where
  -- What a batch says of the counter, if the store accepts the batch.
  abbrev taken : Table (List (RuntimeStatsDelta F)) → S × Result StoreError (Unit {0}) → ℕ
  taken ds (s, ok a) = counted c (delta_at ds v k)
  taken ds (s, err e) = 0

  -- What the batch of a flush says of the counter, if there is one and the store accepts it.
  unfoldable pub accepted : Table (List (KeyStats F)) → RuntimeStatsPersister F → S → ℕ
  accepted snapshot p s =
      let ds = vendor_deltas (capture_runtime_stats snapshot) p.last in
      if is_nil ds then 0 else taken ds (store.apply_deltas ds s)

  -- What is accepted and the baseline keep step.
  abbrev pub KeepsStep :
      ℕ
      → RuntimeStatsPersister F
      → S × (RuntimeStatsPersister F × Result PersisterError (Unit {0}))
      → Type 0
  KeepsStep n p (s', (p', r)) =
      n + counted c (stats_at p.last v k) ≡ counted c (stats_at p'.last v k)

  after_apply-KeepsStep :
      (p : RuntimeStatsPersister F) (next : Baseline F) (ds : Table (List (RuntimeStatsDelta F)))
      (out : S × Result StoreError (Unit {0}))
      → counted c (delta_at ds v k) + counted c (stats_at p.last v k)
        ≡ counted c (stats_at next v k)
      → KeepsStep (taken ds out) p (after_apply next p out)
  unfolding after_apply
  after_apply-KeepsStep p next ds (s', ok a) b = b
  after_apply-KeepsStep p next ds (s', err e) b = omega arith

  nil-delta_at :
      (ds : Table (List (RuntimeStatsDelta F))) → is_nil ds ≡ true → counted c (delta_at ds v k) ≡ 0
  unfolding lookup
  nil-delta_at [] h = refl
  nil-delta_at (d ∷ ds) h = absurd (ground arith)

  pub flush_locked-KeepsStep :
      (snapshot : Table (List (KeyStats F))) (p : RuntimeStatsPersister F) (s : S)
      → Sound p.last
      → Grows (stats_at (capture_runtime_stats snapshot) v k) (stats_at p.last v k)
      → KeepsStep (accepted snapshot p s) p (flush_locked store snapshot p s)
  unfolding flush_locked build_runtime_stats_deltas accepted
  flush_locked-KeepsStep snapshot p s sound grows =
      let current = capture_runtime_stats snapshot in
      let ds = vendor_deltas current p.last in
      let next = merge_vendors current p.last in
      let whole = capture_runtime_stats-Sound snapshot in
      let balance : counted c (delta_at ds v k) + counted c (stats_at p.last v k)
          ≡ counted c (stats_at next v k) =
        ap (λ o. counted c o + counted c (stats_at p.last v k))
          (vendor_deltas-delta_at current p.last v k whole.vendors whole.keys)
        ∙ delta_for-counted c (stats_at current v k) (stats_at p.last v k) grows
        ∙ ap (counted c) (sym (merge_vendors-stats_at current p.last v k sound.vendors)) in
      elim (Bool-cases (is_nil ds)) [
        | inl n ↦ rw n (omega (arith, balance, nil-delta_at ds n))
        | inr n ↦ rw n (after_apply-KeepsStep p next ds (store.apply_deltas ds s) balance)
      ]
