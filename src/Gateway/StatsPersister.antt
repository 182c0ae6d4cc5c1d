-- ===== src/Gateway/StatsPersister.antt =====
-- internal/gateway/stats_persister.go: writing the counters of the running gateway to the key store,
-- as differences from the counters of the last write. The counters that a flush captures, and the
-- store's methods, are arguments. The lock makes a flush and a reset one step each.
pub mod Deltas
pub mod Baseline
pub mod Ledger
pub mod Reset
pub mod Run
pub mod Examples
use Prim.Native.String.{String}
use text.Mathlib.Text.{◌==◌ as str_eq}
use jc_proxy.Prelude.{
  ℕ, Bool, true, false, not, ◌||◌, Option, none, some, List, [], ◌∷◌, if◌then◌else◌,
}
use jc_proxy.Prelude.Float.{FloatOps}
use jc_proxy.Prelude.Result.{Result, ok, err}
use jc_proxy.Prelude.Table.{Table, Entry, lookup, put}
use jc_proxy.Prelude.Text.{trim_space, is_empty}
use jc_proxy.Keystore.RuntimeStats.{RuntimeStats, delta_since, is_zero}
use jc_proxy.Keystore.FileStore.{StoreError, is_nil}
use jc_proxy.Keystore.FileStore.Statistics.{RuntimeStatsDelta}

-- What a router's snapshot tells of a key; the rest of balancer.KeyStateSnapshot is not used here.
pub record KeyStats (F : Type 0) : Type 0 where
  pub key : String
  pub runtime_stats : RuntimeStats F

-- `map[string]map[string]keystore.RuntimeStats`.
abbrev pub Baseline : Type 0 → Type 0
Baseline F = Table (Table (RuntimeStats F))

module _ {F : Type 0} where
  -- `prevKeys[key]`, where a vendor that is missing has an empty map.
  abbrev pub keys_of_vendor : Option (Table (RuntimeStats F)) → Table (RuntimeStats F)
  keys_of_vendor none = []
  keys_of_vendor (some t) = t

  unfoldable pub capture_keys : List (KeyStats F) → Table (RuntimeStats F) → Table (RuntimeStats F)
  capture_keys [] per_vendor = per_vendor
  capture_keys (s ∷ ss) per_vendor =
      let key = trim_space s.key in
      capture_keys ss (if is_empty key then per_vendor else put per_vendor key s.runtime_stats)

  unfoldable pub capture_vendor : String → List (KeyStats F) → Baseline F → Baseline F
  unfolding capture_keys
  capture_vendor vendor_id states out =
      let per_vendor = capture_keys states [] in
      if is_nil per_vendor then out else put out vendor_id per_vendor

  unfoldable pub capture_vendors : Table (List (KeyStats F)) → Baseline F → Baseline F
  unfolding capture_vendor
  capture_vendors [] out = out
  capture_vendors (e ∷ es) out =
      capture_vendors es (if is_nil e.value then out else capture_vendor e.name e.value out)

  unfoldable pub capture_runtime_stats : Table (List (KeyStats F)) → Baseline F
  unfolding capture_vendors
  capture_runtime_stats snapshot = capture_vendors snapshot []

  unless_zero : RuntimeStats F → Option (RuntimeStats F)
  unfolding is_zero
  unless_zero s = if is_zero s then none else some s

  with_delta :
      String → Option (RuntimeStats F) → List (RuntimeStatsDelta F) → List (RuntimeStatsDelta F)
  with_delta key none rest = rest
  with_delta key (some d) rest = record { key = key; runtime_stats = d } ∷ rest

module _ {F : Type 0} ⦃fl : FloatOps F⦄ where
  since : RuntimeStats F → Option (RuntimeStats F) → Option (RuntimeStats F)
  unfolding unless_zero
  since current none = unless_zero current
  since current (some delta) = unless_zero delta

  -- The delta that one key sends, if any.
  unfoldable pub delta_of : RuntimeStats F → Option (RuntimeStats F) → Option (RuntimeStats F)
  unfolding unless_zero since delta_since
  delta_of current none = unless_zero current
  delta_of current (some prev) = since current (delta_since current prev)

  key_deltas : Table (RuntimeStats F) → Table (RuntimeStats F) → List (RuntimeStatsDelta F)
  unfolding with_delta delta_of
  key_deltas [] prev = []
  key_deltas (e ∷ es) prev =
      with_delta e.name (delta_of e.value (lookup prev e.name)) (key_deltas es prev)

  -- A vendor without deltas has no entry.
  unfoldable pub vendor_deltas : Baseline F → Baseline F → Table (List (RuntimeStatsDelta F))
  unfolding key_deltas
  vendor_deltas [] previous = []
  vendor_deltas (e ∷ es) previous =
      let rest = vendor_deltas es previous in
      let ds = key_deltas e.value (keys_of_vendor (lookup previous e.name)) in
      if is_nil ds then rest else record { name = e.name; value = ds } ∷ rest

module _ {F : Type 0} where
  unfoldable pub put_absent :
      Option (RuntimeStats F)
      → String
      → RuntimeStats F
      → Table (RuntimeStats F)
      → Table (RuntimeStats F)
  put_absent none key s t = put t key s
  put_absent (some x) key s t = t

  unfoldable pub merge_keys :
      Table (RuntimeStats F) → Table (RuntimeStats F) → Table (RuntimeStats F)
  unfolding put_absent
  merge_keys next [] = next
  merge_keys next (e ∷ es) = merge_keys (put_absent (lookup next e.name) e.name e.value next) es

  -- Keys that are missing from the current counters keep their old ones.
  unfoldable pub merge_vendors : Baseline F → Baseline F → Baseline F
  unfolding merge_keys
  merge_vendors current [] = current
  merge_vendors current (e ∷ es) =
      let merged = merge_keys (keys_of_vendor (lookup current e.name)) e.value in
      merge_vendors (if is_nil e.value then current else put current e.name merged) es

module _ {F : Type 0} ⦃fl : FloatOps F⦄ where
  unfoldable pub build_runtime_stats_deltas :
      Baseline F → Baseline F → Table (List (RuntimeStatsDelta F)) × Baseline F
  unfolding vendor_deltas merge_vendors
  build_runtime_stats_deltas current previous =
      (vendor_deltas current previous, merge_vendors current previous)

-- The key store, as the persister uses it: RuntimeStatsStore, and RuntimeStatsResetStore where the
-- store has it.
pub record StatsStore (S F : Type 0) : Type 0 where
  pub apply_deltas : Table (List (RuntimeStatsDelta F)) → S → S × Result StoreError (Unit {0})
  pub reset_stats : Option (String → S → S × Result StoreError ℕ)

pub data PersisterError : Type 0 where
  persister_closed reset_not_supported : PersisterError
  store_failed : StoreError → PersisterError

pub record RuntimeStatsPersister (F : Type 0) : Type 0 where
  pub last : Baseline F
  pub stopped : Bool

module _ {S F : Type 0} where
  unfoldable pub after_apply :
      Baseline F
      → RuntimeStatsPersister F
      → S × Result StoreError (Unit {0})
      → S × (RuntimeStatsPersister F × Result PersisterError (Unit {0}))
  after_apply next p (s, ok a) = (s, (record p { last = next }, ok tt))
  after_apply next p (s, err e) = (s, (p, err (store_failed e)))

module _ {S F : Type 0} ⦃fl : FloatOps F⦄ (store : StatsStore S F) where
  unfoldable pub flush_locked :
      Table (List (KeyStats F))
      → RuntimeStatsPersister F
      → S
      → S × (RuntimeStatsPersister F × Result PersisterError (Unit {0}))
  unfolding capture_runtime_stats build_runtime_stats_deltas after_apply
  flush_locked snapshot p s =
      let built = build_runtime_stats_deltas (capture_runtime_stats snapshot) p.last in
      if is_nil built.0
      then (s, (record p { last = built.1 }, ok tt))
      else after_apply built.1 p (store.apply_deltas built.0 s)

module _ {F : Type 0} where
  -- `delete(p.last, id)` for the vendors that the reset selects.
  unfoldable pub forget : String → Baseline F → Baseline F
  forget vendor_id [] = []
  forget vendor_id (e ∷ es) =
      let rest = forget vendor_id es in
      if is_empty vendor_id || str_eq e.name vendor_id then rest else e ∷ rest
