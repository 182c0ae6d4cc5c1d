-- ===== src/Keystore/FileStore/Statistics.antt =====
-- internal/keystore/file_store.go: the operations of the key store on runtime statistics.
use Prim.Native.String.{String}
use text.Mathlib.Text.{◌==◌ as str_eq}
use jc_proxy.Prelude.{
  ℕ, suc, ◌+◌, Bool, true, false, not, ◌||◌, Option, none, some, List, [], ◌∷◌, map, length, ◌==◌,
  if◌then◌else◌, get_elem?, set,
}
use jc_proxy.Prelude.Float.{FloatOps}
use jc_proxy.Prelude.Int.{Time}
use jc_proxy.Prelude.Result.{Result, ok}
use jc_proxy.Prelude.Table.{Table, Entry, put}
use jc_proxy.Prelude.Text.{trim_space, is_empty}
use jc_proxy.Keystore.RuntimeStats.{RuntimeStats, zero_stats, is_zero, apply_delta}
use jc_proxy.Keystore.Record.{Record, normalize_record, normalize_vendor, clone_record_map}
use jc_proxy.Keystore.FileStore.{StoreError, FileStore, Faults, is_nil, records_of, commit}

pub record RuntimeStatsDelta (F : Type 0) : Type 0 where
  pub key : String
  pub runtime_stats : RuntimeStats F

selects : String → String → Bool
selects vendor_id id = is_empty vendor_id || str_eq id vendor_id

module _ {F : Type 0} where
  -- The index that the loop over the records leaves for a key: the last one.
  unfoldable pub last_index : String → List (Record F) → Option ℕ
  last_index key [] = none
  last_index key (r ∷ rs) = elim (last_index key rs) [
    | some i ↦ some (suc i)
    | none ↦ if str_eq r.key key then some 0 else none
  ]

  unfoldable pub credited : Time → RuntimeStats F → Record F → Record F
  unfolding apply_delta normalize_record
  credited now stats r =
      let next : Record F = record r {
        runtime_stats = apply_delta r.runtime_stats stats;
        updated_at = now;
      } in
      normalize_record next

  credit_at : Time → RuntimeStats F → List (Record F) × Bool → Option ℕ → List (Record F) × Bool
  unfolding credited
  credit_at now stats (rs, changed) none = (rs, changed)
  credit_at now stats (rs, changed) (some i) = elim (get_elem? rs i) [
    | none ↦ (rs, changed)
    | some r ↦ (set rs i (credited now stats r), true)
  ]

  -- The loop over one vendor's deltas. `index` is built before it, from the records at that time.
  unfoldable pub credit_all :
      Time
      → (String → Option ℕ)
      → List (RuntimeStatsDelta F)
      → List (Record F) × Bool
      → List (Record F) × Bool
  unfolding credit_at is_zero
  credit_all now index [] done = done
  credit_all now index (delta ∷ deltas) done =
      let key = trim_space delta.key in
      let skip = is_empty key || is_zero delta.runtime_stats in
      let next = if skip then done else credit_at now delta.runtime_stats done (index key) in
      credit_all now index deltas next

  credit_vendor :
      Time
      → Entry (List (RuntimeStatsDelta F))
      → Table (List (Record F)) × Bool
      → Table (List (Record F)) × Bool
  unfolding credit_all last_index records_of normalize_vendor
  credit_vendor now e (next, changed) =
      let vendor_id = normalize_vendor e.name in
      let current = records_of next vendor_id in
      let done = credit_all now (λ key. last_index key current) e.value (current, changed) in
      if is_nil current then (next, changed) else (put next vendor_id done.0, done.1)

  unfoldable pub credit_vendors :
      Time
      → Table (List (RuntimeStatsDelta F))
      → Table (List (Record F)) × Bool
      → Table (List (Record F)) × Bool
  unfolding credit_vendor
  credit_vendors now [] done = done
  credit_vendors now (e ∷ es) done = credit_vendors now es (credit_vendor now e done)

  unfoldable pub apply_runtime_stats_deltas :
      Faults
      → Time
      → Table (List (RuntimeStatsDelta F))
      → FileStore F
      → FileStore F × Result StoreError (Unit {0})
  unfolding credit_vendors clone_record_map commit
  apply_runtime_stats_deltas faults now deltas fs =
      let done = credit_vendors now deltas (clone_record_map fs.records, false) in
      if is_nil deltas || not done.1 then (fs, ok tt) else commit faults tt done.0 fs

module _ {F : Type 0} ⦃fl : FloatOps F⦄ where
  unfoldable pub reset_record : Time → Record F → Record F
  reset_record now r = record r { runtime_stats = zero_stats; updated_at = now }

  unfoldable pub reset_records : Time → String → Table (List (Record F)) → Table (List (Record F))
  unfolding selects reset_record
  reset_records now vendor_id [] = []
  reset_records now vendor_id (e ∷ es) =
      let rest = reset_records now vendor_id es in
      let hit = selects vendor_id e.name in
      record { name = e.name; value = if hit then map (reset_record now) e.value else e.value }
      ∷ rest

module _ {F : Type 0} where
  count_selected : String → Table (List (Record F)) → ℕ
  unfolding selects
  count_selected vendor_id [] = 0
  count_selected vendor_id (e ∷ es) =
      let rest = count_selected vendor_id es in
      if selects vendor_id e.name then length e.value + rest else rest

module _ {F : Type 0} ⦃fl : FloatOps F⦄ where
  unfoldable pub reset_runtime_stats :
      Faults → Time → String → FileStore F → FileStore F × Result StoreError ℕ
  unfolding normalize_vendor clone_record_map reset_records count_selected commit
  reset_runtime_stats faults now vendor fs =
      let vendor_id = normalize_vendor vendor in
      let current = clone_record_map fs.records in
      let count = count_selected vendor_id current in
      if count == 0
      then (fs, ok 0)
      else commit faults count (reset_records now vendor_id current) fs
