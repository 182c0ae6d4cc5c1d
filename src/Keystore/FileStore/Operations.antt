-- ===== src/Keystore/FileStore/Operations.antt =====
-- internal/keystore/file_store.go: the operations that change the key store.
use Prim.Native.String.{String}
use text.Mathlib.Text.{◌==◌ as str_eq}
use jc_proxy.Prelude.{
  ℕ, ◌+◌, ◌||◌, Option, none, some, List, [], ◌∷◌, ◌++◌, length, ◌==◌, if◌then◌else◌,
}
use jc_proxy.Prelude.Float.{FloatOps}
use jc_proxy.Prelude.Int.{ℤ, pos, eqb_ℤ, Time}
use jc_proxy.Prelude.Result.{Result, ok, err, map_ok}
use jc_proxy.Prelude.Text.{trim_space, is_empty}
use jc_proxy.Keystore.RuntimeStats.{zero_stats}
use jc_proxy.Keystore.Status.{
  key_status_active, normalize_status, is_active_status, next_record_version,
}
use jc_proxy.Keystore.Record.{
  Record, normalize_record, normalize_vendor, normalize_keys, sort_records, has_key, keys_of,
  find_record,
}
use jc_proxy.Keystore.FileStore.{
  StoreError, vendor_required, key_required, key_not_found, version_mismatch, FileStore, Faults,
  is_nil, records_of, save_vendor_locked,
}

abbrev Outcome : Type 0 → Type 0 → Type 0
Outcome F A = FileStore F × Result StoreError A

module _ {F : Type 0} ⦃fl : FloatOps F⦄ where
  unfoldable pub new_record : Time → String → Record F
  new_record now key = record {
    key = key;
    remark = "";
    status = key_status_active;
    disable_reason = "";
    disabled_at = none;
    disabled_by = "";
    runtime_stats = zero_stats;
    version = pos 1;
    created_at = now;
    updated_at = now;
  }

module _ {F : Type 0} where
  unfoldable pub refreshed : Time → Record F → Record F
  unfolding next_record_version normalize_record
  refreshed now r =
      let next : Record F = record r {
        version = next_record_version r.version;
        updated_at = now;
      } in
      normalize_record next

  -- The records of `Replace` that stay without being named: the disabled ones.
  unfoldable pub kept_disabled : List String → List (Record F) → List (Record F)
  unfolding has_key normalize_record is_active_status
  kept_disabled selected [] = []
  kept_disabled selected (r ∷ rs) =
      let rest = kept_disabled selected rs in
      if has_key r.key selected || is_active_status r.status
      then rest
      else normalize_record r ∷ rest

module _ {F : Type 0} ⦃fl : FloatOps F⦄ where
  unfoldable pub named : Time → List (Record F) → List String → List (Record F)
  unfolding find_record refreshed new_record
  named now current [] = []
  named now current (key ∷ keys) = elim (find_record key current) [
    | some r ↦ refreshed now r ∷ named now current keys
    | none ↦ new_record now key ∷ named now current keys
  ]

  unfoldable pub replaced : Time → List (Record F) → List String → List (Record F)
  unfolding named kept_disabled sort_records
  replaced now current keys = sort_records (named now current keys ++ kept_disabled keys current)

  -- What `Replace` leaves where no key is named.
  unfoldable pub disabled_records : List (Record F) → List (Record F)
  unfolding normalize_record is_active_status
  disabled_records [] = []
  disabled_records (raw ∷ rs) =
      let rest = disabled_records rs in
      let r = normalize_record raw in if is_active_status r.status then rest else r ∷ rest

  unfoldable pub replace : Faults → Time → String → List String → FileStore F → Outcome F (Unit {0})
  unfolding normalize_vendor normalize_keys records_of replaced disabled_records sort_records
      save_vendor_locked
  replace faults now vendor keys fs =
      let vendor_id = normalize_vendor vendor in
      let selected = normalize_keys keys in
      let current = records_of fs.records vendor_id in
      let next =
        if is_nil selected
        then sort_records (disabled_records current)
        else replaced now current selected in
      if is_empty vendor_id
      then (fs, err vendor_required)
      else save_vendor_locked faults tt vendor_id next fs

  -- The loop of `Append`, with the keys that exist.
  unfoldable pub new_records : Time → List String → List String → List (Record F)
  unfolding has_key new_record
  new_records now existing [] = []
  new_records now existing (key ∷ keys) =
      let skip = has_key key existing in
      let rest = new_records now (if skip then existing else key ∷ existing) keys in
      if skip then rest else new_record now key ∷ rest

  unfoldable pub append_in : Faults → Time → String → List String → FileStore F → Outcome F ℕ
  unfolding records_of new_records keys_of sort_records save_vendor_locked
  append_in faults now vendor_id keys fs =
      let current = records_of fs.records vendor_id in
      let fresh : List (Record F) = new_records now (keys_of current) keys in
      if is_nil fresh
      then (fs, ok 0)
      else save_vendor_locked faults (length fresh) vendor_id (sort_records (current ++ fresh)) fs

  unfoldable pub append : Faults → Time → String → List String → FileStore F → Outcome F ℕ
  unfolding normalize_vendor normalize_keys append_in
  append faults now vendor keys fs =
      let vendor_id = normalize_vendor vendor in
      if is_empty vendor_id
      then (fs, err vendor_required)
      else append_in faults now vendor_id (normalize_keys keys) fs

module _ {F : Type 0} where
  unfoldable pub without : List String → List (Record F) → List (Record F)
  unfolding has_key
  without keys [] = []
  without keys (r ∷ rs) =
      let rest = without keys rs in if has_key r.key keys then rest else r ∷ rest

  unfoldable pub count_named : List String → List (Record F) → ℕ
  unfolding has_key
  count_named keys [] = 0
  count_named keys (r ∷ rs) =
      let rest = count_named keys rs in if has_key r.key keys then rest + 1 else rest

  unfoldable pub delete_in : Faults → String → List String → FileStore F → Outcome F ℕ
  unfolding records_of without count_named save_vendor_locked
  delete_in faults vendor_id keys fs =
      let current = records_of fs.records vendor_id in
      let removed = count_named keys current in
      if removed == 0
      then (fs, ok 0)
      else save_vendor_locked faults removed vendor_id (without keys current) fs

  unfoldable pub delete : Faults → String → List String → FileStore F → Outcome F ℕ
  unfolding normalize_vendor normalize_keys delete_in
  delete faults vendor keys fs =
      let vendor_id = normalize_vendor vendor in
      if is_empty vendor_id
      then (fs, err vendor_required)
      else delete_in faults vendor_id (normalize_keys keys) fs

  -- The loops that change the first record with a key.
  unfoldable pub update_key :
      String
      → (Record F → Result StoreError (Record F))
      → List (Record F)
      → Result StoreError (List (Record F))
  update_key key change [] = err key_not_found
  update_key key change (r ∷ rs) =
      let rest = update_key key change rs in
      if str_eq r.key key then map_ok (λ q. q ∷ rs) (change r) else map_ok (λ qs. r ∷ qs) rest

  unfoldable pub save_changed :
      Faults → String → FileStore F → Result StoreError (List (Record F)) → Outcome F (Unit {0})
  unfolding save_vendor_locked
  save_changed faults vendor_id fs (err e) = (fs, err e)
  save_changed faults vendor_id fs (ok rs) = save_vendor_locked faults tt vendor_id rs fs

  unfoldable pub change_key :
      Faults
      → String
      → String
      → (Record F → Result StoreError (Record F))
      → FileStore F
      → Outcome F (Unit {0})
  unfolding normalize_vendor records_of update_key save_changed
  change_key faults vendor raw change fs =
      let vendor_id = normalize_vendor vendor in
      let key = trim_space raw in
      if is_empty vendor_id
      then (fs, err vendor_required)
      else if is_empty key
      then (fs, err key_required)
      else save_changed faults vendor_id fs
          (update_key key change (records_of fs.records vendor_id))

  unfoldable pub remarked : Time → String → Record F → Result StoreError (Record F)
  unfolding normalize_record
  remarked now remark r =
      let next : Record F = record r { remark = trim_space remark; updated_at = now } in
      ok (normalize_record next)

  unfoldable pub set_remark :
      Faults → Time → String → String → String → FileStore F → Outcome F (Unit {0})
  unfolding change_key remarked
  set_remark faults now vendor key remark fs = change_key faults vendor key (remarked now remark) fs

  unfoldable pub with_status : Time → String → String → String → Record F → Record F
  unfolding normalize_record next_record_version normalize_status
  with_status now raw reason actor r =
      let status = normalize_status raw in
      let active = str_eq status key_status_active in
      let next : Record F = record r {
        status = status;
        version = next_record_version r.version;
        updated_at = now;
        disable_reason = if active then "" else trim_space reason;
        disabled_at = if active then none else some now;
        disabled_by = if active then "" else trim_space actor;
      } in
      normalize_record next

  -- `expected` is `none` for the write that checks no version.
  unfoldable pub status_change :
      Option ℤ → Time → String → String → String → Record F → Result StoreError (Record F)
  unfolding with_status
  status_change none now status reason actor r = ok (with_status now status reason actor r)
  status_change (some expected) now status reason actor r =
      if eqb_ℤ r.version expected
      then ok (with_status now status reason actor r)
      else err version_mismatch

  unfoldable pub set_status :
      Faults
      → Time
      → String
      → String
      → String
      → String
      → String
      → FileStore F
      → Outcome F (Unit {0})
  unfolding change_key status_change
  set_status faults now vendor key status reason actor fs =
      change_key faults vendor key (status_change none now status reason actor) fs

  unfoldable pub set_status_if_version :
      Faults
      → Time
      → String
      → String
      → ℤ
      → String
      → String
      → String
      → FileStore F
      → Outcome F (Unit {0})
  unfolding change_key status_change
  set_status_if_version faults now vendor key expected status reason actor fs =
      change_key faults vendor key (status_change (some expected) now status reason actor) fs

  unfoldable pub delete_vendor : Faults → String → FileStore F → Outcome F (Unit {0})
  unfolding normalize_vendor save_vendor_locked
  delete_vendor faults vendor fs =
      let vendor_id = normalize_vendor vendor in
      if is_empty vendor_id
      then (fs, err vendor_required)
      else save_vendor_locked faults tt vendor_id [] fs
