-- ===== src/Keystore/Record.antt =====
-- internal/keystore/store.go: the record of a key, its normal form, and lists of keys and records.
-- sort.Slice leaves the order of records with equal keys open; the model keeps them as they stood.
pub mod Keys
pub mod Normal
use Prim.Native.String.{String}
use text.Mathlib.Text.{◌==◌ as str_eq}
use jc_proxy.Prelude.{
  Bool, true, false, ◌||◌, not, Option, none, some, List, [], ◌∷◌, map, if◌then◌else◌,
}
use jc_proxy.Prelude.Int.{ℤ, pos, ltb_ℤ, Time}
use jc_proxy.Prelude.Order.{text_lt}
use jc_proxy.Prelude.Table.{Entry, Table}
use jc_proxy.Prelude.Text.{trim_space, is_empty}
use jc_proxy.Keystore.RuntimeStats.{RuntimeStats}
use jc_proxy.Keystore.Status.{key_status_active, normalize_status}

pub record Record (F : Type 0) : Type 0 where
  pub key : String
  pub remark : String
  pub status : String
  pub disable_reason : String
  pub disabled_at : Option Time
  pub disabled_by : String
  pub runtime_stats : RuntimeStats F
  pub version : ℤ
  pub created_at : Time
  pub updated_at : Time

unfoldable pub normalize_vendor : String → String
normalize_vendor vendor_id = trim_space vendor_id

-- Whether a key stands in a list, as the lookup in a Go set.
unfoldable pub has_key : String → List String → Bool
has_key key [] = false
has_key key (k ∷ ks) = str_eq key k || has_key key ks

-- The loop of `NormalizeKeys`, with the keys that it has seen.
collect_keys : List String → List String → List String
unfolding has_key
collect_keys seen [] = []
collect_keys seen (raw ∷ keys) =
    let key = trim_space raw in
    let skip = is_empty key || has_key key seen in
    let rest = collect_keys (if skip then seen else key ∷ seen) keys in
    if skip then rest else key ∷ rest

insert_key : String → List String → List String
insert_key key [] = key ∷ []
insert_key key (k ∷ ks) =
    let rest = insert_key key ks in if text_lt k key then k ∷ rest else key ∷ k ∷ ks

-- sort.Strings.
sort_keys : List String → List String
unfolding insert_key
sort_keys [] = []
sort_keys (k ∷ ks) = insert_key k (sort_keys ks)

unfoldable pub normalize_keys : List String → List String
unfolding collect_keys sort_keys
normalize_keys keys = sort_keys (collect_keys [] keys)

module _ {F : Type 0} where
  unfoldable pub normalize_record : Record F → Record F
  unfolding normalize_status
  normalize_record r =
      let status = normalize_status r.status in
      let active = str_eq status key_status_active in
      let normal : Record F = record r {
        key = trim_space r.key;
        remark = trim_space r.remark;
        status = status;
        version = if ltb_ℤ r.version (pos 0) then pos 0 else r.version;
        disable_reason = if active then "" else r.disable_reason;
        disabled_at = if active then none else r.disabled_at;
        disabled_by = if active then "" else r.disabled_by;
      } in
      normal

  unfoldable pub insert_record : Record F → List (Record F) → List (Record F)
  insert_record r [] = r ∷ []
  insert_record r (q ∷ qs) =
      let rest = insert_record r qs in if text_lt q.key r.key then q ∷ rest else r ∷ q ∷ qs

  unfoldable pub sort_records : List (Record F) → List (Record F)
  unfolding insert_record
  sort_records [] = []
  sort_records (r ∷ rs) = insert_record r (sort_records rs)

  -- The copy of one vendor's records in `cloneRecordMap`.
  unfoldable pub clone_records : List (Record F) → List (Record F)
  unfolding sort_records
  clone_records rs = sort_records (map normalize_record rs)

  unfoldable pub clone_record_map : Table (List (Record F)) → Table (List (Record F))
  unfolding clone_records
  clone_record_map [] = []
  clone_record_map (e ∷ es) =
      record { name = e.name; value = clone_records e.value } ∷ clone_record_map es

  unfoldable pub keys_of : List (Record F) → List String
  keys_of rs = map (λ (r : Record F). r.key) rs

  unfoldable pub to_key_map : Table (List (Record F)) → Table (List String)
  unfolding keys_of
  to_key_map [] = []
  to_key_map (e ∷ es) = record { name = e.name; value = keys_of e.value } ∷ to_key_map es

  -- The last record with the key, as an index `map[string]Record` built by a loop finds it.
  unfoldable pub find_record : String → List (Record F) → Option (Record F)
  find_record key [] = none
  find_record key (r ∷ rs) = elim (find_record key rs) [
    | some q ↦ some q
    | none ↦ if str_eq r.key key then some r else none
  ]
