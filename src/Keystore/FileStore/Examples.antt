-- ===== src/Keystore/FileStore/Examples.antt =====
-- Runs of the file store.
use jc_proxy.Prelude.Order.{text_lt}
use Prim.Native.String.{String}
use jc_proxy.Prelude.{ℕ, ◌≡◌, ◌≢◌, refl, List, [], ◌∷◌, none, some}
use jc_proxy.Prelude.Float.{milli}
use jc_proxy.Prelude.Int.{pos}
use jc_proxy.Prelude.Result.{Result, ok, err}
use jc_proxy.Prelude.Table.{Table, lookup}
use jc_proxy.Prelude.Text.{trim_space}
use jc_proxy.Keystore.RuntimeStats.{zero_stats}
use jc_proxy.Keystore.Status.{
  key_status_active, key_status_disabled_auto, key_status_disabled_manual,
}
use jc_proxy.Keystore.Record.{Record, normalize_vendor, normalize_record}
use jc_proxy.Keystore.FileStore.{
  FileStore, FileSnapshot, Faults, no_faults, parsed, StoreError, rename_failed, version_mismatch,
  current_schema_version, new_file_store, reading_of, list_all, records_of,
}
use jc_proxy.Keystore.FileStore.Operations.{set_status_if_version, with_status, set_status}
use jc_proxy.Keystore.FileStore.Calls.{
  Operation, op_append, op_delete, op_set_status, Call, perform, perform_all,
}
use jc_proxy.Keystore.FileStore.Durable.{perform-error, reopen-list_all}
use jc_proxy.Keystore.FileStore.Updates.{first_record}
use jc_proxy.Keystore.FileStore.Conditional.{set_status_if_version-stale, set_status_if_version-ok}

abbrev key_record : String → Record ℕ
key_record key = record {
  key = key;
  remark = "";
  status = key_status_active;
  disable_reason = "";
  disabled_at = none;
  disabled_by = "";
  runtime_stats = zero_stats;
  version = pos 4;
  created_at = pos 10;
  updated_at = pos 10;
}

abbrev snapshot : FileSnapshot ℕ
snapshot = record {
  schema_version = current_schema_version;
  vendors = record { name = "v1"; value = key_record "b" ∷ key_record "a" ∷ [] } ∷ [];
}

abbrev sorted : Table (List (Record ℕ))
sorted = record { name = "v1"; value = key_record "a" ∷ key_record "b" ∷ [] } ∷ []

abbrev pub store : FileStore ℕ
store = record { records = sorted; file = some snapshot; tmp = none }

abbrev pub rename_fails : Faults
rename_fails = record no_faults { rename = some "disk" }

abbrev disable_a : Operation ℕ
disable_a = op_set_status "v1" "a" key_status_disabled_auto "401" "gateway"

open_test : new_file_store "keys.json" (parsed snapshot) ≡ ok store
unfolding new_file_store text_lt normalize_record
open_test = refl

perform-error_example :
    ((perform rename_fails (pos 20) disable_a store).0.records ≡ store.records)
    × ((perform rename_fails (pos 20) disable_a store).0.file ≡ store.file)
unfolding perform set_status lookup
perform-error_example =
    perform-error rename_fails (pos 20) store disable_a
      (perform rename_fails (pos 20) disable_a store).0 (rename_failed "disk") refl

abbrev calls : List (Call ℕ)
calls =
    record { operation = op_append " v1 " ("c" ∷ "a" ∷ []); now = pos 30; faults = no_faults }
    ∷ record { operation = disable_a; now = pos 31; faults = rename_fails }
    ∷ record { operation = op_delete "v1" ("b" ∷ []); now = pos 32; faults = no_faults }
    ∷ []

reopen-list_all_example :
    (fs' : FileStore ℕ) × (new_file_store "keys.json" (reading_of (perform_all calls store).file)
      ≡ ok fs')
    × (list_all fs' ≡ list_all (perform_all calls store))
reopen-list_all_example = reopen-list_all "keys.json" (parsed snapshot) store calls open_test

abbrev disabled : FileStore ℕ × Result StoreError (Unit {0})
disabled =
    set_status_if_version no_faults (pos 40) "v1" "a" (pos 4) key_status_disabled_auto "401"
      "gateway" store

disabled_test : disabled.1 ≡ ok tt
unfolding set_status_if_version lookup
disabled_test = refl

set_status_if_version-stale_example :
    set_status_if_version no_faults
      (pos 41)
      "v1"
      "a"
      (pos 4)
      key_status_disabled_manual
      ""
      "admin"
      disabled.0
    ≡ (disabled.0, err version_mismatch)
unfolding set_status_if_version lookup
set_status_if_version-stale_example =
    set_status_if_version-stale no_faults no_faults (pos 40) (pos 41) "v1" "a" (pos 4)
      key_status_disabled_auto "401" "gateway" key_status_disabled_manual "" "admin" store
      disabled.0 refl

set_status_if_version-ok_example :
    (r : Record ℕ) × (first_record
        (trim_space "a")
        (records_of store.records (normalize_vendor "v1"))
      ≡ some r)
    × (r.version ≡ pos 4)
    × (first_record (trim_space "a") (records_of disabled.0.records (normalize_vendor "v1"))
        ≡ some (with_status (pos 40) key_status_disabled_auto "401" "gateway" r))
    × ((j : String)
        → j ≢ trim_space "a"
        → first_record j (records_of disabled.0.records (normalize_vendor "v1"))
          ≡ first_record j (records_of store.records (normalize_vendor "v1")))
    × ((w : String)
        → normalize_vendor "v1" ≢ w
        → records_of disabled.0.records w ≡ records_of store.records w)
unfolding set_status_if_version lookup
set_status_if_version-ok_example =
    set_status_if_version-ok no_faults (pos 40) "v1" "a" (pos 4) key_status_disabled_auto "401"
      "gateway" store disabled.0 refl
