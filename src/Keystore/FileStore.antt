-- ===== src/Keystore/FileStore.antt =====
-- internal/keystore/file_store.go: the key store in a file. The state is the map `s.data` in memory, here `records`, and the
-- contents of the file and of its temporary file. JSON and the file system are Go's: a snapshot is
-- written and read as a value, and each call that can fail is an argument of the operation, as the
-- error that it returns. A clock reading is an argument too. The lock makes an operation one step.
pub mod Operations
pub mod Statistics
pub mod Calls
pub mod Updates
pub mod Conditional
pub mod Durable
pub mod Examples
use Prim.Native.String.{String}
use jc_proxy.Prelude.{
  Bool, true, false, not, ◌&&◌, Option, none, some, List, [], ◌∷◌, map, if◌then◌else◌,
}
use jc_proxy.Prelude.Int.{ℤ, pos, eqb_ℤ}
use jc_proxy.Prelude.Result.{Result, ok, err, map_ok}
use jc_proxy.Prelude.Table.{Table, Entry, lookup, put, remove}
use jc_proxy.Prelude.Text.{is_empty}
use jc_proxy.Keystore.Record.{
  Record, normalize_record, clone_records, clone_record_map, to_key_map, normalize_vendor,
}

pub data StoreError : Type 0 where
  path_required vendor_required key_required key_not_found version_mismatch : StoreError
  mkdir_failed marshal_failed write_failed rename_failed : String → StoreError
  read_failed parse_failed : String → StoreError
  store_closed : StoreError
  wrong_schema_version : ℤ → StoreError

pub record FileSnapshot (F : Type 0) : Type 0 where
  pub schema_version : ℤ
  pub vendors : Table (List (Record F))

pub record FileStore (F : Type 0) : Type 0 where
  pub records : Table (List (Record F))
  pub file : Option (FileSnapshot F)
  pub tmp : Option (FileSnapshot F)

-- The errors of the four calls of `saveDataLocked`.
pub record Faults : Type 0 where
  pub mkdir : Option String
  pub marshal : Option String
  pub write : Option String
  pub rename : Option String

abbrev pub no_faults : Faults
no_faults = record { mkdir = none; marshal = none; write = none; rename = none }

abbrev pub current_schema_version : ℤ
current_schema_version = pos 3

abbrev pub legacy_schema_version : ℤ
legacy_schema_version = pos 1

abbrev pub is_nil : {A : Type 0} → List A → Bool
is_nil [] = true
is_nil (x ∷ xs) = false

module _ {F : Type 0} where
  abbrev or_empty : Option (List (Record F)) → List (Record F)
  or_empty none = []
  or_empty (some rs) = rs

  -- `s.data[vendorID]`.
  unfoldable pub records_of : Table (List (Record F)) → String → List (Record F)
  records_of t vendor_id = or_empty (lookup t vendor_id)

  rename_tmp : Option String → FileSnapshot F → FileStore F → FileStore F × Option StoreError
  rename_tmp none snap fs = (record fs { file = some snap; tmp = none }, none)
  rename_tmp (some e) snap fs = (record fs { tmp = some snap }, some (rename_failed e))

  -- A write that fails leaves what it leaves in the temporary file; nothing reads it.
  write_tmp : Faults → FileSnapshot F → FileStore F → FileStore F × Option StoreError
  unfolding rename_tmp
  write_tmp faults snap fs = elim faults.write [
    | some e ↦ (record fs { tmp = none }, some (write_failed e))
    | none ↦ rename_tmp faults.rename snap fs
  ]

  save_data_locked :
      Faults → Table (List (Record F)) → FileStore F → FileStore F × Option StoreError
  unfolding write_tmp clone_record_map
  save_data_locked faults next fs =
      let snap : FileSnapshot F = record {
        schema_version = current_schema_version;
        vendors = clone_record_map next;
      } in
      elim faults.mkdir [
        | some e ↦ (fs, some (mkdir_failed e))
        | none ↦ elim faults.marshal [
          | some e ↦ (fs, some (marshal_failed e))
          | none ↦ write_tmp faults snap fs
        ]
      ]

  publish :
      {A : Type 0}
      → A
      → Table (List (Record F))
      → FileStore F × Option StoreError
      → FileStore F × Result StoreError A
  publish a next (fs, some e) = (fs, err e)
  publish a next (fs, none) = (record fs { records = next }, ok a)

  -- `if err := s.saveDataLocked(next); err != nil { return err }; s.data = next`.
  unfoldable pub commit :
      {A : Type 0}
      → Faults
      → A
      → Table (List (Record F))
      → FileStore F
      → FileStore F × Result StoreError A
  unfolding save_data_locked publish
  commit faults a next fs = publish a next (save_data_locked faults next fs)

  unfoldable pub save_vendor_locked :
      {A : Type 0}
      → Faults
      → A
      → String
      → List (Record F)
      → FileStore F
      → FileStore F × Result StoreError A
  unfolding commit
  save_vendor_locked faults a vendor_id rs fs =
      let next = if is_nil rs then remove fs.records vendor_id else put fs.records vendor_id rs in
      commit faults a next fs

  unfoldable pub list_all : FileStore F → Table (List (Record F))
  unfolding clone_record_map
  list_all fs = clone_record_map fs.records

  -- The normal form of a record is taken, and the order of `s.data` is kept.
  unfoldable pub list : String → FileStore F → List (Record F)
  unfolding records_of
  list vendor_id fs = map normalize_record (records_of fs.records (normalize_vendor vendor_id))

  unfoldable pub key_map : FileStore F → Table (List String)
  unfolding list_all to_key_map
  key_map fs = to_key_map (list_all fs)

-- What reading and parsing the file gives.
pub data Reading (F : Type 0) : Type 0 where
  missing : Reading F
  unreadable unparsable : String → Reading F
  parsed : FileSnapshot F → Reading F

module _ {F : Type 0} where
  unfoldable pub reading_of : Option (FileSnapshot F) → Reading F
  reading_of none = missing
  reading_of (some snap) = parsed snap

  -- The map that `load` leaves in `s.data`.
  unfoldable pub load : Reading F → Result StoreError (Table (List (Record F)))
  unfolding clone_record_map
  load missing = ok []
  load (unreadable e) = err (read_failed e)
  load (unparsable e) = err (parse_failed e)
  load (parsed snap) =
      let version =
        if eqb_ℤ snap.schema_version (pos 0) then legacy_schema_version else snap.schema_version in
      if not (eqb_ℤ version current_schema_version) && not (is_nil snap.vendors)
      then err (wrong_schema_version version)
      else ok (clone_record_map snap.vendors)

  file_of : Reading F → Option (FileSnapshot F)
  file_of (parsed snap) = some snap
  file_of _ = none

  opened : Reading F → Table (List (Record F)) → FileStore F
  unfolding file_of
  opened reading records = record { records = records; file = file_of reading; tmp = none }

  unfoldable pub new_file_store : String → Reading F → Result StoreError (FileStore F)
  unfolding load opened
  new_file_store path reading =
      if is_empty path then err path_required else map_ok (opened reading) (load reading)
