-- ===== src/Keystore/FileStore/Durable.antt =====
-- internal/keystore/file_store.go: the map in memory against the file.
use Prim.Native.String.{String}
use jc_proxy.Prelude.{
  ◌≡◌, refl, ◌∙◌, Bool, Bool-cases, true, false, inl, inr, ◌⊎◌, arith, List, [], ◌∷◌, Option, none,
  some, if◌then◌else◌,
}
use jc_proxy.Prelude.Float.{FloatOps}
use jc_proxy.Prelude.Int.{Time}
use jc_proxy.Prelude.Result.{Result, ok, err, map_ok, ok_inj}
use jc_proxy.Prelude.Table.{Table}
use jc_proxy.Prelude.Text.{is_empty}
use jc_proxy.Keystore.Record.{Record, clone_record_map}
use jc_proxy.Keystore.Record.Normal.{clone_record_map_twice}
use mathlib.Core.Path.{subst}
use jc_proxy.Keystore.FileStore.{
  path_required, Reading, missing, unreadable, unparsable, parsed, load, reading_of, new_file_store,
  list_all, opened, file_of, FileStore, FileSnapshot, Faults, StoreError, current_schema_version,
  commit, save_data_locked, write_tmp, rename_tmp, publish, save_vendor_locked,
}
use jc_proxy.Keystore.FileStore.Operations.{
  replace, append, append_in, delete, delete_in, change_key, save_changed, set_remark, set_status,
  set_status_if_version, delete_vendor,
}
use jc_proxy.Keystore.FileStore.Statistics.{apply_runtime_stats_deltas, reset_runtime_stats}
use jc_proxy.Keystore.FileStore.Calls.{
  Operation, op_replace, op_append, op_delete, op_set_remark, op_set_status,
  op_set_status_if_version, op_delete_vendor, op_reset_runtime_stats, op_apply_runtime_stats_deltas,
  Call, perform, perform_all, outcome,
}

module _ {F : Type 0} where
  abbrev snapshot_of : Table (List (Record F)) → FileSnapshot F
  snapshot_of t = record { schema_version = current_schema_version; vendors = clone_record_map t }

  -- The file holds the map.
  abbrev Written : FileStore F → Type 0
  Written fs = fs.file ≡ some (snapshot_of fs.records)

  abbrev SameStore : FileStore F → FileStore F → Type 0
  SameStore fs fs' = (fs'.records ≡ fs.records) × (fs'.file ≡ fs.file)

  -- On an error nothing has changed; on success the file holds the map, or nothing has changed.
  Atomic : {A : Type 0} → FileStore F → FileStore F × Result StoreError A → Type 0
  Atomic fs (fs', err e) = SameStore fs fs'
  Atomic fs (fs', ok a) = SameStore fs fs' ⊎ Written fs'

  if-Atomic :
      {A : Type 0} (fs : FileStore F) (b : Bool) (x y : FileStore F × Result StoreError A)
      → Atomic fs x
      → Atomic fs y
      → Atomic fs (if b then x else y)
  if-Atomic fs true x y p q = p
  if-Atomic fs false x y p q = q

  refused : (A : Type 0) (fs : FileStore F) (e : StoreError) → Atomic {A = A} fs (fs, err e)
  unfolding Atomic
  refused A fs e = (refl, refl)

  idle : {A : Type 0} (fs : FileStore F) (a : A) → Atomic fs (fs, ok a)
  unfolding Atomic
  idle fs a = inl (refl, refl)

  -- What `saveDataLocked` leaves: an error and the old file, or none and the new one.
  Saved : Table (List (Record F)) → FileStore F → FileStore F × Option StoreError → Type 0
  Saved next fs (fs', some e) = SameStore fs fs'
  Saved next fs (fs', none) = fs'.file ≡ some (snapshot_of next)

  save_data_locked-Saved :
      (faults : Faults) (next : Table (List (Record F))) (fs : FileStore F)
      → Saved next fs (save_data_locked faults next fs)
  unfolding save_data_locked write_tmp rename_tmp Saved
  save_data_locked-Saved faults next fs = ground arith

  publish-Atomic :
      {A : Type 0} (a : A) (next : Table (List (Record F))) (fs : FileStore F)
      (out : FileStore F × Option StoreError)
      → Saved next fs out
      → Atomic fs (publish a next out)
  unfolding publish Atomic Saved
  publish-Atomic a next fs (fs', some e) h = h
  publish-Atomic a next fs (fs', none) h = inr h

  commit-Atomic :
      {A : Type 0} (faults : Faults) (a : A) (next : Table (List (Record F))) (fs : FileStore F)
      → Atomic fs (commit faults a next fs)
  unfolding commit
  commit-Atomic faults a next fs =
      publish-Atomic a next fs _ (save_data_locked-Saved faults next fs)

  save-Atomic :
      {A : Type 0} (faults : Faults) (a : A) (v : String) (rs : List (Record F)) (fs : FileStore F)
      → Atomic fs (save_vendor_locked faults a v rs fs)
  unfolding save_vendor_locked
  save-Atomic faults a v rs fs = commit-Atomic faults a _ fs

  save_changed-Atomic :
      (faults : Faults) (v : String) (fs : FileStore F) (r : Result StoreError (List (Record F)))
      → Atomic fs (save_changed faults v fs r)
  unfolding save_changed
  save_changed-Atomic faults v fs (err e) = refused _ fs e
  save_changed-Atomic faults v fs (ok rs) = save-Atomic faults tt v rs fs

  change_key-Atomic :
      (faults : Faults) (v k : String) (change : Record F → Result StoreError (Record F))
      (fs : FileStore F)
      → Atomic fs (change_key faults v k change fs)
  unfolding change_key
  change_key-Atomic faults v k change fs = search (if-Atomic, refused, save_changed-Atomic)

  ruleset atomic = (if-Atomic, refused, idle, commit-Atomic, save-Atomic, change_key-Atomic)

module _ {F : Type 0} (fs : FileStore F) where
  -- What a call of the store leaves.
  Kept : FileStore F × Option StoreError → Type 0
  Kept (fs', some e) = SameStore fs fs'
  Kept (fs', none) = SameStore fs fs' ⊎ Written fs'

  Atomic-outcome :
      (A : Type 0) (out : FileStore F × Result StoreError A) → Atomic fs out → Kept (outcome out)
  unfolding Atomic Kept
  Atomic-outcome A (fs', ok a) h = h
  Atomic-outcome A (fs', err e) h = h

  Kept-error :
      (out : FileStore F × Option StoreError) (fs' : FileStore F) (e : StoreError)
      → Kept out
      → out ≡ (fs', some e)
      → SameStore fs fs'
  unfolding Kept
  Kept-error out fs' e k h = subst Kept h k

module _ {F : Type 0} ⦃fl : FloatOps F⦄ (faults : Faults) (now : Time) (fs : FileStore F) where
  perform-Kept : (op : Operation F) → Kept fs (perform faults now op fs)
  unfolding perform replace append append_in delete delete_in set_remark set_status
      set_status_if_version delete_vendor reset_runtime_stats apply_runtime_stats_deltas
  perform-Kept (op_replace v ks) = Atomic-outcome fs _ (replace faults now v ks fs) (search atomic)
  perform-Kept (op_append v ks) = Atomic-outcome fs _ (append faults now v ks fs) (search atomic)
  perform-Kept (op_delete v ks) = Atomic-outcome fs _ (delete faults v ks fs) (search atomic)
  perform-Kept (op_set_remark v k m) =
      Atomic-outcome fs _ (set_remark faults now v k m fs) (search atomic)
  perform-Kept (op_set_status v k s why who) =
      Atomic-outcome fs _ (set_status faults now v k s why who fs) (search atomic)
  perform-Kept (op_set_status_if_version v k n s why who) =
      Atomic-outcome fs _ (set_status_if_version faults now v k n s why who fs) (search atomic)
  perform-Kept (op_delete_vendor v) =
      Atomic-outcome fs _ (delete_vendor faults v fs) (search atomic)
  perform-Kept (op_reset_runtime_stats v) =
      Atomic-outcome fs _ (reset_runtime_stats faults now v fs) (search atomic)
  perform-Kept (op_apply_runtime_stats_deltas deltas) =
      Atomic-outcome fs _ (apply_runtime_stats_deltas faults now deltas fs) (search atomic)

  -- A call that returns an error has changed neither the records in memory nor the file.
  pub perform-error :
      (op : Operation F) (fs' : FileStore F) (e : StoreError)
      → perform faults now op fs ≡ (fs', some e)
      → (fs'.records ≡ fs.records) × (fs'.file ≡ fs.file)
  perform-error op fs' e h = Kept-error fs (perform faults now op fs) fs' e (perform-Kept op) h

module _ {F : Type 0} where
  -- Reading the file gives the records in memory, up to normal form and order.
  Synced : FileStore F → Type 0
  Synced fs =
      (t : Table (List (Record F))) × (load (reading_of fs.file) ≡ ok t)
      × (clone_record_map t ≡ clone_record_map fs.records)

  Written-Synced : (fs : FileStore F) → Written fs → Synced fs
  unfolding Synced load reading_of
  Written-Synced fs w = (
    clone_record_map (clone_record_map fs.records),
    rw w refl,
    clone_record_map_twice (clone_record_map fs.records) ∙ clone_record_map_twice fs.records,
  )

  SameStore-Synced : (fs fs' : FileStore F) → SameStore fs fs' → Synced fs → Synced fs'
  unfolding Synced
  SameStore-Synced fs fs' (r, f) (t, l, c) = (t, rw f l, rw r c)

  Kept-Synced :
      (fs : FileStore F) (out : FileStore F × Option StoreError)
      → Kept fs out
      → Synced fs
      → Synced out.0
  unfolding Kept
  Kept-Synced fs (fs', some e) h s = SameStore-Synced fs fs' h s
  Kept-Synced fs (fs', none) (inl h) s = SameStore-Synced fs fs' h s
  Kept-Synced fs (fs', none) (inr h) s = Written-Synced fs' h

  opened_inv :
      (path : String) (reading : Reading F) (fs : FileStore F)
      (r : Result StoreError (Table (List (Record F))))
      → (if is_empty path then err path_required else map_ok (opened reading) r) ≡ ok fs
      → (is_empty path ≡ false)
        × ((t : Table (List (Record F))) × (r ≡ ok t) × (opened reading t ≡ fs))
  opened_inv path reading fs (ok t) h = elim (Bool-cases (is_empty path)) [
    | inl e ↦ absurd (ground arith)
    | inr e ↦ (e, (t, refl, (ok_inj (rw e at h))))
  ]
  opened_inv path reading fs (err e) h = absurd (ground arith)

  load-file_of :
      (reading : Reading F) (t : Table (List (Record F)))
      → load reading ≡ ok t
      → load (reading_of (file_of reading)) ≡ ok t
  unfolding load reading_of file_of
  load-file_of missing t h = h
  load-file_of (unreadable e) t h = absurd (ground arith)
  load-file_of (unparsable e) t h = absurd (ground arith)
  load-file_of (parsed snap) t h = h

  opened-Synced :
      (path : String) (reading : Reading F) (fs : FileStore F)
      → new_file_store path reading ≡ ok fs
      → Synced fs
  unfolding new_file_store opened Synced
  opened-Synced path reading fs h =
      let (named, (t, l, e)) = opened_inv path reading fs (load reading) h in
      subst Synced e ((t, load-file_of reading t l, refl))

module _ {F : Type 0} ⦃fl : FloatOps F⦄ where
  perform_all-Synced :
      (calls : List (Call F)) (fs : FileStore F) → Synced fs → Synced (perform_all calls fs)
  unfolding perform_all
  perform_all-Synced [] fs s = s
  perform_all-Synced (c ∷ cs) fs s =
      perform_all-Synced cs _ (Kept-Synced fs _ (perform-Kept c.faults c.now fs c.operation) s)

  -- After any sequence of calls, whichever of them fail, a store that is opened on the file anew
  -- opens, and lists what the store in memory lists. The store was itself opened on a file.
  pub reopen-list_all :
      (path : String) (reading : Reading F) (fs : FileStore F) (calls : List (Call F))
      → new_file_store path reading ≡ ok fs
      → (fs' : FileStore F) × (new_file_store path (reading_of (perform_all calls fs).file)
          ≡ ok fs')
        × (list_all fs' ≡ list_all (perform_all calls fs))
  unfolding new_file_store opened list_all Synced
  reopen-list_all path reading fs calls h =
      let (named, start) = opened_inv path reading fs (load reading) h in
      let (t, l, c) = perform_all-Synced calls fs (opened-Synced path reading fs h) in
      (opened (reading_of (perform_all calls fs).file) t, rw (named, l) refl, c)
