-- ===== src/Keystore/AsyncStore/Examples.antt =====
-- Runs of the asynchronous store over the file store.
use Prim.Native.String.{String}
use jc_proxy.Prelude.{ℕ, ◌≡◌, ◌≢◌, refl, List, [], ◌∷◌, some, arith, ◌<◌}
use jc_proxy.Prelude.Float.{milli}
use jc_proxy.Prelude.Int.{Time, pos}
use jc_proxy.Prelude.Table.{lookup, ne-of_str_eq}
use jc_proxy.Prelude.Text.{trim_space}
use jc_proxy.Keystore.Status.{
  key_status_disabled_auto, key_status_disabled_manual, normalize_status,
}
use jc_proxy.Keystore.Record.{normalize_vendor}
use jc_proxy.Keystore.FileStore.{FileStore, no_faults, Faults}
use jc_proxy.Keystore.FileStore.Examples.{store, rename_fails}
use jc_proxy.Keystore.AsyncStore.{
  pending_snapshot, AsyncStatusStore, PendingStatusUpdate, new_async_status_store,
  pending_status_key, set_status_if_version,
}
use jc_proxy.Keystore.AsyncStore.Calls.{
  AsyncCall, call_append, call_set_status_if_version, call_flush, perform_all,
  perform_all-WellFormed,
}
use jc_proxy.Keystore.AsyncStore.WellFormed.{WellFormed}
use jc_proxy.Keystore.AsyncStore.OverFile.{file_ops, flush_pending-file_store, Disk, disk_ops}
use jc_proxy.Keystore.AsyncStore.Worker.{flush_pending}
use jc_proxy.Keystore.AsyncStore.Interleaving.{
  Event, enqueue, begin_flush, write_next, settle_next, clear_vendor, run, started, step,
}
use jc_proxy.Keystore.AsyncStore.Interleaving.Newest.{enqueue-stays}
use jc_proxy.Keystore.AsyncStore.Interleaving.Flushed.{flush_result, flush_result-next_id}
use jc_proxy.Prelude.Table.{put, remove}

abbrev disabling : String → AsyncCall
disabling key =
    call_set_status_if_version (pos 20) "v1" key (pos 4) key_status_disabled_auto "401" "gateway"

abbrev calls : List AsyncCall
calls = disabling "a" ∷ call_flush ∷ disabling " b " ∷ call_append "v1" ("c" ∷ []) ∷ []

perform_all-WellFormed_example :
    WellFormed
      (perform_all (file_ops rename_fails (pos 21)) calls (new_async_status_store store)).pending
perform_all-WellFormed_example = perform_all-WellFormed (file_ops rename_fails (pos 21)) store calls

-- The first write fails, the next ones go through.
abbrev answers : List (Faults × Time)
answers = (rename_fails, pos 21) ∷ (no_faults, pos 22) ∷ []

abbrev end_store : AsyncStatusStore (Disk ℕ)
end_store =
    perform_all (disk_ops (λ faults. faults)) calls
      (new_async_status_store (record { files = store; answers = answers }))

flush_pending-file_store_example :
    (flush_pending (disk_ops (λ faults. no_faults)) end_store).0.pending ≡ []
flush_pending-file_store_example = flush_pending-file_store store answers calls

abbrev ask : String → Event (FileStore ℕ) ℕ
ask status = enqueue (pos 20) "v1" "a" (pos 4) status "401" "gateway"

-- The worker is about to write the first update of the key when the second comes.
abbrev first_events : List (Event (FileStore ℕ) ℕ)
first_events = ask key_status_disabled_auto ∷ begin_flush ∷ []

abbrev quiet_events : List (Event (FileStore ℕ) ℕ)
quiet_events = write_next ∷ clear_vendor "v2" ∷ settle_next ∷ write_next ∷ []

abbrev second_store : AsyncStatusStore (FileStore ℕ)
second_store =
    (set_status_if_version (pos 23) "v1" "a" (pos 5) key_status_disabled_manual "" "admin"
      (run (file_ops no_faults (pos 22)) first_events (started store)).store).0

other_vendor : normalize_vendor "v1" ≢ normalize_vendor "v2"
unfolding normalize_vendor trim_space
other_vendor = ne-of_str_eq (normalize_vendor "v1") (normalize_vendor "v2") refl

enqueue-stays_example :
    (u : PendingStatusUpdate) × (lookup
        (run
          (file_ops no_faults (pos 22))
          quiet_events
          (record (run (file_ops no_faults (pos 22)) first_events (started store)) {
            store = second_store;
          })).store.pending
        (pending_status_key (normalize_vendor "v1") (trim_space "a"))
      ≡ some u)
    × (u.status ≡ normalize_status key_status_disabled_manual)
    × (u.expected_version ≡ pos 5)
unfolding set_status_if_version trim_space run step new_async_status_store
enqueue-stays_example =
    enqueue-stays (file_ops no_faults (pos 22)) store first_events quiet_events (pos 23) "v1" "a"
      (pos 5) key_status_disabled_manual "" "admin" second_store (omega arith) refl
      (tt, (other_vendor, (tt, (tt, tt))))

-- A second update of the key comes when the worker has written the first, and has yet to settle it.
abbrev between : List (Event (FileStore ℕ) ℕ)
between = write_next ∷ ask key_status_disabled_manual ∷ settle_next ∷ []

abbrev newest : PendingStatusUpdate
newest = record {
  id = 2;
  vendor_id = "v1";
  key = "a";
  status = key_status_disabled_manual;
  expected_version = pos 4;
  reason = "401";
  actor = "gateway";
  at = pos 20;
}

flush_result-next_id_example :
    (run
      (file_ops no_faults (pos 22))
      (ask key_status_disabled_auto ∷ [])
      (started store)).store.next_id
    < newest.id
unfolding set_status_if_version trim_space run step new_async_status_store flush_result lookup put
    remove pending_snapshot file_ops jc_proxy.Keystore.FileStore.Operations.set_status_if_version
flush_result-next_id_example =
    flush_result-next_id (file_ops no_faults (pos 22)) store (ask key_status_disabled_auto ∷ [])
      between (pending_status_key "v1" "a") newest (omega arith) tt refl refl refl
