-- ===== src/Keystore/AsyncStore/Calls.antt =====
-- internal/keystore/async_store.go: a call of the store, the worker's flush and the last one among
-- them, and a sequence of calls.
use Prim.Native.String.{String}
use text.Mathlib.Text.{◌==◌ as str_eq}
use jc_proxy.Prelude.{not, Bool-cases, true, inl, inr, List, [], ◌∷◌, Option, none, some}
use jc_proxy.Prelude.Int.{ℤ, Time}
use jc_proxy.Prelude.Result.{Result, ok, err}
use jc_proxy.Prelude.Text.{trim_space}
use jc_proxy.Prelude.Table.Unique.{Unique}
use jc_proxy.Keystore.Record.{Record, normalize_vendor, normalize_keys, find_record}
use jc_proxy.Keystore.FileStore.{StoreError, is_nil}
use jc_proxy.Keystore.AsyncStore.{
  StoreOps, PendingStatusUpdate, AsyncStatusStore, new_async_status_store, set_status_if_version,
  pending_status_key, drop_vendor, clear_key_pending, clear_vendor_pending, pending_snapshot,
  new_pending_status_update,
}
use jc_proxy.Keystore.AsyncStore.Flush.{Named, Keyed}
use jc_proxy.Keystore.AsyncStore.Operations.{append, delete, set_status, delete_vendor, clear_keys}
use jc_proxy.Keystore.AsyncStore.Replacement.{
  requeue, requeue_one, indexed, pending_update_reflected, requeue_read, after_append, reconciled,
  reconcile_pending_after_replace, after_replace, replace_carrying, replace, missing_disabled,
}
use jc_proxy.Keystore.AsyncStore.Worker.{sync_one, sync_all, flush_pending, apply_pending}
use jc_proxy.Keystore.AsyncStore.Worker.{sync_all_final, flush_pending_final, close}
use jc_proxy.Keystore.AsyncStore.WellFormed.{
  WellFormed, put_pending-WellFormed, enqueued-WellFormed, after_write-WellFormed,
  after_final_write-WellFormed, clear_keys-WellFormed, after_call-WellFormed, remove-WellFormed,
  keep_if-WellFormed, AllNamed, new_pending-Named, Keyed-AllNamed, effective-AllNamed,
}

pub data AsyncCall : Type 0 where
  call_replace call_append call_delete : String → List String → AsyncCall
  call_set_status : String → String → String → String → String → AsyncCall
  call_set_status_if_version : Time → String → String → ℤ → String → String → String → AsyncCall
  call_delete_vendor : String → AsyncCall
  call_flush call_close : AsyncCall

module _ {S F : Type 0} (ops : StoreOps S F) where
  unfoldable pub perform : AsyncCall → AsyncStatusStore S → AsyncStatusStore S
  perform (call_replace v ks) st = (replace ops v ks st).0
  perform (call_append v ks) st = (append ops v ks st).0
  perform (call_delete v ks) st = (delete ops v ks st).0
  perform (call_set_status v k s why who) st = (set_status ops v k s why who st).0
  perform (call_set_status_if_version now v k n s why who) st =
      (set_status_if_version now v k n s why who st).0
  perform (call_delete_vendor v) st = (delete_vendor ops v st).0
  perform call_flush st = (flush_pending ops st).0
  perform call_close st = (close ops st).0

  unfoldable pub perform_all : List AsyncCall → AsyncStatusStore S → AsyncStatusStore S
  unfolding perform
  perform_all [] st = st
  perform_all (c ∷ cs) st = perform_all cs (perform c st)

module _ {S F : Type 0} where
  requeue_one-WellFormed :
      (u : PendingStatusUpdate) (o : Option (Record F)) (st : AsyncStatusStore S)
      → Named u
      → WellFormed st.pending
      → WellFormed (requeue_one u o st).pending
  unfolding requeue_one
  requeue_one-WellFormed u none st n w = w
  requeue_one-WellFormed u (some r) st n w = elim (Bool-cases (pending_update_reflected r u)) [
    | inl e ↦ rw e w
    | inr e ↦
        let again : PendingStatusUpdate = record u { expected_version = r.version } in
        rw e (put_pending-WellFormed again st n w)
  ]

  requeue-WellFormed :
      (rs : List (Record F)) (us : List PendingStatusUpdate) (st : AsyncStatusStore S)
      → AllNamed us
      → WellFormed st.pending
      → WellFormed (requeue rs us st).pending
  unfolding requeue AllNamed
  requeue-WellFormed rs [] st n w = w
  requeue-WellFormed rs (u ∷ us) st (n, ns) w =
      requeue-WellFormed rs us _ ns
        (requeue_one-WellFormed u (find_record u.key (indexed rs)) st n w)

  requeue_read-WellFormed :
      (v : String) (us : List PendingStatusUpdate) (r : Result StoreError (List (Record F)))
      (st : AsyncStatusStore S)
      → AllNamed us
      → WellFormed st.pending
      → WellFormed (requeue_read v us r st).0.pending
  unfolding requeue_read drop_vendor
  requeue_read-WellFormed v us (err e) st n w = w
  requeue_read-WellFormed v us (ok rs) st n w =
      requeue-WellFormed rs us (drop_vendor v st) n (keep_if-WellFormed _ st.pending w)

module _ {S F : Type 0} (ops : StoreOps S F) where
  after_append-WellFormed :
      {A : Type 0} (v : String) (us : List PendingStatusUpdate) (st : AsyncStatusStore S)
      (out : S × Result StoreError A)
      → AllNamed us
      → WellFormed st.pending
      → WellFormed (after_append ops v us st out).0.pending
  unfolding after_append
  after_append-WellFormed v us st (base, err e) n w = w
  after_append-WellFormed v us st (base, ok a) n w =
      requeue_read-WellFormed v us (ops.list v base) (record st { base = base }) n w

  reconciled-WellFormed :
      (v : String) (us : List PendingStatusUpdate) (st : AsyncStatusStore S)
      (r : Result StoreError (List (Record F)))
      → AllNamed us
      → WellFormed st.pending
      → WellFormed (reconciled ops v us st r).0.pending
  unfolding reconciled
  reconciled-WellFormed v us st (err e) n w = w
  reconciled-WellFormed v us st (ok rs) n w = elim (Bool-cases (is_nil (missing_disabled rs us))) [
    | inl e ↦ rw e (requeue_read-WellFormed v us (ok rs) st n w)
    | inr e ↦ rw e (after_append-WellFormed v us st _ n w)
  ]

  after_replace-WellFormed :
      {A : Type 0} (v : String) (us : List PendingStatusUpdate) (st : AsyncStatusStore S)
      (out : S × Result StoreError A)
      → AllNamed us
      → WellFormed st.pending
      → WellFormed (after_replace ops v us st out).0.pending
  unfolding after_replace reconcile_pending_after_replace
  after_replace-WellFormed v us st (base, err e) n w = w
  after_replace-WellFormed v us st (base, ok a) n w =
      reconciled-WellFormed v us (record st { base = base }) (ops.list v base) n w

  replace_carrying-WellFormed :
      (v : String) (ks : List String) (st : AsyncStatusStore S)
      (r : Result StoreError (List (Record F)))
      → WellFormed st.pending
      → WellFormed (replace_carrying ops v ks st r).0.pending
  unfolding replace_carrying
  replace_carrying-WellFormed v ks st (err e) w = w
  replace_carrying-WellFormed v ks st (ok rs) w =
      after_replace-WellFormed v _ st (ops.replace v ks st.base)
        (effective-AllNamed v rs _ (Keyed-AllNamed st.pending w.keyed)) w

  sync_all-WellFormed :
      (us : List PendingStatusUpdate) (st : AsyncStatusStore S)
      → WellFormed st.pending
      → WellFormed (sync_all ops us st).0.pending
  unfolding sync_all sync_one
  sync_all-WellFormed [] st w = w
  sync_all-WellFormed (u ∷ us) st w =
      sync_all-WellFormed us _ (after_write-WellFormed u st (apply_pending ops u st.base) w)

  sync_all_final-WellFormed :
      (us : List PendingStatusUpdate) (st : AsyncStatusStore S)
      → WellFormed st.pending
      → WellFormed (sync_all_final ops us st).0.pending
  unfolding sync_all_final
  sync_all_final-WellFormed [] st w = w
  sync_all_final-WellFormed (u ∷ us) st w =
      sync_all_final-WellFormed us _
        (after_final_write-WellFormed u st (apply_pending ops u st.base) w)

  perform-WellFormed :
      (c : AsyncCall) (st : AsyncStatusStore S)
      → WellFormed st.pending
      → WellFormed (perform ops c st).pending
  unfolding perform replace append delete set_status delete_vendor set_status_if_version
      flush_pending close flush_pending_final clear_key_pending clear_vendor_pending drop_vendor
  perform-WellFormed (call_replace v ks) st w = replace_carrying-WellFormed _ ks st _ w
  perform-WellFormed (call_append v ks) st w =
      after_call-WellFormed (λ st'. st') st (ops.append v ks st.base) (λ st' w'. w') w
  perform-WellFormed (call_delete v ks) st w =
      after_call-WellFormed (clear_keys v (normalize_keys ks)) st (ops.delete v ks st.base)
        (λ st' w'. clear_keys-WellFormed v (normalize_keys ks) st' w') w
  perform-WellFormed (call_set_status v k s why who) st w =
      after_call-WellFormed (clear_key_pending v k) st (ops.set_status v k s why who st.base)
        (λ st' w'.
          remove-WellFormed st'.pending (pending_status_key (normalize_vendor v) (trim_space k)) w')
        w
  perform-WellFormed (call_set_status_if_version now v k n s why who) st w =
      enqueued-WellFormed st (new_pending_status_update now v k n s why who)
        (new_pending-Named now v k n s why who) w
  perform-WellFormed (call_delete_vendor v) st w =
      after_call-WellFormed (clear_vendor_pending v) st (ops.delete_vendor v st.base)
        (λ st' w'.
          keep_if-WellFormed (λ u. not (str_eq u.vendor_id (normalize_vendor v))) st'.pending w')
        w
  perform-WellFormed call_flush st w = sync_all-WellFormed (pending_snapshot st.pending) st w
  perform-WellFormed call_close st w = elim (Bool-cases st.closed) [
    | inl c ↦ rw c w
    | inr c ↦
        rw c
          (sync_all_final-WellFormed (pending_snapshot st.pending) (record st { closed = true }) w)
  ]

  perform_all-keeps :
      (cs : List AsyncCall) (st : AsyncStatusStore S)
      → WellFormed st.pending
      → WellFormed (perform_all ops cs st).pending
  unfolding perform_all
  perform_all-keeps [] st w = w
  perform_all-keeps (c ∷ cs) st w =
      perform_all-keeps cs (perform ops c st) (perform-WellFormed c st w)

  -- After any sequence of calls on a new store, every pending update names a vendor and a key,
  -- stands under them, and stands once.
  pub perform_all-WellFormed :
      (base : S) (cs : List AsyncCall)
      → WellFormed (perform_all ops cs (new_async_status_store base)).pending
  unfolding new_async_status_store Unique Keyed
  perform_all-WellFormed base cs =
      perform_all-keeps cs (new_async_status_store base) (record { unique = tt; keyed = tt })
