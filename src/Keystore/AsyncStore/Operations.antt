-- ===== src/Keystore/AsyncStore/Operations.antt =====
-- internal/keystore/async_store.go: the operations of the store that go through to the base store.
use Prim.Native.String.{String}
use text.Mathlib.Text.{◌==◌ as str_eq}
use jc_proxy.Prelude.{ℕ, none, some, List, [], ◌∷◌, if◌then◌else◌}
use jc_proxy.Prelude.Int.{ℤ, pos, ◌+ℤ◌, ltb_ℤ, wrap_int64}
use jc_proxy.Prelude.Result.{Result, ok, err, map_ok}
use jc_proxy.Prelude.Table.{Table, put, remove}
use jc_proxy.Keystore.Status.{key_status_active}
use jc_proxy.Keystore.Record.{
  Record, normalize_record, normalize_vendor, normalize_keys, sort_records,
}
use jc_proxy.Keystore.FileStore.{StoreError, is_nil, records_of}
use jc_proxy.Keystore.AsyncStore.{
  StoreOps, PendingStatusUpdate, AsyncStatusStore, pending_snapshot, clear_key_pending,
  clear_vendor_pending,
}

max_version : ℤ → ℤ → ℤ
max_version a b = if ltb_ℤ a b then b else a

module _ {F : Type 0} where
  unfoldable pub with_pending : PendingStatusUpdate → Record F → Record F
  unfolding max_version normalize_record
  with_pending u r =
      let active = str_eq u.status key_status_active in
      let next : Record F = record r {
        status = u.status;
        version = max_version r.version (wrap_int64 (u.expected_version +ℤ pos 1));
        updated_at = u.at;
        disable_reason = if active then "" else u.reason;
        disabled_at = if active then none else some u.at;
        disabled_by = if active then "" else u.actor;
      } in
      normalize_record next

  -- The loop of `applyPendingVendorRecord`: the first record with the key.
  overlay : PendingStatusUpdate → List (Record F) → List (Record F)
  unfolding with_pending
  overlay u [] = []
  overlay u (r ∷ rs) =
      let rest = overlay u rs in
      if str_eq r.key u.key
      then (if ltb_ℤ u.expected_version r.version then r ∷ rs else with_pending u r ∷ rs)
      else r ∷ rest

  unfoldable pub apply_pending_vendor_record :
      List (Record F) → PendingStatusUpdate → List (Record F)
  unfolding overlay sort_records
  apply_pending_vendor_record rs u = sort_records (overlay u rs)

  unfoldable pub apply_pending_record :
      Table (List (Record F)) → PendingStatusUpdate → Table (List (Record F))
  unfolding apply_pending_vendor_record records_of
  apply_pending_record all u =
      let rs = apply_pending_vendor_record (records_of all u.vendor_id) u in
      if is_nil rs then remove all u.vendor_id else put all u.vendor_id rs

  overlay_all : List PendingStatusUpdate → Table (List (Record F)) → Table (List (Record F))
  unfolding apply_pending_record
  overlay_all [] all = all
  overlay_all (u ∷ us) all = overlay_all us (apply_pending_record all u)

  overlay_vendor : String → List PendingStatusUpdate → List (Record F) → List (Record F)
  unfolding apply_pending_vendor_record
  overlay_vendor vendor_id [] rs = rs
  overlay_vendor vendor_id (u ∷ us) rs =
      overlay_vendor vendor_id us
        (if str_eq u.vendor_id vendor_id then apply_pending_vendor_record rs u else rs)

module _ {S F : Type 0} (ops : StoreOps S F) where
  unfoldable pub list_all : AsyncStatusStore S → Result StoreError (Table (List (Record F)))
  unfolding overlay_all pending_snapshot
  list_all st = map_ok (overlay_all (pending_snapshot st.pending)) (ops.list_all st.base)

  unfoldable pub list : String → AsyncStatusStore S → Result StoreError (List (Record F))
  unfolding overlay_vendor pending_snapshot normalize_vendor sort_records
  list vendor st =
      map_ok
        (λ rs.
          sort_records (overlay_vendor (normalize_vendor vendor) (pending_snapshot st.pending) rs))
        (ops.list vendor st.base)

module _ {S : Type 0} where
  -- A call of the base store, and what follows where it succeeds.
  unfoldable pub after_call :
      {A : Type 0}
      → (AsyncStatusStore S → AsyncStatusStore S)
      → AsyncStatusStore S
      → S × Result StoreError A
      → AsyncStatusStore S × Result StoreError A
  after_call next st (base, ok a) = (next (record st { base = base }), ok a)
  after_call next st (base, err e) = (record st { base = base }, err e)

  unfoldable pub clear_keys : String → List String → AsyncStatusStore S → AsyncStatusStore S
  unfolding clear_key_pending
  clear_keys vendor [] st = st
  clear_keys vendor (k ∷ ks) st = clear_keys vendor ks (clear_key_pending vendor k st)

module _ {S F : Type 0} (ops : StoreOps S F) where
  unfoldable pub append :
      String → List String → AsyncStatusStore S → AsyncStatusStore S × Result StoreError ℕ
  unfolding after_call
  append vendor keys st = after_call (λ s. s) st (ops.append vendor keys st.base)

  unfoldable pub delete :
      String → List String → AsyncStatusStore S → AsyncStatusStore S × Result StoreError ℕ
  unfolding after_call clear_keys normalize_keys
  delete vendor keys st =
      after_call (clear_keys vendor (normalize_keys keys)) st (ops.delete vendor keys st.base)

  unfoldable pub set_status :
      String
      → String
      → String
      → String
      → String
      → AsyncStatusStore S
      → AsyncStatusStore S × Result StoreError (Unit {0})
  unfolding after_call clear_key_pending
  set_status vendor key status reason actor st =
      after_call (clear_key_pending vendor key) st
        (ops.set_status vendor key status reason actor st.base)

  unfoldable pub delete_vendor :
      String → AsyncStatusStore S → AsyncStatusStore S × Result StoreError (Unit {0})
  unfolding after_call clear_vendor_pending
  delete_vendor vendor st =
      after_call (clear_vendor_pending vendor) st (ops.delete_vendor vendor st.base)
