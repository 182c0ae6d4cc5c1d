-- ===== src/Keystore/AsyncStore/Replacement.antt =====
-- internal/keystore/async_store.go: replacing a vendor's keys while updates of them are pending.
use Prim.Native.String.{String}
use text.Mathlib.Text.{◌==◌ as str_eq}
use jc_proxy.Prelude.{
  Bool, true, false, not, ◌&&◌, ◌||◌, Option, none, some, List, [], ◌∷◌, map, if◌then◌else◌,
}
use jc_proxy.Prelude.Int.{ltb_ℤ}
use jc_proxy.Prelude.Result.{Result, ok, err}
use jc_proxy.Keystore.Status.{normalize_status, is_active_status}
use jc_proxy.Keystore.Record.{Record, normalize_record, normalize_vendor, find_record}
use jc_proxy.Keystore.FileStore.{StoreError, is_nil}
use jc_proxy.Keystore.AsyncStore.{
  StoreOps, PendingStatusUpdate, AsyncStatusStore, pending_snapshot, put_pending, drop_vendor,
}

module _ {F : Type 0} where
  -- The map from keys to normal records, as the list that it is built from.
  unfoldable pub indexed : List (Record F) → List (Record F)
  unfolding normalize_record
  indexed rs = map normalize_record rs

  unfoldable pub still_current : PendingStatusUpdate → Option (Record F) → Bool
  still_current u none = false
  still_current u (some r) = not (ltb_ℤ u.expected_version r.version)

  -- The updates of one vendor that the base store has not overtaken.
  unfoldable pub effective_pending :
      String → List (Record F) → List PendingStatusUpdate → List PendingStatusUpdate
  unfolding indexed still_current find_record
  effective_pending vendor_id rs [] = []
  effective_pending vendor_id rs (u ∷ us) =
      let rest = effective_pending vendor_id rs us in
      if str_eq u.vendor_id vendor_id && still_current u (find_record u.key (indexed rs))
      then u ∷ rest
      else rest

  is_missing : Option (Record F) → Bool
  is_missing none = true
  is_missing (some r) = false

  unfoldable pub missing_disabled : List (Record F) → List PendingStatusUpdate → List String
  unfolding indexed find_record is_missing is_active_status
  missing_disabled rs [] = []
  missing_disabled rs (u ∷ us) =
      let rest = missing_disabled rs us in
      if not (is_active_status u.status) && is_missing (find_record u.key (indexed rs))
      then u.key ∷ rest
      else rest

  unfoldable pub pending_update_reflected : Record F → PendingStatusUpdate → Bool
  unfolding normalize_record normalize_status is_active_status
  pending_update_reflected raw u =
      let r = normalize_record raw in
      let status = normalize_status u.status in
      str_eq r.status status || (not (is_active_status r.status) && not (is_active_status status))

module _ {S F : Type 0} where
  unfoldable pub requeue_one :
      PendingStatusUpdate → Option (Record F) → AsyncStatusStore S → AsyncStatusStore S
  unfolding pending_update_reflected put_pending
  requeue_one u none st = st
  requeue_one u (some r) st =
      if pending_update_reflected r u
      then st
      else put_pending (record u { expected_version = r.version }) st

  unfoldable pub requeue :
      List (Record F) → List PendingStatusUpdate → AsyncStatusStore S → AsyncStatusStore S
  unfolding indexed find_record requeue_one
  requeue rs [] st = st
  requeue rs (u ∷ us) st = requeue rs us (requeue_one u (find_record u.key (indexed rs)) st)

  unfoldable pub requeue_read :
      String
      → List PendingStatusUpdate
      → Result StoreError (List (Record F))
      → AsyncStatusStore S
      → AsyncStatusStore S × Result StoreError (Unit {0})
  unfolding requeue drop_vendor
  requeue_read vendor_id carried (err e) st = (st, err e)
  requeue_read vendor_id carried (ok rs) st = (requeue rs carried (drop_vendor vendor_id st), ok tt)

module _ {S F : Type 0} (ops : StoreOps S F) where
  unfoldable pub after_append :
      {A : Type 0}
      → String
      → List PendingStatusUpdate
      → AsyncStatusStore S
      → S × Result StoreError A
      → AsyncStatusStore S × Result StoreError (Unit {0})
  unfolding requeue_read
  after_append vendor_id carried st (base, err e) = (record st { base = base }, err e)
  after_append vendor_id carried st (base, ok n) =
      requeue_read vendor_id carried (ops.list vendor_id base) (record st { base = base })

  unfoldable pub reconciled :
      String
      → List PendingStatusUpdate
      → AsyncStatusStore S
      → Result StoreError (List (Record F))
      → AsyncStatusStore S × Result StoreError (Unit {0})
  unfolding missing_disabled after_append requeue_read
  reconciled vendor_id carried st (err e) = (st, err e)
  reconciled vendor_id carried st (ok rs) =
      let missing = missing_disabled rs carried in
      if is_nil missing
      then requeue_read vendor_id carried (ok rs) st
      else after_append vendor_id carried st (ops.append vendor_id missing st.base)

  unfoldable pub reconcile_pending_after_replace :
      String
      → List PendingStatusUpdate
      → AsyncStatusStore S
      → AsyncStatusStore S × Result StoreError (Unit {0})
  unfolding reconciled
  reconcile_pending_after_replace vendor_id carried st =
      reconciled vendor_id carried st (ops.list vendor_id st.base)

  unfoldable pub after_replace :
      {A : Type 0}
      → String
      → List PendingStatusUpdate
      → AsyncStatusStore S
      → S × Result StoreError A
      → AsyncStatusStore S × Result StoreError (Unit {0})
  unfolding reconcile_pending_after_replace
  after_replace vendor_id carried st (base, err e) = (record st { base = base }, err e)
  after_replace vendor_id carried st (base, ok a) =
      reconcile_pending_after_replace vendor_id carried (record st { base = base })

  unfoldable pub replace_carrying :
      String
      → List String
      → AsyncStatusStore S
      → Result StoreError (List (Record F))
      → AsyncStatusStore S × Result StoreError (Unit {0})
  unfolding effective_pending pending_snapshot after_replace
  replace_carrying vendor_id keys st (err e) = (st, err e)
  replace_carrying vendor_id keys st (ok rs) =
      after_replace vendor_id (effective_pending vendor_id rs (pending_snapshot st.pending)) st
        (ops.replace vendor_id keys st.base)

  unfoldable pub replace :
      String → List String → AsyncStatusStore S → AsyncStatusStore S × Result StoreError (Unit {0})
  unfolding normalize_vendor replace_carrying
  replace vendor keys st =
      let vendor_id = normalize_vendor vendor in
      replace_carrying vendor_id keys st (ops.list vendor_id st.base)
