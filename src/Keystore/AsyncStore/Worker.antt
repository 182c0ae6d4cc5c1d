-- ===== src/Keystore/AsyncStore/Worker.antt =====
-- internal/keystore/async_store.go: the worker that writes the pending updates to the base store.
-- A store whose writes take a context is the base store with a timeout, a part of its answers.
use jc_proxy.Prelude.{Bool, true, false, ◌&&◌, List, [], ◌∷◌, ◌++◌, if◌then◌else◌}
use jc_proxy.Prelude.Result.{Result, ok, err}
use jc_proxy.Keystore.FileStore.{StoreError, version_mismatch, key_not_found}
use jc_proxy.Keystore.AsyncStore.{
  StoreOps, PendingStatusUpdate, StatusSyncError, AsyncStatusStore, status_update_error,
  pending_snapshot, delete_pending_if_match,
}

-- The errors that retrying cannot cure.
unfoldable pub is_conflict : StoreError → Bool
is_conflict version_mismatch = true
is_conflict key_not_found = true
is_conflict _ = false

module _ {S F : Type 0} (ops : StoreOps S F) where
  unfoldable pub apply_pending : PendingStatusUpdate → S → S × Result StoreError (Unit {0})
  apply_pending u s =
      ops.set_status_if_version u.vendor_id u.key u.expected_version u.status u.reason u.actor s

module _ {S : Type 0} where
  unfoldable pub reported :
      PendingStatusUpdate → StoreError → AsyncStatusStore S → AsyncStatusStore S
  reported u e st = record st { errors = status_update_error u e ∷ st.errors }

  -- The cases after one write. The result tells whether the update is settled.
  unfoldable pub after_write :
      PendingStatusUpdate
      → AsyncStatusStore S
      → S × Result StoreError (Unit {0})
      → AsyncStatusStore S × Bool
  unfolding delete_pending_if_match reported is_conflict
  after_write u st (base, ok a) = (delete_pending_if_match u (record st { base = base }), true)
  after_write u st (base, err e) =
      if is_conflict e
      then (reported u e (delete_pending_if_match u (record st { base = base })), true)
      else (reported u e (record st { base = base }), false)

module _ {S F : Type 0} (ops : StoreOps S F) where
  unfoldable pub sync_one : PendingStatusUpdate → AsyncStatusStore S → AsyncStatusStore S × Bool
  unfolding apply_pending after_write
  sync_one u st = after_write u st (apply_pending ops u st.base)

  unfoldable pub sync_all :
      List PendingStatusUpdate → AsyncStatusStore S → AsyncStatusStore S × Bool
  unfolding sync_one
  sync_all [] st = (st, true)
  sync_all (u ∷ us) st =
      let (st', done) = sync_one u st in let (st'', rest) = sync_all us st' in (st'', done && rest)

  unfoldable pub flush_pending : AsyncStatusStore S → AsyncStatusStore S × Bool
  unfolding sync_all pending_snapshot
  flush_pending st = sync_all (pending_snapshot st.pending) st

module _ {S : Type 0} where
  unfoldable pub after_final_write :
      PendingStatusUpdate
      → AsyncStatusStore S
      → S × Result StoreError (Unit {0})
      → AsyncStatusStore S × List StatusSyncError
  unfolding delete_pending_if_match reported is_conflict
  after_final_write u st (base, ok a) = (delete_pending_if_match u (record st { base = base }), [])
  after_final_write u st (base, err e) =
      if is_conflict e
      then (reported u e (delete_pending_if_match u (record st { base = base })), [])
      else (record st { base = base }, status_update_error u e ∷ [])

module _ {S F : Type 0} (ops : StoreOps S F) where
  unfoldable pub sync_all_final :
      List PendingStatusUpdate → AsyncStatusStore S → AsyncStatusStore S × List StatusSyncError
  unfolding apply_pending after_final_write
  sync_all_final [] st = (st, [])
  sync_all_final (u ∷ us) st =
      let (st', failed) = after_final_write u st (apply_pending ops u st.base) in
      let (st'', rest) = sync_all_final us st' in (st'', failed ++ rest)

  -- The errors are those that `Close` joins and returns.
  unfoldable pub flush_pending_final :
      AsyncStatusStore S → AsyncStatusStore S × List StatusSyncError
  unfolding sync_all_final pending_snapshot
  flush_pending_final st = sync_all_final (pending_snapshot st.pending) st

  -- `Close`, up to closing the base store: the last flush, at the first call only.
  unfoldable pub close : AsyncStatusStore S → AsyncStatusStore S × List StatusSyncError
  unfolding flush_pending_final
  close st = if st.closed then (st, []) else flush_pending_final (record st { closed = true })
