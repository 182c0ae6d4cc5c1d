-- ===== src/Keystore/AsyncStore/Interleaving.antt =====
-- internal/keystore/async_store.go: clients and the worker, step by step. A step is what stands under
-- one lock: the worker takes a snapshot, then writes and settles its updates one by one, and calls
-- of clients come in between, also between the write of an update and its settling. A call of a
-- client that changes the base store and then takes pending updates off is two steps.
pub mod Kept
pub mod Newest
pub mod Numbers
pub mod Tidy
pub mod Flushed
use Prim.Native.String.{String}
use text.Mathlib.Text.{◌==◌ as str_eq}
use jc_proxy.Prelude.{
  Bool, ◌%◌, ℕ, ◌+◌, ◌≤◌, ◌<◌, ◌≡◌, ◌≢◌, refl, sym, ap, ◌∙◌, Bool-cases, true, false, inl, inr,
  arith, List, [], ◌∷◌, Option, none, some, ◌==◌, length,
}
use jc_proxy.Prelude.Int.{ℤ, Time, two_64}
use jc_proxy.Prelude.Result.{Result, ok, err}
use jc_proxy.Prelude.Table.{Table, Entry, lookup, put, remove, keep_if}
use jc_proxy.Keystore.Record.{Record}
use jc_proxy.Keystore.FileStore.{StoreError}
use jc_proxy.Keystore.AsyncStore.{
  StoreOps, PendingStatusUpdate, AsyncStatusStore, new_async_status_store, set_status_if_version,
  enqueued, put_pending, drop_vendor, clear_key_pending, clear_vendor_pending, pending_snapshot,
  delete_pending_if_match, matched, new_pending_status_update,
}
use jc_proxy.Keystore.AsyncStore.Replacement.{requeue, requeue_one}
use jc_proxy.Keystore.AsyncStore.Worker.{
  sync_one, after_write, reported, apply_pending, is_conflict,
}

-- The store, the updates of the worker's snapshot that it has still to settle, and what the base
-- store answered to the write of the first of them, if it is written.
pub record Running (S : Type 0) : Type 0 where
  pub store : AsyncStatusStore S
  pub flushing : List PendingStatusUpdate
  pub written : Option (Result StoreError (Unit {0}))

pub data Event (S F : Type 0) : Type 0 where
  enqueue : Time → String → String → ℤ → String → String → String → Event S F
  clear_key : String → String → Event S F
  clear_vendor : String → Event S F
  requeue_vendor : String → List (Record F) → List PendingStatusUpdate → Event S F
  change_base : (S → S) → Event S F
  begin_flush write_next settle_next : Event S F

module _ {S F : Type 0} (ops : StoreOps S F) where
  write_head :
      List PendingStatusUpdate
      → Option (Result StoreError (Unit {0}))
      → AsyncStatusStore S
      → Running S
  unfolding apply_pending
  write_head [] answer st = record { store = st; flushing = []; written = answer }
  write_head (u ∷ us) (some answer) st = record {
    store = st;
    flushing = u ∷ us;
    written = some answer;
  }
  write_head (u ∷ us) none st =
      let out = apply_pending ops u st.base in
      record { store = record st { base = out.0 }; flushing = u ∷ us; written = some out.1 }

  settle_head :
      List PendingStatusUpdate
      → Option (Result StoreError (Unit {0}))
      → AsyncStatusStore S
      → Running S
  unfolding after_write
  settle_head [] answer st = record { store = st; flushing = []; written = answer }
  settle_head (u ∷ us) none st = record { store = st; flushing = u ∷ us; written = none }
  settle_head (u ∷ us) (some answer) st = record {
    store = (after_write u st (st.base, answer)).0;
    flushing = us;
    written = none;
  }

  unfoldable pub step : Event S F → Running S → Running S
  unfolding write_head settle_head
  step (enqueue now v k n s why who) r = record r {
    store = (set_status_if_version now v k n s why who r.store).0;
  }
  step (clear_key v k) r = record r { store = clear_key_pending v k r.store }
  step (clear_vendor v) r = record r { store = clear_vendor_pending v r.store }
  step (requeue_vendor v rs carried) r = record r {
    store = requeue rs carried (drop_vendor v r.store);
  }
  step (change_base f) r = let st = r.store in record r { store = record st { base = f st.base } }
  step begin_flush r =
      let st = r.store in
      record { store = st; flushing = pending_snapshot st.pending; written = none }
  step write_next r = write_head r.flushing r.written r.store
  step settle_next r = settle_head r.flushing r.written r.store

  unfoldable pub run : List (Event S F) → Running S → Running S
  run [] r = r
  run (e ∷ es) r = run es (step e r)

module _ {S F : Type 0} where
  -- How many updates a step may number anew.
  abbrev pub cost : Event S F → ℕ
  cost (enqueue now v k n s why who) = 1
  cost (requeue_vendor v rs carried) = length carried
  cost _ = 0

  abbrev pub costs : List (Event S F) → ℕ
  costs [] = 0
  costs (e ∷ es) = cost e + costs es

module _ {S : Type 0} where
  abbrev pub started : S → Running S
  started base = record { store = new_async_status_store base; flushing = []; written = none }
