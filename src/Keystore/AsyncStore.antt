-- ===== src/Keystore/AsyncStore.antt =====
-- internal/keystore/async_store.go: status writes that wait for the base store. The base store is a
-- parameter: `StoreOps` are its methods on a state that holds whatever decides its answers. Pending
-- updates are a map, in the order of a list; Go's order over a map is open.
pub mod Operations
pub mod Replacement
pub mod Worker
pub mod Calls
pub mod OverFile
pub mod Flush
pub mod WellFormed
pub mod Examples
pub mod Interleaving
use Prim.Native.String.{String}
use text.Mathlib.Text.{◌==◌ as str_eq}
use jc_proxy.Prelude.{
  ℕ, ◌+◌, ◌%◌, Bool, true, false, not, ◌&&◌, ◌||◌, Option, none, some, List, [], ◌∷◌, map,
  if◌then◌else◌, ◌==◌,
}
use jc_proxy.Prelude.Int.{ℤ, pos, ◌+ℤ◌, ltb_ℤ, wrap_int64, two_64, Time}
use jc_proxy.Prelude.Result.{Result, ok, err}
use jc_proxy.Prelude.Table.{Table, Entry, lookup, put, remove, keep_if}
use jc_proxy.Prelude.Text.{trim_space, is_empty, append as append_text}
use jc_proxy.Keystore.Status.{key_status_active, normalize_status}
use jc_proxy.Keystore.Record.{Record, normalize_record, normalize_vendor, sort_records}
use jc_proxy.Keystore.FileStore.{StoreError, vendor_required, key_required, store_closed}

-- The interfaces Store and ConditionalStatusStore.
pub record StoreOps (S F : Type 0) : Type 0 where
  pub list_all : S → Result StoreError (Table (List (Record F)))
  pub list : String → S → Result StoreError (List (Record F))
  pub replace : String → List String → S → S × Result StoreError (Unit {0})
  pub append : String → List String → S → S × Result StoreError ℕ
  pub delete : String → List String → S → S × Result StoreError ℕ
  pub set_status : String → String → String → String → String → S → S × Result StoreError (Unit {0})
  pub set_status_if_version :
      String → String → ℤ → String → String → String → S → S × Result StoreError (Unit {0})
  pub delete_vendor : String → S → S × Result StoreError (Unit {0})

pub record PendingStatusUpdate : Type 0 where
  pub id : ℕ
  pub vendor_id : String
  pub key : String
  pub expected_version : ℤ
  pub status : String
  pub reason : String
  pub actor : String
  pub at : Time

-- What `onError` is given; the error's text is not modelled.
pub record StatusSyncError : Type 0 where
  pub vendor_id : String
  pub key : String
  pub cause : StoreError

pub record AsyncStatusStore (S : Type 0) : Type 0 where
  pub base : S
  pub pending : Table PendingStatusUpdate
  pub next_id : ℕ
  pub closed : Bool
  pub errors : List StatusSyncError

unfoldable pub pending_status_key : String → String → String
pending_status_key vendor_id key = append_text vendor_id (append_text "\0" key)

unfoldable pub new_pending_status_update :
    Time → String → String → ℤ → String → String → String → Result StoreError PendingStatusUpdate
unfolding normalize_vendor
new_pending_status_update now vendor raw expected status reason actor =
    let vendor_id = normalize_vendor vendor in
    let key = trim_space raw in
    let update : PendingStatusUpdate = record {
      id = 0;
      vendor_id = vendor_id;
      key = key;
      expected_version = expected;
      status = normalize_status status;
      reason = trim_space reason;
      actor = trim_space actor;
      at = now;
    } in
    if is_empty vendor_id
    then err vendor_required
    else if is_empty key
    then err key_required
    else ok update

unfoldable pub status_update_error : PendingStatusUpdate → StoreError → StatusSyncError
status_update_error u e = record { vendor_id = u.vendor_id; key = u.key; cause = e }

unfoldable pub pending_snapshot : Table PendingStatusUpdate → List PendingStatusUpdate
pending_snapshot [] = []
pending_snapshot (e ∷ es) = e.value ∷ pending_snapshot es

module _ {S : Type 0} where
  unfoldable pub new_async_status_store : S → AsyncStatusStore S
  new_async_status_store base = record {
    base = base;
    pending = [];
    next_id = 0;
    closed = false;
    errors = [];
  }

  -- `s.nextID++; update.id = s.nextID; s.pending[…] = update`.
  unfoldable pub put_pending : PendingStatusUpdate → AsyncStatusStore S → AsyncStatusStore S
  unfolding pending_status_key
  put_pending update st =
      let next = (st.next_id + 1) % two_64 in
      let u : PendingStatusUpdate = record update { id = next } in
      record st {
        next_id = next;
        pending = put st.pending (pending_status_key u.vendor_id u.key) u;
      }

  unfoldable pub enqueued :
      AsyncStatusStore S
      → Result StoreError PendingStatusUpdate
      → AsyncStatusStore S × Result StoreError (Unit {0})
  unfolding put_pending
  enqueued st (err e) = (st, err e)
  enqueued st (ok update) =
      if st.closed then (st, err store_closed) else (put_pending update st, ok tt)

  unfoldable pub set_status_if_version :
      Time
      → String
      → String
      → ℤ
      → String
      → String
      → String
      → AsyncStatusStore S
      → AsyncStatusStore S × Result StoreError (Unit {0})
  unfolding new_pending_status_update enqueued
  set_status_if_version now vendor key expected status reason actor st =
      enqueued st (new_pending_status_update now vendor key expected status reason actor)

  matched :
      PendingStatusUpdate
      → String
      → AsyncStatusStore S
      → Option PendingStatusUpdate
      → AsyncStatusStore S
  matched update key st none = st
  matched update key st (some current) =
      if current.id == update.id then record st { pending = remove st.pending key } else st

  unfoldable pub delete_pending_if_match :
      PendingStatusUpdate → AsyncStatusStore S → AsyncStatusStore S
  unfolding pending_status_key matched
  delete_pending_if_match update st =
      let key = pending_status_key update.vendor_id update.key in
      matched update key st (lookup st.pending key)

  unfoldable pub clear_key_pending : String → String → AsyncStatusStore S → AsyncStatusStore S
  unfolding pending_status_key normalize_vendor
  clear_key_pending vendor key st = record st {
    pending = remove st.pending (pending_status_key (normalize_vendor vendor) (trim_space key));
  }

  unfoldable pub drop_vendor : String → AsyncStatusStore S → AsyncStatusStore S
  drop_vendor vendor_id st = record st {
    pending = keep_if (λ u. not (str_eq u.vendor_id vendor_id)) st.pending;
  }

  unfoldable pub clear_vendor_pending : String → AsyncStatusStore S → AsyncStatusStore S
  unfolding drop_vendor normalize_vendor
  clear_vendor_pending vendor st = drop_vendor (normalize_vendor vendor) st
