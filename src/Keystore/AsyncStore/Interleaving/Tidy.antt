-- ===== src/Keystore/AsyncStore/Interleaving/Tidy.antt =====
-- internal/keystore/async_store.go: the entries of the pending map, from one step to the next.
use Prim.Native.String.{String}
use mathlib.Core.List.{Memᴰ}
use mathlib.Core.Path.{subst}
use jc_proxy.Prelude.{
  if-case, ◌%◌, ℕ, ◌+◌, ◌≤◌, ◌<◌, ◌≡◌, refl, sym, Bool-cases, inl, inr, arith, List, [], ◌∷◌,
  Option, none, some, ◌==◌, length,
}
use jc_proxy.Prelude.Int.{two_64}
use jc_proxy.Prelude.Result.{Result, ok, err}
use jc_proxy.Prelude.Table.{Entry, put, remove}
use jc_proxy.Prelude.Table.Unique.{Unique, remove-Unique, put-Unique, keep_if-Unique}
use jc_proxy.Prelude.Table.Members.{uncons, Memᴰ-remove, Memᴰ-keep_if}
use jc_proxy.Keystore.Record.{Record, find_record}
use jc_proxy.Keystore.FileStore.{StoreError, store_closed}
use jc_proxy.Keystore.AsyncStore.{
  StoreOps, PendingStatusUpdate, AsyncStatusStore, set_status_if_version, enqueued, put_pending,
  pending_status_key, drop_vendor, clear_key_pending, clear_vendor_pending, delete_pending_if_match,
  matched,
}
use jc_proxy.Keystore.AsyncStore.Replacement.{
  requeue, requeue_one, indexed, pending_update_reflected,
}
use jc_proxy.Keystore.AsyncStore.Worker.{after_write, reported, is_conflict}
use jc_proxy.Keystore.AsyncStore.Interleaving.{
  Running, Event, enqueue, clear_key, clear_vendor, requeue_vendor, change_base, begin_flush,
  write_next, settle_next, step, cost, costs, run, write_head, settle_head,
}
use jc_proxy.Keystore.AsyncStore.Interleaving.Numbers.{step-Advances, requeue_one-Advances}

-- `Q` is what the updates that are pending have, as do all that are numbered above `m`.
module _ {S : Type 0} (m : ℕ) (Q : PendingStatusUpdate → Type 0)
    (newer : (u : PendingStatusUpdate) → m < u.id → Q u) where
  -- Each update stands once, under its own key.
  pub record Tidy (st : AsyncStatusStore S) : Type 0 where
    pub unique : Unique st.pending
    pub each :
        (e : Entry PendingStatusUpdate)
        → Memᴰ e st.pending
        → (e.name ≡ pending_status_key e.value.vendor_id e.value.key) × Q e.value
    pub later : m ≤ st.next_id

  put_pending-Tidy :
      (u : PendingStatusUpdate) (st : AsyncStatusStore S)
      → st.next_id + 1 < two_64
      → Tidy st
      → Tidy (put_pending u st)
  unfolding put_pending put
  put_pending-Tidy u st fits w =
      let key = pending_status_key u.vendor_id u.key in
      let next : st.next_id + 1 ≡ (st.next_id + 1) % two_64 = ground arith in
      let u' : PendingStatusUpdate = record u { id = (st.next_id + 1) % two_64 } in
      record {
        unique = put-Unique st.pending key u' w.unique;
        each = λ e n.
            elim (uncons e (record { name = key; value = u' }) (remove st.pending key) n) [
              | inl q ↦
                  subst
                    (λ (x : Entry PendingStatusUpdate).
                      (x.name ≡ pending_status_key x.value.vendor_id x.value.key) × Q x.value)
                    (sym q) (refl, newer u' (ground (arith, w.later)))
              | inr n' ↦ w.each e (Memᴰ-remove st.pending key e n').0
            ];
        later = ground (arith, w.later);
      }

  remove-Tidy :
      (k : String) (st : AsyncStatusStore S)
      → Tidy st
      → Tidy (record st { pending = remove st.pending k })
  remove-Tidy k st w = record {
    unique = remove-Unique st.pending k w.unique;
    each = λ e n. w.each e (Memᴰ-remove st.pending k e n).0;
    later = w.later;
  }

  drop_vendor-Tidy : (v : String) (st : AsyncStatusStore S) → Tidy st → Tidy (drop_vendor v st)
  unfolding drop_vendor
  drop_vendor-Tidy v st w = record {
    unique = keep_if-Unique _ st.pending w.unique;
    each = λ e n. w.each e (Memᴰ-keep_if _ st.pending e n);
    later = w.later;
  }

  rebased-Tidy : (base : S) (st : AsyncStatusStore S) → Tidy st → Tidy (record st { base = base })
  rebased-Tidy base st w = record { unique = w.unique; each = w.each; later = w.later }

  reported-Tidy :
      (u : PendingStatusUpdate) (e : StoreError) (st : AsyncStatusStore S)
      → Tidy st
      → Tidy (reported u e st)
  unfolding reported
  reported-Tidy u e st w = record { unique = w.unique; each = w.each; later = w.later }

  matched-Tidy :
      (u : PendingStatusUpdate) (key : String) (st : AsyncStatusStore S)
      (o : Option PendingStatusUpdate)
      → Tidy st
      → Tidy (matched u key st o)
  unfolding matched
  matched-Tidy u key st none w = w
  matched-Tidy u key st (some c) w = elim (Bool-cases (c.id == u.id)) [
    | inl e ↦ rw e (remove-Tidy key st w)
    | inr e ↦ rw e w
  ]

  pub after_write-Tidy :
      (u : PendingStatusUpdate) (st : AsyncStatusStore S) (out : S × Result StoreError (Unit {0}))
      → Tidy st
      → Tidy (after_write u st out).0
  unfolding after_write delete_pending_if_match
  after_write-Tidy u st (base, ok a) w =
      matched-Tidy u _ (record st { base = base }) _ (rebased-Tidy base st w)
  after_write-Tidy u st (base, err e) w = elim (Bool-cases (is_conflict e)) [
    | inl c ↦ rw c (
        reported-Tidy u e _
          (matched-Tidy u _ (record st { base = base }) _ (rebased-Tidy base st w)))
    | inr c ↦ rw c (reported-Tidy u e _ (rebased-Tidy base st w))
  ]

  enqueued-Tidy :
      (st : AsyncStatusStore S) (r : Result StoreError PendingStatusUpdate)
      → st.next_id + 1 < two_64
      → Tidy st
      → Tidy (enqueued st r).0
  unfolding enqueued
  enqueued-Tidy st (err e) fits w = w
  enqueued-Tidy st (ok u) fits w =
      if-case (λ (o : AsyncStatusStore S × Result StoreError (Unit {0})). Tidy o.0) st.closed
        (st, err store_closed) (put_pending u st, ok tt) w (put_pending-Tidy u st fits w)

module _ {S F : Type 0} (m : ℕ) (Q : PendingStatusUpdate → Type 0)
    (newer : (u : PendingStatusUpdate) → m < u.id → Q u) where
  requeue_one-Tidy :
      (u : PendingStatusUpdate) (o : Option (Record F)) (st : AsyncStatusStore S)
      → st.next_id + 1 < two_64
      → Tidy m Q newer st
      → Tidy m Q newer (requeue_one u o st)
  unfolding requeue_one
  requeue_one-Tidy u none st fits w = w
  requeue_one-Tidy u (some r) st fits w = elim (Bool-cases (pending_update_reflected r u)) [
    | inl e ↦ rw e w
    | inr e ↦
        let again : PendingStatusUpdate = record u { expected_version = r.version } in
        rw e (put_pending-Tidy m Q newer again st fits w)
  ]

  requeue-Tidy :
      (rs : List (Record F)) (us : List PendingStatusUpdate) (st : AsyncStatusStore S)
      → st.next_id + length us < two_64
      → Tidy m Q newer st
      → Tidy m Q newer (requeue rs us st)
  unfolding requeue
  requeue-Tidy rs [] st fits w = w
  requeue-Tidy rs (u ∷ us) st fits w =
      let o = find_record u.key (indexed rs) in
      let (l, bound, f) = requeue_one-Advances u o st (omega arith) in
      requeue-Tidy rs us (requeue_one u o st) (omega arith)
        (requeue_one-Tidy u o st (omega arith) w)

module _ {S F : Type 0} (ops : StoreOps S F) (m : ℕ) (Q : PendingStatusUpdate → Type 0)
    (newer : (u : PendingStatusUpdate) → m < u.id → Q u) where
  write_head-Tidy :
      (us : List PendingStatusUpdate) (o : Option (Result StoreError (Unit {0})))
      (st : AsyncStatusStore S)
      → Tidy m Q newer st
      → Tidy m Q newer (write_head ops us o st).store
  unfolding write_head
  write_head-Tidy [] o st w = w
  write_head-Tidy (u ∷ us) none st w = rebased-Tidy m Q newer _ st w
  write_head-Tidy (u ∷ us) (some a) st w = w

  settle_head-Tidy :
      (us : List PendingStatusUpdate) (o : Option (Result StoreError (Unit {0})))
      (st : AsyncStatusStore S)
      → Tidy m Q newer st
      → Tidy m Q newer (settle_head ops us o st).store
  unfolding settle_head
  settle_head-Tidy [] o st w = w
  settle_head-Tidy (u ∷ us) none st w = w
  settle_head-Tidy (u ∷ us) (some a) st w = after_write-Tidy m Q newer u st (st.base, a) w

  pub step-Tidy :
      (e : Event S F) (r : Running S)
      → r.store.next_id + cost e < two_64
      → Tidy m Q newer r.store
      → Tidy m Q newer (step ops e r).store
  unfolding step set_status_if_version clear_key_pending clear_vendor_pending
  step-Tidy (enqueue now v k n s why who) r fits w = enqueued-Tidy m Q newer r.store _ fits w
  step-Tidy (clear_key v k) r fits w = remove-Tidy m Q newer _ r.store w
  step-Tidy (clear_vendor v) r fits w = drop_vendor-Tidy m Q newer _ r.store w
  step-Tidy (requeue_vendor v rs carried) r fits w =
      requeue-Tidy m Q newer rs carried (drop_vendor v r.store) fits
        (drop_vendor-Tidy m Q newer v r.store w)
  step-Tidy (change_base f) r fits w = rebased-Tidy m Q newer _ r.store w
  step-Tidy begin_flush r fits w = w
  step-Tidy write_next r fits w = write_head-Tidy r.flushing r.written r.store w
  step-Tidy settle_next r fits w = settle_head-Tidy r.flushing r.written r.store w

  pub run-Tidy :
      (es : List (Event S F)) (r : Running S)
      → r.store.next_id + costs es < two_64
      → Tidy m Q newer r.store
      → Tidy m Q newer (run ops es r).store
  unfolding run
  run-Tidy [] r fits w = w
  run-Tidy (e ∷ es) r fits w =
      let (l, bound, f) = step-Advances ops e r (omega arith) in
      run-Tidy es (step ops e r) (omega arith) (step-Tidy e r (omega arith) w)
