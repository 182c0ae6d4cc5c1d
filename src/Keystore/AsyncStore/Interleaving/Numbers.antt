-- ===== src/Keystore/AsyncStore/Interleaving/Numbers.antt =====
-- The numbers that the store gives to pending updates.
use Prim.Native.String.{String}
use text.Mathlib.Text.{◌==◌ as str_eq}
use jc_proxy.Prelude.{
  Bool, ◌%◌, ℕ, ◌+◌, ◌≤◌, ◌<◌, ◌≡◌, Bool-cases, inl, inr, arith, List, [], ◌∷◌, Option, none, some,
  ◌==◌, length,
}
use jc_proxy.Prelude.Int.{two_64}
use jc_proxy.Prelude.Result.{Result, ok, err}
use jc_proxy.Prelude.Table.{Table, lookup, put, remove, keep_if}
use jc_proxy.Keystore.Record.{Record, find_record}
use jc_proxy.Keystore.AsyncStore.{
  StoreOps, PendingStatusUpdate, AsyncStatusStore, set_status_if_version, enqueued, put_pending,
  pending_status_key, drop_vendor, clear_key_pending, clear_vendor_pending, pending_snapshot,
  delete_pending_if_match, matched,
}
use jc_proxy.Keystore.AsyncStore.Replacement.{
  requeue, requeue_one, indexed, pending_update_reflected,
}
use jc_proxy.Keystore.AsyncStore.Worker.{after_write, reported, is_conflict}
use jc_proxy.Keystore.FileStore.{StoreError}
use mathlib.Core.Path.{subst}
use jc_proxy.Keystore.AsyncStore.Interleaving.{
  Running, Event, enqueue, clear_key, clear_vendor, requeue_vendor, change_base, begin_flush,
  write_next, settle_next, step, write_head, settle_head, run, cost, costs,
}

-- The numbers of the updates are at most `n`.
abbrev Below : ℕ → Table PendingStatusUpdate → Type 0
Below n [] = Unit
Below n (e ∷ es) = (e.value.id ≤ n) × Below n es

abbrev pub AllBelow : ℕ → List PendingStatusUpdate → Type 0
AllBelow n [] = Unit
AllBelow n (u ∷ us) = (u.id ≤ n) × AllBelow n us

Below-mono : (m n : ℕ) (t : Table PendingStatusUpdate) → m ≤ n → Below m t → Below n t
Below-mono m n [] h b = tt
Below-mono m n (e ∷ es) h (b, bs) = (omega arith, Below-mono m n es h bs)

AllBelow-mono : (m n : ℕ) (us : List PendingStatusUpdate) → m ≤ n → AllBelow m us → AllBelow n us
AllBelow-mono m n [] h b = tt
AllBelow-mono m n (u ∷ us) h (b, bs) = (omega arith, AllBelow-mono m n us h bs)

Below-snapshot :
    (n : ℕ) (t : Table PendingStatusUpdate) → Below n t → AllBelow n (pending_snapshot t)
unfolding pending_snapshot
Below-snapshot n [] b = tt
Below-snapshot n (e ∷ es) (b, bs) = (b, Below-snapshot n es bs)

remove-Below :
    (n : ℕ) (t : Table PendingStatusUpdate) (k : String) → Below n t → Below n (remove t k)
unfolding remove
remove-Below n [] k b = tt
remove-Below n (e ∷ es) k (b, bs) = elim (Bool-cases (str_eq e.name k)) [
  | inl h ↦ rw h (remove-Below n es k bs)
  | inr h ↦ rw h ((b, remove-Below n es k bs))
]

keep_if-Below :
    (n : ℕ) (keep : PendingStatusUpdate → Bool) (t : Table PendingStatusUpdate)
    → Below n t
    → Below n (keep_if keep t)
unfolding keep_if
keep_if-Below n keep [] b = tt
keep_if-Below n keep (e ∷ es) (b, bs) = elim (Bool-cases (keep e.value)) [
  | inl h ↦ rw h ((b, keep_if-Below n keep es bs))
  | inr h ↦ rw h (keep_if-Below n keep es bs)
]

module _ {S : Type 0} where
  -- No update has a number that is still to come, in the map and in the worker's snapshot.
  pub record Numbered (r : Running S) : Type 0 where
    pub pending : Below r.store.next_id r.store.pending
    pub flushing : AllBelow r.store.next_id r.flushing

  -- From one store to the next: the numbers used stay below `next_id`, which grows by `c` at most.
  abbrev Advances : ℕ → AsyncStatusStore S → AsyncStatusStore S → Type 0
  Advances c st st' =
      (st.next_id ≤ st'.next_id)
      × (st'.next_id ≤ st.next_id + c)
      × (Below st.next_id st.pending → Below st'.next_id st'.pending)

  put_pending-Advances :
      (u : PendingStatusUpdate) (st : AsyncStatusStore S)
      → st.next_id + 1 < two_64
      → Advances 1 st (put_pending u st)
  unfolding put_pending put
  put_pending-Advances u st h =
      let key = pending_status_key u.vendor_id u.key in
      let fits : st.next_id + 1 ≡ (st.next_id + 1) % two_64 = ground arith in
      let Goal : ℕ → Type 0 = λ n.
        (st.next_id ≤ n)
        × (n ≤ st.next_id + 1)
        × (Below st.next_id st.pending → (n ≤ n) × Below n (remove st.pending key)) in
      let later : Below st.next_id st.pending → Below (st.next_id + 1) st.pending =
        Below-mono st.next_id (st.next_id + 1) st.pending (omega arith) in
      subst Goal fits (
        (
          omega arith,
          omega arith,
          λ b. (omega arith, remove-Below (st.next_id + 1) st.pending key (later b)),
        ))

  stays : (st : AsyncStatusStore S) → Advances 0 st st
  stays st = (omega arith, omega arith, λ b. b)

  matched-Advances :
      (u : PendingStatusUpdate) (key : String) (st : AsyncStatusStore S)
      (o : Option PendingStatusUpdate)
      → Advances 0 st (matched u key st o)
  unfolding matched
  matched-Advances u key st none = stays st
  matched-Advances u key st (some v) = elim (Bool-cases (v.id == u.id)) [
    | inl e ↦ rw e ((omega arith, omega arith, λ b. remove-Below st.next_id st.pending key b))
    | inr e ↦ rw e (stays st)
  ]

  -- What the worker keeps from one of its writes to the next.
  after_write-Advances :
      (u : PendingStatusUpdate) (st : AsyncStatusStore S) (out : S × Result StoreError (Unit {0}))
      → Advances 0 st (after_write u st out).0
  unfolding after_write delete_pending_if_match reported
  after_write-Advances u st (base, ok a) =
      matched-Advances u _ (record st { base = base }) (lookup st.pending _)
  after_write-Advances u st (base, err e) = elim (Bool-cases (is_conflict e)) [
    | inl c ↦ rw c (matched-Advances u _ (record st { base = base }) (lookup st.pending _))
    | inr c ↦ rw c (stays st)
  ]

  enqueue-Advances :
      (st : AsyncStatusStore S) (r : Result StoreError PendingStatusUpdate)
      → st.next_id + 1 < two_64
      → Advances 1 st (enqueued st r).0
  unfolding enqueued
  enqueue-Advances st (err e) h = (omega arith, omega arith, λ b. b)
  enqueue-Advances st (ok u) h = elim (Bool-cases st.closed) [
    | inl c ↦ rw c ((omega arith, omega arith, λ b. b))
    | inr c ↦ rw c (put_pending-Advances u st h)
  ]

module _ {S F : Type 0} where
  pub requeue_one-Advances :
      (u : PendingStatusUpdate) (o : Option (Record F)) (st : AsyncStatusStore S)
      → st.next_id + 1 < two_64
      → Advances 1 st (requeue_one u o st)
  unfolding requeue_one
  requeue_one-Advances u none st h = (omega arith, omega arith, λ b. b)
  requeue_one-Advances u (some r) st h = elim (Bool-cases (pending_update_reflected r u)) [
    | inl e ↦ rw e ((omega arith, omega arith, λ b. b))
    | inr e ↦
        let again : PendingStatusUpdate = record u { expected_version = r.version } in
        rw e (put_pending-Advances again st h)
  ]

  requeue-Advances :
      (rs : List (Record F)) (us : List PendingStatusUpdate) (st : AsyncStatusStore S)
      → st.next_id + length us < two_64
      → Advances (length us) st (requeue rs us st)
  unfolding requeue
  requeue-Advances rs [] st h = stays st
  requeue-Advances rs (u ∷ us) st h =
      let st' = requeue_one u (find_record u.key (indexed rs)) st in
      let (l, m, f) = requeue_one-Advances u (find_record u.key (indexed rs)) st (omega arith) in
      let (l', m', g) = requeue-Advances rs us st' (omega arith) in
      (omega arith, omega arith, λ b. g (f b))

module _ {S F : Type 0} (ops : StoreOps S F) where
  write_head-Advances :
      (us : List PendingStatusUpdate) (o : Option (Result StoreError (Unit {0})))
      (st : AsyncStatusStore S)
      → Advances 0 st (write_head ops us o st).store
  unfolding write_head
  write_head-Advances [] o st = stays st
  write_head-Advances (u ∷ us) none st = stays st
  write_head-Advances (u ∷ us) (some a) st = stays st

  settle_head-Advances :
      (us : List PendingStatusUpdate) (o : Option (Result StoreError (Unit {0})))
      (st : AsyncStatusStore S)
      → Advances 0 st (settle_head ops us o st).store
  unfolding settle_head
  settle_head-Advances [] o st = stays st
  settle_head-Advances (u ∷ us) none st = stays st
  settle_head-Advances (u ∷ us) (some a) st = after_write-Advances u st (st.base, a)

  pub step-Advances :
      (e : Event S F) (r : Running S)
      → r.store.next_id + cost e < two_64
      → Advances (cost e) r.store (step ops e r).store
  unfolding step set_status_if_version clear_key_pending clear_vendor_pending drop_vendor
  step-Advances (enqueue now v k n s why who) r h = enqueue-Advances r.store _ h
  step-Advances (clear_key v k) r h = (omega arith, omega arith, λ b. remove-Below _ _ _ b)
  step-Advances (clear_vendor v) r h = (omega arith, omega arith, λ b. keep_if-Below _ _ _ b)
  step-Advances (requeue_vendor v rs carried) r h =
      let st = drop_vendor v r.store in
      let (l, m, f) = requeue-Advances rs carried st h in (l, m, λ b. f (keep_if-Below _ _ _ b))
  step-Advances (change_base f) r h = (omega arith, omega arith, λ b. b)
  step-Advances begin_flush r h = (omega arith, omega arith, λ b. b)
  step-Advances write_next r h = write_head-Advances r.flushing r.written r.store
  step-Advances settle_next r h = settle_head-Advances r.flushing r.written r.store

  write_head-flushing :
      (n : ℕ) (us : List PendingStatusUpdate) (o : Option (Result StoreError (Unit {0})))
      (st : AsyncStatusStore S)
      → AllBelow n us
      → AllBelow n (write_head ops us o st).flushing
  unfolding write_head
  write_head-flushing n [] o st b = tt
  write_head-flushing n (u ∷ us) none st b = b
  write_head-flushing n (u ∷ us) (some a) st b = b

  settle_head-flushing :
      (n : ℕ) (us : List PendingStatusUpdate) (o : Option (Result StoreError (Unit {0})))
      (st : AsyncStatusStore S)
      → AllBelow n us
      → AllBelow n (settle_head ops us o st).flushing
  unfolding settle_head
  settle_head-flushing n [] o st b = tt
  settle_head-flushing n (u ∷ us) none st b = b
  settle_head-flushing n (u ∷ us) (some a) st (b, bs) = bs

  step-flushing :
      (e : Event S F) (r : Running S)
      → Numbered r
      → AllBelow r.store.next_id (step ops e r).flushing
  unfolding step
  step-flushing (enqueue now v k n s why who) r w = w.flushing
  step-flushing (clear_key v k) r w = w.flushing
  step-flushing (clear_vendor v) r w = w.flushing
  step-flushing (requeue_vendor v rs carried) r w = w.flushing
  step-flushing (change_base f) r w = w.flushing
  step-flushing begin_flush r w = Below-snapshot _ _ w.pending
  step-flushing write_next r w =
      write_head-flushing r.store.next_id r.flushing r.written r.store w.flushing
  step-flushing settle_next r w =
      settle_head-flushing r.store.next_id r.flushing r.written r.store w.flushing

  -- From a numbered state, steps that number less than 2^64 updates lead to a numbered state.
  pub run-Numbered :
      (es : List (Event S F)) (r : Running S)
      → Numbered r
      → r.store.next_id + costs es < two_64
      → Numbered (run ops es r) × ((run ops es r).store.next_id ≤ r.store.next_id + costs es)
  unfolding run
  run-Numbered [] r w h = (w, omega arith)
  run-Numbered (e ∷ es) r w h =
      let (l, m, f) = step-Advances e r (omega arith) in
      let w' : Numbered (step ops e r) = record {
        pending = f w.pending;
        flushing =
            AllBelow-mono r.store.next_id (step ops e r).store.next_id _ l (step-flushing e r w);
      } in
      let (w'', bound) = run-Numbered es (step ops e r) w' (omega arith) in (w'', omega arith)
