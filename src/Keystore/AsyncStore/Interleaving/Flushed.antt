-- ===== src/Keystore/AsyncStore/Interleaving/Flushed.antt =====
-- internal/keystore/async_store.go: a flush of the worker, with calls of clients between its writes.
use Prim.Native.String.{String}
use mathlib.Core.List.{Memᴰ}
use mathlib.Core.Path.{subst}
use jc_proxy.Prelude.{
  Bool, true, false, ◌&&◌, ℕ, ◌+◌, ◌<◌, ◌≡◌, ◌≢◌, ◌⊎◌, refl, sym, ap, ◌∙◌, Bool-cases, inl, inr,
  arith, List, [], ◌∷◌, Option, none, some, ◌==◌, some_inj,
}
use jc_proxy.Prelude.Int.{two_64}
use jc_proxy.Prelude.Result.{Result, ok, err}
use jc_proxy.Prelude.Table.{Entry, Table, lookup, remove, str_eq_refl}
use jc_proxy.Prelude.Table.Unique.{Unique, remove-Unique}
use jc_proxy.Prelude.Table.Members.{uncons, Memᴰ-remove, lookup-Memᴰ, lookup-each}
use jc_proxy.Keystore.FileStore.{StoreError}
use jc_proxy.Keystore.AsyncStore.{
  StoreOps, PendingStatusUpdate, AsyncStatusStore, new_async_status_store, pending_status_key,
  pending_snapshot, delete_pending_if_match, matched,
}
use jc_proxy.Keystore.AsyncStore.Worker.{after_write, reported, is_conflict}
use jc_proxy.Keystore.AsyncStore.Interleaving.{
  Running, Event, enqueue, clear_key, clear_vendor, requeue_vendor, change_base, begin_flush,
  write_next, settle_next, step, write_head, settle_head, run, cost, costs, started,
}
use jc_proxy.Keystore.AsyncStore.Interleaving.Numbers.{Numbered, run-Numbered, step-Advances}
use jc_proxy.Keystore.AsyncStore.Interleaving.Tidy.{Tidy, step-Tidy, run-Tidy}

-- The update is numbered after `m`, or is one that the worker has still to write.
abbrev pub Awaited : ℕ → List PendingStatusUpdate → PendingStatusUpdate → Type 0
Awaited m us u = (m < u.id) ⊎ Memᴰ u us

abbrev newer :
    (m : ℕ) (us : List PendingStatusUpdate) (u : PendingStatusUpdate) → m < u.id → Awaited m us u
newer m us u h = inl h

narrow :
    (m : ℕ) (h : PendingStatusUpdate) (us : List PendingStatusUpdate) (u : PendingStatusUpdate)
    → u ≢ h
    → Awaited m (h ∷ us) u
    → Awaited m us u
narrow m h us u n (inl l) = inl l
narrow m h us u n (inr a) = elim (uncons u h us a) [ inl q ↦ absurd (n q) | inr b ↦ inr b ]

Memᴰ-snapshot :
    (t : Table PendingStatusUpdate) (e : Entry PendingStatusUpdate)
    → Memᴰ e t
    → Memᴰ e.value (pending_snapshot t)
unfolding pending_snapshot
Memᴰ-snapshot [] e n = elim n [ ]
Memᴰ-snapshot (x ∷ xs) e (Memᴰ.head q) =
    Memᴰ.head (ap (λ (y : Entry PendingStatusUpdate). y.value) q)
Memᴰ-snapshot (x ∷ xs) e (Memᴰ.tail n) = Memᴰ.tail (Memᴰ-snapshot xs e n)

ended : (m : ℕ) (u : PendingStatusUpdate) → Awaited m [] u → m < u.id
ended m u (inl l) = l
ended m u (inr n) = elim n [ ]

module _ {S : Type 0} (m : ℕ) where
  -- What is pending is numbered after `m`, or is among `us`.
  abbrev Flushing : List PendingStatusUpdate → AsyncStatusStore S → Type 0
  Flushing us st = Tidy m (Awaited m us) (newer m us) st

  narrowed :
      (h : PendingStatusUpdate) (us : List PendingStatusUpdate) (st : AsyncStatusStore S)
      → ((e : Entry PendingStatusUpdate) → Memᴰ e st.pending → e.value ≢ h)
      → Flushing (h ∷ us) st
      → Flushing us st
  narrowed h us st gone w = record {
    unique = w.unique;
    each = λ e n. let (name, q) = w.each e n in (name, narrow m h us e.value (gone e n) q);
    later = w.later;
  }

  found_at :
      (h : PendingStatusUpdate) (us : List PendingStatusUpdate) (st : AsyncStatusStore S)
      (e : Entry PendingStatusUpdate)
      → Flushing us st
      → Memᴰ e st.pending
      → e.value ≡ h
      → lookup st.pending (pending_status_key h.vendor_id h.key) ≡ some h
  found_at h us st e w n same =
      subst
        (λ (u : PendingStatusUpdate).
          lookup st.pending (pending_status_key u.vendor_id u.key) ≡ some u)
        same (ap (lookup st.pending) (sym (w.each e n).0) ∙ lookup-Memᴰ st.pending e w.unique n)

  matched-Flushing :
      (h : PendingStatusUpdate) (us : List PendingStatusUpdate) (st : AsyncStatusStore S)
      (o : Option PendingStatusUpdate)
      → lookup st.pending (pending_status_key h.vendor_id h.key) ≡ o
      → Flushing (h ∷ us) st
      → Flushing us (matched h (pending_status_key h.vendor_id h.key) st o)
  unfolding matched
  matched-Flushing h us st none at w =
      narrowed h us st
        (λ e n same. let there = found_at h (h ∷ us) st e w n same in absurd (ground arith)) w
  matched-Flushing h us st (some c) at w = elim (Bool-cases (c.id == h.id)) [
    | inl g ↦
        let key = pending_status_key h.vendor_id h.key in
        let cut : AsyncStatusStore S = record st { pending = remove st.pending key } in
        let left : Flushing (h ∷ us) cut = record {
          unique = remove-Unique st.pending key w.unique;
          each = λ e n. w.each e (Memᴰ-remove st.pending key e n).0;
          later = w.later;
        } in
        rw g (
          narrowed h us cut
            (λ e n same.
              let (there, other) = Memᴰ-remove st.pending key e n in
              let name : e.name ≡ key =
                (w.each e there).0
                ∙ ap (λ (u : PendingStatusUpdate). pending_status_key u.vendor_id u.key) same in
              absurd (cc (str_eq_refl key, name, other)))
            left)
    | inr g ↦ rw g (
        narrowed h us st
          (λ e n same.
            let there = found_at h (h ∷ us) st e w n same in
            let ids : c.id ≡ h.id =
              ap (λ (u : PendingStatusUpdate). u.id) (some_inj (sym at ∙ there)) in
            absurd (ground arith))
          w)
  ]

  rebased-Flushing :
      (us : List PendingStatusUpdate) (st : AsyncStatusStore S) (base : S)
      → Flushing us st
      → Flushing us (record st { base = base })
  rebased-Flushing us st base w = record { unique = w.unique; each = w.each; later = w.later }

  reported-Flushing :
      (us : List PendingStatusUpdate) (u : PendingStatusUpdate) (e : StoreError)
      (st : AsyncStatusStore S)
      → Flushing us st
      → Flushing us (reported u e st)
  unfolding reported
  reported-Flushing us u e st w = record { unique = w.unique; each = w.each; later = w.later }

  after_write-Flushing :
      (h : PendingStatusUpdate) (us : List PendingStatusUpdate) (st : AsyncStatusStore S)
      (out : S × Result StoreError (Unit {0}))
      → (after_write h st out).1 ≡ true
      → Flushing (h ∷ us) st
      → Flushing us (after_write h st out).0
  unfolding after_write delete_pending_if_match
  after_write-Flushing h us st (base, ok a) d w =
      matched-Flushing h us (record st { base = base }) _ refl (rebased-Flushing (h ∷ us) st base w)
  after_write-Flushing h us st (base, err e) d w = elim (Bool-cases (is_conflict e)) [
    | inl c ↦ rw c (
        reported-Flushing us h e _ (
          matched-Flushing h us (record st { base = base }) _ refl
            (rebased-Flushing (h ∷ us) st base w)))
    | inr c ↦ absurd (ground arith)
  ]

module _ {S F : Type 0} (ops : StoreOps S F) where
  head_result :
      List PendingStatusUpdate → Option (Result StoreError (Unit {0})) → AsyncStatusStore S → Bool
  unfolding after_write
  head_result [] o st = true
  head_result (u ∷ us) none st = true
  head_result (u ∷ us) (some a) st = (after_write u st (st.base, a)).1

  write_result : Event S F → Running S → Bool
  unfolding head_result
  write_result settle_next r = head_result r.flushing r.written r.store
  write_result _ r = true

  -- What a flush returns whose writes are among these steps.
  unfoldable pub flush_result : List (Event S F) → Running S → Bool
  unfolding write_result step
  flush_result [] r = true
  flush_result (e ∷ es) r = write_result e r && flush_result es (step ops e r)

  -- The worker begins no other flush.
  abbrev pub SameFlush : List (Event S F) → Type 0
  SameFlush [] = Unit
  SameFlush (begin_flush ∷ es) = ⊥
  SameFlush (e ∷ es) = SameFlush es

and-true : (a b : Bool) → (a && b) ≡ true → (a ≡ true) × (b ≡ true)
and-true true b h = (refl, h)
and-true false b h = absurd (ground arith)

module _ {S F : Type 0} (ops : StoreOps S F) (m : ℕ) where
  abbrev InFlush : Running S → Type 0
  InFlush r = Flushing m r.flushing r.store

  write_head-InFlush :
      (us : List PendingStatusUpdate) (o : Option (Result StoreError (Unit {0})))
      (st : AsyncStatusStore S)
      → Flushing m us st
      → InFlush (write_head ops us o st)
  unfolding write_head
  write_head-InFlush [] o st w = w
  write_head-InFlush (h ∷ us) none st w = rebased-Flushing m (h ∷ us) st _ w
  write_head-InFlush (h ∷ us) (some a) st w = w

  settle_head-InFlush :
      (us : List PendingStatusUpdate) (o : Option (Result StoreError (Unit {0})))
      (st : AsyncStatusStore S)
      → head_result ops us o st ≡ true
      → Flushing m us st
      → InFlush (settle_head ops us o st)
  unfolding head_result settle_head
  settle_head-InFlush [] o st d w = w
  settle_head-InFlush (h ∷ us) none st d w = w
  settle_head-InFlush (h ∷ us) (some a) st d w = after_write-Flushing m h us st (st.base, a) d w

  step-InFlush :
      (e : Event S F) (r : Running S)
      → SameFlush ops (e ∷ [])
      → r.store.next_id + cost e < two_64
      → write_result ops e r ≡ true
      → InFlush r
      → InFlush (step ops e r)
  unfolding step write_result
  step-InFlush (enqueue now v k n s why who) r f fits d w =
      step-Tidy ops m (Awaited m r.flushing) (newer m r.flushing) (enqueue now v k n s why who) r
        fits w
  step-InFlush (clear_key v k) r f fits d w =
      step-Tidy ops m (Awaited m r.flushing) (newer m r.flushing) (clear_key v k) r fits w
  step-InFlush (clear_vendor v) r f fits d w =
      step-Tidy ops m (Awaited m r.flushing) (newer m r.flushing) (clear_vendor v) r fits w
  step-InFlush (requeue_vendor v rs carried) r f fits d w =
      step-Tidy ops m (Awaited m r.flushing) (newer m r.flushing) (requeue_vendor v rs carried) r
        fits w
  step-InFlush (change_base g) r f fits d w =
      step-Tidy ops m (Awaited m r.flushing) (newer m r.flushing) (change_base g) r fits w
  step-InFlush begin_flush r f fits d w = absurd f
  step-InFlush write_next r f fits d w = write_head-InFlush r.flushing r.written r.store w
  step-InFlush settle_next r f fits d w = settle_head-InFlush r.flushing r.written r.store d w

  first_step :
      (e : Event S F) (es : List (Event S F))
      → SameFlush ops (e ∷ es)
      → SameFlush ops (e ∷ []) × SameFlush ops es
  first_step (enqueue now v k n s why who) es f = (tt, f)
  first_step (clear_key v k) es f = (tt, f)
  first_step (clear_vendor v) es f = (tt, f)
  first_step (requeue_vendor v rs carried) es f = (tt, f)
  first_step (change_base g) es f = (tt, f)
  first_step begin_flush es f = absurd f
  first_step write_next es f = (tt, f)
  first_step settle_next es f = (tt, f)

  run-InFlush :
      (es : List (Event S F)) (r : Running S)
      → SameFlush ops es
      → r.store.next_id + costs es < two_64
      → flush_result ops es r ≡ true
      → InFlush r
      → InFlush (run ops es r)
  unfolding run flush_result
  run-InFlush [] r f fits d w = w
  run-InFlush (e ∷ es) r f fits d w =
      let (now, then_on) = first_step e es f in
      let (written, rest) = and-true (write_result ops e r) _ d in
      let (l, bound, g) = step-Advances ops e r (omega arith) in
      run-InFlush es (step ops e r) then_on (omega arith) rest
        (step-InFlush e r now (omega arith) written w)

module _ {S F : Type 0} (ops : StoreOps S F) where
  begin-InFlush :
      (st : AsyncStatusStore S)
      → Tidy 0 (λ u. Unit {0}) (λ u h. tt) st
      → Flushing st.next_id (pending_snapshot st.pending) st
  begin-InFlush st w = record {
    unique = w.unique;
    each = λ e n. ((w.each e n).0, inr (Memᴰ-snapshot st.pending e n));
    later = omega arith;
  }

  -- A flush at any point of any run, with calls of clients at any of its steps: where it returns
  -- true, all that is pending at its end was enqueued after it began. The run numbers less than
  -- 2^64 updates.
  pub flush_result-next_id :
      (base : S) (es between : List (Event S F)) (key : String) (u : PendingStatusUpdate)
      → costs es + costs between < two_64
      → SameFlush ops between
      → (run ops between (step ops begin_flush (run ops es (started base)))).flushing ≡ []
      → flush_result ops between (step ops begin_flush (run ops es (started base))) ≡ true
      → lookup
          (run ops between (step ops begin_flush (run ops es (started base)))).store.pending
          key
        ≡ some u
      → (run ops es (started base)).store.next_id < u.id
  unfolding step new_async_status_store Unique
  flush_result-next_id base es between key u fits same_flush done result there =
      let r = run ops es (started base) in
      let m = r.store.next_id in
      let first : Numbered (started base) = record { pending = tt; flushing = tt } in
      let (numbers, bound) = run-Numbered ops es (started base) first (omega arith) in
      let empty : Tidy 0 (λ u. Unit {0}) (λ u h. tt) (started base).store = record {
        unique = tt;
        each = λ e n. elim n [ ];
        later = omega arith;
      } in
      let tidy = run-Tidy ops 0 (λ u. Unit {0}) (λ u h. tt) es (started base) (omega arith) empty in
      let r' : Running S = step ops begin_flush r in
      let after : Running S = run ops between r' in
      let held : InFlush ops m after =
        run-InFlush ops m between r' same_flush (omega arith) result (begin-InFlush r.store tidy) in
      ended m u (
        subst (λ us. Awaited m us u) done
          (lookup-each (Awaited m after.flushing) after.store.pending key u
            (λ e n. (held.each e n).1) there))
