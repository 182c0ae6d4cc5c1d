-- ===== src/Keystore/AsyncStore/Interleaving/Newest.antt =====
-- internal/keystore/async_store.go: an update that is enqueued while the worker is writing.
use Prim.Native.String.{String}
use mathlib.Core.Path.{subst}
use jc_proxy.Prelude.{
  none, Option, Bool, ◌%◌, ℕ, ◌+◌, ◌<◌, ◌≡◌, ◌≢◌, refl, sym, ap, ◌∙◌, Bool-cases, false, inl, inr,
  arith, List, [], ◌∷◌, some, if◌then◌else◌,
}
use jc_proxy.Prelude.Int.{ℤ, Time, two_64}
use jc_proxy.Prelude.Result.{Result, ok, err, ok_inj}
use jc_proxy.Prelude.Text.{trim_space, is_empty}
use jc_proxy.Prelude.Table.{lookup, lookup-put, lookup-remove_ne}
use jc_proxy.Keystore.Status.{normalize_status}
use jc_proxy.Keystore.Record.{normalize_vendor}
use jc_proxy.Keystore.FileStore.{StoreError, store_closed}
use jc_proxy.Keystore.AsyncStore.{
  StoreOps, new_async_status_store, PendingStatusUpdate, AsyncStatusStore, set_status_if_version,
  pending_status_key, enqueued, put_pending, drop_vendor, clear_key_pending, clear_vendor_pending,
  new_pending_status_update,
}
use jc_proxy.Keystore.AsyncStore.Interleaving.{
  Running, Event, enqueue, clear_key, clear_vendor, requeue_vendor, change_base, begin_flush,
  write_next, settle_next, step, write_head, settle_head, run, costs, started,
}
use jc_proxy.Keystore.AsyncStore.Interleaving.Numbers.{Numbered, run-Numbered, AllBelow}
use jc_proxy.Keystore.AsyncStore.Interleaving.Kept.{
  NotCarried, Holds, after_write-Holds, enqueued-Holds, drop_vendor-Holds, requeue-Holds,
}

-- A step that leaves the update of `vendor_id` under the key `p` to the worker's snapshot: it is no
-- call about that key, and takes no new snapshot.
abbrev pub Quiet : {S F : Type 0} → String → String → Event S F → Type 0
Quiet vendor_id p (enqueue now v k n s why who) =
    pending_status_key (normalize_vendor v) (trim_space k) ≢ p
Quiet vendor_id p (clear_key v k) = pending_status_key (normalize_vendor v) (trim_space k) ≢ p
Quiet vendor_id p (clear_vendor v) = vendor_id ≢ normalize_vendor v
Quiet vendor_id p (requeue_vendor v rs carried) = (vendor_id ≢ v) × NotCarried p carried
Quiet vendor_id p (change_base f) = Unit
Quiet vendor_id p begin_flush = ⊥
Quiet vendor_id p write_next = Unit
Quiet vendor_id p settle_next = Unit

abbrev pub AllQuiet : {S F : Type 0} → String → String → List (Event S F) → Type 0
AllQuiet vendor_id p [] = Unit
AllQuiet vendor_id p (e ∷ es) = Quiet vendor_id p e × AllQuiet vendor_id p es

-- The numbers are less than `m`.
Older : ℕ → List PendingStatusUpdate → Type 0
Older m [] = Unit
Older m (u ∷ us) = (u.id < m) × Older m us

AllBelow-Older : (n : ℕ) (us : List PendingStatusUpdate) → AllBelow n us → Older (n + 1) us
unfolding Older
AllBelow-Older n [] b = tt
AllBelow-Older n (u ∷ us) (b, bs) = (omega arith, AllBelow-Older n us bs)

-- What an accepted call enqueues.
new_pending_status_update-ok :
    (now : Time) (v k : String) (n : ℤ) (s why who : String) (u : PendingStatusUpdate)
    → new_pending_status_update now v k n s why who ≡ ok u
    → (pending_status_key u.vendor_id u.key
        ≡ pending_status_key (normalize_vendor v) (trim_space k))
      × (u.vendor_id ≡ normalize_vendor v)
      × (u.status ≡ normalize_status s)
      × (u.expected_version ≡ n)
unfolding new_pending_status_update
new_pending_status_update-ok now v k n s why who u h =
    elim (Bool-cases (is_empty (normalize_vendor v))) [
      | inl e ↦ absurd (ground arith)
      | inr e ↦ elim (Bool-cases (is_empty (trim_space k))) [
        | inl g ↦ absurd (ground arith)
        | inr g ↦
            let same = ok_inj (rw (e, g) at h) in
            (
              ap (λ (w : PendingStatusUpdate). pending_status_key w.vendor_id w.key) (sym same),
              ap (λ (w : PendingStatusUpdate). w.vendor_id) (sym same),
              ap (λ (w : PendingStatusUpdate). w.status) (sym same),
              ap (λ (w : PendingStatusUpdate). w.expected_version) (sym same),
            )
      ]
    ]

module _ {S F : Type 0} (ops : StoreOps S F) (p : String) (u : PendingStatusUpdate) where
  -- The update is pending, and what the worker has still to write is older.
  record Awaits (r : Running S) : Type 0 where
    pub pending : lookup r.store.pending p ≡ some u
    pub flushing : Older u.id r.flushing

  write_head-Awaits :
      (us : List PendingStatusUpdate) (a : Option (Result StoreError (Unit {0})))
      (st : AsyncStatusStore S)
      → Older u.id us
      → Holds p u st
      → Awaits (write_head ops us a st)
  unfolding write_head
  write_head-Awaits [] a st o holds = record { pending = holds; flushing = o }
  write_head-Awaits (h ∷ us) none st o holds = record { pending = holds; flushing = o }
  write_head-Awaits (h ∷ us) (some a) st o holds = record { pending = holds; flushing = o }

  settle_head-Awaits :
      (us : List PendingStatusUpdate) (a : Option (Result StoreError (Unit {0})))
      (st : AsyncStatusStore S)
      → Older u.id us
      → Holds p u st
      → Awaits (settle_head ops us a st)
  unfolding settle_head Older
  settle_head-Awaits [] a st o holds = record { pending = holds; flushing = tt }
  settle_head-Awaits (h ∷ us) none st o holds = record { pending = holds; flushing = o }
  settle_head-Awaits (h ∷ us) (some a) st (o, os) holds = record {
    pending = after_write-Holds p u h st (st.base, a) o holds;
    flushing = os;
  }

  step-Awaits :
      (e : Event S F) (r : Running S) → Quiet u.vendor_id p e → Awaits r → Awaits (step ops e r)
  unfolding step set_status_if_version clear_key_pending clear_vendor_pending
  step-Awaits (enqueue now v k n s why who) r q w = record {
    pending =
        enqueued-Holds p u r.store (new_pending_status_update now v k n s why who)
          (λ x h g. q (sym (new_pending_status_update-ok now v k n s why who x h).0 ∙ g)) w.pending;
    flushing = w.flushing;
  }
  step-Awaits (clear_key v k) r q w = record {
    pending = lookup-remove_ne r.store.pending _ p q ∙ w.pending;
    flushing = w.flushing;
  }
  step-Awaits (clear_vendor v) r q w = record {
    pending = drop_vendor-Holds p u _ r.store q w.pending;
    flushing = w.flushing;
  }
  step-Awaits (requeue_vendor v rs carried) r (q, n) w = record {
    pending =
        requeue-Holds p u rs carried (drop_vendor v r.store) n
          (drop_vendor-Holds p u v r.store q w.pending);
    flushing = w.flushing;
  }
  step-Awaits (change_base f) r q w = record { pending = w.pending; flushing = w.flushing }
  step-Awaits begin_flush r q w = absurd q
  step-Awaits write_next r q w = write_head-Awaits r.flushing r.written r.store w.flushing w.pending
  step-Awaits settle_next r q w =
      settle_head-Awaits r.flushing r.written r.store w.flushing w.pending

  run-Awaits :
      (es : List (Event S F)) (r : Running S)
      → AllQuiet u.vendor_id p es
      → Awaits r
      → Awaits (run ops es r)
  unfolding run
  run-Awaits [] r q w = w
  run-Awaits (e ∷ es) r (q, qs) w = run-Awaits es (step ops e r) qs (step-Awaits e r q w)

if-false : {A : Type 0} (b : Bool) (x y : A) → b ≡ false → (if b then x else y) ≡ y
if-false b x y h = rw h refl

module _ {S : Type 0} where
  enqueued-ok :
      (st st' : AsyncStatusStore S) (r : Result StoreError PendingStatusUpdate)
      → enqueued st r ≡ (st', ok tt)
      → (w : PendingStatusUpdate) × (r ≡ ok w) × (st' ≡ put_pending w st)
  unfolding enqueued
  enqueued-ok st st' (err e) h = absurd (ground arith)
  enqueued-ok st st' (ok w) h = elim (Bool-cases st.closed) [
    | inl c ↦ absurd (ground arith)
    | inr c ↦
        let taken = if-false st.closed (st, err store_closed) (put_pending w st, ok tt) c in
        let same : put_pending w st ≡ st' =
          ap (λ (o : AsyncStatusStore S × Result StoreError (Unit {0})). o.0) (sym taken ∙ h) in
        (w, refl, sym same)
  ]

  abbrev numbered : AsyncStatusStore S → PendingStatusUpdate → PendingStatusUpdate
  numbered st w = record w { id = (st.next_id + 1) % two_64 }

  put_pending-lookup :
      (w : PendingStatusUpdate) (st : AsyncStatusStore S)
      → lookup (put_pending w st).pending (pending_status_key w.vendor_id w.key)
        ≡ some (numbered st w)
  unfolding put_pending
  put_pending-lookup w st = lookup-put st.pending _ (numbered st w)

module _ {S F : Type 0} (ops : StoreOps S F) where
  put_pending-Awaits :
      (w : PendingStatusUpdate) (r : Running S)
      → Numbered r
      → r.store.next_id + 1 < two_64
      → Awaits ops
          (pending_status_key w.vendor_id w.key)
          (numbered r.store w)
          (record r { store = put_pending w r.store })
  put_pending-Awaits w r numbers fits =
      let next : r.store.next_id + 1 ≡ (r.store.next_id + 1) % two_64 = ground arith in
      record {
        pending = put_pending-lookup w r.store;
        flushing =
            subst (λ m. Older m r.flushing) next
              (AllBelow-Older r.store.next_id r.flushing numbers.flushing);
      }

  -- An update that a call enqueues, at any point of any run, stays pending while the worker writes
  -- out its snapshot and whatever other calls come in between: until the worker takes its next
  -- snapshot, or a call about the same key or the whole vendor comes. The run numbers less than
  -- 2^64 - 1 updates.
  pub enqueue-stays :
      (base : S) (es quiet : List (Event S F)) (now : Time) (v k : String) (n : ℤ)
      (s why who : String) (st : AsyncStatusStore S)
      → costs es + 1 < two_64
      → set_status_if_version now v k n s why who (run ops es (started base)).store ≡ (st, ok tt)
      → AllQuiet (normalize_vendor v) (pending_status_key (normalize_vendor v) (trim_space k)) quiet
      → (u : PendingStatusUpdate) × (lookup
            (run ops quiet (record (run ops es (started base)) { store = st })).store.pending
            (pending_status_key (normalize_vendor v) (trim_space k))
          ≡ some u)
        × (u.status ≡ normalize_status s)
        × (u.expected_version ≡ n)
  unfolding set_status_if_version new_async_status_store
  enqueue-stays base es quiet now v k n s why who st fits h q =
      let r = run ops es (started base) in
      let first : Numbered (started base) = record { pending = tt; flushing = tt } in
      let (numbers, bound) = run-Numbered ops es (started base) first (omega arith) in
      let (w, made, is_put) = enqueued-ok r.store st _ h in
      let (key, vendor, status, version) =
        new_pending_status_update-ok now v k n s why who w made in
      let p = pending_status_key w.vendor_id w.key in
      let Goal : AsyncStatusStore S → Type 0 =
        λ st'. Awaits ops p (numbered r.store w) (record r { store = st' }) in
      let start : Goal st =
        subst Goal (sym is_put) (put_pending-Awaits w r numbers (omega arith)) in
      let quiet' : AllQuiet w.vendor_id p quiet =
        subst (λ x. AllQuiet x p quiet) (sym vendor)
          (subst (λ x. AllQuiet (normalize_vendor v) x quiet) (sym key) q) in
      let after : Running S = run ops quiet (record r { store = st }) in
      let kept = run-Awaits ops p (numbered r.store w) quiet _ quiet' start in
      (
        numbered r.store w,
        sym (ap (lookup after.store.pending) key) ∙ kept.pending,
        status,
        version,
      )
