-- ===== src/Keystore/AsyncStore/Interleaving/Kept.antt =====
-- internal/keystore/async_store.go: pending updates that a step leaves alone.
use Prim.Native.String.{String}
use text.Mathlib.Text.{◌==◌ as str_eq}
use jc_proxy.Prelude.{
  ◌<◌, ◌≡◌, ◌≢◌, refl, sym, ap, ◌∙◌, Bool-cases, inl, inr, arith, List, [], ◌∷◌, Option, none, some,
  ◌==◌, some_inj,
}
use jc_proxy.Prelude.Result.{Result, ok, err}
use jc_proxy.Prelude.Table.{
  lookup, lookup-put_ne, lookup-remove_ne, lookup-keep_if, str_eq-false, str_eq-eq, ne-of_str_eq,
}
use jc_proxy.Keystore.Record.{Record, find_record}
use jc_proxy.Keystore.FileStore.{StoreError}
use jc_proxy.Keystore.AsyncStore.{
  PendingStatusUpdate, AsyncStatusStore, pending_status_key, enqueued, put_pending, drop_vendor,
  delete_pending_if_match, matched,
}
use jc_proxy.Keystore.AsyncStore.Replacement.{
  requeue, requeue_one, indexed, pending_update_reflected,
}
use jc_proxy.Keystore.AsyncStore.Worker.{after_write, reported, is_conflict}

-- The updates that are carried are of other keys.
abbrev pub NotCarried : String → List PendingStatusUpdate → Type 0
NotCarried p [] = Unit
NotCarried p (u ∷ us) = (pending_status_key u.vendor_id u.key ≢ p) × NotCarried p us

module _ {S : Type 0} (p : String) (u : PendingStatusUpdate) where
  abbrev pub Holds : AsyncStatusStore S → Type 0
  Holds st = lookup st.pending p ≡ some u

  matched-Holds :
      (h : PendingStatusUpdate) (key : String) (st : AsyncStatusStore S)
      (o : Option PendingStatusUpdate)
      → lookup st.pending key ≡ o
      → h.id < u.id
      → Holds st
      → Holds (matched h key st o)
  unfolding matched
  matched-Holds h key st none at older holds = holds
  matched-Holds h key st (some c) at older holds = elim (Bool-cases (c.id == h.id)) [
    | inr e ↦ rw e holds
    | inl e ↦ elim (Bool-cases (str_eq key p)) [
      | inl g ↦
          let same : c ≡ u =
            some_inj (sym at ∙ ap (lookup st.pending) (str_eq-eq key p g) ∙ holds) in
          let ids : c.id ≡ u.id = ap (λ (w : PendingStatusUpdate). w.id) same in
          absurd (ground arith)
      | inr g ↦ rw e (lookup-remove_ne st.pending key p (ne-of_str_eq key p g) ∙ holds)
    ]
  ]

  pub after_write-Holds :
      (h : PendingStatusUpdate) (st : AsyncStatusStore S) (out : S × Result StoreError (Unit {0}))
      → h.id < u.id
      → Holds st
      → Holds (after_write h st out).0
  unfolding after_write delete_pending_if_match reported
  after_write-Holds h st (base, ok a) older holds =
      matched-Holds h _ (record st { base = base }) _ refl older holds
  after_write-Holds h st (base, err e) older holds = elim (Bool-cases (is_conflict e)) [
    | inl c ↦ rw c (matched-Holds h _ (record st { base = base }) _ refl older holds)
    | inr c ↦ rw c holds
  ]

  put_pending-Holds :
      (w : PendingStatusUpdate) (st : AsyncStatusStore S)
      → pending_status_key w.vendor_id w.key ≢ p
      → Holds st
      → Holds (put_pending w st)
  unfolding put_pending
  put_pending-Holds w st n holds = lookup-put_ne st.pending _ p _ n ∙ holds

  pub enqueued-Holds :
      (st : AsyncStatusStore S) (r : Result StoreError PendingStatusUpdate)
      → ((w : PendingStatusUpdate) → r ≡ ok w → pending_status_key w.vendor_id w.key ≢ p)
      → Holds st
      → Holds (enqueued st r).0
  unfolding enqueued
  enqueued-Holds st (err e) n holds = holds
  enqueued-Holds st (ok w) n holds = elim (Bool-cases st.closed) [
    | inl c ↦ rw c holds
    | inr c ↦ rw c (put_pending-Holds w st (n w refl) holds)
  ]

  pub drop_vendor-Holds :
      (v : String) (st : AsyncStatusStore S) → u.vendor_id ≢ v → Holds st → Holds (drop_vendor v st)
  unfolding drop_vendor
  drop_vendor-Holds v st n holds =
      lookup-keep_if _ st.pending p u holds (rw (str_eq-false u.vendor_id v n) refl)

module _ {S F : Type 0} (p : String) (u : PendingStatusUpdate) where
  requeue_one-Holds :
      (w : PendingStatusUpdate) (o : Option (Record F)) (st : AsyncStatusStore S)
      → pending_status_key w.vendor_id w.key ≢ p
      → Holds p u st
      → Holds p u (requeue_one w o st)
  unfolding requeue_one
  requeue_one-Holds w none st n holds = holds
  requeue_one-Holds w (some r) st n holds = elim (Bool-cases (pending_update_reflected r w)) [
    | inl e ↦ rw e holds
    | inr e ↦
        let again : PendingStatusUpdate = record w { expected_version = r.version } in
        rw e (put_pending-Holds p u again st n holds)
  ]

  pub requeue-Holds :
      (rs : List (Record F)) (ws : List PendingStatusUpdate) (st : AsyncStatusStore S)
      → NotCarried p ws
      → Holds p u st
      → Holds p u (requeue rs ws st)
  unfolding requeue
  requeue-Holds rs [] st n holds = holds
  requeue-Holds rs (w ∷ ws) st (n, ns) holds =
      requeue-Holds rs ws _ ns (requeue_one-Holds w (find_record w.key (indexed rs)) st n holds)
