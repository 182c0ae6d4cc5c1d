-- ===== src/Keystore/AsyncStore/Flush.antt =====
-- internal/keystore/async_store.go: what a flush of the pending updates leaves.
use Prim.Native.String.{String}
use mathlib.Core.Path.{subst}
use jc_proxy.Prelude.{
  ◌≡◌, refl, sym, ap, ◌∙◌, Bool, Bool-cases, true, false, inl, inr, ◌⊎◌, ◌==◌, arith, List, [], ◌∷◌,
  ◌++◌, Option, none, some,
}
use jc_proxy.Prelude.Result.{Result, ok, err}
use jc_proxy.Prelude.Table.{Table, Entry, lookup}
use jc_proxy.Prelude.Table.Unique.{Unique, lookup-middle, remove-middle, remove-Unique}
use jc_proxy.Prelude.Text.{is_empty, trim_space}
use jc_proxy.Keystore.Record.{normalize_vendor}
use jc_proxy.Keystore.FileStore.{StoreError, is_nil}
use jc_proxy.Keystore.AsyncStore.{
  StoreOps, PendingStatusUpdate, AsyncStatusStore, pending_status_key, pending_snapshot,
  delete_pending_if_match, matched,
}
use jc_proxy.Keystore.AsyncStore.Worker.{
  is_conflict, apply_pending, after_write, reported, sync_one, sync_all, flush_pending,
}

-- The update names a vendor and a key.
abbrev pub Named : PendingStatusUpdate → Type 0
Named u = (is_empty (normalize_vendor u.vendor_id) ≡ false) × (is_empty (trim_space u.key) ≡ false)

-- Each update stands under its own key.
unfoldable pub Keyed : Table PendingStatusUpdate → Type 0
Keyed [] = Unit
Keyed (e ∷ es) =
    (e.name ≡ pending_status_key e.value.vendor_id e.value.key) × (Named e.value) × Keyed es

-- The write of an update by the base store succeeds, or fails for good.
abbrev pub Answers : {S : Type 0} → S × Result StoreError (Unit {0}) → Type 0
Answers (s, ok a) = Unit
Answers (s, err e) = is_conflict e ≡ true

append_snoc : {A : Type 0} (xs : List A) (x : A) (ys : List A) → (xs ++ x ∷ []) ++ ys ≡ xs ++ x ∷ ys
append_snoc [] x ys = refl
append_snoc (z ∷ zs) x ys = ap (λ l. z ∷ l) (append_snoc zs x ys)

module _ {S : Type 0} where
  -- A write either settles the update, which is then taken off, or leaves all that is pending.
  abbrev Settles : PendingStatusUpdate → AsyncStatusStore S → AsyncStatusStore S × Bool → Type 0
  Settles u st (st', done) =
      ((done ≡ true) × (st'.pending ≡ (delete_pending_if_match u st).pending))
      ⊎ ((done ≡ false) × (st'.pending ≡ st.pending))

  matched-pending :
      (u : PendingStatusUpdate) (key : String) (st : AsyncStatusStore S) (base : S)
      (o : Option PendingStatusUpdate)
      → (matched u key (record st { base = base }) o).pending ≡ (matched u key st o).pending
  unfolding matched
  matched-pending u key st base none = refl
  matched-pending u key st base (some v) = elim (Bool-cases (v.id == u.id)) [
    | inl e ↦ rw e refl
    | inr e ↦ rw e refl
  ]

  rebased :
      (u : PendingStatusUpdate) (st : AsyncStatusStore S) (base : S)
      → (delete_pending_if_match u (record st { base = base })).pending
        ≡ (delete_pending_if_match u st).pending
  unfolding delete_pending_if_match
  rebased u st base = matched-pending u _ st base (lookup st.pending _)

  after_write-Settles :
      (u : PendingStatusUpdate) (st : AsyncStatusStore S) (out : S × Result StoreError (Unit {0}))
      → Settles u st (after_write u st out)
  unfolding after_write reported
  after_write-Settles u st (base, ok a) = inl (refl, rebased u st base)
  after_write-Settles u st (base, err e) = elim (Bool-cases (is_conflict e)) [
    | inl c ↦ inl ((rw c refl), (rw c (rebased u st base)))
    | inr c ↦ inr ((rw c refl), (rw c refl))
  ]

  delete_pending-middle :
      (k : Table PendingStatusUpdate) (e : Entry PendingStatusUpdate)
      (es : Table PendingStatusUpdate) (st : AsyncStatusStore S)
      → st.pending ≡ k ++ e ∷ es
      → Unique (k ++ e ∷ es)
      → e.name ≡ pending_status_key e.value.vendor_id e.value.key
      → (delete_pending_if_match e.value st).pending ≡ k ++ es
  unfolding delete_pending_if_match matched
  delete_pending-middle k e es st p u n =
      let found : lookup st.pending e.name ≡ some e.value = rw p (lookup-middle k e es u) in
      let same : (e.value.id == e.value.id) ≡ true = ground arith in
      rw (sym n, found, same, p) (remove-middle k e es u)

module _ {S F : Type 0} (ops : StoreOps S F) where
  -- After the updates of a snapshot, those that were not settled are left, and the result tells
  -- whether there are any.
  abbrev Leaves : Table PendingStatusUpdate → AsyncStatusStore S × Bool → Type 0
  Leaves k (st', done) =
      (left : Table PendingStatusUpdate) × (st'.pending ≡ k ++ left) × (done ≡ is_nil left)

  sync_all-Leaves :
      (es k : Table PendingStatusUpdate) (st : AsyncStatusStore S)
      → st.pending ≡ k ++ es
      → Unique (k ++ es)
      → Keyed es
      → Leaves k (sync_all ops (pending_snapshot es) st)
  unfolding sync_all pending_snapshot sync_one Keyed
  sync_all-Leaves [] k st p u n = ([], p, refl)
  sync_all-Leaves (e ∷ es) k st p u (n, v, ns) =
      elim (after_write-Settles e.value st (apply_pending ops e.value st.base)) [
        | inl (d, q) ↦
            let st' = (sync_one ops e.value st).0 in
            let u' = subst Unique (remove-middle k e es u) (remove-Unique (k ++ e ∷ es) e.name u) in
            let (left, pl, dl) =
              sync_all-Leaves es k st' (q ∙ delete_pending-middle k e es st p u n) u' ns in
            (left, pl, rw d dl)
        | inr (d, q) ↦
            let st' = (sync_one ops e.value st).0 in
            let shift = sym (append_snoc k e es) in
            let (left, pl, dl) =
              sync_all-Leaves es (k ++ e ∷ []) st' (q ∙ p ∙ shift) (subst Unique shift u) ns in
            (e ∷ left, pl ∙ append_snoc k e left, rw d refl)
      ]

  -- A flush that no call of a client disturbs reports success exactly where it leaves nothing
  -- pending. No update stands twice, and each names a vendor and a key and stands under them.
  pub flush_pending-is_nil :
      (st : AsyncStatusStore S)
      → Unique st.pending
      → Keyed st.pending
      → (flush_pending ops st).1 ≡ is_nil (flush_pending ops st).0.pending
  unfolding flush_pending
  flush_pending-is_nil st u n =
      let (left, pl, dl) = sync_all-Leaves st.pending [] st refl u n in dl ∙ ap is_nil (sym pl)

  after_write-done :
      (u : PendingStatusUpdate) (st : AsyncStatusStore S) (out : S × Result StoreError (Unit {0}))
      → Answers out
      → (after_write u st out).1 ≡ true
  unfolding after_write
  after_write-done u st (s, ok a) h = refl
  after_write-done u st (s, err e) h = rw h refl

  sync_all-done :
      (es : Table PendingStatusUpdate) (st : AsyncStatusStore S)
      → ((u : PendingStatusUpdate) (s : S) → Named u → Answers (apply_pending ops u s))
      → Keyed es
      → (sync_all ops (pending_snapshot es) st).1 ≡ true
  unfolding sync_all sync_one pending_snapshot Keyed
  sync_all-done [] st h n = refl
  sync_all-done (e ∷ es) st h (n, v, ns) =
      rw (after_write-done e.value st (apply_pending ops e.value st.base) (h e.value st.base v))
        (sync_all-done es (sync_one ops e.value st).0 h ns)

  is_nil-eq : {A : Type 0} (xs : List A) → is_nil xs ≡ true → xs ≡ []
  is_nil-eq [] h = refl
  is_nil-eq (x ∷ xs) h = absurd (ground arith)

  -- Where the base store answers each write that names a vendor and a key, be it by a conflict that
  -- is final, one undisturbed flush leaves nothing pending. No update stands twice, and each names a vendor and
  -- a key and stands under them.
  pub flush_pending-drains :
      (st : AsyncStatusStore S)
      → Unique st.pending
      → Keyed st.pending
      → ((u : PendingStatusUpdate) (s : S) → Named u → Answers (apply_pending ops u s))
      → (flush_pending ops st).0.pending ≡ []
  unfolding flush_pending
  flush_pending-drains st u n h =
      is_nil-eq _ (sym (flush_pending-is_nil st u n) ∙ sync_all-done st.pending st h n)
