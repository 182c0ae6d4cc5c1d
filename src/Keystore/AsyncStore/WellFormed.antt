-- ===== src/Keystore/AsyncStore/WellFormed.antt =====
-- internal/keystore/async_store.go: what every call keeps of the pending updates.
use Prim.Native.String.{String}
use text.Mathlib.Text.{◌==◌ as str_eq}
use jc_proxy.Prelude.{
  Bool, ◌≡◌, refl, sym, ap, ◌∙◌, Bool-cases, inl, inr, arith, List, [], ◌∷◌, Option, none, some,
  ◌==◌, ◌&&◌,
}
use jc_proxy.Prelude.Int.{ℤ, Time}
use jc_proxy.Prelude.Result.{Result, ok, err, ok_inj}
use jc_proxy.Prelude.Text.{trim_space, is_empty}
use jc_proxy.Prelude.Text.Trim.{trim_space_twice}
use jc_proxy.Prelude.Table.{Table, put, remove, keep_if}
use jc_proxy.Prelude.Table.Unique.{Unique, remove-Unique, put-Unique, keep_if-Unique}
use jc_proxy.Keystore.Record.{Record, normalize_vendor, find_record}
use jc_proxy.Keystore.FileStore.{StoreError}
use jc_proxy.Keystore.AsyncStore.{
  PendingStatusUpdate, AsyncStatusStore, pending_status_key, enqueued, put_pending,
  clear_key_pending, pending_snapshot, delete_pending_if_match, matched, new_pending_status_update,
}
use jc_proxy.Keystore.AsyncStore.Flush.{Named, Keyed}
use jc_proxy.Keystore.AsyncStore.Operations.{after_call, clear_keys}
use jc_proxy.Keystore.AsyncStore.Replacement.{indexed, still_current, effective_pending}
use jc_proxy.Keystore.AsyncStore.Worker.{after_write, after_final_write, reported, is_conflict}

remove-Keyed : (t : Table PendingStatusUpdate) (k : String) → Keyed t → Keyed (remove t k)
unfolding Keyed remove
remove-Keyed [] k h = tt
remove-Keyed (e ∷ es) k (n, v, ns) = elim (Bool-cases (str_eq e.name k)) [
  | inl g ↦ rw g (remove-Keyed es k ns)
  | inr g ↦ rw g ((n, v, remove-Keyed es k ns))
]

keep_if-Keyed :
    (keep : PendingStatusUpdate → Bool) (t : Table PendingStatusUpdate)
    → Keyed t
    → Keyed (keep_if keep t)
unfolding Keyed keep_if
keep_if-Keyed keep [] h = tt
keep_if-Keyed keep (e ∷ es) (n, v, ns) = elim (Bool-cases (keep e.value)) [
  | inl g ↦ rw g ((n, v, keep_if-Keyed keep es ns))
  | inr g ↦ rw g (keep_if-Keyed keep es ns)
]

-- Each pending update names a vendor and a key, stands under them, and stands once.
pub record WellFormed (t : Table PendingStatusUpdate) : Type 0 where
  pub unique : Unique t
  pub keyed : Keyed t

pub remove-WellFormed :
    (t : Table PendingStatusUpdate) (k : String) → WellFormed t → WellFormed (remove t k)
remove-WellFormed t k w = record {
  unique = remove-Unique t k w.unique;
  keyed = remove-Keyed t k w.keyed;
}

pub keep_if-WellFormed :
    (keep : PendingStatusUpdate → Bool) (t : Table PendingStatusUpdate)
    → WellFormed t
    → WellFormed (keep_if keep t)
keep_if-WellFormed keep t w = record {
  unique = keep_if-Unique keep t w.unique;
  keyed = keep_if-Keyed keep t w.keyed;
}

pub new_pending-Named :
    (now : Time) (v k : String) (n : ℤ) (s why who : String) (u : PendingStatusUpdate)
    → new_pending_status_update now v k n s why who ≡ ok u
    → Named u
unfolding new_pending_status_update normalize_vendor
new_pending-Named now v k n s why who u h = elim (Bool-cases (is_empty (trim_space v))) [
  | inl e ↦ absurd (ground arith)
  | inr e ↦ elim (Bool-cases (is_empty (trim_space k))) [
    | inl g ↦ absurd (ground arith)
    | inr g ↦
        let same = ok_inj (rw (e, g) at h) in
        rw (sym same) ((ap is_empty (trim_space_twice v) ∙ e, ap is_empty (trim_space_twice k) ∙ g))
  ]
]

module _ {S : Type 0} where
  pub put_pending-WellFormed :
      (u : PendingStatusUpdate) (st : AsyncStatusStore S)
      → Named u
      → WellFormed st.pending
      → WellFormed (put_pending u st).pending
  unfolding put_pending put Keyed
  put_pending-WellFormed u st n w = record {
    unique = put-Unique st.pending (pending_status_key u.vendor_id u.key) _ w.unique;
    keyed = (refl, n, remove-Keyed st.pending _ w.keyed);
  }

  pub enqueued-WellFormed :
      (st : AsyncStatusStore S) (r : Result StoreError PendingStatusUpdate)
      → ((u : PendingStatusUpdate) → r ≡ ok u → Named u)
      → WellFormed st.pending
      → WellFormed (enqueued st r).0.pending
  unfolding enqueued
  enqueued-WellFormed st (err e) n w = w
  enqueued-WellFormed st (ok u) n w = elim (Bool-cases st.closed) [
    | inl c ↦ rw c w
    | inr c ↦ rw c (put_pending-WellFormed u st (n u refl) w)
  ]

  matched-WellFormed :
      (u : PendingStatusUpdate) (key : String) (st : AsyncStatusStore S)
      (o : Option PendingStatusUpdate)
      → WellFormed st.pending
      → WellFormed (matched u key st o).pending
  unfolding matched
  matched-WellFormed u key st none w = w
  matched-WellFormed u key st (some c) w = elim (Bool-cases (c.id == u.id)) [
    | inl e ↦ rw e (remove-WellFormed st.pending key w)
    | inr e ↦ rw e w
  ]

  pub after_write-WellFormed :
      (u : PendingStatusUpdate) (st : AsyncStatusStore S) (out : S × Result StoreError (Unit {0}))
      → WellFormed st.pending
      → WellFormed (after_write u st out).0.pending
  unfolding after_write delete_pending_if_match reported
  after_write-WellFormed u st (base, ok a) w =
      matched-WellFormed u _ (record st { base = base }) _ w
  after_write-WellFormed u st (base, err e) w = elim (Bool-cases (is_conflict e)) [
    | inl c ↦ rw c (matched-WellFormed u _ (record st { base = base }) _ w)
    | inr c ↦ rw c w
  ]

  pub after_final_write-WellFormed :
      (u : PendingStatusUpdate) (st : AsyncStatusStore S) (out : S × Result StoreError (Unit {0}))
      → WellFormed st.pending
      → WellFormed (after_final_write u st out).0.pending
  unfolding after_final_write delete_pending_if_match reported
  after_final_write-WellFormed u st (base, ok a) w =
      matched-WellFormed u _ (record st { base = base }) _ w
  after_final_write-WellFormed u st (base, err e) w = elim (Bool-cases (is_conflict e)) [
    | inl c ↦ rw c (matched-WellFormed u _ (record st { base = base }) _ w)
    | inr c ↦ rw c w
  ]

  pub clear_keys-WellFormed :
      (v : String) (ks : List String) (st : AsyncStatusStore S)
      → WellFormed st.pending
      → WellFormed (clear_keys v ks st).pending
  unfolding clear_keys clear_key_pending
  clear_keys-WellFormed v [] st w = w
  clear_keys-WellFormed v (k ∷ ks) st w =
      clear_keys-WellFormed v ks (clear_key_pending v k st) (remove-WellFormed st.pending _ w)

  pub after_call-WellFormed :
      {A : Type 0} (next : AsyncStatusStore S → AsyncStatusStore S) (st : AsyncStatusStore S)
      (out : S × Result StoreError A)
      → ((st' : AsyncStatusStore S) → WellFormed st'.pending → WellFormed (next st').pending)
      → WellFormed st.pending
      → WellFormed (after_call next st out).0.pending
  unfolding after_call
  after_call-WellFormed next st (base, ok a) f w = f (record st { base = base }) w
  after_call-WellFormed next st (base, err e) f w = w

-- The updates name a vendor and a key each.
unfoldable pub AllNamed : List PendingStatusUpdate → Type 0
AllNamed [] = Unit
AllNamed (u ∷ us) = (Named u) × AllNamed us

pub Keyed-AllNamed : (t : Table PendingStatusUpdate) → Keyed t → AllNamed (pending_snapshot t)
unfolding Keyed AllNamed pending_snapshot
Keyed-AllNamed [] h = tt
Keyed-AllNamed (e ∷ es) (n, v, ns) = (v, Keyed-AllNamed es ns)

module _ {F : Type 0} where
  pub effective-AllNamed :
      (v : String) (rs : List (Record F)) (us : List PendingStatusUpdate)
      → AllNamed us
      → AllNamed (effective_pending v rs us)
  unfolding effective_pending AllNamed
  effective-AllNamed v rs [] h = tt
  effective-AllNamed v rs (u ∷ us) (n, ns) =
      elim (Bool-cases (str_eq u.vendor_id v && still_current u (find_record u.key (indexed rs)))) [
        | inl e ↦ rw e ((n, effective-AllNamed v rs us ns))
        | inr e ↦ rw e (effective-AllNamed v rs us ns)
      ]
