-- ===== src/Keystore/FileStore/Updates.antt =====
-- internal/keystore/file_store.go: what a change of one key does to the records.
use Prim.Native.String.{String}
use text.Mathlib.Text.{◌==◌ as str_eq}
use mathlib.Core.Path.{subst}
use jc_proxy.Prelude.{
  ◌≡◌, ◌≢◌, refl, sym, ◌∙◌, ap, Bool-cases, true, false, inl, inr, arith, List, [], ◌∷◌, Option,
  none, some, if◌then◌else◌, some_inj,
}
use jc_proxy.Prelude.Result.{Result, ok, err, map_ok-ok}
use jc_proxy.Prelude.Table.{
  Table, put, lookup-put, lookup-put_ne, str_eq-eq, str_eq_refl, str_eq-false,
}
use jc_proxy.Prelude.Text.{is_empty, trim_space}
use jc_proxy.Keystore.Record.{Record, normalize_vendor}
use jc_proxy.Keystore.FileStore.{
  no_faults, write_tmp, rename_tmp, FileStore, Faults, StoreError, commit, publish,
  save_data_locked, save_vendor_locked, is_nil, records_of, or_empty,
}
use jc_proxy.Keystore.FileStore.Operations.{update_key, change_key, save_changed}

module _ {F : Type 0} where
  -- The record that a loop over the records meets first.
  pub first_record : String → List (Record F) → Option (Record F)
  first_record key [] = none
  first_record key (r ∷ rs) =
      let rest = first_record key rs in if str_eq r.key key then some r else rest

  pub records_of-put :
      (v : String) (fs fs' : FileStore F) (rs : List (Record F))
      → fs'.records ≡ put fs.records v rs
      → records_of fs'.records v ≡ rs
  unfolding records_of
  records_of-put v fs fs' rs w =
      ap (λ t. records_of t v) w ∙ ap or_empty (lookup-put fs.records v rs)

  pub records_of-put_ne :
      (v w : String) (fs fs' : FileStore F) (rs : List (Record F))
      → fs'.records ≡ put fs.records v rs
      → v ≢ w
      → records_of fs'.records w ≡ records_of fs.records w
  unfolding records_of
  records_of-put_ne v w fs fs' rs e n =
      ap (λ t. records_of t w) e ∙ ap or_empty (lookup-put_ne fs.records v w rs n)

  pub first_record-key :
      (key : String) (rs : List (Record F)) (r : Record F)
      → first_record key rs ≡ some r
      → r.key ≡ key
  unfolding first_record
  first_record-key key [] r h = absurd (ground arith)
  first_record-key key (q ∷ qs) r h = elim (Bool-cases (str_eq q.key key)) [
    | inl e ↦
        let same : q ≡ r = some_inj (rw e at h) in
        ap (λ (p : Record F). p.key) (sym same) ∙ str_eq-eq q.key key e
    | inr e ↦ first_record-key key qs r (rw e at h)
  ]

  -- What an update of one key does to the records.
  unfoldable pub UpdatesKey :
      String
      → (Record F → Result StoreError (Record F))
      → List (Record F)
      → List (Record F)
      → Type 0
  UpdatesKey key change rs rs' =
      (r : Record F) × (q : Record F) × (first_record key rs ≡ some r)
      × (change r ≡ ok q)
      × (q.key ≡ key → first_record key rs' ≡ some q)
      × ((j : String) → j ≢ key → q.key ≡ key → first_record j rs' ≡ first_record j rs)

  head_updated :
      (key : String) (change : Record F → Result StoreError (Record F)) (r q : Record F)
      (rs : List (Record F))
      → str_eq r.key key ≡ true
      → change r ≡ ok q
      → UpdatesKey key change (r ∷ rs) (q ∷ rs)
  unfolding UpdatesKey first_record
  head_updated key change r q rs e c = (
    r,
    q,
    rw e refl,
    c,
    λ g. rw (g, str_eq_refl key) refl,
    λ j n g.
        let here = str_eq-false r.key j (λ (p : r.key ≡ j). n (sym p ∙ str_eq-eq r.key key e)) in
        let there = str_eq-false q.key j (λ (p : q.key ≡ j). n (sym p ∙ g)) in
        rw (here, there) refl,
  )

  pub update_key-UpdatesKey :
      (key : String) (change : Record F → Result StoreError (Record F)) (rs rs' : List (Record F))
      → update_key key change rs ≡ ok rs'
      → UpdatesKey key change rs rs'
  unfolding update_key UpdatesKey first_record
  update_key-UpdatesKey key change [] rs' h = absurd (ground arith)
  update_key-UpdatesKey key change (r ∷ rs) rs' h = elim (Bool-cases (str_eq r.key key)) [
    | inl e ↦
        let (q, c, w) = map_ok-ok (λ (p : Record F). p ∷ rs) (change r) (rw e at h) in
        subst (UpdatesKey key change (r ∷ rs)) w (head_updated key change r q rs e c)
    | inr e ↦
        let (qs, u, w) =
          map_ok-ok (λ (ps : List (Record F)). r ∷ ps) (update_key key change rs) (rw e at h) in
        let (p, q, found, c, now_found, others) = update_key-UpdatesKey key change rs qs u in
        subst (UpdatesKey key change (r ∷ rs)) w (
          (
            p,
            q,
            rw e found,
            c,
            λ g. rw e (now_found g),
            λ j n g. ap (λ o. if str_eq r.key j then some r else o) (others j n g),
          ))
  ]

  update_key-is_nil :
      (key : String) (change : Record F → Result StoreError (Record F)) (rs rs' : List (Record F))
      → update_key key change rs ≡ ok rs'
      → is_nil rs' ≡ false
  unfolding update_key
  update_key-is_nil key change [] rs' h = absurd (ground arith)
  update_key-is_nil key change (r ∷ rs) rs' h = elim (Bool-cases (str_eq r.key key)) [
    | inl e ↦
        let (q, c, w) = map_ok-ok (λ (p : Record F). p ∷ rs) (change r) (rw e at h) in
        ap is_nil (sym w)
    | inr e ↦
        let (qs, u, w) =
          map_ok-ok (λ (ps : List (Record F)). r ∷ ps) (update_key key change rs) (rw e at h) in
        ap is_nil (sym w)
  ]

  -- The result of a write that succeeds.
  Published : {A : Type 0} → Table (List (Record F)) → FileStore F × Result StoreError A → Type 0
  Published next (fs', ok a) = fs'.records ≡ next
  Published next (fs', err e) = Unit

  publish-Published :
      {A : Type 0} (a : A) (next : Table (List (Record F))) (out : FileStore F × Option StoreError)
      → Published next (publish a next out)
  unfolding publish Published
  publish-Published a next (fs', some e) = tt
  publish-Published a next (fs', none) = refl

  save-Published :
      (faults : Faults) (v : String) (rs : List (Record F)) (fs fs' : FileStore F)
      → save_vendor_locked faults tt v rs fs ≡ (fs', ok tt)
      → is_nil rs ≡ false
      → fs'.records ≡ put fs.records v rs
  unfolding save_vendor_locked commit Published
  save-Published faults v rs fs fs' h n = subst (Published (put fs.records v rs)) (rw n at h) (
      publish-Published tt (put fs.records v rs) (save_data_locked faults (put fs.records v rs) fs))

  save_changed-ok :
      (faults : Faults) (v key : String) (change : Record F → Result StoreError (Record F))
      (fs fs' : FileStore F) (current : List (Record F)) (r : Result StoreError (List (Record F)))
      → update_key key change current ≡ r
      → save_changed faults v fs r ≡ (fs', ok tt)
      → (rs : List (Record F)) × (update_key key change current ≡ ok rs)
        × (fs'.records ≡ put fs.records v rs)
  unfolding save_changed
  save_changed-ok faults v key change fs fs' current (ok rs) u h =
      (rs, u, save-Published faults v rs fs fs' h (update_key-is_nil key change current rs u))
  save_changed-ok faults v key change fs fs' current (err e) u h = absurd (ground arith)

  -- A write to a key that succeeds.
  unfoldable pub ChangesKey :
      String
      → String
      → (Record F → Result StoreError (Record F))
      → FileStore F
      → FileStore F
      → Type 0
  ChangesKey v key change fs fs' =
      (rs : List (Record F)) × (update_key key change (records_of fs.records v) ≡ ok rs)
      × (fs'.records ≡ put fs.records v rs)

  pub change_key-ok :
      (faults : Faults) (v k : String) (change : Record F → Result StoreError (Record F))
      (fs fs' : FileStore F)
      → change_key faults v k change fs ≡ (fs', ok tt)
      → (is_empty (normalize_vendor v) ≡ false)
        × (is_empty (trim_space k) ≡ false)
        × ChangesKey (normalize_vendor v) (trim_space k) change fs fs'
  unfolding change_key ChangesKey
  change_key-ok faults v k change fs fs' h = elim (Bool-cases (is_empty (normalize_vendor v))) [
    | inl e ↦ absurd (ground arith)
    | inr e ↦ elim (Bool-cases (is_empty (trim_space k))) [
      | inl g ↦ absurd (ground arith)
      | inr g ↦
          (e, g, save_changed-ok faults _ (trim_space k) change fs fs' _ _ refl (rw (e, g) at h))
    ]
  ]

  pub change_key-err :
      (faults : Faults) (v k : String) (change : Record F → Result StoreError (Record F))
      (fs : FileStore F) (e : StoreError)
      → is_empty (normalize_vendor v) ≡ false
      → is_empty (trim_space k) ≡ false
      → update_key (trim_space k) change (records_of fs.records (normalize_vendor v)) ≡ err e
      → change_key faults v k change fs ≡ (fs, err e)
  unfolding change_key save_changed
  change_key-err faults v k change fs e a b u = rw (a, b, u) refl

  pub save_vendor_locked-no_faults :
      {A : Type 0} (a : A) (v : String) (rs : List (Record F)) (fs : FileStore F)
      → (save_vendor_locked no_faults a v rs fs).1 ≡ ok a
  unfolding save_vendor_locked commit publish save_data_locked write_tmp rename_tmp
  save_vendor_locked-no_faults a v rs fs = refl
