-- ===== src/Keystore/FileStore/Conditional.antt =====
-- internal/keystore/file_store.go: writes of a status, with and without a version to check.
use Prim.Native.String.{String}
use text.Mathlib.Text.{◌==◌ as str_eq}
use mathlib.Core.Path.{subst}
use jc_proxy.Prelude.{
  ◌≡◌, ◌≢◌, refl, sym, ◌∙◌, ap, Bool-cases, false, inl, inr, arith, List, [], ◌∷◌, some,
  if◌then◌else◌,
}
use jc_proxy.Prelude.Int.{ℤ, pos, negsuc, ◌+ℤ◌, ltb_ℤ, eqb_ℤ, wrap_int64, Time}
use jc_proxy.Prelude.Result.{ok, err, map_ok-ok, ok_inj}
use jc_proxy.Prelude.Table.{str_eq-eq, str_eq_refl}
use jc_proxy.Prelude.Text.{trim_space}
use jc_proxy.Prelude.Text.Trim.{trim_space_twice}
use jc_proxy.Keystore.Status.{next_record_version}
use jc_proxy.Keystore.Record.{Record, normalize_record, normalize_vendor}
use jc_proxy.Keystore.FileStore.{FileStore, Faults, version_mismatch, records_of}
use jc_proxy.Keystore.FileStore.Updates.{
  first_record, records_of-put, records_of-put_ne, first_record-key, UpdatesKey,
  update_key-UpdatesKey, ChangesKey, change_key-ok, change_key-err,
}
use jc_proxy.Keystore.FileStore.Operations.{
  update_key, set_status_if_version, status_change, with_status,
}

-- A written version is never the one before it, at the end of the int64 range either.
next_version_ne :
    (v : ℤ)
    → eqb_ℤ (if ltb_ℤ (next_record_version v) (pos 0) then pos 0 else next_record_version v) v
      ≡ false
unfolding next_record_version wrap_int64 ◌+ℤ◌
next_version_ne (pos n) = ground arith
next_version_ne (negsuc n) = ground arith

module _ {F : Type 0} where
  with_status-key :
      (now : Time) (s why who : String) (r : Record F)
      → (with_status now s why who r).key ≡ trim_space r.key
  unfolding with_status normalize_record
  with_status-key now s why who r = refl

  with_status-version :
      (now : Time) (s why who : String) (r : Record F)
      → eqb_ℤ (with_status now s why who r).version r.version ≡ false
  unfolding with_status normalize_record
  with_status-version now s why who r = next_version_ne r.version

  status_change-ok :
      (n : ℤ) (now : Time) (s why who : String) (r q : Record F)
      → status_change (some n) now s why who r ≡ ok q
      → (r.version ≡ n) × (with_status now s why who r ≡ q)
  unfolding status_change
  status_change-ok n now s why who r q h = elim (Bool-cases (eqb_ℤ r.version n)) [
    | inl e ↦ (ground arith, ok_inj (rw e at h))
    | inr e ↦ absurd (ground arith)
  ]

  stale_head :
      (key : String) (n : ℤ) (now : Time) (s why who : String) (q : Record F) (rs : List (Record F))
      → q.key ≡ key
      → eqb_ℤ q.version n ≡ false
      → update_key key (status_change (some n) now s why who) (q ∷ rs) ≡ err version_mismatch
  unfolding update_key status_change
  stale_head key n now s why who q rs k v = rw (k, str_eq_refl key, v) refl

  -- A second write with the version that a first one has consumed.
  update_key-stale :
      (key : String) (n : ℤ) (now later : Time) (s why who s' why' who' : String)
      (rs qs : List (Record F))
      → trim_space key ≡ key
      → update_key key (status_change (some n) now s why who) rs ≡ ok qs
      → update_key key (status_change (some n) later s' why' who') qs ≡ err version_mismatch
  unfolding update_key
  update_key-stale key n now later s why who s' why' who' [] qs t h = absurd (ground arith)
  update_key-stale key n now later s why who s' why' who' (r ∷ rs) qs t h =
      let Stale : List (Record F) → Type 0 = λ ps.
        update_key key (status_change (some n) later s' why' who') ps ≡ err version_mismatch in
      elim (Bool-cases (str_eq r.key key)) [
        | inl e ↦
            let change = status_change (some n) now s why who in
            let (q, c, w) = map_ok-ok (λ (p : Record F). p ∷ rs) (change r) (rw e at h) in
            let (version, written) = status_change-ok n now s why who r q c in
            let k : q.key ≡ key =
              ap (λ (p : Record F). p.key) (sym written)
              ∙ with_status-key now s why who r
              ∙ ap trim_space (str_eq-eq r.key key e)
              ∙ t in
            let v : eqb_ℤ q.version n ≡ false =
              subst (λ m. eqb_ℤ q.version m ≡ false) version
                (subst (λ (p : Record F). eqb_ℤ p.version r.version ≡ false) written
                  (with_status-version now s why who r)) in
            subst Stale w (stale_head key n later s' why' who' q rs k v)
        | inr e ↦
            let change = status_change (some n) now s why who in
            let (us, u, w) =
              map_ok-ok (λ (ps : List (Record F)). r ∷ ps) (update_key key change rs) (rw e at h) in
            let rest = update_key-stale key n now later s why who s' why' who' rs us t u in
            subst Stale w (rw (e, rest) refl)
      ]

  -- Of two conditional writes that expect one version of a key, the second is refused where the
  -- first succeeded, and changes nothing.
  pub set_status_if_version-stale :
      (faults faults' : Faults) (now later : Time) (v k : String) (n : ℤ)
      (s why who s' why' who' : String) (fs fs' : FileStore F)
      → set_status_if_version faults now v k n s why who fs ≡ (fs', ok tt)
      → set_status_if_version faults' later v k n s' why' who' fs' ≡ (fs', err version_mismatch)
  unfolding set_status_if_version ChangesKey
  set_status_if_version-stale faults faults' now later v k n s why who s' why' who' fs fs' h =
      let (vendor, key, (rs, u, written)) = change_key-ok faults v k _ fs fs' h in
      let now_there : records_of fs'.records (normalize_vendor v) ≡ rs =
        records_of-put (normalize_vendor v) fs fs' rs written in
      change_key-err faults' v k _ fs' version_mismatch vendor key (
        ap (update_key (trim_space k) (status_change (some n) later s' why' who')) now_there
        ∙ update_key-stale (trim_space k) n now later s why who s' why' who' _ rs
            (trim_space_twice k) u)

  -- A conditional write that succeeds found the version that it expects, wrote the status to that
  -- record, and left the records of the other keys and of the other vendors.
  pub set_status_if_version-ok :
      (faults : Faults) (now : Time) (v k : String) (n : ℤ) (s why who : String)
      (fs fs' : FileStore F)
      → set_status_if_version faults now v k n s why who fs ≡ (fs', ok tt)
      → (r : Record F) × (first_record (trim_space k) (records_of fs.records (normalize_vendor v))
          ≡ some r)
        × (r.version ≡ n)
        × (first_record (trim_space k) (records_of fs'.records (normalize_vendor v))
            ≡ some (with_status now s why who r))
        × ((j : String)
            → j ≢ trim_space k
            → first_record j (records_of fs'.records (normalize_vendor v))
              ≡ first_record j (records_of fs.records (normalize_vendor v)))
        × ((w : String)
            → normalize_vendor v ≢ w
            → records_of fs'.records w ≡ records_of fs.records w)
  unfolding set_status_if_version UpdatesKey ChangesKey
  set_status_if_version-ok faults now v k n s why who fs fs' h =
      let (vendor, key, (rs, u, written)) = change_key-ok faults v k _ fs fs' h in
      let there = records_of-put (normalize_vendor v) fs fs' rs written in
      let (r, q, found, c, now_found, others) =
        update_key-UpdatesKey (trim_space k) _ (records_of fs.records (normalize_vendor v)) rs u in
      let (version, is_q) = status_change-ok n now s why who r q c in
      let same : q.key ≡ trim_space k =
        ap (λ (p : Record F). p.key) (sym is_q)
        ∙ with_status-key now s why who r
        ∙ ap trim_space
            (first_record-key (trim_space k) (records_of fs.records (normalize_vendor v)) r found)
        ∙ trim_space_twice k in
      (
        r,
        found,
        version,
        ap (first_record (trim_space k)) there ∙ now_found same ∙ ap some (sym is_q),
        λ j ne. ap (first_record j) there ∙ others j ne same,
        λ w ne. records_of-put_ne (normalize_vendor v) w fs fs' rs written ne,
      )
