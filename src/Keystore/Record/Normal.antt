-- ===== src/Keystore/Record/Normal.antt =====
-- Normal records: copying a map of records twice is copying it once.
use jc_proxy.Prelude.{◌≡◌, refl, ap, ◌∙◌, Bool-cases, false, inl, inr, arith, List, [], ◌∷◌, map}
use jc_proxy.Prelude.Order.{text_lt, text_lt_asym}
use jc_proxy.Prelude.Table.{Table}
use jc_proxy.Prelude.Text.Trim.{trim_space_twice}
use jc_proxy.Keystore.Status.Normal.{normalize_status-IsStatus}
use jc_proxy.Keystore.Record.{
  Record, normalize_record, insert_record, sort_records, clone_records, clone_record_map,
}

module _ {F : Type 0} where
  -- Normalizing a record twice is normalizing it once.
  pub normalize_record_twice :
      (r : Record F) → normalize_record (normalize_record r) ≡ normalize_record r
  unfolding normalize_record
  normalize_record_twice r =
      let key = trim_space_twice r.key in
      let remark = trim_space_twice r.remark in
      let status = (normalize_status-IsStatus r.status).1 in rw (key, remark, status) (ground arith)

  -- Each key is at most the next.
  pub Sorted : List (Record F) → Type 0
  Sorted [] = Unit
  Sorted (r ∷ []) = Unit
  Sorted (r ∷ q ∷ qs) = (text_lt q.key r.key ≡ false) × Sorted (q ∷ qs)

  pub AllNormal : List (Record F) → Type 0
  AllNormal [] = Unit
  AllNormal (r ∷ rs) = (normalize_record r ≡ r) × AllNormal rs

  insert_record-Sorted :
      (r : Record F) (rs : List (Record F)) → Sorted rs → Sorted (insert_record r rs)
  unfolding insert_record Sorted
  insert_record-Sorted r [] h = tt
  insert_record-Sorted r (q ∷ []) h = elim (Bool-cases (text_lt q.key r.key)) [
    | inl e ↦ rw e ((text_lt_asym q.key r.key e, tt))
    | inr e ↦ rw e ((e, tt))
  ]
  insert_record-Sorted r (q ∷ p ∷ ps) h = elim (Bool-cases (text_lt q.key r.key)) [
    | inl e ↦
        let rest = insert_record-Sorted r (p ∷ ps) h.1 in
        elim (Bool-cases (text_lt p.key r.key)) [
          | inl g ↦ rw (e, g) ((h.0, (rw g at rest)))
          | inr g ↦ rw (e, g) ((text_lt_asym q.key r.key e, (g, h.1)))
        ]
    | inr e ↦ rw e ((e, h))
  ]

  insert_record-AllNormal :
      (r : Record F) (rs : List (Record F))
      → normalize_record r ≡ r
      → AllNormal rs
      → AllNormal (insert_record r rs)
  unfolding insert_record AllNormal
  insert_record-AllNormal r [] n h = (n, tt)
  insert_record-AllNormal r (q ∷ qs) n h = elim (Bool-cases (text_lt q.key r.key)) [
    | inl e ↦ rw e ((h.0, insert_record-AllNormal r qs n h.1))
    | inr e ↦ rw e ((n, h))
  ]

  pub sort_records-Sorted : (rs : List (Record F)) → Sorted (sort_records rs)
  unfolding sort_records Sorted
  sort_records-Sorted [] = tt
  sort_records-Sorted (r ∷ rs) = insert_record-Sorted r (sort_records rs) (sort_records-Sorted rs)

  sort_records-AllNormal : (rs : List (Record F)) → AllNormal rs → AllNormal (sort_records rs)
  unfolding sort_records AllNormal
  sort_records-AllNormal [] h = tt
  sort_records-AllNormal (r ∷ rs) h =
      insert_record-AllNormal r (sort_records rs) h.0 (sort_records-AllNormal rs h.1)

  map-AllNormal : (rs : List (Record F)) → AllNormal (map normalize_record rs)
  unfolding AllNormal
  map-AllNormal [] = tt
  map-AllNormal (r ∷ rs) = (normalize_record_twice r, map-AllNormal rs)

  AllNormal-map : (rs : List (Record F)) → AllNormal rs → map normalize_record rs ≡ rs
  unfolding AllNormal
  AllNormal-map [] h = refl
  AllNormal-map (r ∷ rs) h = cc (h.0, AllNormal-map rs h.1)

  Sorted-sort_records : (rs : List (Record F)) → Sorted rs → sort_records rs ≡ rs
  unfolding sort_records insert_record Sorted
  Sorted-sort_records [] h = refl
  Sorted-sort_records (r ∷ []) h = refl
  Sorted-sort_records (r ∷ q ∷ qs) h =
      ap (insert_record r) (Sorted-sort_records (q ∷ qs) h.1) ∙ rw h.0 refl

  -- A copy of a copy of a vendor's records is the copy.
  pub clone_records_twice :
      (rs : List (Record F)) → clone_records (clone_records rs) ≡ clone_records rs
  unfolding clone_records
  clone_records_twice rs =
      ap sort_records (AllNormal-map _ (sort_records-AllNormal _ (map-AllNormal rs)))
      ∙ Sorted-sort_records _ (sort_records-Sorted (map normalize_record rs))

  -- A copy of a copy of a record map is the copy.
  pub clone_record_map_twice :
      (t : Table (List (Record F))) → clone_record_map (clone_record_map t) ≡ clone_record_map t
  unfolding clone_record_map
  clone_record_map_twice [] = refl
  clone_record_map_twice (e ∷ es) = cc (clone_records_twice e.value, clone_record_map_twice es)
