-- ===== src/Config/Vendors/Updates.antt =====
-- internal/config/vendors.go: SetVendor and DeleteVendorByID.
use Prim.Native.String.{String}
use text.Mathlib.Text.{◌==◌ as str_eq}
use mathlib.Core.Option
use mathlib.Core.Path.{subst}
use jc_proxy.Prelude.{
  Bool, true, false, ℕ, suc, List, [], ◌∷◌, Option, none, some, if◌then◌else◌, get_elem?, ◌≡◌, ◌≢◌,
  refl, sym, ap, ◌∙◌, Bool-cases, inl, inr,
}
use jc_proxy.Prelude.Text.{trim_space, is_empty}
use jc_proxy.Prelude.Table.{str_eq_refl, str_eq-eq, str_eq-false, ne-of_str_eq}
use jc_proxy.Config.Vendors.{
  VendorEntry, index_where, vendor_index_by_id, vendor_by_id, set_vendor, set_at, drop_at,
  delete_found, delete_vendor_by_id,
}
use jc_proxy.Config.Vendors.Distinct.{Distinct, Absent}

abbrev pub is_found : {A : Type 0} → Option A → Bool
is_found none = false
is_found (some a) = true

module _ {V : Type 0} where
  -- VendorByID without the cleaning of the identifier.
  first_with : String → List (VendorEntry V) → Option (VendorEntry V)
  first_with k [] = none
  first_with k (v ∷ vs) = if str_eq v.id k then some v else first_with k vs

  shifted :
      (v : VendorEntry V) (vs : List (VendorEntry V)) (o : Option ℕ)
      → Option.bind (Option.map suc o) (get_elem? (v ∷ vs)) ≡ Option.bind o (get_elem? vs)
  unfolding Option.bind
  shifted v vs none = refl
  shifted v vs (some i) = refl

  bind-index_where :
      (k : String) (vs : List (VendorEntry V))
      → Option.bind (index_where (λ v. str_eq v.id k) vs) (get_elem? vs) ≡ first_with k vs
  unfolding index_where first_with Option.bind
  bind-index_where k [] = refl
  bind-index_where k (v ∷ vs) = elim (Bool-cases (str_eq v.id k)) [
    | inl e ↦ rw e refl
    | inr e ↦ rw e (shifted v vs _ ∙ bind-index_where k vs)
  ]

  vendor_by_id-first_with :
      (vs : List (VendorEntry V)) (raw : String)
      → vendor_by_id vs raw
        ≡ (if is_empty (trim_space raw) then none else first_with (trim_space raw) vs)
  unfolding vendor_by_id vendor_index_by_id Option.bind
  vendor_by_id-first_with vs raw = elim (Bool-cases (is_empty (trim_space raw))) [
    | inl e ↦ rw e refl
    | inr e ↦ rw e (bind-index_where (trim_space raw) vs)
  ]

  -- SetVendor, read off the entries.
  placed : VendorEntry V → List (VendorEntry V) → List (VendorEntry V)
  placed entry [] = entry ∷ []
  placed entry (v ∷ vs) = if str_eq v.id entry.id then entry ∷ vs else v ∷ placed entry vs

  set_at-shifted :
      (entry v : VendorEntry V) (vs : List (VendorEntry V)) (o : Option ℕ)
      → set_at entry (v ∷ vs) (Option.map suc o) ≡ v ∷ set_at entry vs o
  unfolding set_at
  set_at-shifted entry v vs none = refl
  set_at-shifted entry v vs (some i) = refl

  set_at-placed :
      (entry : VendorEntry V) (vs : List (VendorEntry V))
      → set_at entry vs (index_where (λ v. str_eq v.id entry.id) vs) ≡ placed entry vs
  unfolding set_at index_where placed
  set_at-placed entry [] = refl
  set_at-placed entry (v ∷ vs) = elim (Bool-cases (str_eq v.id entry.id)) [
    | inl e ↦ rw e refl
    | inr e ↦ rw e (set_at-shifted entry v vs _ ∙ ap (λ ws. v ∷ ws) (set_at-placed entry vs))
  ]

  first_with-placed :
      (entry : VendorEntry V) (vs : List (VendorEntry V))
      → first_with entry.id (placed entry vs) ≡ some entry
  unfolding first_with placed
  first_with-placed entry [] = rw (str_eq_refl entry.id) refl
  first_with-placed entry (v ∷ vs) = elim (Bool-cases (str_eq v.id entry.id)) [
    | inl e ↦ rw (e, first_with, str_eq_refl entry.id) refl
    | inr e ↦ rw (e, first_with, e) (first_with-placed entry vs)
  ]

  first_with-skip :
      (k : String) (v : VendorEntry V) (vs : List (VendorEntry V))
      → v.id ≢ k
      → first_with k (v ∷ vs) ≡ first_with k vs
  unfolding first_with
  first_with-skip k v vs n = rw (str_eq-false v.id k n) refl

  first_with-cons :
      (k : String) (v : VendorEntry V) (vs ws : List (VendorEntry V))
      → first_with k vs ≡ first_with k ws
      → first_with k (v ∷ vs) ≡ first_with k (v ∷ ws)
  unfolding first_with
  first_with-cons k v vs ws h = ap (λ rest. if str_eq v.id k then some v else rest) h

  first_with-placed_ne :
      (entry : VendorEntry V) (k : String) (vs : List (VendorEntry V))
      → entry.id ≢ k
      → first_with k (placed entry vs) ≡ first_with k vs
  unfolding placed
  first_with-placed_ne entry k [] n = first_with-skip k entry [] n
  first_with-placed_ne entry k (v ∷ vs) n = elim (Bool-cases (str_eq v.id entry.id)) [
    | inl e ↦
        let other : v.id ≢ k = λ h. n (sym (str_eq-eq v.id entry.id e) ∙ h) in
        rw e (first_with-skip k entry vs n ∙ sym (first_with-skip k v vs other))
    | inr e ↦ rw e (first_with-cons k v (placed entry vs) vs (first_with-placed_ne entry k vs n))
  ]

  set_vendor-placed :
      (entry : VendorEntry V) (vs : List (VendorEntry V))
      → trim_space entry.id ≡ entry.id
      → is_empty entry.id ≡ false
      → set_vendor entry vs ≡ placed entry vs
  unfolding set_vendor vendor_index_by_id
  set_vendor-placed entry vs trimmed full = rw (trimmed, full) (set_at-placed entry vs)

  -- Setting a vendor whose identifier is trimmed and not empty changes what is found by that
  -- identifier, and nothing else.
  pub vendor_by_id-set_vendor :
      (entry : VendorEntry V) (vs : List (VendorEntry V)) (raw : String)
      → trim_space entry.id ≡ entry.id
      → is_empty entry.id ≡ false
      → vendor_by_id (set_vendor entry vs) raw
        ≡ (if str_eq entry.id (trim_space raw) then some entry else vendor_by_id vs raw)
  vendor_by_id-set_vendor entry vs raw trimmed full =
      ap (λ ws. vendor_by_id ws raw) (set_vendor-placed entry vs trimmed full)
      ∙ vendor_by_id-first_with (placed entry vs) raw
      ∙ elim (Bool-cases (str_eq entry.id (trim_space raw))) [
        | inl e ↦
            let same : entry.id ≡ trim_space raw = str_eq-eq entry.id (trim_space raw) e in
            let wanted : is_empty (trim_space raw) ≡ false = ap is_empty (sym same) ∙ full in
            rw (e, wanted)
              (ap (λ k. first_with k (placed entry vs)) (sym same) ∙ first_with-placed entry vs)
        | inr e ↦
            rw
              (
                e,
                vendor_by_id-first_with vs raw,
                first_with-placed_ne entry (trim_space raw) vs
                    (ne-of_str_eq entry.id (trim_space raw) e),
              )
              refl
      ]

  -- DeleteVendorByID, read off the entries.
  without : String → List (VendorEntry V) → List (VendorEntry V) × Bool
  without k [] = ([], false)
  without k (v ∷ vs) =
      let rest = without k vs in if str_eq v.id k then (vs, true) else (v ∷ rest.0, rest.1)

  delete_found-shifted :
      (v : VendorEntry V) (vs : List (VendorEntry V)) (o : Option ℕ)
      → delete_found (v ∷ vs) (Option.map suc o)
        ≡ (v ∷ (delete_found vs o).0, (delete_found vs o).1)
  unfolding delete_found drop_at
  delete_found-shifted v vs none = refl
  delete_found-shifted v vs (some i) = refl

  delete_found-without :
      (k : String) (vs : List (VendorEntry V))
      → delete_found vs (index_where (λ v. str_eq v.id k) vs) ≡ without k vs
  unfolding delete_found drop_at index_where without
  delete_found-without k [] = refl
  delete_found-without k (v ∷ vs) = elim (Bool-cases (str_eq v.id k)) [
    | inl e ↦ rw e refl
    | inr e ↦ rw e (
        delete_found-shifted v vs _
        ∙ ap (λ (r : List (VendorEntry V) × Bool). (v ∷ r.0, r.1)) (delete_found-without k vs))
  ]

  first_with-Absent :
      (k : String) (vs : List (VendorEntry V))
      → Absent (λ (v : VendorEntry V). v.id) k vs
      → first_with k vs ≡ none
  unfolding Absent first_with
  first_with-Absent k [] a = refl
  first_with-Absent k (v ∷ vs) (n, a) = rw (str_eq-false v.id k n) (first_with-Absent k vs a)

  first_with-without :
      (k : String) (vs : List (VendorEntry V))
      → Distinct (λ (v : VendorEntry V). v.id) vs
      → first_with k (without k vs).0 ≡ none
  unfolding Distinct without first_with
  first_with-without k [] d = refl
  first_with-without k (v ∷ vs) (a, d) = elim (Bool-cases (str_eq v.id k)) [
    | inl e ↦ rw e (
        first_with-Absent k vs
          (subst (λ j. Absent (λ (w : VendorEntry V). w.id) j vs) (str_eq-eq v.id k e) a))
    | inr e ↦ rw (e, first_with, e) (first_with-without k vs d)
  ]

  first_with-without_ne :
      (k j : String) (vs : List (VendorEntry V))
      → k ≢ j
      → first_with j (without k vs).0 ≡ first_with j vs
  unfolding without
  first_with-without_ne k j [] n = refl
  first_with-without_ne k j (v ∷ vs) n = elim (Bool-cases (str_eq v.id k)) [
    | inl e ↦
        let other : v.id ≢ j = λ h. n (sym (str_eq-eq v.id k e) ∙ h) in
        rw e (sym (first_with-skip j v vs other))
    | inr e ↦ rw e (first_with-cons j v (without k vs).0 vs (first_with-without_ne k j vs n))
  ]

  without-found :
      (k : String) (vs : List (VendorEntry V)) → (without k vs).1 ≡ is_found (first_with k vs)
  unfolding without first_with
  without-found k [] = refl
  without-found k (v ∷ vs) = elim (Bool-cases (str_eq v.id k)) [
    | inl e ↦ rw e refl
    | inr e ↦ rw e (without-found k vs)
  ]

  delete_vendor_by_id-without :
      (raw : String) (vs : List (VendorEntry V))
      → is_empty (trim_space raw) ≡ false
      → delete_vendor_by_id raw vs ≡ without (trim_space raw) vs
  unfolding delete_vendor_by_id vendor_index_by_id
  delete_vendor_by_id-without raw vs full = rw full (delete_found-without (trim_space raw) vs)

  vendor_by_id-full :
      (vs : List (VendorEntry V)) (raw : String)
      → is_empty (trim_space raw) ≡ false
      → vendor_by_id vs raw ≡ first_with (trim_space raw) vs
  vendor_by_id-full vs raw full = vendor_by_id-first_with vs raw ∙ rw full refl

  -- Deleting a vendor among vendors with distinct identifiers: the call says whether there was one,
  -- its identifier then finds nothing, and every other finds what it found before.
  pub vendor_by_id-delete_vendor_by_id :
      (raw other : String) (vs : List (VendorEntry V))
      → is_empty (trim_space raw) ≡ false
      → Distinct (λ (v : VendorEntry V). v.id) vs
      → ((delete_vendor_by_id raw vs).1 ≡ is_found (vendor_by_id vs raw))
        × (vendor_by_id (delete_vendor_by_id raw vs).0 other
            ≡ (if str_eq (trim_space raw) (trim_space other) then none else vendor_by_id vs other))
  vendor_by_id-delete_vendor_by_id raw other vs full d =
      let k = trim_space raw in
      let taken = delete_vendor_by_id-without raw vs full in
      (
        ap (λ (r : List (VendorEntry V) × Bool). r.1) taken
            ∙ without-found k vs
            ∙ ap is_found (sym (vendor_by_id-full vs raw full)),
        ap (λ (r : List (VendorEntry V) × Bool). vendor_by_id r.0 other) taken
            ∙ vendor_by_id-first_with (without k vs).0 other
            ∙ elim (Bool-cases (str_eq k (trim_space other))) [
              | inl e ↦
                  let same : k ≡ trim_space other = str_eq-eq k (trim_space other) e in
                  let wanted : is_empty (trim_space other) ≡ false =
                    ap is_empty (sym same) ∙ full in
                  rw (e, wanted)
                    (ap (λ j. first_with j (without k vs).0) (sym same) ∙ first_with-without k vs d)
              | inr e ↦
                  rw
                    (
                      e,
                      vendor_by_id-first_with vs other,
                      first_with-without_ne k (trim_space other) vs
                          (ne-of_str_eq k (trim_space other) e),
                    )
                    refl
            ],
      )
