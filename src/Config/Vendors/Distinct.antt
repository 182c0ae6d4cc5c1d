-- ===== src/Config/Vendors/Distinct.antt =====
-- internal/config/config.go: the loop of validate over the vendors.
use Prim.Native.String.{String}
use text.Mathlib.Text.{◌==◌ as str_eq}
use mathlib.Core.Path.{subst}
use jc_proxy.Prelude.{
  ℕ, zero, suc, List, [], ◌∷◌, Option, none, some, get_elem?, arith, ◌≡◌, ◌≢◌, refl, sym, ap, ◌∙◌,
  some_inj,
}
use jc_proxy.Prelude.Table.{lookup, lookup-put, lookup-put_ne, str_eq_refl, str_eq-false}
use jc_proxy.Config.Vendors.{
  VendorEntry, VendorError, index_where, validate_vendor_id, validate_vendor_name,
}
use jc_proxy.Config.Vendors.Naming.{
  Seen, see, first_error, validate_vendor, validate_vendors, duplicate_id_error,
  duplicate_name_error,
}

module _ {A : Type 0} (key : A → String) where
  unfoldable pub Absent : String → List A → Type 0
  Absent k [] = Unit
  Absent k (x ∷ xs) = (key x ≢ k) × Absent k xs

  unfoldable pub Distinct : List A → Type 0
  Distinct [] = Unit
  Distinct (x ∷ xs) = Absent (key x) xs × Distinct xs

  Absent-get :
      (k : String) (xs : List A) (i : ℕ) (x : A) → Absent k xs → get_elem? xs i ≡ some x → key x ≢ k
  unfolding Absent
  Absent-get k [] i x a at = absurd (ground arith)
  Absent-get k (y ∷ ys) zero x (n, a) at = λ h. n (ap key (some_inj at) ∙ h)
  Absent-get k (y ∷ ys) (suc i) x (n, a) at = Absent-get k ys i x a at

  pub index_where-get :
      (xs : List A) (i : ℕ) (x : A)
      → Distinct xs
      → get_elem? xs i ≡ some x
      → index_where (λ y. str_eq (key y) (key x)) xs ≡ some i
  unfolding index_where Distinct
  index_where-get [] i x d at = absurd (ground arith)
  index_where-get (y ∷ ys) zero x d at =
      let same : key y ≡ key x = ap key (some_inj at) in rw (same, str_eq_refl (key x)) refl
  index_where-get (y ∷ ys) (suc i) x (a, d) at =
      let other = str_eq-false (key y) (key x) (λ h. Absent-get (key y) ys i x a at (sym h)) in
      rw (other, index_where-get ys i x d at) refl

first_error-none : (a b : Option VendorError) → first_error a b ≡ none → (a ≡ none) × (b ≡ none)
first_error-none none b h = (refl, h)
first_error-none (some e) b h = absurd (ground arith)

duplicate_id_error-none :
    (o : Option String) → duplicate_id_error o ≡ none → ◌≡◌ {A = Option String} o none
duplicate_id_error-none none h = refl
duplicate_id_error-none (some s) h = absurd (ground arith)

duplicate_name_error-none :
    (o : Option (Unit {0})) → duplicate_name_error o ≡ none → ◌≡◌ {A = Option (Unit {0})} o none
duplicate_name_error-none none h = refl
duplicate_name_error-none (some s) h = absurd (ground arith)

module _ {V : Type 0} (to_lower : String → String) where
  -- What the check of one vendor shows.
  record Accepted (seen : Seen) (v : VendorEntry V) : Type 0 where
    pub id_ok : validate_vendor_id v.id ≡ none
    pub name_ok : validate_vendor_name to_lower v.name ≡ none
    pub new_id : lookup seen.ids v.id ≡ none
    pub new_name : lookup seen.names v.name ≡ none

  validate_vendor-Accepted :
      (seen : Seen) (v : VendorEntry V) → validate_vendor to_lower seen v ≡ none → Accepted seen v
  unfolding validate_vendor
  validate_vendor-Accepted seen v h =
      let (a, h1) = first_error-none _ _ h in
      let (b, h2) = first_error-none _ _ h1 in
      let (c, d) = first_error-none _ _ h2 in
      record {
        id_ok = a;
        name_ok = c;
        new_id = duplicate_id_error-none (lookup seen.ids v.id) b;
        new_name = duplicate_name_error-none (lookup seen.names v.name) d;
      }

  validate_vendors-split :
      (seen : Seen) (v : VendorEntry V) (vs : List (VendorEntry V))
      → validate_vendors to_lower seen (v ∷ vs) ≡ none
      → Accepted seen v × (validate_vendors to_lower (see v seen) vs ≡ none)
  unfolding validate_vendors
  validate_vendors-split seen v vs h =
      let (a, b) = first_error-none _ _ h in (validate_vendor-Accepted seen v a, b)

  validate_vendors-new_id :
      (seen : Seen) (vs : List (VendorEntry V)) (k n : String)
      → lookup seen.ids k ≡ some n
      → validate_vendors to_lower seen vs ≡ none
      → Absent (λ (v : VendorEntry V). v.id) k vs
  unfolding Absent
  validate_vendors-new_id seen [] k n old h = tt
  validate_vendors-new_id seen (v ∷ vs) k n old h =
      let (a, rest) = validate_vendors-split seen v vs h in
      let other : v.id ≢ k = λ same. cc (sym (ap (lookup seen.ids) same) ∙ a.new_id, old) in
      (
        other,
        validate_vendors-new_id (see v seen) vs k n
            (lookup-put_ne seen.ids v.id k v.name other ∙ old) rest,
      )

  validate_vendors-new_name :
      (seen : Seen) (vs : List (VendorEntry V)) (k : String)
      → lookup seen.names k ≡ some tt
      → validate_vendors to_lower seen vs ≡ none
      → Absent (λ (v : VendorEntry V). v.name) k vs
  unfolding Absent
  validate_vendors-new_name seen [] k old h = tt
  validate_vendors-new_name seen (v ∷ vs) k old h =
      let (a, rest) = validate_vendors-split seen v vs h in
      let other : v.name ≢ k = λ same. cc (sym (ap (lookup seen.names) same) ∙ a.new_name, old) in
      (
        other,
        validate_vendors-new_name (see v seen) vs k
            (lookup-put_ne seen.names v.name k tt other ∙ old) rest,
      )

  pub validate_vendors-Distinct :
      (seen : Seen) (vs : List (VendorEntry V))
      → validate_vendors to_lower seen vs ≡ none
      → Distinct (λ (v : VendorEntry V). v.id) vs × Distinct (λ (v : VendorEntry V). v.name) vs
  unfolding Distinct
  validate_vendors-Distinct seen [] h = (tt, tt)
  validate_vendors-Distinct seen (v ∷ vs) h =
      let (a, rest) = validate_vendors-split seen v vs h in
      let (ids, names) = validate_vendors-Distinct (see v seen) vs rest in
      (
        (
          validate_vendors-new_id (see v seen) vs v.id v.name (lookup-put seen.ids v.id v.name)
              rest,
          ids,
        ),
        (
          validate_vendors-new_name (see v seen) vs v.name (lookup-put seen.names v.name tt) rest,
          names,
        ),
      )

  pub validate_vendors-names :
      (seen : Seen) (vs : List (VendorEntry V)) (i : ℕ) (v : VendorEntry V)
      → validate_vendors to_lower seen vs ≡ none
      → get_elem? vs i ≡ some v
      → (validate_vendor_id v.id ≡ none) × (validate_vendor_name to_lower v.name ≡ none)
  validate_vendors-names seen [] i v h at = absurd (ground arith)
  validate_vendors-names seen (w ∷ ws) zero v h at =
      let (a, rest) = validate_vendors-split seen w ws h in
      let same : w ≡ v = some_inj at in
      subst (λ x. (validate_vendor_id x.id ≡ none) × (validate_vendor_name to_lower x.name ≡ none))
        same (a.id_ok, a.name_ok)
  validate_vendors-names seen (w ∷ ws) (suc i) v h at =
      let (a, rest) = validate_vendors-split seen w ws h in
      validate_vendors-names (see w seen) ws i v rest at
