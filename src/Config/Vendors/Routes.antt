-- ===== src/Config/Vendors/Routes.antt =====
-- internal/config/vendors.go: lookups in a configuration that PrepareAndValidate accepts.
use Prim.Native.String.{String}
use mathlib.Core.Option
use mathlib.Core.Path.{subst}
use jc_proxy.Prelude.{
  false, ℕ, zero, suc, List, [], ◌∷◌, Option, none, some, get_elem?, arith, ◌≡◌, refl, ap, ◌∙◌,
  Bool-cases, inl, inr, some_inj,
}
use jc_proxy.Prelude.Result.{Result, ok, err, ok_inj}
use jc_proxy.Prelude.Text.{trim_space, is_empty}
use jc_proxy.Prelude.Text.Trim.{trim_space_twice}
use jc_proxy.Config.Vendors.{
  VendorEntry, VendorError, vendor_index_by_id, vendor_index_by_name, vendor_by_id, vendor_by_name,
  validate_vendor_id, validate_vendor_name,
}
use jc_proxy.Config.Vendors.Naming.{
  nothing_seen, validate_vendors, ensure_vendor_ids, prepare_vendors, prepared, accepted,
  default_vendors,
}
use jc_proxy.Config.Vendors.Distinct.{
  Distinct, index_where-get, validate_vendors-Distinct, validate_vendors-names,
}

is_empty-trimmed : (s : String) → validate_vendor_id s ≡ none → is_empty (trim_space s) ≡ false
unfolding validate_vendor_id
is_empty-trimmed s h = elim (Bool-cases (is_empty (trim_space s))) [
  | inl e ↦ absurd (ground arith)
  | inr e ↦ e
]

is_empty-name :
    (to_lower : String → String) (s : String)
    → validate_vendor_name to_lower s ≡ none
    → is_empty (trim_space s) ≡ false
unfolding validate_vendor_name
is_empty-name to_lower s h = elim (Bool-cases (is_empty (trim_space s))) [
  | inl e ↦ absurd (ground arith)
  | inr e ↦ e
]

module _ {V : Type 0} where
  default_vendors-trimmed :
      (default_config : VendorEntry V → V) (vs : List (VendorEntry V)) (i : ℕ) (v : VendorEntry V)
      → get_elem? (default_vendors default_config vs) i ≡ some v
      → (trim_space v.id ≡ v.id) × (trim_space v.name ≡ v.name)
  unfolding default_vendors
  default_vendors-trimmed f [] i v at = absurd (ground arith)
  default_vendors-trimmed f (w ∷ ws) zero v at =
      subst (λ (x : VendorEntry V). (trim_space x.id ≡ x.id) × (trim_space x.name ≡ x.name))
        (some_inj at) (trim_space_twice w.id, trim_space_twice w.name)
  default_vendors-trimmed f (w ∷ ws) (suc i) v at = default_vendors-trimmed f ws i v at

  vendor_by_id-get :
      (vs : List (VendorEntry V)) (i : ℕ) (v : VendorEntry V)
      → Distinct (λ (w : VendorEntry V). w.id) vs
      → get_elem? vs i ≡ some v
      → trim_space v.id ≡ v.id
      → is_empty (trim_space v.id) ≡ false
      → vendor_by_id vs v.id ≡ some v
  unfolding vendor_by_id vendor_index_by_id Option.bind
  vendor_by_id-get vs i v d at trimmed full =
      rw (full, trimmed, index_where-get (λ (w : VendorEntry V). w.id) vs i v d at) at

  vendor_by_name-get :
      (vs : List (VendorEntry V)) (i : ℕ) (v : VendorEntry V)
      → Distinct (λ (w : VendorEntry V). w.name) vs
      → get_elem? vs i ≡ some v
      → trim_space v.name ≡ v.name
      → is_empty (trim_space v.name) ≡ false
      → vendor_by_name vs v.name ≡ some v
  unfolding vendor_by_name vendor_index_by_name Option.bind
  vendor_by_name-get vs i v d at trimmed full =
      rw (full, trimmed, index_where-get (λ (w : VendorEntry V). w.name) vs i v d at) at

module _ {V : Type 0} (to_lower : String → String) (default_config : VendorEntry V → V) where
  accepted-ok :
      (vs xs : List (VendorEntry V)) (o : Option VendorError)
      → accepted xs o ≡ ok vs
      → (xs ≡ vs) × (o ≡ none)
  accepted-ok vs xs none h = (ok_inj h, refl)
  accepted-ok vs xs (some e) h = absurd (ground arith)

  prepared-ok :
      (vs : List (VendorEntry V)) (r : Result VendorError (List (VendorEntry V)))
      → prepared to_lower default_config r ≡ ok vs
      → (ws : List (VendorEntry V)) × (default_vendors default_config ws ≡ vs)
        × (validate_vendors to_lower nothing_seen vs ≡ none)
  prepared-ok vs (ok ws) h =
      let (made, valid) =
        accepted-ok vs (default_vendors default_config ws)
          (validate_vendors to_lower nothing_seen (default_vendors default_config ws)) h in
      (ws, made, subst (λ xs. validate_vendors to_lower nothing_seen xs ≡ none) made valid)
  prepared-ok vs (err e) h = absurd (ground arith)

  prepare_vendors-ok :
      (draws : ℕ → Option (List ℕ)) (given vs : List (VendorEntry V))
      → prepare_vendors to_lower default_config draws given ≡ ok vs
      → (ws : List (VendorEntry V)) × (default_vendors default_config ws ≡ vs)
        × (validate_vendors to_lower nothing_seen vs ≡ none)
  unfolding prepare_vendors
  prepare_vendors-ok draws given vs h = prepared-ok vs (ensure_vendor_ids draws 0 given) h

  pub prepare_vendors-name :
      (draws : ℕ → Option (List ℕ)) (given vs : List (VendorEntry V)) (i : ℕ) (v : VendorEntry V)
      → prepare_vendors to_lower default_config draws given ≡ ok vs
      → get_elem? vs i ≡ some v
      → (validate_vendor_name to_lower v.name ≡ none) × (trim_space v.name ≡ v.name)
  prepare_vendors-name draws given vs i v h at =
      let (ws, made, valid) = prepare_vendors-ok draws given vs h in
      let (id_ok, name_ok) = validate_vendors-names to_lower nothing_seen vs i v valid at in
      let (id, name) =
        default_vendors-trimmed default_config ws i v (ap (λ xs. get_elem? xs i) made ∙ at) in
      (name_ok, name)

  -- In a configuration that PrepareAndValidate accepts, each vendor is found by its identifier and by
  -- its name, and is the only one that is.
  pub prepare_vendors-found :
      (draws : ℕ → Option (List ℕ)) (given vs : List (VendorEntry V)) (i : ℕ) (v : VendorEntry V)
      → prepare_vendors to_lower default_config draws given ≡ ok vs
      → get_elem? vs i ≡ some v
      → (vendor_by_id vs v.id ≡ some v) × (vendor_by_name vs v.name ≡ some v)
  prepare_vendors-found draws given vs i v h at =
      let (ws, made, valid) = prepare_vendors-ok draws given vs h in
      let (ids, names) = validate_vendors-Distinct to_lower nothing_seen vs valid in
      let (id_ok, name_ok) = validate_vendors-names to_lower nothing_seen vs i v valid at in
      let (id, name) =
        default_vendors-trimmed default_config ws i v (ap (λ xs. get_elem? xs i) made ∙ at) in
      (
        vendor_by_id-get vs i v ids at id (is_empty-trimmed v.id id_ok),
        vendor_by_name-get vs i v names at name (is_empty-name to_lower v.name name_ok),
      )
