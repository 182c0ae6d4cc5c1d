-- ===== src/Config/Vendors/Naming.antt =====
-- internal/config/config.go: ensureVendorIDs, and the loop of validate over the vendors.
use Prim.Native.String.{String}
use jc_proxy.Prelude.{Bool, true, false, ℕ, suc, List, [], ◌∷◌, Option, none, some, if◌then◌else◌}
use jc_proxy.Prelude.Result.{Result, ok, err}
use jc_proxy.Prelude.Text.{trim_space, is_empty}
use jc_proxy.Prelude.Table.{Table, lookup, put}
use jc_proxy.Config.Vendors.{
  VendorEntry, VendorError, duplicate_id, duplicate_name, validate_vendor_id, validate_vendor_name,
  new_vendor_id,
}

module _ {V : Type 0} where
  -- `draws n` is what rand.Read gives on the call of number `n`.
  abbrev with_vendor :
      VendorEntry V
      → Result VendorError (List (VendorEntry V))
      → Result VendorError (List (VendorEntry V))
  with_vendor v (ok vs) = ok (v ∷ vs)
  with_vendor v (err e) = err e

  abbrev named :
      VendorEntry V
      → Result VendorError String
      → Result VendorError (List (VendorEntry V))
      → Result VendorError (List (VendorEntry V))
  named v (ok id) rest = with_vendor (record v { id = id }) rest
  named v (err e) rest = err e

  unfoldable pub ensure_vendor_ids :
      (ℕ → Option (List ℕ)) → ℕ → List (VendorEntry V) → Result VendorError (List (VendorEntry V))
  unfolding new_vendor_id
  ensure_vendor_ids draws n [] = ok []
  ensure_vendor_ids draws n (v ∷ vs) =
      let generated = ensure_vendor_ids draws (suc n) vs in
      let given = ensure_vendor_ids draws n vs in
      if is_empty (trim_space v.id)
      then named v (new_vendor_id (draws n)) generated
      else named v (ok (trim_space v.id)) given

  -- mintedVendorIDs, where it was unset: whether an identifier is generated.
  unfoldable pub mints_vendor_ids : List (VendorEntry V) → Bool
  mints_vendor_ids [] = false
  mints_vendor_ids (v ∷ vs) =
      let rest = mints_vendor_ids vs in if is_empty (trim_space v.id) then true else rest

  -- The part of applyDefaults about the names; `default_config` is the rest, for one vendor.
  unfoldable pub default_vendors : (VendorEntry V → V) → List (VendorEntry V) → List (VendorEntry V)
  default_vendors default_config [] = []
  default_vendors default_config (v ∷ vs) =
      let entry : VendorEntry V = record v { id = trim_space v.id; name = trim_space v.name } in
      record entry { vendor_config = default_config entry } ∷ default_vendors default_config vs

  abbrev pub accepted :
      List (VendorEntry V) → Option VendorError → Result VendorError (List (VendorEntry V))
  accepted vs none = ok vs
  accepted vs (some e) = err e

-- The maps that find what is used twice: the name of each identifier, and the names.
pub record Seen : Type 0 where
  pub ids : Table String
  pub names : Table (Unit {0})

abbrev pub nothing_seen : Seen
nothing_seen = record { ids = []; names = [] }

abbrev pub see : {V : Type 0} → VendorEntry V → Seen → Seen
see v seen = record { ids = put seen.ids v.id v.name; names = put seen.names v.name tt }

abbrev pub first_error : Option VendorError → Option VendorError → Option VendorError
first_error none next = next
first_error (some e) next = some e

abbrev pub duplicate_id_error : Option String → Option VendorError
duplicate_id_error none = none
duplicate_id_error (some previous) = some (duplicate_id previous)

abbrev pub duplicate_name_error : Option (Unit {0}) → Option VendorError
duplicate_name_error none = none
duplicate_name_error (some seen) = some duplicate_name

module _ {V : Type 0} (to_lower : String → String) where
  unfoldable pub validate_vendor : Seen → VendorEntry V → Option VendorError
  unfolding validate_vendor_id validate_vendor_name
  validate_vendor seen v = first_error (validate_vendor_id v.id) (
      first_error (duplicate_id_error (lookup seen.ids v.id)) (
        first_error (validate_vendor_name to_lower v.name)
          (duplicate_name_error (lookup seen.names v.name))))

  unfoldable pub validate_vendors : Seen → List (VendorEntry V) → Option VendorError
  unfolding validate_vendor
  validate_vendors seen [] = none
  validate_vendors seen (v ∷ vs) =
      let rest = validate_vendors (see v seen) vs in first_error (validate_vendor seen v) rest

  abbrev pub validated : List (VendorEntry V) → Result VendorError (List (VendorEntry V))
  validated vs = accepted vs (validate_vendors nothing_seen vs)

  abbrev pub prepared :
      (VendorEntry V → V)
      → Result VendorError (List (VendorEntry V))
      → Result VendorError (List (VendorEntry V))
  prepared default_config (ok vs) = validated (default_vendors default_config vs)
  prepared default_config (err e) = err e

  -- PrepareAndValidate, as far as it concerns the identifiers and names of the vendors.
  unfoldable pub prepare_vendors :
      (VendorEntry V → V)
      → (ℕ → Option (List ℕ))
      → List (VendorEntry V)
      → Result VendorError (List (VendorEntry V))
  unfolding validate_vendors ensure_vendor_ids default_vendors
  prepare_vendors default_config draws vs = prepared default_config (ensure_vendor_ids draws 0 vs)
