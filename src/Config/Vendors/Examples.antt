-- ===== src/Config/Vendors/Examples.antt =====
-- Two vendors, one of which comes without an identifier.
use Prim.Native.String.{String}
use mathlib.Core.Option
use text.Mathlib.Text.{◌==◌ as str_eq}
use jc_proxy.Prelude.{true, ℕ, List, [], ◌∷◌, Option, none, some, if◌then◌else◌, ◌≡◌, refl}
use jc_proxy.Prelude.Result.{ok, err}
use jc_proxy.Prelude.Text.{trim_space}
use jc_proxy.Prelude.Table.{ne-of_str_eq, lookup, put}
use jc_proxy.Config.Vendors.{
  VendorEntry, duplicate_id, name_reserved, name_separator, no_random, vendor_by_id, vendor_ids,
  set_vendor, delete_vendor_by_id, vendor_name_by_id,
}
use jc_proxy.Config.Vendors.Naming.{prepare_vendors, mints_vendor_ids}
use jc_proxy.Config.Vendors.Distinct.{Distinct, Absent}
use jc_proxy.Config.Vendors.Updates.{
  is_found, vendor_by_id-set_vendor, vendor_by_id-delete_vendor_by_id,
}

abbrev pub vendor : String → String → VendorEntry ℕ
vendor id name = record { id = id; name = name; vendor_config = 5 }

-- The library's ToLower is not called upon: no name here has a capital letter.
abbrev pub to_lower : String → String
to_lower s = s

abbrev pub same_config : VendorEntry ℕ → ℕ
same_config v = v.vendor_config

abbrev pub draws : ℕ → Option (List ℕ)
draws n = some (n ∷ 0xa5 ∷ [])

abbrev pub given : List (VendorEntry ℕ)
given = vendor " v_1" "open" ∷ vendor "" " claude " ∷ []

abbrev pub two_vendors : List (VendorEntry ℕ)
two_vendors = vendor "v_1" "open" ∷ vendor "v_00a5" "claude" ∷ []

pub prepare_test : prepare_vendors to_lower same_config draws given ≡ ok two_vendors
unfolding prepare_vendors trim_space lookup put
prepare_test = refl

no_random_test : prepare_vendors to_lower same_config (λ n. none) given ≡ err no_random
unfolding prepare_vendors trim_space
no_random_test = refl

duplicate_test :
    prepare_vendors to_lower same_config draws (vendor "a" "x" ∷ vendor "a" "y" ∷ [])
    ≡ err (duplicate_id "x")
unfolding prepare_vendors trim_space lookup put
duplicate_test = refl

reserved_test :
    prepare_vendors to_lower same_config draws (vendor "a" "admin" ∷ []) ≡ err name_reserved
unfolding prepare_vendors trim_space lookup
reserved_test = refl

separator_test :
    prepare_vendors to_lower same_config draws (vendor "a" "x/y" ∷ []) ≡ err name_separator
unfolding prepare_vendors trim_space lookup
separator_test = refl

mints_test : mints_vendor_ids given ≡ true
unfolding mints_vendor_ids trim_space
mints_test = refl

ids_test : vendor_ids two_vendors ≡ "v_1" ∷ "v_00a5" ∷ []
ids_test = refl

name_test : vendor_name_by_id two_vendors " v_1 " ≡ some "open"
unfolding vendor_name_by_id Option.bind trim_space
name_test = refl

vendor_by_id-set_vendor_example :
    vendor_by_id (set_vendor (vendor "v_1" "renamed") two_vendors) "v_1 " ≡ (
      if str_eq "v_1" (trim_space "v_1 ")
      then some (vendor "v_1" "renamed")
      else vendor_by_id two_vendors "v_1 ")
unfolding trim_space
vendor_by_id-set_vendor_example =
    vendor_by_id-set_vendor (vendor "v_1" "renamed") two_vendors "v_1 " refl refl

two_vendors-Distinct : Distinct (λ (v : VendorEntry ℕ). v.id) two_vendors
unfolding Distinct Absent
two_vendors-Distinct = ((ne-of_str_eq "v_00a5" "v_1" refl, tt), (tt, tt))

vendor_by_id-delete_vendor_by_id_example :
    ((delete_vendor_by_id "v_1" two_vendors).1 ≡ is_found (vendor_by_id two_vendors "v_1"))
    × (vendor_by_id (delete_vendor_by_id "v_1" two_vendors).0 "v_00a5" ≡ (
        if str_eq (trim_space "v_1") (trim_space "v_00a5")
        then none
        else vendor_by_id two_vendors "v_00a5"))
unfolding trim_space
vendor_by_id-delete_vendor_by_id_example =
    vendor_by_id-delete_vendor_by_id "v_1" "v_00a5" two_vendors refl two_vendors-Distinct
