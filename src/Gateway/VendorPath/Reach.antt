-- ===== src/Gateway/VendorPath/Reach.antt =====
-- internal/gateway/router.go: paths whose first segment is the name of a vendor.
use Prim.Native.Char.{Char, code}
use Prim.Native.String.{String}
use jc_proxy.Prelude.{
  Bool, true, false, ℕ, List, Option, none, some, ◌==◌, ◌||◌, get_elem?, arith, ◌≡◌, refl, sym, ap,
  ◌∙◌, Bool-cases, inl, inr,
}
use jc_proxy.Prelude.Result.{ok}
use jc_proxy.Prelude.Text.{trim_space, is_empty, append}
use jc_proxy.Config.Vendors.{
  VendorEntry, contains_any, is_separator, vendor_by_name, validate_vendor_name,
}
use jc_proxy.Config.Vendors.Naming.{prepare_vendors}
use jc_proxy.Config.Vendors.Routes.{prepare_vendors-found, prepare_vendors-name}
use jc_proxy.Gateway.VendorPath.{
  split_vendor_path, split_slash, trim_slash, vendor_and_rest, slash, with_char,
}

or-false : (a b : Bool) → (a || b) ≡ false → (a ≡ false) × (b ≡ false)
or-false true b h = absurd (ground arith)
or-false false b h = (refl, h)

no_separator :
    (c : Char) (s : String)
    → contains_any is_separator (String.◌∷◌ c s) ≡ false
    → ((code c == 47) ≡ false) × (contains_any is_separator s ≡ false)
unfolding contains_any
no_separator c s h =
    let (head, tail) = or-false (is_separator (code c)) (contains_any is_separator s) h in
    elim (Bool-cases (code c == 47)) [ inl e ↦ absurd (ground arith) | inr e ↦ (e, tail) ]

split_slash-append :
    (name path : String)
    → contains_any is_separator name ≡ false
    → split_slash (append name (slash path)) ≡ (name, some path)
unfolding split_slash
split_slash-append String.[] path h = refl
split_slash-append (String.◌∷◌ c s) path h =
    let (plain, rest) = no_separator c s h in
    rw plain (ap (with_char c) (split_slash-append s path rest))

split_slash-whole :
    (name : String) → contains_any is_separator name ≡ false → split_slash name ≡ (name, none)
unfolding split_slash
split_slash-whole String.[] h = refl
split_slash-whole (String.◌∷◌ c s) h =
    let (plain, rest) = no_separator c s h in rw plain (ap (with_char c) (split_slash-whole s rest))

-- A name that is accepted is one segment of a path.
validate_vendor_name-one_segment :
    (to_lower : String → String) (name : String)
    → validate_vendor_name to_lower name ≡ none
    → (is_empty (trim_space name) ≡ false) × (contains_any is_separator name ≡ false)
unfolding validate_vendor_name
validate_vendor_name-one_segment to_lower name h = elim (Bool-cases (is_empty (trim_space name))) [
  | inl e ↦ absurd (ground arith)
  | inr e ↦ elim (Bool-cases (contains_any is_separator name)) [
    | inl g ↦ absurd (ground arith)
    | inr g ↦ (e, g)
  ]
]

is_empty-append : (s t : String) → is_empty s ≡ false → is_empty (append s t) ≡ false
is_empty-append String.[] t h = absurd (ground arith)
is_empty-append (String.◌∷◌ c s) t h = refl

split_vendor_path_slashed :
    (s : String)
    → is_empty s ≡ false
    → split_vendor_path (slash s) ≡ vendor_and_rest (split_slash s)
unfolding split_vendor_path trim_slash
split_vendor_path_slashed s full = rw full refl

split_vendor_path-slash :
    (name path : String)
    → is_empty name ≡ false
    → contains_any is_separator name ≡ false
    → split_vendor_path (slash (append name (slash path))) ≡ some (name, slash path)
unfolding vendor_and_rest
split_vendor_path-slash name path full plain =
    split_vendor_path_slashed (append name (slash path)) (is_empty-append name (slash path) full)
    ∙ ap vendor_and_rest (split_slash-append name path plain)
    ∙ rw full refl

split_vendor_path-whole :
    (name : String)
    → is_empty name ≡ false
    → contains_any is_separator name ≡ false
    → split_vendor_path (slash name) ≡ some (name, "/")
unfolding vendor_and_rest
split_vendor_path-whole name full plain =
    split_vendor_path_slashed name full
    ∙ ap vendor_and_rest (split_slash-whole name plain)
    ∙ rw full refl

-- In a configuration that PrepareAndValidate accepts, a request path whose first segment is a vendor's
-- name is split into that name and the rest, or "/" where nothing follows, and the name leads to
-- that vendor.
pub split_vendor_path-vendor_by_name :
    {V : Type 0} (to_lower : String → String) (default_config : VendorEntry V → V)
    (draws : ℕ → Option (List ℕ)) (given vs : List (VendorEntry V)) (i : ℕ) (v : VendorEntry V)
    (path : String)
    → prepare_vendors to_lower default_config draws given ≡ ok vs
    → get_elem? vs i ≡ some v
    → (split_vendor_path (slash (append v.name (slash path))) ≡ some (v.name, slash path))
      × (split_vendor_path (slash v.name) ≡ some (v.name, "/"))
      × (vendor_by_name vs v.name ≡ some v)
split_vendor_path-vendor_by_name to_lower default_config draws given vs i v path h at =
    let (by_id, by_name) = prepare_vendors-found to_lower default_config draws given vs i v h at in
    let (valid, trimmed) = prepare_vendors-name to_lower default_config draws given vs i v h at in
    let (blank, plain) = validate_vendor_name-one_segment to_lower v.name valid in
    let full : is_empty v.name ≡ false = sym (ap is_empty trimmed) ∙ blank in
    (
      split_vendor_path-slash v.name path full plain,
      split_vendor_path-whole v.name full plain,
      by_name,
    )
