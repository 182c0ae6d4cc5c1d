-- ===== src/Config/Vendors.antt =====
-- internal/config/vendors.go, with ensureVendorIDs and the check of the vendors in internal/config/
-- config.go. The configuration of a vendor is a parameter, and so are strings.ToLower and the random
-- bytes. An error's text is its constructor. The receiver is never nil.

pub mod Naming
pub mod Distinct
pub mod Updates
pub mod Examples
pub mod Routes
use Prim.Native.Char.{Char, code}
use Prim.Native.String.{String}
use text.Mathlib.Text.{◌==◌ as str_eq}
use mathlib.Core.Option
use jc_proxy.Prelude.{
  Bool, true, false, not, ◌&&◌, ◌||◌, ℕ, zero, suc, ◌+◌, ◌/◌, ◌%◌, List, [], ◌∷◌, ◌++◌, map, Option,
  none, some, ltb, leb, ◌==◌, if◌then◌else◌, get_elem?, set,
}
use jc_proxy.Prelude.Result.{Result, ok, err}
use jc_proxy.Prelude.Text.{trim_space, is_empty, append}
use jc_proxy.Prelude.Table.{Table, lookup, put}

pub record VendorEntry (V : Type 0) : Type 0 where
  pub id : String
  pub name : String
  pub vendor_config : V

pub data VendorError : Type 0 where
  id_missing id_too_long id_characters : VendorError
  name_missing name_blanks name_too_long name_separator name_whitespace : VendorError
  name_dots name_reserved duplicate_name no_random : VendorError
  duplicate_id : String → VendorError

abbrev utf8_width : ℕ → ℕ
utf8_width c = if ltb c 0x80 then 1 else if ltb c 0x800 then 2 else if ltb c 0x10000 then 3 else 4

-- len(s), in bytes.
unfoldable pub byte_length : String → ℕ
byte_length String.[] = 0
byte_length (String.◌∷◌ c s) = utf8_width (code c) + byte_length s

-- strings.ContainsAny.
unfoldable pub contains_any : (ℕ → Bool) → String → Bool
contains_any member String.[] = false
contains_any member (String.◌∷◌ c s) = member (code c) || contains_any member s

-- A character of an identifier: letters, digits, '_' and '-'.
abbrev pub is_id_char : ℕ → Bool
is_id_char c =
    (leb 97 c && leb c 122)
    || (leb 65 c && leb c 90)
    || (leb 48 c && leb c 57)
    || c == 95
    || c == 45

unfoldable pub validate_vendor_id : String → Option VendorError
unfolding byte_length contains_any
validate_vendor_id raw =
    let id = trim_space raw in
    if is_empty id
    then some id_missing
    else if ltb 64 (byte_length id)
    then some id_too_long
    else if contains_any (λ c. not (is_id_char c)) id
    then some id_characters
    else none

-- '/', '?', '#', '%' and the backslash.
abbrev pub is_separator : ℕ → Bool
is_separator c = c == 47 || c == 63 || c == 35 || c == 37 || c == 92

abbrev is_blank : ℕ → Bool
is_blank c = c == 32 || c == 9 || c == 13 || c == 10

abbrev reserved_vendor_name : String → Bool
reserved_vendor_name s = str_eq s "healthz" || str_eq s "console" || str_eq s "admin"

unfoldable pub validate_vendor_name : (String → String) → String → Option VendorError
unfolding byte_length contains_any
validate_vendor_name to_lower name =
    let trimmed = trim_space name in
    if is_empty trimmed
    then some name_missing
    else if not (str_eq trimmed name)
    then some name_blanks
    else if ltb 128 (byte_length name)
    then some name_too_long
    else if contains_any is_separator name
    then some name_separator
    else if contains_any is_blank name
    then some name_whitespace
    else if str_eq name "." || str_eq name ".."
    then some name_dots
    else if reserved_vendor_name (to_lower name)
    then some name_reserved
    else none

-- An index, or none for Go's -1.
unfoldable pub index_where : {A : Type 0} → (A → Bool) → List A → Option ℕ
index_where p [] = none
index_where p (x ∷ xs) = let rest = index_where p xs in if p x then some 0 else Option.map suc rest

module _ {V : Type 0} where
  unfoldable pub vendor_index_by_id : List (VendorEntry V) → String → Option ℕ
  unfolding index_where
  vendor_index_by_id vendors raw =
      let wanted = trim_space raw in
      if is_empty wanted then none else index_where (λ v. str_eq v.id wanted) vendors

  unfoldable pub vendor_index_by_name : List (VendorEntry V) → String → Option ℕ
  unfolding index_where
  vendor_index_by_name vendors raw =
      let wanted = trim_space raw in
      if is_empty wanted then none else index_where (λ v. str_eq v.name wanted) vendors

  unfoldable pub vendor_by_id : List (VendorEntry V) → String → Option (VendorEntry V)
  unfolding vendor_index_by_id
  vendor_by_id vendors id = Option.bind (vendor_index_by_id vendors id) (get_elem? vendors)

  unfoldable pub vendor_by_name : List (VendorEntry V) → String → Option (VendorEntry V)
  unfolding vendor_index_by_name
  vendor_by_name vendors name = Option.bind (vendor_index_by_name vendors name) (get_elem? vendors)

  unfoldable pub set_at : VendorEntry V → List (VendorEntry V) → Option ℕ → List (VendorEntry V)
  set_at entry vendors none = vendors ++ (entry ∷ [])
  set_at entry vendors (some i) = set vendors i entry

  unfoldable pub set_vendor : VendorEntry V → List (VendorEntry V) → List (VendorEntry V)
  unfolding set_at vendor_index_by_id
  set_vendor entry vendors = set_at entry vendors (vendor_index_by_id vendors entry.id)

  -- append(vendors[:i], vendors[i+1:]...).
  unfoldable pub drop_at : List (VendorEntry V) → ℕ → List (VendorEntry V)
  drop_at [] i = []
  drop_at (v ∷ vs) zero = vs
  drop_at (v ∷ vs) (suc i) = v ∷ drop_at vs i

  unfoldable pub delete_found : List (VendorEntry V) → Option ℕ → List (VendorEntry V) × Bool
  unfolding drop_at
  delete_found vendors none = (vendors, false)
  delete_found vendors (some i) = (drop_at vendors i, true)

  unfoldable pub delete_vendor_by_id : String → List (VendorEntry V) → List (VendorEntry V) × Bool
  unfolding delete_found vendor_index_by_id
  delete_vendor_by_id id vendors = delete_found vendors (vendor_index_by_id vendors id)

  abbrev pub vendor_ids : List (VendorEntry V) → List String
  vendor_ids vendors = map (λ v. v.id) vendors

  unfoldable pub vendor_name_by_id : List (VendorEntry V) → String → Option String
  unfolding vendor_by_id
  vendor_name_by_id vendors id = Option.map (λ v. v.name) (vendor_by_id vendors id)

abbrev char_at : ℕ → String → Char
char_at n String.[] = "0"
char_at zero (String.◌∷◌ c s) = c
char_at (suc n) (String.◌∷◌ c s) = char_at n s

abbrev pub hex_digit : ℕ → Char
hex_digit n = char_at n "0123456789abcdef"

-- hex.EncodeToString.
unfoldable pub encode_to_string : List ℕ → String
encode_to_string [] = String.[]
encode_to_string (b ∷ bs) =
    String.◌∷◌ (hex_digit (b / 16)) (String.◌∷◌ (hex_digit (b % 16)) (encode_to_string bs))

-- The random bytes of a call of rand.Read, or none where it fails.
unfoldable pub new_vendor_id : Option (List ℕ) → Result VendorError String
unfolding encode_to_string
new_vendor_id none = err no_random
new_vendor_id (some bytes) = ok (append "v_" (encode_to_string bytes))
