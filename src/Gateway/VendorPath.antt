-- ===== src/Gateway/VendorPath.antt =====
-- internal/gateway/router.go: splitVendorPath, which reads the vendor's name off a request's path.
pub mod Reach
pub mod Examples
use Prim.Native.Char.{Char, code}
use Prim.Native.String.{String}
use jc_proxy.Prelude.{Option, none, some, if◌then◌else◌, ◌==◌}
use jc_proxy.Prelude.Text.{is_empty}

-- strings.TrimPrefix(s, "/").
unfoldable pub trim_slash : String → String
trim_slash String.[] = String.[]
trim_slash (String.◌∷◌ c s) = if code c == 47 then s else String.◌∷◌ c s

abbrev pub with_char : Char → String × Option String → String × Option String
with_char c (part, rest) = (String.◌∷◌ c part, rest)

-- strings.SplitN(s, "/", 2): the first part, and the second where there is a slash.
unfoldable pub split_slash : String → String × Option String
split_slash String.[] = (String.[], none)
split_slash (String.◌∷◌ c s) =
    let rest = split_slash s in if code c == 47 then (String.[], some s) else with_char c rest

-- A path that begins with a slash.
abbrev pub slash : String → String
slash s = String.◌∷◌ "/" s

unfoldable pub vendor_and_rest : String × Option String → Option (String × String)
vendor_and_rest (vendor, none) = if is_empty vendor then none else some (vendor, "/")
vendor_and_rest (vendor, some rest) = if is_empty vendor then none else some (vendor, slash rest)

unfoldable pub split_vendor_path : String → Option (String × String)
unfolding trim_slash split_slash vendor_and_rest
split_vendor_path path =
    let clean = trim_slash path in
    if is_empty clean then none else vendor_and_rest (split_slash clean)
