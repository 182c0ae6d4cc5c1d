-- ===== src/Gateway/VendorPath/Examples.antt =====
-- Request paths.
use jc_proxy.Prelude.{none, some, ◌≡◌, refl}
use jc_proxy.Prelude.Text.{append}
use jc_proxy.Config.Vendors.{vendor_by_name}
use jc_proxy.Config.Vendors.Examples.{
  vendor, to_lower, same_config, draws, given, two_vendors, prepare_test,
}
use jc_proxy.Gateway.VendorPath.{split_vendor_path, slash}
use jc_proxy.Gateway.VendorPath.Reach.{split_vendor_path-vendor_by_name}

empty_segment_test : split_vendor_path "//v1" ≡ none
unfolding split_vendor_path
empty_segment_test = refl

rest_test : split_vendor_path "/claude/v1/messages" ≡ some ("claude", "/v1/messages")
unfolding split_vendor_path
rest_test = refl

split_vendor_path-vendor_by_name_example :
    (split_vendor_path (slash (append "claude" (slash "v1/messages")))
      ≡ some ("claude", slash "v1/messages"))
    × (split_vendor_path (slash "claude") ≡ some ("claude", "/"))
    × (vendor_by_name two_vendors "claude" ≡ some (vendor "v_00a5" "claude"))
split_vendor_path-vendor_by_name_example =
    split_vendor_path-vendor_by_name to_lower same_config draws given two_vendors 1
      (vendor "v_00a5" "claude") "v1/messages" prepare_test refl
