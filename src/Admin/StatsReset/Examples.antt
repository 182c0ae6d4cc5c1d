-- ===== src/Admin/StatsReset/Examples.antt =====
-- Requests to reset statistics.
use Prim.Native.String.{String}
use jc_proxy.Prelude.{ℕ, ◌≡◌, refl, Option, none, some, [], if◌then◌else◌}
use jc_proxy.Prelude.Result.{Result, ok}
use jc_proxy.Prelude.Text.{trim_space}
use text.Mathlib.Text.{◌==◌ as str_eq}
use jc_proxy.Admin.StatsReset.{RuntimeStatsResetRequest, ResetServices, reset_runtime_stats}
use jc_proxy.Admin.StatsReset.Guard.{Explicit, reset_runtime_stats-Explicit}

abbrev clear_count : String → ℕ → ℕ × Result String ℕ
clear_count vendor_id s = (0, ok s)

abbrev providers : String → Option String
providers v = if str_eq v "v1" then some "openai" else none

abbrev services : ResetServices ℕ ℕ
services = record {
  provider_of = ok providers;
  list_records = λ v. ok [];
  reset_stats = some clear_count;
}

abbrev request : RuntimeStatsResetRequest
request = record { scope = "vendor"; vendor_id = " v1 "; confirmation = "RESET" }

reset_runtime_stats-Explicit_example :
    Explicit request
    × ((f : String → ℕ → ℕ × Result String ℕ) × (services.reset_stats ≡ some f)
        × (f (trim_space request.vendor_id) 12 ≡ (0, ok 12)))
unfolding reset_runtime_stats trim_space
reset_runtime_stats-Explicit_example = reset_runtime_stats-Explicit services request 12 0 12 refl
