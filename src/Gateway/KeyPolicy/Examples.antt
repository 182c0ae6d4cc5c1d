-- ===== src/Gateway/KeyPolicy/Examples.antt =====
-- Two responses under a policy without rules of its own.
use Prim.Native.String.{String}
use jc_proxy.Prelude.{ℕ, ◌≡◌, refl, Bool, true, false, [], ◌∷◌, none, some, ◌*◌}
use jc_proxy.Prelude.Int.{pos, second}
use jc_proxy.Balancer.Settle.{observe}
use jc_proxy.Gateway.ErrorPolicy.{CooldownRule, ErrorPolicy, ErrorResponse}
use jc_proxy.Gateway.KeyPolicy.{
  classify_error_response, classify_auto_disable, match_response_cooldown_rule,
}
use jc_proxy.Gateway.KeyPolicy.Decisions.{
  Judged, Follows, classify_error_response-Judged, classify_error_response-quiet,
}

abbrev rule : CooldownRule
rule = record { enabled = none; duration = pos (10 * second) }

abbrev policy : Bool → ErrorPolicy
policy quiet = record {
  auto_disable = record { enabled = none; status_codes = 401 ∷ []; keywords = [] };
  cooldowns = record {
    request_error = rule;
    unauthorized = rule;
    payment_required = rule;
    forbidden = rule;
    rate_limit = rule;
    server_error = rule;
    openai_slow_down = rule;
    no_default_backoff = quiet;
    response_rules = [];
  };
  failover = record {
    request_error = none;
    unauthorized = none;
    payment_required = none;
    forbidden = none;
    rate_limit = none;
    server_error = none;
    response_status_codes = [];
  };
}

abbrev same : String → String
same s = s

abbrev response : ℕ → ErrorResponse
response status = record {
  status_code = status;
  body = "no";
  credential_code = "";
  retry_after = pos 0;
  reason = "no";
  disabled_reason = same;
}

classify_error_response-Judged_example :
    Judged same "openai"
      (policy false)
      (response 401)
      (some "invalid key")
      (classify_error_response same "openai" (policy false) (response 401))
    × Follows
        (policy false)
        (response 401)
        (classify_error_response same "openai" (policy false) (response 401))
unfolding classify_auto_disable
classify_error_response-Judged_example =
    classify_error_response-Judged same "openai" (policy false) (response 401) (some "invalid key")
      refl

classify_error_response-quiet_example :
    (classify_error_response same "openai" (policy true) (response 429)).action ≡ observe
unfolding classify_auto_disable match_response_cooldown_rule
classify_error_response-quiet_example =
    classify_error_response-quiet same "openai" (policy true) (response 429) refl refl refl
