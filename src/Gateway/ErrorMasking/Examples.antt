-- ===== src/Gateway/ErrorMasking/Examples.antt =====
-- Masked errors.
use jc_proxy.Prelude.Text.{trim_space}
use jc_proxy.Prelude.{refl, inl, [], ◌∷◌, none}
use jc_proxy.Prelude.Int.{pos}
use jc_proxy.Gateway.ErrorMasking.{
  MaskingRule, MaskingPolicy, Texts, match_upstream_error_mask, build_masked_response,
}
use jc_proxy.Gateway.ErrorMasking.Validation.{validate_error_masking_rules}
use jc_proxy.Gateway.ErrorMasking.Safety.{IsErrorStatus, build_masked_response-IsErrorStatus}

abbrev texts : Texts
texts = record {
  to_lower = λ s. s;
  status_text = λ n. "Bad Gateway";
  parse_duration = λ s. none;
  seconds = λ d. "0";
  error_json = λ s. s;
}

abbrev rule : MaskingRule
rule = record {
  status_codes = 500 ∷ 429 ∷ [];
  keywords = "secret" ∷ [];
  status_code = 502;
  body = "";
  message = "try later";
  content_type = "";
  retry_after = "ignore";
  cooldown_time = pos 0;
}

abbrev policy : MaskingPolicy
policy = record { enabled = none; rules = rule ∷ [] }

build_masked_response-IsErrorStatus_example :
    IsErrorStatus (build_masked_response texts rule "30").status_code
unfolding validate_error_masking_rules trim_space match_upstream_error_mask
build_masked_response-IsErrorStatus_example =
    build_masked_response-IsErrorStatus texts policy 500 "a secret fault" "30" rule refl (inl refl)
