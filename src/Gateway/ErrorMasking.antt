-- ===== src/Gateway/ErrorMasking.antt =====
-- internal/gateway/error_masking.go, with the rules of internal/config/config.go: what the client
-- sees of an error. strings.ToLower, http.StatusText, time.ParseDuration, strconv.Itoa and
-- json.Marshal are parameters; json.Marshal of two strings does not fail. Status codes are natural
-- numbers. Writing the response and draining the body are not modelled.
pub mod Validation
pub mod Safety
pub mod Examples
use Prim.Native.String.{String}
use text.Mathlib.Text.{◌==◌ as str_eq}
use jc_proxy.Prelude.{
  ℕ, Bool, true, false, not, ◌&&◌, ◌||◌, List, [], ◌∷◌, Option, none, some, ltb, leb, if◌then◌else◌,
}
use jc_proxy.Prelude.Int.{ℤ, pos, negsuc, ltb_ℤ, leb_ℤ, Duration, second}
use jc_proxy.Prelude.Text.{trim_space, is_empty}
use jc_proxy.Balancer.Settle.{AttemptAction, interrupted, success, observe, cooldown, disable_key}
use jc_proxy.Gateway.ErrorPolicy.{
  KeyDecision, bool_or_default, contains_status_code, has_non_empty_pattern, any_status,
}
use jc_proxy.Gateway.KeyPolicy.{contains_any_keyword}

pub record MaskingRule : Type 0 where
  pub status_codes : List ℕ
  pub keywords : List String
  pub status_code : ℕ
  pub body : String
  pub message : String
  pub content_type : String
  pub retry_after : String
  pub cooldown_time : Duration

pub record MaskingPolicy : Type 0 where
  pub enabled : Option Bool
  pub rules : List MaskingRule

pub record MaskedResponse : Type 0 where
  pub status_code : ℕ
  pub content_type : String
  pub body : String
  pub retry_after : String

-- Go's functions that a masked response is made with.
pub record Texts : Type 0 where
  pub to_lower : String → String
  pub status_text : ℕ → String
  pub parse_duration : String → Option Duration
  -- strconv.Itoa(int(d / time.Second)).
  pub seconds : Duration → String
  -- json.Marshal of the error object with this message.
  pub error_json : String → String

abbrev pub error_masking_enabled : MaskingPolicy → Bool
error_masking_enabled m = bool_or_default m.enabled true

module _ (texts : Texts) where
  mask_matches : ℕ → String → MaskingRule → Bool
  unfolding has_non_empty_pattern contains_status_code contains_any_keyword
  mask_matches status body rule =
      let by_status = any_status rule.status_codes in
      let by_text = has_non_empty_pattern rule.keywords in
      not (by_status && not (contains_status_code rule.status_codes status))
      && not (by_text && not (contains_any_keyword texts.to_lower body rule.keywords))
      && (by_status || by_text)

  unfoldable pub match_error_mask_rule : ℕ → String → List MaskingRule → Option MaskingRule
  unfolding mask_matches
  match_error_mask_rule status body [] = none
  match_error_mask_rule status body (rule ∷ rules) =
      let rest = match_error_mask_rule status body rules in
      if mask_matches status body rule then some rule else rest

  unfoldable pub match_upstream_error_mask : MaskingPolicy → ℕ → String → Option MaskingRule
  unfolding match_error_mask_rule
  match_upstream_error_mask policy status body =
      if not (error_masking_enabled policy) || ltb status 400
      then none
      else match_error_mask_rule status body policy.rules

  unfoldable pub match_gateway_error_mask : MaskingPolicy → ℕ → String → Option MaskingRule
  unfolding match_error_mask_rule
  match_gateway_error_mask policy status message =
      if not (error_masking_enabled policy)
      then none
      else match_error_mask_rule status message policy.rules

  masked_retry_after_mode : String → String
  masked_retry_after_mode raw =
      let mode = texts.to_lower (trim_space raw) in
      if is_empty mode || str_eq mode "preserve"
      then "preserve"
      else if str_eq mode "ignore"
      then "ignore"
      else "set"

  synthetic_retry_after : Option Duration → String
  synthetic_retry_after none = ""
  synthetic_retry_after (some d) = texts.seconds d

  masked_retry_after : String → String → String
  unfolding masked_retry_after_mode synthetic_retry_after
  masked_retry_after raw upstream =
      let mode = masked_retry_after_mode raw in
      if str_eq mode "ignore"
      then ""
      else if str_eq mode "set"
      then synthetic_retry_after (texts.parse_duration (trim_space raw))
      else trim_space upstream

  build_masked_response_body : MaskingRule → String
  build_masked_response_body rule =
      let message = trim_space rule.message in
      let standard = texts.status_text rule.status_code in
      let text =
        if not (is_empty message)
        then message
        else if is_empty standard
        then "upstream error masked by gateway"
        else standard in
      if is_empty (trim_space rule.body) then texts.error_json text else rule.body

  unfoldable pub build_masked_response : MaskingRule → String → MaskedResponse
  unfolding masked_retry_after build_masked_response_body
  build_masked_response rule upstream =
      let given = trim_space rule.content_type in
      record {
        status_code = rule.status_code;
        content_type = if is_empty given then "application/json" else given;
        body = build_masked_response_body rule;
        retry_after = masked_retry_after rule.retry_after upstream;
      }

abbrev is_disable : AttemptAction → Bool
is_disable disable_key = true
is_disable _ = false

abbrev is_cooldown : AttemptAction → Bool
is_cooldown cooldown = true
is_cooldown _ = false

unfoldable pub extend_decision_cooldown : KeyDecision → MaskingRule → KeyDecision
extend_decision_cooldown d rule =
    if leb_ℤ rule.cooldown_time (pos 0) || is_disable d.action
    then d
    else if is_cooldown d.action && leb_ℤ rule.cooldown_time d.cooldown_time
    then d
    else record d { action = cooldown; cooldown_time = rule.cooldown_time }
