-- ===== src/Gateway/KeyPolicy.antt =====
-- internal/gateway/key_policy.go: how a failed attempt is classified, with the policy of
-- internal/config/config.go. strings.ToLower is a parameter, for it stands on Unicode's tables. What
-- the response says comes in as it is read: its body in lower case, its credential code, the
-- duration of its Retry-After header, and the texts that go into the reason.
pub mod Decisions
pub mod Examples
use Prim.Native.String.{String}
use text.Mathlib.Text.{◌==◌ as str_eq}
use jc_proxy.Prelude.{
  ℕ, Bool, true, false, not, ◌&&◌, ◌||◌, List, [], ◌∷◌, Option, none, some, ltb, leb, ◌==◌,
  if◌then◌else◌,
}
use jc_proxy.Prelude.Int.{ℤ, pos, ltb_ℤ, Duration}
use jc_proxy.Prelude.Text.{trim_space, is_empty, contains}
use jc_proxy.Balancer.Settle.{AttemptAction, interrupted, success, observe, cooldown, disable_key}
use jc_proxy.Gateway.ErrorPolicy.{
  AutoDisable, CooldownPolicy, CooldownRule, ErrorPolicy, ErrorResponse, FailoverPolicy,
  KeyDecision, ResponseCooldownRule, any_status, apply_no_default_backoff, bool_or_default,
  contains_status_code, cooldown_decision, has_non_empty_pattern, is_server_error, max_duration,
  should_failover_response,
}

module _ (to_lower : String → String) where
  -- `matchKeyword`; `none` is the result `("", false)`. The body is not empty.
  match_in : String → List String → Option String
  unfolding contains
  match_in body [] = none
  match_in body (p ∷ ps) =
      let pattern = to_lower (trim_space p) in
      let rest = match_in body ps in
      if is_empty pattern then rest else if contains body pattern then some pattern else rest

  unfoldable pub match_keyword : String → List String → Option String
  unfolding match_in
  match_keyword body patterns = if is_empty body then none else match_in body patterns

  -- `containsAnyKeyword`, the same loop without its pattern.
  unfoldable pub contains_any_keyword : String → List String → Bool
  unfolding match_keyword
  contains_any_keyword body patterns = elim (match_keyword body patterns) [
    | none ↦ false
    | some p ↦ true
  ]

  is_quota_keyword : String → Bool
  unfolding contains
  is_quota_keyword kw =
      let k = to_lower kw in
      contains k "quota" || contains k "balance" || contains k "billing" || contains k "余额"

  normalized_credential_code : String → String
  normalized_credential_code value =
      let c = to_lower (trim_space value) in
      if str_eq c "invalid_api_key" || str_eq c "incorrect_api_key" then c else ""

  -- The loop of `classifyAutoDisable` over its keywords; `none` is `(false, "")`.
  disable_keyword : String → String → List String → Option String
  unfolding is_quota_keyword normalized_credential_code match_keyword
  disable_keyword body credential [] = none
  disable_keyword body credential (kw ∷ kws) =
      let rest = disable_keyword body credential kws in
      let c = normalized_credential_code kw in
      if not (is_empty c)
      then (if str_eq c credential then some "invalid key" else rest)
      else elim (match_keyword body (kw ∷ [])) [
        | none ↦ rest
        | some m ↦ some (if is_quota_keyword m then "quota exhausted" else "invalid key")
      ]

  unfoldable pub classify_auto_disable : AutoDisable → ℕ → String → String → Option String
  unfolding disable_keyword contains_status_code
  classify_auto_disable auto status body credential =
      if not (bool_or_default auto.enabled true)
      then none
      else if contains_status_code auto.status_codes status
      then some (if status == 402 then "billing or quota exhausted" else "invalid key")
      else disable_keyword body credential auto.keywords

  -- The tests that a rule of `matchResponseCooldownRule` passes.
  rule_matches : ℕ → String → ResponseCooldownRule → Bool
  unfolding has_non_empty_pattern contains_status_code contains_any_keyword
  rule_matches status body rule =
      let by_status = any_status rule.status_codes in
      let by_text = has_non_empty_pattern rule.keywords in
      not (by_status && not (contains_status_code rule.status_codes status))
      && not (by_text && not (contains_any_keyword body rule.keywords))
      && (by_status || by_text)

  unfoldable pub match_response_cooldown_rule :
      ℕ → String → List ResponseCooldownRule → Option ResponseCooldownRule
  unfolding rule_matches
  match_response_cooldown_rule status body [] = none
  match_response_cooldown_rule status body (rule ∷ rules) =
      let rest = match_response_cooldown_rule status body rules in
      if rule_matches status body rule then some rule else rest

  retry_after_mode : String → ℕ → String
  retry_after_mode raw status =
      let mode = to_lower (trim_space raw) in
      if not (is_empty mode) then mode else if status == 429 then "override" else "ignore"

  unfoldable pub response_cooldown_decision :
      ℕ → String → ResponseCooldownRule → Bool → Duration → KeyDecision
  unfolding retry_after_mode max_duration
  response_cooldown_decision status reason rule failover retry_after =
      let mode = retry_after_mode rule.retry_after status in
      let given = ltb_ℤ (pos 0) retry_after in
      record {
        action = cooldown;
        status_code = status;
        cooldown_time =
            if str_eq mode "override" && given
            then retry_after
            else if str_eq mode "max" && given
            then max_duration retry_after rule.duration
            else rule.duration;
        reason = reason;
        failover = failover;
      }

abbrev pub disable_decision : ℕ → String → Bool → KeyDecision
disable_decision status reason failover = record {
  action = disable_key;
  status_code = status;
  cooldown_time = pos 0;
  reason = reason;
  failover = failover;
}

abbrev observe_decision : ℕ → String → Bool → KeyDecision
observe_decision status reason failover = record {
  action = observe;
  status_code = status;
  cooldown_time = pos 0;
  reason = reason;
  failover = failover;
}

cool : ErrorPolicy → ErrorResponse → CooldownRule → Duration → Bool → KeyDecision
unfolding cooldown_decision apply_no_default_backoff should_failover_response
cool policy r rule retry_after use_max =
    cooldown_decision r.status_code r.reason (apply_no_default_backoff policy rule)
      (should_failover_response policy r.status_code) retry_after use_max

-- The switch of `classifyErrorResponse` on the status.
classify_status : String → ErrorPolicy → ErrorResponse → KeyDecision
unfolding cool should_failover_response contains
classify_status provider policy r =
    let cooldowns = policy.cooldowns in
    if r.status_code == 401
    then cool policy r cooldowns.unauthorized (pos 0) false
    else if r.status_code == 402
    then cool policy r cooldowns.payment_required (pos 0) false
    else if r.status_code == 403
    then cool policy r cooldowns.forbidden (pos 0) false
    else if r.status_code == 429
    then cool policy r cooldowns.rate_limit r.retry_after false
    else if is_server_error r.status_code
    then (if str_eq provider "openai" && contains r.body "slow down"
        then cool policy r cooldowns.openai_slow_down r.retry_after true
        else cool policy r cooldowns.server_error r.retry_after false)
    else observe_decision r.status_code r.reason (should_failover_response policy r.status_code)

ruled :
    (String → String)
    → String
    → ErrorPolicy
    → ErrorResponse
    → Option ResponseCooldownRule
    → KeyDecision
unfolding response_cooldown_decision classify_status should_failover_response
ruled to_lower provider policy r none = classify_status provider policy r
ruled to_lower provider policy r (some rule) =
    response_cooldown_decision to_lower r.status_code r.reason rule
      (should_failover_response policy r.status_code) r.retry_after

judged : (String → String) → String → ErrorPolicy → ErrorResponse → Option String → KeyDecision
unfolding ruled match_response_cooldown_rule should_failover_response
judged to_lower provider policy r none =
    ruled to_lower provider policy r
      (match_response_cooldown_rule to_lower r.status_code r.body policy.cooldowns.response_rules)
judged to_lower provider policy r (some cause) =
    disable_decision r.status_code (r.disabled_reason cause)
      (should_failover_response policy r.status_code)

-- `classifyErrorResponse`.
unfoldable pub classify_error_response :
    (String → String) → String → ErrorPolicy → ErrorResponse → KeyDecision
unfolding judged classify_auto_disable
classify_error_response to_lower provider policy r =
    judged to_lower provider policy r
      (classify_auto_disable to_lower policy.auto_disable r.status_code r.body r.credential_code)

-- `classifyResponse`.
unfoldable pub classify_response :
    (String → String) → String → ErrorPolicy → ErrorResponse → KeyDecision
classify_response to_lower provider policy r =
    if ltb r.status_code 400
    then record {
      action = success;
      status_code = r.status_code;
      cooldown_time = pos 0;
      reason = "";
      failover = false;
    }
    else classify_error_response to_lower provider policy r

-- `classifyRequestError`, with its reason.
unfoldable pub classify_request_error : ErrorPolicy → String → KeyDecision
unfolding cooldown_decision apply_no_default_backoff
classify_request_error policy reason =
    cooldown_decision 0 reason (apply_no_default_backoff policy policy.cooldowns.request_error)
      (bool_or_default policy.failover.request_error true) (pos 0) false
