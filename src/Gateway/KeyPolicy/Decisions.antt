-- ===== src/Gateway/KeyPolicy/Decisions.antt =====
-- What a classification of internal/gateway/key_policy.go can be.
use Prim.Native.String.{String}
use text.Mathlib.Text.{◌==◌ as str_eq}
use jc_proxy.Prelude.{
  ◌<◌, ◌≢◌, ◌↔◌, ltb, ltb→lt, Bool-cases, arith, ◌≡◌, ◌⊎◌, refl, Bool, true, false, ◌&&◌, Option,
  none, some, inl, inr, arith, ◌==◌, if◌then◌else◌,
}
use jc_proxy.Prelude.Int.{pos, Duration}
use jc_proxy.Prelude.Text.{contains}
use jc_proxy.Balancer.Settle.{success, observe, cooldown, disable_key}
use jc_proxy.Gateway.ErrorPolicy.{
  KeyDecision, CooldownRule, ResponseCooldownRule, ErrorPolicy, ErrorResponse, is_server_error,
  should_failover_response, apply_no_default_backoff, cooldown_decision,
}
use jc_proxy.Gateway.KeyPolicy.{
  classify_response, response_cooldown_decision, classify_auto_disable,
  match_response_cooldown_rule, cool, classify_status, ruled, judged, classify_error_response,
}

-- A decision that is not a disabling: it observes the key or cools it down.
abbrev pub IsMild : KeyDecision → Type 0
IsMild d = (d.action ≡ observe) ⊎ (d.action ≡ cooldown)

-- It reports the status of the response, and fails over as the policy says of it.
abbrev pub Follows : ErrorPolicy → ErrorResponse → KeyDecision → Type 0
Follows policy r d =
    (d.status_code ≡ r.status_code) × (d.failover ≡ should_failover_response policy r.status_code)

abbrev Mild : ErrorPolicy → ErrorResponse → KeyDecision → Type 0
Mild policy r d = IsMild d × Follows policy r d

cool-Mild :
    (policy : ErrorPolicy) (r : ErrorResponse) (rule : CooldownRule) (d : Duration) (m : Bool)
    → Mild policy r (cool policy r rule d m)
unfolding cool cooldown_decision
cool-Mild policy r rule d m = ground arith

if-Mild :
    (policy : ErrorPolicy) (r : ErrorResponse) (b : Bool) (d e : KeyDecision)
    → Mild policy r d
    → Mild policy r e
    → Mild policy r (if b then d else e)
if-Mild policy r true d e h k = h
if-Mild policy r false d e h k = k

classify_status-Mild :
    (provider : String) (policy : ErrorPolicy) (r : ErrorResponse)
    → Mild policy r (classify_status provider policy r)
unfolding classify_status
classify_status-Mild provider policy r =
    let c = cool-Mild policy r in
    let choose = if-Mild policy r in
    let rules = policy.cooldowns in
    choose (r.status_code == 401) _ _ (c rules.unauthorized (pos 0) false) (
      choose (r.status_code == 402) _ _ (c rules.payment_required (pos 0) false) (
        choose (r.status_code == 403) _ _ (c rules.forbidden (pos 0) false) (
          choose (r.status_code == 429) _ _ (c rules.rate_limit r.retry_after false) (
            choose (is_server_error r.status_code) _ _
              (choose (str_eq provider "openai" && contains r.body "slow down") _ _
                (c rules.openai_slow_down r.retry_after true)
                (c rules.server_error r.retry_after false))
              (inl refl, (refl, refl))))))

module _ (to_lower : String → String) (provider : String) (policy : ErrorPolicy)
    (r : ErrorResponse) where
  ruled-Mild :
      (rule : Option ResponseCooldownRule) → Mild policy r (ruled to_lower provider policy r rule)
  unfolding ruled response_cooldown_decision
  ruled-Mild none = classify_status-Mild provider policy r
  ruled-Mild (some rule) = (inr refl, (refl, refl))

  -- The decision disables the key, or it does not and is mild.
  abbrev pub Judged : Option String → KeyDecision → Type 0
  Judged none d = IsMild d
  Judged (some cause) d = (d.action ≡ disable_key) × (d.reason ≡ r.disabled_reason cause)

  judged-Judged :
      (cause : Option String)
      → Judged cause (judged to_lower provider policy r cause)
        × Follows policy r (judged to_lower provider policy r cause)
  unfolding judged
  judged-Judged none = ruled-Mild _
  judged-Judged (some cause) = ((refl, refl), (refl, refl))

  -- A classified error response disables the key exactly when the rules of automatic disabling give
  -- a cause, with the reason for that cause. Otherwise it observes the key or cools it down. Either
  -- way the decision has the status of the response, and fails over as the policy says of it.
  pub classify_error_response-Judged :
      (cause : Option String)
      → classify_auto_disable to_lower policy.auto_disable r.status_code r.body r.credential_code
        ≡ cause
      → Judged cause (classify_error_response to_lower provider policy r)
        × Follows policy r (classify_error_response to_lower provider policy r)
  unfolding classify_error_response
  classify_error_response-Judged cause e = rw e (judged-Judged cause)

  quiet :
      (rule : CooldownRule) (d : Duration) (m : Bool)
      → policy.cooldowns.no_default_backoff ≡ true
      → (cool policy r rule d m).action ≡ observe
  unfolding cool cooldown_decision apply_no_default_backoff
  quiet rule d m h = rw h

  if-observe :
      (b : Bool) (d e : KeyDecision)
      → d.action ≡ observe
      → e.action ≡ observe
      → (if b then d else e).action ≡ observe
  if-observe true d e h k = h
  if-observe false d e h k = k

  classify_status-quiet :
      policy.cooldowns.no_default_backoff ≡ true
      → (classify_status provider policy r).action ≡ observe
  unfolding classify_status
  classify_status-quiet h =
      let q = λ (rule : CooldownRule) (d : Duration) (m : Bool). quiet rule d m h in
      let rules = policy.cooldowns in
      if-observe (r.status_code == 401) _ _ (q rules.unauthorized (pos 0) false) (
        if-observe (r.status_code == 402) _ _ (q rules.payment_required (pos 0) false) (
          if-observe (r.status_code == 403) _ _ (q rules.forbidden (pos 0) false) (
            if-observe (r.status_code == 429) _ _ (q rules.rate_limit r.retry_after false) (
              if-observe (is_server_error r.status_code) _ _
                (if-observe (str_eq provider "openai" && contains r.body "slow down") _ _
                  (q rules.openai_slow_down r.retry_after true)
                  (q rules.server_error r.retry_after false))
                refl))))

  -- With the default backoff switched off, a response that has no cause for disabling and matches no
  -- rule of the policy leaves the key in service: it is only observed.
  pub classify_error_response-quiet :
      policy.cooldowns.no_default_backoff ≡ true
      → classify_auto_disable to_lower policy.auto_disable r.status_code r.body r.credential_code
        ≡ none
      → match_response_cooldown_rule to_lower r.status_code r.body policy.cooldowns.response_rules
        ≡ none
      → (classify_error_response to_lower provider policy r).action ≡ observe
  unfolding classify_error_response judged ruled
  classify_error_response-quiet h e k = rw (e, k) (classify_status-quiet h)

  failed-action : (d : KeyDecision) (cause : Option String) → Judged cause d → d.action ≢ success
  failed-action d none (inl e) h = cc
  failed-action d none (inr e) h = cc
  failed-action d (some cause) (e, _) h = cc

  -- A response is a success of its key exactly when its status is below 400, whatever the policy and
  -- the body say.
  pub classify_response-success :
      ((classify_response to_lower provider policy r).action ≡ success) ↔ (r.status_code < 400)
  unfolding classify_response
  classify_response-success = elim (Bool-cases (ltb r.status_code 400)) [
    | inl e ↦ rw e ((λ h. ltb→lt r.status_code 400 e), λ h. refl)
    | inr e ↦ rw e (
      (λ h. absurd (failed-action _ _ (classify_error_response-Judged _ refl).0 h)),
      λ h. absurd (ground arith),
    )
  ]
