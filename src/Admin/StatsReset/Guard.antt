-- ===== src/Admin/StatsReset/Guard.antt =====
-- internal/admin/stats_reset.go: when a reset happens.
use Prim.Native.String.{String}
use text.Mathlib.Text.{◌==◌ as str_eq}
use jc_proxy.Prelude.{
  ℕ, ◌≡◌, refl, ◌⊎◌, inl, inr, Bool-cases, true, false, arith, Option, none, some,
}
use jc_proxy.Prelude.Result.{Result, ok, err}
use jc_proxy.Prelude.Table.{str_eq-eq}
use jc_proxy.Prelude.Text.{trim_space, is_empty}
use jc_proxy.Admin.StatsReset.{
  RuntimeStatsResetRequest, ResetServices, ResetError, check_scope, check_request, check_vendor,
  counted_reset, unless_refused, perform_reset, reset_runtime_stats,
}

-- The request says what it resets.
abbrev pub Explicit : RuntimeStatsResetRequest → Type 0
Explicit req =
    (req.confirmation ≡ "RESET")
    × (((req.scope ≡ "all") × (is_empty (trim_space req.vendor_id) ≡ true))
        ⊎ ((req.scope ≡ "vendor") × (is_empty (trim_space req.vendor_id) ≡ false)))

check_request-Explicit :
    (req : RuntimeStatsResetRequest)
    → check_request req (trim_space req.vendor_id) ≡ none
    → Explicit req
unfolding check_request check_scope
check_request-Explicit req h = elim (Bool-cases (str_eq req.confirmation "RESET")) [
  | inr c ↦ absurd (ground arith)
  | inl c ↦ elim (Bool-cases (str_eq req.scope "all")) [
    | inl a ↦ elim (Bool-cases (is_empty (trim_space req.vendor_id))) [
      | inl e ↦ (str_eq-eq req.confirmation "RESET" c, inl (str_eq-eq req.scope "all" a, e))
      | inr e ↦ absurd (ground arith)
    ]
    | inr a ↦ elim (Bool-cases (str_eq req.scope "vendor")) [
      | inl v ↦ elim (Bool-cases (is_empty (trim_space req.vendor_id))) [
        | inl e ↦ absurd (ground arith)
        | inr e ↦ (str_eq-eq req.confirmation "RESET" c, inr (str_eq-eq req.scope "vendor" v, e))
      ]
      | inr v ↦ absurd (ground arith)
    ]
  ]
]

module _ {S : Type 0} where
  unless_refused-ok :
      (o : Option ResetError) (s s' : S) (n : ℕ) (done : S × Result ResetError ℕ)
      → unless_refused o s done ≡ (s', ok n)
      → (o ≡ none) × (done ≡ (s', ok n))
  unfolding unless_refused
  unless_refused-ok (some e) s s' n done h = absurd (ground arith)
  unless_refused-ok none s s' n done h = (refl, h)

  counted_reset-ok :
      (out : S × Result String ℕ) (s' : S) (n : ℕ)
      → counted_reset out ≡ (s', ok n)
      → out ≡ (s', ok n)
  unfolding counted_reset
  counted_reset-ok (s, ok m) s' n h = ground arith
  counted_reset-ok (s, err e) s' n h = absurd (ground arith)

  perform_reset-ok :
      (v : String) (s s' : S) (n : ℕ) (o : Option (String → S → S × Result String ℕ))
      → perform_reset v s o ≡ (s', ok n)
      → (f : String → S → S × Result String ℕ) × (o ≡ some f) × (f v s ≡ (s', ok n))
  unfolding perform_reset
  perform_reset-ok v s s' n none h = absurd (ground arith)
  perform_reset-ok v s s' n (some f) h = (f, refl, counted_reset-ok (f v s) s' n h)

module _ {S F : Type 0} where
  -- Statistics are reset only where the request confirms it and says what to reset: all vendors
  -- with the scope `all` and no vendor, or one with the scope `vendor` and its id, which is then the
  -- vendor that the persister resets. An empty id alone never resets all.
  pub reset_runtime_stats-Explicit :
      (services : ResetServices S F) (req : RuntimeStatsResetRequest) (s s' : S) (n : ℕ)
      → reset_runtime_stats services req s ≡ (s', ok n)
      → Explicit req
        × ((f : String → S → S × Result String ℕ) × (services.reset_stats ≡ some f)
            × (f (trim_space req.vendor_id) s ≡ (s', ok n)))
  unfolding reset_runtime_stats
  reset_runtime_stats-Explicit services req s s' n h =
      let v = trim_space req.vendor_id in
      let (a, h') = unless_refused-ok (check_request req v) s s' n _ h in
      let (b, h'') = unless_refused-ok (check_vendor services req.scope v) s s' n _ h' in
      (check_request-Explicit req a, perform_reset-ok v s s' n services.reset_stats h'')
