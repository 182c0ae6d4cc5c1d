-- ===== src/Gateway/StatsRegistry/Live.antt =====
-- internal/gateway/runtime_stats_registry.go: the handles that a router's preparation meets.
use Prim.Native.String.{String}
use text.Mathlib.Text.{◌==◌ as str_eq}
use jc_proxy.Prelude.{
  ◌≡◌, refl, sym, ap, ◌∙◌, Bool-cases, false, inl, inr, arith, Option, none, some,
}
use jc_proxy.Prelude.Float.{FloatOps}
use jc_proxy.Prelude.Table.{lookup, put, lookup-put, lookup-put_ne, str_eq-eq, ne-of_str_eq}
use jc_proxy.Prelude.Text.{trim_space, is_empty}
use jc_proxy.Keystore.RuntimeStats.{RuntimeStats}
use jc_proxy.Balancer.Handle.{Handle, new_handle}
use jc_proxy.Gateway.StatsRegistry.{
  RuntimeStatsRegistry, handles_of, handle_at, put_handle, found_or_made, handle,
}

module _ {F : Type 0} (v k : String) (h : Handle F) (r : RuntimeStatsRegistry F) where
  put_handle-vendor :
      lookup (put_handle v k h r).vendors v ≡ some (put (handles_of (lookup r.vendors v)) k h)
  unfolding put_handle
  put_handle-vendor = lookup-put r.vendors v (put (handles_of (lookup r.vendors v)) k h)

  put_handle_self : handle_at (put_handle v k h r) v k ≡ some h
  unfolding handle_at
  put_handle_self =
      ap (λ o. lookup (handles_of o) k) put_handle-vendor
      ∙ lookup-put (handles_of (lookup r.vendors v)) k h

  put_handle-keeps :
      (w j : String) (g : Handle F)
      → handle_at r v k ≡ none
      → handle_at r w j ≡ some g
      → handle_at (put_handle v k h r) w j ≡ some g
  unfolding handle_at put_handle
  put_handle-keeps w j g gone there = elim (Bool-cases (str_eq v w)) [
    | inr n ↦
        ap (λ o. lookup (handles_of o) j)
          (lookup-put_ne r.vendors v w (put (handles_of (lookup r.vendors v)) k h)
            (ne-of_str_eq v w n))
        ∙ there
    | inl e ↦
        let same = str_eq-eq v w e in
        let vendor : lookup (put_handle v k h r).vendors w
            ≡ some (put (handles_of (lookup r.vendors v)) k h) =
          ap (lookup (put_handle v k h r).vendors) (sym same) ∙ put_handle-vendor in
        let there' : lookup (handles_of (lookup r.vendors v)) j ≡ some g =
          ap (λ x. lookup (handles_of (lookup r.vendors x)) j) same ∙ there in
        ap (λ o. lookup (handles_of o) j) vendor ∙ elim (Bool-cases (str_eq k j)) [
          | inr n ↦
              lookup-put_ne (handles_of (lookup r.vendors v)) k j h (ne-of_str_eq k j n) ∙ there'
          | inl f ↦
              let back : lookup (handles_of (lookup r.vendors v)) k ≡ some g =
                ap (lookup (handles_of (lookup r.vendors v))) (str_eq-eq k j f) ∙ there' in
              absurd (ground arith)
        ]
  ]

module _ {F : Type 0} ⦃fl : FloatOps F⦄ where
  -- The registry holds the handle, and those that it held.
  abbrev Shares :
      String → String → RuntimeStatsRegistry F → RuntimeStatsRegistry F × Handle F → Type 0
  Shares v k r (r', h) =
      (handle_at r' v k ≡ some h)
      × ((w j : String) (g : Handle F) → handle_at r w j ≡ some g → handle_at r' w j ≡ some g)

  found_or_made-Shares :
      (v k : String) (baseline : RuntimeStats F) (r : RuntimeStatsRegistry F)
      (o : Option (Handle F))
      → handle_at r v k ≡ o
      → Shares v k r (found_or_made v k baseline r o)
  unfolding found_or_made
  found_or_made-Shares v k baseline r (some h) e = (e, λ w j g there. there)
  found_or_made-Shares v k baseline r none e = (
    put_handle_self v k (new_handle baseline) r,
    λ w j g. put_handle-keeps v k (new_handle baseline) r w j g e,
  )

  -- Asking for the handle of a vendor's key leaves that handle in the registry, and leaves every
  -- handle that was there: preparing a router changes no live handle. Neither name is blank.
  pub handle-Shares :
      (vendor key : String) (baseline : RuntimeStats F) (r : RuntimeStatsRegistry F)
      → is_empty (trim_space vendor) ≡ false
      → is_empty (trim_space key) ≡ false
      → (handle_at (handle vendor key baseline r).0 (trim_space vendor) (trim_space key)
          ≡ some (handle vendor key baseline r).1)
        × ((w j : String) (g : Handle F)
            → handle_at r w j ≡ some g
            → handle_at (handle vendor key baseline r).0 w j ≡ some g)
  unfolding handle
  handle-Shares vendor key baseline r a b =
      rw (a, b)
        (found_or_made-Shares (trim_space vendor) (trim_space key) baseline r
          (handle_at r (trim_space vendor) (trim_space key)) refl)
