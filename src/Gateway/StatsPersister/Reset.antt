-- ===== src/Gateway/StatsPersister/Reset.antt =====
-- internal/gateway/stats_persister.go: resetting statistics in the store, in the gateway and in the
-- baseline. A vendor's handles are reset with the registry of internal/gateway.
use Prim.Native.String.{String}
use text.Mathlib.Text.{◌==◌ as str_eq}
use mathlib.Core.Path.{subst}
use jc_proxy.Prelude.{
  ℕ, ◌≡◌, refl, ap, ◌∙◌, Bool, Bool-cases, true, false, ◌||◌, inl, inr, [], ◌∷◌, Option, none, some,
  if◌then◌else◌, if-case,
}
use jc_proxy.Prelude.Float.{FloatOps}
use jc_proxy.Prelude.Result.{Result, ok, err}
use jc_proxy.Prelude.Table.{Table, lookup, str_eq-eq}
use jc_proxy.Prelude.Text.{trim_space, is_empty}
use jc_proxy.Keystore.FileStore.{StoreError}
use jc_proxy.Gateway.StatsRegistry.{
  RuntimeStatsRegistry, handle_at, handles_of, reset_registry, reset_vendors, reset_handles,
  persisted,
}
use jc_proxy.Balancer.Handle.{Handle, reset}
use jc_proxy.Gateway.StatsPersister.{
  Baseline, keys_of_vendor, StatsStore, RuntimeStatsPersister, PersisterError, persister_closed,
  reset_not_supported, store_failed, forget,
}
use jc_proxy.Gateway.StatsPersister.Deltas.{stats_at}

-- What a reset works on: the store, the registry of the running gateway and the persister.
pub record Live (S F : Type 0) : Type 0 where
  pub store : S
  pub registry : RuntimeStatsRegistry F
  pub persister : RuntimeStatsPersister F

module _ {S F : Type 0} ⦃fl : FloatOps F⦄ where
  after_reset :
      String
      → Live S F
      → S × (RuntimeStatsRegistry F × Result StoreError ℕ)
      → Live S F × Result PersisterError ℕ
  unfolding forget
  after_reset vendor_id live (s, (r, err e)) =
      (record { store = s; registry = r; persister = live.persister }, err (store_failed e))
  after_reset vendor_id live (s, (r, ok count)) =
      let p : RuntimeStatsPersister F = record live.persister {
        last = forget vendor_id live.persister.last;
      } in
      (record { store = s; registry = r; persister = p }, ok count)

  reset_with :
      String
      → Live S F
      → Option (String → S → S × Result StoreError ℕ)
      → Live S F × Result PersisterError ℕ
  unfolding after_reset reset_registry
  reset_with vendor_id live none = (live, err reset_not_supported)
  reset_with vendor_id live (some reset_stats) =
      after_reset vendor_id live
        (reset_registry vendor_id (reset_stats vendor_id) live.registry live.store)

  unfoldable pub reset_live :
      StatsStore S F → String → Live S F → Live S F × Result PersisterError ℕ
  unfolding reset_with
  reset_live store vendor live =
      let vendor_id = trim_space vendor in
      if live.persister.stopped
      then (live, err persister_closed)
      else reset_with vendor_id live store.reset_stats

-- The reset is of the vendor, or of all.
abbrev pub selects : String → String → Bool
selects vendor_id w = is_empty vendor_id || str_eq w vendor_id

module _ {F : Type 0} where
  forget-lookup :
      (vendor_id w : String) (t : Baseline F)
      → lookup (forget vendor_id t) w ≡ (if selects vendor_id w then none else lookup t w)
  unfolding forget lookup
  forget-lookup vendor_id w [] = elim (Bool-cases (selects vendor_id w)) [
    | inl h ↦ rw h refl
    | inr h ↦ rw h refl
  ]
  forget-lookup vendor_id w (e ∷ es) = elim (Bool-cases (str_eq e.name w)) [
    | inl h ↦
        let same = str_eq-eq e.name w h in
        elim (Bool-cases (selects vendor_id w)) [
          | inl g ↦
              let here : selects vendor_id e.name ≡ true = ap (selects vendor_id) same ∙ g in
              rw here (forget-lookup vendor_id w es ∙ rw g refl)
          | inr g ↦
              let here : selects vendor_id e.name ≡ false = ap (selects vendor_id) same ∙ g in
              rw (here, lookup, h, g) refl
        ]
    | inr h ↦ elim (Bool-cases (selects vendor_id e.name)) [
      | inl g ↦ rw (g, h) (forget-lookup vendor_id w es)
      | inr g ↦ rw (g, lookup, h) (forget-lookup vendor_id w es)
    ]
  ]

  forget-stats_at :
      (vendor_id w k : String) (t : Baseline F)
      → stats_at (forget vendor_id t) w k ≡ (if selects vendor_id w then none else stats_at t w k)
  unfolding lookup
  forget-stats_at vendor_id w k t =
      let there = forget-lookup vendor_id w t in
      elim (Bool-cases (selects vendor_id w)) [
        | inl g ↦ rw g (ap (λ o. lookup (keys_of_vendor {F = F} o) k) (rw g at there))
        | inr g ↦ rw g (ap (λ o. lookup (keys_of_vendor {F = F} o) k) (rw g at there))
      ]

  -- What a reset makes of a handle.
  abbrev pub reset_found : ⦃fl : FloatOps F⦄ → Option (Handle F) → Option (Handle F)
  reset_found none = none
  reset_found (some h) = some (reset h)

module _ {F : Type 0} ⦃fl : FloatOps F⦄ where
  reset_handles-lookup :
      (t : Table (Handle F)) (k : String) → lookup (reset_handles t) k ≡ reset_found (lookup t k)
  unfolding reset_handles lookup
  reset_handles-lookup [] k = refl
  reset_handles-lookup (e ∷ es) k = elim (Bool-cases (str_eq e.name k)) [
    | inl h ↦ rw h refl
    | inr h ↦ rw h (reset_handles-lookup es k)
  ]

  abbrev reset_table : Option (Table (Handle F)) → Option (Table (Handle F))
  reset_table none = none
  reset_table (some t) = some (reset_handles t)

  reset_vendors-lookup :
      (vendor_id w : String) (t : Table (Table (Handle F)))
      → lookup (reset_vendors vendor_id t) w
        ≡ (if selects vendor_id w then reset_table (lookup t w) else lookup t w)
  unfolding reset_vendors lookup
  reset_vendors-lookup vendor_id w [] = elim (Bool-cases (selects vendor_id w)) [
    | inl h ↦ rw h refl
    | inr h ↦ rw h refl
  ]
  reset_vendors-lookup vendor_id w (e ∷ es) = elim (Bool-cases (str_eq e.name w)) [
    | inl h ↦
        let same = str_eq-eq e.name w h in
        elim (Bool-cases (selects vendor_id w)) [
          | inl g ↦
              let here : selects vendor_id e.name ≡ true = ap (selects vendor_id) same ∙ g in
              rw (here, lookup, h, g) refl
          | inr g ↦
              let here : selects vendor_id e.name ≡ false = ap (selects vendor_id) same ∙ g in
              rw (here, lookup, h, g) refl
        ]
    | inr h ↦ elim (Bool-cases (selects vendor_id e.name)) [
      | inl g ↦ rw (g, lookup, h) (reset_vendors-lookup vendor_id w es)
      | inr g ↦ rw (g, lookup, h) (reset_vendors-lookup vendor_id w es)
    ]
  ]

  reset_table-lookup :
      (o : Option (Table (Handle F))) (k : String)
      → lookup (handles_of (reset_table o)) k ≡ reset_found (lookup (handles_of o) k)
  unfolding lookup
  reset_table-lookup none k = refl
  reset_table-lookup (some t) k = reset_handles-lookup t k

  at-vendor :
      (t t' : Table (Table (Handle F))) (vendor_id w k : String)
      → lookup t' w ≡ (if selects vendor_id w then reset_table (lookup t w) else lookup t w)
      → lookup (handles_of (lookup t' w)) k ≡ (
          if selects vendor_id w
          then reset_found (lookup (handles_of (lookup t w)) k)
          else lookup (handles_of (lookup t w)) k)
  at-vendor t t' vendor_id w k h = elim (Bool-cases (selects vendor_id w)) [
    | inl g ↦
        rw g (ap (λ o. lookup (handles_of o) k) (rw g at h) ∙ reset_table-lookup (lookup t w) k)
    | inr g ↦ rw g (ap (λ o. lookup (handles_of o) k) (rw g at h))
  ]

module _ {S F : Type 0} ⦃fl : FloatOps F⦄ where
  -- What a reset leaves of the baseline and of the handles.
  abbrev Done : String → Live S F → Live S F × Result PersisterError ℕ → Type 0
  Done vendor_id live (live', err e) =
      (live'.persister ≡ live.persister) × (live'.registry ≡ live.registry)
  Done vendor_id live (live', ok n) =
      (w k : String)
      → (stats_at live'.persister.last w k
          ≡ (if selects vendor_id w then none else stats_at live.persister.last w k))
        × (handle_at live'.registry w k ≡ (
            if selects vendor_id w
            then reset_found (handle_at live.registry w k)
            else handle_at live.registry w k))

  after_reset-Done :
      (vendor_id : String) (live : Live S F) (out : S × Result StoreError ℕ)
      → Done vendor_id live (after_reset vendor_id live (persisted vendor_id live.registry out))
  unfolding after_reset persisted handle_at
  after_reset-Done vendor_id live (s, err e) = (refl, refl)
  after_reset-Done vendor_id live (s, ok n) = λ w k. (
    forget-stats_at vendor_id w k live.persister.last,
    at-vendor live.registry.vendors _ vendor_id w k
        (reset_vendors-lookup vendor_id w live.registry.vendors),
  )

  reset_with-Done :
      (vendor_id : String) (live : Live S F) (o : Option (String → S → S × Result StoreError ℕ))
      → Done vendor_id live (reset_with vendor_id live o)
  unfolding reset_with reset_registry
  reset_with-Done vendor_id live none = (refl, refl)
  reset_with-Done vendor_id live (some f) = after_reset-Done vendor_id live (f vendor_id live.store)

  reset_live-Done :
      (store : StatsStore S F) (vendor : String) (live : Live S F)
      → Done (trim_space vendor) live (reset_live store vendor live)
  unfolding reset_live
  reset_live-Done store vendor live =
      if-case (Done (trim_space vendor) live) live.persister.stopped _ _ (refl, refl)
        (reset_with-Done (trim_space vendor) live store.reset_stats)

  -- A reset that fails, be it refused or failed by the store, leaves the baseline of the persister
  -- and the handles of the running gateway.
  pub reset_live-error :
      (store : StatsStore S F) (vendor : String) (live live' : Live S F) (e : PersisterError)
      → reset_live store vendor live ≡ (live', err e)
      → (live'.persister ≡ live.persister) × (live'.registry ≡ live.registry)
  reset_live-error store vendor live live' e h =
      subst (Done (trim_space vendor) live) h (reset_live-Done store vendor live)

  -- A reset that succeeds takes the baseline of every key of the vendor, or of all vendors where it
  -- names none, so that the next flush counts from zero, and resets each of their handles. The
  -- baselines and the handles of other vendors stay.
  pub reset_live-ok :
      (store : StatsStore S F) (vendor : String) (live live' : Live S F) (n : ℕ)
      → reset_live store vendor live ≡ (live', ok n)
      → (w k : String)
      → (stats_at live'.persister.last w k
          ≡ (if selects (trim_space vendor) w then none else stats_at live.persister.last w k))
        × (handle_at live'.registry w k ≡ (
            if selects (trim_space vendor) w
            then reset_found (handle_at live.registry w k)
            else handle_at live.registry w k))
  reset_live-ok store vendor live live' n h =
      subst (Done (trim_space vendor) live) h (reset_live-Done store vendor live)
