-- ===== src/Prelude/Table/Unique.antt =====
-- Tables in which no name stands twice, as `put` builds them.
use Prim.Native.String.{String}
use text.Mathlib.Text.{◌==◌ as str_eq}
use jc_proxy.Prelude.Tests.{Bool-cases}
use jc_proxy.Prelude.Table.{
  Entry, Table, lookup, remove, put, keep_if, str_eq_refl, str_eq-eq, lookup-remove,
}
use mathlib.Core.Path.{◌≡◌, refl, ap}
use mathlib.Core.Logic.{inl, inr}
use mathlib.Core.Bool.{Bool}
use mathlib.Core.List.{[], ◌∷◌, ◌++◌}
use mathlib.Core.Option.{none, some}
use native.Mathlib.Omega.{arith}

module _ {A : Type 0} where
  unfoldable pub Unique : Table A → Type 0
  Unique [] = Unit
  Unique (e ∷ es) = (lookup es e.name ≡ none) × Unique es

  lookup-remove-none :
      (t : Table A) (k j : String) → lookup t j ≡ none → lookup (remove t k) j ≡ none
  unfolding lookup remove
  lookup-remove-none [] k j h = refl
  lookup-remove-none (e ∷ es) k j h = elim (Bool-cases (str_eq e.name j)) [
    | inl m ↦ absurd (ground arith)
    | inr m ↦ elim (Bool-cases (str_eq e.name k)) [
      | inl g ↦ rw g (lookup-remove-none es k j (rw m at h))
      | inr g ↦ rw (g, lookup, m) (lookup-remove-none es k j (rw m at h))
    ]
  ]

  lookup-keep_if-none :
      (keep : A → Bool) (t : Table A) (j : String)
      → lookup t j ≡ none
      → lookup (keep_if keep t) j ≡ none
  unfolding lookup keep_if
  lookup-keep_if-none keep [] j h = refl
  lookup-keep_if-none keep (e ∷ es) j h = elim (Bool-cases (str_eq e.name j)) [
    | inl m ↦ absurd (ground arith)
    | inr m ↦ elim (Bool-cases (keep e.value)) [
      | inl g ↦ rw (g, lookup, m) (lookup-keep_if-none keep es j (rw m at h))
      | inr g ↦ rw g (lookup-keep_if-none keep es j (rw m at h))
    ]
  ]

  pub remove-Unique : (t : Table A) (k : String) → Unique t → Unique (remove t k)
  unfolding Unique remove
  remove-Unique [] k u = tt
  remove-Unique (e ∷ es) k (fresh, u) = elim (Bool-cases (str_eq e.name k)) [
    | inl g ↦ rw g (remove-Unique es k u)
    | inr g ↦ rw g ((lookup-remove-none es k e.name fresh, remove-Unique es k u))
  ]

  pub put-Unique : (t : Table A) (k : String) (v : A) → Unique t → Unique (put t k v)
  unfolding Unique put
  put-Unique t k v u = (lookup-remove t k, remove-Unique t k u)

  pub keep_if-Unique : (keep : A → Bool) (t : Table A) → Unique t → Unique (keep_if keep t)
  unfolding Unique keep_if
  keep_if-Unique keep [] u = tt
  keep_if-Unique keep (e ∷ es) (fresh, u) = elim (Bool-cases (keep e.value)) [
    | inl g ↦ rw g ((lookup-keep_if-none keep es e.name fresh, keep_if-Unique keep es u))
    | inr g ↦ rw g (keep_if-Unique keep es u)
  ]

  remove-absent : (t : Table A) (k : String) → lookup t k ≡ none → remove t k ≡ t
  unfolding lookup remove
  remove-absent [] k h = refl
  remove-absent (e ∷ es) k h = elim (Bool-cases (str_eq e.name k)) [
    | inl m ↦ absurd (ground arith)
    | inr m ↦ rw m (ap (λ t. e ∷ t) (remove-absent es k (rw m at h)))
  ]

  pub lookup-middle :
      (k : Table A) (e : Entry A) (es : Table A)
      → Unique (k ++ e ∷ es)
      → lookup (k ++ e ∷ es) e.name ≡ some e.value
  unfolding lookup Unique
  lookup-middle [] e es u = rw (str_eq_refl e.name) refl
  lookup-middle (d ∷ ds) e es (fresh, u) = elim (Bool-cases (str_eq d.name e.name)) [
    | inl m ↦
        let there = lookup-middle ds e es u in
        let gone : lookup (ds ++ e ∷ es) e.name ≡ none = rw (str_eq-eq d.name e.name m) at fresh in
        absurd (ground arith)
    | inr m ↦ rw m (lookup-middle ds e es u)
  ]

  pub remove-middle :
      (k : Table A) (e : Entry A) (es : Table A)
      → Unique (k ++ e ∷ es)
      → remove (k ++ e ∷ es) e.name ≡ k ++ es
  unfolding remove Unique
  remove-middle [] e es (fresh, u) = rw (str_eq_refl e.name) (remove-absent es e.name fresh)
  remove-middle (d ∷ ds) e es (fresh, u) = elim (Bool-cases (str_eq d.name e.name)) [
    | inl m ↦
        let there = lookup-middle ds e es u in
        let gone : lookup (ds ++ e ∷ es) e.name ≡ none = rw (str_eq-eq d.name e.name m) at fresh in
        absurd (ground arith)
    | inr m ↦ rw m (ap (λ t. d ∷ t) (remove-middle ds e es u))
  ]
