-- ===== src/Prelude/Table.antt =====
-- `map[string]A` as a list of entries. A later entry for the same key is never read, and `remove`
-- takes all of them, so the order does not show.
pub mod Unique
pub mod Members
use Prim.Native.String.{String}
use text.Mathlib.Text.{◌==◌ as str_eq}
use text.Mathlib.TextEquality.{eq_iff}
use jc_proxy.Prelude.Tests.{if◌then◌else◌, Bool-cases}
use mathlib.Core.Path.{◌≡◌, refl, sym, ◌∙◌}
use mathlib.Core.Logic.{◌≢◌, inl, inr}
use mathlib.Core.Bool.{Bool, true, false}
use mathlib.Core.List.{List, [], ◌∷◌}
use mathlib.Core.Option.{Option, none, some}
use native.Mathlib.Omega.{arith}

pub record Entry (A : Type 0) : Type 0 where
  pub name : String
  pub value : A

abbrev pub Table : Type 0 → Type 0
Table A = List (Entry A)

module _ {A : Type 0} where
  unfoldable pub lookup : Table A → String → Option A
  lookup [] k = none
  lookup (e ∷ es) k = let rest = lookup es k in if str_eq e.name k then some e.value else rest

  unfoldable pub remove : Table A → String → Table A
  remove [] k = []
  remove (e ∷ es) k = let rest = remove es k in if str_eq e.name k then rest else e ∷ rest

  unfoldable pub put : Table A → String → A → Table A
  unfolding remove
  put t k v = record { name = k; value = v } ∷ remove t k

  -- `for k, v := range t { if !keep(v) { delete(t, k) } }`.
  unfoldable pub keep_if : (A → Bool) → Table A → Table A
  keep_if keep [] = []
  keep_if keep (e ∷ es) = let rest = keep_if keep es in if keep e.value then e ∷ rest else rest

pub str_eq_refl : (s : String) → str_eq s s ≡ true
str_eq_refl s = (eq_iff s s).1 refl

pub str_eq-eq : (s t : String) → str_eq s t ≡ true → s ≡ t
str_eq-eq s t h = (eq_iff s t).0 h

pub ne-of_str_eq : (s t : String) → str_eq s t ≡ false → s ≢ t
ne-of_str_eq s t h e = cc ((eq_iff s t).1 e, h)

pub str_eq-false : (s t : String) → s ≢ t → str_eq s t ≡ false
str_eq-false s t h = elim (Bool-cases (str_eq s t)) [
  | inl e ↦ absurd (h ((eq_iff s t).0 e))
  | inr e ↦ e
]

module _ {A : Type 0} where
  pub lookup-remove : (t : Table A) (k : String) → lookup (remove t k) k ≡ none
  unfolding lookup remove
  lookup-remove [] k = refl
  lookup-remove (e ∷ es) k = elim (Bool-cases (str_eq e.name k)) [
    | inl h ↦ rw h (lookup-remove es k)
    | inr h ↦ rw (h, lookup, h) (lookup-remove es k)
  ]

  pub lookup-remove_ne : (t : Table A) (k j : String) → k ≢ j → lookup (remove t k) j ≡ lookup t j
  unfolding lookup remove
  lookup-remove_ne [] k j n = refl
  lookup-remove_ne (e ∷ es) k j n = elim (Bool-cases (str_eq e.name k)) [
    | inl h ↦
        let miss : str_eq e.name j ≡ false =
          str_eq-false e.name j (λ (q : e.name ≡ j). n (sym ((eq_iff e.name k).0 h) ∙ q)) in
        rw (h, miss) (lookup-remove_ne es k j n)
    | inr h ↦ elim (Bool-cases (str_eq e.name j)) [
      | inl g ↦ rw (h, g)
      | inr g ↦ rw (h, g) (lookup-remove_ne es k j n)
    ]
  ]

  pub lookup-put : (t : Table A) (k : String) (v : A) → lookup (put t k v) k ≡ some v
  unfolding lookup put
  lookup-put t k v = rw (str_eq_refl k)

  pub lookup-put_ne :
      (t : Table A) (k j : String) (v : A) → k ≢ j → lookup (put t k v) j ≡ lookup t j
  unfolding lookup put
  lookup-put_ne t k j v n = rw (str_eq-false k j n) (lookup-remove_ne t k j n)

  -- The entry that is read stays, if it is one to keep.
  pub lookup-keep_if :
      (keep : A → Bool) (t : Table A) (k : String) (v : A)
      → lookup t k ≡ some v
      → keep v ≡ true
      → lookup (keep_if keep t) k ≡ some v
  unfolding lookup keep_if
  lookup-keep_if keep [] k v h g = h
  lookup-keep_if keep (e ∷ es) k v h g = elim (Bool-cases (str_eq e.name k)) [
    | inl m ↦ let same : e.value ≡ v = ground arith in rw (same, g, m)
    | inr m ↦ elim (Bool-cases (keep e.value)) [
      | inl g' ↦ rw (g', m) (lookup-keep_if keep es k v (ground arith) g)
      | inr g' ↦ rw g' (lookup-keep_if keep es k v (ground arith) g)
    ]
  ]
