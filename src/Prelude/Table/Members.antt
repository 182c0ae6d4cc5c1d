-- ===== src/Prelude/Table/Members.antt =====
-- The entries of a table.
use Prim.Native.String.{String}
use text.Mathlib.Text.{◌==◌ as str_eq}
use mathlib.Core.List.{List, Memᴰ, [], ◌∷◌}
use mathlib.Core.Path.{◌≡◌, refl, sym, ap, subst, ◌∙◌}
use mathlib.Core.Logic.{◌⊎◌, inl, inr}
use mathlib.Core.Bool.{Bool, false}
use mathlib.Core.Option.{none, some}
use native.Mathlib.Omega.{arith}
use jc_proxy.Prelude.Tests.{Bool-cases}
use jc_proxy.Prelude.Lists.{some_inj}
use jc_proxy.Prelude.Table.{Entry, Table, lookup, remove, keep_if, str_eq_refl, str_eq-eq}
use jc_proxy.Prelude.Table.Unique.{Unique}

module _ {A : Type 0} where
  pub uncons : (e x : A) (xs : List A) → Memᴰ e (x ∷ xs) → (e ≡ x) ⊎ Memᴰ e xs
  uncons e x xs (Memᴰ.head q) = inl q
  uncons e x xs (Memᴰ.tail n) = inr n

module _ {A : Type 0} where
  pub Memᴰ-remove :
      (t : Table A) (k : String) (e : Entry A)
      → Memᴰ e (remove t k)
      → Memᴰ e t × (str_eq e.name k ≡ false)
  unfolding remove
  Memᴰ-remove [] k e m = elim m [ ]
  Memᴰ-remove (x ∷ xs) k e m = elim (Bool-cases (str_eq x.name k)) [
    | inl h ↦ let (there, other) = Memᴰ-remove xs k e (rw h at m) in (Memᴰ.tail there, other)
    | inr h ↦ elim (uncons e x (remove xs k) (rw h at m)) [
      | inl q ↦ (Memᴰ.head q, ap (λ (y : Entry A). str_eq y.name k) q ∙ h)
      | inr n ↦ let (there, other) = Memᴰ-remove xs k e n in (Memᴰ.tail there, other)
    ]
  ]

  pub Memᴰ-keep_if :
      (keep : A → Bool) (t : Table A) (e : Entry A) → Memᴰ e (keep_if keep t) → Memᴰ e t
  unfolding keep_if
  Memᴰ-keep_if keep [] e m = elim m [ ]
  Memᴰ-keep_if keep (x ∷ xs) e m = elim (Bool-cases (keep x.value)) [
    | inl h ↦ elim (uncons e x (keep_if keep xs) (rw h at m)) [
      | inl q ↦ Memᴰ.head q
      | inr n ↦ Memᴰ.tail (Memᴰ-keep_if keep xs e n)
    ]
    | inr h ↦ Memᴰ.tail (Memᴰ-keep_if keep xs e (rw h at m))
  ]

  pub lookup-Memᴰ :
      (t : Table A) (e : Entry A) → Unique t → Memᴰ e t → lookup t e.name ≡ some e.value
  unfolding Unique lookup
  lookup-Memᴰ [] e u m = elim m [ ]
  lookup-Memᴰ (x ∷ xs) e (fresh, u) (Memᴰ.head q) =
      subst (λ (y : Entry A). lookup (x ∷ xs) y.name ≡ some y.value) (sym q)
        (rw (str_eq_refl x.name) refl)
  lookup-Memᴰ (x ∷ xs) e (fresh, u) (Memᴰ.tail n) = elim (Bool-cases (str_eq x.name e.name)) [
    | inl h ↦
        let there = lookup-Memᴰ xs e u n in
        let gone : lookup xs e.name ≡ none = rw (str_eq-eq x.name e.name h) at fresh in
        absurd (ground arith)
    | inr h ↦ rw h (lookup-Memᴰ xs e u n)
  ]

  -- What all entries have, a value that is found has.
  pub lookup-each :
      (P : A → Type 0) (t : Table A) (k : String) (a : A)
      → ((e : Entry A) → Memᴰ e t → P e.value)
      → lookup t k ≡ some a
      → P a
  unfolding lookup
  lookup-each P [] k a each h = absurd (ground arith)
  lookup-each P (x ∷ xs) k a each h = elim (Bool-cases (str_eq x.name k)) [
    | inl g ↦ subst P (some_inj (rw g at h)) (each x (Memᴰ.head refl))
    | inr g ↦ lookup-each P xs k a (λ e m. each e (Memᴰ.tail m)) (rw g at h)
  ]
