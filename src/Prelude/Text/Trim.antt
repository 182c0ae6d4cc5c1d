-- ===== src/Prelude/Text/Trim.antt =====
-- strings.TrimSpace of a trimmed text.
use Prim.Native.Char.{code}
use Prim.Native.String.{String}
use mathlib.Core.Path.{◌≡◌, refl, ◌∙◌, ap}
use mathlib.Core.Bool.{Bool, false, ◌&&◌}
use mathlib.Core.Logic.{inl, inr}
use jc_proxy.Prelude.Tests.{Bool-cases}
use jc_proxy.Prelude.Text.{is_space, is_empty, trim_left, trim_right, trim_space, cons_unless_blank}

starts_blank : String → Bool
starts_blank String.[] = false
starts_blank (String.◌∷◌ c s) = is_space (code c)

trim_left-starts : (s : String) → starts_blank (trim_left s) ≡ false
unfolding starts_blank trim_left
trim_left-starts String.[] = refl
trim_left-starts (String.◌∷◌ c s) = elim (Bool-cases (is_space (code c))) [
  | inl h ↦ rw h (trim_left-starts s)
  | inr h ↦ rw (h, starts_blank, h)
]

trim_left_id : (s : String) → starts_blank s ≡ false → trim_left s ≡ s
unfolding starts_blank trim_left
trim_left_id String.[] h = refl
trim_left_id (String.◌∷◌ c s) h = rw h

trim_right-starts : (s : String) → starts_blank s ≡ false → starts_blank (trim_right s) ≡ false
unfolding starts_blank trim_right cons_unless_blank
trim_right-starts String.[] h = refl
trim_right-starts (String.◌∷◌ c s) h = elim (Bool-cases (is_empty (trim_right s))) [
  | inl e ↦ rw (e, h, starts_blank, h)
  | inr e ↦ rw (e, starts_blank, h)
]

trim_right_twice : (s : String) → trim_right (trim_right s) ≡ trim_right s
unfolding trim_right cons_unless_blank
trim_right_twice String.[] = refl
trim_right_twice (String.◌∷◌ c s) =
    elim (Bool-cases (is_empty (trim_right s) && is_space (code c))) [
      | inl h ↦ rw h refl
      | inr h ↦ rw (h, trim_right, trim_right_twice s, h)
    ]

pub trim_space_twice : (s : String) → trim_space (trim_space s) ≡ trim_space s
unfolding trim_space
trim_space_twice s =
    ap trim_right (
      trim_left_id (trim_right (trim_left s))
        (trim_right-starts (trim_left s) (trim_left-starts s)))
    ∙ trim_right_twice (trim_left s)
