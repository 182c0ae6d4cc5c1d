-- ===== src/Prelude/Order.antt =====
-- `<` on Go strings. Go compares the bytes of the UTF-8, which orders texts as their code points do.
use Prim.Native.Char.{code}
use Prim.Native.String.{String}
use text.Mathlib.TextEquality.{Char-path}
use mathlib.Core.Path.{◌≡◌, refl}
use mathlib.Core.Bool.{Bool, true, false, ◌||◌, ◌&&◌}
use mathlib.Core.Logic.{inl, inr}
use native.Mathlib.Omega.{arith}
use jc_proxy.Prelude.Tests.{ltb, ◌==◌, Bool-cases}

unfoldable pub text_lt : String → String → Bool
text_lt s String.[] = false
text_lt String.[] (String.◌∷◌ d t) = true
text_lt (String.◌∷◌ c s) (String.◌∷◌ d t) =
    ltb (code c) (code d) || (code c == code d && text_lt s t)

pub text_lt_asym : (s t : String) → text_lt s t ≡ true → text_lt t s ≡ false
unfolding text_lt
text_lt_asym s String.[] h = absurd (ground arith)
text_lt_asym String.[] (String.◌∷◌ d t) h = refl
text_lt_asym (String.◌∷◌ c s) (String.◌∷◌ d t) h = elim (Bool-cases (text_lt s t)) [
  | inl e ↦ let back = text_lt_asym s t e in ground arith
  | inr e ↦ ground arith
]

pub text_lt_irrefl : (s : String) → text_lt s s ≡ false
unfolding text_lt
text_lt_irrefl String.[] = refl
text_lt_irrefl (String.◌∷◌ c s) = let tail = text_lt_irrefl s in ground arith

pub text_lt_total : (s t : String) → text_lt s t ≡ false → text_lt t s ≡ false → s ≡ t
unfolding text_lt
text_lt_total String.[] String.[] h k = refl
text_lt_total String.[] (String.◌∷◌ d t) h k = absurd (ground arith)
text_lt_total (String.◌∷◌ c s) String.[] h k = absurd (ground arith)
text_lt_total (String.◌∷◌ c s) (String.◌∷◌ d t) h k =
    let same : code c ≡ code d = ground arith in
    let tail : s ≡ t = text_lt_total s t (ground arith) (ground arith) in
    cc (Char-path c d same, tail)
