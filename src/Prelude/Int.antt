-- ===== src/Prelude/Int.antt =====
-- Go's int64 and time.Duration: integers over the native numbers, with the wrap of 64-bit
-- arithmetic as an operation of its own. Orders go through the two parts of an integer.
use Prim.Native.Nat.{ℕ, suc, ◌+◌, ◌-◌, ◌*◌, ◌/◌, ◌%◌, ◌^◌, ◌≤◌, ◌<◌}
use native.Mathlib.Nat.{pow-suc}
use mathlib.Core.Path.{ap, ◌∙◌, ◌≡◌}
use mathlib.Core.Bool.{Bool}
use native.Mathlib.Omega.{arith}
use jc_proxy.Prelude.Tests.{ltb, leb, ◌==◌, if◌then◌else◌}

-- `negsuc n` is -(n + 1).
pub data ℤ : Type 0 where
  pos : ℕ → ℤ
  negsuc : ℕ → ℤ

abbrev pub pos_part : ℤ → ℕ
pos_part (pos n) = n
pos_part (negsuc n) = 0

abbrev pub neg_part : ℤ → ℕ
neg_part (pos n) = 0
neg_part (negsuc n) = suc n

-- a - b, as an integer.
abbrev pub sub_ℕ : ℕ → ℕ → ℤ
sub_ℕ a b = if leb b a then pos (a - b) else negsuc (b - a - 1)

infixl 65 ◌+ℤ◌ ◌-ℤ◌
infixl 70 ◌*ℤ◌
infix 50 ◌≤ℤ◌ ◌<ℤ◌
unfoldable pub ◌+ℤ◌ : ℤ → ℤ → ℤ
a +ℤ b = sub_ℕ (pos_part a + pos_part b) (neg_part a + neg_part b)

unfoldable pub ◌-ℤ◌ : ℤ → ℤ → ℤ
a -ℤ b = sub_ℕ (pos_part a + neg_part b) (neg_part a + pos_part b)

unfoldable pub ◌*ℤ◌ : ℤ → ℤ → ℤ
a *ℤ b =
    sub_ℕ (pos_part a * pos_part b + neg_part a * neg_part b)
      (pos_part a * neg_part b + neg_part a * pos_part b)

abbrev pub ◌≤ℤ◌ : ℤ → ℤ → Type 0
a ≤ℤ b = pos_part a + neg_part b ≤ pos_part b + neg_part a

abbrev pub ◌<ℤ◌ : ℤ → ℤ → Type 0
a <ℤ b = pos_part a + neg_part b < pos_part b + neg_part a

abbrev pub ltb_ℤ : ℤ → ℤ → Bool
ltb_ℤ a b = ltb (pos_part a + neg_part b) (pos_part b + neg_part a)

abbrev pub leb_ℤ : ℤ → ℤ → Bool
leb_ℤ a b = leb (pos_part a + neg_part b) (pos_part b + neg_part a)

abbrev pub eqb_ℤ : ℤ → ℤ → Bool
eqb_ℤ a b = (pos_part a + neg_part b) == (pos_part b + neg_part a)

pub +ℤ_parts :
    (a b : ℤ)
    → pos_part (a +ℤ b) + neg_part a + neg_part b ≡ neg_part (a +ℤ b) + pos_part a + pos_part b
unfolding ◌+ℤ◌
+ℤ_parts a b = ground arith

pub -ℤ_parts :
    (a b : ℤ)
    → pos_part (a -ℤ b) + neg_part a + pos_part b ≡ neg_part (a -ℤ b) + pos_part a + neg_part b
unfolding ◌-ℤ◌
-ℤ_parts a b = ground arith

pub eq_of_parts : (a b : ℤ) → pos_part a + neg_part b ≡ pos_part b + neg_part a → a ≡ b
eq_of_parts a b h = ground arith

pub ruleset int_laws = (arith, +ℤ_parts, -ℤ_parts, eq_of_parts)

abbrev pub two_63 : ℕ
two_63 = 9223372036854775808

abbrev pub two_64 : ℕ
two_64 = 18446744073709551616

-- math.MaxInt64 and math.MinInt64.
abbrev pub max_int64 : ℤ
max_int64 = pos 9223372036854775807

abbrev pub min_int64 : ℤ
min_int64 = negsuc 9223372036854775807

abbrev residue : ℤ → ℕ
residue (pos n) = n % two_64
residue (negsuc n) = two_64 - 1 - n % two_64

abbrev signed : ℕ → ℤ
signed r = if ltb r two_63 then pos r else negsuc (two_64 - 1 - r)

-- The result of an int64 operation: the exact result, wrapped to 64 bits.
unfoldable pub wrap_int64 : ℤ → ℤ
wrap_int64 a = signed (residue a)

-- In range the wrap does nothing.
pub wrap_int64_exact : (a : ℤ) → min_int64 ≤ℤ a → a ≤ℤ max_int64 → wrap_int64 a ≡ a
unfolding wrap_int64
wrap_int64_exact (pos n) h k = ground arith
wrap_int64_exact (negsuc n) h k = ground arith

-- math.MaxInt64.
abbrev pub longest : ℕ
longest = 9223372036854775807

pub wrap_int64-mul : (a b : ℕ) → a * b ≤ longest → wrap_int64 (pos a *ℤ pos b) ≡ pos (a * b)
unfolding ◌*ℤ◌
wrap_int64-mul a b h = wrap_int64_exact _ (ground arith) (ground arith) ∙ ground arith

pub add_pos : (a b : ℕ) → pos a +ℤ pos b ≡ pos (a + b)
unfolding ◌+ℤ◌
add_pos a b = ground arith

pub double_pow : (f n : ℕ) → f * 2 ^ suc n ≡ f * 2 * 2 ^ n
double_pow f n = omega (arith, pow-suc 2 n, ap (λ (t : ℕ). f * t) (pow-suc 2 n))

-- d / 2, which cuts towards 0.
abbrev pub half : ℤ → ℤ
half (pos n) = pos (n / 2)
half (negsuc n) = pos 0 -ℤ pos (suc n / 2)

-- time.Time.Sub keeps the difference within the range of a Duration.
unfoldable pub saturate : ℤ → ℤ
saturate a = if ltb_ℤ max_int64 a then max_int64 else if ltb_ℤ a min_int64 then min_int64 else a

-- time.Time as nanoseconds after the zero Time, which is `pos 0`.
abbrev pub Time : Type 0
Time = ℤ

abbrev pub Duration : Type 0
Duration = ℤ

abbrev pub zero_time : Time
zero_time = pos 0

-- t.IsZero().
abbrev pub is_zero_time : Time → Bool
is_zero_time t = eqb_ℤ t zero_time

-- t.After(u).
abbrev pub after : Time → Time → Bool
after t u = ltb_ℤ u t

-- t.Add(d).
abbrev pub add_duration : Time → Duration → Time
add_duration t d = t +ℤ d

-- t.Sub(u).
abbrev pub time_sub : Time → Time → Duration
time_sub t u = saturate (t -ℤ u)

pub time_sub_pos : (a b : ℕ) → b ≤ a → a - b ≤ longest → time_sub (pos a) (pos b) ≡ pos (a - b)
unfolding saturate ◌-ℤ◌
time_sub_pos a b h k = ground arith

abbrev pub second : ℕ
second = 1000000000

abbrev pub minute : ℕ
minute = 60 * second
