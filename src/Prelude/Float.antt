-- ===== src/Prelude/Float.antt =====
-- float64 is a parameter: a type with the operations that the program calls. A comparison law that
-- a theorem needs stands in `FloatOrder`, whose fields hold of IEEE numbers, NaN included.
use Prim.Native.Nat.{ℕ}
use mathlib.Core.Path.{◌≡◌, refl}
use mathlib.Core.Bool.{Bool, true, false}
use native.Mathlib.Omega.{arith}
use jc_proxy.Prelude.Tests.{ltb, ◌==◌}
use jc_proxy.Prelude.Int.{ℤ, pos_part}
use Prim.Native.Nat.{◌+◌, ◌-◌, ◌*◌, ◌/◌, max, min}

pub record FloatOps (F : Type 0) : Type 0 where
  -- The constant n / d.
  pub lit : ℕ → ℕ → F
  -- float64(i).
  pub of_int : ℤ → F
  pub add : F → F → F
  pub sub : F → F → F
  pub mul : F → F → F
  pub div : F → F → F
  pub fmax : F → F → F
  pub fmin : F → F → F
  pub less : F → F → Bool
  pub equal : F → F → Bool

pub record FloatOrder {F : Type 0} (fl : FloatOps F) : Type 0 where
  pub less_irrefl : (a : F) → fl.less a a ≡ false
  pub less_trans : (a b c : F) → fl.less a b ≡ true → fl.less b c ≡ true → fl.less a c ≡ true
  pub less_equal : (a b c : F) → fl.equal b c ≡ true → fl.less a b ≡ true → fl.less a c ≡ true
  pub zero_equal : fl.equal (fl.lit 0 1) (fl.lit 0 1) ≡ true

-- Whole numbers of thousandths, for tests and witnesses.
instance abbrev pub milli : FloatOps ℕ
milli = record {
  lit = λ n d. n * 1000 / d;
  of_int = λ i. pos_part i * 1000;
  add = λ a b. a + b;
  sub = λ a b. a - b;
  mul = λ a b. a * b / 1000;
  div = λ a b. a * 1000 / b;
  fmax = λ a b. max a b;
  fmin = λ a b. min a b;
  less = ltb;
  equal = ◌==◌;
}

pub milli-FloatOrder : FloatOrder milli
milli-FloatOrder = record {
  less_irrefl = λ a. ground arith;
  less_trans = λ a b c h k. ground arith;
  less_equal = λ a b c h k. ground arith;
  zero_equal = refl;
}
