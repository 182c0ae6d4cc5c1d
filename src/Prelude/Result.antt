-- ===== src/Prelude/Result.antt =====
-- The result of a Go call that may return an error.
use mathlib.Core.Path.{◌≡◌, refl, ap}

pub data Result (E A : Type 0) : Type 0 where
  ok : A → Result E A
  err : E → Result E A

abbrev pub map_ok : {E A B : Type 0} → (A → B) → Result E A → Result E B
map_ok f (ok a) = ok (f a)
map_ok f (err e) = err e

pub ok_inj : {E A : Type 0} {a b : A} → ◌≡◌ {A = Result E A} (ok a) (ok b) → a ≡ b
ok_inj h = cc

pub map_ok-ok :
    {E A B : Type 0} (f : A → B) (r : Result E A) {b : B}
    → map_ok f r ≡ ok b
    → (a : A) × (r ≡ ok a) × (f a ≡ b)
map_ok-ok f (ok a) h = (a, refl, ok_inj h)
map_ok-ok f (err e) h = cc

pub err_inj : {E A : Type 0} {a b : E} → ◌≡◌ {A = Result E A} (err a) (err b) → a ≡ b
err_inj h = cc

pub map_ok-err :
    {E A B : Type 0} (f : A → B) (r : Result E A) {e : E} → map_ok f r ≡ err e → r ≡ err e
map_ok-err f (ok a) h = cc
map_ok-err f (err e) h = ap err (err_inj h)
