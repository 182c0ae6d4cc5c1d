-- ===== src/Gateway/AggregatePool/Weights.antt =====
-- Smooth weighted round robin: what one pick gives to the tier it takes back from the child.
use mathlib.Core.Path.{subst}
use jc_proxy.Prelude.{
  if◌then◌else◌, ℕ, zero, suc, ◌<◌, ◌≡◌, refl, ap, sym, ◌∙◌, List, [], ◌∷◌, inl, inr, arith, length,
  length-modify, modify, Bool-cases,
}
use jc_proxy.Prelude.Int.{ℤ, pos, ◌+ℤ◌, ◌-ℤ◌, leb_ℤ, ltb_ℤ, int_laws}
use jc_proxy.Gateway.AggregatePool.{ChildEntry}
use jc_proxy.Gateway.AggregatePool.Strategies.{
  weight_at, total_weight, current_at, raise, settle_weights, pick_weighted,
}

abbrev pub sum : List ℤ → ℤ
sum [] = pos 0
sum (w ∷ ws) = w +ℤ sum ws

-- Every index of the list is below a bound.
abbrev pub AllBelow : ℕ → List ℕ → Type 0
AllBelow n [] = Unit
AllBelow n (i ∷ is) = (i < n) × AllBelow n is

add_assoc : (a b c : ℤ) → a +ℤ (b +ℤ c) ≡ (a +ℤ b) +ℤ c
add_assoc a b c = omega int_laws

add_sub_assoc : (a b c : ℤ) → a +ℤ (b -ℤ c) ≡ (a +ℤ b) -ℤ c
add_sub_assoc a b c = omega int_laws

add_sub_cancel : (a b : ℤ) → (a +ℤ b) -ℤ b ≡ a
add_sub_cancel a b = omega int_laws

sum-modify_add :
    (ws : List ℤ) (i : ℕ) (v : ℤ) → i < length ws → sum (modify ws i (λ w. w +ℤ v)) ≡ sum ws +ℤ v
sum-modify_add [] i v h = absurd (omega arith)
sum-modify_add (w ∷ ws) zero v h = omega int_laws
sum-modify_add (w ∷ ws) (suc i) v h =
    ap (λ s. w +ℤ s) (sum-modify_add ws i v (omega arith)) ∙ add_assoc w (sum ws) v

sum-modify_sub :
    (ws : List ℤ) (i : ℕ) (v : ℤ) → i < length ws → sum (modify ws i (λ w. w -ℤ v)) ≡ sum ws -ℤ v
sum-modify_sub [] i v h = absurd (omega arith)
sum-modify_sub (w ∷ ws) zero v h = omega int_laws
sum-modify_sub (w ∷ ws) (suc i) v h =
    ap (λ s. w +ℤ s) (sum-modify_sub ws i v (omega arith)) ∙ add_sub_assoc w (sum ws) v

module _ {F : Type 0} (es : List (ChildEntry F)) where
  -- Every child gets its weight, and the best stays in range.
  raise-sum :
      (is : List ℕ) (ws : List ℤ) (best : ℕ)
      → AllBelow (length ws) is
      → best < length ws
      → (sum (raise es is ws best).0 ≡ sum ws +ℤ total_weight es is)
        × ((raise es is ws best).1 < length (raise es is ws best).0)
  unfolding raise total_weight
  raise-sum [] ws best below b = (omega int_laws, b)
  raise-sum (i ∷ is) ws best (low, below) b =
      let ws' = modify ws i (λ w. w +ℤ weight_at es i) in
      let same : length ws' ≡ length ws = length-modify ws i (λ w. w +ℤ weight_at es i) in
      let best' = if ltb_ℤ (current_at ws' best) (current_at ws' i) then i else best in
      let r = raise-sum is ws' best' (subst (λ n. AllBelow n is) (sym same) below) (ground arith) in
      (
        r.0
            ∙ ap (λ s. s +ℤ total_weight es is) (sum-modify_add ws i (weight_at es i) low)
            ∙ sym (add_assoc (sum ws) (weight_at es i) (total_weight es is)),
        r.1,
      )

  settled-sum :
      (total : ℤ) (r : List ℤ × ℕ)
      → r.1 < length r.0
      → sum (settle_weights total r).0 ≡ sum r.0 -ℤ total
  settled-sum total (ws, best) h = sum-modify_sub ws best total h

  -- A pick of the smooth weighted round robin leaves the sum of the current weights as it was, if
  -- every index of the tier has a current weight.
  pub pick_weighted-sum :
      (first : ℕ) (rest : List ℕ) (ws : List ℤ)
      → AllBelow (length ws) (first ∷ rest)
      → sum (pick_weighted es first rest ws).0 ≡ sum ws
  unfolding pick_weighted
  pick_weighted-sum first rest ws below =
      let total = total_weight es (first ∷ rest) in
      let r = raise-sum (first ∷ rest) ws first below below.0 in
      elim (Bool-cases (leb_ℤ total (pos 0))) [
        | inl e ↦ rw e refl
        | inr e ↦ rw e (
            settled-sum total (raise es (first ∷ rest) ws first) r.1
            ∙ ap (λ s. s -ℤ total) r.0
            ∙ add_sub_cancel (sum ws) total)
      ]
