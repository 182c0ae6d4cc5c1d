-- ===== src/Gateway/AggregatePool/Make.antt =====
-- internal/gateway/gateway.go: `newAggregatePool`, and the invariant of the pool.
pub mod Invariant
use Prim.Native.String.{String}
use text.Mathlib.Text.{◌==◌ as str_eq}
use jc_proxy.Prelude.{ℕ, zero, suc, ◌+◌, ◌/◌, ◌%◌, List, [], ◌∷◌, if◌then◌else◌, ltb, length}
use jc_proxy.Prelude.Int.{ℤ, pos, ltb_ℤ, leb_ℤ}
use jc_proxy.Prelude.Text.{append, is_empty}
use jc_proxy.Gateway.AggregatePool.{ChildEntry, AggregatePool}

digit : ℕ → String
digit zero = "0"
digit (suc zero) = "1"
digit (suc (suc zero)) = "2"
digit (suc (suc (suc zero))) = "3"
digit (suc (suc (suc (suc zero)))) = "4"
digit (suc (suc (suc (suc (suc zero))))) = "5"
digit (suc (suc (suc (suc (suc (suc zero)))))) = "6"
digit (suc (suc (suc (suc (suc (suc (suc zero))))))) = "7"
digit (suc (suc (suc (suc (suc (suc (suc (suc zero)))))))) = "8"
digit n = "9"

-- The last `fuel` digits; a number has no more digits than its own successor counts.
digits : ℕ → ℕ → String
unfolding digit
digits zero n = ""
digits (suc fuel) n =
    let rest = digits fuel (n / 10) in if ltb n 10 then digit n else append rest (digit (n % 10))

-- fmt.Sprintf("%s#%d", vendorID, i).
default_id : String → ℕ → String
unfolding digits
default_id vendor_id i = append vendor_id (append "#" (digits (i + 1) i))

module _ {F : Type 0} where
  prepare : ℕ → ChildEntry F → ChildEntry F
  unfolding default_id
  prepare i e = record e {
    id = if is_empty e.id then default_id e.vendor_id i else e.id;
    weight = if leb_ℤ e.weight (pos 0) then pos 1 else e.weight;
  }

  prepare_all : ℕ → List (ChildEntry F) → List (ChildEntry F)
  unfolding prepare
  prepare_all i [] = []
  prepare_all i (e ∷ es) = prepare i e ∷ prepare_all (i + 1) es

  -- sort.SliceStable by priority: an entry goes before those of its own priority that follow it.
  insert : ChildEntry F → List (ChildEntry F) → List (ChildEntry F)
  insert e [] = e ∷ []
  insert e (x ∷ xs) =
      let rest = insert e xs in if ltb_ℤ x.priority e.priority then x ∷ rest else e ∷ x ∷ xs

  sort_by_priority : List (ChildEntry F) → List (ChildEntry F)
  unfolding insert
  sort_by_priority [] = []
  sort_by_priority (e ∷ es) = insert e (sort_by_priority es)

  zero_weights : List (ChildEntry F) → List ℤ
  zero_weights [] = []
  zero_weights (e ∷ es) = pos 0 ∷ zero_weights es

  unfoldable pub new_aggregate_pool : String → List (ChildEntry F) → AggregatePool F
  unfolding prepare_all sort_by_priority zero_weights
  new_aggregate_pool strategy entries =
      let sorted = sort_by_priority (prepare_all 0 entries) in
      record { strategy = strategy; entries = sorted; current_weights = zero_weights sorted }
