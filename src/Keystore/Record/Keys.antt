-- ===== src/Keystore/Record/Keys.antt =====
-- NormalizeKeys of internal/keystore/store.go: what its result holds, and in which order.
use Prim.Native.String.{String}
use text.Mathlib.Text.{◌==◌ as str_eq}
use jc_proxy.Prelude.{
  ◌≡◌, refl, ap, ◌∙◌, Bool-cases, true, false, not, ◌&&◌, ◌||◌, inl, inr, arith, List, [], ◌∷◌, map,
}
use jc_proxy.Prelude.Order.{text_lt, text_lt_total}
use jc_proxy.Prelude.Table.{str_eq-eq, str_eq_refl, ne-of_str_eq}
use jc_proxy.Prelude.Text.{trim_space, is_empty}
use jc_proxy.Keystore.Record.{has_key, collect_keys, insert_key, sort_keys, normalize_keys}

-- What is skipped is blank or seen.
skipped :
    (k : String) (seen : List String)
    → (is_empty k || has_key k seen) ≡ true
    → (not (has_key k seen) && not (is_empty k)) ≡ false
skipped k seen h = ground arith

has_key-collect :
    (k : String) (seen keys : List String)
    → has_key k (collect_keys seen keys)
      ≡ (not (has_key k seen) && not (is_empty k) && has_key k (map trim_space keys))
unfolding has_key collect_keys
has_key-collect k seen [] = ground arith
has_key-collect k seen (raw ∷ keys) =
    let key = trim_space raw in
    elim (Bool-cases (is_empty key || has_key key seen)) [
      | inl skip ↦ elim (Bool-cases (str_eq k key)) [
        | inl e ↦
            let none_left = skipped k seen (rw (str_eq-eq k key e) skip) in
            let rest = has_key-collect k seen keys in rw (skip, e) (ground arith)
        | inr e ↦ rw (skip, e) (has_key-collect k seen keys)
      ]
      | inr skip ↦ elim (Bool-cases (str_eq k key)) [
        | inl e ↦
            let fresh : (is_empty k || has_key k seen) ≡ false = rw (str_eq-eq k key e) skip in
            rw (skip, e) (ground arith)
        | inr e ↦ let rest = has_key-collect k (key ∷ seen) keys in rw (skip, e) (ground arith)
      ]
    ]

has_key-insert :
    (k key : String) (ks : List String)
    → has_key k (insert_key key ks) ≡ (str_eq k key || has_key k ks)
unfolding has_key insert_key
has_key-insert k key [] = refl
has_key-insert k key (j ∷ js) = elim (Bool-cases (text_lt j key)) [
  | inl e ↦ let rest = has_key-insert k key js in rw e (ground arith)
  | inr e ↦ rw e refl
]

has_key-sort : (k : String) (ks : List String) → has_key k (sort_keys ks) ≡ has_key k ks
unfolding has_key sort_keys
has_key-sort k [] = refl
has_key-sort k (j ∷ js) =
    has_key-insert k j (sort_keys js) ∙ ap (λ b. str_eq k j || b) (has_key-sort k js)

has_key-normalize_keys :
    (k : String) (keys : List String)
    → has_key k (normalize_keys keys) ≡ (not (is_empty k) && has_key k (map trim_space keys))
unfolding normalize_keys has_key
has_key-normalize_keys k keys = has_key-sort k (collect_keys [] keys) ∙ has_key-collect k [] keys

-- Each key is strictly before the next.
pub Increasing : List String → Type 0
Increasing [] = Unit
Increasing (k ∷ []) = Unit
Increasing (k ∷ j ∷ js) = (text_lt k j ≡ true) × Increasing (j ∷ js)

Distinct : List String → Type 0
Distinct [] = Unit
Distinct (k ∷ ks) = (has_key k ks ≡ false) × Distinct ks

before : (k j : String) → text_lt j k ≡ false → str_eq k j ≡ false → text_lt k j ≡ true
before k j h n = elim (Bool-cases (text_lt k j)) [
  | inl e ↦ e
  | inr e ↦ absurd (ne-of_str_eq k j n (text_lt_total k j e h))
]

insert_key-Increasing :
    (k : String) (ks : List String)
    → has_key k ks ≡ false
    → Increasing ks
    → Increasing (insert_key k ks)
unfolding insert_key Increasing has_key
insert_key-Increasing k [] n h = tt
insert_key-Increasing k (j ∷ []) n h = elim (Bool-cases (text_lt j k)) [
  | inl e ↦ rw e ((e, tt))
  | inr e ↦ rw e ((before k j e (ground arith), tt))
]
insert_key-Increasing k (j ∷ i ∷ is) n h =
    let rest : Increasing (insert_key k (i ∷ is)) =
      insert_key-Increasing k (i ∷ is) (ground arith) h.1 in
    elim (Bool-cases (text_lt j k)) [
      | inl e ↦ elim (Bool-cases (text_lt i k)) [
        | inl g ↦ rw (e, g) ((h.0, (rw g at rest)))
        | inr g ↦ rw (e, g) ((e, (rw g at rest)))
      ]
      | inr e ↦ rw e ((before k j e (ground arith), h))
    ]

sort_keys-Increasing : (ks : List String) → Distinct ks → Increasing (sort_keys ks)
unfolding sort_keys Increasing Distinct
sort_keys-Increasing [] d = tt
sort_keys-Increasing (k ∷ ks) d =
    insert_key-Increasing k (sort_keys ks) (has_key-sort k ks ∙ d.0) (sort_keys-Increasing ks d.1)

collect_keys-Distinct : (seen keys : List String) → Distinct (collect_keys seen keys)
unfolding collect_keys Distinct has_key
collect_keys-Distinct seen [] = tt
collect_keys-Distinct seen (raw ∷ keys) =
    let key = trim_space raw in
    elim (Bool-cases (is_empty key || has_key key seen)) [
      | inl skip ↦ rw skip (collect_keys-Distinct seen keys)
      | inr skip ↦
          let gone : has_key key (collect_keys (key ∷ seen) keys) ≡ false =
            let all = has_key-collect key (key ∷ seen) keys in
            let same = str_eq_refl key in ground arith in
          rw skip ((gone, collect_keys-Distinct (key ∷ seen) keys))
    ]

normalize_keys-Increasing : (keys : List String) → Increasing (normalize_keys keys)
unfolding normalize_keys
normalize_keys-Increasing keys =
    sort_keys-Increasing (collect_keys [] keys) (collect_keys-Distinct [] keys)

-- The normal form of a list of keys is in strictly increasing order, so no key stands in it twice,
-- and it holds a key exactly where the key is not blank and one of the list trims to it.
pub normalize_keys-KeysOf :
    (keys : List String)
    → Increasing (normalize_keys keys)
      × ((k : String)
          → has_key k (normalize_keys keys) ≡ (not (is_empty k) && has_key k (map trim_space keys)))
normalize_keys-KeysOf keys = (normalize_keys-Increasing keys, λ k. has_key-normalize_keys k keys)
