-- ===== src/Gateway/StatsPersister/Baseline.antt =====
-- internal/gateway/stats_persister.go: the baseline that a flush leaves for the next.
use Prim.Native.String.{String}
use text.Mathlib.Text.{◌==◌ as str_eq}
use jc_proxy.Prelude.{
  ◌≡◌, refl, sym, ap, ◌∙◌, Bool-cases, true, false, inl, inr, arith, List, [], ◌∷◌, Option, none,
  some,
}
use jc_proxy.Prelude.Table.{
  Table, Entry, lookup, remove, put, lookup-put, lookup-put_ne, ne-of_str_eq, str_eq-eq,
}
use jc_proxy.Prelude.Table.Unique.{Unique, put-Unique}
use jc_proxy.Prelude.Text.{trim_space, is_empty}
use jc_proxy.Keystore.RuntimeStats.{RuntimeStats}
use jc_proxy.Keystore.FileStore.{is_nil}
use jc_proxy.Gateway.StatsPersister.{
  KeyStats, Baseline, keys_of_vendor, put_absent, merge_keys, merge_vendors, capture_keys,
  capture_vendor, capture_vendors, capture_runtime_stats,
}
use jc_proxy.Gateway.StatsPersister.Deltas.{stats_at, AllUnique}

module _ {F : Type 0} where
  abbrev pub or_else : Option (RuntimeStats F) → Option (RuntimeStats F) → Option (RuntimeStats F)
  or_else none o = o
  or_else (some s) o = some s

  or_else-none : (o : Option (RuntimeStats F)) → or_else o none ≡ o
  or_else-none none = refl
  or_else-none (some s) = refl

  put_absent-other :
      (o : Option (RuntimeStats F)) (key k : String) (s : RuntimeStats F)
      (t : Table (RuntimeStats F))
      → str_eq key k ≡ false
      → lookup (put_absent o key s t) k ≡ lookup t k
  unfolding put_absent
  put_absent-other none key k s t h = lookup-put_ne t key k s (ne-of_str_eq key k h)
  put_absent-other (some x) key k s t h = refl

  put_absent_self :
      (o : Option (RuntimeStats F)) (key : String) (s : RuntimeStats F) (t : Table (RuntimeStats F))
      → lookup t key ≡ o
      → lookup (put_absent o key s t) key ≡ or_else o (some s)
  unfolding put_absent
  put_absent_self none key s t h = lookup-put t key s
  put_absent_self (some x) key s t h = h

  or_else-twice :
      (o p : Option (RuntimeStats F)) (s : RuntimeStats F)
      → or_else (or_else o (some s)) p ≡ or_else o (some s)
  or_else-twice none p s = refl
  or_else-twice (some x) p s = refl

  merge_keys-lookup :
      (next es : Table (RuntimeStats F)) (k : String)
      → lookup (merge_keys next es) k ≡ or_else (lookup next k) (lookup es k)
  unfolding merge_keys lookup
  merge_keys-lookup next [] k = sym (or_else-none (lookup next k))
  merge_keys-lookup next (e ∷ es) k =
      let rest = merge_keys-lookup (put_absent (lookup next e.name) e.name e.value next) es k in
      elim (Bool-cases (str_eq e.name k)) [
        | inl h ↦
            let same = str_eq-eq e.name k h in
            let here : lookup (put_absent (lookup next e.name) e.name e.value next) k
                ≡ or_else (lookup next k) (some e.value) =
              rw (sym same) (put_absent_self (lookup next e.name) e.name e.value next refl) in
            rest
            ∙ ap (λ o. or_else o (lookup es k)) here
            ∙ or_else-twice (lookup next k) (lookup es k) e.value
            ∙ rw h refl
        | inr h ↦
            rest
            ∙ ap (λ o. or_else o (lookup es k))
                (put_absent-other (lookup next e.name) e.name k e.value next h)
            ∙ rw h refl
      ]

  abbrev merged : Baseline F → Entry (Table (RuntimeStats F)) → Table (RuntimeStats F)
  merged current e = merge_keys (keys_of_vendor (lookup current e.name)) e.value

  absent : (t : Baseline F) (v k : String) → lookup t v ≡ none → stats_at t v k ≡ none
  unfolding lookup
  absent t v k h = ap (λ o. lookup (keys_of_vendor o) k) h

  nil-lookup : (t : Table (RuntimeStats F)) (k : String) → is_nil t ≡ true → lookup t k ≡ none
  unfolding lookup
  nil-lookup [] k h = refl
  nil-lookup (e ∷ es) k h = absurd (ground arith)

  -- The baseline that a flush leaves has the counters of the snapshot, and for a key that the
  -- snapshot lacks those of the baseline before. No vendor stands twice in that baseline.
  pub merge_vendors-stats_at :
      (current previous : Baseline F) (v k : String)
      → Unique previous
      → stats_at (merge_vendors current previous) v k
        ≡ or_else (stats_at current v k) (stats_at previous v k)
  unfolding merge_vendors lookup Unique
  merge_vendors-stats_at current [] v k u = sym (or_else-none (stats_at current v k))
  merge_vendors-stats_at current (e ∷ es) v k (fresh, u) = elim (Bool-cases (is_nil e.value)) [
    | inl n ↦ elim (Bool-cases (str_eq e.name v)) [
      | inl h ↦
          let gone = absent es v k (rw (str_eq-eq e.name v h) at fresh) in
          let empty = nil-lookup e.value k n in
          rw (n, h)
            (merge_vendors-stats_at current es v k u
              ∙ ap (or_else (stats_at current v k)) (gone ∙ sym empty))
      | inr h ↦ rw (n, h) (merge_vendors-stats_at current es v k u)
    ]
    | inr n ↦ elim (Bool-cases (str_eq e.name v)) [
      | inl h ↦
          let same = str_eq-eq e.name v h in
          let next = put current e.name (merged current e) in
          let gone = absent es v k (rw same at fresh) in
          let here : stats_at next v k ≡ or_else (stats_at current v k) (lookup e.value k) =
            ap (λ x. stats_at next x k) (sym same)
            ∙ ap (λ o. lookup (keys_of_vendor o) k) (lookup-put current e.name (merged current e))
            ∙ merge_keys-lookup (keys_of_vendor (lookup current e.name)) e.value k
            ∙ ap (λ x. or_else (stats_at current x k) (lookup e.value k)) same in
          rw (n, h)
            (merge_vendors-stats_at next es v k u
              ∙ ap (or_else (stats_at next v k)) gone
              ∙ or_else-none (stats_at next v k)
              ∙ here)
      | inr h ↦
          rw (n, h)
            (merge_vendors-stats_at (put current e.name (merged current e)) es v k u
              ∙ ap (λ o. or_else (lookup (keys_of_vendor o) k) (stats_at es v k))
                  (lookup-put_ne current e.name v (merged current e) (ne-of_str_eq e.name v h)))
    ]
  ]

  put_absent-Unique :
      (o : Option (RuntimeStats F)) (key : String) (s : RuntimeStats F) (t : Table (RuntimeStats F))
      → Unique t
      → Unique (put_absent o key s t)
  unfolding put_absent
  put_absent-Unique none key s t u = put-Unique t key s u
  put_absent-Unique (some x) key s t u = u

  merge_keys-Unique : (next es : Table (RuntimeStats F)) → Unique next → Unique (merge_keys next es)
  unfolding merge_keys
  merge_keys-Unique next [] u = u
  merge_keys-Unique next (e ∷ es) u =
      merge_keys-Unique (put_absent (lookup next e.name) e.name e.value next) es
        (put_absent-Unique (lookup next e.name) e.name e.value next u)

  keys_of_vendor-Unique :
      (t : Baseline F) (v : String) → AllUnique t → Unique (keys_of_vendor (lookup t v))
  unfolding AllUnique lookup Unique
  keys_of_vendor-Unique [] v us = tt
  keys_of_vendor-Unique (e ∷ es) v (w, ws) = elim (Bool-cases (str_eq e.name v)) [
    | inl h ↦ rw h w
    | inr h ↦ rw h (keys_of_vendor-Unique es v ws)
  ]

  remove-AllUnique : (t : Baseline F) (v : String) → AllUnique t → AllUnique (remove t v)
  unfolding AllUnique remove
  remove-AllUnique [] v us = tt
  remove-AllUnique (e ∷ es) v (w, ws) = elim (Bool-cases (str_eq e.name v)) [
    | inl h ↦ rw h (remove-AllUnique es v ws)
    | inr h ↦ rw h ((w, remove-AllUnique es v ws))
  ]

  -- No vendor, and no key of a vendor, stands twice.
  pub record Sound (t : Baseline F) : Type 0 where
    pub vendors : Unique t
    pub keys : AllUnique t

  put-Sound :
      (t : Baseline F) (v : String) (ks : Table (RuntimeStats F))
      → Unique ks
      → Sound t
      → Sound (put t v ks)
  unfolding put AllUnique
  put-Sound t v ks u s = record {
    vendors = put-Unique t v ks s.vendors;
    keys = (u, remove-AllUnique t v s.keys);
  }

  pub merge_vendors-Sound :
      (current previous : Baseline F) → Sound current → Sound (merge_vendors current previous)
  unfolding merge_vendors
  merge_vendors-Sound current [] s = s
  merge_vendors-Sound current (e ∷ es) s = elim (Bool-cases (is_nil e.value)) [
    | inl n ↦ rw n (merge_vendors-Sound current es s)
    | inr n ↦ rw n (
        merge_vendors-Sound (put current e.name (merged current e)) es (
          put-Sound current e.name (merged current e)
            (merge_keys-Unique (keys_of_vendor (lookup current e.name)) e.value
              (keys_of_vendor-Unique current e.name s.keys))
            s))
  ]

  capture_keys-Unique :
      (ss : List (KeyStats F)) (t : Table (RuntimeStats F)) → Unique t → Unique (capture_keys ss t)
  unfolding capture_keys
  capture_keys-Unique [] t u = u
  capture_keys-Unique (s ∷ ss) t u = elim (Bool-cases (is_empty (trim_space s.key))) [
    | inl e ↦ rw e (capture_keys-Unique ss t u)
    | inr e ↦ rw e (
        capture_keys-Unique ss (put t (trim_space s.key) s.runtime_stats)
          (put-Unique t (trim_space s.key) s.runtime_stats u))
  ]

  capture_vendor-Sound :
      (v : String) (ss : List (KeyStats F)) (t : Baseline F)
      → Sound t
      → Sound (capture_vendor v ss t)
  unfolding capture_vendor Unique
  capture_vendor-Sound v ss t s = elim (Bool-cases (is_nil (capture_keys ss []))) [
    | inl e ↦ rw e s
    | inr e ↦ rw e (put-Sound t v (capture_keys ss []) (capture_keys-Unique ss [] tt) s)
  ]

  capture_vendors-Sound :
      (es : Table (List (KeyStats F))) (t : Baseline F) → Sound t → Sound (capture_vendors es t)
  unfolding capture_vendors
  capture_vendors-Sound [] t s = s
  capture_vendors-Sound (e ∷ es) t s = elim (Bool-cases (is_nil e.value)) [
    | inl n ↦ rw n (capture_vendors-Sound es t s)
    | inr n ↦ rw n (
        capture_vendors-Sound es (capture_vendor e.name e.value t)
          (capture_vendor-Sound e.name e.value t s))
  ]

  pub capture_runtime_stats-Sound :
      (es : Table (List (KeyStats F))) → Sound (capture_runtime_stats es)
  unfolding capture_runtime_stats Unique AllUnique
  capture_runtime_stats-Sound es = capture_vendors-Sound es [] (record { vendors = tt; keys = tt })
