-- ===== src/Gateway/StatsPersister/Deltas.antt =====
-- internal/gateway/stats_persister.go: which delta each key sends.
use Prim.Native.String.{String}
use text.Mathlib.Text.{◌==◌ as str_eq}
use jc_proxy.Prelude.{
  ◌≡◌, refl, sym, ap, ◌∙◌, Bool-cases, true, false, inl, inr, arith, List, [], ◌∷◌, Option, none,
  some, if◌then◌else◌,
}
use jc_proxy.Prelude.Float.{FloatOps}
use jc_proxy.Prelude.Table.{Table, lookup, str_eq-eq}
use jc_proxy.Prelude.Table.Unique.{Unique}
use jc_proxy.Keystore.RuntimeStats.{RuntimeStats}
use jc_proxy.Keystore.FileStore.{is_nil}
use jc_proxy.Keystore.FileStore.Statistics.{RuntimeStatsDelta}
use jc_proxy.Gateway.StatsPersister.{
  Baseline, keys_of_vendor, delta_of, with_delta, key_deltas, vendor_deltas,
}

module _ {F : Type 0} where
  abbrev pub find_delta : List (RuntimeStatsDelta F) → String → Option (RuntimeStats F)
  find_delta [] k = none
  find_delta (d ∷ ds) k =
      let rest = find_delta ds k in if str_eq d.key k then some d.runtime_stats else rest

  abbrev pub deltas_of_vendor : Option (List (RuntimeStatsDelta F)) → List (RuntimeStatsDelta F)
  deltas_of_vendor none = []
  deltas_of_vendor (some ds) = ds

  -- The delta for a key of a vendor.
  abbrev pub delta_at :
      Table (List (RuntimeStatsDelta F)) → String → String → Option (RuntimeStats F)
  delta_at t v k = find_delta (deltas_of_vendor (lookup t v)) k

  -- The counters of a key of a vendor.
  abbrev pub stats_at : Baseline F → String → String → Option (RuntimeStats F)
  stats_at t v k = lookup (keys_of_vendor (lookup t v)) k

  -- No vendor, and no key of a vendor, stands twice.
  unfoldable pub AllUnique : Baseline F → Type 0
  AllUnique [] = Unit
  AllUnique (e ∷ es) = Unique e.value × AllUnique es

  find_delta-with_delta :
      (k key : String) (o : Option (RuntimeStats F)) (ds : List (RuntimeStatsDelta F))
      → str_eq key k ≡ false
      → find_delta (with_delta key o ds) k ≡ find_delta ds k
  unfolding with_delta
  find_delta-with_delta k key none ds h = refl
  find_delta-with_delta k key (some d) ds h = rw h refl

  find_delta-with_delta_self :
      (k key : String) (o : Option (RuntimeStats F)) (ds : List (RuntimeStatsDelta F))
      → str_eq key k ≡ true
      → find_delta ds k ≡ none
      → find_delta (with_delta key o ds) k ≡ o
  unfolding with_delta
  find_delta-with_delta_self k key none ds h g = g
  find_delta-with_delta_self k key (some d) ds h g = rw h refl

module _ {F : Type 0} ⦃fl : FloatOps F⦄ where
  -- The delta that the counters of a key call for, where it has any.
  abbrev pub delta_for : Option (RuntimeStats F) → Option (RuntimeStats F) → Option (RuntimeStats F)
  delta_for none prev = none
  delta_for (some current) prev = delta_of current prev

  key_deltas-at :
      (current prev : Table (RuntimeStats F)) (k : String)
      → Unique current
      → find_delta (key_deltas current prev) k ≡ delta_for (lookup current k) (lookup prev k)
  unfolding key_deltas lookup Unique
  key_deltas-at [] prev k u = refl
  key_deltas-at (e ∷ es) prev k (fresh, u) = elim (Bool-cases (str_eq e.name k)) [
    | inl h ↦
        let own = delta_of e.value (lookup prev e.name) in
        let rest = key_deltas es prev in
        let same = str_eq-eq e.name k h in
        let gone : find_delta (key_deltas es prev) k ≡ none =
          key_deltas-at es prev k u
          ∙ ap (λ (o : Option (RuntimeStats F)). delta_for o (lookup prev k)) (rw same at fresh) in
        find_delta-with_delta_self k e.name own rest h gone
        ∙ rw h (ap (λ n. delta_of e.value (lookup prev n)) same)
    | inr h ↦
        find_delta-with_delta k e.name (delta_of e.value (lookup prev e.name)) (key_deltas es prev)
          h
        ∙ rw h (key_deltas-at es prev k u)
  ]

  vendor_deltas-absent :
      (current previous : Baseline F) (v : String)
      → lookup current v ≡ none
      → lookup (vendor_deltas current previous) v ≡ none
  unfolding vendor_deltas lookup
  vendor_deltas-absent [] previous v h = refl
  vendor_deltas-absent (e ∷ es) previous v h = elim (Bool-cases (str_eq e.name v)) [
    | inl g ↦ absurd (ground arith)
    | inr g ↦
        elim (Bool-cases (is_nil (key_deltas e.value (keys_of_vendor (lookup previous e.name))))) [
          | inl n ↦ rw n (vendor_deltas-absent es previous v (rw g at h))
          | inr n ↦ rw (n, lookup, g) (vendor_deltas-absent es previous v (rw g at h))
        ]
  ]

  nil-find_delta :
      (ds : List (RuntimeStatsDelta F)) (k : String) → is_nil ds ≡ true → find_delta ds k ≡ none
  nil-find_delta [] k h = refl
  nil-find_delta (d ∷ ds) k h = absurd (ground arith)

  -- A flush sends, for each key of each vendor of the snapshot, the delta that its counters call for
  -- against its counters in the baseline, and nothing else. No vendor and no key stands twice.
  pub vendor_deltas-delta_at :
      (current previous : Baseline F) (v k : String)
      → Unique current
      → AllUnique current
      → delta_at (vendor_deltas current previous) v k
        ≡ delta_for (stats_at current v k) (stats_at previous v k)
  unfolding vendor_deltas lookup Unique AllUnique
  vendor_deltas-delta_at [] previous v k u us = refl
  vendor_deltas-delta_at (e ∷ es) previous v k (fresh, u) (w, ws) =
      elim (Bool-cases (str_eq e.name v)) [
        | inl h ↦
            let same = str_eq-eq e.name v h in
            let ds = key_deltas e.value (keys_of_vendor (lookup previous e.name)) in
            let here =
              key_deltas-at e.value (keys_of_vendor (lookup previous e.name)) k w
              ∙ ap (λ x. delta_for (lookup e.value k) (stats_at previous x k)) same in
            elim (Bool-cases (is_nil ds)) [
              | inl n ↦
                  let gone : lookup (vendor_deltas es previous) v ≡ none =
                    vendor_deltas-absent es previous v (rw same at fresh) in
                  rw (n, h)
                    (ap
                        (λ (o : Option (List (RuntimeStatsDelta F))).
                          find_delta (deltas_of_vendor o) k)
                        gone
                      ∙ sym (nil-find_delta ds k n)
                      ∙ here)
              | inr n ↦ rw (n, lookup, h) here
            ]
        | inr h ↦
            elim (Bool-cases
              (is_nil (key_deltas e.value (keys_of_vendor (lookup previous e.name))))) [
                | inl n ↦ rw (n, h) (vendor_deltas-delta_at es previous v k u ws)
                | inr n ↦ rw (n, lookup, h) (vendor_deltas-delta_at es previous v k u ws)
              ]
      ]
