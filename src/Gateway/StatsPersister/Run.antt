-- ===== src/Gateway/StatsPersister/Run.antt =====
-- internal/gateway/stats_persister.go: a run of flushes, of which any may fail.
use Prim.Native.String.{String}
use mathlib.Core.Path.{subst}
use jc_proxy.Prelude.{
  ℕ, ◌+◌, ◌≡◌, refl, sym, ap, ◌∙◌, Bool-cases, inl, inr, arith, List, [], ◌∷◌, ◌++◌, Option, none,
  some,
}
use jc_proxy.Prelude.Float.{FloatOps}
use jc_proxy.Prelude.Result.{Result, ok, err}
use jc_proxy.Prelude.Table.{Table}
use jc_proxy.Keystore.RuntimeStats.{RuntimeStats}
use jc_proxy.Keystore.RuntimeStats.Deltas.{Dominates}
use jc_proxy.Keystore.FileStore.{StoreError, is_nil}
use jc_proxy.Gateway.StatsPersister.{
  KeyStats, StatsStore, RuntimeStatsPersister, PersisterError, vendor_deltas, merge_vendors,
  build_runtime_stats_deltas, capture_runtime_stats, flush_locked, after_apply,
}
use jc_proxy.Gateway.StatsPersister.Deltas.{stats_at}
use jc_proxy.Gateway.StatsPersister.Baseline.{
  or_else, merge_vendors-stats_at, Sound, merge_vendors-Sound, capture_runtime_stats-Sound,
}
use jc_proxy.Gateway.StatsPersister.Ledger.{
  Counter, count, counted, Grows, accepted, flush_locked-KeepsStep,
}

module _ {F : Type 0} (v k : String) where
  -- From `latest` on, no counter of the key falls from one snapshot to the next.
  abbrev pub Rises : Option (RuntimeStats F) → List (Table (List (KeyStats F))) → Type 0
  Rises latest [] = Unit
  Rises latest (x ∷ xs) =
      Grows (stats_at (capture_runtime_stats x) v k) latest
      × Rises (or_else (stats_at (capture_runtime_stats x) v k) latest) xs

module _ {F : Type 0} where
  -- The baseline is not ahead of the latest counters.
  abbrev Behind : Option (RuntimeStats F) → Option (RuntimeStats F) → Type 0
  Behind none latest = Unit
  Behind (some l) none = ⊥
  Behind (some l) (some m) = Dominates m l

  Behind-self : (o : Option (RuntimeStats F)) → Behind o o
  Behind-self none = tt
  Behind-self (some s) = ground arith

  Behind-Grows :
      (current last latest : Option (RuntimeStats F))
      → Behind last latest
      → Grows current latest
      → Grows current last
  Behind-Grows none last latest b g = tt
  Behind-Grows (some s) none latest b g = tt
  Behind-Grows (some s) (some l) none b g = absurd b
  Behind-Grows (some s) (some l) (some m) b g = ground arith

  Behind-unchanged :
      (current last latest : Option (RuntimeStats F))
      → Behind last latest
      → Grows current latest
      → Behind last (or_else current latest)
  Behind-unchanged none last latest b g = b
  Behind-unchanged (some s) none latest b g = tt
  Behind-unchanged (some s) (some l) none b g = absurd b
  Behind-unchanged (some s) (some l) (some m) b g = ground arith

  Behind-merged :
      (current last latest : Option (RuntimeStats F))
      → Behind last latest
      → Behind (or_else current last) (or_else current latest)
  Behind-merged none last latest b = b
  Behind-merged (some s) last latest b = Behind-self (some s)

module _ {S F : Type 0} ⦃fl : FloatOps F⦄ (store : StatsStore S F) where
  -- The flushes of `run`, one for each snapshot; an error is reported and the run goes on.
  unfoldable pub flush_all :
      List (Table (List (KeyStats F))) → RuntimeStatsPersister F → S → S × RuntimeStatsPersister F
  unfolding flush_locked
  flush_all [] p s = (s, p)
  flush_all (x ∷ xs) p s = let (s', (p', r)) = flush_locked store x p s in flush_all xs p' s'

  abbrev LeavesBaseline :
      Table (List (KeyStats F))
      → RuntimeStatsPersister F
      → S × (RuntimeStatsPersister F × Result PersisterError (Unit {0}))
      → Type 0
  LeavesBaseline x p (s', (p', ok a)) = p'.last ≡ merge_vendors (capture_runtime_stats x) p.last
  LeavesBaseline x p (s', (p', err e)) = p'.last ≡ p.last

  after_apply-LeavesBaseline :
      (x : Table (List (KeyStats F))) (p : RuntimeStatsPersister F)
      (out : S × Result StoreError (Unit {0}))
      → LeavesBaseline x p (after_apply (merge_vendors (capture_runtime_stats x) p.last) p out)
  unfolding after_apply
  after_apply-LeavesBaseline x p (s, ok a) = refl
  after_apply-LeavesBaseline x p (s, err e) = refl

  flush_locked-LeavesBaseline :
      (x : Table (List (KeyStats F))) (p : RuntimeStatsPersister F) (s : S)
      → LeavesBaseline x p (flush_locked store x p s)
  unfolding flush_locked build_runtime_stats_deltas
  flush_locked-LeavesBaseline x p s =
      let ds = vendor_deltas (capture_runtime_stats x) p.last in
      elim (Bool-cases (is_nil ds)) [
        | inl n ↦ rw n refl
        | inr n ↦ rw n (after_apply-LeavesBaseline x p (store.apply_deltas ds s))
      ]

  leaves-Sound :
      (x : Table (List (KeyStats F))) (p : RuntimeStatsPersister F)
      (out : S × (RuntimeStatsPersister F × Result PersisterError (Unit {0})))
      → LeavesBaseline x p out
      → Sound p.last
      → Sound (out.1).0.last
  leaves-Sound x p (s', (p', err e)) l sound = subst Sound (sym l) sound
  leaves-Sound x p (s', (p', ok a)) l sound =
      subst Sound (sym l)
        (merge_vendors-Sound (capture_runtime_stats x) p.last (capture_runtime_stats-Sound x))

  flush_all-Sound :
      (xs : List (Table (List (KeyStats F)))) (p : RuntimeStatsPersister F) (s : S)
      → Sound p.last
      → Sound (flush_all xs p s).1.last
  unfolding flush_all
  flush_all-Sound [] p s sound = sound
  flush_all-Sound (x ∷ xs) p s sound =
      let out = flush_locked store x p s in
      flush_all-Sound xs (out.1).0 out.0
        (leaves-Sound x p out (flush_locked-LeavesBaseline x p s) sound)

  flush_all-snoc :
      (xs : List (Table (List (KeyStats F)))) (x : Table (List (KeyStats F)))
      (p : RuntimeStatsPersister F) (s : S)
      → flush_all (xs ++ x ∷ []) p s ≡ (
        (flush_locked store x (flush_all xs p s).1 (flush_all xs p s).0).0,
        ((flush_locked store x (flush_all xs p s).1 (flush_all xs p s).0).1).0,
      )
  unfolding flush_all
  flush_all-snoc [] x p s = refl
  flush_all-snoc (y ∷ ys) x p s =
      let out = flush_locked store y p s in flush_all-snoc ys x (out.1).0 out.0

  module _ (v k : String) where
    -- What a flush does to the baseline, as the next flush needs it.
    record Follows (latest : Option (RuntimeStats F)) (p : RuntimeStatsPersister F) : Type 0 where
      pub sound : Sound p.last
      pub behind : Behind (stats_at p.last v k) latest

    leaves-Follows :
        (x : Table (List (KeyStats F))) (p : RuntimeStatsPersister F)
        (latest : Option (RuntimeStats F))
        (out : S × (RuntimeStatsPersister F × Result PersisterError (Unit {0})))
        → LeavesBaseline x p out
        → Follows latest p
        → Grows (stats_at (capture_runtime_stats x) v k) latest
        → Follows (or_else (stats_at (capture_runtime_stats x) v k) latest) (out.1).0
    leaves-Follows x p latest (s', (p', err e)) l f g =
        let current = stats_at (capture_runtime_stats x) v k in
        record {
          sound = leaves-Sound x p (s', (p', err e)) l f.sound;
          behind =
              subst (λ t. Behind (stats_at t v k) (or_else current latest)) (sym l)
                (Behind-unchanged current (stats_at p.last v k) latest f.behind g);
        }
    leaves-Follows x p latest (s', (p', ok a)) l f g =
        let current = stats_at (capture_runtime_stats x) v k in
        let merged : stats_at p'.last v k ≡ or_else current (stats_at p.last v k) =
          ap (λ t. stats_at t v k) l
          ∙ merge_vendors-stats_at (capture_runtime_stats x) p.last v k f.sound.vendors in
        record {
          sound = leaves-Sound x p (s', (p', ok a)) l f.sound;
          behind =
              subst (λ o. Behind o (or_else current latest)) (sym merged)
                (Behind-merged current (stats_at p.last v k) latest f.behind);
        }

  module _ (c : Counter) (v k : String) where
    -- What all batches that the store accepts in a run say of the counter.
    unfoldable pub accepted_all : List (Table (List (KeyStats F))) → RuntimeStatsPersister F → S → ℕ
    unfolding accepted flush_locked
    accepted_all [] p s = 0
    accepted_all (x ∷ xs) p s =
        let out = flush_locked store x p s in
        accepted store c v k x p s + accepted_all xs (out.1).0 out.0

    accepted_all-last :
        (xs : List (Table (List (KeyStats F)))) (latest : Option (RuntimeStats F))
        (p : RuntimeStatsPersister F) (s : S)
        → Follows v k latest p
        → Rises v k latest xs
        → accepted_all xs p s + counted c (stats_at p.last v k)
          ≡ counted c (stats_at (flush_all xs p s).1.last v k)
    unfolding flush_all accepted_all
    accepted_all-last [] latest p s f rises = omega arith
    accepted_all-last (x ∷ xs) latest p s f (g, gs) =
        let out = flush_locked store x p s in
        let current = stats_at (capture_runtime_stats x) v k in
        let grows = Behind-Grows current (stats_at p.last v k) latest f.behind g in
        let one = flush_locked-KeepsStep store c v k x p s f.sound grows in
        let f' = leaves-Follows v k x p latest out (flush_locked-LeavesBaseline x p s) f g in
        let rest = accepted_all-last xs (or_else current latest) (out.1).0 out.0 f' gs in
        omega (arith, one, rest)

    -- Once a flush of a snapshot that has the key succeeds, whatever flushes before it failed, the
    -- batches that the store accepted, this one included, say together of the counter what it grew
    -- by since the first baseline. What a store does with a batch that it accepts is left open. No
    -- counter of the key falls meanwhile, and no vendor and no key stands twice in that baseline.
    pub flush_locked-accepted :
        (xs : List (Table (List (KeyStats F)))) (x : Table (List (KeyStats F)))
        (p : RuntimeStatsPersister F) (s : S) (now : RuntimeStats F) (s' : S)
        (p' : RuntimeStatsPersister F)
        → Sound p.last
        → Rises v k (stats_at p.last v k) (xs ++ x ∷ [])
        → stats_at (capture_runtime_stats x) v k ≡ some now
        → flush_locked store x (flush_all xs p s).1 (flush_all xs p s).0 ≡ (s', (p', ok tt))
        → accepted_all (xs ++ x ∷ []) p s + counted c (stats_at p.last v k) ≡ count c now
    flush_locked-accepted xs x p s now s' p' sound rises there h =
        let q = (flush_all xs p s).1 in
        let z = (flush_all xs p s).0 in
        let first : Follows v k (stats_at p.last v k) p = record {
          sound = sound;
          behind = Behind-self (stats_at p.last v k);
        } in
        let all = accepted_all-last (xs ++ x ∷ []) (stats_at p.last v k) p s first rises in
        let end : flush_all (xs ++ x ∷ []) p s ≡ (s', p') =
          flush_all-snoc xs x p s
          ∙ ap
              (λ (o : S × (RuntimeStatsPersister F × Result PersisterError (Unit {0}))).
                (o.0, (o.1).0))
              h in
        let l : p'.last ≡ merge_vendors (capture_runtime_stats x) q.last =
          subst (LeavesBaseline x q) h (flush_locked-LeavesBaseline x q z) in
        let caught_up : stats_at p'.last v k ≡ some now =
          ap (λ t. stats_at t v k) l
          ∙ merge_vendors-stats_at (capture_runtime_stats x) q.last v k
              (flush_all-Sound xs p s sound).vendors
          ∙ ap (λ o. or_else o (stats_at q.last v k)) there in
        all
        ∙ ap (λ (o : S × RuntimeStatsPersister F). counted c (stats_at o.1.last v k)) end
        ∙ ap (counted c) caught_up
