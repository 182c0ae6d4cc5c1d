-- ===== src/Balancer/Session/Balance.antt =====
-- The number of attempts under way on a key is the number of open attempts that name it.
use jc_proxy.Balancer.Settle.Releases.{cooldown_at-Settles, disable_at-Settles}
use jc_proxy.Balancer.Pool.Inflight.{
  disable_key-inflight, enable_key-inflight, retire-inflight, new_pool-inflight,
}
use Prim.Native.String.{String}
use jc_proxy.Prelude.Int.{Duration}
use jc_proxy.Prelude.Float.{FloatOps}
use jc_proxy.Balancer.Pool.{KeyConfig, new_pool}
use jc_proxy.Prelude.{
  ℕ, zero, suc, ◌+◌, ◌≡◌, refl, ap, sym, ◌∙◌, List, [], ◌∷◌, ◌++◌, Option, none, some, arith,
  if◌then◌else◌, modify, get_elem?, ◌==◌,
}
use jc_proxy.Prelude.Int.{Time}
use jc_proxy.Balancer.KeyState.{KeyState}
use jc_proxy.Balancer.KeyState.Health.{Health, healths}
use jc_proxy.Balancer.Pool.{Pool, inflight_of, Excluded}
use jc_proxy.Balancer.Pick.Acquire.{Attempt}
use jc_proxy.Balancer.Pick.Acquire.Safety.{Acquired, begin_health, acquire-Acquired}
use jc_proxy.Balancer.Settle.Releases.{
  Settles, complete_attempt-Settles, record_sample_at-inflight, release_success-Settles,
  release-Settles, release_interrupted-Settles, release_failure-Settles, observe_at-Settles,
}
use jc_proxy.Balancer.Session.{
  Settlement, by_result, by_success, by_release, by_interruption, by_failure, by_observation,
  by_cooldown, by_disabling, settle_by, Step, acquires, settles, samples, disables, enables,
  retires, Reachable, here, then_step, Session, opened,
}

abbrev pub open_on : ℕ → List Attempt → ℕ
open_on i [] = 0
open_on i (a ∷ os) = (if i == a.idx then 1 else 0) + open_on i os

open_on-append :
    (i : ℕ) (os os' : List Attempt) → open_on i (os ++ os') ≡ open_on i os + open_on i os'
open_on-append i [] os' = omega arith
open_on-append i (a ∷ os) os' = omega (arith, open_on-append i os os')

module _ {F : Type 0} where
  -- For every index; out of range there is no attempt.
  abbrev pub Balanced : Session F → Type 0
  Balanced s = (i : ℕ) → inflight_of s.pool.keys i ≡ open_on i s.open_attempts

  load : List (Health F) → ℕ → ℕ
  load [] i = 0
  load (h ∷ hs) zero = h.inflight
  load (h ∷ hs) (suc i) = load hs i

  load-healths : (ks : List (KeyState F)) (i : ℕ) → inflight_of ks i ≡ load (healths ks) i
  unfolding inflight_of load
  load-healths [] i = refl
  load-healths (k ∷ ks) zero = refl
  load-healths (k ∷ ks) (suc i) = load-healths ks i

  load-modify :
      (hs : List (Health F)) (j i : ℕ) (h : Health F)
      → get_elem? hs j ≡ some h
      → load (modify hs j begin_health) i ≡ (if i == j then 1 else 0) + load hs i
  unfolding load
  load-modify [] j i h e = cc
  load-modify (x ∷ hs) zero zero h e = ground arith
  load-modify (x ∷ hs) zero (suc i) h e = ground arith
  load-modify (x ∷ hs) (suc j) zero h e = ground arith
  load-modify (x ∷ hs) (suc j) (suc i) h e = ground (arith, load-modify hs j i h e)

  Acquired-Balanced :
      (now : Time) (excluded : Excluded) (allowed : Option (List ℕ)) (p : Pool F)
      (os : List Attempt) (r : Pool F × Option Attempt)
      → Acquired now excluded allowed p r
      → Balanced (record { pool = p; open_attempts = os })
      → Balanced (opened os r)
  Acquired-Balanced now excluded allowed p os (q, none) (_, e) b i =
      load-healths q.keys i ∙ ap (λ hs. load hs i) e ∙ sym (load-healths p.keys i) ∙ b i
  Acquired-Balanced now excluded allowed p os (q, some a) (_, _, (h, at_a, _, _), e) b i =
      load-healths q.keys i
      ∙ ap (λ hs. load hs i) e
      ∙ load-modify (healths p.keys) a.idx i h at_a
      ∙ omega (arith, load-healths p.keys i, b i)

  Settles-Balanced :
      (p q : Pool F) (a : Attempt) (os os' : List Attempt)
      → Settles a.idx p q
      → Balanced (record { pool = p; open_attempts = os ++ a ∷ os' })
      → Balanced (record { pool = q; open_attempts = os ++ os' })
  Settles-Balanced p q a os os' s b i =
      ground (arith, s i, b i, open_on-append i os (a ∷ os'), open_on-append i os os')

module _ {F : Type 0} ⦃fl : FloatOps F⦄ where
  settle_by-Settles :
      (s : Settlement) (a : Attempt) (p : Pool F) → Settles a.idx p (settle_by s a p)
  unfolding settle_by
  settle_by-Settles (by_result c r) a p = complete_attempt-Settles c a.idx a.version r p
  settle_by-Settles by_success a p = release_success-Settles a.idx (some a.version) p
  settle_by-Settles by_release a p = release-Settles a.idx p
  settle_by-Settles by_interruption a p = release_interrupted-Settles a.idx p
  settle_by-Settles by_failure a p = release_failure-Settles a.idx p
  settle_by-Settles (by_observation status reason) a p =
      observe_at-Settles a.idx status reason (some a.version) p
  settle_by-Settles (by_cooldown now status reason base) a p =
      cooldown_at-Settles now a.idx status reason base (some a.version) p
  settle_by-Settles (by_disabling now status reason by) a p =
      disable_at-Settles now a.idx status reason by (some a.version) p

  Step-Balanced : (s t : Session F) → Step s t → Balanced s → Balanced t
  Step-Balanced _ _ (acquires intn below now epoch excluded allowed p os) b i =
      Acquired-Balanced now excluded allowed p os _
        (acquire-Acquired intn now epoch excluded allowed p below) b i
  Step-Balanced _ _ (settles s a p os os') b i =
      Settles-Balanced p (settle_by s a p) a os os' (settle_by-Settles s a p) b i
  Step-Balanced _ _ (samples c idx header full ok expected p os) b i =
      record_sample_at-inflight c idx header full ok expected p i ∙ b i
  Step-Balanced _ _ (disables now key reason by p os) b i =
      disable_key-inflight now key reason by p i ∙ b i
  Step-Balanced _ _ (enables key p os) b i = enable_key-inflight key p i ∙ b i
  Step-Balanced _ _ (retires p os) b i = retire-inflight p i ∙ b i

  Reachable-keeps : (s t : Session F) → Reachable s t → Balanced s → Balanced t
  Reachable-keeps s _ here b = b
  Reachable-keeps s t (then_step u _ r st) b = Step-Balanced u t st (Reachable-keeps s u r b)

  -- From a new pool, after any sequence of calls in which an attempt is settled at most once and
  -- with its own index and version, the number of attempts under way on each key is the number of
  -- the open attempts that name it.
  pub Reachable-Balanced :
      (created_at : Duration) (strategy : String) (cfgs : List (KeyConfig F)) (p : Pool F)
      (t : Session F)
      → new_pool created_at strategy cfgs ≡ some p
      → Reachable (record { pool = p; open_attempts = [] }) t
      → Balanced t
  Reachable-Balanced created_at strategy cfgs p t made r =
      Reachable-keeps (record { pool = p; open_attempts = [] }) t r
        (new_pool-inflight created_at strategy cfgs p made)
