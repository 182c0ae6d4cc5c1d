-- ===== src/Balancer/KeyState/Health.antt =====
-- The part of a key's state that scheduling does not touch: its identity, its health, its
-- statistics and the number of its attempts under way.
use Prim.Native.String.{String}
use jc_proxy.Prelude.{
  ℕ, zero, suc, ◌≡◌, refl, ap, Bool, List, [], ◌∷◌, Option, some, modify, get_elem?, arith, length,
}
use jc_proxy.Prelude.Int.{ℤ, Time, Duration}
use jc_proxy.Balancer.Handle.{Handle}
use jc_proxy.Balancer.KeyState.{KeyState, sync_stats_generation}

pub record Health (F : Type 0) : Type 0 where
  pub key : String
  pub status : String
  pub disable_reason : String
  pub disabled_at : Option Time
  pub disabled_by : String
  pub version : ℤ
  pub inflight : ℕ
  pub failures : ℕ
  pub cooldown_until : Time
  pub cooldown_level : ℕ
  pub stats : Handle F
  pub retired : Bool

module _ {F : Type 0} where
  abbrev pub health : KeyState F → Health F
  health k = record {
    key = k.key;
    status = k.status;
    disable_reason = k.disable_reason;
    disabled_at = k.disabled_at;
    disabled_by = k.disabled_by;
    version = k.version;
    inflight = k.inflight;
    failures = k.failures;
    cooldown_until = k.cooldown_until;
    cooldown_level = k.cooldown_level;
    stats = k.stats;
    retired = k.retired;
  }

  abbrev pub healths : List (KeyState F) → List (Health F)
  healths [] = []
  healths (k ∷ ks) = health k ∷ healths ks

  pub health-sync :
      (g : ℕ) (tick : Duration) (k : KeyState F)
      → health (sync_stats_generation g tick k) ≡ health k
  unfolding sync_stats_generation
  health-sync g tick k = ground arith

  pub healths-modify :
      (f : KeyState F → KeyState F) (g : Health F → Health F)
      → ((k : KeyState F) → health (f k) ≡ g (health k))
      → (ks : List (KeyState F)) (i : ℕ) → healths (modify ks i f) ≡ modify (healths ks) i g
  healths-modify f g h [] i = refl
  healths-modify f g h (k ∷ ks) zero = ap (λ x. x ∷ healths ks) (h k)
  healths-modify f g h (k ∷ ks) (suc i) = ap (λ xs. health k ∷ xs) (healths-modify f g h ks i)

  pub healths-modify_same :
      (f : KeyState F → KeyState F)
      → ((k : KeyState F) → health (f k) ≡ health k)
      → (ks : List (KeyState F)) (i : ℕ) → healths (modify ks i f) ≡ healths ks
  healths-modify_same f h [] i = refl
  healths-modify_same f h (k ∷ ks) zero = ap (λ x. x ∷ healths ks) (h k)
  healths-modify_same f h (k ∷ ks) (suc i) = ap (λ xs. health k ∷ xs) (healths-modify_same f h ks i)

  pub get_elem?-healths :
      (ks : List (KeyState F)) (i : ℕ) (k : KeyState F)
      → get_elem? ks i ≡ some k
      → get_elem? (healths ks) i ≡ some (health k)
  get_elem?-healths [] i k h = cc
  get_elem?-healths (x ∷ ks) zero k h = ground arith
  get_elem?-healths (x ∷ ks) (suc i) k h = get_elem?-healths ks i k h

  pub length-healths : (ks : List (KeyState F)) → length (healths ks) ≡ length ks
  length-healths [] = refl
  length-healths (k ∷ ks) = ap suc (length-healths ks)
