-- ===== src/Balancer/Pick/RoundRobin/Turn.antt =====
-- `pickRoundRobinLocked` takes the available candidate that is next in turn.
use mathlib.Core.List.{Memᴰ}
use native.Mathlib.Nat.{mod-eq_of_lt, mul-add-mod_self_left}
use native.Mathlib.Decide.{dec_lt}
use jc_proxy.Prelude.{
  ℕ, zero, suc, ◌+◌, ◌-◌, ◌%◌, ◌≤◌, ◌<◌, ◌≡◌, ◌≢◌, refl, ap, sym, ◌∙◌, true, false, List, Option,
  none, some, some_inj, inl, inr, arith, length, Bool-cases, ltb,
}
use jc_proxy.Prelude.Int.{Time}
use jc_proxy.Balancer.KeyState.{KeyState}
use jc_proxy.Balancer.Pool.{Pool, Excluded, is_available, candidates}
use jc_proxy.Balancer.Pool.Availability.{available-lt, any_available-of_mem}
use jc_proxy.Balancer.Pick.Distance.{distance}
use jc_proxy.Balancer.Pick.Distance.Rotation.{rotation_hits}
use jc_proxy.Balancer.Pick.Distance.Scans.{scan_covers, scan_inv}
use jc_proxy.Balancer.Pick.Picks.{Picks}
use jc_proxy.Balancer.Pick.RoundRobin.Choice.{pick_round_robin-Picks}
use jc_proxy.Balancer.Pick.RoundRobin.{rr_scan, nearer, rr_nearest, first_of_pair, pick_round_robin}

mod_back : (n a : ℕ) → a < n → (n + a) % n ≡ a
mod_back n a h =
    ap (λ (x : ℕ). (x + a) % n) (omega arith) ∙ mul-add-mod_self_left n 1 a ∙ mod-eq_of_lt h

-- A key is at the distance at which the loop over all keys reaches it.
distance_lem : (n rr t : ℕ) → rr ≤ n → t < n → distance n rr ((rr + t) % n) ≡ t
distance_lem n rr t h k = elim (dec_lt (rr + t) n) [
  | yes low ↦
      let e : (rr + t) % n ≡ rr + t = mod-eq_of_lt low in
      rw e (ap (λ (x : ℕ). x % n) (omega arith) ∙ mod_back n t k)
  | no over ↦
      let e : (rr + t) % n ≡ rr + t - n =
        ap (λ (x : ℕ). x % n) (omega arith) ∙ mod_back n (rr + t - n) (omega arith) in
      rw e (ap (λ (x : ℕ). x % n) (omega arith) ∙ mod-eq_of_lt k)
]

module _ {F : Type 0} (keys : List (KeyState F)) (now : Time) (excluded : Excluded) (rr : ℕ) where
  abbrev gap : ℕ → ℕ
  gap i = distance (length keys) rr i

  abbrev place : ℕ → ℕ
  place t = (rr + t) % length keys

  rr_scan-hit :
      (r try : ℕ)
      → is_available keys now excluded (place try) ≡ true
      → rr_scan keys now excluded rr (suc r) try ≡ some (place try)
  unfolding rr_scan
  rr_scan-hit r try h = rw h

  rr_scan-miss :
      (r try : ℕ)
      → is_available keys now excluded (place try) ≡ false
      → rr_scan keys now excluded rr (suc r) try ≡ rr_scan keys now excluded rr r (try + 1)
  unfolding rr_scan
  rr_scan-miss r try h = rw h

  -- What the loop returns is reached no later than any available key.
  rr_scan-first :
      (rounds try i t : ℕ)
      → rr_scan keys now excluded rr rounds try ≡ some i
      → try ≤ t
      → t < try + rounds
      → is_available keys now excluded (place t) ≡ true
      → (u : ℕ) × (u ≤ t) × (i ≡ place u)
  unfolding rr_scan
  rr_scan-first zero try i t h low high a = absurd (omega arith)
  rr_scan-first (suc r) try i t h low high a =
      elim (Bool-cases (is_available keys now excluded (place try))) [
        | inl hit ↦ (try, low, sym (some_inj (sym (rr_scan-hit r try hit) ∙ h)))
        | inr miss ↦
            let later : try ≢ t =
              λ e. cc (ap (λ x. is_available keys now excluded (place x)) e, miss, a) in
            rr_scan-first r (try + 1) i t (sym (rr_scan-miss r try miss) ∙ h) (omega (arith, later))
              (omega arith) a
      ]

  -- The best so far with its distance.
  abbrev IsNear : Option (ℕ × ℕ) → Type 0
  IsNear none = Unit
  IsNear (some (b, g)) = g ≡ gap b

  abbrev Leads : Option (ℕ × ℕ) → ℕ → Type 0
  Leads none j = ⊥
  Leads (some (b, g)) j = g ≤ gap j

  nearer-IsNear : (i : ℕ) (s : Option (ℕ × ℕ)) → IsNear s → IsNear (nearer (length keys) rr i s)
  unfolding nearer
  nearer-IsNear i none h = refl
  nearer-IsNear i (some (b, g)) h = elim (Bool-cases (ltb (gap i) g)) [
    | inl e ↦ rw e refl
    | inr e ↦ rw e h
  ]

  nearer-Leads : (i : ℕ) (s : Option (ℕ × ℕ)) → Leads (nearer (length keys) rr i s) i
  unfolding nearer
  nearer-Leads i none = omega arith
  nearer-Leads i (some (b, g)) = elim (Bool-cases (ltb (gap i) g)) [
    | inl e ↦ rw e (omega arith)
    | inr e ↦ rw e (ground arith)
  ]

  nearer-Leads_still :
      (i j : ℕ) (s : Option (ℕ × ℕ)) → Leads s j → Leads (nearer (length keys) rr i s) j
  unfolding nearer
  nearer-Leads_still i j none l = absurd l
  nearer-Leads_still i j (some (b, g)) l = elim (Bool-cases (ltb (gap i) g)) [
    | inl e ↦ rw e (ground arith)
    | inr e ↦ rw e l
  ]

  led :
      (s : Option (ℕ × ℕ)) (i j : ℕ)
      → first_of_pair s ≡ some i
      → IsNear s
      → Leads s j
      → gap i ≤ gap j
  led none i j e n l = absurd l
  led (some (b, g)) i j e n l = let same : b ≡ i = some_inj e in omega (arith, n, ap gap same)

  rr_nearest-led :
      (is : List ℕ) (i j : ℕ)
      → first_of_pair (rr_nearest keys now excluded rr is) ≡ some i
      → Memᴰ j is
      → is_available keys now excluded j ≡ true
      → gap i ≤ gap j
  unfolding rr_nearest
  rr_nearest-led is i j e m a =
      let avail = is_available keys now excluded in
      let step = nearer (length keys) rr in
      led _ i j e
        (scan_inv (λ _. avail) step avail IsNear (λ s k p. refl) (λ _. Unit {0})
          (λ k s l a' p. nearer-IsNear k s p) is none (λ k n. tt) tt)
        (scan_covers (λ _. avail) step avail IsNear (λ s k p. refl) (λ _. Unit {0})
          (λ k s l a' p. nearer-IsNear k s p) Leads (λ k s l a' p. nearer-Leads k s)
          (λ k o s l a' p r. nearer-Leads_still k o s r) is none j (λ k n. tt) tt m a)

  rr_scan-led :
      (i j : ℕ)
      → rr ≤ length keys
      → rr_scan keys now excluded rr (length keys) 0 ≡ some i
      → is_available keys now excluded j ≡ true
      → gap i ≤ gap j
  rr_scan-led i j low e a =
      let n = length keys in
      let hit = rotation_hits n rr j (available-lt keys now excluded j a) in
      let first =
        rr_scan-first n 0 i hit.0 e (omega arith) (omega (arith, hit.1))
          (ap (is_available keys now excluded) hit.2 ∙ a) in
      let at_i = ap gap first.2 ∙ distance_lem n rr first.0 low (omega (arith, hit.1, first.1)) in
      let at_j = ap gap (sym hit.2) ∙ distance_lem n rr hit.0 low hit.1 in
      omega (arith, at_i, at_j, first.1)

found :
    {F : Type 0} (keys : List (KeyState F)) (now : Time) (excluded : Excluded) (is : List ℕ)
    (r : Option ℕ) (j : ℕ)
    → Picks keys now excluded is r
    → Memᴰ j is
    → is_available keys now excluded j ≡ true
    → (i : ℕ) × (r ≡ some i) × Memᴰ i is × (is_available keys now excluded i ≡ true)
found keys now excluded is none j none_available m a =
    let some_available = any_available-of_mem keys now excluded j is a m in absurd (ground arith)
found keys now excluded is (some i) j (a', m') m a = (i, refl, m', a')

nearest :
    {F : Type 0} (now : Time) (excluded : Excluded) (allowed : Option (List ℕ)) (p : Pool F)
    (i j : ℕ)
    → p.rr_idx ≤ length p.keys
    → pick_round_robin now excluded allowed p ≡ some i
    → Memᴰ j (candidates p.keys allowed)
    → is_available p.keys now excluded j ≡ true
    → distance (length p.keys) p.rr_idx i ≤ distance (length p.keys) p.rr_idx j
unfolding pick_round_robin
nearest now excluded none p i j low e m a = rr_scan-led p.keys now excluded p.rr_idx i j low e a
nearest now excluded (some allowed) p i j low e m a =
    rr_nearest-led p.keys now excluded p.rr_idx allowed i j e m a

-- Where a candidate is available, and the cursor is at most the number of keys, round robin picks a
-- key: a candidate that is available too, and that is at least as near to the cursor, going up and
-- around.
pub pick_round_robin-next :
    {F : Type 0} (now : Time) (excluded : Excluded) (allowed : Option (List ℕ)) (p : Pool F) (j : ℕ)
    → p.rr_idx ≤ length p.keys
    → Memᴰ j (candidates p.keys allowed)
    → is_available p.keys now excluded j ≡ true
    → (i : ℕ) × (pick_round_robin now excluded allowed p ≡ some i)
      × Memᴰ i (candidates p.keys allowed)
      × (is_available p.keys now excluded i ≡ true)
      × (distance (length p.keys) p.rr_idx i ≤ distance (length p.keys) p.rr_idx j)
pick_round_robin-next now excluded allowed p j low m a =
    let (i, picked, member, available) =
      found p.keys now excluded (candidates p.keys allowed)
        (pick_round_robin now excluded allowed p) j (pick_round_robin-Picks now excluded allowed p)
        m a in
    (i, picked, member, available, nearest now excluded allowed p i j low picked m a)
