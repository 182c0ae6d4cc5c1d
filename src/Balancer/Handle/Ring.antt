-- ===== src/Balancer/Handle/Ring.antt =====
-- The window of a statistics handle is a ring buffer: read from the newest sample backwards it is
-- the list of the last five attempts.
use native.Mathlib.Decide.{dec_lt}
use jc_proxy.Prelude.{
  ℕ, zero, suc, ◌+◌, ◌%◌, ◌≤◌, ◌<◌, ◌≡◌, refl, ap, ◌∙◌, Bool, List, [], ◌∷◌, arith, if◌then◌else◌,
  length, length-set, lt→ltb, set, take, get_elem?, none, some, ltb, inl, inr, Bool-cases,
}
use jc_proxy.Prelude.Int.{Time, Duration}
use jc_proxy.Prelude.Float.{FloatOps}
use jc_proxy.Balancer.Handle.Defs.{Handle, RequestSample}
use jc_proxy.Balancer.Handle.Window.{
  record_sample, stage_sample, sample_of, expire, push_sample, is_stale,
}
use jc_proxy.Balancer.Handle.Frame.{update_costs-SameData}

-- `count` samples of a window of five, newest first; `next` is where the next one goes.
unfoldable pub read_back : List RequestSample → ℕ → ℕ → List RequestSample
read_back window next zero = []
read_back window next (suc count) =
    let i = (next + 4) % 5 in
    let rest = read_back window i count in
    elim (get_elem? window i) [ none ↦ [] | some s ↦ s ∷ rest ]

unfoldable pub recent_samples : {F : Type 0} → Handle F → List RequestSample
unfolding read_back
recent_samples h = read_back h.window h.next_sample h.sample_count

-- Until the ring is full the samples stand in its first places.
pub record IsRing (window : List RequestSample) (next count : ℕ) : Type 0 where
  pub size : length window ≡ 5
  pub next_in : next < 5
  pub count_in : count ≤ 5
  pub filling : count < 5 → next ≡ count

-- The ring after a push.
abbrev bump : ℕ → ℕ
bump count = if ltb count 5 then count + 1 else count

push-full :
    (w : List RequestSample) (s : RequestSample) (next : ℕ)
    → length w ≡ 5
    → next < 5
    → read_back (set w next s) ((next + 1) % 5) 5 ≡ take 5 (s ∷ read_back w next 5)
unfolding read_back
push-full (a ∷ b ∷ c ∷ d ∷ e ∷ []) s zero h k = refl
push-full (a ∷ b ∷ c ∷ d ∷ e ∷ []) s (suc zero) h k = refl
push-full (a ∷ b ∷ c ∷ d ∷ e ∷ []) s (suc (suc zero)) h k = refl
push-full (a ∷ b ∷ c ∷ d ∷ e ∷ []) s (suc (suc (suc zero))) h k = refl
push-full (a ∷ b ∷ c ∷ d ∷ e ∷ []) s (suc (suc (suc (suc zero)))) h k = refl
push-full w s next h k = absurd (omega arith)

push-filling :
    (w : List RequestSample) (s : RequestSample) (n : ℕ)
    → length w ≡ 5
    → n < 5
    → read_back (set w n s) ((n + 1) % 5) (n + 1) ≡ take 5 (s ∷ read_back w n n)
unfolding read_back
push-filling (a ∷ b ∷ c ∷ d ∷ e ∷ []) s zero h k = refl
push-filling (a ∷ b ∷ c ∷ d ∷ e ∷ []) s (suc zero) h k = refl
push-filling (a ∷ b ∷ c ∷ d ∷ e ∷ []) s (suc (suc zero)) h k = refl
push-filling (a ∷ b ∷ c ∷ d ∷ e ∷ []) s (suc (suc (suc zero))) h k = refl
push-filling (a ∷ b ∷ c ∷ d ∷ e ∷ []) s (suc (suc (suc (suc zero)))) h k = refl
push-filling w s next h k = absurd (omega arith)

push_lem :
    (w : List RequestSample) (s : RequestSample) (next count : ℕ)
    → IsRing w next count
    → read_back (set w next s) ((next + 1) % 5) (bump count) ≡ take 5 (s ∷ read_back w next count)
push_lem w s next count v = elim (dec_lt count 5) [
  | yes low ↦
      let e : next ≡ count = v.filling low in
      rw (e, lt→ltb count 5 low) (push-filling w s count v.size low)
  | no full ↦
      let e : count ≡ 5 = omega (arith, v.count_in) in rw e (push-full w s next v.size v.next_in)
]

push-IsRing :
    (w : List RequestSample) (s : RequestSample) (next count : ℕ)
    → IsRing w next count
    → IsRing (set w next s) ((next + 1) % 5) (bump count)
push-IsRing w s next count v = record {
  size = length-set w next s ∙ v.size;
  next_in = omega arith;
  count_in = ground arith;
  filling = λ h. ground (arith, v.filling);
}

-- The samples that a recording at an instant finds: none, if the last is five minutes old.
abbrev pub fresh_samples : {F : Type 0} ⦃fl : FloatOps F⦄ → Time → Handle F → List RequestSample
fresh_samples now h = if is_stale now h then [] else recent_samples h

module _ {F : Type 0} ⦃fl : FloatOps F⦄ where
  abbrev pub RingOf : Handle F → Type 0
  RingOf h = IsRing h.window h.next_sample h.sample_count

  expire-RingOf : (now : Time) (h : Handle F) → RingOf h → RingOf (expire now h)
  expire-RingOf now h v = elim (Bool-cases (is_stale now h)) [
    | inl e ↦ rw e (record {
      size = v.size;
      next_in = omega arith;
      count_in = omega arith;
      filling = λ _. refl;
    })
    | inr e ↦ rw e v
  ]

  expire-samples : (now : Time) (h : Handle F) → recent_samples (expire now h) ≡ fresh_samples now h
  unfolding recent_samples
  expire-samples now h = elim (Bool-cases (is_stale now h)) [ inl e ↦ rw e | inr e ↦ rw e ]

  recorded :
      (header full : Duration) (success : Bool) (now : Time) (h : Handle F)
      → let s = sample_of header full success in
        let g = push_sample now s (expire now h) in
        (recent_samples (record_sample header full success now h) ≡ recent_samples g)
        × ((record_sample header full success now h).window ≡ g.window)
        × ((record_sample header full success now h).next_sample ≡ g.next_sample)
        × ((record_sample header full success now h).sample_count ≡ g.sample_count)
  unfolding record_sample recent_samples
  recorded header full success now h =
      let d = update_costs-SameData (stage_sample (sample_of header full success) now h) in
      (rw (d.window, d.next_sample, d.sample_count), d.window, d.next_sample, d.sample_count)

  -- Recording into a ring in order keeps it in order. Read backwards, it is then the new sample and
  -- the fresh samples before it, cut to five.
  pub record_sample-recent :
      (header full : Duration) (success : Bool) (now : Time) (h : Handle F)
      → RingOf h
      → RingOf (record_sample header full success now h)
        × (recent_samples (record_sample header full success now h)
            ≡ take 5 (sample_of header full success ∷ fresh_samples now h))
  unfolding recent_samples
  record_sample-recent header full success now h v =
      let s = sample_of header full success in
      let g = expire now h in
      let r = recorded header full success now h in
      let ring = expire-RingOf now h v in
      (
        rw (r.1, r.2, r.3) (push-IsRing g.window s g.next_sample g.sample_count ring),
        r.0
            ∙ push_lem g.window s g.next_sample g.sample_count ring
            ∙ ap (λ xs. take 5 (s ∷ xs)) (expire-samples now h),
      )
