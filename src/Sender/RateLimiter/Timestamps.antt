-- ===== src/Sender/RateLimiter/Timestamps.antt =====
-- What the cleanup, the wait and the recording do to the list of timestamps.
use vendor.Base.{
  length-snoc, ℕ, suc, ◌+◌, ◌-◌, ◌≤◌, ◌<◌, ◌≡◌, refl, ap, ◌⊎◌, inl, inr, List, [], ◌∷◌, ◌++◌, Bool,
  true, false, ltb, leb, length, All, count, arith, Bool-cases,
}
use vendor.Sender.RateLimiter.{RateLimiter, cleanup_loop, must_sleep, sleep_duration, trim_loop}

-- Operations at these times that are in the window which ends at `now`.
abbrev pub in_window : ℕ → ℕ → ℕ → Bool
in_window now window t = ltb now (t + window)

pub count-expired :
    (now window : ℕ) (gone : List ℕ)
    → All (λ t. t + window ≤ now) gone
    → count (in_window now window) gone ≡ 0
count-expired now window [] h = refl
count-expired now window (t ∷ gone) h = ground (arith, count-expired now window gone h.1)

module _ (a b : ℕ) (le : a ≤ b) where
  pub expired_later :
      (window : ℕ) (ts : List ℕ) → All (λ t. t + window ≤ a) ts → All (λ t. t + window ≤ b) ts
  expired_later window [] h = tt
  expired_later window (t ∷ ts) h = (omega arith, expired_later window ts h.1)

  pub past_later : (ts : List ℕ) → All (λ t. t ≤ a) ts → All (λ t. t ≤ b) ts
  past_later [] h = tt
  past_later (t ∷ ts) h = (omega arith, past_later ts h.1)

-- A cleanup splits off a front part that has expired.
pub cleanup_split :
    (now window : ℕ) (ts : List ℕ)
    → All (λ t. t ≤ now) ts
    → (gone : List ℕ) × (ts ≡ gone ++ cleanup_loop now window ts)
      × All (λ t. t + window ≤ now) gone
      × All (λ t. t ≤ now) (cleanup_loop now window ts)
unfolding cleanup_loop
cleanup_split now window [] h = ([], refl, tt, tt)
cleanup_split now window (t ∷ ts) h = elim (Bool-cases (leb window (now - t))) [
  | inl old ↦
      let (gone, e, exp, past) = cleanup_split now window ts h.1 in
      rw (old, cleanup_loop) (t ∷ gone, ap (◌∷◌ t) e, (ground arith, exp), past)
  | inr fresh ↦ rw (fresh, cleanup_loop) ([], refl, tt, h)
]

pub cleanup-length :
    (now window : ℕ) (ts : List ℕ) → length (cleanup_loop now window ts) ≤ length ts
unfolding cleanup_loop
cleanup-length now window [] = omega arith
cleanup-length now window (t ∷ ts) = ground (arith, cleanup-length now window ts)

-- An expired head goes.
pub cleanup_drops :
    (now window t : ℕ) (ts : List ℕ)
    → t ≤ now
    → t + window ≤ now
    → length (cleanup_loop now window (t ∷ ts)) ≤ length ts
unfolding cleanup_loop
cleanup_drops now window t ts past h = ground (arith, cleanup-length now window ts)

-- There is room for one more operation: a free place, or an oldest entry that has expired.
abbrev pub HasRoom : ℕ → ℕ → List ℕ → Type 0
HasRoom now window [] = Unit
HasRoom now window (oldest ∷ rest) = oldest + window ≤ now

abbrev pub Room : ℕ → ℕ → ℕ → List ℕ → Type 0
Room now limit window ts = (length ts < limit) ⊎ ((0 < length ts) × HasRoom now window ts)

pub Room-later :
    {limit limit' window window' : ℕ} (before now : ℕ)
    → before ≤ now
    → (ts : List ℕ) → limit ≡ limit'
    → window ≡ window'
    → Room before limit window ts
    → Room now limit' window' ts
Room-later before now le [] e f room = ground arith
Room-later before now le (t ∷ ts) e f room = ground arith

pub not_asleep :
    (checked : ℕ) (r : RateLimiter) (ts : List ℕ)
    → 0 < r.rate_limit
    → All (λ t. t ≤ checked) ts
    → must_sleep checked r ts ≡ false
    → Room checked r.rate_limit r.window ts
unfolding must_sleep
not_asleep checked r [] pos past e = inl pos
not_asleep checked r (t ∷ ts) pos past e = elim (Bool-cases (leb r.rate_limit (suc (length ts)))) [
  | inl full ↦ inr (omega arith, ground arith)
  | inr free ↦ inl (ground arith)
]

pub asleep :
    (checked woken : ℕ) (r : RateLimiter) (ts : List ℕ)
    → All (λ t. t ≤ checked) ts
    → length ts ≤ r.rate_limit
    → must_sleep checked r ts ≡ true
    → checked + sleep_duration checked r ts ≤ woken
    → length (cleanup_loop woken r.window ts) < r.rate_limit
unfolding must_sleep sleep_duration
asleep checked woken r [] past b e h = cc
asleep checked woken r (t ∷ ts) past b e h = ground (arith, cleanup_drops woken r.window t ts)

pub trim_fits : (limit : ℕ) (ts : List ℕ) → length ts ≤ limit → trim_loop limit ts ≡ ts
unfolding trim_loop
trim_fits limit [] h = refl
trim_fits limit (t ∷ ts) h = ground arith

-- Recording where there is room drops at most the oldest entry, which has then expired.
pub trim_split :
    (woken now limit window : ℕ) (ts : List ℕ)
    → Room woken limit window ts
    → length ts ≤ limit
    → woken ≤ now
    → (gone : List ℕ) × (ts ++ now ∷ [] ≡ gone ++ trim_loop limit (ts ++ now ∷ []))
      × All (λ t. t + window ≤ now) gone
      × (length (trim_loop limit (ts ++ now ∷ [])) ≤ limit)
trim_split woken now limit window ts (inl free) b le =
    let short : length (ts ++ now ∷ []) ≤ limit = omega (arith, length-snoc ts now) in
    rw (trim_fits limit (ts ++ now ∷ []) short) ([], refl, tt, short)
trim_split woken now limit window [] (inr (some_entry, old)) b le = absurd (omega arith)
trim_split woken now limit window (t ∷ ts) (inr (some_entry, old)) b le =
    elim (Bool-cases (ltb limit (suc (length (ts ++ now ∷ []))))) [
      | inl over ↦
          let short : length (ts ++ now ∷ []) ≤ limit = omega (arith, length-snoc ts now) in
          unfold trim_loop in
          rw over
            (rw (trim_fits limit (ts ++ now ∷ []) short) (t ∷ [], refl, (omega arith, tt), short))
      | inr under ↦ unfold trim_loop in rw under ([], refl, tt, ground arith)
    ]

pub trim-past :
    (now limit : ℕ) (ts : List ℕ) → All (λ t. t ≤ now) ts → All (λ t. t ≤ now) (trim_loop limit ts)
unfolding trim_loop
trim-past now limit [] h = tt
trim-past now limit (t ∷ ts) h = ground (arith, trim-past now limit ts h.1)
