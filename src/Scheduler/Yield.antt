-- ===== src/Scheduler/Yield.antt =====
-- The round robin of src/kernel/scheduler.c.
use native.Mathlib.Nat.{mod-eq_of_lt, mod-eq-sub-mod}
use mathlib.Core.Option.{some_inj}
use asas_os.Common.{
  ℕ, zero, suc, ◌+◌, ◌-◌, ◌%◌, ◌≤◌, ◌<◌, ◌≡◌, ◌≢◌, refl, sym, ◌∙◌, ap, true, false, Option, none,
  some, arith, ltb, ◌==◌, if◌then◌else◌, length, Bool-cases, Option-cases, inl, inr, ℕ_discrete,
  dec_lt,
}
use asas_os.Scheduler.{Scheduler, max_threads, is_active, next_active, yield}

pub record IsValid (s : Scheduler) : Type 0 where
  pub size : length s.threads ≡ max_threads
  pub some_thread : 0 < s.thread_count
  pub count_in : s.thread_count ≤ max_threads
  pub current_in : s.current_thread < s.thread_count
  pub covered : (i : ℕ) → s.thread_count ≤ i → is_active s i ≡ false

-- The thread that stands `d` places after `i` in the round of `n`; `i` is below `n` and `d` at most `n`.
abbrev pub after : ℕ → ℕ → ℕ → ℕ
after n i d = if ltb (i + d) n then i + d else i + d - n

mod_step : (n m : ℕ) → m < n → (m + 1) % n ≡ (if m + 1 == n then 0 else m + 1)
mod_step n m h = elim (dec_lt (m + 1) n) [
  | yes p ↦ ground (arith, mod-eq_of_lt {n = m + 1} {m = n} p)
  | no p ↦ ground (
    arith,
    mod-eq-sub-mod {n = m + 1} {m = n} (omega arith),
    mod-eq_of_lt {n = m + 1 - n} {m = n} (omega arith),
  )
]

step_after : (n i d : ℕ) → i < n → d < n → (after n i d + 1) % n ≡ after n i (suc d)
step_after n i d hi hd = ground (arith, mod_step n (after n i d))

-- The search stops at the first active thread of the round, or has met none.
record Searched (s : Scheduler) (d rounds : ℕ) (out : Option ℕ) : Type 0 where
  hit :
      (next : ℕ)
      → out ≡ some next
      → (e : ℕ) × (d < e)
        × (e ≤ d + rounds)
        × (next ≡ after s.thread_count s.current_thread e)
        × (is_active s next ≡ true)
        × ((k : ℕ) → d < k → k < e → is_active s (after s.thread_count s.current_thread k) ≡ false)
  miss :
      out ≡ none
      → (k : ℕ) → d < k
      → k ≤ d + rounds
      → is_active s (after s.thread_count s.current_thread k) ≡ false

next_active-Searched :
    (s : Scheduler) (d rounds next : ℕ)
    → s.current_thread < s.thread_count
    → d + rounds ≤ s.thread_count
    → next ≡ after s.thread_count s.current_thread d
    → Searched s d rounds (next_active s rounds next)
unfolding next_active
next_active-Searched s d zero next h room e = record {
  hit = λ n q. cc;
  miss = λ q k lo hi. absurd (omega arith);
}
next_active-Searched s d (suc rounds) next h room e =
    let place : (next + 1) % n ≡ after n c (suc d) =
      ap (λ m. (m + 1) % n) e ∙ step_after n c d h (omega arith) in
    let r = next_active-Searched s (suc d) rounds ((next + 1) % n) h (omega arith) place in
    elim (Bool-cases (is_active s ((next + 1) % n))) [
      | inl a ↦ rw a (record {
        hit = λ m q. (
          suc d,
          omega arith,
          omega arith,
          sym (some_inj.0 q) ∙ place,
          ap (is_active s) (sym (some_inj.0 q)) ∙ a,
          λ k lo hi. absurd (omega arith),
        );
        miss = λ q k lo hi. cc;
      })
      | inr a ↦ rw a (record {
        hit = λ m q.
            let (x, lo, hi, at, act, between) = r.hit m q in
            (
              x,
              omega arith,
              omega arith,
              at,
              act,
              λ k low high. skip place a k low (λ l. between k l high),
            );
        miss = λ q k lo hi. skip place a k lo (λ l. r.miss q k l (omega arith));
      })
    ]
  where
    n : ℕ
    n = s.thread_count

    c : ℕ
    c = s.current_thread

    skip :
        {m : ℕ}
        → m ≡ after n c (suc d)
        → is_active s m ≡ false
        → (k : ℕ) → d < k
        → (suc d < k → is_active s (after n c k) ≡ false)
        → is_active s (after n c k) ≡ false
    skip at idle k lo later = elim (ℕ_discrete k (suc d)) [
      | yes q ↦ ap (λ x. is_active s (after n c x)) q ∙ (ap (is_active s) (sym at) ∙ idle)
      | no q ↦ later (omega arith)
    ]

-- What a yield does. Either the next thread is another active one, and every thread that stands
-- between in the round is inactive; or no thread but the current one is active, and nothing changes.
abbrev pub Yields : Scheduler → Option (ℕ × ℕ) → Scheduler → Type 0
Yields s none s' = (s' ≡ s) × ((i : ℕ) → i ≢ s.current_thread → is_active s i ≡ false)
Yields s (some (previous, next)) s' =
    (previous ≡ s.current_thread)
    × (s' ≡ record s { current_thread = next })
    × (next ≢ s.current_thread)
    × (is_active s next ≡ true)
    × ((e : ℕ) × (next ≡ after s.thread_count s.current_thread e)
        × (e < s.thread_count)
        × ((k : ℕ) → 0 < k → k < e → is_active s (after s.thread_count s.current_thread k) ≡ false))

-- The places of the round reach every thread.
reach : (n c i : ℕ) → c < n → i < n → i ≢ c → (k : ℕ) × (0 < k) × (k < n) × (after n c k ≡ i)
reach n c i hc hi ne = elim (dec_lt c i) [
  | yes p ↦ (i - c, omega arith, omega arith, ground arith)
  | no p ↦ (i + n - c, omega arith, omega arith, ground arith)
]

others_idle :
    (s : Scheduler)
    → IsValid s
    → ((k : ℕ)
        → 0 < k
        → k < s.thread_count
        → is_active s (after s.thread_count s.current_thread k) ≡ false)
    → (i : ℕ) → i ≢ s.current_thread
    → is_active s i ≡ false
others_idle s v idle i ne = elim (dec_lt i s.thread_count) [
  | yes p ↦
      let (k, lo, hi, at) = reach s.thread_count s.current_thread i v.current_in p ne in
      ap (is_active s) (sym at) ∙ idle k lo hi
  | no p ↦ v.covered i (omega arith)
]

-- `scheduler_yield` on a valid scheduler: it switches to the first active thread behind the current
-- one in the round, so it passes over inactive threads only; where no thread but the current one is
-- active, it changes nothing.
pub yield_lem : (s : Scheduler) → IsValid s → Yields s (yield s).0 (yield s).1
unfolding yield
yield_lem s v =
    let r =
      next_active-Searched s 0 s.thread_count s.current_thread v.current_in (omega arith)
        (ground (arith, v.current_in)) in
    elim (Option-cases (next_active s s.thread_count s.current_thread)) [
      | inl e ↦ rw (e, yield) (refl, others_idle s v (λ k lo hi. r.miss e k lo (omega arith)))
      | inr (next, e) ↦
          let (x, lo, hi, at, act, between) = r.hit next e in
          elim (Bool-cases (next == s.current_thread)) [
            | inl q ↦
                let whole : x ≡ s.thread_count = ground (arith, v.current_in) in
                rw (e, q, yield) (refl, others_idle s v (λ k l h. between k l (omega arith)))
            | inr q ↦
                rw (e, q, yield)
                  (refl, refl, ground arith, act, (x, at, ground (arith, v.current_in), between))
          ]
    ]
