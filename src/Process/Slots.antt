-- ===== src/Process/Slots.antt =====
-- What the table of src/kernel/process.c holds after any calls.
use asas_os.Common.{
  ℕ, suc, ◌+◌, ◌≤◌, ◌≡◌, ◌⊎◌, inl, inr, refl, ◌∙◌, ap, true, false, none, some, List, [], ◌∷◌,
  arith, length, Option-cases,
}
use asas_os.Process.{is_unused, Process, AddressSpaces, Processes, create_from, max_processes}

module _ {Space : Type 0} where
  -- The first `n` entries were given to processes, whose pids count from `k`; the others are unused.
  abbrev pub Slots : ℕ → ℕ → List (Process Space) → Type 0
  Slots k n [] = n ≡ 0
  Slots k n (p ∷ l) =
      ((n ≡ 0) × (is_unused p.state ≡ true) × Slots k 0 l)
      ⊎ ((m : ℕ) × (n ≡ suc m) × (p.pid ≡ k) × (is_unused p.state ≡ false) × Slots (suc k) m l)

  -- Unused entries are so from any index on.
  Slots-later : (k : ℕ) (l : List (Process Space)) → Slots k 0 l → Slots (suc k) 0 l
  Slots-later k [] h = h
  Slots-later k (p ∷ l) (inl (z, u, h)) = inl (z, u, Slots-later k l h)
  Slots-later k (p ∷ l) (inr (m, q, i, u, h)) = absurd (omega arith)

  pub Slots-bound : (k n : ℕ) (l : List (Process Space)) → Slots k n l → n ≤ length l
  Slots-bound k n [] h = omega arith
  Slots-bound k n (p ∷ l) (inl (z, u, h)) = omega arith
  Slots-bound k n (p ∷ l) (inr (m, q, i, u, h)) = omega (arith, Slots-bound (suc k) m l h)

module _ {Space A : Type 0} where
  -- `n` processes were created since the initialization.
  pub record IsValid (n : ℕ) (s : Processes Space A) : Type 0 where
    pub size : length s.processes ≡ max_processes
    pub next : s.next_pid ≡ suc n
    pub slots : Slots 1 n s.processes

  module _ (spaces : AddressSpaces Space A) where
    -- What the loop does: on success the entry behind the used ones is given to the new process.
    pub create_from-Slots :
        (k n pid index : ℕ) (l : List (Process Space)) (a : A)
        → pid ≡ k + n
        → Slots k n l
        → let (found, l', a') = create_from spaces pid index l a in
          ((found ≡ none) × (l' ≡ l))
          ⊎ ((found ≡ some (index + n)) × Slots k (suc n) l' × (length l' ≡ length l))
    unfolding create_from
    create_from-Slots k n pid index [] a e h = inl (refl, refl)
    create_from-Slots k n pid index (p ∷ l) a e (inl (z, u, h)) =
        elim (Option-cases (spaces.create_space a).0) [
          | inl f ↦ inl (rw (u, f, create_from) refl, rw (u, f, create_from) refl)
          | inr (space, f) ↦ inr (
            rw (u, f, create_from) (ap some (omega arith)),
            rw (u, f, create_from) (inr (0, ap suc z, omega arith, refl, Slots-later k l h)),
            rw (u, f, create_from) refl,
          )
        ]
    create_from-Slots k n pid index (p ∷ l) a e (inr (m, q, i, u, h)) =
        elim (create_from-Slots (suc k) m pid (index + 1) l a (omega arith) h) [
          | inl (f, same) ↦ inl (rw (u, create_from) f, rw (u, create_from) (ap (λ r. p ∷ r) same))
          | inr (f, slots, size) ↦ inr (
            rw (u, create_from) (f ∙ ap some (omega arith)),
            rw (u, create_from) (inr (suc m, ap suc q, i, u, slots)),
            rw (u, create_from) (ap suc size),
          )
        ]
