-- ===== src/Ipc/Scan.antt =====
-- The circular searches of src/kernel/ipc.c end.
use asas_os.Common.{
  ℕ, zero, suc, ◌+◌, ◌-◌, ◌%◌, ◌<◌, ◌≡◌, refl, ◌∙◌, ap, Bool, true, false, some, List, [], ◌∷◌,
  arith, Bool-cases, inl, inr, if◌then◌else◌, length, get_or, set,
}
use asas_os.Ipc.{capacity, advance}

-- A search that meets a slot where it stops within its fuel ends at such a slot.
pub advance-ends :
    (stop : ℕ → Bool) (fuel at i : ℕ)
    → at < capacity
    → i < fuel
    → stop ((at + i) % capacity) ≡ true
    → (slot : ℕ) × (advance stop fuel at ≡ some slot) × (stop slot ≡ true) × (slot < capacity)
unfolding advance
advance-ends stop zero at i h f s = absurd (omega arith)
advance-ends stop (suc fuel) at zero h f s =
    let here : stop at ≡ true = ap stop {x = at} {y = (at + 0) % capacity} (omega arith) ∙ s in
    (at, rw here, here, h)
advance-ends stop (suc fuel) at (suc i) h f s = elim (Bool-cases (stop at)) [
  | inl e ↦ (at, rw e, e, h)
  | inr e ↦ rw e (
      advance-ends stop fuel ((at + 1) % capacity) i (omega arith) (omega arith) (
        ap stop {x = ((at + 1) % capacity + i) % capacity} {y = (at + suc i) % capacity}
          (omega arith)
        ∙ s))
]

-- Every slot is reached from every other within a round.
pub advance-total :
    (stop : ℕ → Bool) (at j : ℕ)
    → at < capacity
    → j < capacity
    → stop j ≡ true
    → (slot : ℕ) × (advance stop capacity at ≡ some slot) × (stop slot ≡ true) × (slot < capacity)
advance-total stop at j h hj s =
    advance-ends stop capacity at ((j + capacity - at) % capacity) h (omega arith)
      (ap stop {y = j} (omega arith) ∙ s)

abbrev pub count_used : List Bool → ℕ
count_used [] = 0
count_used (b ∷ l) = (if b then 1 else 0) + count_used l

pub count_used-lt :
    (l : List Bool)
    → count_used l < length l
    → (j : ℕ) × (j < length l) × (get_or l j false ≡ false)
count_used-lt [] h = absurd (omega arith)
count_used-lt (true ∷ l) h =
    let (j, below, q) = count_used-lt l (omega arith) in (suc j, omega arith, q)
count_used-lt (false ∷ l) h = (0, omega arith, refl)

pub count_used-pos :
    (l : List Bool) → 0 < count_used l → (j : ℕ) × (j < length l) × (get_or l j false ≡ true)
count_used-pos [] h = absurd (omega arith)
count_used-pos (true ∷ l) h = (0, omega arith, refl)
count_used-pos (false ∷ l) h =
    let (j, below, q) = count_used-pos l (omega arith) in (suc j, omega arith, q)

pub count_used-set :
    (l : List Bool) (i : ℕ) (b : Bool)
    → i < length l
    → count_used (set l i b) + (if get_or l i false then 1 else 0)
      ≡ count_used l + (if b then 1 else 0)
count_used-set [] i b h = absurd (omega arith)
count_used-set (x ∷ l) zero b h = ground arith
count_used-set (x ∷ l) (suc i) b h = ground (arith, count_used-set l i b)
