-- ===== src/Filesystem/Slots.antt =====
-- The table of src/kernel/filesystem.c stays well formed: its count is that of the active mounts, and
-- an active mount knows its slot, its device and its driver.
use asas_os.Common.{
  ℕ, zero, suc, ◌+◌, ◌≤◌, ◌<◌, ◌≡◌, ◌⊎◌, inl, inr, ◌∙◌, true, false, some, List, [], ◌∷◌,
  if◌then◌else◌, arith, Bool-cases, get_or, set, length, length-set, get_or-set_self, get_or-set_ne,
  ℕ_discrete,
}
use mathlib.Core.Path.{subst}
use asas_os.Filesystem.{Driver, Mount, no_mount, Table, mount_at, max_mounts, free_slot}

-- The number of active mounts.
abbrev pub active_count : List Mount → ℕ
active_count [] = 0
active_count (m ∷ rest) = if m.active then suc (active_count rest) else active_count rest

-- An active mount in a slot.
pub record IsOpen (slot : ℕ) (m : Mount) : Type 0 where
  pub own_id : m.id ≡ slot
  pub on_device : (d : ℕ) × (m.device ≡ some d)
  pub by_driver : (d : Driver) × (m.driver ≡ some d)

pub record IsValid {W : Type 0} (t : Table W) : Type 0 where
  pub size : length t.mounts ≡ max_mounts
  pub counted : t.mount_count ≡ active_count t.mounts
  pub opened : (slot : ℕ) → (mount_at t slot).active ≡ true → IsOpen slot (mount_at t slot)

pub active_count-length : (l : List Mount) → active_count l ≤ length l
active_count-length [] = omega arith
active_count-length (m ∷ l) = ground (arith, active_count-length l)

-- A write of one slot changes the count by its own activity.
pub active_count-set :
    (l : List Mount) (slot : ℕ) (m : Mount)
    → slot < length l
    → active_count (set l slot m) + (if (get_or l slot no_mount).active then 1 else 0)
      ≡ active_count l + (if m.active then 1 else 0)
active_count-set [] slot m h = absurd (omega arith)
active_count-set (n ∷ l) zero m h = ground arith
active_count-set (n ∷ l) (suc slot) m h = ground (arith, active_count-set l slot m (omega arith))

pub active_count-set_same :
    (l : List Mount) (slot : ℕ) (m : Mount)
    → slot < length l
    → m.active ≡ (get_or l slot no_mount).active
    → active_count (set l slot m) ≡ active_count l
active_count-set_same l slot m h q = ground (arith, active_count-set l slot m h)

pub active_count-set_more :
    (l : List Mount) (slot : ℕ) (m : Mount)
    → slot < length l
    → (get_or l slot no_mount).active ≡ false
    → m.active ≡ true
    → active_count (set l slot m) ≡ suc (active_count l)
active_count-set_more l slot m h a b = ground (arith, active_count-set l slot m h)

pub active_count-set_less :
    (l : List Mount) (slot : ℕ) (m : Mount)
    → slot < length l
    → (get_or l slot no_mount).active ≡ true
    → m.active ≡ false
    → suc (active_count (set l slot m)) ≡ active_count l
active_count-set_less l slot m h a b = ground (arith, active_count-set l slot m h)

pub record IsFree (l : List Mount) (slot : ℕ) : Type 0 where
  pub inactive : (get_or l slot no_mount).active ≡ false
  pub bound : slot < length l

-- The search gives a slot that is not active, or the end of the table.
pub free_slot-IsFree :
    (l : List Mount) (start : ℕ)
    → ((k : ℕ) × (free_slot start l ≡ start + k) × IsFree l k)
      ⊎ (free_slot start l ≡ start + length l)
unfolding free_slot
free_slot-IsFree [] start = inr (omega arith)
free_slot-IsFree (m ∷ l) start = elim (Bool-cases m.active) [
  | inr z ↦ inl (0, rw z (omega arith), record { inactive = z; bound = omega arith })
  | inl z ↦ elim (free_slot-IsFree l (start + 1)) [
    | inl (k, q, f) ↦ inl (
      suc k,
      rw z (q ∙ omega arith),
      record { inactive = f.inactive; bound = omega (arith, f.bound) },
    )
    | inr q ↦ inr (rw z (q ∙ omega arith))
  ]
]

module _ {W : Type 0} where
  -- A table whose slot is overwritten by a mount that knows it, or by an inactive one.
  pub written-IsValid :
      (t : Table W) (slot count generation : ℕ) (m : Mount) (w : W)
      → IsValid t
      → slot < max_mounts
      → (m.active ≡ true → IsOpen slot m)
      → count ≡ active_count (set t.mounts slot m)
      → IsValid (record t {
        mounts = set t.mounts slot m;
        mount_count = count;
        next_generation = generation;
        world = w;
      })
  written-IsValid t slot count generation m w v h known q =
      let lt : slot < length t.mounts = omega (arith, v.size) in
      record {
        size = length-set t.mounts slot m ∙ v.size;
        counted = q;
        opened = λ k. elim (ℕ_discrete slot k) [
          | yes e ↦
              subst
                (λ j.
                  (get_or (set t.mounts slot m) j no_mount).active ≡ true
                  → IsOpen j (get_or (set t.mounts slot m) j no_mount))
                e (rw (get_or-set_self t.mounts slot m no_mount lt) known)
          | no ne ↦ rw (get_or-set_ne t.mounts slot k m no_mount ne) (v.opened k)
        ];
      }
