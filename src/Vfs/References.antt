-- ===== src/Vfs/References.antt =====
-- Handles and references in src/kernel/vfs.c: a mount has as many references as handles are open on it.
use asas_os.Common.{
  ℕ, suc, ◌+◌, ◌-◌, ◌≤◌, ◌<◌, ◌≡◌, ◌≢◌, ◌⊎◌, inl, inr, refl, ◌∙◌, ap, Bool, true, false, ◌&&◌, none,
  some, List, [], ◌∷◌, ◌==◌, if◌then◌else◌, arith, Bool-cases, Option-cases, get_or, set, length,
  length-set, get_or-set_self, get_or-set_ne, ℕ_discrete, ==_iff,
}
use mathlib.Core.Path.{subst}
use asas_os.Common.Words.{word32}
use asas_os.Common.Count.{count_if, count_if-set, count_if-length, count_if-pos}
use asas_os.Filesystem.{Mount, Table, mount_at}
use asas_os.Filesystem.Slots
use asas_os.Filesystem.References.{is_live, Referred}
use asas_os.Vfs.State.{Handle, no_handle, handle_count}
use asas_os.Vfs.Files.{free_handle}

-- A handle is open on a mount.
abbrev pub refers : ℕ → Handle → Bool
refers slot h = h.used && elim h.mount [ none ↦ false | some other ↦ other == slot ]

abbrev pub references : List Handle → ℕ → ℕ
references handles slot = count_if (refers slot) handles

-- The mount of an open handle is in use, and is the one that was opened.
abbrev pub IsCurrent : {W : Type 0} → Table W → Handle → Type 0
IsCurrent t h =
    (slot : ℕ)
    → refers slot h ≡ true
    → (is_live t slot ≡ true) × ((mount_at t slot).generation ≡ h.mount_generation)

pub record IsValid {W : Type 0} (handles : List Handle) (t : Table W) : Type 0 where
  pub table : Slots.IsValid t
  pub size : length handles ≡ handle_count
  pub referred : (slot : ℕ) → (mount_at t slot).reference_count ≡ references handles slot
  pub current : (k : ℕ) → IsCurrent t (get_or handles k no_handle)

pub refers-unused : (h : Handle) (slot : ℕ) → h.used ≡ false → refers slot h ≡ false
refers-unused h slot z = ground arith

-- A handle is open on one mount at most.
pub refers-other : (h : Handle) (slot s : ℕ) → refers slot h ≡ true → slot ≢ s → refers s h ≡ false
refers-other h slot s q ne = elim (Option-cases h.mount) [
  | inl z ↦ rw z (ground arith)
  | inr (other, z) ↦ rw z (ground (arith, rw z at q, ne))
]

-- The search gives a handle that is not in use, or the end of the table.
pub free_handle-unused :
    (l : List Handle) (start : ℕ)
    → ((k : ℕ) × (free_handle start l ≡ start + k)
        × (k < length l)
        × ((get_or l k no_handle).used ≡ false))
      ⊎ (free_handle start l ≡ start + length l)
unfolding free_handle
free_handle-unused [] start = inr (omega arith)
free_handle-unused (h ∷ l) start = elim (Bool-cases h.used) [
  | inr z ↦ inl (0, rw z (omega arith), omega arith, z)
  | inl z ↦ elim (free_handle-unused l (start + 1)) [
    | inl (k, q, b, u) ↦ inl (suc k, rw z (q ∙ omega arith), omega arith, u)
    | inr q ↦ inr (rw z (q ∙ omega arith))
  ]
]

-- What a write of a handle changes in the references of a slot.
pub references-set :
    (handles : List Handle) (k slot : ℕ) (h : Handle)
    → k < length handles
    → references (set handles k h) slot
        + (if refers slot (get_or handles k no_handle) then 1 else 0)
      ≡ references handles slot + (if refers slot h then 1 else 0)
references-set handles k slot h b = count_if-set (refers slot) handles k h no_handle b

module _ {W : Type 0} where
  -- The references of a mount number at most 8.
  pub references-le :
      (handles : List Handle) (t : Table W) (slot : ℕ)
      → IsValid handles t
      → references handles slot ≤ 8
  references-le handles t slot v = omega (arith, count_if-length (refers slot) handles, v.size)

  -- A mount that a handle is open on has a reference.
  pub refers-referred :
      (handles : List Handle) (t : Table W) (k slot : ℕ)
      → IsValid handles t
      → refers slot (get_or handles k no_handle) ≡ true
      → 0 < (mount_at t slot).reference_count
  refers-referred handles t k slot v q =
      omega (arith, v.referred slot, count_if-pos (refers slot) handles k no_handle refl q)

  -- A change of the references leaves the rest of each mount.
  pub Referred-same :
      (t t' : Table W) (slot n k : ℕ)
      → Referred t slot n t'
      → ((mount_at t' k).active ≡ (mount_at t k).active)
        × ((mount_at t' k).generation ≡ (mount_at t k).generation)
        × ((mount_at t' k).reference_count
            ≡ (if slot == k then n else (mount_at t k).reference_count))
  Referred-same t t' slot n k r = elim (ℕ_discrete slot k) [
    | yes e ↦
        let here =
          subst (λ j. mount_at t' j ≡ record (mount_at t j) { reference_count = n }) e r.here in
        (
          ap (λ (m : Mount). m.active) here,
          ap (λ (m : Mount). m.generation) here,
          ap (λ (m : Mount). m.reference_count) here ∙ rw ((==_iff slot k).1 e) refl,
        )
    | no ne ↦
        let same = r.others k ne in
        (
          ap (λ (m : Mount). m.active) same,
          ap (λ (m : Mount). m.generation) same,
          ap (λ (m : Mount). m.reference_count) same ∙ ground (arith, ne),
        )
  ]

  pub Referred-IsCurrent :
      (t t' : Table W) (slot n : ℕ) (h : Handle)
      → Referred t slot n t'
      → IsCurrent t h
      → IsCurrent t' h
  Referred-IsCurrent t t' slot n h r c k q =
      let (live, generation) = c k q in
      let (active, same, _) = Referred-same t t' slot n k r in (ground arith, same ∙ generation)

  -- A handle that is written, with a table in which the references agree again.
  pub written-IsValid :
      (handles : List Handle) (t t' : Table W) (k : ℕ) (h : Handle)
      → IsValid handles t
      → k < handle_count
      → Slots.IsValid t'
      → ((slot : ℕ) → (mount_at t' slot).reference_count ≡ references (set handles k h) slot)
      → ((j : ℕ) → IsCurrent t' (get_or handles j no_handle))
      → IsCurrent t' h
      → IsValid (set handles k h) t'
  written-IsValid handles t t' k h v b table agree others this = record {
    table = table;
    size = length-set handles k h ∙ v.size;
    referred = agree;
    current = λ j. elim (ℕ_discrete k j) [
      | yes e ↦
          subst (λ i. IsCurrent t' (get_or (set handles k h) i no_handle)) e
            (rw (get_or-set_self handles k h no_handle (omega (arith, v.size))) this)
      | no ne ↦ rw (get_or-set_ne handles k j h no_handle ne) (others j)
    ];
  }

  -- The handle that `vfs_open` writes for a mount.
  abbrev pub opened : List ℕ → ℕ → Table W → Handle
  opened path slot t = record {
    path = path;
    mount = some slot;
    mount_generation = (mount_at t slot).generation;
    used = true;
  }

  -- A handle is opened on a mount that was acquired.
  pub opened-IsValid :
      (handles : List Handle) (t t' : Table W) (k slot : ℕ) (path : List ℕ)
      → IsValid handles t
      → k < handle_count
      → (get_or handles k no_handle).used ≡ false
      → is_live t slot ≡ true
      → Referred t slot (word32 ((mount_at t slot).reference_count + 1)) t'
      → IsValid (set handles k (opened path slot t')) t'
  opened-IsValid handles t t' k slot path v b unused live r =
      written-IsValid handles t t' k _ v b r.valid
        (λ s.
          let (_, _, n) = Referred-same t t' slot _ s r in
          let change = references-set handles k s (opened path slot t') (omega (arith, v.size)) in
          let old = refers-unused (get_or handles k no_handle) s unused in
          elim (ℕ_discrete slot s) [
            | yes e ↦ ground (
              arith,
              n,
              rw old at change,
              (==_iff slot s).1 e,
              v.referred slot,
              references-le handles t slot v,
              ap (references handles) e,
            )
            | no ne ↦ ground (arith, ne, n, rw old at change, v.referred s)
          ])
        (λ j. Referred-IsCurrent t t' slot _ (get_or handles j no_handle) r (v.current j))
        (λ s q. elim (ℕ_discrete slot s) [
          | yes e ↦
              subst
                (λ i.
                  (is_live t' i ≡ true)
                  × ((mount_at t' i).generation ≡ (mount_at t' slot).generation))
                e (let (active, _, _) = Referred-same t t' slot _ slot r in (ground arith, refl))
          | no ne ↦ absurd (ground (arith, q, ne))
        ])

  -- A handle on a mount is closed, and the mount is released.
  pub closed-IsValid :
      (handles : List Handle) (t t' : Table W) (k slot : ℕ)
      → IsValid handles t
      → k < handle_count
      → refers slot (get_or handles k no_handle) ≡ true
      → Referred t slot ((mount_at t slot).reference_count - 1) t'
      → IsValid
          (set handles k (record (get_or handles k no_handle) { used = false; mount = none }))
          t'
  closed-IsValid handles t t' k slot v b here r =
      written-IsValid handles t t' k _ v b r.valid
        (λ s.
          let (_, _, n) = Referred-same t t' slot _ s r in
          let change =
            references-set handles k s
              (record (get_or handles k no_handle) { used = false; mount = none })
              (omega (arith, v.size)) in
          elim (ℕ_discrete slot s) [
            | yes e ↦ ground (
              arith,
              n,
              rw (subst (λ i. refers i (get_or handles k no_handle) ≡ true) e here) at change,
              (==_iff slot s).1 e,
              v.referred slot,
              ap (references handles) e,
            )
            | no ne ↦ ground (
              arith,
              ne,
              n,
              rw (refers-other (get_or handles k no_handle) slot s here ne) at change,
              v.referred s,
            )
          ])
        (λ j. Referred-IsCurrent t t' slot _ (get_or handles j no_handle) r (v.current j))
        (λ s q. absurd (ground (arith, q)))
