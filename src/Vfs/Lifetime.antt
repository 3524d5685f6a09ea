-- ===== src/Vfs/Lifetime.antt =====
-- Opening and closing in src/kernel/vfs.c, and mounting and unmounting in src/kernel/filesystem.c, keep
-- the handles and the references in agreement.
use asas_os.Common.{
  ℕ, ◌+◌, ◌-◌, ◌<◌, ◌≡◌, inl, inr, Bool, true, false, ◌||◌, Option, none, some, List, ltb, ◌==◌,
  if◌then◌else◌, arith, Bool-cases, Option-cases, get_or, set, length, ℕ_discrete, ==_iff,
}
use mathlib.Core.Path.{subst}
use asas_os.Common.Words.{word32}
use asas_os.Filesystem.{
  Contexts, Table, mount_at, filesystem_mount_acquire, filesystem_mount_release, filesystem_stat,
}
use asas_os.Filesystem.References.{
  is_live, Referred, filesystem_mount_acquire_lem, filesystem_mount_release_lem,
}
use asas_os.Vfs.Paths.{strings_equal}
use asas_os.Vfs.State.{
  Vfs, Legacy, Handle, no_handle, welcome, handle_at, handle_count, vfs_mount_for_path,
}
use asas_os.Vfs.Files.{free_handle, take_handle, is_open, is_boot, open_on, vfs_open, vfs_close}
use asas_os.Vfs.References.{
  refers, refers-referred, IsValid, free_handle-unused, references-set, refers-unused,
  references-le, Referred-same, Referred-IsCurrent, written-IsValid, opened-IsValid, closed-IsValid,
}

-- The handle that is found is not in use.
found-unused :
    (l : List Handle)
    → length l ≡ handle_count
    → ltb (free_handle 0 l) handle_count ≡ true
    → (get_or l (free_handle 0 l) no_handle).used ≡ false
found-unused l n z = elim (free_handle-unused l 0) [
  | inr q ↦ absurd (ground arith)
  | inl (k, q, _, u) ↦ subst (λ i. (get_or l i no_handle).used ≡ false) {x = k} (omega arith) u
]

module _ {W : Type 0} where
  abbrev pub Agrees : Vfs W → Type 0
  Agrees v = IsValid v.handles v.fs

  -- A handle on no mount is opened.
  legacy-IsValid :
      (handles : List Handle) (t : Table W) (k : ℕ) (path : List ℕ) (generation : ℕ) (used : Bool)
      → IsValid handles t
      → k < handle_count
      → ((slot : ℕ) → refers slot (get_or handles k no_handle) ≡ false)
      → IsValid
          (set handles k
            (record { path = path; mount = none; mount_generation = generation; used = used }))
          t
  legacy-IsValid handles t k path generation used v b unused =
      let new : Handle = record {
        path = path;
        mount = none;
        mount_generation = generation;
        used = used;
      } in
      written-IsValid handles t t k new v b v.table
        (λ s.
          let change = references-set handles k s new (omega (arith, v.size)) in
          ground (arith, rw (unused s) at change, v.referred s))
        v.current (λ s q. absurd (ground (arith, q)))

  -- The world of the mounts changes.
  pub world-IsValid :
      (handles : List Handle) (t : Table W) (w : W)
      → IsValid handles t
      → IsValid handles (record t { world = w })
  world-IsValid handles t w v = record {
    table = record { size = v.table.size; counted = v.table.counted; opened = v.table.opened };
    size = v.size;
    referred = v.referred;
    current = v.current;
  }

  take_handle-none : (path : List ℕ) (v : Vfs W) → Agrees v → Agrees (take_handle path none v).1
  unfolding take_handle
  take_handle-none path v a = elim (Bool-cases (ltb (free_handle 0 v.handles) handle_count)) [
    | inr z ↦ rw (z, take_handle) a
    | inl z ↦
        rw (z, take_handle)
          (legacy-IsValid v.handles v.fs _ _ 0 true a (ground arith) (λ s.
            refers-unused (get_or v.handles (free_handle 0 v.handles) no_handle) s
              (found-unused v.handles a.size z)))
  ]

  -- A mount that was acquired and released again.
  returned-IsValid :
      (handles : List Handle) (slot : ℕ) (t t' : Table W)
      → IsValid handles t
      → is_live t slot ≡ true
      → Referred t slot (word32 ((mount_at t slot).reference_count + 1)) t'
      → IsValid handles (filesystem_mount_release slot t')
  returned-IsValid handles slot t t' v live r =
      let (active, _, n) = Referred-same t t' slot _ slot r in
      let small = references-le handles t slot v in
      elim (filesystem_mount_release_lem slot t' r.valid) [
        | inr (z, _) ↦ absurd (ground (arith, small, v.referred slot))
        | inl (_, r') ↦ record {
          table = r'.valid;
          size = v.size;
          referred = λ s.
              let (_, _, n1) = Referred-same t t' slot _ s r in
              let (_, _, n2) = Referred-same t' (filesystem_mount_release slot t') slot _ s r' in
              elim (ℕ_discrete slot s) [
                | yes e ↦ ground (arith, (==_iff slot s).1 e, small, v.referred slot, v.referred s)
                | no ne ↦ ground (arith, ne, v.referred s)
              ];
          current = λ k.
              Referred-IsCurrent t' (filesystem_mount_release slot t') slot _
                (get_or handles k no_handle) r'
                (Referred-IsCurrent t t' slot _ (get_or handles k no_handle) r (v.current k));
        }
      ]

  -- An acquired mount goes to a handle, or is released where there is none left.
  take_handle-some :
      (path : List ℕ) (slot : ℕ) (v : Vfs W) (t' : Table W)
      → Agrees v
      → is_live v.fs slot ≡ true
      → Referred v.fs slot (word32 ((mount_at (v.fs) slot).reference_count + 1)) t'
      → Agrees (take_handle path (some slot) (record v { fs = t' })).1
  unfolding take_handle
  take_handle-some path slot v t' a live r =
      elim (Bool-cases (ltb (free_handle 0 v.handles) handle_count)) [
        | inl z ↦
            rw (z, take_handle)
              (opened-IsValid v.handles v.fs t' _ slot _ a (ground arith)
                (found-unused v.handles a.size z) live r)
        | inr z ↦ rw (z, take_handle) (returned-IsValid v.handles slot v.fs t' a live r)
      ]

  close-none :
      (v : Vfs W) (handle : ℕ)
      → Agrees v
      → is_open handle v ≡ true
      → (handle_at v (handle - 2)).mount ≡ none
      → IsValid
          (set v.handles
            (handle - 2)
            (record (handle_at v (handle - 2)) { used = false; mount = none }))
          v.fs
  close-none v handle a o z =
      legacy-IsValid v.handles v.fs _ _ _ false a (ground arith) (λ s. rw z (ground arith))

  pub if-Agrees :
      {A : Type 0} (b : Bool) (x y : A × Vfs W)
      → Agrees x.1
      → Agrees y.1
      → Agrees (if b then x else y).1
  if-Agrees true x y a a' = a
  if-Agrees false x y a a' = a'

  open_on-IsValid :
      (c : Contexts W) (legacy : Legacy W) (path : List ℕ) (mount : Option ℕ) (relative : List ℕ)
      (v : Vfs W)
      → Agrees v
      → Agrees (open_on c legacy path mount relative v).1
  unfolding open_on
  open_on-IsValid c legacy path none relative v a =
      let (found, w) = legacy.is_there path v.fs.world in
      let asked : Vfs W = record v { fs = record (v.fs) { world = w } } in
      let kept = world-IsValid v.handles v.fs w a in
      elim (Bool-cases found) [
        | inl z ↦ rw (z, open_on) (take_handle-none path asked kept)
        | inr z ↦ rw (z, open_on) kept
      ]
  open_on-IsValid c legacy path (some slot) relative v a =
      elim (Option-cases (filesystem_stat c slot relative (v.fs))) [
        | inl z ↦ rw (z, open_on) a
        | inr (stat, z) ↦ elim (Bool-cases stat.is_directory) [
          | inl y ↦ rw (z, y, open_on) a
          | inr y ↦ elim (filesystem_mount_acquire_lem slot v.fs a.table) [
            | inr (_, q) ↦ rw (z, y, q, open_on) a
            | inl (live, q, r) ↦
                rw (z, y, q, open_on)
                  (take_handle-some path slot v ((filesystem_mount_acquire slot v.fs).1) a live r)
          ]
        ]
      ]

  pub vfs_open-IsValid :
      (c : Contexts W) (legacy : Legacy W) (path : List ℕ) (v : Vfs W)
      → Agrees v
      → Agrees (vfs_open c legacy path v).1
  unfolding vfs_open
  vfs_open-IsValid c legacy path v a =
      let (mount, relative) = vfs_mount_for_path path v in
      if-Agrees (strings_equal path welcome.path) _ _ a
        (if-Agrees v.boot_fallback_enabled _ _ a (open_on-IsValid c legacy path mount relative v a))

  close-some :
      (v : Vfs W) (handle slot : ℕ)
      → Agrees v
      → is_open handle v ≡ true
      → (handle_at v (handle - 2)).mount ≡ some slot
      → IsValid
          (set v.handles
            (handle - 2)
            (record (handle_at v (handle - 2)) { used = false; mount = none }))
          (filesystem_mount_release slot v.fs)
  close-some v handle slot a o z =
      let here : refers slot (handle_at v (handle - 2)) ≡ true = rw z (ground arith) in
      let positive = refers-referred v.handles v.fs (handle - 2) slot a here in
      let (live, _) = a.current (handle - 2) slot here in
      elim (filesystem_mount_release_lem slot v.fs a.table) [
        | inr (q, _) ↦ absurd (ground (arith, q, positive, live))
        | inl (_, r) ↦ closed-IsValid v.handles v.fs _ (handle - 2) slot a (ground arith) here r
      ]

  pub vfs_close-IsValid : (handle : ℕ) (v : Vfs W) → Agrees v → Agrees (vfs_close handle v).1
  unfolding vfs_close
  vfs_close-IsValid handle v a = elim (Bool-cases (handle == 1 || is_boot handle v)) [
    | inl z ↦ rw (z, vfs_close) a
    | inr z ↦ elim (Bool-cases (is_open handle v)) [
      | inr y ↦ rw (z, y, vfs_close) a
      | inl y ↦ elim (Option-cases ((handle_at v (handle - 2)).mount)) [
        | inl x ↦ rw (z, y, x, vfs_close) (close-none v handle a y x)
        | inr (slot, x) ↦ rw (z, y, x, vfs_close) (close-some v handle slot a y x)
      ]
    ]
  ]
