-- ===== src/Vfs/Choice.antt =====
-- `choose_auto_mount_point` of src/kernel/vfs.c always ends: of nine numbered mount points one is not in
-- use by eight volumes.
use Prim.Native.Nat.{◌%◌, ◌/◌}
use asas_os.Common.{
  ℕ, zero, suc, ◌+◌, ◌-◌, ◌≤◌, ◌<◌, ◌≡◌, ◌⊎◌, inl, inr, refl, sym, ◌∙◌, ap, Bool, true, false, ◌&&◌,
  some, List, [], ◌∷◌, ◌++◌, ◌==◌, if◌then◌else◌, arith, Bool-cases, take, take-whole, length,
}
use asas_os.Common.Texts.{codes}
use asas_os.Vfs.Disks.{strings_equal-eq}
use asas_os.Vfs.Paths.{Volume, strings_equal, copy_string}
use asas_os.Vfs.Automount.{
  mount_point_in_use, digits_from, append_decimal, choose_numbered, choose_rounds,
  choose_auto_mount_point,
}

-- A number of one digit is written as that digit.
append_decimal_lem :
    (stem : List ℕ) (number : ℕ)
    → length stem < 31
    → number < 10
    → append_decimal stem 32 number ≡ stem ++ ((48 + number) ∷ [])
unfolding append_decimal digits_from
append_decimal_lem stem number b d =
    let z : (number / 10 == 0) ≡ true = ground arith in
    let e : 48 + number % 10 ≡ 48 + number = omega arith in
    let written : digits_from 10 number [] ≡ (48 + number) ∷ [] =
      rw (z, digits_from) (ap (λ n. n ∷ []) e) in
    ap (λ l. stem ++ take (32 - 1 - length stem) l) written
    ∙ ap (λ l. stem ++ l)
        (take-whole (32 - 1 - length stem) ((48 + number) ∷ []) (omega (arith, b)))

append-last : (stem : List ℕ) (a b : ℕ) → stem ++ (a ∷ []) ≡ stem ++ (b ∷ []) → a ≡ b
append-last [] a b q = cc
append-last (x ∷ stem) a b q = append-last stem a b cc

module _ (stem : List ℕ) (short : length stem < 31) where
  abbrev name : ℕ → List ℕ
  name number = append_decimal stem 32 number

  name-inj : (i j : ℕ) → i < 10 → j < 10 → name i ≡ name j → i ≡ j
  name-inj i j a b q =
      let last =
        append-last stem (48 + i) (48 + j)
          (sym (append_decimal_lem stem i short a) ∙ q ∙ append_decimal_lem stem j short b) in
      omega (arith, last)

  -- How many of some numbers lead to a mount point in use.
  used : List Volume → ℕ → ℕ → ℕ
  used l start zero = 0
  used l start (suc rounds) =
      let rest = used l (start + 1) rounds in
      if mount_point_in_use (name start) l then suc rest else rest

  matches : Volume → ℕ → ℕ → ℕ
  matches v start zero = 0
  matches v start (suc rounds) =
      let rest = matches v (start + 1) rounds in
      if v.valid && strings_equal v.mount_point (name start) then suc rest else rest

  used-nil : (start rounds : ℕ) → used [] start rounds ≡ 0
  unfolding mount_point_in_use used
  used-nil start zero = refl
  used-nil start (suc rounds) = used-nil (start + 1) rounds

  used-cons :
      (v : Volume) (l : List Volume) (start rounds : ℕ)
      → used (v ∷ l) start rounds ≤ matches v start rounds + used l start rounds
  unfolding mount_point_in_use used matches
  used-cons v l start zero = omega arith
  used-cons v l start (suc rounds) = ground (arith, used-cons v l (start + 1) rounds)

  -- A volume that has the mount point of one number has that of no later one.
  matches-zero :
      (v : Volume) (i start rounds : ℕ)
      → strings_equal v.mount_point (name i) ≡ true
      → i < start
      → start + rounds ≤ 10
      → matches v start rounds ≡ 0
  unfolding matches
  matches-zero v i start zero q b h = refl
  matches-zero v i start (suc rounds) q b h =
      elim (Bool-cases (strings_equal v.mount_point (name start))) [
        | inr z ↦
            ground (
              arith,
              z,
              matches-zero v i (start + 1) rounds q (omega (arith, b)) (omega (arith, h)),
            )
        | inl z ↦ absurd (
            omega (
              arith,
              b,
              h,
              name-inj i start (omega (arith, b, h)) (omega (arith, h)) (
                  sym (strings_equal-eq v.mount_point (name i) q)
                  ∙ strings_equal-eq v.mount_point (name start) z),
            ))
      ]

  matches-le : (v : Volume) (start rounds : ℕ) → start + rounds ≤ 10 → matches v start rounds ≤ 1
  unfolding matches
  matches-le v start zero h = omega arith
  matches-le v start (suc rounds) h = elim (Bool-cases (strings_equal v.mount_point (name start))) [
    | inr z ↦ ground (arith, z, matches-le v (start + 1) rounds (omega (arith, h)))
    | inl z ↦
        ground (arith, matches-zero v start (start + 1) rounds z (omega arith) (omega (arith, h)))
  ]

  used-length :
      (l : List Volume) (start rounds : ℕ) → start + rounds ≤ 10 → used l start rounds ≤ length l
  used-length [] start rounds h = omega (arith, used-nil start rounds)
  used-length (v ∷ l) start rounds h =
      omega (
        arith,
        used-cons v l start rounds,
        matches-le v start rounds h,
        used-length l start rounds h,
      )

  -- A search finds a mount point that is not in use, or all of its numbers are in use.
  choose_numbered_lem :
      (rounds start : ℕ) (l : List Volume)
      → copy_string 32 stem ≡ stem
      → ((path : List ℕ) × (choose_numbered rounds stem start l ≡ some path)
          × (mount_point_in_use path l ≡ false))
        ⊎ (used l start rounds ≡ rounds)
  unfolding choose_numbered used
  choose_numbered_lem zero start l q = inr refl
  choose_numbered_lem (suc rounds) start l q =
      elim (Bool-cases (mount_point_in_use (name start) l)) [
        | inr z ↦ inl (name start, rw (q, z, choose_numbered) refl, z)
        | inl z ↦ elim (choose_numbered_lem rounds (start + 1) l q) [
          | inl (path, found, free) ↦ inl (path, rw (q, z, choose_numbered) found, free)
          | inr all ↦ inr (rw z (ap suc all))
        ]
      ]

  choose_numbered-total :
      (start : ℕ) (l : List Volume)
      → copy_string 32 stem ≡ stem
      → start ≤ 1
      → length l ≤ 8
      → (path : List ℕ) × (choose_numbered choose_rounds stem start l ≡ some path)
        × (mount_point_in_use path l ≡ false)
  choose_numbered-total start l q b h = elim (choose_numbered_lem choose_rounds start l q) [
    | inl found ↦ found
    | inr all ↦
        absurd (omega (arith, all, b, h, used-length l start choose_rounds (omega (arith, b))))
  ]

-- `choose_auto_mount_point` ends, whatever the 8 volumes are, with a mount point that none of those in
-- use has.
pub choose_auto_mount_point-total :
    (is_cdrom is_removable : Bool) (volumes : List Volume)
    → length volumes ≤ 8
    → (path : List ℕ) × (choose_auto_mount_point is_cdrom is_removable volumes ≡ some path)
      × (mount_point_in_use path volumes ≡ false)
unfolding choose_auto_mount_point copy_string
choose_auto_mount_point-total true is_removable volumes h =
    choose_numbered-total (codes "/media/cdrom") (omega arith) 0 volumes refl (omega arith) h
choose_auto_mount_point-total false true volumes h =
    choose_numbered-total (codes "/media/usb") (omega arith) 0 volumes refl (omega arith) h
choose_auto_mount_point-total false false volumes h =
    elim (Bool-cases (mount_point_in_use (codes "/data") volumes)) [
      | inl z ↦
          rw (z, choose_auto_mount_point)
            (choose_numbered-total (codes "/media/disk") (omega arith) 1 volumes refl (omega arith)
              h)
      | inr z ↦ (codes "/data", rw (z, choose_auto_mount_point) refl, z)
    ]
