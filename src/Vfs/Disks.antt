-- ===== src/Vfs/Disks.antt =====
-- The paths `/disk0` to `/disk7` of src/kernel/vfs.c, and the texts that its `strings_equal` accepts.
use mathlib.Core.Option.{some_inj}
use mathlib.Core.Path.{subst}
use asas_os.Common.{
  ℕ, ◌+◌, ◌-◌, ◌≤◌, ◌≡◌, ◌⊎◌, inl, inr, refl, sym, ◌∙◌, ap, ap₂, true, ◌&&◌, some, List, [], ◌∷◌,
  ◌++◌, leb, arith, Bool-cases, take, drop, take-append-drop, ℕ_discrete, ==_iff,
}
use asas_os.Common.Texts.{codes}
use asas_os.Vfs.Paths.{is_end, strings_equal, relative_to, disk_alias}

List-cases : (l : List ℕ) → (l ≡ []) ⊎ ((x : ℕ) × (rest : List ℕ) × (l ≡ x ∷ rest))
List-cases [] = inl refl
List-cases (x ∷ rest) = inr (x, rest, refl)

-- The path is that of the `i`-th disk, `/disk0` to `/disk7`, or lies below it.
abbrev pub Names : List ℕ → ℕ → Type 0
Names path i =
    (rest : List ℕ) × (path ≡ codes "/disk" ++ ((48 + i) ∷ rest)) × (is_end rest ≡ true) × (i ≤ 7)

-- Texts that the loop accepts are equal.
pub strings_equal-eq : (x y : List ℕ) → strings_equal x y ≡ true → x ≡ y
unfolding strings_equal
strings_equal-eq [] [] q = refl
strings_equal-eq [] (b ∷ y) q = absurd (ground (arith, q))
strings_equal-eq (a ∷ x) [] q = absurd (ground (arith, q))
strings_equal-eq (a ∷ x) (b ∷ y) q = elim (ℕ_discrete a b) [
  | yes e ↦ let rest = strings_equal-eq x y (ground (arith, q, (==_iff a b).1 e)) in cc
  | no ne ↦ absurd (ground (arith, q, ne))
]

-- Where a path names a disk, the code finds that disk, and only there.
pub disk_alias-Names :
    (path : List ℕ) (i : ℕ) → Names path i → disk_alias path ≡ some (i, relative_to 6 path)
unfolding disk_alias strings_equal
disk_alias-Names path i (rest, e, end, le) =
    let digit : leb 48 (48 + i) && leb (48 + i) 55 ≡ true = ground arith in
    let number : 48 + i - 48 ≡ i = omega arith in
    subst (λ p. disk_alias p ≡ some (i, relative_to 6 p)) (sym e)
      (rw (digit, end)
        (ap (λ n. some (n, relative_to 6 (codes "/disk" ++ ((48 + i) ∷ rest)))) number))

pub disk_alias-some :
    (path : List ℕ) (i : ℕ) (rest : List ℕ) → disk_alias path ≡ some (i, rest) → Names path i
unfolding disk_alias
disk_alias-some path i rest q = elim (List-cases (drop 5 path)) [
  | inl z ↦ absurd (cc (rw (z, disk_alias) at q))
  | inr (digit, behind, z) ↦
      elim (Bool-cases (
        strings_equal (take 5 path) (codes "/disk")
        && ((leb 48 digit && leb digit 55) && is_end behind))) [
          | inr f ↦ absurd (cc (rw (z, f, disk_alias) at q))
          | inl t ↦
              let same : digit - 48 ≡ i = ap (λ p. p.0) (some_inj.0 (rw (z, t, disk_alias) at q)) in
              let at : digit ≡ 48 + i = ground arith in
              let stem : take 5 path ≡ codes "/disk" =
                strings_equal-eq (take 5 path) (codes "/disk") (ground arith) in
              (
                behind,
                sym (take-append-drop 5 path) ∙ ap₂ ◌++◌ stem (z ∙ ap (λ n. n ∷ behind) at),
                ground arith,
                ground arith,
              )
        ]
]

pub Names-unique : (path : List ℕ) (i j : ℕ) → Names path i → Names path j → i ≡ j
Names-unique path i j a b =
    ap (λ p. p.0) (some_inj.0 (sym (disk_alias-Names path i a) ∙ disk_alias-Names path j b))
