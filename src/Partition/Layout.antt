-- ===== src/Partition/Layout.antt =====
-- Ranges on a device for src/kernel/partition.c: none is empty, all lie on the device and none meets
-- another.
use mathlib.Core.Path.{subst}
use mathlib.Core.Option.{some_inj}
use asas_os.Common.{
  ℕ, ◌+◌, ◌^◌, ◌≤◌, ◌<◌, ◌≡◌, ◌⊎◌, inl, inr, refl, sym, ap, false, ◌&&◌, some, List, [], ◌∷◌, ◌++◌,
  leb, arith, length, Bool-cases,
}
use asas_os.Partition.{Candidate, last_lba, overlaps, is_bad_range, mbr_candidate_add, max_per_disk}

-- A start and a number of blocks.
abbrev pub Range : Type 0
Range = ℕ × ℕ

abbrev pub Apart : Range → Range → Type 0
Apart (s, n) (t, m) = (s + n ≤ t) ⊎ (t + m ≤ s)

abbrev pub AllApart : Range → List Range → Type 0
AllApart r [] = Unit
AllApart r (q ∷ rest) = Apart q r × AllApart r rest

abbrev pub IsOn : ℕ → Range → Type 0
IsOn blocks (s, n) = (0 < s) × (0 < n) × (s + n < 2 ^ 64) × ((blocks ≡ 0) ⊎ (s + n ≤ blocks))

abbrev pub IsLayout : ℕ → List Range → Type 0
IsLayout blocks [] = Unit
IsLayout blocks (r ∷ rest) = IsOn blocks r × AllApart r rest × IsLayout blocks rest

abbrev pub range : Candidate → Range
range c = (c.start_lba, c.block_count)

abbrev pub ranges : List Candidate → List Range
ranges [] = []
ranges (c ∷ rest) = range c ∷ ranges rest

AllApart-append :
    (r q : Range) (l : List Range) → AllApart r l → Apart q r → AllApart r (l ++ (q ∷ []))
AllApart-append r q [] h a = (a, tt)
AllApart-append r q (p ∷ l) (b, h) a = (b, AllApart-append r q l h a)

Apart-sym : (r q : Range) → Apart r q → Apart q r
Apart-sym (s, n) (t, m) (inl h) = inr h
Apart-sym (s, n) (t, m) (inr h) = inl h

IsLayout-append :
    (blocks : ℕ) (r : Range) (l : List Range)
    → IsLayout blocks l
    → IsOn blocks r
    → AllApart r l
    → IsLayout blocks (l ++ (r ∷ []))
IsLayout-append blocks r [] h o a = (o, tt, tt)
IsLayout-append blocks r (p ∷ l) (o', b, h) o (a, rest) =
    (o', AllApart-append p r l b (Apart-sym p r a), IsLayout-append blocks r l h o rest)

ranges-append :
    (l : List Candidate) (c : Candidate) → ranges (l ++ (c ∷ [])) ≡ ranges l ++ (range c ∷ [])
ranges-append [] c = refl
ranges-append (d ∷ l) c = ap (λ t. range d ∷ t) (ranges-append l c)

-- The test of `mbr_candidate_add` on two ranges that do not wrap.
Apart-leb :
    (s n t m : ℕ)
    → 0 < n
    → 0 < m
    → s + n < 2 ^ 64
    → t + m < 2 ^ 64
    → (leb s (last_lba t m) && leb t (last_lba s n)) ≡ false
    → Apart (t, m) (s, n)
Apart-leb s n t m hn hm hs ht q = ground arith

-- A range that meets no candidate is apart from them.
overlaps-AllApart :
    (blocks start_lba block_count : ℕ) (l : List Candidate)
    → IsLayout blocks (ranges l)
    → IsOn blocks (start_lba, block_count)
    → overlaps start_lba (last_lba start_lba block_count) l ≡ false
    → AllApart (start_lba, block_count) (ranges l)
unfolding overlaps
overlaps-AllApart blocks start_lba block_count [] h o q = tt
overlaps-AllApart blocks start_lba block_count (c ∷ l) ((_, n, w, _), b, h) (p, m, v, e) q =
    elim (Bool-cases (
      leb start_lba (last_lba c.start_lba c.block_count)
      && leb c.start_lba (last_lba start_lba block_count))) [
        | inl t ↦ absurd (ground (arith, rw t at q))
        | inr t ↦ (
          Apart-leb start_lba block_count c.start_lba c.block_count m n v w t,
          overlaps-AllApart blocks start_lba block_count l h (p, m, v, e) (rw t at q),
        )
      ]

range-IsOn :
    (start_lba block_count blocks : ℕ)
    → start_lba + block_count < 2 ^ 64
    → is_bad_range start_lba block_count blocks ≡ false
    → IsOn blocks (start_lba, block_count)
unfolding is_bad_range
range-IsOn start_lba block_count blocks small q = (ground arith, ground arith, small, ground arith)

-- A candidate that `mbr_candidate_add` accepts keeps the candidates on the device and apart from each
-- other.
pub mbr_candidate_add-IsLayout :
    (l : List Candidate) (number kind start_lba block_count blocks : ℕ) {l' : List Candidate}
    → IsLayout blocks (ranges l)
    → start_lba + block_count < 2 ^ 64
    → mbr_candidate_add l number kind start_lba block_count blocks ≡ some l'
    → IsLayout blocks (ranges l') × (ranges l' ≡ ranges l ++ ((start_lba, block_count) ∷ []))
unfolding mbr_candidate_add
mbr_candidate_add-IsLayout l number kind start_lba block_count blocks h small q =
    elim (Bool-cases (leb max_per_disk (length l))) [
      | inl z ↦ absurd (ground (arith, rw z at q))
      | inr z ↦ elim (Bool-cases (is_bad_range start_lba block_count blocks)) [
        | inl y ↦ absurd (ground (arith, rw (z, y) at q))
        | inr y ↦ elim (Bool-cases (overlaps start_lba (last_lba start_lba block_count) l)) [
          | inl x ↦ absurd (ground (arith, rw (z, y, x) at q))
          | inr x ↦
              let on = range-IsOn start_lba block_count blocks small y in
              subst
                (λ k.
                  IsLayout blocks (ranges k)
                  × (ranges k ≡ ranges l ++ ((start_lba, block_count) ∷ [])))
                (some_inj.0 (rw (z, y, x) at q))
                (
                  subst (IsLayout blocks) (sym (ranges-append l _)) (
                      IsLayout-append blocks (start_lba, block_count) (ranges l) h on
                        (overlaps-AllApart blocks start_lba block_count l h on x)),
                  ranges-append l _,
                )
        ]
      ]
    ]
