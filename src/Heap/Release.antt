-- ===== src/Heap/Release.antt =====
-- `kfree` of src/kernel/heap.c on a well-formed heap.
use mathlib.Core.Option.{some_inj}
use mathlib.Core.Path.{subst}
use asas_os.Common.{
  ℕ, ◌+◌, ◌≤◌, ◌<◌, ◌^◌, ◌≡◌, refl, sym, ◌∙◌, true, false, ◌&&◌, List, [], ◌∷◌, arith, Bool-cases,
  if◌then◌else◌, inl, inr, some, ◌==◌, Option-cases, ap, ◌++◌,
}
use asas_os.Common.Words.{word}
use asas_os.Heap.{
  Block, header_size, heap_base, heap_size, payload, mark_free, coalesce_from, coalesce, kfree,
}
use asas_os.Heap.Shape.{Tiles, Tiles-le, head_free, IsCoalesced, IsHeap, used, Apart, Tiles-Apart}

-- The merging walk keeps the region tiled and the extents, and leaves no two free neighbours.
record Merged (a e : ℕ) (current : Block) (rest out : List Block) : Type 0 where
  tiles : Tiles a e out
  coalesced : IsCoalesced out
  head : head_free out ≡ current.free
  extents : used out ≡ used (current ∷ rest)

merged : Block → Block → Block
merged b c = record b { size = word (b.size + (header_size + c.size)) }

merge-Merged :
    (a e : ℕ) (b c : Block) (rest out : List Block)
    → (b.free && c.free) ≡ true
    → Merged a e (merged b c) rest out
    → Merged a e b (c ∷ rest) out
unfolding merged
merge-Merged a e b c rest out both r = record {
  tiles = r.tiles;
  coalesced = r.coalesced;
  head = r.head;
  extents = ground (arith, r.extents);
}

step-Merged :
    (a e : ℕ) (b c : Block) (rest out : List Block)
    → b.addr ≡ a
    → (b.free && c.free) ≡ false
    → Merged (a + header_size + b.size) e c rest out
    → Merged a e b (c ∷ rest) (b ∷ out)
step-Merged a e b c rest out at one r = record {
  tiles = (at, r.tiles);
  coalesced = (ground (arith, r.head), r.coalesced);
  head = refl;
  extents = ap (λ l. if b.free then l else (payload b, b.size) ∷ l) r.extents;
}

merged-Tiles :
    (a e : ℕ) (b c : Block) (rest : List Block)
    → e < 2 ^ 64
    → Tiles a e (b ∷ c ∷ rest)
    → Tiles a e (merged b c ∷ rest)
unfolding merged
merged-Tiles a e b c rest he t =
    let bound = Tiles-le (a + header_size + b.size + header_size + c.size) e rest t.1.1 in
    let q : a + header_size + b.size + header_size + c.size
        ≡ a + header_size + word (b.size + (header_size + c.size)) =
      omega arith in
    (t.0, rw q at t.1.1)

coalesce_from-Merged :
    (a e : ℕ) (current : Block) (rest : List Block)
    → e < 2 ^ 64
    → Tiles a e (current ∷ rest)
    → Merged a e current rest (coalesce_from current rest)
unfolding coalesce_from merged
coalesce_from-Merged a e b [] he t = record {
  tiles = t;
  coalesced = (ground arith, tt);
  head = refl;
  extents = refl;
}
coalesce_from-Merged a e b (c ∷ rest) he t = elim (Bool-cases (b.free && c.free)) [
  | inl both ↦
      rw (both, coalesce_from)
        (merge-Merged a e b c rest _ both
          (coalesce_from-Merged a e (merged b c) rest he (merged-Tiles a e b c rest he t)))
  | inr one ↦
      rw (one, coalesce_from)
        (step-Merged a e b c rest _ t.0 one
          (coalesce_from-Merged (a + header_size + b.size) e c rest he t.1))
]

mark_free-Tiles :
    (a e : ℕ) (heap : List Block) (p : ℕ) {out : List Block}
    → mark_free heap p ≡ some out
    → Tiles a e heap
    → Tiles a e out
unfolding mark_free
mark_free-Tiles a e [] p h t = cc
mark_free-Tiles a e (b ∷ rest) p h t = elim (Bool-cases (payload b == p)) [
  | inl here ↦ subst (Tiles a e) (some_inj.0 (rw here at h)) t
  | inr there ↦ elim (Option-cases (mark_free rest p)) [
    | inl q ↦ absurd (ground arith)
    | inr (rest', q) ↦
        subst (Tiles a e) (some_inj.0 (rw (there, q) at h))
          (t.0, mark_free-Tiles (a + header_size + b.size) e rest p q t.1)
  ]
]

-- The extents without the first one that starts at `p`.
abbrev pub erase_extent : ℕ → List (ℕ × ℕ) → List (ℕ × ℕ)
erase_extent p [] = []
erase_extent p ((q, n) ∷ l) = if q == p then l else (q, n) ∷ erase_extent p l

erase_extent-below :
    (a e p : ℕ) (l : List (ℕ × ℕ)) → p < a + header_size → Apart a e l → erase_extent p l ≡ l
erase_extent-below a e p [] h s = refl
erase_extent-below a e p ((q, n) ∷ l) h s =
    ground (arith, erase_extent-below (q + n) e p l (omega arith) s.1)

Apart-above :
    (a e : ℕ) (before : List (ℕ × ℕ)) (p n : ℕ) (after : List (ℕ × ℕ))
    → Apart a e (before ++ ((p, n) ∷ after))
    → a + header_size ≤ p
Apart-above a e [] p n after s = s.0
Apart-above a e ((q, m) ∷ before) p n after s =
    omega (arith, Apart-above (q + m) e before p n after s.1)

used-mark_free :
    (a e : ℕ) (heap : List Block) (p : ℕ) {out : List Block}
    → mark_free heap p ≡ some out
    → Tiles a e heap
    → used out ≡ erase_extent p (used heap)
unfolding mark_free
used-mark_free a e [] p h t = cc
used-mark_free a e (b ∷ rest) p {out} h t =
    let above = Tiles-Apart (a + header_size + b.size) e rest t.1 in
    elim (Bool-cases (payload b == p)) [
      | inl here ↦
          subst (λ l. used l ≡ erase_extent p (used (b ∷ rest))) (some_inj.0 (rw here at h))
            (ground (arith, erase_extent-below (a + header_size + b.size) e p (used rest)))
      | inr there ↦ elim (Option-cases (mark_free rest p)) [
        | inl q ↦ absurd (ground arith)
        | inr (rest', q) ↦
            subst (λ l. used l ≡ erase_extent p (used (b ∷ rest))) (some_inj.0 (rw (there, q) at h))
              (ground (arith, used-mark_free (a + header_size + b.size) e rest p q t.1))
      ]
    ]

coalesce-Merged :
    (heap : List Block)
    → Tiles heap_base (heap_base + heap_size) heap
    → IsHeap (coalesce heap) × (used (coalesce heap) ≡ used heap)
unfolding coalesce
coalesce-Merged [] t = absurd (omega arith)
coalesce-Merged (b ∷ rest) t =
    let r = coalesce_from-Merged heap_base (heap_base + heap_size) b rest (omega arith) t in
    (record { tiles = r.tiles; coalesced = r.coalesced }, r.extents)

-- On a well-formed heap `kfree` leaves a well-formed heap, whose extents are those before without
-- the one that starts at the pointer: freeing a null pointer, or a block twice, changes no extent.
pub used-kfree :
    (heap : List Block) (p : ℕ) {out : List Block}
    → IsHeap heap
    → kfree heap p ≡ some out
    → IsHeap out × (used out ≡ erase_extent p (used heap))
unfolding kfree
used-kfree heap p {out} v h = elim (Bool-cases (p == 0)) [
  | inl z ↦
      subst (λ l. IsHeap l × (used l ≡ erase_extent p (used heap))) (some_inj.0 (rw z at h))
        (v, sym (erase_extent-below heap_base end p (used heap) (ground arith) apart))
  | inr nz ↦ elim (Option-cases (mark_free heap p)) [
    | inl q ↦ absurd (ground arith)
    | inr (m, q) ↦
        subst (λ l. IsHeap l × (used l ≡ erase_extent p (used heap))) (some_inj.0 (rw (nz, q) at h))
          (let (w, e) = coalesce-Merged m (mark_free-Tiles heap_base end heap p q v.tiles) in
            (w, e ∙ used-mark_free heap_base end heap p q v.tiles))
  ]
]
  where
    end : ℕ
    end = heap_base + heap_size

    apart : Apart heap_base end (used heap)
    apart = Tiles-Apart heap_base end heap v.tiles

mark_free-some :
    (heap : List Block) (before : List (ℕ × ℕ)) (p n : ℕ) (after : List (ℕ × ℕ))
    → used heap ≡ before ++ ((p, n) ∷ after)
    → (out : List Block) × (mark_free heap p ≡ some out)
unfolding mark_free
mark_free-some [] [] p n after h = cc
mark_free-some [] (x ∷ before) p n after h = cc
mark_free-some (b ∷ rest) [] p n after h = elim (Bool-cases (payload b == p)) [
  | inl here ↦ (record b { free = true } ∷ rest, rw here)
  | inr there ↦ elim (Bool-cases b.free) [
    | inl f ↦
        let (out, q) = mark_free-some rest [] p n after (rw f at h) in (b ∷ out, rw (there, q))
    | inr f ↦ absurd (ground arith)
  ]
]
mark_free-some (b ∷ rest) (x ∷ before) p n after h = elim (Bool-cases (payload b == p)) [
  | inl here ↦ (record b { free = true } ∷ rest, rw here)
  | inr there ↦ elim (Bool-cases b.free) [
    | inl f ↦
        let (out, q) = mark_free-some rest (x ∷ before) p n after (rw f at h) in
        (b ∷ out, rw (there, q))
    | inr f ↦
        let (out, q) = mark_free-some rest before p n after (ground arith) in
        (b ∷ out, rw (there, q))
  ]
]

erase_extent-append :
    (a e : ℕ) (before : List (ℕ × ℕ)) (p n : ℕ) (after : List (ℕ × ℕ))
    → Apart a e (before ++ ((p, n) ∷ after))
    → erase_extent p (before ++ ((p, n) ∷ after)) ≡ before ++ after
erase_extent-append a e [] p n after s = ground arith
erase_extent-append a e ((q, m) ∷ before) p n after s = ground (
  arith,
  erase_extent-append (q + m) e before p n after s.1,
  Apart-above (q + m) e before p n after s.1,
)

-- Every allocated extent can be freed, and that removes it alone.
pub kfree-used :
    (heap : List Block) (before : List (ℕ × ℕ)) (p n : ℕ) (after : List (ℕ × ℕ))
    → IsHeap heap
    → used heap ≡ before ++ ((p, n) ∷ after)
    → (out : List Block) × (kfree heap p ≡ some out) × IsHeap out × (used out ≡ before ++ after)
unfolding kfree
kfree-used heap before p n after v h =
    let (m, q) = mark_free-some heap before p n after h in
    let apart : Apart heap_base (heap_base + heap_size) (before ++ ((p, n) ∷ after)) =
      subst (Apart heap_base (heap_base + heap_size)) h
        (Tiles-Apart heap_base (heap_base + heap_size) heap v.tiles) in
    let above = Apart-above heap_base (heap_base + heap_size) before p n after apart in
    let ok : kfree heap p ≡ some (coalesce m) = ground arith in
    let (w, e) = used-kfree heap p v ok in
    (
      coalesce m,
      ok,
      w,
      e
          ∙ (ap (erase_extent p) h
              ∙ erase_extent-append heap_base (heap_base + heap_size) before p n after apart),
    )
