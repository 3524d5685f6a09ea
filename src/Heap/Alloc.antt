-- ===== src/Heap/Alloc.antt =====
-- `kmalloc` of src/kernel/heap.c on a well-formed heap.
use mathlib.Core.Option.{some_inj}
use mathlib.Core.Path.{subst}
use asas_os.Common.{
  ℕ, ◌+◌, ◌-◌, ◌≤◌, ◌<◌, ◌^◌, ◌≡◌, ◌⊎◌, refl, Bool, true, false, ◌&&◌, List, [], ◌∷◌, ◌++◌, arith,
  Bool-cases, if◌then◌else◌, inl, inr, some, leb, Option-cases, ◌==◌, none,
}
use asas_os.Heap.{
  Block, header_size, heap_base, heap_size, payload, find_block, take_block, kmalloc, align_size,
}
use asas_os.Heap.Shape.{IsHeap, Tiles, Tiles-le, head_free, IsCoalesced, used, Apart, Tiles-Apart}

-- What a successful walk from `a` leaves: the region is tiled and coalesced as before, the head
-- of the list is allocated only if it was the block taken, and one extent is new.
pub record Found (a e need : ℕ) (heap : List Block) (p : ℕ) (heap' : List Block) : Type 0 where
  pub tiles : Tiles a e heap'
  pub coalesced : IsCoalesced heap'
  pub head_kept : head_free heap ≡ false → head_free heap' ≡ false
  pub before : List (ℕ × ℕ)
  pub after : List (ℕ × ℕ)
  pub size : ℕ
  pub enough : need ≤ size
  pub old : used heap ≡ before ++ after
  pub new : used heap' ≡ before ++ ((p, size) ∷ after)

-- The block is split: its front is allocated and its rest is free.
abbrev split : Block → ℕ → List Block → List Block
split b need rest =
    record b { size = need; free = false }
    ∷ record { addr = payload b + need; size = b.size - need - header_size; free = true }
    ∷ rest

-- Which of the two forms `take_block` gives, and when.
take_block-cases :
    (b : Block) (need : ℕ) (rest : List Block)
    → need + header_size + 16 < 2 ^ 64
    → ((need + header_size + 16 ≤ b.size) × (take_block b need rest ≡ split b need rest))
      ⊎ (take_block b need rest ≡ record b { free = false } ∷ rest)
unfolding take_block
take_block-cases b need rest h = ground arith

split-Found :
    (a e need : ℕ) (b : Block) (rest : List Block)
    → b.free ≡ true
    → need + header_size + 16 ≤ b.size
    → Tiles a e (b ∷ rest)
    → IsCoalesced (b ∷ rest)
    → Found a e need (b ∷ rest) (payload b) (split b need rest)
split-Found a e need b rest f fits t c = record {
  tiles = (
    t.0,
    (
      omega arith,
      let q : a + header_size + b.size
              ≡ a + header_size + need + header_size + (b.size - need - header_size) =
            omega arith in
          rw q at t.1,
    ),
  );
  coalesced = (refl, (ground arith, c.1));
  head_kept = λ _. refl;
  before = [];
  after = used rest;
  size = need;
  enough = omega arith;
  old = rw f;
  new = refl;
}

whole-Found :
    (a e need : ℕ) (b : Block) (rest : List Block)
    → b.free ≡ true
    → need ≤ b.size
    → Tiles a e (b ∷ rest)
    → IsCoalesced (b ∷ rest)
    → Found a e need (b ∷ rest) (payload b) (record b { free = false } ∷ rest)
whole-Found a e need b rest f fits t c = record {
  tiles = t;
  coalesced = (refl, c.1);
  head_kept = λ _. refl;
  before = [];
  after = used rest;
  size = b.size;
  enough = fits;
  old = rw f;
  new = refl;
}

take_block-Found :
    (a e need : ℕ) (b : Block) (rest : List Block)
    → e < 2 ^ 64 - 40
    → b.free ≡ true
    → need ≤ b.size
    → Tiles a e (b ∷ rest)
    → IsCoalesced (b ∷ rest)
    → Found a e need (b ∷ rest) (payload b) (take_block b need rest)
take_block-Found a e need b rest he f fits t c =
    let bound = Tiles-le (a + header_size + b.size) e rest t.1 in
    elim (take_block-cases b need rest (omega arith)) [
      | inl (room, q) ↦ rw q (split-Found a e need b rest f room t c)
      | inr q ↦ rw q (whole-Found a e need b rest f fits t c)
    ]

&&-eq_false : (x y z : Bool) → (y ≡ false → z ≡ false) → (x && y) ≡ false → (x && z) ≡ false
&&-eq_false true y z h q = h q
&&-eq_false false y z h q = refl

-- A block that the walk passes.
skip-Found :
    {a e need p : ℕ} (b : Block) {rest rest' : List Block}
    → Tiles a e (b ∷ rest)
    → IsCoalesced (b ∷ rest)
    → Found (a + header_size + b.size) e need rest p rest'
    → Found a e need (b ∷ rest) p (b ∷ rest')
skip-Found b {rest} {rest'} t c r = record {
  tiles = (t.0, r.tiles);
  coalesced =
      (&&-eq_false (b.free) (head_free rest) (head_free rest') r.head_kept c.0, r.coalesced);
  head_kept = λ h. h;
  before = if b.free then r.before else (payload b, b.size) ∷ r.before;
  after = r.after;
  size = r.size;
  enough = r.enough;
  old = ground (arith, r.old);
  new = ground (arith, r.new);
}

find_block-Found :
    (heap : List Block) (a e need p : ℕ) {heap' : List Block}
    → e < 2 ^ 64 - 40
    → Tiles a e heap
    → IsCoalesced heap
    → find_block heap need ≡ some (p, heap')
    → Found a e need heap p heap'
unfolding find_block
find_block-Found [] a e need p he t c h = cc
find_block-Found (b ∷ rest) a e need p {heap'} he t c h =
    elim (Bool-cases (b.free && leb need b.size)) [
      | inl fits ↦
          subst (λ r. Found a e need (b ∷ rest) r.0 r.1) (some_inj.0 (rw fits at h))
            (take_block-Found a e need b rest he (ground arith) (ground arith) t c)
      | inr busy ↦ elim (Option-cases (find_block rest need)) [
        | inl q ↦ absurd (ground arith)
        | inr ((p', rest'), q) ↦
            subst (λ r. Found a e need (b ∷ rest) r.0 r.1) (some_inj.0 (rw (busy, q) at h))
              (skip-Found b t c
                (find_block-Found rest (a + header_size + b.size) e need p' he t.1 c.1 q))
      ]
    ]

pub kmalloc-Found :
    (heap : List Block) (size p : ℕ) {heap' : List Block}
    → IsHeap heap
    → kmalloc heap size ≡ some (p, heap')
    → Found heap_base (heap_base + heap_size) (align_size size) heap p heap'
unfolding kmalloc
kmalloc-Found heap size p {heap'} v h =
    find_block-Found heap heap_base (heap_base + heap_size) (align_size size) p (omega arith)
      v.tiles v.coalesced (ground arith)

-- A size that is no larger than the region is rounded up to a multiple of 16.
pub align_size_lem :
    (size : ℕ) → size < 2 ^ 64 - 15 → (size ≤ align_size size) × (align_size size < size + 16)
unfolding align_size
align_size_lem size h = omega arith

-- `kmalloc` keeps the heap well formed.
pub kmalloc-IsHeap :
    (heap : List Block) (size p : ℕ) {heap' : List Block}
    → IsHeap heap
    → kmalloc heap size ≡ some (p, heap')
    → IsHeap heap'
kmalloc-IsHeap heap size p v h =
    let r = kmalloc-Found heap size p v h in record { tiles = r.tiles; coalesced = r.coalesced }

-- On a well-formed heap a successful `kmalloc` of a size below 2 ^ 64 - 15 adds one extent of at
-- least that size to the allocated ones, at the address that it returns, and changes no other; the
-- extents of the new heap do not overlap and lie in the region, each behind its own header.
pub used-kmalloc :
    (heap : List Block) (size p : ℕ) {heap' : List Block}
    → size < 2 ^ 64 - 15
    → IsHeap heap
    → kmalloc heap size ≡ some (p, heap')
    → (before after : List (ℕ × ℕ)) × (n : ℕ) × (size ≤ n)
      × (used heap ≡ before ++ after)
      × (used heap' ≡ before ++ ((p, n) ∷ after))
      × Apart heap_base (heap_base + heap_size) (used heap')
used-kmalloc heap size p {heap'} small v h =
    let r = kmalloc-Found heap size p v h in
    (
      r.before,
      r.after,
      r.size,
      omega (arith, align_size_lem size small, r.enough),
      r.old,
      r.new,
      Tiles-Apart heap_base (heap_base + heap_size) heap' r.tiles,
    )

-- No block of the list is free and large enough.
abbrev pub NoneFits : ℕ → List Block → Type 0
NoneFits need [] = Unit
NoneFits need (b ∷ rest) = ((b.free && leb need b.size) ≡ false) × NoneFits need rest

find_block-none : (heap : List Block) (need : ℕ) → find_block heap need ≡ none → NoneFits need heap
unfolding find_block
find_block-none [] need h = tt
find_block-none (b ∷ rest) need h = (ground arith, find_block-none rest need (ground arith))

-- `kmalloc` fails only where the size rounds to 0 or no free block has room for it.
pub kmalloc-none :
    (heap : List Block) (size : ℕ)
    → kmalloc heap size ≡ none
    → (align_size size ≡ 0) ⊎ NoneFits (align_size size) heap
unfolding kmalloc
kmalloc-none heap size h = elim (Bool-cases (align_size size == 0)) [
  | inl z ↦ inl (ground arith)
  | inr p ↦ inr (find_block-none heap (align_size size) (ground arith))
]
