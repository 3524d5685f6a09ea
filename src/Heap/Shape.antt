-- ===== src/Heap/Shape.antt =====
-- The shape of the heap of src/kernel/heap.c: its blocks tile the region, and no two free blocks meet.
use asas_os.Common.{
  ℕ, ◌+◌, ◌≤◌, ◌≡◌, refl, Bool, false, ◌&&◌, List, [], ◌∷◌, arith, Bool-cases, if◌then◌else◌, inl,
  inr,
}
use asas_os.Heap.{Block, header_size, heap_base, heap_size, fresh, payload}

-- The blocks of the list tile the addresses from `a` up to `e`.
abbrev pub Tiles : ℕ → ℕ → List Block → Type 0
Tiles a e [] = a ≡ e
Tiles a e (b ∷ rest) = (b.addr ≡ a) × Tiles (a + header_size + b.size) e rest

abbrev pub head_free : List Block → Bool
head_free [] = false
head_free (b ∷ rest) = b.free

-- No free block is followed by a free one.
abbrev pub IsCoalesced : List Block → Type 0
IsCoalesced [] = Unit
IsCoalesced (b ∷ rest) = ((b.free && head_free rest) ≡ false) × IsCoalesced rest

pub record IsHeap (heap : List Block) : Type 0 where
  pub tiles : Tiles heap_base (heap_base + heap_size) heap
  pub coalesced : IsCoalesced heap

-- The allocated extents, each the address that `kmalloc` returned and its size.
abbrev pub used : List Block → List (ℕ × ℕ)
used [] = []
used (b ∷ rest) = if b.free then used rest else (payload b, b.size) ∷ used rest

-- The extents stand in order between `a` and `e`, each behind a header of its own.
abbrev pub Apart : ℕ → ℕ → List (ℕ × ℕ) → Type 0
Apart a e [] = a ≤ e
Apart a e ((p, n) ∷ rest) = (a + header_size ≤ p) × Apart (p + n) e rest

pub Tiles-le : (a e : ℕ) (heap : List Block) → Tiles a e heap → a ≤ e
Tiles-le a e [] t = omega arith
Tiles-le a e (b ∷ rest) t = omega (arith, Tiles-le (a + header_size + b.size) e rest t.1)

Apart-weaken : (a c e : ℕ) (l : List (ℕ × ℕ)) → c ≤ a → Apart a e l → Apart c e l
Apart-weaken a c e [] h s = omega arith
Apart-weaken a c e ((p, n) ∷ rest) h s = (omega arith, s.1)

-- In a tiled region the allocated extents do not overlap.
pub Tiles-Apart : (a e : ℕ) (heap : List Block) → Tiles a e heap → Apart a e (used heap)
Tiles-Apart a e [] t = omega arith
Tiles-Apart a e (b ∷ rest) t =
    let later = Tiles-Apart (a + header_size + b.size) e rest t.1 in
    elim (Bool-cases b.free) [
      | inl f ↦ rw f (Apart-weaken (a + header_size + b.size) a e (used rest) (omega arith) later)
      | inr f ↦ rw f (
        omega arith,
        Apart-weaken (a + header_size + b.size) (payload b + b.size) e (used rest) (omega arith)
            later,
      )
    ]

pub fresh-IsHeap : IsHeap fresh
fresh-IsHeap = record { tiles = (refl, refl); coalesced = (refl, tt) }
