-- ===== src/Heap/Bytes.antt =====
-- `heap_free_bytes` of src/kernel/heap.c accounts for the whole region.
use asas_os.Common.{
  ℕ, ◌+◌, ◌*◌, ◌<◌, ◌^◌, ◌≡◌, List, [], ◌∷◌, arith, Bool-cases, inl, inr, if◌then◌else◌, length,
}
use asas_os.Heap.{Block, header_size, heap_base, heap_size, heap_free_bytes, heap_free_bytes_from}
use asas_os.Heap.Shape.{Tiles, IsHeap, used}

abbrev free_bytes : List Block → ℕ
free_bytes [] = 0
free_bytes (b ∷ rest) = (if b.free then b.size else 0) + free_bytes rest

abbrev pub extent_bytes : List (ℕ × ℕ) → ℕ
extent_bytes [] = 0
extent_bytes ((p, n) ∷ l) = n + extent_bytes l

Tiles-bytes :
    (a e : ℕ) (heap : List Block)
    → Tiles a e heap
    → a + free_bytes heap + extent_bytes (used heap) + header_size * length heap ≡ e
Tiles-bytes a e [] t = omega arith
Tiles-bytes a e (b ∷ rest) t = ground (arith, Tiles-bytes (a + header_size + b.size) e rest t.1)

heap_free_bytes_from_lem :
    (total : ℕ) (heap : List Block)
    → total + free_bytes heap < 2 ^ 64
    → heap_free_bytes_from total heap ≡ total + free_bytes heap
unfolding heap_free_bytes_from
heap_free_bytes_from_lem total [] h = omega arith
heap_free_bytes_from_lem total (b ∷ rest) h = elim (Bool-cases b.free) [
  | inl f ↦ ground (arith, heap_free_bytes_from_lem (total + b.size) rest)
  | inr f ↦ ground (arith, heap_free_bytes_from_lem total rest)
]

-- On a well-formed heap `heap_free_bytes`, the allocated bytes and a header of 24 bytes for each
-- block make up the 8 MiB of the region: the sum does not wrap and no byte is lost.
pub heap_free_bytes_lem :
    (heap : List Block)
    → IsHeap heap
    → heap_free_bytes heap + extent_bytes (used heap) + header_size * length heap ≡ heap_size
unfolding heap_free_bytes
heap_free_bytes_lem heap v =
    let t = Tiles-bytes heap_base (heap_base + heap_size) heap v.tiles in
    omega (arith, t, heap_free_bytes_from_lem 0 heap (omega (arith, t)))
