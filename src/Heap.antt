-- ===== src/Heap.antt =====
-- The kernel heap of src/kernel/heap.c: a list of blocks, each a header of 24 bytes and a payload.
-- The linked list is the list of its headers in order, each with its address; the `next` pointer is
-- the order of the list. `heap_head` is null exactly where the list is empty.
pub mod Shape
pub mod Alloc
pub mod Release
pub mod Canonical
pub mod Bytes
mod Tests
use asas_os.Common.{
  ℕ, ◌+◌, ◌-◌, ◌*◌, ◌/◌, ◌%◌, ◌^◌, Bool, true, false, ◌&&◌, Option, none, some, List, [], ◌∷◌, leb,
  ◌==◌, if◌then◌else◌,
}
use mathlib.Core.Option
use asas_os.Common.Words.{word}

abbrev pub heap_base : ℕ
heap_base = 0xFFFF900000000000

abbrev pub heap_page_count : ℕ
heap_page_count = 2048

abbrev pub heap_size : ℕ
heap_size = heap_page_count * 4096

-- `sizeof(HEAP_BLOCK)`: 8 + 4 + 4 + 8
abbrev pub header_size : ℕ
header_size = 24

-- `HEAP_BLOCK`, with the address of its header.
pub record Block : Type 0 where
  pub addr : ℕ
  pub size : ℕ
  pub free : Bool

-- `(size + 15U) & ~15ULL`
pub align_size : ℕ → ℕ
align_size size = word (size + 15) / 16 * 16

-- What `heap_initialize` leaves once its pages are mapped.
abbrev pub fresh : List Block
fresh = record { addr = heap_base; size = heap_size - header_size; free = true } ∷ []

-- `block + 1`
abbrev pub payload : Block → ℕ
payload b = b.addr + header_size

-- The body of the `if` that takes a block: it is split where the rest can hold another block.
pub take_block : Block → ℕ → List Block → List Block
take_block b need rest =
    if leb (word (need + header_size + 16)) b.size
    then record b { size = need; free = false }
      ∷ record { addr = payload b + need; size = b.size - need - header_size; free = true }
      ∷ rest
    else record b { free = false } ∷ rest

-- The first-fit walk of `kmalloc`.
pub find_block : List Block → ℕ → Option (ℕ × List Block)
find_block [] need = none
find_block (b ∷ rest) need =
    if b.free && leb need b.size
    then some (payload b, take_block b need rest)
    else Option.map (λ (p, rest'). (p, b ∷ rest')) (find_block rest need)

pub kmalloc : List Block → ℕ → Option (ℕ × List Block)
kmalloc heap size = let need = align_size size in if need == 0 then none else find_block heap need

-- `block->free = 1` through the pointer. `none` where the pointer is no payload of the heap, which
-- the source leaves undefined.
pub mark_free : List Block → ℕ → Option (List Block)
mark_free [] p = none
mark_free (b ∷ rest) p =
    if payload b == p
    then some (record b { free = true } ∷ rest)
    else Option.map (λ rest'. b ∷ rest') (mark_free rest p)

-- The merging walk of `kfree`, from `current`.
pub coalesce_from : Block → List Block → List Block
coalesce_from current [] = current ∷ []
coalesce_from current (next ∷ rest) = elim (current.free && next.free) [
  | true ↦
      coalesce_from (record current { size = word (current.size + (header_size + next.size)) }) rest
  | false ↦ current ∷ coalesce_from next rest
]

pub coalesce : List Block → List Block
coalesce [] = []
coalesce (b ∷ rest) = coalesce_from b rest

-- A null pointer is ignored.
pub kfree : List Block → ℕ → Option (List Block)
kfree heap p = if p == 0 then some heap else Option.map coalesce (mark_free heap p)

pub heap_free_bytes_from : ℕ → List Block → ℕ
heap_free_bytes_from total [] = total
heap_free_bytes_from total (b ∷ rest) =
    heap_free_bytes_from (if b.free then word (total + b.size) else total) rest

pub heap_free_bytes : List Block → ℕ
heap_free_bytes heap = heap_free_bytes_from 0 heap

-- The end of `heap_fragmentation_self_test`, once the three blocks are allocated.
pub fragmentation_from : List Block → (first second third : ℕ) → Option (Bool × List Block)
fragmentation_from heap first second third = Option.bind (kfree heap second) (λ one.
    Option.bind (kfree one first) (λ both. elim (kmalloc both 1800) [
      | none ↦ Option.map (λ rest. (false, rest)) (kfree both third)
      | some (merged, heap') ↦
          Option.bind (kfree heap' merged)
            (λ rest. Option.map (λ last. (true, last)) (kfree rest third))
    ]))

-- `none` where a pointer that is freed is no payload of the heap.
pub heap_fragmentation_self_test : List Block → Option (Bool × List Block)
heap_fragmentation_self_test heap = elim (kmalloc heap 1024) [
  | none ↦ some (false, heap)
  | some (first, heap1) ↦ elim (kmalloc heap1 1024) [
    | none ↦ some (false, heap1)
    | some (second, heap2) ↦ elim (kmalloc heap2 1024) [
      | none ↦ some (false, heap2)
      | some (third, heap3) ↦ fragmentation_from heap3 first second third
    ]
  ]
]
