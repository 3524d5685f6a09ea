-- ===== src/Heap/Tests.antt =====
-- Concrete heaps of src/kernel/heap.c.
use asas_os.Common.{ℕ, ◌+◌, ◌-◌, ◌*◌, ◌≤◌, ◌≡◌, refl, true, false, some, List, [], ◌∷◌, ◌++◌, arith}
use asas_os.Heap.{
  heap_fragmentation_self_test, fragmentation_from, Block, fresh, heap_base, heap_size, header_size,
  kmalloc, kfree, heap_free_bytes, align_size, find_block, take_block, mark_free, coalesce,
  coalesce_from,
}
use asas_os.Heap.Shape.{IsHeap, used, Apart, fresh-IsHeap}
use asas_os.Heap.Alloc.{kmalloc-IsHeap, used-kmalloc}
use asas_os.Heap.Release.{used-kfree, erase_extent}
use asas_os.Heap.Canonical.{kfree-kmalloc}
use asas_os.Heap.Bytes.{heap_free_bytes_lem, extent_bytes}

-- 100 bytes, rounded to 112
abbrev one : List Block
one =
    record { addr = heap_base; size = 112; free = false }
    ∷ record { addr = heap_base + 136; size = heap_size - 160; free = true }
    ∷ []

-- 16 bytes more
abbrev two : List Block
two =
    record { addr = heap_base; size = 112; free = false }
    ∷ record { addr = heap_base + 136; size = 16; free = false }
    ∷ record { addr = heap_base + 176; size = heap_size - 200; free = true }
    ∷ []

-- the first of the two is freed
abbrev second : List Block
second =
    record { addr = heap_base; size = 112; free = true }
    ∷ record { addr = heap_base + 136; size = 16; free = false }
    ∷ record { addr = heap_base + 176; size = heap_size - 200; free = true }
    ∷ []

abbrev first_pointer : ℕ
first_pointer = heap_base + 24

abbrev second_pointer : ℕ
second_pointer = heap_base + 160

kmalloc-fresh : kmalloc fresh 100 ≡ some (first_pointer, one)
unfolding kmalloc find_block take_block align_size
kmalloc-fresh = refl

kmalloc-one : kmalloc one 5 ≡ some (second_pointer, two)
unfolding kmalloc find_block take_block align_size
kmalloc-one = refl

kfree-first : kfree two first_pointer ≡ some second
unfolding kfree coalesce coalesce_from mark_free
kfree-first = refl

kfree-second : kfree two second_pointer ≡ some one
unfolding kfree coalesce coalesce_from mark_free
kfree-second = refl

kfree-second_first : kfree second second_pointer ≡ some fresh
unfolding kfree coalesce coalesce_from mark_free
kfree-second_first = refl

kfree-first_second : kfree one first_pointer ≡ some fresh
unfolding kfree coalesce coalesce_from mark_free
kfree-first_second = refl

one-IsHeap : IsHeap one
one-IsHeap = kmalloc-IsHeap fresh 100 first_pointer fresh-IsHeap kmalloc-fresh

two-IsHeap : IsHeap two
two-IsHeap = kmalloc-IsHeap one 5 second_pointer one-IsHeap kmalloc-one

used-kmalloc_example :
    (before after : List (ℕ × ℕ)) × (n : ℕ) × (5 ≤ n)
    × (used one ≡ before ++ after)
    × (used two ≡ before ++ ((second_pointer, n) ∷ after))
    × Apart heap_base (heap_base + heap_size) (used two)
used-kmalloc_example = used-kmalloc one 5 second_pointer (omega arith) one-IsHeap kmalloc-one

used-kfree_example : IsHeap second × (used second ≡ erase_extent first_pointer (used two))
used-kfree_example = used-kfree two first_pointer two-IsHeap kfree-first

kfree-kmalloc_example : kfree two second_pointer ≡ some one
kfree-kmalloc_example = kfree-kmalloc one 5 second_pointer one-IsHeap kmalloc-one

heap_free_bytes_lem_example :
    heap_free_bytes two + extent_bytes (used two) + header_size * 3 ≡ heap_size
heap_free_bytes_lem_example = heap_free_bytes_lem two two-IsHeap

fragmentation_passes : heap_fragmentation_self_test fresh ≡ some (true, fresh)
unfolding heap_fragmentation_self_test fragmentation_from kmalloc find_block take_block align_size
    kfree coalesce coalesce_from mark_free mathlib.Core.Option.bind
fragmentation_passes = refl
