-- ===== src/Heap/Canonical.antt =====
-- The allocated extents determine the heap of src/kernel/heap.c, and freeing undoes allocating.
use asas_os.Common.{
  ℕ, ◌+◌, ◌≡◌, refl, sym, ◌∙◌, true, false, List, [], ◌∷◌, arith, Bool-cases, inl, inr, some, ap,
  ap₂,
}
use asas_os.Heap.{Block, header_size, heap_base, heap_size, kmalloc, kfree}
use asas_os.Heap.Shape.{Tiles, Tiles-le, head_free, IsCoalesced, IsHeap, used}
use asas_os.Heap.Alloc.{kmalloc-IsHeap, kmalloc-Found}
use asas_os.Heap.Release.{kfree-used, used-kfree, erase_extent}

-- Where the first extent starts, or where one would start behind the region.
abbrev first_start : ℕ → List (ℕ × ℕ) → ℕ
first_start e [] = e + header_size
first_start e ((p, n) ∷ l) = p

first_start_lem :
    (a e : ℕ) (heap : List Block)
    → Tiles a e heap
    → head_free heap ≡ false
    → first_start e (used heap) ≡ a + header_size
first_start_lem a e [] t h = omega arith
first_start_lem a e (b ∷ rest) t h = rw h (omega arith)

first_start_later :
    (a e : ℕ) (b : Block) (rest : List Block)
    → Tiles a e (b ∷ rest)
    → IsCoalesced (b ∷ rest)
    → b.free ≡ true
    → first_start e (used (b ∷ rest)) ≡ a + header_size + b.size + header_size
first_start_later a e b rest t c f =
    rw f (first_start_lem (a + header_size + b.size) e rest t.1 (ground arith))

record SameHead (b k : Block) (g h : List Block) : Type 0 where
  head : b ≡ k
  later : used g ≡ used h

same_head :
    (a e : ℕ) (b k : Block) (g h : List Block)
    → Tiles a e (b ∷ g)
    → Tiles a e (k ∷ h)
    → IsCoalesced (b ∷ g)
    → IsCoalesced (k ∷ h)
    → used (b ∷ g) ≡ used (k ∷ h)
    → SameHead b k g h
same_head a e b k g h s t c d q = elim (Bool-cases b.free) [
  | inl f ↦ elim (Bool-cases k.free) [
    | inl f' ↦
        let sizes : b.size ≡ k.size =
          omega
            (arith, starts, first_start_later a e b g s c f, first_start_later a e k h t d f') in
        record { head = ground arith; later = ground arith }
    | inr f' ↦
        absurd
          (omega (arith, starts, first_start_later a e b g s c f, first_start_lem a e (k ∷ h) t f'))
  ]
  | inr f ↦ elim (Bool-cases k.free) [
    | inl f' ↦
        absurd
          (omega (arith, starts, first_start_lem a e (b ∷ g) s f, first_start_later a e k h t d f'))
    | inr f' ↦ record { head = ground arith; later = ground arith }
  ]
]
  where
    starts : first_start e (used (b ∷ g)) ≡ first_start e (used (k ∷ h))
    starts = ap (first_start e) q

canonical :
    (a e : ℕ) (g h : List Block)
    → Tiles a e g
    → Tiles a e h
    → IsCoalesced g
    → IsCoalesced h
    → used g ≡ used h
    → g ≡ h
canonical a e [] [] s t c d q = refl
canonical a e [] (k ∷ h) s t c d q =
    absurd (omega (arith, Tiles-le (a + header_size + k.size) e h t.1))
canonical a e (b ∷ g) [] s t c d q =
    absurd (omega (arith, Tiles-le (a + header_size + b.size) e g s.1))
canonical a e (b ∷ g) (k ∷ h) s t c d q =
    let r = same_head a e b k g h s t c d q in
    let t' : Tiles (a + header_size + b.size) e h = rw r.head t.1 in
    ap₂ ◌∷◌ r.head (canonical (a + header_size + b.size) e g h s.1 t' c.1 d.1 r.later)

-- Two well-formed heaps with the same allocated extents are equal: how the free space is cut up
-- does not depend on the order of the calls.
pub used-injective : (g h : List Block) → IsHeap g → IsHeap h → used g ≡ used h → g ≡ h
used-injective g h v w q =
    canonical heap_base (heap_base + heap_size) g h v.tiles w.tiles v.coalesced w.coalesced q

-- Freeing at once what `kmalloc` returned restores the heap, with its free bytes.
pub kfree-kmalloc :
    (heap : List Block) (size p : ℕ) {heap' : List Block}
    → IsHeap heap
    → kmalloc heap size ≡ some (p, heap')
    → kfree heap' p ≡ some heap
kfree-kmalloc heap size p {heap'} v h =
    let r = kmalloc-Found heap size p v h in
    let (out, q, w, e) =
      kfree-used heap' r.before p r.size r.after (kmalloc-IsHeap heap size p v h) r.new in
    q ∙ ap some (used-injective out heap w v (e ∙ sym r.old))

erase_extent_comm :
    (p q : ℕ) (l : List (ℕ × ℕ))
    → erase_extent q (erase_extent p l) ≡ erase_extent p (erase_extent q l)
erase_extent_comm p q [] = refl
erase_extent_comm p q ((r, n) ∷ l) = ground (arith, erase_extent_comm p q l)

-- Freeing two allocated blocks in either order gives the same heap.
pub kfree_comm :
    (heap g h gh hg : List Block) (p q : ℕ)
    → IsHeap heap
    → kfree heap p ≡ some g
    → kfree g q ≡ some gh
    → kfree heap q ≡ some h
    → kfree h p ≡ some hg
    → gh ≡ hg
kfree_comm heap g h gh hg p q v a b c d =
    let (vg, eg) = used-kfree heap p v a in
    let (vgh, egh) = used-kfree g q vg b in
    let (vh, eh) = used-kfree heap q v c in
    let (vhg, ehg) = used-kfree h p vh d in
    used-injective gh hg vgh vhg (
      egh
      ∙ (ap (erase_extent q) eg
          ∙ (erase_extent_comm p q (used heap) ∙ (ap (erase_extent p) (sym eh) ∙ sym ehg))))
