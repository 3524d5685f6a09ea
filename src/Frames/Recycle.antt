-- ===== src/Frames/Recycle.antt =====
-- `frame_free` and sequences of calls of src/kernel/memory.c.
use asas_os.Common.{
  ℕ, zero, suc, ◌+◌, ◌-◌, ◌*◌, ◌/◌, ◌%◌, ◌≤◌, ◌<◌, ◌≡◌, ◌↔◌, refl, sym, ◌∙◌, ap, ap₂, Bool, true,
  false, not, ◌&&◌, List, [], ◌∷◌, ◌++◌, arith, set, if◌then◌else◌, Bool-cases, inl, inr, ltb, ◌==◌,
  length, length-set, get_or-set_self, get_or-set_ne,
}
use asas_os.Common.Words.{word, sub_word}
use asas_os.Frames.{
  Descriptor, FrameAllocator, page_size, low_memory_reserve, frame_free_list_capacity, usable_start,
  is_usable, frame_allocate, frame_free, initialize, frame_allocator_allocated_pages,
}
use asas_os.Frames.Available.{
  frames, recycled, region_frames, upcoming, rounds_left, available, IsRegion, IsValid,
}
use asas_os.Frames.Refine.{first, rest, frame_allocate_refines}

recycled-set : (xs : List ℕ) (i v n : ℕ) → n ≤ i → recycled (set xs i v) n ≡ recycled xs n
recycled-set xs i v zero h = refl
recycled-set xs i v (suc n) h =
    ap₂ ◌∷◌ (get_or-set_ne xs i n v 0 (omega arith)) (recycled-set xs i v n (omega arith))

-- The test that `frame_free` makes before it keeps a frame.
abbrev pub accepts : FrameAllocator → ℕ → Bool
accepts a frame =
    (not (frame == 0) && frame % page_size == 0) && ltb a.free_count frame_free_list_capacity

accepted :
    (a : FrameAllocator) (frame : ℕ)
    → accepts a frame ≡ true
    → frame_free a frame ≡ record a {
      free_list = set a.free_list a.free_count frame;
      free_count = a.free_count + 1;
      allocated_pages = sub_word a.allocated_pages 1;
    }
unfolding frame_free
accepted a frame h = ground arith

rejected : (a : FrameAllocator) (frame : ℕ) → accepts a frame ≡ false → frame_free a frame ≡ a
unfolding frame_free
rejected a frame h = ground arith

recycled-set_push :
    (xs : List ℕ) (n v : ℕ) → n < length xs → recycled (set xs n v) (n + 1) ≡ v ∷ recycled xs n
recycled-set_push xs n v h =
    ap (recycled (set xs n v)) {y = suc n} (omega arith)
    ∙ ap₂ ◌∷◌ (get_or-set_self xs n v 0 h) (recycled-set xs n v n (omega arith))

frame_free_accepted :
    (a : FrameAllocator) (frame : ℕ)
    → IsValid a
    → accepts a frame ≡ true
    → (available (frame_free a frame) ≡ frame ∷ available a) × IsValid (frame_free a frame)
frame_free_accepted a frame v h =
    let below : a.free_count < frame_free_list_capacity = ground arith in
    rw (accepted a frame h) (
      ap (λ l. l ++ unused) (recycled-set_push a.free_list a.free_count frame (omega arith)),
      record {
        regions = v.regions;
        room = length-set a.free_list a.free_count frame ∙ v.room;
        count_in = omega arith;
        frame_in = v.frame_in;
      },
    )
  where
    unused : List ℕ
    unused =
        frames a.next_frame a.remaining_pages
        ++ upcoming a.memory_map a.descriptor_size a.descriptor_index (rounds_left a)

-- On a valid allocator `frame_free` puts a non-null frame on a page boundary in front of the
-- available ones while fewer than 256 are recycled, makes no frame available by any other call, and
-- keeps the allocator valid.
pub frame_free_refines :
    (a : FrameAllocator) (frame : ℕ)
    → IsValid a
    → (available (frame_free a frame)
        ≡ (if accepts a frame then frame ∷ available a else available a))
      × IsValid (frame_free a frame)
frame_free_refines a frame v = elim (Bool-cases (accepts a frame)) [
  | inl h ↦ ground (arith, frame_free_accepted a frame v h)
  | inr h ↦ rw (rejected a frame h, h) (refl, v)
]

-- A frame on a page boundary above the first MiB.
abbrev pub IsFrame : ℕ → Type 0
IsFrame f = (f % page_size ≡ 0) × (low_memory_reserve ≤ f)

abbrev pub All {ℓ κ} : {A : Type ℓ} → (A → Type κ) → List A → Type κ
All P [] = Unit
All P (x ∷ xs) = P x × All P xs

All-append : (P : ℕ → Type 0) (xs ys : List ℕ) → All P xs → All P ys → All P (xs ++ ys)
All-append P [] ys hx hy = hy
All-append P (x ∷ xs) ys hx hy = (hx.0, All-append P xs ys hx.1 hy)

All-frames : (start n : ℕ) → IsFrame start → All IsFrame (frames start n)
All-frames start zero h = tt
All-frames start (suc n) h = (h, All-frames (start + page_size) n (omega arith))

usable_start-IsFrame : (d : Descriptor) → IsRegion d → IsFrame (usable_start d)
unfolding usable_start
usable_start-IsFrame d r = ground arith

All-region_frames : (d : Descriptor) → IsRegion d → All IsFrame (region_frames d)
All-region_frames d r = elim (Bool-cases (is_usable d)) [
  | inl h ↦ rw h (All-frames (usable_start d) _ (usable_start-IsFrame d r))
  | inr h ↦ rw h tt
]

All-upcoming :
    (m : ℕ → Descriptor) (size i n : ℕ)
    → ((j : ℕ) → j < i + n → IsRegion (m (word (j * size))))
    → All IsFrame (upcoming m size i n)
All-upcoming m size i zero h = tt
All-upcoming m size i (suc n) h =
    All-append IsFrame (region_frames (m (word (i * size)))) (upcoming m size (i + 1) n)
      (All-region_frames (m (word (i * size))) (h i (omega arith)))
      (All-upcoming m size (i + 1) n (λ j p. h j (omega arith)))

-- From a memory map whose regions start on pages and end below 2 ^ 64, the initial allocator is
-- valid, counts no page as allocated, and offers only frames on page boundaries above the first
-- MiB; in particular never 0, which stands for failure.
pub initialize_lem :
    (a : FrameAllocator) (m : ℕ → Descriptor) (map_size size : ℕ)
    → length a.free_list ≡ frame_free_list_capacity
    → ((i : ℕ) → i < map_size / size → IsRegion (m (word (i * size))))
    → IsValid (initialize a m map_size size)
      × All IsFrame (available (initialize a m map_size size))
      × (frame_allocator_allocated_pages (initialize a m map_size size) ≡ 0)
unfolding initialize frame_allocator_allocated_pages
initialize_lem a m map_size size room h = (
  record { regions = h; room = room; count_in = omega arith; frame_in = omega arith },
  All-upcoming m size 0 (map_size / size - 0) (λ j p. h j (omega arith)),
  refl,
)

first-zero : (l : List ℕ) → All IsFrame l → (first l ≡ 0) ↔ (l ≡ [])
first-zero [] h = (λ q. refl, λ q. refl)
first-zero (f ∷ l) h = (λ q. absurd (omega (arith, q, h.0.1)), λ q. absurd (cc q))

All-rest : (P : ℕ → Type 0) (l : List ℕ) → All P l → All P (rest l)
All-rest P [] h = h
All-rest P (f ∷ l) h = h.1

-- On a valid allocator whose available frames are all on page boundaries above the first MiB,
-- `frame_allocate` returns the first of them, returns 0 exactly when there is none, leaves the
-- others available in their order, and keeps both conditions.
pub frame_allocate_lem :
    (a : FrameAllocator)
    → IsValid a
    → All IsFrame (available a)
    → ((frame_allocate a).0 ≡ first (available a))
      × (((frame_allocate a).0 ≡ 0) ↔ (available a ≡ []))
      × (available (frame_allocate a).1 ≡ rest (available a))
      × All IsFrame (available (frame_allocate a).1)
      × IsValid (frame_allocate a).1
frame_allocate_lem a v h =
    let (frame, left, v') = frame_allocate_refines a v in
    (
      frame,
      rw frame (first-zero (available a) h),
      left,
      rw left (All-rest IsFrame (available a) h),
      v',
    )

first_of : (l : List ℕ) (f : ℕ) (fs : List ℕ) → l ≡ f ∷ fs → (first l ≡ f) × (rest l ≡ fs)
first_of l f fs q = (ap first q, ap rest q)

-- On a valid allocator that has a frame to give and fewer than 256 recycled ones, freeing the
-- frame that `frame_allocate` returned makes the same frames available again in the same order.
pub frame_free-frame_allocate :
    (a : FrameAllocator) (f : ℕ) (fs : List ℕ)
    → IsValid a
    → available a ≡ f ∷ fs
    → IsFrame f
    → (frame_allocate a).1.free_count < frame_free_list_capacity
    → available (frame_free (frame_allocate a).1 (frame_allocate a).0) ≡ available a
frame_free-frame_allocate a f fs v q w room =
    let (frame, left, v') = frame_allocate_refines a v in
    let (qf, qr) = first_of (available a) f fs q in
    let taken : (frame_allocate a).0 ≡ f = frame ∙ qf in
    rw taken (
      (frame_free_accepted (frame_allocate a).1 f v' (ground arith)).0
      ∙ (ap (λ l. f ∷ l) (left ∙ qr) ∙ sym q))
