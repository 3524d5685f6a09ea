-- ===== src/Frames/Refine.antt =====
-- The allocator of src/kernel/memory.c behaves as the stack of the frames that are available.
use asas_os.Common.{
  ℕ, zero, suc, ◌+◌, ◌-◌, ◌*◌, ◌/◌, ◌<◌, ◌^◌, ◌≡◌, refl, sym, ◌∙◌, ap, ap₂, Bool, true, false, List,
  [], ◌∷◌, ◌++◌, arith, get_or, if◌then◌else◌, Bool-cases, inl, inr, ltb, ◌==◌,
}
use asas_os.Common.Words.{word, sub_word}
use asas_os.Frames.{
  Descriptor, FrameAllocator, page_size, region_end, usable_start, is_usable, select_loop,
  select_next_region, take_frame, frame_allocate,
}
use asas_os.Frames.Available.{frames, recycled, upcoming, rounds_left, available, IsRegion, IsValid}

abbrev pub first : List ℕ → ℕ
first [] = 0
first (x ∷ l) = x

abbrev pub rest : List ℕ → List ℕ
rest [] = []
rest (x ∷ l) = l

-- What the current region and the ones behind it hold.
abbrev unused : FrameAllocator → List ℕ
unused a =
    frames a.next_frame a.remaining_pages
    ++ upcoming a.memory_map a.descriptor_size a.descriptor_index (rounds_left a)

usable_pages :
    (d : Descriptor)
    → IsRegion d
    → is_usable d ≡ true
    → (0 < (sub_word (region_end d) (usable_start d)) / page_size)
      × (usable_start d + (sub_word (region_end d) (usable_start d)) / page_size * page_size
          < 2 ^ 64)
unfolding is_usable usable_start region_end
usable_pages d v h = ground arith

-- What the search leaves: nothing of the free list and of the map has changed, and what is unused
-- is what the descriptors held that were ahead.
record Selected (a : FrameAllocator) (ahead : List ℕ) (out : FrameAllocator × Bool) : Type 0 where
  valid : IsValid out.0
  held : unused out.0 ≡ ahead
  same_list : out.0.free_list ≡ a.free_list
  same_count : out.0.free_count ≡ a.free_count
  found : out.1 ≡ true → 0 < out.0.remaining_pages
  missed : out.1 ≡ false → ahead ≡ []

-- `a` once it has entered the region of a descriptor.
abbrev enter : FrameAllocator → Descriptor → FrameAllocator
enter a d = record a {
  descriptor_index = a.descriptor_index + 1;
  next_frame = usable_start d;
  remaining_pages = (sub_word (region_end d) (usable_start d)) / page_size;
}

enter-Selected :
    (n : ℕ) (a : FrameAllocator) (d : Descriptor)
    → IsValid a
    → IsRegion d
    → is_usable d ≡ true
    → suc n ≡ rounds_left a
    → Selected a
        (frames (usable_start d) ((sub_word (region_end d) (usable_start d)) / page_size)
          ++ upcoming a.memory_map a.descriptor_size (a.descriptor_index + 1) n)
        (enter a d, true)
enter-Selected n a d v r h q = record {
  valid = record {
    regions = v.regions;
    room = v.room;
    count_in = v.count_in;
    frame_in = (usable_pages d r h).1;
  };
  held =
      ap
        (λ k.
          frames (usable_start d) ((sub_word (region_end d) (usable_start d)) / page_size)
          ++ upcoming a.memory_map a.descriptor_size (a.descriptor_index + 1) k)
        (omega arith);
  same_list = refl;
  same_count = refl;
  found = λ _. (usable_pages d r h).0;
  missed = λ h. cc;
}

skip-Selected :
    (a : FrameAllocator) (ahead : List ℕ) (out : FrameAllocator × Bool)
    → Selected (record a { descriptor_index = a.descriptor_index + 1 }) ahead out
    → Selected a ahead out
skip-Selected a ahead out r = record {
  valid = r.valid;
  held = r.held;
  same_list = r.same_list;
  same_count = r.same_count;
  found = r.found;
  missed = r.missed;
}

select_loop-Selected :
    (n : ℕ) (a : FrameAllocator)
    → IsValid a
    → a.remaining_pages ≡ 0
    → n ≡ rounds_left a
    → Selected a (upcoming a.memory_map a.descriptor_size a.descriptor_index n) (select_loop n a)
unfolding select_loop
select_loop-Selected zero a v e q = record {
  valid = v;
  held =
      ap₂
        (λ r k.
          frames a.next_frame r ++ upcoming a.memory_map a.descriptor_size a.descriptor_index k)
        e (sym q);
  same_list = refl;
  same_count = refl;
  found = λ h. cc;
  missed = λ h. refl;
}
select_loop-Selected (suc n) a v e q = elim (Bool-cases (is_usable d)) [
  | inl h ↦ rw h (enter-Selected n a d v (v.regions a.descriptor_index (omega arith)) h q)
  | inr h ↦ rw h (
      skip-Selected a _ _ (
        select_loop-Selected n (record a { descriptor_index = a.descriptor_index + 1 })
          (record {
            regions = v.regions;
            room = v.room;
            count_in = v.count_in;
            frame_in = v.frame_in;
          })
          e (omega arith)))
]
  where
    d : Descriptor
    d = a.memory_map (word (a.descriptor_index * a.descriptor_size))

recycled_of_pos :
    (l : List ℕ) (n : ℕ) → 0 < n → recycled l n ≡ get_or l (n - 1) 0 ∷ recycled l (n - 1)
recycled_of_pos l zero h = absurd (omega arith)
recycled_of_pos l (suc n) h = ap (λ k. get_or l k 0 ∷ recycled l k) (omega arith)

frames_of_pos : (start n : ℕ) → 0 < n → frames start n ≡ start ∷ frames (start + page_size) (n - 1)
frames_of_pos start zero h = absurd (omega arith)
frames_of_pos start (suc n) h = ap (λ k. start ∷ frames (start + page_size) k) (omega arith)

-- A call took the first available frame.
record Took (a : FrameAllocator) (out : ℕ × FrameAllocator) : Type 0 where
  valid : IsValid out.1
  frame : out.0 ≡ first (available a)
  left : available out.1 ≡ rest (available a)

take_frame-Took :
    (a b : FrameAllocator)
    → IsValid b
    → 0 < b.remaining_pages
    → b.free_count ≡ 0
    → available a ≡ unused b
    → Took a (take_frame b)
unfolding take_frame
take_frame-Took a b v pos z q = record {
  valid = record {
    regions = v.regions;
    room = v.room;
    count_in = v.count_in;
    frame_in = omega arith;
  };
  frame = sym (ap first held);
  left =
      ap (λ n. recycled b.free_list n ++ (frames next left_over ++ ahead)) z
      ∙ (ap₂ (λ x y. frames x y ++ ahead) (omega arith) (omega arith) ∙ sym (ap rest held));
}
  where
    ahead : List ℕ
    ahead = upcoming b.memory_map b.descriptor_size b.descriptor_index (rounds_left b)

    next : ℕ
    next = word (b.next_frame + page_size)

    left_over : ℕ
    left_over = sub_word b.remaining_pages 1

    held :
        available a
        ≡ b.next_frame ∷ (frames (b.next_frame + page_size) (b.remaining_pages - 1) ++ ahead)
    held = q ∙ ap (λ l. l ++ ahead) (frames_of_pos b.next_frame b.remaining_pages pos)

recycle-Took :
    (a : FrameAllocator)
    → IsValid a
    → 0 < a.free_count
    → Took a (
      get_or a.free_list (a.free_count - 1) 0,
      record a { free_count = a.free_count - 1; allocated_pages = word (a.allocated_pages + 1) },
    )
recycle-Took a v pos = record {
  valid = record {
    regions = v.regions;
    room = v.room;
    count_in = omega arith;
    frame_in = v.frame_in;
  };
  frame = sym (ap first held);
  left = sym (ap rest held);
}
  where
    held :
        available a
        ≡ get_or a.free_list (a.free_count - 1) 0
          ∷ (recycled a.free_list (a.free_count - 1) ++ unused a)
    held = ap (λ l. l ++ unused a) (recycled_of_pos a.free_list a.free_count pos)

select-Took :
    (a : FrameAllocator)
    → IsValid a
    → a.free_count ≡ 0
    → a.remaining_pages ≡ 0
    → Took a (let (b, found) = select_next_region a in if found then take_frame b else (0, b))
unfolding select_next_region
select-Took a v z e =
    let r = select_loop-Selected (rounds_left a) a v e refl in
    elim (Bool-cases (select_loop (rounds_left a) a).1) [
      | inl h ↦ rw h (
          take_frame-Took a (select_loop (rounds_left a) a).0 r.valid (r.found h) (r.same_count ∙ z)
            (empty ∙ sym r.held))
      | inr h ↦ rw h (record {
        valid = r.valid;
        frame = sym (ap first (empty ∙ r.missed h));
        left =
            ap
              (λ n.
                recycled (select_loop (rounds_left a) a).0.free_list n
                ++ unused (select_loop (rounds_left a) a).0)
              (r.same_count ∙ z)
            ∙ (r.held ∙ (r.missed h ∙ sym (ap rest (empty ∙ r.missed h))));
      })
    ]
  where
    empty : available a ≡ upcoming a.memory_map a.descriptor_size a.descriptor_index (rounds_left a)
    empty =
        ap₂
          (λ n k.
            recycled a.free_list n
            ++ (frames a.next_frame k
                ++ upcoming a.memory_map a.descriptor_size a.descriptor_index (rounds_left a)))
          z e

frame_allocate-Took : (a : FrameAllocator) → IsValid a → Took a (frame_allocate a)
unfolding frame_allocate
frame_allocate-Took a v = elim (Bool-cases (ltb 0 a.free_count)) [
  | inl h ↦ rw h (recycle-Took a v (ground arith))
  | inr h ↦ elim (Bool-cases (a.remaining_pages == 0)) [
    | inl e ↦ rw (h, e) (select-Took a v (ground arith) (ground arith))
    | inr e ↦
        rw (h, e)
          (take_frame-Took a a v (ground arith) (ground arith)
            (ap (λ n. recycled a.free_list n ++ unused a) {y = 0} (ground arith)))
  ]
]

-- On a valid allocator `frame_allocate` returns the first available frame, or 0 where there is
-- none, leaves the other frames available in their order, and keeps the allocator valid.
pub frame_allocate_refines :
    (a : FrameAllocator)
    → IsValid a
    → ((frame_allocate a).0 ≡ first (available a))
      × (available (frame_allocate a).1 ≡ rest (available a))
      × IsValid (frame_allocate a).1
frame_allocate_refines a v = let r = frame_allocate-Took a v in (r.frame, r.left, r.valid)
