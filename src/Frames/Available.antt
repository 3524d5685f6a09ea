-- ===== src/Frames/Available.antt =====
-- What the allocator of src/kernel/memory.c can still hand out, as a list of frames.
use asas_os.Common.{
  ℕ, zero, suc, ◌+◌, ◌-◌, ◌*◌, ◌/◌, ◌%◌, ◌≤◌, ◌<◌, ◌^◌, ◌≡◌, List, [], ◌∷◌, ◌++◌, length, get_or,
  if◌then◌else◌,
}
use asas_os.Common.Words.{word, sub_word}
use asas_os.Frames.{
  Descriptor, FrameAllocator, page_size, frame_free_list_capacity, region_end, usable_start,
  is_usable, descriptor_count,
}

-- `n` frames from `start` on.
abbrev pub frames : ℕ → ℕ → List ℕ
frames start zero = []
frames start (suc n) = start ∷ frames (start + page_size) n

-- The recycled frames, the last one freed first.
abbrev pub recycled : List ℕ → ℕ → List ℕ
recycled l zero = []
recycled l (suc n) = get_or l n 0 ∷ recycled l n

abbrev pub region_frames : Descriptor → List ℕ
region_frames d =
    if is_usable d
    then frames (usable_start d) ((sub_word (region_end d) (usable_start d)) / page_size)
    else []

-- The frames of `n` descriptors from index `i` on.
abbrev pub upcoming : (ℕ → Descriptor) → ℕ → ℕ → ℕ → List ℕ
upcoming m size i zero = []
upcoming m size i (suc n) = region_frames (m (word (i * size))) ++ upcoming m size (i + 1) n

abbrev pub rounds_left : FrameAllocator → ℕ
rounds_left a = descriptor_count a - a.descriptor_index

abbrev pub available : FrameAllocator → List ℕ
available a =
    recycled a.free_list a.free_count
    ++ (frames a.next_frame a.remaining_pages
        ++ upcoming a.memory_map a.descriptor_size a.descriptor_index (rounds_left a))

-- What UEFI promises of a descriptor: it starts on a page, and its region ends below 2 ^ 64.
pub record IsRegion (d : Descriptor) : Type 0 where
  pub aligned : d.physical_start % page_size ≡ 0
  pub fits : d.physical_start + d.number_of_pages * page_size < 2 ^ 64

pub record IsValid (a : FrameAllocator) : Type 0 where
  pub regions :
      (i : ℕ) → i < descriptor_count a → IsRegion (a.memory_map (word (i * a.descriptor_size)))
  pub room : length a.free_list ≡ frame_free_list_capacity
  pub count_in : a.free_count ≤ frame_free_list_capacity
  pub frame_in : a.next_frame + a.remaining_pages * page_size < 2 ^ 64
