-- ===== src/Frames.antt =====
-- The physical frame allocator of src/kernel/memory.c. A byte offset into the firmware's memory map
-- reads a descriptor; the array `free_list` is a list of 256 numbers.
pub mod Available
pub mod Refine
pub mod Recycle
mod Tests
use asas_os.Common.{
  ℕ, zero, suc, ◌+◌, ◌-◌, ◌*◌, ◌/◌, ◌%◌, Bool, true, false, not, ◌&&◌, ◌||◌, List, leb, ltb, ◌==◌,
  if◌then◌else◌, get_or, set,
}
use asas_os.Common.Words.{word, word32, sub_word}

abbrev pub efi_conventional_memory : ℕ
efi_conventional_memory = 7

abbrev pub page_size : ℕ
page_size = 4096

abbrev pub low_memory_reserve : ℕ
low_memory_reserve = 0x100000

abbrev pub frame_free_list_capacity : ℕ
frame_free_list_capacity = 256

-- `EFI_MEMORY_DESCRIPTOR`, the fields that the kernel reads.
pub record Descriptor : Type 0 where
  pub kind : ℕ
  pub physical_start : ℕ
  pub number_of_pages : ℕ

-- `ASAS_FRAME_ALLOCATOR`
pub record FrameAllocator : Type 0 where
  pub memory_map : ℕ → Descriptor
  pub memory_map_size : ℕ
  pub descriptor_size : ℕ
  pub descriptor_index : ℕ
  pub next_frame : ℕ
  pub remaining_pages : ℕ
  pub allocated_pages : ℕ
  pub free_list : List ℕ
  pub free_count : ℕ

pub region_end : Descriptor → ℕ
region_end d = word (d.physical_start + word (d.number_of_pages * page_size))

-- Where the usable part of a region starts.
pub usable_start : Descriptor → ℕ
usable_start d =
    if ltb d.physical_start low_memory_reserve then low_memory_reserve else d.physical_start

-- The test of a descriptor, and that its region does not end below the reserve.
pub is_usable : Descriptor → Bool
unfolding region_end
is_usable d =
    (d.kind == efi_conventional_memory && not (d.number_of_pages == 0))
    && not (leb (region_end d) low_memory_reserve)

abbrev pub descriptor_count : FrameAllocator → ℕ
descriptor_count a = a.memory_map_size / a.descriptor_size

-- The rounds of the `while` loop that are left; `none` is the loop's end.
pub select_loop : ℕ → FrameAllocator → FrameAllocator × Bool
select_loop zero a = (a, false)
select_loop (suc rounds) a =
    let d = a.memory_map (word (a.descriptor_index * a.descriptor_size)) in
    let a' = record a { descriptor_index = a.descriptor_index + 1 } in
    let rest = select_loop rounds a' in
    if is_usable d
    then (
      record a' {
        next_frame = usable_start d;
        remaining_pages = (sub_word (region_end d) (usable_start d)) / page_size;
      },
      true,
    )
    else rest

pub select_next_region : FrameAllocator → FrameAllocator × Bool
select_next_region a = select_loop (descriptor_count a - a.descriptor_index) a

-- `frame_allocator_initialize`, which leaves the array `free_list` as it was.
pub initialize : FrameAllocator → (ℕ → Descriptor) → ℕ → ℕ → FrameAllocator
initialize a memory_map memory_map_size descriptor_size = record {
  memory_map = memory_map;
  memory_map_size = memory_map_size;
  descriptor_size = descriptor_size;
  descriptor_index = 0;
  next_frame = 0;
  remaining_pages = 0;
  allocated_pages = 0;
  free_list = a.free_list;
  free_count = 0;
}

-- The end of `frame_allocate`: the next frame of the region.
pub take_frame : FrameAllocator → ℕ × FrameAllocator
take_frame a = (
  a.next_frame,
  record a {
    next_frame = word (a.next_frame + page_size);
    remaining_pages = sub_word a.remaining_pages 1;
    allocated_pages = word (a.allocated_pages + 1);
  },
)

pub frame_allocate : FrameAllocator → ℕ × FrameAllocator
frame_allocate a =
    if ltb 0 a.free_count
    then (
      get_or a.free_list (a.free_count - 1) 0,
      record a { free_count = a.free_count - 1; allocated_pages = word (a.allocated_pages + 1) },
    )
    else if a.remaining_pages == 0
    then (let (a', found) = select_next_region a in if found then take_frame a' else (0, a'))
    else take_frame a

pub frame_free : FrameAllocator → ℕ → FrameAllocator
frame_free a frame =
    if frame == 0 || not (frame % page_size == 0)
    then a
    else if ltb a.free_count frame_free_list_capacity
    then record a {
      free_list = set a.free_list a.free_count frame;
      free_count = word32 (a.free_count + 1);
      allocated_pages = sub_word a.allocated_pages 1;
    }
    else a

pub frame_allocator_allocated_pages : FrameAllocator → ℕ
frame_allocator_allocated_pages a = a.allocated_pages
