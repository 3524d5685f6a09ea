-- ===== src/Frames/Tests.antt =====
-- A memory map of two regions for src/kernel/memory.c.
use asas_os.Common.{
  ℕ, zero, suc, ◌*◌, ◌/◌, ◌<◌, ◌≡◌, ◌↔◌, refl, [], ◌∷◌, arith, ◌==◌, replicate, if◌then◌else◌,
}
use asas_os.Common.Words.{word}
use asas_os.Frames.{
  Descriptor, FrameAllocator, initialize, frame_allocate, frame_free,
  frame_allocator_allocated_pages, frame_free_list_capacity, select_next_region, select_loop,
  region_end, usable_start, is_usable,
}
use asas_os.Frames.Available.{available, IsRegion, IsValid}
use asas_os.Frames.Refine.{first, rest}
use asas_os.Frames.Recycle.{
  frame_allocate_lem, frame_free_refines, initialize_lem, accepts, IsFrame, All,
}

-- A region that is not conventional memory, and one of two pages above the first MiB.
abbrev memory : ℕ → Descriptor
memory at =
    if at == 0
    then record { kind = 3; physical_start = 0; number_of_pages = 16 }
    else record { kind = 7; physical_start = 0x200000; number_of_pages = 2 }

abbrev blank : FrameAllocator
blank = record {
  memory_map = memory;
  memory_map_size = 0;
  descriptor_size = 0;
  descriptor_index = 0;
  next_frame = 0;
  remaining_pages = 0;
  allocated_pages = 0;
  free_list = replicate frame_free_list_capacity 0;
  free_count = 0;
}

memory-IsRegion : (i : ℕ) → i < 96 / 48 → IsRegion (memory (word (i * 48)))
memory-IsRegion zero h = record { aligned = refl; fits = omega arith }
memory-IsRegion (suc zero) h = record { aligned = refl; fits = omega arith }
memory-IsRegion (suc (suc i)) h = absurd (omega arith)

abbrev start : FrameAllocator
start = initialize blank memory 96 48

initialize_lem_example :
    IsValid start × All IsFrame (available start) × (frame_allocator_allocated_pages start ≡ 0)
initialize_lem_example = initialize_lem blank memory 96 48 refl memory-IsRegion

start-IsValid : IsValid start
start-IsValid = (initialize_lem blank memory 96 48 refl memory-IsRegion).0

start-available : available start ≡ 0x200000 ∷ 0x201000 ∷ []
unfolding initialize select_next_region select_loop region_end usable_start is_usable
start-available = refl

frame_allocate_lem_example :
    ((frame_allocate start).0 ≡ first (available start))
    × (((frame_allocate start).0 ≡ 0) ↔ (available start ≡ []))
    × (available (frame_allocate start).1 ≡ rest (available start))
    × All IsFrame (available (frame_allocate start).1)
    × IsValid (frame_allocate start).1
frame_allocate_lem_example =
    frame_allocate_lem start start-IsValid
      (initialize_lem blank memory 96 48 refl memory-IsRegion).1

frame_free_refines_example :
    (available (frame_free start 0x300000)
      ≡ (if accepts start 0x300000 then 0x300000 ∷ available start else available start))
    × IsValid (frame_free start 0x300000)
frame_free_refines_example = frame_free_refines start 0x300000 start-IsValid
