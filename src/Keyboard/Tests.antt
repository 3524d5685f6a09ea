-- ===== src/Keyboard/Tests.antt =====
-- A keyboard of src/kernel/keyboard.c whose ring wraps.
use asas_os.Common.{
  ◌≡◌, refl, true, not, ◌&&◌, [], ◌∷◌, ◌++◌, arith, ltb, ◌==◌, length, replicate, if◌then◌else◌,
  set,
}
use asas_os.Keyboard.{Keyboard, ring_size, queue_character, read_character, inject_scancode}
use asas_os.Keyboard.Ring.{
  IsValid, contents, dequeue, queue_character_refines, read_character_refines,
}
use asas_os.Keyboard.Handlers.{inject_scancode_lem, shift_after, typed}

-- Two characters wait, in the last place and in the first.
abbrev wrapped : Keyboard
wrapped = record {
  interrupt_count = 7;
  last_scancode = 0;
  character_queue = set (set (replicate ring_size 0) 63 104) 0 105;
  queue_read = 63;
  queue_write = 1;
  shift_pressed = true;
}

wrapped-IsValid : IsValid wrapped
wrapped-IsValid = record { room = refl; read_in = omega arith; write_in = omega arith }

queue_character_refines_example :
    (contents (queue_character wrapped 33) ≡ (
      if ltb (length (contents wrapped)) 63
      then contents wrapped ++ (33 ∷ [])
      else contents wrapped))
    × IsValid (queue_character wrapped 33)
queue_character_refines_example = queue_character_refines wrapped 33 wrapped-IsValid

read_character_refines_example :
    (((read_character wrapped).0, contents (read_character wrapped).1) ≡ dequeue (contents wrapped))
    × IsValid (read_character wrapped).1
read_character_refines_example = read_character_refines wrapped wrapped-IsValid

inject_scancode_lem_example :
    ((inject_scancode wrapped 0x1E).shift_pressed ≡ shift_after true 0x1E)
    × (contents (inject_scancode wrapped 0x1E) ≡ (
        if not (typed true 0x1E == 0) && ltb (length (contents wrapped)) 63
        then contents wrapped ++ (typed true 0x1E ∷ [])
        else contents wrapped))
    × IsValid (inject_scancode wrapped 0x1E)
inject_scancode_lem_example = inject_scancode_lem wrapped 0x1E wrapped-IsValid (omega arith)
