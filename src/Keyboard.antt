-- ===== src/Keyboard.antt =====
-- The PS/2 keyboard of src/kernel/keyboard.c: its ring of characters and its handlers. The ports are
-- an argument: the scancodes that the controller holds, in order.
pub mod Ring
pub mod Handlers
mod Tests
use asas_os.Common.{
  ℕ, zero, suc, ◌+◌, ◌/◌, ◌%◌, Bool, true, false, not, ◌||◌, Option, none, some, List, [], ◌∷◌, leb,
  ltb, ◌==◌, if◌then◌else◌, get_or, set, length,
}
use asas_os.Common.Words.{word}

abbrev pub ring_size : ℕ
ring_size = 64

-- The static variables of the file.
pub record Keyboard : Type 0 where
  pub interrupt_count : ℕ
  pub last_scancode : ℕ
  pub character_queue : List ℕ
  pub queue_read : ℕ
  pub queue_write : ℕ
  pub shift_pressed : Bool

normal : List ℕ
normal =
    0 ∷ 0 ∷ 49 ∷ 50 ∷ 51 ∷ 52 ∷ 53 ∷ 54 ∷ 55 ∷ 56 ∷ 57 ∷ 48 ∷ 45 ∷ 61 ∷ 8 ∷ 9 ∷ 113 ∷ 119 ∷ 101
    ∷ 114 ∷ 116 ∷ 121 ∷ 117 ∷ 105 ∷ 111 ∷ 112 ∷ 91 ∷ 93 ∷ 10 ∷ 0 ∷ 97 ∷ 115 ∷ 100 ∷ 102 ∷ 103 ∷ 104
    ∷ 106 ∷ 107 ∷ 108 ∷ 59 ∷ 39 ∷ 96 ∷ 0 ∷ 92 ∷ 122 ∷ 120 ∷ 99 ∷ 118 ∷ 98 ∷ 110 ∷ 109 ∷ 44 ∷ 46 ∷ 47
    ∷ 0 ∷ 42 ∷ 0 ∷ 32 ∷ []

shifted : List ℕ
shifted =
    0 ∷ 0 ∷ 33 ∷ 64 ∷ 35 ∷ 36 ∷ 37 ∷ 94 ∷ 38 ∷ 42 ∷ 40 ∷ 41 ∷ 95 ∷ 43 ∷ 8 ∷ 9 ∷ 81 ∷ 87 ∷ 69 ∷ 82
    ∷ 84 ∷ 89 ∷ 85 ∷ 73 ∷ 79 ∷ 80 ∷ 123 ∷ 125 ∷ 10 ∷ 0 ∷ 65 ∷ 83 ∷ 68 ∷ 70 ∷ 71 ∷ 72 ∷ 74 ∷ 75 ∷ 76
    ∷ 58 ∷ 34 ∷ 126 ∷ 0 ∷ 124 ∷ 90 ∷ 88 ∷ 67 ∷ 86 ∷ 66 ∷ 78 ∷ 77 ∷ 60 ∷ 62 ∷ 63 ∷ 0 ∷ 42 ∷ 0 ∷ 32
    ∷ []

-- 0 where the key has no character.
pub translate_scancode : Bool → ℕ → ℕ
unfolding normal shifted
translate_scancode shift scancode =
    if leb (length normal) scancode
    then 0
    else if shift
    then get_or shifted scancode 0
    else get_or normal scancode 0

pub queue_character : Keyboard → ℕ → Keyboard
queue_character k character =
    let next = (k.queue_write + 1) % ring_size in
    if next == k.queue_read then k else record k {
      character_queue = set k.character_queue k.queue_write character;
      queue_write = next;
    }

-- What `keyboard_initialize` sets before it looks for a controller.
pub reset : Keyboard → Keyboard
reset k = record k {
  interrupt_count = 0;
  last_scancode = 0;
  queue_read = 0;
  queue_write = 0;
  shift_pressed = false;
}

pub read_character : Keyboard → Option ℕ × Keyboard
read_character k = if k.queue_read == k.queue_write then (none, k) else (
  some (get_or k.character_queue k.queue_read 0),
  record k { queue_read = (k.queue_read + 1) % ring_size },
)

-- `scancode & 0x80`, for a byte: the key is released.
abbrev pub is_release : ℕ → Bool
is_release scancode = not (scancode / 0x80 % 2 == 0)

pub inject_scancode : Keyboard → ℕ → Keyboard
inject_scancode k scancode =
    if scancode == 0x2A || scancode == 0x36
    then record k { shift_pressed = true }
    else if scancode == 0xAA || scancode == 0xB6
    then record k { shift_pressed = false }
    else if is_release scancode
    then k
    else let character = translate_scancode k.shift_pressed scancode in
      if character == 0 then k else queue_character k character

pub inject_character : Keyboard → ℕ → Keyboard
inject_character k character = queue_character k character

-- What `keyboard_interrupt_handler` does with a scancode that it has read.
pub take_scancode : Keyboard → ℕ → Keyboard
take_scancode k scancode =
    let k' = record k {
      last_scancode = scancode;
      interrupt_count = word (k.interrupt_count + 1);
    } in
    if scancode == 0x2A || scancode == 0x36
    then record k' { shift_pressed = true }
    else if scancode == 0xAA || scancode == 0xB6
    then record k' { shift_pressed = false }
    else if scancode / 0x80 % 2 == 0
    then (let character = translate_scancode k'.shift_pressed scancode in
        if not (character == 0) then queue_character k' character else k')
    else k'

-- `keyboard_interrupt_handler`: the argument lists what the controller holds; the first byte is
-- read, and what is left is returned.
pub interrupt_handler : Keyboard → List ℕ → Keyboard × List ℕ
interrupt_handler k [] = (k, [])
interrupt_handler k (scancode ∷ port) = (take_scancode k scancode, port)

-- The loop of `keyboard_poll_controller`, with the rounds that are left.
pub poll : ℕ → Keyboard → List ℕ → Keyboard × List ℕ
poll zero k port = (k, port)
poll (suc limit) k [] = (k, [])
poll (suc limit) k (scancode ∷ port) = poll limit (inject_scancode k scancode) port

pub poll_controller : Keyboard → List ℕ → Keyboard × List ℕ
poll_controller k port = poll 16 k port
