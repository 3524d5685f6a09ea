-- ===== src/Keyboard/Ring.antt =====
-- The ring of src/kernel/keyboard.c is a bounded FIFO of 63 characters.
use asas_os.Common.{
  ℕ, zero, suc, ◌+◌, ◌-◌, ◌%◌, ◌<◌, ◌≡◌, refl, sym, ◌∙◌, ap, ap₂, Bool, false, Option, none, some,
  List, [], ◌∷◌, ◌++◌, arith, ltb, lt→ltb, ◌==◌, if◌then◌else◌, get_or, set, length, length-set,
  get_or-set_self, get_or-set_ne, Bool-cases, inl, inr,
}
use asas_os.Keyboard.{Keyboard, ring_size, queue_character, read_character, reset}

-- `n` characters from index `at` on, round the end of the array.
abbrev window : List ℕ → ℕ → ℕ → List ℕ
window buf at zero = []
window buf at (suc n) = get_or buf at 0 ∷ window buf ((at + 1) % ring_size) n

abbrev pub waiting : Keyboard → ℕ
waiting k = (k.queue_write + ring_size - k.queue_read) % ring_size

-- The characters that wait to be read, the oldest first.
abbrev pub contents : Keyboard → List ℕ
contents k = window k.character_queue k.queue_read (waiting k)

pub record IsValid (k : Keyboard) : Type 0 where
  pub room : length k.character_queue ≡ ring_size
  pub read_in : k.queue_read < ring_size
  pub write_in : k.queue_write < ring_size

length-window : (buf : List ℕ) (at n : ℕ) → length (window buf at n) ≡ n
length-window buf at zero = refl
length-window buf at (suc n) = ap suc (length-window buf ((at + 1) % ring_size) n)

window_of_pos :
    (buf : List ℕ) (at n : ℕ)
    → 0 < n
    → window buf at n ≡ get_or buf at 0 ∷ window buf ((at + 1) % ring_size) (n - 1)
window_of_pos buf at zero h = absurd (omega arith)
window_of_pos buf at (suc n) h =
    ap (λ m. get_or buf at 0 ∷ window buf ((at + 1) % ring_size) m) (omega arith)

-- A character written just behind a window is the last one of the longer window.
window-set :
    (buf : List ℕ) (at n i c : ℕ)
    → length buf ≡ ring_size
    → at < ring_size
    → n < ring_size
    → i ≡ (at + n) % ring_size
    → window (set buf i c) at (suc n) ≡ window buf at n ++ (c ∷ [])
window-set buf at zero i c hl ha hn e =
    let here : at ≡ i = omega arith in
    ap (λ x. x ∷ [])
      (ap (λ j. get_or (set buf i c) j 0) here ∙ get_or-set_self buf i c 0 (omega arith))
window-set buf at (suc n) i c hl ha hn e =
    ap₂ ◌∷◌ (get_or-set_ne buf i at c 0 (omega arith))
      (window-set buf ((at + 1) % ring_size) n i c hl (omega arith) (omega arith) (omega arith))

queued :
    (k : Keyboard) (c : ℕ)
    → IsValid k
    → waiting k < 63
    → window
        (set k.character_queue k.queue_write c)
        k.queue_read
        (((k.queue_write + 1) % ring_size + ring_size - k.queue_read) % ring_size)
      ≡ contents k ++ (c ∷ [])
queued k c v h =
    ap (window (set k.character_queue k.queue_write c) k.queue_read) {y = suc (waiting k)}
      (omega arith)
    ∙ window-set k.character_queue k.queue_read (waiting k) k.queue_write c v.room v.read_in
        (omega arith) (omega arith)

-- On a valid ring `queue_character` appends the character while fewer than 63 wait, drops it
-- otherwise, and keeps the ring valid.
pub queue_character_refines :
    (k : Keyboard) (c : ℕ)
    → IsValid k
    → (contents (queue_character k c)
        ≡ (if ltb (length (contents k)) 63 then contents k ++ (c ∷ []) else contents k))
      × IsValid (queue_character k c)
unfolding queue_character
queue_character_refines k c v =
    elim (Bool-cases ((k.queue_write + 1) % ring_size == k.queue_read)) [
      | inl full ↦ rw full (sym (ap choose (shut (ground arith))), v)
      | inr room ↦
          let small : waiting k < 63 = ground arith in
          rw room (
            queued k c v small ∙ sym (ap choose (lt→ltb (length (contents k)) 63 (rw size small))),
            record {
              room = length-set k.character_queue k.queue_write c ∙ v.room;
              read_in = v.read_in;
              write_in = omega arith;
            },
          )
    ]
  where
    size : length (contents k) ≡ waiting k
    size = length-window k.character_queue k.queue_read (waiting k)

    choose : Bool → List ℕ
    choose b = if b then contents k ++ (c ∷ []) else contents k

    shut : waiting k ≡ 63 → ltb (length (contents k)) 63 ≡ false
    shut h = ground (arith, size)

-- What a read of a FIFO returns and leaves.
abbrev pub dequeue : List ℕ → Option ℕ × List ℕ
dequeue [] = (none, [])
dequeue (c ∷ l) = (some c, l)

taken :
    (k : Keyboard)
    → IsValid k
    → 0 < waiting k
    → (
      some (get_or k.character_queue k.queue_read 0),
      window k.character_queue
          ((k.queue_read + 1) % ring_size)
          ((k.queue_write + ring_size - (k.queue_read + 1) % ring_size) % ring_size),
    )
      ≡ dequeue (contents k)
taken k v h =
    ap
      (λ n. (
        some (get_or k.character_queue k.queue_read 0),
        window k.character_queue ((k.queue_read + 1) % ring_size) n,
      ))
      (omega arith)
    ∙ ap dequeue (sym (window_of_pos k.character_queue k.queue_read (waiting k) h))

-- On a valid ring `keyboard_read_character` removes and returns the oldest character, or returns
-- none where no character waits, and keeps the ring valid.
pub read_character_refines :
    (k : Keyboard)
    → IsValid k
    → (((read_character k).0, contents (read_character k).1) ≡ dequeue (contents k))
      × IsValid (read_character k).1
unfolding read_character
read_character_refines k v = elim (Bool-cases (k.queue_read == k.queue_write)) [
  | inl none_left ↦ rw none_left (empty (ground arith), v)
  | inr some_left ↦ rw some_left (
    taken k v (ground arith),
    record { room = v.room; read_in = omega arith; write_in = v.write_in },
  )
]
  where
    empty : waiting k ≡ 0 → (none, contents k) ≡ dequeue (contents k)
    empty h =
        ap (λ n. (none, window k.character_queue k.queue_read n)) h
        ∙ sym (ap (λ n. dequeue (window k.character_queue k.queue_read n)) h)

-- After the reset of `keyboard_initialize` no character waits.
pub contents-reset :
    (k : Keyboard)
    → length k.character_queue ≡ ring_size
    → (contents (reset k) ≡ []) × IsValid (reset k)
unfolding reset
contents-reset k h = (refl, record { room = h; read_in = omega arith; write_in = omega arith })
