-- ===== src/Ipc/Inv.antt =====
-- The invariant of the queue of src/kernel/ipc.c, and that every call keeps it.
use asas_os.Common.{
  ℕ, zero, suc, ◌+◌, ◌≤◌, ◌<◌, ◌≡◌, refl, sym, ◌∙◌, ap, Bool, true, false, not, some, List, arith,
  Bool-cases, inl, inr, if◌then◌else◌, length, length-set, get_or, set, leb, ltb, ◌==◌, ◌&&◌,
  ℕ_discrete, get_or-set_self, get_or-set_ne,
}
use asas_os.Common.Words.{sub_word32}
use asas_os.Ipc.{
  Queue, Message, no_message, capacity, message_size, is_used, copy_bytes, initialize, advance,
  store, release,
}
use asas_os.Ipc.Scan.{advance-total, count_used, count_used-lt, count_used-pos, count_used-set}

-- The arrays have their sizes, the indices lie in them, and `count` counts the used slots.
pub record IsValid (q : Queue) : Type 0 where
  pub slots_size : length q.slots ≡ capacity
  pub used_size : length q.used ≡ capacity
  pub head_in : q.head < capacity
  pub tail_in : q.tail < capacity
  pub counted : q.count ≡ count_used q.used
  pub count_in : q.count ≤ capacity
  pub data_size : (i : ℕ) → i < capacity → length (get_or q.slots i no_message).bytes ≡ message_size

-- `ipc_initialize` leaves a valid empty queue, whatever the flags were.
pub initialize-IsValid :
    (q : Queue)
    → length q.slots ≡ capacity
    → ((i : ℕ) → i < capacity → length (get_or q.slots i no_message).bytes ≡ message_size)
    → IsValid (initialize q) × ((initialize q).count ≡ 0)
unfolding initialize
initialize-IsValid q h d = (
  record {
    slots_size = h;
    used_size = refl;
    head_in = omega arith;
    tail_in = omega arith;
    counted = refl;
    count_in = omega arith;
    data_size = d;
  },
  refl,
)

-- While the queue is not full, the search of `ipc_send` ends at a free slot.
pub free_slot :
    (q : Queue)
    → IsValid q
    → q.count < capacity
    → (slot : ℕ) × (advance (λ s. not (is_used q s)) capacity q.tail ≡ some slot)
      × (is_used q slot ≡ false)
      × (slot < capacity)
free_slot q v h =
    let (j, below, f) = count_used-lt q.used (omega arith) in
    let (slot, e, s, lt) =
      advance-total (λ s. not (is_used q s)) q.tail j v.tail_in (omega arith) (rw f) in
    (slot, e, ground arith, lt)

pub length-copy_bytes :
    (source : ℕ → ℕ) (n i : ℕ) (target : List ℕ)
    → length (copy_bytes source n i target) ≡ length target
unfolding copy_bytes
length-copy_bytes source zero i target = refl
length-copy_bytes source (suc n) i target =
    length-copy_bytes source n (i + 1) (set target i (source i)) ∙ length-set target i (source i)

-- Below `i + n` the copy has written; beyond it the target keeps what it held.
pub get_or-copy_bytes :
    (source : ℕ → ℕ) (n i : ℕ) (target : List ℕ) (j : ℕ)
    → i + n ≤ length target
    → get_or (copy_bytes source n i target) j 0
      ≡ (if leb i j && ltb j (i + n) then source j else get_or target j 0)
unfolding copy_bytes
get_or-copy_bytes source zero i target j h = ground arith
get_or-copy_bytes source (suc n) i target j h = elim (ℕ_discrete i j) [
  | yes e ↦ ground (
    arith,
    length-set target i (source i),
    get_or-copy_bytes source n (i + 1) (set target i (source i)) j,
    get_or-set_self target i (source i) 0,
  )
  | no ne ↦ ground (
    arith,
    length-set target i (source i),
    get_or-copy_bytes source n (i + 1) (set target i (source i)) j,
    get_or-set_ne target i j (source i) 0,
  )
]

pub store-IsValid :
    (q : Queue) (slot sender receiver size : ℕ) (source : ℕ → ℕ)
    → IsValid q
    → q.count < capacity
    → slot < capacity
    → is_used q slot ≡ false
    → IsValid (store q slot sender receiver source size)
unfolding store
store-IsValid q slot sender receiver size source v room lt f = record {
  slots_size = length-set q.slots slot _ ∙ v.slots_size;
  used_size = length-set q.used slot true ∙ v.used_size;
  head_in = v.head_in;
  tail_in = omega arith;
  counted = ground (arith, count_used-set q.used slot true);
  count_in = omega arith;
  data_size = λ i below. sized i below;
}
  where
    written : Message
    written = record {
      sender_pid = sender;
      receiver_pid = receiver;
      size = size;
      bytes = copy_bytes source size 0 (get_or q.slots slot no_message).bytes;
    }

    sized :
        (i : ℕ)
        → i < capacity
        → length (get_or (set q.slots slot written) i no_message).bytes ≡ message_size
    sized i below = elim (ℕ_discrete slot i) [
      | yes e ↦
          ap (λ k. length (get_or (set q.slots slot written) k no_message).bytes) (sym e)
          ∙ (ap (λ m. length m.bytes)
                (get_or-set_self q.slots slot written no_message (omega arith))
              ∙ (length-copy_bytes source size 0 (get_or q.slots slot no_message).bytes
                  ∙ v.data_size slot lt))
      | no ne ↦
          ap (λ m. length m.bytes) (get_or-set_ne q.slots slot i written no_message ne)
          ∙ v.data_size i below
    ]

-- What `ipc_receive` leaves once it has taken the message of a used slot: the search for the next
-- head ends, and the slot is free.
pub release-IsValid :
    (q : Queue) (slot : ℕ)
    → IsValid q
    → slot < capacity
    → is_used q slot ≡ true
    → (q' : Queue) × (release q slot ≡ some q')
      × IsValid q'
      × (q'.used ≡ set q.used slot false)
      × (q'.slots ≡ q.slots)
      × (q'.count + 1 ≡ q.count)
unfolding release
release-IsValid q slot v lt u = elim (Bool-cases (sub_word32 q.count 1 == 0)) [
  | inl z ↦ (
    record q { used = used'; count = sub_word32 q.count 1; head = 0; tail = 0 },
    rw z,
    record {
      slots_size = v.slots_size;
      used_size = size';
      head_in = omega arith;
      tail_in = omega arith;
      counted = counted';
      count_in = omega (arith, drop);
      data_size = v.data_size;
    },
    refl,
    refl,
    omega (arith, drop),
  )
  | inr nz ↦
      let (j, below, s) = count_used-pos used' (ground (arith, drop)) in
      let (head, e, t, hlt) =
        advance-total (λ k. get_or used' k false) q.head j v.head_in (omega (arith, size')) s in
      (
        record q { used = used'; count = sub_word32 q.count 1; head = head },
        rw (nz, e),
        record {
          slots_size = v.slots_size;
          used_size = size';
          head_in = hlt;
          tail_in = v.tail_in;
          counted = counted';
          count_in = omega (arith, drop);
          data_size = v.data_size;
        },
        refl,
        refl,
        omega (arith, drop),
      )
]
  where
    used' : List Bool
    used' = set q.used slot false

    size' : length used' ≡ capacity
    size' = length-set q.used slot false ∙ v.used_size

    drop : count_used used' + 1 ≡ count_used q.used
    drop = ground (arith, count_used-set q.used slot false)

    counted' : sub_word32 q.count 1 ≡ count_used used'
    counted' = omega (arith, drop)
