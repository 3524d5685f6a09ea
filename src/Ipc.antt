-- ===== src/Ipc.antt =====
-- The message queue of src/kernel/ipc.c. Each call runs whole between `ipc_lock` and `ipc_unlock`,
-- so the state is passed from call to call and the lock itself is left out. The array of messages
-- and the array of flags are lists of 32.
pub mod Scan
pub mod Inv
pub mod Transfer
pub mod RoundTrip
pub mod SelfTest
mod Tests
use asas_os.Common.{
  ℕ, zero, suc, ◌+◌, ◌%◌, Bool, true, false, not, ◌&&◌, ◌||◌, Option, none, some, List, [], ◌∷◌,
  leb, ltb, ◌==◌, if◌then◌else◌, get_or, set, replicate,
}
use asas_os.Common.Words.{word32, sub_word32}

abbrev pub capacity : ℕ
capacity = 32

abbrev pub message_size : ℕ
message_size = 64

-- `ASAS_IPC_MESSAGE`; `bytes` is the array `data` of 64 bytes.
pub record Message : Type 0 where
  pub sender_pid : ℕ
  pub receiver_pid : ℕ
  pub size : ℕ
  pub bytes : List ℕ

-- What an index out of range would read.
abbrev pub no_message : Message
no_message = record { sender_pid = 0; receiver_pid = 0; size = 0; bytes = [] }

pub record Queue : Type 0 where
  pub slots : List Message
  pub used : List Bool
  pub head : ℕ
  pub tail : ℕ
  pub count : ℕ

abbrev pub is_used : Queue → ℕ → Bool
is_used q slot = get_or q.used slot false

-- `ipc_initialize`, which leaves the messages as they were.
pub initialize : Queue → Queue
initialize q = record q { used = replicate capacity false; head = 0; tail = 0; count = 0 }

-- `while (!stop(at)) at = (at + 1) % IPC_QUEUE_CAPACITY;` with fuel; `none` means that it ran out.
pub advance : (ℕ → Bool) → ℕ → ℕ → Option ℕ
advance stop zero at = none
advance stop (suc fuel) at =
    let more = advance stop fuel ((at + 1) % capacity) in if stop at then some at else more

-- The loop that copies `n` bytes from index `i` on.
pub copy_bytes : (ℕ → ℕ) → ℕ → ℕ → List ℕ → List ℕ
copy_bytes source zero i target = target
copy_bytes source (suc n) i target = copy_bytes source n (i + 1) (set target i (source i))

-- The writes to the slot that `ipc_send` has found.
pub store : Queue → ℕ → ℕ → ℕ → (ℕ → ℕ) → ℕ → Queue
store q slot sender_pid receiver_pid source size = record q {
  slots = set q.slots slot (record {
    sender_pid = sender_pid;
    receiver_pid = receiver_pid;
    size = size;
    bytes = copy_bytes source size 0 (get_or q.slots slot no_message).bytes;
  });
  used = set q.used slot true;
  tail = (slot + 1) % capacity;
  count = word32 (q.count + 1);
}

-- `none` means that the search for a free slot did not end.
pub send : Queue → ℕ → ℕ → (ℕ → ℕ) → ℕ → Option (Bool × Queue)
send q sender_pid receiver_pid source size =
    if ltb message_size size || leb capacity q.count
    then some (false, q)
    else elim (advance (λ slot. not (is_used q slot)) capacity q.tail) [
      | none ↦ none
      | some slot ↦ some (true, store q slot sender_pid receiver_pid source size)
    ]

-- The test of the `for` loop of `ipc_receive`.
abbrev pub is_for : Queue → ℕ → ℕ → Bool
is_for q receiver_pid slot =
    is_used q slot && (get_or q.slots slot no_message).receiver_pid == receiver_pid

-- That loop, with the rounds that are left.
pub find_slot : Queue → ℕ → ℕ → ℕ → Option ℕ
find_slot q receiver_pid zero index = none
find_slot q receiver_pid (suc rounds) index =
    let slot = (q.head + index) % capacity in
    let more = find_slot q receiver_pid rounds (index + 1) in
    if is_for q receiver_pid slot then some slot else more

-- The queue once a slot is released, with `head` moved on; `none` if that loop did not end.
pub release : Queue → ℕ → Option Queue
release q slot =
    let q' = record q { used = set q.used slot false; count = sub_word32 q.count 1 } in
    if q'.count == 0
    then some (record q' { head = 0; tail = 0 })
    else elim (advance (is_used q') capacity q'.head) [
      | none ↦ none
      | some head ↦ some (record q' { head = head })
    ]

-- The message is absent where the call returns 0.
pub receive : Queue → ℕ → Option (Option Message × Queue)
receive q receiver_pid = elim (find_slot q receiver_pid capacity 0) [
  | none ↦ some (none, q)
  | some slot ↦ elim (release q slot) [
    | none ↦ none
    | some q' ↦ some (some (get_or q.slots slot no_message), q')
  ]
]

-- The four bytes that the self test sends.
abbrev pub payload : ℕ → ℕ
payload j = get_or (65 ∷ 83 ∷ 65 ∷ 83 ∷ []) j 0

abbrev pub is_sent : Message → Bool
is_sent m =
    (m.sender_pid == 1 && m.receiver_pid == 2)
    && (m.size == 4 && (get_or m.bytes 0 0 == 65 && get_or m.bytes 3 0 == 83))

-- `none` where a call does not end.
pub self_test : Queue → Option (Bool × Queue)
self_test q = elim (send (initialize q) 1 2 payload 4) [
  | none ↦ none
  | some (false, q') ↦ some (false, q')
  | some (true, q') ↦ elim (receive q' 2) [
    | none ↦ none
    | some (none, q'') ↦ some (false, q'')
    | some (some m, q'') ↦ some (is_sent m, q'')
  ]
]
