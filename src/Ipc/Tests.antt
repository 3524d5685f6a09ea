-- ===== src/Ipc/Tests.antt =====
-- A queue of src/kernel/ipc.c from its initialization on.
use asas_os.Common.{
  ℕ, zero, suc, ◌+◌, ◌<◌, ◌≡◌, refl, Bool, true, false, Option, some, [], arith, ltb, get_or,
  length, replicate, if◌then◌else◌,
}
use asas_os.Ipc.{
  Message, Queue, no_message, is_used, initialize, capacity, message_size, send, receive, is_for,
}
use asas_os.Ipc.Inv.{IsValid, initialize-IsValid}
use asas_os.Ipc.Transfer.{send-total, receive-total, fits, Delivery}
use asas_os.Ipc.RoundTrip.{receive-send}

abbrev empty : Message
empty = record { sender_pid = 0; receiver_pid = 0; size = 0; bytes = replicate message_size 0 }

abbrev old : Queue
old = record { slots = replicate capacity empty; used = []; head = 3; tail = 4; count = 9 }

abbrev start : Queue
start = initialize old

same_size :
    (n i : ℕ) → i < n → length (get_or (replicate n empty) i no_message).bytes ≡ message_size
same_size zero i h = absurd (omega arith)
same_size (suc n) zero h = refl
same_size (suc n) (suc i) h = same_size n i (omega arith)

start-IsValid : IsValid start
start-IsValid = (initialize-IsValid old refl (same_size capacity)).0

abbrev source : ℕ → ℕ
source j = j + 65

send-total_example :
    (done : Bool) × (q : Queue) × (send start 7 8 source 5 ≡ some (done, q))
    × IsValid q
    × (done ≡ fits start 5)
    × (q.count ≡ start.count + (if done then 1 else 0))
    × ((done ≡ false → q ≡ start))
send-total_example = send-total start 7 8 5 source start-IsValid

receive-total_example :
    (m : Option Message) × (q : Queue) × (receive start 8 ≡ some (m, q))
    × IsValid q
    × Delivery start 8 m q
receive-total_example = receive-total start 8 start-IsValid

unused : (n k : ℕ) → get_or (replicate n false) k false ≡ false
unused zero k = refl
unused (suc n) zero = refl
unused (suc n) (suc k) = unused n k

no_message_for : (k : ℕ) → k < capacity → is_for start 8 k ≡ false
unfolding initialize
no_message_for k h = rw (unused capacity k) refl

receive-send_example :
    (m : Message) × (slot : ℕ) × (q' q'' : Queue) × (send start 7 8 source 5 ≡ some (true, q'))
    × (receive q' 8 ≡ some (some m, q''))
    × (m.sender_pid ≡ 7)
    × (m.receiver_pid ≡ 8)
    × (m.size ≡ 5)
    × (is_used start slot ≡ false)
    × ((j : ℕ)
        → get_or m.bytes j 0
          ≡ (if ltb j 5 then source j else get_or (get_or start.slots slot no_message).bytes j 0))
unfolding initialize
receive-send_example = receive-send start 7 8 5 source start-IsValid refl no_message_for
