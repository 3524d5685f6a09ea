-- ===== src/Ipc/SelfTest.antt =====
-- The self test of src/kernel/ipc.c.
use asas_os.Common.{
  ℕ, zero, suc, ◌<◌, ◌≡◌, refl, ap, true, false, some, arith, get_or, length, replicate,
}
use asas_os.Ipc.{
  Message, Queue, no_message, capacity, message_size, initialize, payload, is_sent, is_for,
  self_test,
}
use asas_os.Ipc.Transfer.{fits}
use asas_os.Ipc.Inv.{initialize-IsValid}
use asas_os.Ipc.RoundTrip.{receive-send}

unused : (n k : ℕ) → get_or (replicate n false) k false ≡ false
unused zero k = refl
unused (suc n) zero = refl
unused (suc n) (suc k) = unused n k

none_waits : (q : Queue) (k : ℕ) → k < capacity → is_for (initialize q) 2 k ≡ false
unfolding initialize
none_waits q k h = rw (unused capacity k) refl

-- The self test ends and passes from every state of the queue.
pub ipc_self_test_lem :
    (q : Queue)
    → length q.slots ≡ capacity
    → ((i : ℕ) → i < capacity → length (get_or q.slots i no_message).bytes ≡ message_size)
    → (out : Queue) × (self_test q ≡ some (true, out))
unfolding self_test initialize
ipc_self_test_lem q h d =
    let valid = (initialize-IsValid q h d).0 in
    let (m, slot, q', q'', sent, received, from, to, size, free, bytes) =
      receive-send (initialize q) 1 2 4 payload valid (fits_start q) (none_waits q) in
    (
      q'',
      rw (sent, received, self_test)
          (ap (λ b. some (b, q'')) (passes m from to size (bytes 0) (bytes 3))),
    )
  where
    fits_start : (q : Queue) → fits (initialize q) 4 ≡ true
    fits_start q = refl

    passes :
        (m : Message)
        → m.sender_pid ≡ 1
        → m.receiver_pid ≡ 2
        → m.size ≡ 4
        → get_or m.bytes 0 0 ≡ 65
        → get_or m.bytes 3 0 ≡ 83
        → is_sent m ≡ true
    passes m a b c e f = ground arith
