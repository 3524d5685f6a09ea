-- ===== src/Ipc/RoundTrip.antt =====
-- A message that `ipc_send` of src/kernel/ipc.c accepts is the one that `ipc_receive` returns.
use asas_os.Common.{
  ℕ, ◌<◌, ◌≡◌, refl, sym, ◌∙◌, ap, true, false, Option, none, some, arith, if◌then◌else◌, get_or,
  ltb, get_or-set_self, get_or-set_ne, ℕ_discrete,
}
use asas_os.Ipc.{
  Queue, Message, no_message, capacity, is_used, copy_bytes, store, send, is_for, receive,
}
use asas_os.Ipc.Inv.{IsValid, free_slot, store-IsValid, get_or-copy_bytes}
use asas_os.Ipc.Transfer.{fits, Delivery, receive-total}

-- The message that the slot holds after the store.
abbrev stored : Queue → ℕ → ℕ → ℕ → (ℕ → ℕ) → ℕ → Message
stored q slot sender receiver source size = record {
  sender_pid = sender;
  receiver_pid = receiver;
  size = size;
  bytes = copy_bytes source size 0 (get_or q.slots slot no_message).bytes;
}

module _ (q : Queue) (sender receiver size : ℕ) (source : ℕ → ℕ) (v : IsValid q) where
  -- The only message for the receiver is the new one.
  only_new :
      (slot i : ℕ)
      → slot < capacity
      → ((k : ℕ) → k < capacity → is_for q receiver k ≡ false)
      → i < capacity
      → is_for (store q slot sender receiver source size) receiver i ≡ true
      → slot ≡ i
  unfolding store
  only_new slot i lt none_for hi h = elim (ℕ_discrete slot i) [
    | yes e ↦ e
    | no ne ↦ absurd (
        ground (
          arith,
          none_for i hi,
          get_or-set_ne q.slots slot i (stored q slot sender receiver source size) no_message ne,
          get_or-set_ne q.used slot i true false ne,
        ))
  ]

  new_is_for :
      (slot : ℕ)
      → slot < capacity
      → is_for (store q slot sender receiver source size) receiver slot ≡ true
  unfolding store
  new_is_for slot lt = ground (
    arith,
    get_or-set_self q.slots slot (stored q slot sender receiver source size) no_message
        (omega arith),
    get_or-set_self q.used slot true false (omega arith),
  )

  stored_at :
      (slot : ℕ)
      → slot < capacity
      → get_or (store q slot sender receiver source size).slots slot no_message
        ≡ stored q slot sender receiver source size
  unfolding store
  stored_at slot lt =
      get_or-set_self q.slots slot (stored q slot sender receiver source size) no_message
        (omega arith)

-- The receive that follows a send takes the message just stored.
taken :
    (q : Queue) (sender receiver size slot : ℕ) (source : ℕ → ℕ)
    → IsValid q
    → slot < capacity
    → ((k : ℕ) → k < capacity → is_for q receiver k ≡ false)
    → (m : Option Message) (q' : Queue)
    → Delivery (store q slot sender receiver source size) receiver m q'
    → m ≡ some (stored q slot sender receiver source size)
taken q sender receiver size slot source v lt none_for none q' (same, empty) =
    absurd (ground (arith, empty slot lt, new_is_for q sender receiver size source v slot lt))
taken q sender receiver size slot source v lt none_for (some m) q' (i, hi, u, e, _, _, _) =
    ap some (
      e
      ∙ (ap (λ k. get_or (store q slot sender receiver source size).slots k no_message)
            (sym (only_new q sender receiver size source v slot i lt none_for hi u))
          ∙ stored_at q sender receiver size source v slot lt))

sent :
    (q : Queue) (sender receiver size : ℕ) (source : ℕ → ℕ)
    → IsValid q
    → fits q size ≡ true
    → ((k : ℕ) → k < capacity → is_for q receiver k ≡ false)
    → (slot : ℕ) × (q' q'' : Queue) × (slot < capacity)
      × (is_used q slot ≡ false)
      × (send q sender receiver source size ≡ some (true, q'))
      × (receive q' receiver ≡ some (some (stored q slot sender receiver source size), q''))
unfolding send
sent q sender receiver size source v h none_for =
    let (slot, e, f, lt) = free_slot q v (ground arith) in
    let v' = store-IsValid q slot sender receiver size source v (ground arith) lt f in
    let (m, q'', r, _, d) = receive-total (store q slot sender receiver source size) receiver v' in
    (
      slot,
      store q slot sender receiver source size,
      q'',
      lt,
      f,
      ground arith,
      r ∙ ap (λ o. some (o, q'')) (taken q sender receiver size slot source v lt none_for m q'' d),
    )

-- On a valid queue that accepts the call and holds no message for the receiver, a receive after the
-- send returns a message with the sender, the receiver, the size and the bytes that were sent. The
-- rest of its 64 bytes is what a free slot of the queue held before.
pub receive-send :
    (q : Queue) (sender receiver size : ℕ) (source : ℕ → ℕ)
    → IsValid q
    → fits q size ≡ true
    → ((k : ℕ) → k < capacity → is_for q receiver k ≡ false)
    → (m : Message) × (slot : ℕ) × (q' q'' : Queue) × (send q sender receiver source size
        ≡ some (true, q'))
      × (receive q' receiver ≡ some (some m, q''))
      × (m.sender_pid ≡ sender)
      × (m.receiver_pid ≡ receiver)
      × (m.size ≡ size)
      × (is_used q slot ≡ false)
      × ((j : ℕ)
          → get_or m.bytes j 0
            ≡ (if ltb j size then source j else get_or (get_or q.slots slot no_message).bytes j 0))
receive-send q sender receiver size source v h none_for =
    let (slot, q', q'', lt, f, s, r) = sent q sender receiver size source v h none_for in
    (
      stored q slot sender receiver source size,
      slot,
      q',
      q'',
      s,
      r,
      refl,
      refl,
      refl,
      f,
      λ j. ground (
        arith,
        get_or-copy_bytes source size 0 (get_or q.slots slot no_message).bytes j,
        v.data_size slot lt,
      ),
    )
