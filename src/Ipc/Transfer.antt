-- ===== src/Ipc/Transfer.antt =====
-- What `ipc_send` and `ipc_receive` of src/kernel/ipc.c do on a valid queue.
use asas_os.Common.{
  ℕ, zero, suc, ◌+◌, ◌-◌, ◌%◌, ◌≤◌, ◌<◌, ◌≡◌, refl, sym, ◌∙◌, ap, Bool, true, false, ◌&&◌, Option,
  none, some, arith, Bool-cases, Option-cases, inl, inr, if◌then◌else◌, get_or, set, leb, ltb,
  ℕ_discrete,
}
use mathlib.Core.Option.{some_inj}
use asas_os.Ipc.{
  Queue, Message, no_message, capacity, message_size, store, send, is_for, find_slot, receive,
}
use asas_os.Ipc.Inv.{IsValid, free_slot, store-IsValid, release-IsValid}

-- `ipc_send` accepts the call.
abbrev pub fits : Queue → ℕ → Bool
fits q size = leb size message_size && ltb q.count capacity

-- On a valid queue `ipc_send` always ends. It keeps the queue valid and returns 1 exactly when the
-- size is at most 64 and fewer than 32 messages wait; then one more message waits, in a slot that
-- was free. Otherwise the queue is unchanged.
pub send-total :
    (q : Queue) (sender receiver size : ℕ) (source : ℕ → ℕ)
    → IsValid q
    → (done : Bool) × (q' : Queue) × (send q sender receiver source size ≡ some (done, q'))
      × IsValid q'
      × (done ≡ fits q size)
      × (q'.count ≡ q.count + (if done then 1 else 0))
      × ((done ≡ false → q' ≡ q))
unfolding send store
send-total q sender receiver size source v = elim (Bool-cases (fits q size)) [
  | inl h ↦
      let (slot, e, f, lt) = free_slot q v (ground arith) in
      (
        true,
        store q slot sender receiver source size,
        ground arith,
        store-IsValid q slot sender receiver size source v (ground arith) lt f,
        sym h,
        counted slot (ground arith),
        λ p. cc,
      )
  | inr h ↦ (false, q, ground arith, v, sym h, omega arith, λ _. refl)
]
  where
    counted :
        (slot : ℕ)
        → q.count < capacity
        → (store q slot sender receiver source size).count ≡ q.count + 1
    counted slot room = omega arith

-- Where the search of `ipc_receive` ends.
record Located (q : Queue) (pid rounds index : ℕ) (out : Option ℕ) : Type 0 where
  hit : (slot : ℕ) → out ≡ some slot → (slot < capacity) × (is_for q pid slot ≡ true)
  miss :
      out ≡ none
      → (i : ℕ) → index ≤ i
      → i < index + rounds
      → is_for q pid ((q.head + i) % capacity) ≡ false

find_slot-Located :
    (q : Queue) (pid rounds index : ℕ) → Located q pid rounds index (find_slot q pid rounds index)
unfolding find_slot
find_slot-Located q pid zero index = record {
  hit = λ slot e. cc;
  miss = λ e i lo hi. absurd (omega arith);
}
find_slot-Located q pid (suc rounds) index =
    let r = find_slot-Located q pid rounds (index + 1) in
    elim (Bool-cases (is_for q pid ((q.head + index) % capacity))) [
      | inl h ↦
          rw h (record {
            hit = λ slot e. rw (← some_inj.0 e) (omega arith, h);
            miss = λ e i lo hi. cc;
          })
      | inr h ↦ rw h (record {
        hit = r.hit;
        miss = λ e i lo hi. elim (ℕ_discrete i index) [
          | yes same ↦ rw same h
          | no other ↦ r.miss e i (omega arith) (omega arith)
        ];
      })
    ]

-- What a call of `ipc_receive` has done: it found no message for the process and changed nothing,
-- or it took one from a used slot, emptied that slot and left the others alone.
abbrev pub Delivery : Queue → ℕ → Option Message → Queue → Type 0
Delivery q pid none q' = (q' ≡ q) × ((slot : ℕ) → slot < capacity → is_for q pid slot ≡ false)
Delivery q pid (some m) q' =
    (slot : ℕ) × (slot < capacity)
    × (is_for q pid slot ≡ true)
    × (m ≡ get_or q.slots slot no_message)
    × (q'.used ≡ set q.used slot false)
    × (q'.slots ≡ q.slots)
    × (q'.count + 1 ≡ q.count)

-- On a valid queue `ipc_receive` always ends and keeps the queue valid. It returns a message from a
-- used slot addressed to the process, and frees that slot alone, or it returns none, and then no
-- slot holds a message for the process and the queue is unchanged.
pub receive-total :
    (q : Queue) (pid : ℕ)
    → IsValid q
    → (m : Option Message) × (q' : Queue) × (receive q pid ≡ some (m, q'))
      × IsValid q'
      × Delivery q pid m q'
unfolding receive
receive-total q pid v =
    let r = find_slot-Located q pid capacity 0 in
    elim (Option-cases (find_slot q pid capacity 0)) [
      | inl e ↦ (
        none,
        q,
        rw (e, receive),
        v,
        (
          refl,
          λ slot lt.
              reach slot lt
                (r.miss e ((slot + capacity - q.head) % capacity) (omega arith) (omega arith)),
        ),
      )
      | inr (slot, e) ↦
          let (lt, u) = r.hit slot e in
          let (q', done, v', gone, kept, fewer) = release-IsValid q slot v lt (ground arith) in
          (
            some (get_or q.slots slot no_message),
            q',
            rw (e, receive, done),
            v',
            (slot, lt, u, refl, gone, kept, fewer),
          )
    ]
  where
    reach :
        (slot : ℕ)
        → slot < capacity
        → is_for q pid ((q.head + (slot + capacity - q.head) % capacity) % capacity) ≡ false
        → is_for q pid slot ≡ false
    reach slot lt h =
        ap (is_for q pid) {x = slot}
          {y = (q.head + (slot + capacity - q.head) % capacity) % capacity} (omega arith)
        ∙ h
