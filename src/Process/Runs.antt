-- ===== src/Process/Runs.antt =====
-- Calls of src/kernel/process.c, and sequences of them: how many processes there can be.
use asas_os.Common.{
  ℕ, suc, ◌+◌, ◌≤◌, ◌<◌, ◌≡◌, ◌↔◌, ◌⊎◌, inl, inr, refl, sym, ◌∙◌, ap, true, false, not, ◌&&◌, none,
  some, List, [], ◌∷◌, ◌==◌, map, arith, length, Bool-cases, ==_iff,
}
use mathlib.Core.Path.{subst}
use asas_os.Process.{
  unused, is_unused, Process, AddressSpaces, Processes, initialize, process_create, kill_from,
  process_kill, max_processes,
}
use asas_os.Process.Slots.{Slots, Slots-bound, IsValid, create_from-Slots}

module _ {Space A : Type 0} (spaces : AddressSpaces Space A) where
  -- With `n` processes created since the initialization, a creation either fails and leaves the
  -- entries as they are, or gives the next entry to a process with the pid `n + 1`. When 16 were
  -- created it fails, also when processes have been killed.
  pub process_create_lem :
      (n : ℕ) (s : Processes Space A)
      → IsValid n s
      → let (found, s') = process_create spaces s in
        ((found ≡ none) × IsValid n s' × (s'.processes ≡ s.processes))
        ⊎ ((n < max_processes) × (found ≡ some n) × IsValid (suc n) s')
  unfolding process_create
  process_create_lem n s v =
      elim (create_from-Slots spaces 1 n s.next_pid 0 s.processes s.allocator
        (omega (arith, v.next)) v.slots) [
          | inl (f, same) ↦ inl (
            rw (f, process_create) refl,
            rw (f, process_create)
                record {
                  size = ap length same ∙ v.size;
                  next = v.next;
                  slots = subst (Slots 1 n) (sym same) v.slots;
                },
            rw (f, process_create) same,
          )
          | inr (f, slots, size) ↦
              let room = Slots-bound 1 (suc n) _ slots in
              let small : suc n ≤ 16 = omega (arith, room, size, v.size) in
              inr (
                omega arith,
                rw (f, process_create) (ap some (omega arith)),
                rw (f, process_create)
                    record { size = size ∙ v.size; next = omega (arith, v.next); slots = slots },
              )
        ]

  kill_from-Slots :
      (k n pid : ℕ) (l : List (Process Space)) (a : A)
      → Slots k n l
      → let (found, l', a') = kill_from spaces pid l a in
        Slots k n l' × (length l' ≡ length l) × ((found ≡ true) ↔ ((k ≤ pid) × (pid < k + n)))
  unfolding kill_from
  kill_from-Slots k n pid [] a h =
      (h, refl, (λ q. absurd (ground arith), λ (x, y). absurd (omega arith)))
  kill_from-Slots k n pid (p ∷ l) a (inl (z, u, h)) =
      let (slots, size, (there, back)) = kill_from-Slots k 0 pid l a h in
      let passed : (p.pid == pid && not (is_unused p.state)) ≡ false = ground arith in
      (
        rw (passed, kill_from) (inl (z, u, slots)),
        rw (passed, kill_from) (ap suc size),
        (
          λ t. let (x, y) = there (rw (passed, kill_from) at t) in absurd (omega arith),
          λ (x, y). absurd (omega arith),
        ),
      )
  kill_from-Slots k n pid (p ∷ l) a (inr (m, q, i, u, h)) =
      let (slots, size, (there, back)) = kill_from-Slots (suc k) m pid l a h in
      elim (Bool-cases (p.pid == pid)) [
        | inl e ↦
            let passed : (p.pid == pid && not (is_unused p.state)) ≡ true = ground arith in
            let same : p.pid ≡ pid = (==_iff p.pid pid).0 e in
            (
              rw (passed, kill_from) (inr (m, q, i, refl, h)),
              rw (passed, kill_from) refl,
              (λ t. (omega arith, omega arith), λ r. rw (passed, kill_from) refl),
            )
        | inr e ↦
            let passed : (p.pid == pid && not (is_unused p.state)) ≡ false = ground arith in
            let other : ¬ (p.pid ≡ pid) = λ same. absurd (ground arith) in
            (
              rw (passed, kill_from) (inr (m, q, i, u, slots)),
              rw (passed, kill_from) (ap suc size),
              (
                λ t. let (x, y) = there (rw (passed, kill_from) at t) in (omega arith, omega arith),
                λ (x, y). rw (passed, kill_from) (back (omega (arith, other), omega arith)),
              ),
            )
      ]

  -- A kill succeeds exactly for the pids that were given out, also for a process that was killed
  -- before, and the entry is not given back: as many entries are used after it as before.
  pub process_kill_lem :
      (n pid : ℕ) (s : Processes Space A)
      → IsValid n s
      → IsValid n (process_kill spaces pid s).1
        × (((process_kill spaces pid s).0 ≡ true) ↔ ((1 ≤ pid) × (pid ≤ n)))
  unfolding process_kill
  process_kill_lem n pid s v =
      let (slots, size, (there, back)) = kill_from-Slots 1 n pid s.processes s.allocator v.slots in
      (
        record { size = size ∙ v.size; next = v.next; slots = slots },
        (λ t. let (x, y) = there t in (x, omega arith), λ (x, y). back (x, omega arith)),
      )

-- A call of the process table.
pub data Call : Type 0 where
  create : Call
  kill : ℕ → Call

module _ {Space A : Type 0} (spaces : AddressSpaces Space A) where
  -- The number of processes that a sequence of calls creates, and the state after it.
  pub run : List Call → Processes Space A → ℕ × Processes Space A
  run [] s = (0, s)
  run (create ∷ calls) s =
      let (found, s') = process_create spaces s in
      let (count, s'') = run calls s' in (elim found [ none ↦ count | some _ ↦ suc count ], s'')
  run (kill pid ∷ calls) s = run calls (process_kill spaces pid s).1

  -- However calls that create and kill processes follow on each other, the processes ever created
  -- number at most 16, those already killed among them.
  pub run-IsValid :
      (calls : List Call) (n : ℕ) (s : Processes Space A)
      → IsValid n s
      → let (count, s') = run calls s in IsValid (n + count) s' × (n + count ≤ max_processes)
  unfolding run
  run-IsValid [] n s v = (
    subst (λ k. IsValid k s) {x = n} (omega arith) v,
    omega (arith, Slots-bound 1 n s.processes v.slots, v.size),
  )
  run-IsValid (create ∷ calls) n s v = elim (process_create_lem spaces n s v) [
    | inl (f, v', same) ↦ rw (f, run) (run-IsValid calls n (process_create spaces s).1 v')
    | inr (room, f, v') ↦
        let (after, bound) = run-IsValid calls (suc n) (process_create spaces s).1 v' in
        rw (f, run)
          (
            subst (λ k. IsValid k (run calls (process_create spaces s).1).1)
                {x = suc n + (run calls (process_create spaces s).1).0} (omega arith) after,
            omega (arith, bound),
          )
  ]
  run-IsValid (kill pid ∷ calls) n s v = run-IsValid calls n _ (process_kill_lem spaces n pid s v).0

  pub initialize-IsValid :
      (s : Processes Space A) → length s.processes ≡ max_processes → IsValid 0 (initialize spaces s)
  unfolding initialize
  initialize-IsValid s h = record {
    size = cleared-length s.processes ∙ h;
    next = refl;
    slots = cleared-Slots s.processes;
  }
    where
      clear : Process Space → Process Space
      clear p = record {
        pid = 0;
        state = unused;
        address_space = spaces.no_space;
        user_entry = 0;
        user_stack = 0;
      }

      cleared-length : (l : List (Process Space)) → length (map clear l) ≡ length l
      cleared-length [] = refl
      cleared-length (p ∷ l) = ap suc (cleared-length l)

      cleared-Slots : (l : List (Process Space)) → Slots 1 0 (map clear l)
      cleared-Slots [] = refl
      cleared-Slots (p ∷ l) = inl (refl, refl, cleared-Slots l)
