-- ===== src/Crash/Recent.antt =====
-- The log of src/kernel/crash.c holds the latest 16 records.
use Prim.Native.String.{String}
use asas_os.Common.{
  ℕ, zero, suc, ◌+◌, ◌-◌, ◌%◌, ◌≤◌, ◌<◌, ◌≡◌, refl, sym, ◌∙◌, ap, ap₂, List, [], ◌∷◌, arith,
  if◌then◌else◌, ◌==◌, get_or, set, length, length-set, take, min, get_or-set_self, get_or-set_ne,
}
use asas_os.Crash.{
  CrashRecord, CrashLog, log_capacity, blank, initialize, crash_record, crash_last_category,
  crash_last_message,
}

-- `n` records backwards from the slot before `at`.
abbrev back : List CrashRecord → ℕ → ℕ → List CrashRecord
back l at zero = []
back l at (suc n) = get_or l ((at + 15) % log_capacity) blank ∷ back l ((at + 15) % log_capacity) n

-- The records that the log holds, the latest first.
abbrev pub recent : CrashLog → List CrashRecord
recent log = back log.records log.next_record log.record_count

pub record IsValid (log : CrashLog) : Type 0 where
  pub room : length log.records ≡ log_capacity
  pub next_in : log.next_record < log_capacity
  pub count_in : log.record_count ≤ log_capacity

-- The walk from `d` slots behind `i` does not come back to `i` within fewer than `d` steps.
back-set :
    (l : List CrashRecord) (i at n d : ℕ) (r : CrashRecord)
    → i < log_capacity
    → d ≤ log_capacity
    → at ≡ (i + d) % log_capacity
    → n < d
    → back (set l i r) at n ≡ back l at n
back-set l i at zero d r hi hd e h = refl
back-set l i at (suc n) zero r hi hd e h = absurd (omega arith)
back-set l i at (suc n) (suc d) r hi hd e h =
    ap₂ ◌∷◌ (get_or-set_ne l i ((at + 15) % log_capacity) r blank (omega arith))
      (back-set l i ((at + 15) % log_capacity) n d r hi (omega arith) (omega arith) (omega arith))

take-back : (l : List CrashRecord) (at k n : ℕ) → take k (back l at n) ≡ back l at (min k n)
take-back l at zero n = ap (back l at) {x = 0} (omega arith)
take-back l at (suc k) zero = ap (back l at) {x = 0} (omega arith)
take-back l at (suc k) (suc n) =
    ap (λ t. get_or l ((at + 15) % log_capacity) blank ∷ t)
      (take-back l ((at + 15) % log_capacity) k n)
    ∙ ap (back l at) {x = suc (min k n)} (omega arith)

-- A record that `crash_record` writes.
abbrev written : String → String → ℕ → CrashRecord
written category message code = record { category = category; message = message; code = code }

pub crash_record-IsValid :
    (log : CrashLog) (category message : String) (code : ℕ)
    → IsValid log
    → IsValid (crash_record log category message code)
unfolding crash_record
crash_record-IsValid log category message code v = record {
  room = length-set log.records log.next_record (written category message code) ∙ v.room;
  next_in = omega arith;
  count_in = ground arith;
}

-- Writing a record to a valid log puts it in front of the records held; of those the log keeps the
-- 16 latest.
pub recent-crash_record :
    (log : CrashLog) (category message : String) (code : ℕ)
    → IsValid log
    → recent (crash_record log category message code)
      ≡ take log_capacity
          ((record { category = category; message = message; code = code }) ∷ recent log)
unfolding crash_record
recent-crash_record log category message code v =
    ap (back l' next') {y = suc (min 15 count)} (ground arith)
    ∙ (ap₂ ◌∷◌ newest older ∙ ap (λ t. r ∷ t) (sym (take-back log.records next 15 count)))
  where
    open log use {next_record as next, record_count as count}

    r : CrashRecord
    r = written category message code

    l' : List CrashRecord
    l' = set log.records next r

    next' : ℕ
    next' = (next + 1) % log_capacity

    newest : get_or l' ((next' + 15) % log_capacity) blank ≡ r
    newest =
        ap (λ k. get_or l' k blank) {y = next} (omega arith)
        ∙ get_or-set_self log.records next r blank (omega arith)

    older :
        back l' ((next' + 15) % log_capacity) (min 15 count) ≡ back log.records next (min 15 count)
    older =
        ap (λ k. back l' k (min 15 count)) {y = next} (omega arith)
        ∙ back-set log.records next next (min 15 count) 16 r v.next_in (omega arith) (omega arith)
            (omega arith)

-- The latest of some records, or a blank one.
abbrev pub latest : List CrashRecord → CrashRecord
latest [] = blank
latest (r ∷ _) = r

latest-back :
    (l : List CrashRecord) (at n : ℕ)
    → latest (back l at n)
      ≡ (if n == 0 then blank else get_or l ((at + log_capacity - 1) % log_capacity) blank)
latest-back l at zero = refl
latest-back l at (suc n) =
    ap (λ k. get_or l k blank) {y = (at + log_capacity - 1) % log_capacity} (omega arith)
    ∙ ground arith

-- The last category and message are those of the latest record, and empty where there is none.
pub crash_last-recent :
    (log : CrashLog)
    → (crash_last_category log ≡ (latest (recent log)).category)
      × (crash_last_message log ≡ (latest (recent log)).message)
unfolding crash_last_category crash_last_message
crash_last-recent log = ground (arith, latest-back log.records log.next_record log.record_count)

-- A new log is valid and empty, and the count of a valid log is the number of records held.
pub initialize-recent : IsValid initialize × (recent initialize ≡ [])
unfolding initialize
initialize-recent = (record { room = refl; next_in = omega arith; count_in = omega arith }, refl)
