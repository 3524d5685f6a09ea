-- ===== src/Crash.antt =====
-- The crash log of src/kernel/crash.c: a ring of the 16 latest records. A string literal is a text.
pub mod Recent
mod Tests
use Prim.Native.String.{String}
use asas_os.Common.{ℕ, ◌+◌, ◌-◌, ◌%◌, List, if◌then◌else◌, ltb, ◌==◌, get_or, set, replicate}

abbrev pub log_capacity : ℕ
log_capacity = 16

-- `ASAS_CRASH_RECORD`
pub record CrashRecord : Type 0 where
  pub category : String
  pub message : String
  pub code : ℕ

abbrev pub blank : CrashRecord
blank = record { category = ""; message = ""; code = 0 }

pub record CrashLog : Type 0 where
  pub records : List CrashRecord
  pub next_record : ℕ
  pub record_count : ℕ

pub initialize : CrashLog
initialize = record { records = replicate log_capacity blank; next_record = 0; record_count = 0 }

pub crash_record : CrashLog → String → String → ℕ → CrashLog
crash_record log category message code = record {
  records =
      set log.records log.next_record
        (record { category = category; message = message; code = code });
  next_record = (log.next_record + 1) % log_capacity;
  record_count =
      if ltb log.record_count log_capacity then log.record_count + 1 else log.record_count;
}

pub crash_record_count : CrashLog → ℕ
crash_record_count log = log.record_count

-- The slot of the latest record.
abbrev pub last_index : CrashLog → ℕ
last_index log = (log.next_record + log_capacity - 1) % log_capacity

pub crash_last_category : CrashLog → String
crash_last_category log =
    if log.record_count == 0 then "" else (get_or log.records (last_index log) blank).category

pub crash_last_message : CrashLog → String
crash_last_message log =
    if log.record_count == 0 then "" else (get_or log.records (last_index log) blank).message
