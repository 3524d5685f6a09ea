-- ===== src/Crash/Tests.antt =====
-- A log of src/kernel/crash.c that is about to wrap.
use asas_os.Common.{◌≡◌, refl, ◌∷◌, arith, replicate, take}
use asas_os.Crash.{CrashLog, log_capacity, blank, crash_record}
use asas_os.Crash.Recent.{recent, recent-crash_record}

abbrev last_place : CrashLog
last_place = record { records = replicate log_capacity blank; next_record = 15; record_count = 15 }

recent-crash_record_example :
    recent (crash_record last_place "heap" "corrupt" 7)
    ≡ take log_capacity
        (record { category = "heap"; message = "corrupt"; code = 7 } ∷ recent last_place)
recent-crash_record_example =
    recent-crash_record last_place "heap" "corrupt" 7
      (record { room = refl; next_in = omega arith; count_in = omega arith })
