-- ===== src/Writer/Examples.antt =====
-- The command writer at concrete calls.
use rpi_speeduino_dashboard.Common.{
  ℕ, ◌+◌, ◌-◌, ◌*◌, ◌≤◌, ◌≡◌, refl, true, some, List, [], ◌∷◌, All, arith,
}
use rpi_speeduino_dashboard.Common.Maps.{find, put, emplace, is_some}
use rpi_speeduino_dashboard.Bus.{make_frame}
use rpi_speeduino_dashboard.Writer.Bucket.{Bucket, token, new_bucket, refill, try_consume}
use rpi_speeduino_dashboard.Writer.Commands.{
  CanCommandDef, ok, blocked, rate_limited, Writer, new_writer, Command, add_command, add_commands,
  load_allowed_commands, is_allowed, get_rate_limit, copy, write, pass_limit, send, run, results,
}
use rpi_speeduino_dashboard.Writer.Rate.{IsLimited, count_for, end_time, run-rate}
use rpi_speeduino_dashboard.Writer.Safety.{IsPermitted, run-IsPermitted}
use rpi_speeduino_dashboard.Writer.Loading.{
  first_rate, last_rate, rate_or_0, bucket_of, load_allowed_commands_lem,
  load_allowed_commands-IsLimited,
}

-- The identifier 0x600 is listed twice.
abbrev commands : List CanCommandDef
commands =
    record { can_id = 0x600; rate_limit_hz = 2; description = "fan" }
    ∷ record { can_id = 0x601; rate_limit_hz = 50; description = "idle" }
    ∷ record { can_id = 0x600; rate_limit_hz = 20; description = "fan again" }
    ∷ []

abbrev loaded : Writer
loaded = load_allowed_commands 1000 commands new_writer

abbrev call : ℕ → ℕ → Command
call now id = record { now = now; id = id; payload = some (7 ∷ 8 ∷ []); dlc = 2; accepts = true }

abbrev calls : List Command
calls =
    call 2000 0x600
    ∷ call 3000 0x600
    ∷ call 4000 0x600
    ∷ call 5000 0x601
    ∷ call 500004000 0x600
    ∷ call 500005000 0x700
    ∷ []

outcomes : results calls loaded ≡ ok ∷ ok ∷ rate_limited ∷ ok ∷ ok ∷ blocked ∷ []
unfolding results send pass_limit write is_allowed try_consume refill find put emplace new_bucket
    load_allowed_commands add_commands add_command new_writer copy make_frame
outcomes = refl

load_allowed_commands_lem_example :
    (is_allowed 0x600 loaded ≡ is_some (last_rate 0x600 commands))
    × (get_rate_limit 0x600 loaded ≡ rate_or_0 (last_rate 0x600 commands))
    × (find 0x600 loaded.rate_limiters ≡ bucket_of 1000 (first_rate 0x600 commands))
load_allowed_commands_lem_example = load_allowed_commands_lem 1000 0x600 commands new_writer

reported : last_rate 0x600 commands ≡ some 20
unfolding last_rate
reported = refl

in_force : first_rate 0x600 commands ≡ some 2
unfolding first_rate
in_force = refl

limit : IsLimited 0x600 2 1000 loaded
limit = load_allowed_commands-IsLimited 1000 0x600 2 commands new_writer in_force

run-rate_example :
    IsLimited 0x600 2 (end_time 1000 calls) (run calls loaded)
    × (count_for 0x600 (run calls loaded).handed * token
        ≤ count_for 0x600 loaded.handed * token + 2 * token + (end_time 1000 calls - 1000) * 2)
run-rate_example = run-rate 0x600 2 1000 calls loaded limit (ground arith)

nothing_handed : All (IsPermitted loaded.whitelist) loaded.handed
unfolding load_allowed_commands add_commands add_command new_writer
nothing_handed = tt

run-IsPermitted_example :
    All (IsPermitted loaded.whitelist) (run calls loaded).handed
    × ((run calls loaded).whitelist ≡ loaded.whitelist)
run-IsPermitted_example = run-IsPermitted calls loaded nothing_handed

abbrev spent_bucket : Bucket
spent_bucket = record { rate_hz = 2; tokens = 0; max_tokens = 2 * token; last_refill = 1000 }
