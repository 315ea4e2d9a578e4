-- ===== src/Watchdog/Notifier.antt =====
-- `WatchdogNotifier` of src/common/src/watchdog_notifier.cpp, built for Linux.
use rpi_speeduino_dashboard.Common.{
  ℕ, zero, suc, ◌+◌, ◌-◌, ◌/◌, min, Bool, true, false, not, List, [], ◌∷◌, Option, none, some,
  String, ◌<>◌, if◌then◌else◌, ltb, u64,
}

-- Times are in microseconds; `messages` holds what `sd_notify` was given, the last one first.
pub record Notifier : Type 0 where
  pub enabled : Bool
  pub timeout : ℕ
  pub interval : ℕ
  pub running : Bool
  pub notify_count : ℕ
  pub skip_count : ℕ
  pub messages : List String

-- What `sd_watchdog_enabled` answers: the timeout, where it returns more than 0.
unfoldable pub new_notifier : Option ℕ → Notifier
new_notifier none = record {
  enabled = false;
  timeout = 0;
  interval = 0;
  running = false;
  notify_count = 0;
  skip_count = 0;
  messages = [];
}
new_notifier (some usec) = record {
  enabled = ltb 0 usec;
  timeout = usec;
  interval = usec / 2;
  running = false;
  notify_count = 0;
  skip_count = 0;
  messages = [];
}

abbrev say : String → Notifier → Notifier
say message n = record n { messages = message ∷ n.messages }

unfoldable pub notify : Notifier → Notifier
notify n =
    if n.enabled
    then record n { messages = "WATCHDOG=1" ∷ n.messages; notify_count = u64 (n.notify_count + 1) }
    else n

unfoldable pub notify_ready : Notifier → Notifier
notify_ready n = say "READY=1" n

unfoldable pub notify_reloading : Notifier → Notifier
notify_reloading n = say "RELOADING=1" n

unfoldable pub notify_stopping : Notifier → Notifier
notify_stopping n = say "STOPPING=1" n

unfoldable pub set_status : String → Notifier → Notifier
set_status status n = if n.enabled then say ("STATUS=" <> status) n else n

-- With the thread that is started, if one is.
unfoldable pub start : Notifier → Notifier × Bool
start n =
    if not n.enabled
    then (n, false)
    else if n.running
    then (n, false)
    else (notify_ready (record n { running = true }), true)

unfoldable pub stop : Notifier → Notifier
stop n = if n.running then notify_stopping (record n { running = false }) else n

-- The health check of a round: there is none, it answers, or it throws.
pub data Check : Type 0 where
  unset : Check
  answers : Bool → Check
  throws : Check

unfoldable pub is_healthy : Check → Bool
is_healthy unset = true
is_healthy (answers healthy) = healthy
is_healthy throws = false

unfoldable pub beat : Check → Notifier → Notifier
beat check n =
    if is_healthy check then notify n else record n { skip_count = u64 (n.skip_count + 1) }

-- The sleeps of a round, while `running` is read as true: as many reads as the fuel, at most.
unfoldable pub chunks : ℕ → ℕ → List ℕ
chunks zero remaining = []
chunks (suc reads) remaining =
    let rest = chunks reads (remaining - min remaining 100000) in
    if ltb 0 remaining then min remaining 100000 ∷ rest else []

-- The rounds of the thread: the check of each, and how often `running` is read as true in its sleep.
unfoldable pub notify_loop : List (Check × ℕ) → Notifier → List (List ℕ) × Notifier
notify_loop [] n = ([], n)
notify_loop ((check, reads) ∷ rounds) n =
    let (sleeps, left) = notify_loop rounds (beat check n) in
    (chunks reads n.interval ∷ sleeps, left)
