-- ===== src/ErrorHandler/Reset.antt =====
-- `resetStats`, the queries, and the time since the last error.
use rpi_speeduino_dashboard.Common.{ℕ, ◌-◌, ◌/◌, ◌≡◌, ◌↔◌, refl, true, false, none, some, arith}
use rpi_speeduino_dashboard.ErrorHandler.Text.{CanErrors}
use rpi_speeduino_dashboard.ErrorHandler.State.{
  BusState, error_active, bus_off, Handler, ErrorData, new_handler,
}
use rpi_speeduino_dashboard.ErrorHandler.Process.{
  same_state, has_error, is_operational, reset_stats, time_since_last_error, process_error_frame,
}
use rpi_speeduino_dashboard.ErrorHandler.Statistics.{counted_stats, process_error_frame-stats}

-- With no error yet, a new handler reports the longest duration; a handler whose statistics have
-- been reset reports the time since the clock's epoch instead, as if an error had come then.
reset_stats-time_since_last_error :
    (now : ℕ) (h : Handler)
    → (time_since_last_error now new_handler ≡ none)
      × (time_since_last_error now (reset_stats h) ≡ some (now / 1000000))
unfolding time_since_last_error reset_stats new_handler
reset_stats-time_since_last_error now h = (refl, ground arith)

-- After an error frame handled at `now`, the time since the last error at `later` is the whole
-- milliseconds from `now` to `later`, provided that the callback and the other threads leave the
-- statistics alone while the mutex is free.
process_error_frame-time_since_last_error :
    (released : BusState → BusState → Handler → Handler)
    (keeps : (s t : BusState) (h : Handler) → (released s t h).stats ≡ h.stats) (k : CanErrors)
    (now id later : ℕ) (d : ErrorData) (h : Handler)
    → time_since_last_error later (process_error_frame released k now id d h)
      ≡ some ((later - now) / 1000000)
unfolding time_since_last_error
process_error_frame-time_since_last_error released keeps k now id later d h =
    rw (process_error_frame-stats released keeps k now id d h) (unfold counted_stats in refl)

-- The bus has an error exactly when it is in another state than `ErrorActive`, and is operational
-- exactly when it is in another state than `BusOff`; after a reset it has none.
pub queries_lem :
    (h : Handler)
    → ((has_error h ≡ false) ↔ (h.current_state ≡ error_active))
      × ((is_operational h ≡ false) ↔ (h.current_state ≡ bus_off))
      × (has_error (reset_stats h) ≡ false)
      × (is_operational (reset_stats h) ≡ true)
unfolding has_error is_operational reset_stats same_state
queries_lem h = ground arith
