-- ===== src/ErrorHandler/Totals.antt =====
-- The totals of the error statistics over any sequence of error frames.
use rpi_speeduino_dashboard.Common.{
  ℕ, ◌+◌, ◌<◌, ◌^◌, ◌≡◌, ap, ◌∙◌, Bool, List, [], ◌∷◌, length, has, arith, if◌then◌else◌, u64,
}
use rpi_speeduino_dashboard.ErrorHandler.Text.{CanErrors}
use rpi_speeduino_dashboard.ErrorHandler.State.{BusState, Stats, Handler, ErrorData}
use rpi_speeduino_dashboard.ErrorHandler.Process.{process_error_frame}
use rpi_speeduino_dashboard.ErrorHandler.Statistics.{counted_stats, process_error_frame-stats}

-- 1 for a frame whose identifier has a bit of the mask.
abbrev pub tick : ℕ → ℕ → ℕ
tick id mask = if has id mask then 1 else 0

-- An error frame and the time at which it is handled, in nanoseconds.
pub record Frame : Type 0 where
  pub now : ℕ
  pub id : ℕ
  pub payload : ErrorData

-- The frames whose identifier has a bit of the mask.
unfoldable pub frames_with : ℕ → List Frame → ℕ
frames_with mask [] = 0
frames_with mask (f ∷ fs) = tick f.id mask + frames_with mask fs

-- The counters are values of `uint64_t`.
pub record IsWords (s : Stats) : Type 0 where
  pub tx_timeouts : s.tx_timeouts < 2 ^ 64
  pub arbitration_losses : s.arbitration_losses < 2 ^ 64
  pub protocol_errors : s.protocol_errors < 2 ^ 64
  pub no_ack_errors : s.no_ack_errors < 2 ^ 64
  pub bus_off_events : s.bus_off_events < 2 ^ 64
  pub controller_restarts : s.controller_restarts < 2 ^ 64

counted_stats-IsWords :
    (k : CanErrors) (now id : ℕ) (s : Stats) → IsWords s → IsWords (counted_stats k now id s)
unfolding counted_stats
counted_stats-IsWords k now id s v = record {
  tx_timeouts = ground arith;
  arbitration_losses = ground arith;
  protocol_errors = ground arith;
  no_ack_errors = ground arith;
  bus_off_events = ground arith;
  controller_restarts = ground arith;
}

-- One counter over a sequence of frames.
bump_twice :
    (a c : ℕ) (b : Bool)
    → u64 (u64 (a + (if b then 1 else 0)) + c) ≡ u64 (a + ((if b then 1 else 0) + c))
bump_twice a c b = ground arith

bump_if :
    (a : ℕ) (b : Bool)
    → a < 2 ^ 64
    → (if b then u64 (a + 1) else a) ≡ u64 (a + (if b then 1 else 0))
bump_if a b h = ground arith

module _ (released : BusState → BusState → Handler → Handler) (k : CanErrors) where
  -- The handler after a sequence of frames.
  unfoldable pub run : List Frame → Handler → Handler
  run [] h = h
  run (f ∷ fs) h = run fs (process_error_frame released k f.now f.id f.payload h)

module _ (released : BusState → BusState → Handler → Handler)
    (keeps : (s t : BusState) (h : Handler) → (released s t h).stats ≡ h.stats)
    (k : CanErrors) where
  run-total :
      (fs : List Frame) (h : Handler)
      → h.stats.total_errors < 2 ^ 64
      → (run released k fs h).stats.total_errors ≡ u64 (h.stats.total_errors + length fs)
  unfolding run counted_stats
  run-total [] h b = omega arith
  run-total (f ∷ fs) h b =
      let next = process_error_frame released k f.now f.id f.payload h in
      let one =
        ap (λ s. s.total_errors)
          (process_error_frame-stats released keeps k f.now f.id f.payload h) in
      omega (arith, one, run-total fs next (omega (arith, one)))

  run-tx_timeouts :
      (fs : List Frame) (h : Handler)
      → IsWords h.stats
      → (run released k fs h).stats.tx_timeouts
        ≡ u64 (h.stats.tx_timeouts + frames_with k.err_tx_timeout fs)
  unfolding run frames_with counted_stats
  run-tx_timeouts [] h v = omega (arith, v.tx_timeouts)
  run-tx_timeouts (f ∷ fs) h v =
      let next = process_error_frame released k f.now f.id f.payload h in
      let one = process_error_frame-stats released keeps k f.now f.id f.payload h in
      let kept : IsWords next.stats = rw one (counted_stats-IsWords k f.now f.id h.stats v) in
      run-tx_timeouts fs next kept
      ∙ (rw (one, bump_if h.stats.tx_timeouts (has f.id k.err_tx_timeout) v.tx_timeouts)
          (bump_twice h.stats.tx_timeouts (frames_with k.err_tx_timeout fs)
            (has f.id k.err_tx_timeout)))

  run-arbitration_losses :
      (fs : List Frame) (h : Handler)
      → IsWords h.stats
      → (run released k fs h).stats.arbitration_losses
        ≡ u64 (h.stats.arbitration_losses + frames_with k.err_lostarb fs)
  unfolding run frames_with counted_stats
  run-arbitration_losses [] h v = omega (arith, v.arbitration_losses)
  run-arbitration_losses (f ∷ fs) h v =
      let next = process_error_frame released k f.now f.id f.payload h in
      let one = process_error_frame-stats released keeps k f.now f.id f.payload h in
      let kept : IsWords next.stats = rw one (counted_stats-IsWords k f.now f.id h.stats v) in
      run-arbitration_losses fs next kept
      ∙ (rw (one, bump_if h.stats.arbitration_losses (has f.id k.err_lostarb) v.arbitration_losses)
          (bump_twice h.stats.arbitration_losses (frames_with k.err_lostarb fs)
            (has f.id k.err_lostarb)))

  run-protocol_errors :
      (fs : List Frame) (h : Handler)
      → IsWords h.stats
      → (run released k fs h).stats.protocol_errors
        ≡ u64 (h.stats.protocol_errors + frames_with k.err_prot fs)
  unfolding run frames_with counted_stats
  run-protocol_errors [] h v = omega (arith, v.protocol_errors)
  run-protocol_errors (f ∷ fs) h v =
      let next = process_error_frame released k f.now f.id f.payload h in
      let one = process_error_frame-stats released keeps k f.now f.id f.payload h in
      let kept : IsWords next.stats = rw one (counted_stats-IsWords k f.now f.id h.stats v) in
      run-protocol_errors fs next kept
      ∙ (rw (one, bump_if h.stats.protocol_errors (has f.id k.err_prot) v.protocol_errors)
          (bump_twice h.stats.protocol_errors (frames_with k.err_prot fs) (has f.id k.err_prot)))

  run-no_ack_errors :
      (fs : List Frame) (h : Handler)
      → IsWords h.stats
      → (run released k fs h).stats.no_ack_errors
        ≡ u64 (h.stats.no_ack_errors + frames_with k.err_ack fs)
  unfolding run frames_with counted_stats
  run-no_ack_errors [] h v = omega (arith, v.no_ack_errors)
  run-no_ack_errors (f ∷ fs) h v =
      let next = process_error_frame released k f.now f.id f.payload h in
      let one = process_error_frame-stats released keeps k f.now f.id f.payload h in
      let kept : IsWords next.stats = rw one (counted_stats-IsWords k f.now f.id h.stats v) in
      run-no_ack_errors fs next kept
      ∙ (rw (one, bump_if h.stats.no_ack_errors (has f.id k.err_ack) v.no_ack_errors)
          (bump_twice h.stats.no_ack_errors (frames_with k.err_ack fs) (has f.id k.err_ack)))

  run-bus_off_events :
      (fs : List Frame) (h : Handler)
      → IsWords h.stats
      → (run released k fs h).stats.bus_off_events
        ≡ u64 (h.stats.bus_off_events + frames_with k.err_busoff fs)
  unfolding run frames_with counted_stats
  run-bus_off_events [] h v = omega (arith, v.bus_off_events)
  run-bus_off_events (f ∷ fs) h v =
      let next = process_error_frame released k f.now f.id f.payload h in
      let one = process_error_frame-stats released keeps k f.now f.id f.payload h in
      let kept : IsWords next.stats = rw one (counted_stats-IsWords k f.now f.id h.stats v) in
      run-bus_off_events fs next kept
      ∙ (rw (one, bump_if h.stats.bus_off_events (has f.id k.err_busoff) v.bus_off_events)
          (bump_twice h.stats.bus_off_events (frames_with k.err_busoff fs) (has f.id k.err_busoff)))

  run-controller_restarts :
      (fs : List Frame) (h : Handler)
      → IsWords h.stats
      → (run released k fs h).stats.controller_restarts
        ≡ u64 (h.stats.controller_restarts + frames_with k.err_restarted fs)
  unfolding run frames_with counted_stats
  run-controller_restarts [] h v = omega (arith, v.controller_restarts)
  run-controller_restarts (f ∷ fs) h v =
      let next = process_error_frame released k f.now f.id f.payload h in
      let one = process_error_frame-stats released keeps k f.now f.id f.payload h in
      let kept : IsWords next.stats = rw one (counted_stats-IsWords k f.now f.id h.stats v) in
      run-controller_restarts fs next kept
      ∙ (rw
          (
            one,
            bump_if h.stats.controller_restarts (has f.id k.err_restarted) v.controller_restarts,
          )
          (bump_twice h.stats.controller_restarts (frames_with k.err_restarted fs)
            (has f.id k.err_restarted)))

  -- Over any sequence of frames the total grows by one for each frame, and each other counter by one
  -- for each frame that reports its kind, all modulo 2^64, provided that the counters start below
  -- 2^64 and that the callback and the other threads leave the statistics alone while the mutex is
  -- free.
  pub run-counts :
      (fs : List Frame) (h : Handler)
      → h.stats.total_errors < 2 ^ 64
      → IsWords h.stats
      → let s = (run released k fs h).stats in
        (s.total_errors ≡ u64 (h.stats.total_errors + length fs))
        × (s.tx_timeouts ≡ u64 (h.stats.tx_timeouts + frames_with k.err_tx_timeout fs))
        × (s.arbitration_losses ≡ u64 (h.stats.arbitration_losses + frames_with k.err_lostarb fs))
        × (s.protocol_errors ≡ u64 (h.stats.protocol_errors + frames_with k.err_prot fs))
        × (s.no_ack_errors ≡ u64 (h.stats.no_ack_errors + frames_with k.err_ack fs))
        × (s.bus_off_events ≡ u64 (h.stats.bus_off_events + frames_with k.err_busoff fs))
        × (s.controller_restarts
            ≡ u64 (h.stats.controller_restarts + frames_with k.err_restarted fs))
  run-counts fs h b v = (
    run-total fs h b,
    run-tx_timeouts fs h v,
    run-arbitration_losses fs h v,
    run-protocol_errors fs h v,
    run-no_ack_errors fs h v,
    run-bus_off_events fs h v,
    run-controller_restarts fs h v,
  )
