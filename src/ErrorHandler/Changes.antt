-- ===== src/ErrorHandler/Changes.antt =====
-- What the state callback is told over any sequence of error frames.
use rpi_speeduino_dashboard.Common.{
  ℕ, ◌≡◌, refl, ◌≢◌, inl, inr, true, List, [], ◌∷◌, has, Bool-cases,
}
use rpi_speeduino_dashboard.ErrorHandler.Text.{CanErrors}
use rpi_speeduino_dashboard.ErrorHandler.State.{BusState, Handler, ErrorData}
use rpi_speeduino_dashboard.ErrorHandler.Process.{
  Work, same_state, update_state, update_if, controller_states, on_tx_timeout, on_lost_arbitration,
  on_controller, on_protocol, on_transceiver, on_no_ack, on_bus_off, on_bus_error, on_restarted,
  start_frame, finish_frame, process_error_frame,
}
use rpi_speeduino_dashboard.ErrorHandler.Transitions.{same_state-ne}
use rpi_speeduino_dashboard.ErrorHandler.Totals.{Frame, run}

-- The calls, the latest first, lead from the first state to the last without a gap, and each is a
-- real change.
abbrev pub Linked : BusState → List (BusState × BusState) → BusState → Type 0
Linked first [] last = first ≡ last
Linked first ((old, new) ∷ calls) last = (new ≡ last) × (old ≢ new) × Linked first calls old

-- The callback is set, and has been told of every change since the bus was in a state.
pub record IsTold (first : BusState) (h : Handler) : Type 0 where
  pub is_set : h.has_state_callback ≡ true
  pub linked : Linked first h.transitions h.current_state

-- What the callback must leave alone.
pub record KeepsTold (released : BusState → BusState → Handler → Handler) : Type 0 where
  pub told : (s t first : BusState) (h : Handler) → IsTold first h → IsTold first (released s t h)

module _ (released : BusState → BusState → Handler → Handler) (keeps : KeepsTold released)
    (k : CanErrors) (first : BusState) where
  update_state-IsTold :
      (s : BusState) (h : Handler) → IsTold first h → IsTold first (update_state released s h)
  unfolding update_state
  update_state-IsTold s h v = elim (Bool-cases (same_state h.current_state s)) [
    | inl same ↦ rw same v
    | inr differ ↦
        rw (differ, v.is_set)
          (keeps.told h.current_state s first _ (record {
            is_set = refl;
            linked = (refl, same_state-ne h.current_state s differ, v.linked);
          }))
  ]

  update_if-IsTold :
      (word mask : ℕ) (s : BusState) (h : Handler)
      → IsTold first h
      → IsTold first (update_if released word mask s h)
  unfolding update_if
  update_if-IsTold word mask s h v = elim (Bool-cases (has word mask)) [
    | inl e ↦ rw e (update_state-IsTold s h v)
    | inr e ↦ rw e v
  ]

  controller_states-IsTold :
      (status : ℕ) (h : Handler)
      → IsTold first h
      → IsTold first (controller_states released k status h)
  unfolding controller_states
  controller_states-IsTold status h v = update_if-IsTold status _ _ _ (
      update_if-IsTold status _ _ _ (
        update_if-IsTold status _ _ _
          (update_if-IsTold status _ _ _ (update_if-IsTold status _ _ _ v))))

  on_tx_timeout-IsTold :
      (id : ℕ) (w : Work) → IsTold first w.0 → IsTold first (on_tx_timeout released k id w).0
  unfolding on_tx_timeout
  on_tx_timeout-IsTold id w v = elim (Bool-cases (has id k.err_tx_timeout)) [
    | inl e ↦ rw e (record { is_set = v.is_set; linked = v.linked })
    | inr e ↦ rw e v
  ]

  on_lost_arbitration-IsTold :
      (id : ℕ) (d : ErrorData) (w : Work)
      → IsTold first w.0
      → IsTold first (on_lost_arbitration released k id d w).0
  unfolding on_lost_arbitration
  on_lost_arbitration-IsTold id d w v = elim (Bool-cases (has id k.err_lostarb)) [
    | inl e ↦ rw e (record { is_set = v.is_set; linked = v.linked })
    | inr e ↦ rw e v
  ]

  on_controller-IsTold :
      (id : ℕ) (d : ErrorData) (w : Work)
      → IsTold first w.0
      → IsTold first (on_controller released k id d w).0
  unfolding on_controller
  on_controller-IsTold id d w v = elim (Bool-cases (has id k.err_crtl)) [
    | inl e ↦ rw e (controller_states-IsTold d.d1 w.0 v)
    | inr e ↦ rw e v
  ]

  on_protocol-IsTold :
      (id : ℕ) (d : ErrorData) (w : Work)
      → IsTold first w.0
      → IsTold first (on_protocol released k id d w).0
  unfolding on_protocol
  on_protocol-IsTold id d w v = elim (Bool-cases (has id k.err_prot)) [
    | inl e ↦ rw e (record { is_set = v.is_set; linked = v.linked })
    | inr e ↦ rw e v
  ]

  on_transceiver-IsTold :
      (id : ℕ) (w : Work) → IsTold first w.0 → IsTold first (on_transceiver released k id w).0
  unfolding on_transceiver
  on_transceiver-IsTold id w v = v

  on_no_ack-IsTold :
      (id : ℕ) (w : Work) → IsTold first w.0 → IsTold first (on_no_ack released k id w).0
  unfolding on_no_ack
  on_no_ack-IsTold id w v = elim (Bool-cases (has id k.err_ack)) [
    | inl e ↦ rw e (record { is_set = v.is_set; linked = v.linked })
    | inr e ↦ rw e v
  ]

  on_bus_off-IsTold :
      (now id : ℕ) (w : Work) → IsTold first w.0 → IsTold first (on_bus_off released k now id w).0
  unfolding on_bus_off
  on_bus_off-IsTold now id w v = elim (Bool-cases (has id k.err_busoff)) [
    | inl e ↦ rw e (update_state-IsTold _ _ (record { is_set = v.is_set; linked = v.linked }))
    | inr e ↦ rw e v
  ]

  on_bus_error-IsTold :
      (id : ℕ) (w : Work) → IsTold first w.0 → IsTold first (on_bus_error released k id w).0
  unfolding on_bus_error
  on_bus_error-IsTold id w v = v

  on_restarted-IsTold :
      (now id : ℕ) (w : Work) → IsTold first w.0 → IsTold first (on_restarted released k now id w).0
  unfolding on_restarted
  on_restarted-IsTold now id w v = elim (Bool-cases (has id k.err_restarted)) [
    | inl e ↦ rw e (update_state-IsTold _ _ (record { is_set = v.is_set; linked = v.linked }))
    | inr e ↦ rw e v
  ]

  finish_frame-IsTold :
      (d : ErrorData) (w : Work) → IsTold first w.0 → IsTold first (finish_frame released k d w)
  unfolding finish_frame
  finish_frame-IsTold d w v = elim (Bool-cases w.0.has_error_callback) [
    | inl e ↦ rw e (record { is_set = v.is_set; linked = v.linked })
    | inr e ↦ rw e (record { is_set = v.is_set; linked = v.linked })
  ]

  process_error_frame-IsTold :
      (now id : ℕ) (d : ErrorData) (h : Handler)
      → IsTold first h
      → IsTold first (process_error_frame released k now id d h)
  unfolding process_error_frame start_frame
  process_error_frame-IsTold now id d h v = finish_frame-IsTold d _ (
      on_restarted-IsTold now id _ (
        on_bus_error-IsTold id _ (
          on_bus_off-IsTold now id _ (
            on_no_ack-IsTold id _ (
              on_transceiver-IsTold id _ (
                on_protocol-IsTold id d _ (
                  on_controller-IsTold id d _ (
                    on_lost_arbitration-IsTold id d _ (
                      on_tx_timeout-IsTold id (start_frame released k now h)
                        (record { is_set = v.is_set; linked = v.linked }))))))))))

  -- Once the state callback is set and has been told of every change since the bus was in the state
  -- `first`, this stays so over any sequence of error frames: the calls made to it, in order, lead
  -- from `first` to the current state without a gap, and none reports a state as its own successor.
  -- The callback and the other threads may do anything to the handler that keeps this so.
  pub run-IsTold :
      (fs : List Frame) (h : Handler) → IsTold first h → IsTold first (run released k fs h)
  unfolding run
  run-IsTold [] h v = v
  run-IsTold (f ∷ fs) h v =
      run-IsTold fs (process_error_frame released k f.now f.id f.payload h)
        (process_error_frame-IsTold f.now f.id f.payload h v)
