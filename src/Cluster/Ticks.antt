-- ===== src/Cluster/Ticks.antt =====
-- `tick`, `start`, `stop` and `transmitLoop` of src/can_service/src/bmw_cluster_sim.cpp.
use rpi_speeduino_dashboard.Common.{
  ℕ, ◌+◌, ◌-◌, ◌%◌, ◌==◌, Bool, true, false, ◌&&◌, List, [], ◌∷◌, if◌then◌else◌, u32,
}
use rpi_speeduino_dashboard.Bus.{CanFrame}
use rpi_speeduino_dashboard.Cluster.State.{Settings, Cluster}
use rpi_speeduino_dashboard.Cluster.Frames.{send_asc1, send_egs, send_sas, send_abs}

-- A round of the loop: the nanoseconds that its tick took, and what the setters did to the
-- settings, in other threads, before the next round.
pub record Round : Type 0 where
  pub elapsed : ℕ
  pub set : Settings → Settings

module _ (answer : List CanFrame → CanFrame → Bool) where
  unfoldable pub tick_asc : Cluster → Cluster
  tick_asc c = if c.settings.asc_enabled && (c.tick_counter % 5 == 0) then send_asc1 answer c else c

  unfoldable pub tick_egs : Cluster → Cluster
  tick_egs c = if c.settings.egs_enabled && (c.tick_counter % 5 == 1) then send_egs answer c else c

  unfoldable pub tick_sas : Cluster → Cluster
  tick_sas c = if c.settings.sas_enabled then send_sas answer c else c

  unfoldable pub tick_abs : Cluster → Cluster
  tick_abs c = if c.settings.abs_enabled && (c.tick_counter % 2 == 0) then send_abs answer c else c

  unfoldable pub tick : Cluster → Cluster
  tick c =
      tick_abs
        (tick_sas (tick_egs (tick_asc (record c { tick_counter = u32 (c.tick_counter + 1) }))))

  -- The loop, for its rounds: the sleep after each, and the members when `m_running` is read as
  -- false.
  unfoldable pub transmit_loop : List Round → Cluster → List ℕ × Cluster
  transmit_loop [] c = ([], c)
  transmit_loop (r ∷ rs) c =
      let ticked = tick c in
      let (sleeps, left) = transmit_loop rs (record ticked { settings = r.set ticked.settings }) in
      ((20000000 - r.elapsed) ∷ sleeps, left)

-- The thread is started unless it runs already.
unfoldable pub start : Cluster → Cluster × Bool
start c = if c.running then (c, false) else (record c { running = true }, true)

unfoldable pub stop : Cluster → Cluster
stop c = record c { running = false }
