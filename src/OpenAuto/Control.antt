-- ===== src/OpenAuto/Control.antt =====
-- `start`, `stop`, `restart`, `toggle` and `sendTouch` of
-- src/hmi_launcher/src/openauto_controller.cpp.
use rpi_speeduino_dashboard.Common.{
  ℕ, ◌+◌, Bool, true, false, not, ◌||◌, List, [], ◌∷◌, Option, none, some, String, ◌<>◌, str_eq,
  if◌then◌else◌,
}
use rpi_speeduino_dashboard.Common.Int.{ℤ, pos, ltb_ℤ}
use rpi_speeduino_dashboard.OpenAuto.State.{
  Controller, Texts, terminate, kill, set_environment, execute, start_again,
}
use rpi_speeduino_dashboard.OpenAuto.Slots.{single_shot, set_error, clear_error, set_connected}
use rpi_speeduino_dashboard.OpenAuto.Output.{Event, deliver}

-- What the system and QProcess answer to one call of `start` or `stop`; the events are the
-- signals that QProcess emits while the controller waits for it.
pub record Answers : Type 0 where
  pub exists : String → Bool
  pub home : String
  pub environment : List (String × String)
  pub has_process : Bool
  pub is_idle : Bool
  pub on_kill : List Event
  pub on_start : List Event
  pub starts_in_time : Bool
  pub on_terminate : List Event
  pub ends_in_time : Bool

unfoldable pub alternative_paths : String → List String
alternative_paths home =
    "/usr/bin/autoapp"
    ∷ "/usr/local/bin/autoapp"
    ∷ "/opt/openauto/bin/autoapp"
    ∷ "/home/pi/openauto/bin/autoapp"
    ∷ (home <> "/openauto/bin/autoapp")
    ∷ []

unfoldable pub first_existing : (String → Bool) → List String → Option String
first_existing exists [] = none
first_existing exists (path ∷ paths) =
    if exists path then some path else first_existing exists paths

unfoldable pub joined : List String → String
joined [] = ""
joined (s ∷ []) = s
joined (s ∷ t ∷ ts) = s <> ("\n" <> joined (t ∷ ts))

unfoldable pub has_key : String → List (String × String) → Bool
has_key key [] = false
has_key key ((k, value) ∷ entries) = str_eq k key || has_key key entries

-- The newest entry of a key counts.
abbrev pub insert : String → String → List (String × String) → List (String × String)
insert key value env = (key, value) ∷ env

abbrev insert_new : String → String → List (String × String) → List (String × String)
insert_new key value env = if has_key key env then env else insert key value env

module _ (q : Texts) where
  unfoldable pub environment_of : Answers → Controller → List (String × String)
  environment_of a c =
      let windowed =
        if c.fullscreen
        then a.environment
        else insert "OPENAUTO_HEIGHT" (q.number c.video_height) (
            insert "OPENAUTO_WIDTH" (q.number c.video_width)
              (insert "OPENAUTO_WINDOWED" "1" a.environment)) in
      insert_new "WAYLAND_DISPLAY" "wayland-0" (
        insert_new "XDG_RUNTIME_DIR" "/run/user/1000"
          (insert_new "QT_QPA_PLATFORM" "wayland" windowed))

  -- A process that runs still is killed first.
  unfoldable pub clear_process : Answers → ℕ → Controller → Controller
  clear_process a now c =
      if a.is_idle then c else deliver q now a.on_kill (record c { commands = kill ∷ c.commands })

  -- The end of `start`, for the path that was found.
  unfoldable pub launch :
      Answers → ℕ → String → List (String × String) → Controller → Controller × Bool
  launch a now path env c =
      let cleared = clear_process a now c in
      let waited =
        deliver q now a.on_start
          (record cleared { commands = execute path ∷ set_environment env ∷ cleared.commands }) in
      if not a.has_process
      then (set_error "Process object is null" c, false)
      else if a.starts_in_time
      then (waited, true)
      else (set_error "Failed to start OpenAuto process within timeout" waited, false)

  -- After the search of the other paths, which gave the one here.
  unfoldable pub start_elsewhere :
      Answers → ℕ → List (String × String) → Controller → Option String → Controller × Bool
  start_elsewhere a now env c none = (
    set_error
        ("OpenAuto executable not found. Searched:\n"
          <> (c.executable_path <> ("\n" <> joined (alternative_paths a.home))))
        c,
    false,
  )
  start_elsewhere a now env c (some path) =
      launch a now path env (record c { executable_path = path })

  unfoldable pub start : Answers → ℕ → Controller → Controller × Bool
  start a now c =
      let env = environment_of a c in
      if c.running
      then (c, true)
      else if a.exists c.executable_path
      then launch a now c.executable_path env (clear_error c)
      else start_elsewhere a now env (clear_error c)
          (first_existing a.exists (alternative_paths a.home))

  unfoldable pub stop : Answers → ℕ → Controller → Controller
  stop a now c =
      let asked = deliver q now a.on_terminate (record c { commands = terminate ∷ c.commands }) in
      let killed = deliver q now a.on_kill (record asked { commands = kill ∷ asked.commands }) in
      if not c.running || not a.has_process
      then c
      else set_connected false (if a.ends_in_time then asked else killed)

  -- 500 milliseconds later the controller is started.
  unfoldable pub restart : Answers → ℕ → Controller → Controller
  restart a now c = single_shot (now + 500) start_again (stop a now c)

  unfoldable pub toggle : Answers → ℕ → Controller → Controller
  toggle a now c = if c.running then stop a now c else (start a now c).0

-- `qBound`.
unfoldable pub q_bound : ℤ → ℤ → ℤ → ℤ
q_bound low v high =
    let upper = if ltb_ℤ v high then v else high in if ltb_ℤ low upper then upper else low

-- The event that `sendTouch` forwards, which for now it logs.
unfoldable pub send_touch : ℤ → ℤ → ℤ → Controller → Option (ℤ × ℤ × ℤ)
send_touch x y type c =
    if not c.running || not c.connected
    then none
    else if ltb_ℤ type (pos 0) || ltb_ℤ (pos 2) type
    then none
    else some (q_bound (pos 0) x c.video_width, q_bound (pos 0) y c.video_height, type)
