-- ===== src/Reverse/Gpio.antt =====
-- `initGpio` and the release of the line in `shutdown`, over what libgpiod answers.
use rpi_speeduino_dashboard.Common.{
  ℕ, suc, ◌≡◌, Bool, true, false, List, [], ◌∷◌, ◌++◌, if◌then◌else◌, arith,
}

-- Which calls of libgpiod succeed, in the order in which they are made.
pub record Answers : Type 0 where
  pub chip_open : Bool
  pub settings_new : Bool
  pub line_config_new : Bool
  pub add_settings : Bool
  pub request_config_new : Bool
  pub request_lines : Bool

-- What is allocated and given back.
pub data Resource : Type 0 where
  chip settings line_config request_config request : Resource

pub data GpioCall : Type 0 where
  acquire release : Resource → GpioCall

-- The members `m_gpioChip`, `m_gpioRequest` (whether they are not null) and `m_gpioInitialized`.
pub record Line : Type 0 where
  pub has_chip : Bool
  pub has_request : Bool
  pub initialized : Bool

-- The result, the members and the calls. The members start as `l`; the pointers that a failure
-- resets are null afterwards.
unfoldable pub init_gpio : Answers → Line → Bool × Line × List GpioCall
init_gpio a l =
    let closed : Line = record l { has_chip = false } in
    if a.chip_open
    then (if a.settings_new
        then (if a.line_config_new
            then (if a.add_settings
                then (if a.request_config_new
                    then (if a.request_lines
                        then (
                          true,
                          record { has_chip = true; has_request = true; initialized = true },
                          acquire chip
                              ∷ acquire settings
                              ∷ acquire line_config
                              ∷ acquire request_config
                              ∷ acquire request
                              ∷ release request_config
                              ∷ release line_config
                              ∷ release settings
                              ∷ [],
                        )
                        else (
                          false,
                          record closed { has_request = false },
                          acquire chip
                              ∷ acquire settings
                              ∷ acquire line_config
                              ∷ acquire request_config
                              ∷ release request_config
                              ∷ release line_config
                              ∷ release settings
                              ∷ release chip
                              ∷ [],
                        ))
                    else (
                      false,
                      closed,
                      acquire chip
                          ∷ acquire settings
                          ∷ acquire line_config
                          ∷ release line_config
                          ∷ release settings
                          ∷ release chip
                          ∷ [],
                    ))
                else (
                  false,
                  closed,
                  acquire chip
                      ∷ acquire settings
                      ∷ acquire line_config
                      ∷ release line_config
                      ∷ release settings
                      ∷ release chip
                      ∷ [],
                ))
            else (
              false,
              closed,
              acquire chip ∷ acquire settings ∷ release settings ∷ release chip ∷ [],
            ))
        else (false, closed, acquire chip ∷ release chip ∷ []))
    else (false, closed, [])

unfoldable pub shutdown_line : Line → Line × List GpioCall
shutdown_line l = (
  record { has_chip = false; has_request = false; initialized = false },
  (if l.has_request then release request ∷ [] else [])
      ++ (if l.has_chip then release chip ∷ [] else []),
)

unfoldable pub same_resource : Resource → Resource → Bool
same_resource chip chip = true
same_resource settings settings = true
same_resource line_config line_config = true
same_resource request_config request_config = true
same_resource request request = true
same_resource _ _ = false

-- How often a resource is taken, and given back.
unfoldable pub acquired : Resource → List GpioCall → ℕ
unfolding same_resource
acquired r [] = 0
acquired r (acquire s ∷ cs) =
    let rest = acquired r cs in if same_resource r s then suc rest else rest
acquired r (release s ∷ cs) = acquired r cs

unfoldable pub released : Resource → List GpioCall → ℕ
unfolding same_resource
released r [] = 0
released r (acquire s ∷ cs) = released r cs
released r (release s ∷ cs) =
    let rest = released r cs in if same_resource r s then suc rest else rest

-- From no line held, whatever libgpiod answers: after the set-up and a shutdown every resource that
-- was taken has been given back just as often; and the set-up reports success exactly when it
-- leaves the line initialised, with the chip and the request held.
pub shutdown_line-init_gpio :
    (a : Answers) (l : Line) (r : Resource)
    → l.has_chip ≡ false
    → l.has_request ≡ false
    → l.initialized ≡ false
    → let (done, held, calls) = init_gpio a l in
      let (freed, more) = shutdown_line held in
      (acquired r (calls ++ more) ≡ released r (calls ++ more))
      × (done ≡ held.initialized)
      × (held.has_chip ≡ done)
      × (held.has_request ≡ done)
unfolding init_gpio shutdown_line acquired released
shutdown_line-init_gpio a l r hc hr hi = ground arith
