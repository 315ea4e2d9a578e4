-- ===== src/Obd/Exchange.antt =====
-- `sendAndReceive` of src/can_service/src/obd_handler.cpp, with its loop over the received frames.
use rpi_speeduino_dashboard.Common.{
  ℕ, zero, suc, ◌+◌, ◌*◌, ◌/◌, ◌%◌, ◌≤◌, Bool, ◌&&◌, ◌||◌, Option, none, some, ltb, ◌==◌,
  if◌then◌else◌, get_or, u32,
}
use rpi_speeduino_dashboard.Bus.{CanFrame}
use rpi_speeduino_dashboard.Obd.Request.{Obd, response_ecu}

-- What the bus and the clock do during one exchange: whether the request is sent, the nanoseconds
-- since the start at the k-th look at the clock, and what the k-th `receive` returns.
pub record Exchange : Type 0 where
  pub sent : Bool
  pub elapsed : ℕ → ℕ
  pub received : ℕ → Option CanFrame

-- The high and low half of a byte of the protocol control information.
abbrev pub pci_type : CanFrame → ℕ
pci_type f = get_or f.bytes 0 0 / 16 % 16

-- A frame that answers a request of a mode: a single frame or the first of several.
unfoldable pub is_answer : ℕ → CanFrame → Bool
is_answer mode f =
    f.id == response_ecu
    && (pci_type f == 0 && get_or f.bytes 1 0 == mode + 0x40
        || pci_type f == 1 && get_or f.bytes 2 0 == mode + 0x40)

abbrev pub answer_of : ℕ → Option CanFrame → Option CanFrame
answer_of mode none = none
answer_of mode (some f) = if is_answer mode f then some f else none

-- The loop from its k-th round on. The outer `none` means that the fuel ran out; `some none` is a
-- timeout.
unfoldable pub await : ℕ → ℕ → Exchange → ℕ → ℕ → Option (Option CanFrame)
await zero k x timeout_ms mode = none
await (suc fuel) k x timeout_ms mode =
    let rest = await fuel (suc k) x timeout_ms mode in
    if ltb (timeout_ms * 1000000) (x.elapsed k)
    then some none
    else elim (answer_of mode (x.received k)) [ none ↦ rest | some f ↦ some (some f) ]

abbrev pub account : Obd → Option CanFrame → Option CanFrame × Obd
account o none = (none, record o { timeout_count = u32 (o.timeout_count + 1) })
account o (some f) = (some f, o)

abbrev pub accounted : Obd → Option (Option CanFrame) → Option (Option CanFrame × Obd)
accounted o none = none
accounted o (some r) = some (account o r)

abbrev pub effective_timeout : ℕ → Obd → ℕ
effective_timeout timeout_ms o = if timeout_ms == 0 then o.timeout_ms else timeout_ms

-- The rounds that are enough: each sleeps for a millisecond.
abbrev pub rounds : ℕ → ℕ
rounds timeout_ms = timeout_ms + 2

unfoldable pub send_and_receive : Exchange → CanFrame → ℕ → Obd → Option (Option CanFrame × Obd)
send_and_receive x request timeout_ms o =
    let counted : Obd = record o { request_count = u32 (o.request_count + 1) } in
    let limit = effective_timeout timeout_ms o in
    if x.sent
    then accounted counted (await (rounds limit) 0 x limit (get_or request.bytes 1 0))
    else some (none, record counted { error_count = u32 (o.error_count + 1) })

-- Each round of the loop takes at least a millisecond, as `sleep_for` says.
abbrev pub Sleeps : Exchange → Type 0
Sleeps x = (k : ℕ) → k * 1000000 ≤ x.elapsed k
