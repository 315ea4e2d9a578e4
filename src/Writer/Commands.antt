-- ===== src/Writer/Commands.antt =====
-- `CanWriter` of src/can_service/src/can_writer.cpp and its header.
use rpi_speeduino_dashboard.Common.{
  ℕ, zero, suc, ◌+◌, Bool, not, Option, none, some, List, [], ◌∷◌, String, ltb, if◌then◌else◌, u32,
}
use rpi_speeduino_dashboard.Common.Maps.{find, put, emplace, is_some}
use rpi_speeduino_dashboard.Bus.{CanFrame, make_frame}
use rpi_speeduino_dashboard.Writer.Bucket.{Bucket, new_bucket, try_consume}

pub record CanCommandDef : Type 0 where
  pub can_id : ℕ
  pub rate_limit_hz : ℕ
  pub description : String

pub data SendResult : Type 0 where
  ok blocked rate_limited can_error invalid : SendResult

-- `handed` are the frames that were given to `CanInterface::send`, the last one first.
pub record Writer : Type 0 where
  pub whitelist : List (ℕ × ℕ)
  pub rate_limiters : List (ℕ × Bucket)
  pub sent_count : ℕ
  pub blocked_count : ℕ
  pub rate_limited_count : ℕ
  pub handed : List CanFrame

unfoldable pub new_writer : Writer
new_writer = record {
  whitelist = [];
  rate_limiters = [];
  sent_count = 0;
  blocked_count = 0;
  rate_limited_count = 0;
  handed = [];
}

-- One round of the loop over the commands.
unfoldable pub add_command : ℕ → CanCommandDef → Writer → Writer
add_command now c w = record w {
  whitelist = put c.can_id c.rate_limit_hz w.whitelist;
  rate_limiters = emplace c.can_id (new_bucket now c.rate_limit_hz) w.rate_limiters;
}

unfoldable pub add_commands : ℕ → List CanCommandDef → Writer → Writer
add_commands now [] w = w
add_commands now (c ∷ cs) w = add_commands now cs (add_command now c w)

-- `now` stands for the clock while the commands are loaded.
unfoldable pub load_allowed_commands : ℕ → List CanCommandDef → Writer → Writer
load_allowed_commands now cs w =
    add_commands now cs (record w { whitelist = []; rate_limiters = [] })

unfoldable pub is_allowed : ℕ → Writer → Bool
is_allowed id w = is_some (find id w.whitelist)

unfoldable pub get_rate_limit : ℕ → Writer → ℕ
get_rate_limit id w = elim (find id w.whitelist) [ none ↦ 0 | some rate ↦ rate ]

-- `memcpy`: the first `n` bytes of an array are overwritten. The caller of `send` passes at least as
-- many.
unfoldable pub copy : ℕ → List ℕ → List ℕ → List ℕ
copy zero source target = target
copy (suc n) source [] = []
copy (suc n) [] target = target
copy (suc n) (b ∷ source) (a ∷ target) = b ∷ copy n source target

-- The end of `send`; `accepts` is what the interface answers.
unfoldable pub write : ℕ → List ℕ → ℕ → Bool → Writer → SendResult × Writer
write id bytes dlc accepts w =
    let frame = make_frame id dlc (copy dlc bytes (0 ∷ 0 ∷ 0 ∷ 0 ∷ 0 ∷ 0 ∷ 0 ∷ 0 ∷ [])) in
    let given : Writer = record w { handed = frame ∷ w.handed } in
    if accepts
    then (ok, record given { sent_count = u32 (given.sent_count + 1) })
    else (can_error, given)

-- The rate limit, for an identifier that is allowed.
unfoldable pub pass_limit : ℕ → ℕ → List ℕ → ℕ → Bool → Writer → SendResult × Writer
pass_limit now id bytes dlc accepts w = elim (find id w.rate_limiters) [
  | none ↦ write id bytes dlc accepts w
  | some b ↦
      let (granted, left) = try_consume now b in
      let charged : Writer = record w { rate_limiters = put id left w.rate_limiters } in
      if granted then write id bytes dlc accepts charged else (
        rate_limited,
        record charged { rate_limited_count = u32 (charged.rate_limited_count + 1) },
      )
]

-- `data` is `none` for a null pointer.
unfoldable pub send : ℕ → ℕ → Option (List ℕ) → ℕ → Bool → Writer → SendResult × Writer
send now id none dlc accepts w = (invalid, w)
send now id (some bytes) dlc accepts w =
    if ltb 8 dlc
    then (invalid, w)
    else if not (is_allowed id w)
    then (blocked, record w { blocked_count = u32 (w.blocked_count + 1) })
    else pass_limit now id bytes dlc accepts w

-- A call of `send` and what surrounds it.
pub record Command : Type 0 where
  pub now : ℕ
  pub id : ℕ
  pub payload : Option (List ℕ)
  pub dlc : ℕ
  pub accepts : Bool

abbrev pub send_command : Command → Writer → SendResult × Writer
send_command c w = send c.now c.id c.payload c.dlc c.accepts w

-- The writer after a sequence of calls, and their results in order.
unfoldable pub run : List Command → Writer → Writer
run [] w = w
run (c ∷ cs) w = run cs (send_command c w).1

unfoldable pub results : List Command → Writer → List SendResult
results [] w = []
results (c ∷ cs) w = (send_command c w).0 ∷ results cs (send_command c w).1
