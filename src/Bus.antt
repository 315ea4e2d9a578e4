-- ===== src/Bus.antt =====
-- The CAN bus as the services see it, src/can_service/include/can_service/can_interface.hpp. The
-- sockets behind `CanInterface` are outside the model: what they answer is an argument.
use rpi_speeduino_dashboard.Common.{ℕ, ◌<◌, ◌≡◌, Bool, false, List, length, All}

-- `bytes` is the array `data`, of eight elements.
pub record CanFrame : Type 0 where
  pub id : ℕ
  pub dlc : ℕ
  pub bytes : List ℕ
  pub timestamp_us : ℕ
  pub is_extended : Bool
  pub is_rtr : Bool
  pub is_error : Bool

-- A frame built by setting the identifier, the length and the eight bytes.
unfoldable pub make_frame : ℕ → ℕ → List ℕ → CanFrame
make_frame id dlc bytes = record {
  id = id;
  dlc = dlc;
  bytes = bytes;
  timestamp_us = 0;
  is_extended = false;
  is_rtr = false;
  is_error = false;
}

-- Eight bytes.
pub record IsPayload (bytes : List ℕ) : Type 0 where
  pub count : length bytes ≡ 8
  pub small : All (λ b. b < 256) bytes
