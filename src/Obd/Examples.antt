-- ===== src/Obd/Examples.antt =====
-- The OBD-II handler at concrete frames.
use rpi_speeduino_dashboard.Common.{
  ℕ, ◌*◌, ◌≡◌, ◌≢◌, refl, true, false, Option, none, some, List, [], ◌∷◌, ◌++◌, arith, ◌==◌,
  if◌then◌else◌,
}
use rpi_speeduino_dashboard.Bus.{CanFrame, make_frame}
use rpi_speeduino_dashboard.Obd.Codes.{
  from_bytes, code_of_bytes, category_char, hex_char, bytes_of_code, bytes_of_code-from_bytes,
}
use rpi_speeduino_dashboard.Obd.Descriptions.{codes, get_description}
use rpi_speeduino_dashboard.Obd.Request.{Obd, new_obd, build_request, request_bytes}
use rpi_speeduino_dashboard.Obd.Exchange.{Exchange, effective_timeout, send_and_receive}
use rpi_speeduino_dashboard.Obd.Answers.{Outcome, send_and_receive-Outcome}
use rpi_speeduino_dashboard.Obd.Supported.{get_supported_pids}
use rpi_speeduino_dashboard.Obd.Pids.{get_supported_pids-total}
use rpi_speeduino_dashboard.Obd.LiveData.{LiveData}
use rpi_speeduino_dashboard.Obd.Vin.{
  Tail, take_frame, add_chars, bytes_from, is_next, collect, Partial, vin_of, non_empty,
}
use rpi_speeduino_dashboard.Obd.Assembly.{IsDelivery, vin_of-delivery}
use rpi_speeduino_dashboard.Obd.EcuName.{
  until_zero, add_until_zero, has_zero, take_name_frame, collect_name, name_of,
}

lean_code : (from_bytes 0x01 0x71).code ≡ codes "P0171"
unfolding from_bytes code_of_bytes category_char hex_char
lean_code = refl

lean_text : (from_bytes 0x01 0x71).description ≡ "System too lean (Bank 1)"
unfolding from_bytes code_of_bytes category_char hex_char get_description
lean_text = refl

bytes_of_code-from_bytes_example : bytes_of_code (from_bytes 0xc3 0x5a).code ≡ some (0xc3, 0x5a)
bytes_of_code-from_bytes_example = bytes_of_code-from_bytes 0xc3 0x5a (omega arith) (omega arith)

-- The request for the PIDs 1 to 32 has PID 0, and goes out with the mode alone.
first_range_request : (build_request new_obd 1 0 0).bytes ≡ 1 ∷ 1 ∷ 0 ∷ 0 ∷ 0 ∷ 0 ∷ 0 ∷ 0 ∷ []
unfolding build_request request_bytes make_frame
first_range_request = refl

abbrev rpm_answer : CanFrame
rpm_answer = record {
  id = 0x7e8;
  dlc = 8;
  bytes = 4 ∷ 0x41 ∷ 0x0c ∷ 0x1a ∷ 0xf8 ∷ 0 ∷ 0 ∷ 0 ∷ [];
  timestamp_us = 0;
  is_extended = false;
  is_rtr = false;
  is_error = false;
}

-- A bus that always has this answer, with rounds of a millisecond.
abbrev prompt : Exchange
prompt = record { sent = true; elapsed = λ k. k * 1000000; received = λ k. some rpm_answer }

abbrev rpm_request : CanFrame
rpm_request = record rpm_answer { id = 0x7df; bytes = 2 ∷ 1 ∷ 0x0c ∷ 0 ∷ 0 ∷ 0 ∷ 0 ∷ 0 ∷ [] }

send_and_receive-Outcome_example :
    (a : Option CanFrame) × (o' : Obd) × (send_and_receive prompt rpm_request 0 new_obd
      ≡ some (a, o'))
    × Outcome prompt (effective_timeout 0 new_obd) 1 new_obd a o'
send_and_receive-Outcome_example =
    send_and_receive-Outcome prompt rpm_request 0 new_obd (λ k. omega arith)

get_supported_pids-total_example : get_supported_pids (λ n. prompt) new_obd ≢ none
get_supported_pids-total_example =
    get_supported_pids-total (λ n. prompt) new_obd (λ m k. omega arith)

abbrev bitmap : CanFrame
bitmap = record rpm_answer { bytes = 6 ∷ 0x41 ∷ 0 ∷ 0x80 ∷ 0 ∷ 0 ∷ 1 ∷ 0 ∷ [] }

abbrev first_frame : CanFrame
first_frame = record rpm_answer { bytes = 0x10 ∷ 0x14 ∷ 0x49 ∷ 2 ∷ 1 ∷ b'9' ∷ b'B' ∷ b'W' ∷ [] }

abbrev second_frame : CanFrame
second_frame = record rpm_answer {
  bytes = 0x21 ∷ b'Z' ∷ b'Z' ∷ b'Z' ∷ b'3' ∷ b'0' ∷ b'Z' ∷ b'F' ∷ [];
}

abbrev third_frame : CanFrame
third_frame = record rpm_answer {
  bytes = 0x22 ∷ b'T' ∷ b'0' ∷ b'0' ∷ b'0' ∷ b'0' ∷ b'0' ∷ b'1' ∷ [];
}

abbrev arrivals : ℕ → Option CanFrame
arrivals k =
    if k == 0
    then none
    else if k == 1
    then some second_frame
    else if k == 2
    then some third_frame
    else none

-- Silence once, then the two frames.
abbrev tail : Tail
tail = record { sent = true; elapsed = λ k. k * 100000000; received = arrivals }

tail-IsDelivery : IsDelivery tail 1 0 second_frame third_frame
unfolding is_next
tail-IsDelivery = record {
  sent = refl;
  in_time = λ m h. omega arith;
  noise_before = λ m h. ground arith;
  second_at = refl;
  is_second = refl;
  noise_between = λ m h h'. absurd (omega arith);
  third_at = refl;
  is_third = refl;
}

vin_of-delivery_example :
    vin_of 12 tail first_frame
    ≡ some (
        some (
          (bytes_from first_frame 5 3 ++ bytes_from second_frame 1 7)
          ++ bytes_from third_frame 1 7))
unfolding bytes_from
vin_of-delivery_example =
    vin_of-delivery tail 1 0 second_frame third_frame tail-IsDelivery 12 first_frame refl refl refl
      (ground arith) (ground arith) (ground arith) (omega arith)

abbrev started : Partial
started = record { vin = b'9' ∷ []; expected = 1 }

abbrev finished : List ℕ
finished = (b'9' ∷ [] ++ bytes_from second_frame 1 7) ++ bytes_from third_frame 1 7

finishes : collect 12 0 tail started ≡ some finished
unfolding bytes_from collect take_frame add_chars is_next
finishes = refl

-- The name "SPD-ECU", with a zero in the consecutive frame.
abbrev name_frame : CanFrame
name_frame = record rpm_answer { bytes = 0x10 ∷ 0x0b ∷ 0x49 ∷ 0x0a ∷ 1 ∷ b'S' ∷ b'P' ∷ b'D' ∷ [] }

abbrev name_rest : CanFrame
name_rest = record rpm_answer { bytes = 0x21 ∷ b'-' ∷ b'E' ∷ b'C' ∷ b'U' ∷ 0 ∷ b'x' ∷ 0 ∷ [] }

abbrev name_tail : Tail
name_tail = record { sent = true; elapsed = λ k. k * 100000000; received = λ k. some name_rest }

ecu_name :
    name_of 12 name_tail name_frame
    ≡ some (some (b'S' ∷ b'P' ∷ b'D' ∷ b'-' ∷ b'E' ∷ b'C' ∷ b'U' ∷ []))
unfolding name_of collect_name take_name_frame add_until_zero has_zero until_zero bytes_from is_next
    non_empty
ecu_name = refl
