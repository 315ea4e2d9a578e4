-- ===== src/ErrorHandler/Text.antt =====
-- `parseProtocolError` of src/can_service/src/can_error_handler.cpp.
use rpi_speeduino_dashboard.Common.{
  ℕ, ◌/◌, ◌%◌, String, ◌<>◌, List, [], ◌∷◌, ◌==◌, if◌then◌else◌, get_or, ltb,
}

-- The constants of <linux/can/error.h>, which is not in the repository: masks of the identifier,
-- masks of `data[1]`, the values of `data[2]` and `data[3]`.
pub record CanErrors : Type 0 where
  pub err_tx_timeout : ℕ
  pub err_lostarb : ℕ
  pub err_crtl : ℕ
  pub err_prot : ℕ
  pub err_trx : ℕ
  pub err_ack : ℕ
  pub err_busoff : ℕ
  pub err_buserror : ℕ
  pub err_restarted : ℕ
  pub crtl_rx_warning : ℕ
  pub crtl_tx_warning : ℕ
  pub crtl_rx_passive : ℕ
  pub crtl_tx_passive : ℕ
  pub crtl_active : ℕ
  pub prot_bit : ℕ
  pub prot_form : ℕ
  pub prot_stuff : ℕ
  pub prot_bit0 : ℕ
  pub prot_bit1 : ℕ
  pub prot_overload : ℕ
  pub prot_active : ℕ
  pub prot_tx : ℕ
  pub loc_sof : ℕ
  pub loc_id28_21 : ℕ
  pub loc_id20_18 : ℕ
  pub loc_srtr : ℕ
  pub loc_ide : ℕ
  pub loc_id17_13 : ℕ
  pub loc_id12_05 : ℕ
  pub loc_id04_00 : ℕ
  pub loc_rtr : ℕ
  pub loc_res1 : ℕ
  pub loc_res0 : ℕ
  pub loc_dlc : ℕ
  pub loc_data : ℕ
  pub loc_crc_seq : ℕ
  pub loc_crc_del : ℕ
  pub loc_ack : ℕ
  pub loc_ack_del : ℕ
  pub loc_eof : ℕ
  pub loc_interm : ℕ

abbrev hex_digits : List String
hex_digits =
    "0" ∷ "1" ∷ "2" ∷ "3" ∷ "4" ∷ "5" ∷ "6" ∷ "7" ∷ "8" ∷ "9" ∷ "a" ∷ "b" ∷ "c" ∷ "d" ∷ "e" ∷ "f"
    ∷ []

-- `std::hex << n` for a byte.
hex_byte : ℕ → String
hex_byte n =
    if ltb n 16
    then get_or hex_digits n ""
    else get_or hex_digits (n / 16) "" <> get_or hex_digits (n % 16) ""

unknown_text : ℕ → String
unfolding hex_byte
unknown_text n = "unknown (0x" <> (hex_byte n <> ")")

-- A `switch` over constants, with its `default`.
switch_text : ℕ → List (ℕ × String) → String
unfolding unknown_text
switch_text n [] = unknown_text n
switch_text n ((c, text) ∷ rest) = if n == c then text else switch_text n rest

module _ (k : CanErrors) where
  unfoldable pub type_text : ℕ → String
  unfolding switch_text
  type_text type = switch_text type (
      (k.prot_bit, "single bit error")
      ∷ (k.prot_form, "frame format error")
      ∷ (k.prot_stuff, "bit stuffing error")
      ∷ (k.prot_bit0, "unable to send dominant bit")
      ∷ (k.prot_bit1, "unable to send recessive bit")
      ∷ (k.prot_overload, "bus overload")
      ∷ (k.prot_active, "active error announcement")
      ∷ (k.prot_tx, "error on transmission")
      ∷ [])

  unfoldable pub location_text : ℕ → String
  unfolding switch_text
  location_text location = switch_text location (
      (k.loc_sof, "start of frame")
      ∷ (k.loc_id28_21, "ID bits 28-21")
      ∷ (k.loc_id20_18, "ID bits 20-18")
      ∷ (k.loc_srtr, "SRTR bit")
      ∷ (k.loc_ide, "IDE bit")
      ∷ (k.loc_id17_13, "ID bits 17-13")
      ∷ (k.loc_id12_05, "ID bits 12-5")
      ∷ (k.loc_id04_00, "ID bits 4-0")
      ∷ (k.loc_rtr, "RTR bit")
      ∷ (k.loc_res1, "reserved bit 1")
      ∷ (k.loc_res0, "reserved bit 0")
      ∷ (k.loc_dlc, "data length code")
      ∷ (k.loc_data, "data section")
      ∷ (k.loc_crc_seq, "CRC sequence")
      ∷ (k.loc_crc_del, "CRC delimiter")
      ∷ (k.loc_ack, "ACK slot")
      ∷ (k.loc_ack_del, "ACK delimiter")
      ∷ (k.loc_eof, "end of frame")
      ∷ (k.loc_interm, "intermission")
      ∷ [])

  unfoldable pub parse_protocol_error : ℕ → ℕ → String
  unfolding type_text location_text
  parse_protocol_error location type = type_text type <> (" at " <> location_text location)
