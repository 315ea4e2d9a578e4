-- ===== src/ErrorHandler/Recovery.antt =====
-- `triggerRecovery` of src/can_service/src/can_error_handler.cpp: the check of the interface's name
-- and the restart of the interface through the kernel.
use Prim.Native.Nat.{bit_and, bit_or}
use rpi_speeduino_dashboard.Common.{
  ℕ, zero, suc, ◌-◌, Bool, true, false, Option, none, some, List, [], ◌∷◌, length, ltb,
  if◌then◌else◌,
}

-- What the C library and the kernel headers give: `isalpha` and `isdigit` on a byte, `IFNAMSIZ`,
-- `IFF_UP`.
pub record System : Type 0 where
  pub is_alpha : ℕ → Bool
  pub is_digit : ℕ → Bool
  pub if_name_size : ℕ
  pub iff_up : ℕ

-- What the kernel answers to the calls of one recovery, in the order in which they are made.
pub record Answers : Type 0 where
  pub socket : Bool
  pub index : Bool
  pub flags : Option ℕ
  pub down : Bool
  pub up : Bool

-- The calls that reach the kernel; those for the interface carry the name in `ifr_name`.
pub data Call : Type 0 where
  open_socket close_socket pause : Call
  get_index get_flags : List ℕ → Call
  set_flags : List ℕ → ℕ → Call

-- `strncpy(ifr_name, name, n)`
unfoldable pub take : ℕ → List ℕ → List ℕ
take zero cs = []
take (suc n) [] = []
take (suc n) (c ∷ cs) = c ∷ take n cs

module _ (y : System) where
  -- The loop over the name: `none` at the first character that is refused, else whether a letter
  -- was met.
  unfoldable pub scan_name : Bool → List ℕ → Option Bool
  scan_name has_letters [] = some has_letters
  scan_name has_letters (c ∷ cs) =
      let as_letter = scan_name true cs in
      let as_digit = scan_name has_letters cs in
      if y.is_alpha c then as_letter else if y.is_digit c then as_digit else none

  unfoldable pub is_accepted : List ℕ → Bool
  unfolding scan_name
  is_accepted [] = false
  is_accepted (c ∷ cs) =
      if ltb (y.if_name_size - 1) (length (c ∷ cs))
      then false
      else elim (scan_name false (c ∷ cs)) [ none ↦ false | some has_letters ↦ has_letters ]

  -- Down, a pause, and up again; the socket is closed on every way out.
  set_up : List ℕ → ℕ → Answers → Bool × List Call
  set_up name flags a =
      if a.up
      then (true, set_flags name flags ∷ close_socket ∷ [])
      else (false, set_flags name flags ∷ close_socket ∷ [])

  set_down : List ℕ → ℕ → Answers → Bool × List Call
  unfolding set_up
  set_down name flags a =
      let cleared = flags - bit_and flags y.iff_up in
      if a.down
      then (let (done, calls) = set_up name (bit_or cleared y.iff_up) a in
          (done, set_flags name cleared ∷ pause ∷ calls))
      else (false, set_flags name cleared ∷ close_socket ∷ [])

  restart : List ℕ → Answers → Bool × List Call
  unfolding set_down
  restart name a =
      if a.index
      then elim a.flags [
        | none ↦ (false, get_index name ∷ get_flags name ∷ close_socket ∷ [])
        | some flags ↦
            let (done, calls) = set_down name flags a in
            (done, get_index name ∷ get_flags name ∷ calls)
      ]
      else (false, get_index name ∷ close_socket ∷ [])

  -- The calls on an accepted name, which `ifr_name` holds.
  unfoldable pub on_socket : List ℕ → Answers → Bool × List Call
  unfolding restart
  on_socket name a =
      if a.socket
      then (let (done, calls) = restart name a in (done, open_socket ∷ calls))
      else (false, open_socket ∷ [])

  -- The result, and the calls made.
  unfoldable pub trigger_recovery : List ℕ → Answers → Bool × List Call
  trigger_recovery name a =
      if is_accepted name then on_socket (take (y.if_name_size - 1) name) a else (false, [])
