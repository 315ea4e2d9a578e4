-- ===== src/OpenAuto/Devices.antt =====
-- The search for Android devices on the USB bus, src/hmi_launcher/src/openauto_controller.cpp.
use rpi_speeduino_dashboard.Common.{
  ℕ, ◌+◌, Bool, true, false, not, ◌&&◌, ◌||◌, List, [], ◌∷◌, Option, none, some, String, ◌<>◌,
  str_eq, if◌then◌else◌,
}
use rpi_speeduino_dashboard.OpenAuto.State.{Controller, Texts, phone_name_changed, look_for_devices}
use rpi_speeduino_dashboard.OpenAuto.Slots.{emit, single_shot, usb_debounce_delay_ms}
use rpi_speeduino_dashboard.OpenAuto.Control.{Answers, start}

-- A directory of /sys/bus/usb/devices, with the trimmed contents of the files that can be opened.
pub record Device : Type 0 where
  pub path : String
  pub vendor : Option String
  pub product_id : Option String
  pub manufacturer : Option String
  pub product : Option String

unfoldable pub aa_usb_ids : List String
aa_usb_ids =
    "18d1:" ∷ "04e8:" ∷ "22b8:" ∷ "0bb4:" ∷ "2717:" ∷ "12d1:" ∷ "2a70:" ∷ "05c6:" ∷ "1004:"
    ∷ "0fce:" ∷ "2916:" ∷ "1949:" ∷ "2ae5:" ∷ "0e8d:" ∷ "19d2:" ∷ "2b4c:" ∷ "0502:" ∷ "1ebf:" ∷ []

abbrev text_or_empty : Option String → String
text_or_empty none = ""
text_or_empty (some s) = s

unfoldable pub get_device_name : Device → String
get_device_name d =
    let manufacturer = text_or_empty d.manufacturer in
    let product = text_or_empty d.product in
    if not (str_eq manufacturer "") && not (str_eq product "")
    then manufacturer <> (" " <> product)
    else if not (str_eq manufacturer "")
    then manufacturer
    else if not (str_eq product "")
    then product
    else "Android Device"

unfoldable pub on_usb_device_changed : ℕ → Controller → Controller
on_usb_device_changed now c = single_shot (now + usb_debounce_delay_ms) look_for_devices c

-- The name of a device in the list, which goes by other files than `getDeviceName`.
unfoldable pub listed_name : Device → String
listed_name d =
    let product = text_or_empty d.product in
    let named : String = elim d.manufacturer [
      | none ↦ "Unknown Android Device"
      | some manufacturer ↦ manufacturer
    ] in
    if str_eq product "" then named else named <> (" " <> product)

-- The device that the search has found.
unfoldable pub note_device : Option Device → Controller → Controller × Bool
note_device none c = (record c { last_detected_device = "" }, false)
note_device (some d) c =
    let name = get_device_name d in
    let found : Controller = record c { phone_name = name; last_detected_device = d.path } in
    ((if str_eq name c.phone_name then found else emit phone_name_changed found), true)

module _ (q : Texts) where
  -- Whether one of the identifiers starts with the vendor's number.
  unfoldable pub is_vendor : String → List String → Bool
  is_vendor vendor [] = false
  is_vendor vendor (id ∷ ids) = q.same vendor (q.left 4 id) || is_vendor vendor ids

  unfoldable pub first_android : List Device → Option Device
  first_android [] = none
  first_android (d ∷ ds) =
      let rest = first_android ds in
      elim d.vendor [
        | none ↦ rest
        | some vendor ↦ if is_vendor vendor aa_usb_ids then some d else rest
      ]

  -- `none` for a bus that does not exist.
  unfoldable pub detect_android_auto_device : Option (List Device) → Controller → Controller × Bool
  detect_android_auto_device none c = (c, false)
  detect_android_auto_device (some ds) c = note_device (first_android ds) c

  unfoldable pub check_usb_devices : Answers → Option (List Device) → ℕ → Controller → Controller
  check_usb_devices a bus now c =
      let (seen, found) = detect_android_auto_device bus c in
      if (found && not seen.connected) && (seen.auto_start && not seen.running)
      then (start q a now seen).0
      else seen

  unfoldable pub is_listed : String → List String → Bool
  is_listed usb_id [] = false
  is_listed usb_id (id ∷ ids) = q.starts_with usb_id (q.left 4 id) || is_listed usb_id ids

  unfoldable pub get_connected_devices : List Device → List String
  get_connected_devices [] = []
  get_connected_devices (d ∷ ds) =
      let rest = get_connected_devices ds in
      let entry : Option String = elim d.vendor [
        | none ↦ none
        | some vendor ↦ elim d.product_id [
          | none ↦ none
          | some product_id ↦ some (vendor <> (":" <> product_id))
        ]
      ] in
      elim entry [
        | none ↦ rest
        | some usb_id ↦ if is_listed usb_id aa_usb_ids then listed_name d ∷ rest else rest
      ]
