-- ===== src/Obd/Descriptions.antt =====
-- The known trouble codes: `DTC::getDescription` of src/can_service/src/obd_handler.cpp.
use Prim.Native.Char.{code}
use rpi_speeduino_dashboard.Common.{
  ℕ, Bool, true, false, ◌&&◌, ◌==◌, String, List, [], ◌∷◌, if◌then◌else◌,
}

-- The bytes of an ASCII text, as a `std::string` holds them.
abbrev pub codes : String → List ℕ
codes String.[] = []
codes (String.◌∷◌ c s) = code c ∷ codes s

unfoldable pub same_bytes : List ℕ → List ℕ → Bool
same_bytes [] [] = true
same_bytes [] (b ∷ bs) = false
same_bytes (a ∷ as') [] = false
same_bytes (a ∷ as') (b ∷ bs) = a == b && same_bytes as' bs

find_description : List ℕ → List (String × String) → String
unfolding same_bytes
find_description c [] = "Unknown DTC"
find_description c ((key, text) ∷ rest) =
    let other = find_description c rest in if same_bytes c (codes key) then text else other

abbrev dtc_database : List (String × String)
dtc_database =
    ("P0105", "MAP sensor malfunction")
    ∷ ("P0107", "MAP sensor low input")
    ∷ ("P0108", "MAP sensor high input")
    ∷ ("P0110", "IAT sensor circuit malfunction")
    ∷ ("P0112", "IAT sensor low input")
    ∷ ("P0113", "IAT sensor high input")
    ∷ ("P0115", "CLT sensor circuit malfunction")
    ∷ ("P0117", "CLT sensor low input")
    ∷ ("P0118", "CLT sensor high input")
    ∷ ("P0120", "TPS circuit malfunction")
    ∷ ("P0121", "TPS range/performance problem")
    ∷ ("P0122", "TPS low input")
    ∷ ("P0123", "TPS high input")
    ∷ ("P0130", "O2 sensor circuit malfunction (Bank 1 Sensor 1)")
    ∷ ("P0131", "O2 sensor low voltage (Bank 1 Sensor 1)")
    ∷ ("P0132", "O2 sensor high voltage (Bank 1 Sensor 1)")
    ∷ ("P0133", "O2 sensor slow response (Bank 1 Sensor 1)")
    ∷ ("P0171", "System too lean (Bank 1)")
    ∷ ("P0172", "System too rich (Bank 1)")
    ∷ ("P0174", "System too lean (Bank 2)")
    ∷ ("P0175", "System too rich (Bank 2)")
    ∷ ("P0217", "Engine overtemp condition")
    ∷ ("P0219", "Engine overspeed condition")
    ∷ ("P0230", "Fuel pump primary circuit malfunction")
    ∷ ("P0231", "Fuel pump secondary circuit low")
    ∷ ("P0232", "Fuel pump secondary circuit high")
    ∷ ("P0335", "Crankshaft position sensor A circuit")
    ∷ ("P0336", "Crankshaft position sensor A range/performance")
    ∷ ("P0337", "Crankshaft position sensor A low input")
    ∷ ("P0338", "Crankshaft position sensor A high input")
    ∷ ("P0340", "Camshaft position sensor A circuit (Bank 1)")
    ∷ ("P0341", "Camshaft position sensor A range/performance")
    ∷ ("P0342", "Camshaft position sensor A low input")
    ∷ ("P0343", "Camshaft position sensor A high input")
    ∷ ("P0351", "Ignition coil A primary/secondary circuit")
    ∷ ("P0352", "Ignition coil B primary/secondary circuit")
    ∷ ("P0353", "Ignition coil C primary/secondary circuit")
    ∷ ("P0354", "Ignition coil D primary/secondary circuit")
    ∷ ("P0520", "Engine oil pressure sensor/switch circuit")
    ∷ ("P0521", "Engine oil pressure sensor range/performance")
    ∷ ("P0522", "Engine oil pressure sensor low voltage")
    ∷ ("P0523", "Engine oil pressure sensor high voltage")
    ∷ ("P0524", "Engine oil pressure too low")
    ∷ ("P0560", "System voltage malfunction")
    ∷ ("P0562", "System voltage low")
    ∷ ("P0563", "System voltage high")
    ∷ ("P0505", "Idle air control system malfunction")
    ∷ ("P0506", "Idle air control system RPM lower than expected")
    ∷ ("P0507", "Idle air control system RPM higher than expected")
    ∷ ("P0325", "Knock sensor 1 circuit (Bank 1)")
    ∷ ("P0326", "Knock sensor 1 range/performance")
    ∷ ("P0327", "Knock sensor 1 low input")
    ∷ ("P0328", "Knock sensor 1 high input")
    ∷ ("P1000", "OBD system readiness not complete")
    ∷ []

unfoldable pub get_description : List ℕ → String
unfolding find_description
get_description c = find_description c dtc_database
