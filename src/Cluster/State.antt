-- ===== src/Cluster/State.antt =====
-- The members of `BMWClusterSim` and its setters, src/can_service/src/bmw_cluster_sim.cpp and its
-- header.
use rpi_speeduino_dashboard.Common.{ℕ, ◌==◌, Bool, true, false, List, [], if◌then◌else◌}
use rpi_speeduino_dashboard.Common.Int.{ltb_ℤ, ℤ, pos, negsuc}
use rpi_speeduino_dashboard.Bus.{CanFrame}

pub data BmwGear : Type 0 where
  park : BmwGear
  reverse : BmwGear
  neutral : BmwGear
  drive : BmwGear
  gear_1 : BmwGear
  gear_2 : BmwGear
  gear_3 : BmwGear
  gear_4 : BmwGear
  gear_5 : BmwGear
  gear_6 : BmwGear
  manual : BmwGear

-- The letter or digit that the cluster shows.
unfoldable pub gear_code : BmwGear → ℕ
gear_code park = 0x50
gear_code reverse = 0x52
gear_code neutral = 0x4e
gear_code drive = 0x44
gear_code gear_1 = 0x31
gear_code gear_2 = 0x32
gear_code gear_3 = 0x33
gear_code gear_4 = 0x34
gear_code gear_5 = 0x35
gear_code gear_6 = 0x36
gear_code manual = 0x4d

-- The members that the setters write.
pub record Settings : Type 0 where
  pub asc_enabled : Bool
  pub egs_enabled : Bool
  pub sas_enabled : Bool
  pub abs_enabled : Bool
  pub dsc_off : Bool
  pub dsc_active : Bool
  pub traction_active : Bool
  pub abs_active : Bool
  pub gear : BmwGear
  pub sport_mode : Bool
  pub steering_angle : ℤ
  pub steering_rate : ℤ
  pub wheel_speed_fl : ℕ
  pub wheel_speed_fr : ℕ
  pub wheel_speed_rl : ℕ
  pub wheel_speed_rr : ℕ

-- `handed` holds the frames that the interface was given, the last one first.
pub record Cluster : Type 0 where
  pub settings : Settings
  pub running : Bool
  pub tick_counter : ℕ
  pub frames_sent : ℕ
  pub frames_failed : ℕ
  pub handed : List CanFrame

unfoldable pub new_settings : Settings
new_settings = record {
  asc_enabled = true;
  egs_enabled = true;
  sas_enabled = false;
  abs_enabled = false;
  dsc_off = false;
  dsc_active = false;
  traction_active = false;
  abs_active = false;
  gear = neutral;
  sport_mode = false;
  steering_angle = pos 0;
  steering_rate = pos 0;
  wheel_speed_fl = 0;
  wheel_speed_fr = 0;
  wheel_speed_rl = 0;
  wheel_speed_rr = 0;
}

unfoldable pub new_cluster : Cluster
new_cluster = record {
  settings = new_settings;
  running = false;
  tick_counter = 0;
  frames_sent = 0;
  frames_failed = 0;
  handed = [];
}

-- The gear that a number stands for.
unfoldable pub gear_of : ℕ → BmwGear
gear_of gear =
    if gear == 0
    then neutral
    else if gear == 1
    then gear_1
    else if gear == 2
    then gear_2
    else if gear == 3
    then gear_3
    else if gear == 4
    then gear_4
    else if gear == 5
    then gear_5
    else if gear == 6
    then gear_6
    else if gear == 7
    then reverse
    else neutral

unfoldable pub set_gear : ℕ → Settings → Settings
set_gear gear s = record s { gear = gear_of gear }

-- `std::clamp` on signed numbers.
unfoldable pub clamp : ℤ → ℤ → ℤ → ℤ
clamp low high v = if ltb_ℤ v low then low else if ltb_ℤ high v then high else v

unfoldable pub set_steering_angle : ℤ → Settings → Settings
set_steering_angle angle s = record s { steering_angle = clamp (negsuc 719) (pos 720) angle }

unfoldable pub set_all_wheel_speeds : ℕ → Settings → Settings
set_all_wheel_speeds speed s = record s {
  wheel_speed_fl = speed;
  wheel_speed_fr = speed;
  wheel_speed_rl = speed;
  wheel_speed_rr = speed;
}
