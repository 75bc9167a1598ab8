-- ===== src/Examples.antt =====
-- Concrete inputs that the tests of the components share: fixed-point numbers for `double`, a
-- vehicle that flies, a MAVLink dialect with messages of one byte, and what a poll finds outside.
use companion_lab.Prelude.{
  ℕ, ◌+◌, ◌-◌, ◌*◌, ◌/◌, ◌^◌, true, false, none, some, [], ◌∷◌, arith, ltb, leb, ◌==◌,
}
use companion_lab.Prelude.Int.{pos, pos_part}
use companion_lab.Prelude.Text.{to_string}
use companion_lab.Prelude.Doubles.{Doubles, IsOrdered}
use companion_lab.Vehicle.Snapshot.{VehicleSnapshot}
use companion_lab.Mavlink.{Mavlink}
use companion_lab.Mavlink.Encoder.{Casts}
use companion_lab.Mavlink.Messages.{Messages, Framing, BatteryStatus, AutopilotVersion}
use companion_lab.Transform.{CameraExtrinsics}
use companion_lab.Application.Frames.{Transport}
use companion_lab.Application.Watch.{Surroundings}
use companion_lab.Prelude.Time.{seconds}
use companion_lab.Prelude.{if◌then◌else◌}
use companion_lab.Decision.{BodyFramePosition}
use companion_lab.Failsafe.{
  CompanionLinkFailsafeSnapshot, CompanionLinkFailsafePhase, ArduPilotGcsFailsafeAction,
}

-- A number of thousandths that is not negative.
instance abbrev pub thousandths : Doubles ℕ
thousandths = record {
  of_decimal = λ m k. (m * 1000) / (10 ^ k);
  of_int = λ i. pos_part i * 1000;
  is_finite = λ x. true;
  lt = ltb;
  le = leb;
  eq = λ x y. x == y;
  add = λ x y. x + y;
  sub = λ x y. x - y;
  mul = λ x y. (x * y) / 1000;
  div = λ x y. (x * 1000) / y;
  abs = λ x. x;
  trunc = λ x. (x / 1000) * 1000;
  to_ℕ = λ x. x / 1000;
  fixed = λ k x. to_string (x / 1000);
  general = λ x. to_string (x / 1000);
}

pub thousandths-IsOrdered : IsOrdered thousandths
thousandths-IsOrdered = record {
  lt_asym = λ a b h. ground arith;
  lt_cotrans = λ a b c f g h. ground arith;
}

-- A quadcopter in GUIDED mode, armed, at two metres.
abbrev pub flying : VehicleSnapshot ℕ
flying = record {
  connected = true;
  gps_ready = true;
  battery_ready = true;
  system_health_known = true;
  system_health_ok = true;
  armable = true;
  armed = true;
  system_id = some 1;
  component_id = some 1;
  vehicle_type = some 2;
  autopilot_type = some 3;
  system_status = some 4;
  flight_mode = some 4;
  gps_fix_type = some 3;
  satellites_visible = some 12;
  relative_altitude_m = some 2000;
  local_north_m = none;
  local_east_m = none;
  local_down_m = none;
  roll_rad = none;
  pitch_rad = none;
  yaw_rad = none;
  battery_voltage_v = some 12600;
  battery_current_a = none;
  battery_remaining_pct = none;
  battery_arming_voltage_v = some 11000;
  autopilot_metadata = none;
  warnings = [];
}

-- The same on the ground, before it is armed.
abbrev pub standing : VehicleSnapshot ℕ
standing = record flying { armed = false; flight_mode = some 0; relative_altitude_m = some 0 }

-- A failsafe that was accepted.
abbrev pub safe : CompanionLinkFailsafeSnapshot ℕ
safe = record {
  phase = CompanionLinkFailsafePhase.accepted;
  detail = "";
  heartbeat_system_id = some 1;
  configured_gcs_system_id = some 1;
  action = some ArduPilotGcsFailsafeAction.land;
  timeout_s = some 5000;
  options = some 0;
  parameters_received = 4;
  parameters_required = 4;
}

-- A target ahead, five metres below.
abbrev pub pad : BodyFramePosition ℕ
pad = record { forward_m = 300; right_m = 100; down_m = 5000 }

-- The ids of the MAVLink dialect, and the plain list of the arguments for the bytes.
instance abbrev pub dialect : Mavlink
dialect = record {
  sys_status = 1;
  gps_raw_int = 24;
  battery_status = 147;
  global_position_int = 33;
  local_position_ned = 32;
  attitude = 30;
  cmd_set_message_interval = 511;
  cmd_request_message = 512;
  cmd_do_set_mode = 176;
  cmd_component_arm_disarm = 400;
  cmd_nav_takeoff = 22;
  cmd_nav_land = 21;
  cmd_nav_return_to_launch = 20;
  result_accepted = 0;
  result_temporarily_rejected = 1;
  result_denied = 2;
  result_unsupported = 3;
  result_failed = 4;
  result_in_progress = 5;
  result_cancelled = 6;
  mode_flag_custom_mode_enabled = 1;
  frame_body_frd = 12;
  landing_target_type_vision_fiducial = 2;
  autopilot_version = 148;
  autopilot_invalid = 8;
  type_onboard_controller = 18;
  state_active = 4;
  comp_id_autopilot1 = 1;
  frame_local_offset_ned = 7;
  float_of = λ n. n;
  command_long = λ s c t u command confirmation ps. s ∷ c ∷ t ∷ u ∷ command ∷ confirmation ∷ ps;
  heartbeat = λ s c type autopilot base custom status. s ∷ c ∷ type ∷ autopilot ∷ [];
  param_request_read = λ s c t u id i. s ∷ c ∷ t ∷ u ∷ id;
  set_position_target_local_ned = λ s c time t u f mask ps. s ∷ c ∷ t ∷ u ∷ f ∷ mask ∷ ps;
  landing_target = λ s c t n f angles sizes position q type valid. s ∷ c ∷ t ∷ position;
}

-- Thousandths in place of `float`.
instance abbrev pub thousandth_casts : Casts ℕ
thousandth_casts = record { to_float = λ x. x; sqrt = λ x. x }

-- Two cells of 4.2 and 4.1 V, an unused one, and a fifteenth of 4 V.
abbrev pub cells : BatteryStatus
cells = record {
  voltages = 4200 ∷ 4100 ∷ 0xffff ∷ [];
  voltages_ext = 0 ∷ 4000 ∷ [];
  current_battery = pos 100;
  battery_remaining = pos 90;
}

-- 4.5.1, of the release type 255.
abbrev pub version : AutopilotVersion
version = record {
  flight_sw_version = 0x0405_01ff;
  capabilities = 1;
  board_version = 0;
  vendor_id = 0;
  product_id = 0;
}

-- One byte is one message: its id.
abbrev pub one_byte : Framing (Unit {0}) ℕ
one_byte = record { frame_char = λ p b. (p, some b) }

-- Messages by their ids, all of a system 1 and its autopilot.
abbrev pub messages : Messages ℕ ℕ
messages = record {
  msgid = λ m. m;
  sysid = λ m. 1;
  compid = λ m. 1;
  info_name = λ id. none;
  id_heartbeat = 0;
  id_param_value = 22;
  id_statustext = 253;
  id_command_ack = 77;
  heartbeat = λ m. record {
    vehicle_type = 2;
    autopilot = 3;
    base_mode = 1;
    custom_mode = 4;
    system_status = 3;
  };
  gps_raw_int = λ m. (3, 12);
  global_position_int = λ m. pos 2000;
  local_position_ned = λ m. (1, 2, 3);
  attitude = λ m. (0, 0, 0);
  battery_status = λ m. cells;
  sys_status = λ m. record {
    sensors_enabled = 1;
    sensors_health = 1;
    voltage_battery = 12600;
    current_battery = pos 100;
    battery_remaining = pos 90;
  };
  autopilot_version = λ m. version;
  param_value = λ m. record { param_value = 1; param_id = []; param_type = 9 };
  statustext = λ m. (4, []);
  command_ack = λ m. record {
    command = 21;
    result = 0;
    progress = 0;
    result_param2 = pos 0;
    target_system = 1;
    target_component = 191;
  };
  widen = λ n. n * 1000;
}

-- A camera that looks along the axes of the body, ten centimetres ahead of its origin.
abbrev pub ahead : CameraExtrinsics ℕ
ahead = record {
  rotation_camera_to_body = 1000 ∷ 0 ∷ 0 ∷ 0 ∷ 1000 ∷ 0 ∷ 0 ∷ 0 ∷ 1000 ∷ [];
  camera_origin_in_body = record { forward_m = 100; right_m = 0; down_m = 0 };
}

-- A port with a heartbeat, a fix and an acknowledgement to read at first, that takes two bytes at once.
abbrev pub port : Transport ℕ
port = record {
  read = λ calls. some (if calls == 0 then 0 ∷ 24 ∷ 77 ∷ [] else [], calls + 1);
  write = λ calls bs. some (2, calls + 1);
}

abbrev pub around : ℕ → Surroundings ℕ
around second = record {
  camera_now = seconds second;
  now = seconds second;
  frame = some (record {
    sequence = second;
    width = 640;
    height = 480;
    yuv420 = [];
    captured_at = none;
    received_at = seconds second;
  });
  batch = some (record {
    frame_sequence = second;
    captured_at = none;
    detected_at = seconds second;
    processing_time = pos 0;
    targets = [];
  });
  description = "AprilTag 36h11";
}
