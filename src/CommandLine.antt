-- ===== src/CommandLine.antt =====
-- presentation/cli/CommandLine: the options of the program, and the parser of its arguments. An argument
-- is the list of its bytes.
pub mod Numbers
pub mod Validate
pub mod Forms
pub mod Parse
pub mod Tracks
pub mod Configuration
pub mod Sound
mod Tests
use companion_lab.Prelude.{
  ℕ, zero, suc, Bool, true, false, Option, none, some, List, [], ◌∷◌, if◌then◌else◌,
}
use companion_lab.Prelude.Text.{Bytes, bytes, bytes_eq}
use companion_lab.Prelude.Doubles.{Doubles}
use mathlib.Core.List.{◌++◌ as append}
use companion_lab.CommandLine.Numbers.{parse_unsigned}

pub data TransportBackend : Type 0 where
  udp serial : TransportBackend

pub data CameraBackend : Type 0 where
  rpicam gstreamer : CameraBackend

pub record CommandLineOptions (D : Type 0) : Type 0 where
  pub transport : TransportBackend
  pub udp_bind : Bytes
  pub udp_port : ℕ
  pub serial_device : Bytes
  pub baud_rate : ℕ
  pub snapshot_interval_ms : ℕ
  pub camera_enabled : Bool
  pub camera_backend : CameraBackend
  pub camera_udp_port : ℕ
  pub apriltag_enabled : Bool
  pub camera_calibration_file : Bytes
  pub camera_extrinsics_file : Bytes
  pub apriltag_tag_size_m : Option D
  pub camera_preview_enabled : Bool
  pub camera_preview_port : ℕ
  pub camera_width : ℕ
  pub camera_height : ℕ
  pub camera_fps : ℕ
  pub board_types_file : Bytes
  pub json_output : Bool
  pub sitl_mode : Bool
  pub autonomous : Bool
  pub exit_after_autonomy : Bool
  pub interactive : Bool
  pub show_help : Bool

pub record ExplicitOptions : Type 0 where
  pub udp_bind : Bool
  pub udp_port : Bool
  pub serial_device : Bool
  pub baud_rate : Bool
  pub camera_source : Bool
  pub camera_udp_port : Bool
  pub camera_width : Bool
  pub camera_height : Bool
  pub camera_fps : Bool
  pub camera_preview_port : Bool

-- The two variables of `parse_command_line`.
pub record Scan (D : Type 0) : Type 0 where
  pub options : CommandLineOptions D
  pub explicit : ExplicitOptions

-- The members' initializers.
unfoldable pub defaults : {D : Type 0} → Scan D
defaults = record {
  options = record {
    transport = udp;
    udp_bind = bytes "0.0.0.0";
    udp_port = 14550;
    serial_device = [];
    baud_rate = 115200;
    snapshot_interval_ms = 1000;
    camera_enabled = false;
    camera_backend = rpicam;
    camera_udp_port = 5601;
    apriltag_enabled = false;
    camera_calibration_file = [];
    camera_extrinsics_file = [];
    apriltag_tag_size_m = none;
    camera_preview_enabled = false;
    camera_preview_port = 8080;
    camera_width = 640;
    camera_height = 480;
    camera_fps = 30;
    board_types_file = [];
    json_output = false;
    sitl_mode = false;
    autonomous = false;
    exit_after_autonomy = false;
    interactive = false;
    show_help = false;
  };
  explicit = record {
    udp_bind = false;
    udp_port = false;
    serial_device = false;
    baud_rate = false;
    camera_source = false;
    camera_udp_port = false;
    camera_width = false;
    camera_height = false;
    camera_fps = false;
    camera_preview_port = false;
  };
}

-- A value, or an exception with its text.
pub data Parsed {ℓ} (A : Type ℓ) : Type ℓ where
  parsed : A → Parsed A
  refused : Bytes → Parsed A

infixl 5 ◌>>=◌ ◌>>◌
abbrev pub ◌>>=◌ {ℓ κ} : {A : Type ℓ} {B : Type κ} → Parsed A → (A → Parsed B) → Parsed B
parsed a >>= f = f a
refused t >>= f = refused t

abbrev pub ◌>>◌ {ℓ} : {B : Type ℓ} → Parsed (Unit {0}) → Parsed B → Parsed B
m >> k = m >>= λ _. k

abbrev pub refuse_if : Bool → Bytes → Parsed (Unit {0})
refuse_if true text = refused text
refuse_if false text = parsed tt

-- What an argument is: a switch, an option with a value, or refused.
pub data Form (D : Type 0) : Type 0 where
  flag : (Scan D → Scan D) → Form D
  valued : (Bytes → Scan D → Parsed (Scan D)) → Form D
  unknown : Bytes → Form D

abbrev pub number_or : Bytes → Option ℕ → Parsed ℕ
number_or argument none = refused (append (bytes "Invalid numeric value for ") argument)
number_or argument (some n) = parsed n

-- `parse_number` of an unsigned type, by its largest value.
abbrev pub number : ℕ → Bytes → Bytes → Parsed ℕ
number maximum argument text = number_or argument (parse_unsigned maximum text)

abbrev pub u16 : ℕ
u16 = 0xffff

abbrev pub u32 : ℕ
u32 = 0xffff_ffff
