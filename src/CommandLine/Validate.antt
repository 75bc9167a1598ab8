-- ===== src/CommandLine/Validate.antt =====
-- presentation/cli/CommandLine: the checks of the parsed options.
use companion_lab.Prelude.{
  differ, ◌%◌, Bool, true, false, not, ◌&&◌, ◌||◌, Option, none, some, [], ◌∷◌, ◌==◌, is_some,
}
use companion_lab.Prelude.Text.{Bytes, bytes}
use companion_lab.Prelude.Doubles.{Doubles}
use companion_lab.CommandLine.{
  TransportBackend, udp, serial, CameraBackend, rpicam, gstreamer, Scan, Parsed, parsed, refuse_if,
  ◌>>◌,
}

abbrev pub is_empty : Bytes → Bool
is_empty [] = true
is_empty (c ∷ cs) = false

abbrev pub is_rpicam : CameraBackend → Bool
is_rpicam rpicam = true
is_rpicam gstreamer = false

module _ {D : Type 0} where
  unfoldable pub validate_backend : TransportBackend → Scan D → Parsed (Unit {0})
  validate_backend udp s = do
    refuse_if (s.explicit.serial_device || s.explicit.baud_rate)
        (bytes "--serial-device and --baud require --transport serial")
    refuse_if (is_empty s.options.udp_bind) (bytes "--udp-bind cannot be empty")
    refuse_if (s.options.udp_port == 0) (bytes "--udp-port must be positive")
  validate_backend serial s = do
    refuse_if (s.explicit.udp_bind || s.explicit.udp_port)
        (bytes "--udp-bind and --udp-port require --transport udp")
    refuse_if (is_empty s.options.serial_device)
        (bytes "--transport serial requires --serial-device DEVICE")
    refuse_if (s.options.baud_rate == 0) (bytes "--baud must be positive")
    refuse_if s.options.sitl_mode (bytes "--sitl cannot be combined with --transport serial")

  unfoldable pub validate_transport : Scan D → Parsed (Unit {0})
  validate_transport s = validate_backend s.options.transport s

  unfoldable pub camera_setting_used : Scan D → Bool
  camera_setting_used s =
      s.explicit.camera_source
      || (s.explicit.camera_udp_port
          || (s.explicit.camera_width
              || (s.explicit.camera_height
                  || (s.explicit.camera_fps
                      || (s.explicit.camera_preview_port
                          || (s.options.apriltag_enabled
                              || (s.options.camera_preview_enabled
                                  || (not (is_empty s.options.camera_calibration_file)
                                      || (not (is_empty s.options.camera_extrinsics_file)
                                          || is_some s.options.apriltag_tag_size_m)))))))))

module _ {D : Type 0} ⦃d : Doubles D⦄ where
  abbrev pub bad_size : Option D → Bool
  bad_size none = false
  bad_size (some size) = not (d.is_finite size) || d.le size (d.of_decimal 0 0)

  -- The checks of an enabled camera's image and source.
  unfoldable pub validate_source : Scan D → Parsed (Unit {0})
  validate_source s = do
    let o = s.options
    let e = s.explicit
    refuse_if
        (o.camera_width == 0
          || (o.camera_height == 0
              || (not (o.camera_width % 2 == 0) || not (o.camera_height % 2 == 0))))
        (bytes "camera width and height must be positive even values")
    refuse_if (is_rpicam o.camera_backend && e.camera_udp_port)
        (bytes "--camera-udp-port requires --camera-source gstreamer")
    refuse_if (not (is_rpicam o.camera_backend) && e.camera_fps)
        (bytes "--camera-fps is available only for --camera-source rpicam")
    refuse_if (is_rpicam o.camera_backend && o.camera_fps == 0)
        (bytes "--camera-fps must be positive")
    refuse_if (not (is_rpicam o.camera_backend) && o.camera_udp_port == 0)
        (bytes "--camera-udp-port must be positive")
    refuse_if (e.camera_preview_port && not o.camera_preview_enabled)
        (bytes "--camera-preview-port requires --camera-preview")
    refuse_if (o.camera_preview_enabled && o.camera_preview_port == 0)
        (bytes "--camera-preview-port must be positive")

  -- Those of the vision that reads it.
  unfoldable pub validate_vision : Scan D → Parsed (Unit {0})
  validate_vision s = do
    let o = s.options
    let has_calibration = not (is_empty o.camera_calibration_file)
    let has_extrinsics = not (is_empty o.camera_extrinsics_file)
    refuse_if (differ has_calibration (is_some o.apriltag_tag_size_m))
        (bytes "--camera-calibration and --apriltag-size-mm must be provided together")
    refuse_if (has_calibration && not o.apriltag_enabled)
        (bytes "calibrated AprilTag pose requires --apriltag")
    refuse_if (bad_size o.apriltag_tag_size_m)
        (bytes "--apriltag-size-mm must be finite and positive")
    refuse_if (has_extrinsics && not has_calibration)
        (bytes "--camera-extrinsics requires calibrated AprilTag pose")
    refuse_if (o.autonomous && not has_extrinsics)
        (bytes "--autonomous requires --camera-extrinsics")

  -- The rest of the checks, if the camera is enabled.
  unfoldable pub watch_checks : Bool → Scan D → Parsed (Unit {0})
  watch_checks false s = parsed tt
  watch_checks true s = validate_source s >> validate_vision s

  unfoldable pub validate_camera : Scan D → Parsed (Unit {0})
  validate_camera s = do
    refuse_if (camera_setting_used s && not s.options.camera_enabled)
        (bytes "camera, vision, and preview options require --camera")
    watch_checks s.options.camera_enabled s

  -- The checks, unless the help is asked for.
  unfoldable pub run_checks : Bool → Scan D → Parsed (Unit {0})
  run_checks true s = parsed tt
  run_checks false s = do
    refuse_if (s.options.snapshot_interval_ms == 0) (bytes "--snapshot-ms must be positive")
    refuse_if (s.options.exit_after_autonomy && not s.options.autonomous)
        (bytes "--exit-after-autonomy requires --autonomous")
    refuse_if (s.options.interactive && s.options.json_output)
        (bytes "--interactive cannot be combined with --json")
    validate_transport s
    validate_camera s

  unfoldable pub validate_options : Scan D → Parsed (Unit {0})
  validate_options s = run_checks s.options.show_help s
