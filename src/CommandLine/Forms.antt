-- ===== src/CommandLine/Forms.antt =====
-- presentation/cli/CommandLine: the options that `parse_command_line` knows.
use companion_lab.Prelude.{true, Option, none, some, List, [], ◌∷◌, if◌then◌else◌}
use companion_lab.Prelude.Text.{Bytes, bytes, bytes_eq}
use companion_lab.Prelude.Doubles.{Doubles}
use companion_lab.CommandLine.{
  udp, serial, CameraBackend, rpicam, gstreamer, Scan, Parsed, parsed, refused, Form, flag, valued,
  unknown, number, u16, u32, ◌>>=◌,
}

module _ {D : Type 0} where
  unfoldable pub set_transport : Bytes → Scan D → Parsed (Scan D)
  set_transport v s =
      if bytes_eq v (bytes "udp")
      then parsed (record s { options = record s.options { transport = udp } })
      else (if bytes_eq v (bytes "serial")
          then parsed (record s { options = record s.options { transport = serial } })
          else refused (bytes "--transport must be udp or serial"))

  abbrev source : CameraBackend → Scan D → Scan D
  source backend s = record s {
    options = record s.options { camera_backend = backend };
    explicit = record s.explicit { camera_source = true };
  }

  unfoldable pub set_source : Bytes → Scan D → Parsed (Scan D)
  set_source v s =
      if bytes_eq v (bytes "rpicam")
      then parsed (source rpicam s)
      else (if bytes_eq v (bytes "gstreamer")
          then parsed (source gstreamer s)
          else refused (bytes "--camera-source must be rpicam or gstreamer"))

  -- The options in the order in which the source compares them, in four parts.
  unfoldable pub transport_forms : List (Bytes × Form D)
  unfolding set_transport set_source
  transport_forms =
      (bytes "--transport", valued set_transport)
      ∷ (
        bytes "--udp-bind",
        valued (λ v s. parsed (record s {
          options = record s.options { udp_bind = v };
          explicit = record s.explicit { udp_bind = true };
        })),
      )
      ∷ (
        bytes "--udp-port",
        valued (λ v s. number u16 (bytes "--udp-port") v >>= λ n. parsed (record s {
          options = record s.options { udp_port = n };
          explicit = record s.explicit { udp_port = true };
        })),
      )
      ∷ (
        bytes "--serial-device",
        valued (λ v s. parsed (record s {
          options = record s.options { serial_device = v };
          explicit = record s.explicit { serial_device = true };
        })),
      )
      ∷ (
        bytes "--baud",
        valued (λ v s. number u32 (bytes "--baud") v >>= λ n. parsed (record s {
          options = record s.options { baud_rate = n };
          explicit = record s.explicit { baud_rate = true };
        })),
      )
      ∷ (
        bytes "--snapshot-ms",
        valued (λ v s. number u32 (bytes "--snapshot-ms") v >>= λ n.
            parsed (record s { options = record s.options { snapshot_interval_ms = n } })),
      )
      ∷ []

  unfoldable pub camera_forms : List (Bytes × Form D)
  unfolding set_transport set_source
  camera_forms =
      (
        bytes "--camera",
        flag (λ s. record s { options = record s.options { camera_enabled = true } }),
      )
      ∷ (bytes "--camera-source", valued set_source)
      ∷ (
        bytes "--camera-udp-port",
        valued (λ v s. number u16 (bytes "--camera-udp-port") v >>= λ n. parsed (record s {
          options = record s.options { camera_udp_port = n };
          explicit = record s.explicit { camera_udp_port = true };
        })),
      )
      ∷ (
        bytes "--camera-width",
        valued (λ v s. number u32 (bytes "--camera-width") v >>= λ n. parsed (record s {
          options = record s.options { camera_width = n };
          explicit = record s.explicit { camera_width = true };
        })),
      )
      ∷ (
        bytes "--camera-height",
        valued (λ v s. number u32 (bytes "--camera-height") v >>= λ n. parsed (record s {
          options = record s.options { camera_height = n };
          explicit = record s.explicit { camera_height = true };
        })),
      )
      ∷ (
        bytes "--camera-fps",
        valued (λ v s. number u32 (bytes "--camera-fps") v >>= λ n. parsed (record s {
          options = record s.options { camera_fps = n };
          explicit = record s.explicit { camera_fps = true };
        })),
      )
      ∷ []

module _ {D : Type 0} ⦃d : Doubles D⦄ (from_chars : Bytes → Option D) where
  -- `from_chars` reads the whole of a text as a `double`, or fails.
  unfoldable pub set_tag_size : Bytes → Scan D → Parsed (Scan D)
  set_tag_size v s = elim (from_chars v) [
    | none ↦ refused (bytes "Invalid numeric value for --apriltag-size-mm")
    | some size ↦ parsed (record s {
      options = record s.options { apriltag_tag_size_m = some (d.div size (d.of_decimal 1000 0)) };
    })
  ]

  unfoldable pub vision_forms : List (Bytes × Form D)
  unfolding set_tag_size
  vision_forms =
      (
        bytes "--apriltag",
        flag (λ s. record s { options = record s.options { apriltag_enabled = true } }),
      )
      ∷ (
        bytes "--camera-calibration",
        valued (λ v s.
            parsed (record s { options = record s.options { camera_calibration_file = v } })),
      )
      ∷ (
        bytes "--camera-extrinsics",
        valued (λ v s.
            parsed (record s { options = record s.options { camera_extrinsics_file = v } })),
      )
      ∷ (bytes "--apriltag-size-mm", valued set_tag_size)
      ∷ (
        bytes "--camera-preview",
        flag (λ s. record s { options = record s.options { camera_preview_enabled = true } }),
      )
      ∷ (
        bytes "--camera-preview-port",
        valued (λ v s. number u16 (bytes "--camera-preview-port") v >>= λ n. parsed (record s {
          options = record s.options { camera_preview_port = n };
          explicit = record s.explicit { camera_preview_port = true };
        })),
      )
      ∷ []

module _ {D : Type 0} where
  unfoldable pub other_forms : List (Bytes × Form D)
  other_forms =
      (
        bytes "--board-types",
        valued (λ v s. parsed (record s { options = record s.options { board_types_file = v } })),
      )
      ∷ (bytes "--json", flag (λ s. record s { options = record s.options { json_output = true } }))
      ∷ (bytes "--sitl", flag (λ s. record s { options = record s.options { sitl_mode = true } }))
      ∷ (
        bytes "--autonomous",
        flag (λ s. record s { options = record s.options { autonomous = true } }),
      )
      ∷ (
        bytes "--exit-after-autonomy",
        flag (λ s. record s { options = record s.options { exit_after_autonomy = true } }),
      )
      ∷ (
        bytes "--interactive",
        flag (λ s. record s { options = record s.options { interactive = true } }),
      )
      ∷ (bytes "--help", flag (λ s. record s { options = record s.options { show_help = true } }))
      ∷ (bytes "-h", flag (λ s. record s { options = record s.options { show_help = true } }))
      ∷ (
        bytes "--serial",
        unknown (bytes "--serial was renamed; use --transport serial --serial-device DEVICE"),
      )
      ∷ (bytes "--scenario", unknown (bytes "--scenario was removed; use --autonomous"))
      ∷ (bytes "--demo-flight", unknown (bytes "--demo-flight was removed; use --autonomous"))
      ∷ (
        bytes "--exit-after-scenario",
        unknown (bytes "--exit-after-scenario was removed; use --autonomous"),
      )
      ∷ []
