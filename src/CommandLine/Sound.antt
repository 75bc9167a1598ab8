-- ===== src/CommandLine/Sound.antt =====
-- presentation/cli/CommandLine: accepted options fit together.
use companion_lab.Prelude.{
  differ, ◌%◌, ◌≡◌, ◌⊎◌, refl, inl, inr, Bool, true, false, not, ◌&&◌, ◌||◌, Option, none, some,
  List, arith, ◌==◌, is_some,
}
use companion_lab.Prelude.Text.{Bytes}
use companion_lab.Prelude.Doubles.{Doubles}
use companion_lab.CommandLine.{
  TransportBackend, udp, serial, CameraBackend, rpicam, gstreamer, CommandLineOptions, Scan,
  defaults, Parsed, parsed, refused, ◌>>=◌, ◌>>◌,
}
use companion_lab.CommandLine.Validate.{
  is_empty, is_rpicam, bad_size, camera_setting_used, validate_backend, validate_transport,
  validate_source, validate_vision, watch_checks, validate_camera, run_checks, validate_options,
}
use companion_lab.CommandLine.Parse.{scan, form_of, parse_command_line}
use companion_lab.CommandLine.Tracks.{Tracks, Reached, scan-Tracks}
use companion_lab.CommandLine.Configuration.{
  Passes, refuse_if-Passes, last-Passes, bind-Passes, map-Passes, Carries, IsDark, Sources,
  IsFilming, IsSeeing, Watches, IsConfiguration, empty_lem,
}

module _ {D : Type 0} where
  backend-Carries :
      (b : TransportBackend) (s : Scan D)
      → Tracks s
      → Passes (λ (u : Unit {0}). Carries b s.options) (validate_backend b s)
  unfolding validate_backend
  backend-Carries udp s t =
      refuse_if-Passes _ (s.explicit.serial_device || s.explicit.baud_rate) _ _ λ own.
        refuse_if-Passes _ (is_empty s.options.udp_bind) _ _ λ bound.
          last-Passes _ (s.options.udp_port == 0) _
            (λ positive. ground (arith, empty_lem s.options.udp_bind))
  backend-Carries serial s t =
      refuse_if-Passes _ (s.explicit.udp_bind || s.explicit.udp_port) _ _ λ own.
        refuse_if-Passes _ (is_empty s.options.serial_device) _ _ λ device.
          refuse_if-Passes _ (s.options.baud_rate == 0) _ _ λ positive.
            last-Passes _ s.options.sitl_mode _
              (λ real. ground (arith, empty_lem s.options.serial_device))

  no_size : (o : Option D) → is_some o ≡ false → o ≡ none
  no_size none h = refl
  no_size (some size) h = cc

  dark : (s : Scan D) → Tracks s → camera_setting_used s ≡ false → IsDark s.options
  unfolding camera_setting_used
  dark s t h = record {
    backend = ground arith;
    port = ground arith;
    width = ground arith;
    height = ground arith;
    fps = ground arith;
    preview_port = ground arith;
    apriltag = ground arith;
    preview = ground arith;
    calibration = ground (arith, empty_lem s.options.camera_calibration_file);
    extrinsics = ground (arith, empty_lem s.options.camera_extrinsics_file);
    size = no_size s.options.apriltag_tag_size_m (ground arith);
  }

  sources :
      (b : CameraBackend) (s : Scan D)
      → Tracks s
      → (is_rpicam b && s.explicit.camera_udp_port) ≡ false
      → (not (is_rpicam b) && s.explicit.camera_fps) ≡ false
      → (is_rpicam b && s.options.camera_fps == 0) ≡ false
      → (not (is_rpicam b) && s.options.camera_udp_port == 0) ≡ false
      → Sources b s.options
  sources rpicam s t a b c d = ground arith
  sources gstreamer s t a b c d = ground arith

module _ {D : Type 0} ⦃d : Doubles D⦄ where
  source-IsFilming :
      (s : Scan D) → Tracks s → Passes (λ (u : Unit {0}). IsFilming s.options) (validate_source s)
  unfolding validate_source
  source-IsFilming s t =
      let o = s.options in
      let e = s.explicit in
      let back = is_rpicam o.camera_backend in
      refuse_if-Passes _
        (o.camera_width == 0
          || (o.camera_height == 0
              || (not (o.camera_width % 2 == 0) || not (o.camera_height % 2 == 0))))
        _ _
        λ even. refuse_if-Passes _ (back && e.camera_udp_port) _ _ λ own_port.
          refuse_if-Passes _ (not back && e.camera_fps) _ _ λ own_fps.
            refuse_if-Passes _ (back && o.camera_fps == 0) _ _ λ fps.
              refuse_if-Passes _ (not back && o.camera_udp_port == 0) _ _ λ port.
                refuse_if-Passes _ (e.camera_preview_port && not o.camera_preview_enabled) _ _
                  λ unused.
                    last-Passes _ (o.camera_preview_enabled && o.camera_preview_port == 0) _
                      λ preview. record {
                        width = ground arith;
                        height = ground arith;
                        source = sources o.camera_backend s t own_port own_fps fps port;
                        previewed = ground arith;
                        unpreviewed = ground arith;
                      }

  vision-IsSeeing : (s : Scan D) → Passes (λ (u : Unit {0}). IsSeeing s.options) (validate_vision s)
  unfolding validate_vision
  vision-IsSeeing s =
      let o = s.options in
      let calibration = empty_lem o.camera_calibration_file in
      let extrinsics = empty_lem o.camera_extrinsics_file in
      let has_calibration = not (is_empty o.camera_calibration_file) in
      let has_extrinsics = not (is_empty o.camera_extrinsics_file) in
      refuse_if-Passes _ (differ has_calibration (is_some o.apriltag_tag_size_m)) _ _ λ together.
        refuse_if-Passes _ (has_calibration && not o.apriltag_enabled) _ _ λ detected.
          refuse_if-Passes _ (bad_size o.apriltag_tag_size_m) _ _ λ size.
            refuse_if-Passes _ (has_extrinsics && not has_calibration) _ _ λ calibrated.
              last-Passes _ (o.autonomous && not has_extrinsics) _ λ mounted. record {
                sized = ground (arith, calibration);
                detected = ground (arith, calibration);
                size = size;
                calibrated = ground (arith, calibration, extrinsics);
                mounted = ground (arith, extrinsics);
              }

  checks-Watches :
      (b : Bool) (s : Scan D)
      → Tracks s
      → (camera_setting_used s && not b) ≡ false
      → Passes (λ (u : Unit {0}). Watches b s.options) (watch_checks b s)
  unfolding watch_checks
  checks-Watches false s t used = dark s t (ground arith)
  checks-Watches true s t used =
      bind-Passes (IsFilming s.options) (λ u. Watches true s.options) (validate_source s)
        (validate_vision s) (source-IsFilming s t)
        λ filming.
          map-Passes (λ u. IsSeeing s.options) (λ u. Watches true s.options) (validate_vision s)
            (vision-IsSeeing s) (λ u seeing. (filming, seeing))

  camera-Watches :
      (s : Scan D)
      → Tracks s
      → Passes (λ (u : Unit {0}). Watches s.options.camera_enabled s.options) (validate_camera s)
  unfolding validate_camera
  camera-Watches s t =
      refuse_if-Passes _ (camera_setting_used s && not s.options.camera_enabled) _ _
        (checks-Watches s.options.camera_enabled s t)

  checks-IsConfiguration :
      (b : Bool) (s : Scan D)
      → Tracks s
      → Passes (λ (u : Unit {0}). (b ≡ true) ⊎ IsConfiguration s.options) (run_checks b s)
  unfolding run_checks validate_transport
  checks-IsConfiguration true s t = inl refl
  checks-IsConfiguration false s t =
      let o = s.options in
      let Q : Unit {0} → Type 0 = (λ u. (false ≡ true) ⊎ IsConfiguration s.options) in
      refuse_if-Passes Q (o.snapshot_interval_ms == 0) _ _ λ interval.
        refuse_if-Passes Q (o.exit_after_autonomy && not o.autonomous) _ _ λ exits.
          refuse_if-Passes Q (o.interactive && o.json_output) _ _ λ one.
            bind-Passes (Carries o.transport o) Q (validate_backend o.transport s) _
              (backend-Carries o.transport s t)
              λ carries.
                map-Passes (λ u. Watches o.camera_enabled o) Q (validate_camera s)
                  (camera-Watches s t)
                  λ u watches. inr (record {
                    interval = ground arith;
                    exits = ground arith;
                    one_output = ground arith;
                    transport = carries;
                    camera = watches;
                  })

  options-IsConfiguration :
      (s : Scan D)
      → Tracks s
      → Passes
          (λ (u : Unit {0}). (s.options.show_help ≡ true) ⊎ IsConfiguration s.options)
          (validate_options s)
  unfolding validate_options
  options-IsConfiguration s t = checks-IsConfiguration s.options.show_help s t

  parsed-Passes :
      (p : Parsed (Scan D))
      → Reached p
      → Passes
          (λ (o : CommandLineOptions D). (o.show_help ≡ true) ⊎ IsConfiguration o)
          (p >>= λ s. (validate_options s >> parsed s.options))
  parsed-Passes (refused t) r = tt
  parsed-Passes (parsed s) r =
      bind-Passes _ _ (validate_options s) (parsed s.options) (options-IsConfiguration s r) (λ c. c)

module _ {D : Type 0} ⦃d : Doubles D⦄ (from_chars : Bytes → Option D) where
  -- Arguments that are accepted ask for the help, or for options that fit together: the chosen
  -- transport is set up and nothing is set for the other one; without a camera nothing is set for it;
  -- with one, its size is even and positive, its source is set up and nothing is set for the other one
  -- or for a preview that is off, a calibration comes with the size of the tag and the detector,
  -- extrinsics with a calibration, and an autonomous flight with extrinsics.
  pub parse_command_line-IsConfiguration :
      (arguments : List Bytes)
      → Passes
          (λ (o : CommandLineOptions D). (o.show_help ≡ true) ⊎ IsConfiguration o)
          (parse_command_line from_chars arguments)
  unfolding parse_command_line
  parse_command_line-IsConfiguration arguments =
      parsed-Passes (scan (form_of from_chars) arguments defaults)
        (scan-Tracks from_chars arguments)
