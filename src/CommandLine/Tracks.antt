-- ===== src/CommandLine/Tracks.antt =====
-- presentation/cli/CommandLine: what the loop over the arguments keeps true.
use companion_lab.Prelude.{
  ℕ, ◌≤◌, ◌≡◌, false, Option, none, some, List, [], ◌∷◌, arith, All, Bool-cases, Option-cases, inl,
  inr,
}
use companion_lab.Prelude.Text.{Bytes, bytes, bytes_eq}
use companion_lab.Prelude.Doubles.{Doubles}
use mathlib.Core.List.{◌++◌ as append}
use companion_lab.CommandLine.{
  rpicam, Scan, defaults, Parsed, parsed, refused, Form, flag, valued, unknown, number_or, number,
  ◌>>=◌,
}
use companion_lab.CommandLine.Numbers.{parse_unsigned, AtMost, parse_unsigned-AtMost}
use companion_lab.CommandLine.Forms.{
  set_transport, set_source, set_tag_size, transport_forms, camera_forms, vision_forms, other_forms,
}
use companion_lab.CommandLine.Parse.{find_form, end_with, go_on, scan, all_forms, form_of}

module _ {D : Type 0} where
  -- A setting that was not given explicitly has its default, and every number fits its type.
  pub record Tracks (s : Scan D) : Type 0 where
    pub udp_bind : s.explicit.udp_bind ≡ false → s.options.udp_bind ≡ bytes "0.0.0.0"
    pub udp_port : s.explicit.udp_port ≡ false → s.options.udp_port ≡ 14550
    pub serial_device : s.explicit.serial_device ≡ false → s.options.serial_device ≡ []
    pub baud_rate : s.explicit.baud_rate ≡ false → s.options.baud_rate ≡ 115200
    pub camera_source : s.explicit.camera_source ≡ false → s.options.camera_backend ≡ rpicam
    pub camera_udp_port : s.explicit.camera_udp_port ≡ false → s.options.camera_udp_port ≡ 5601
    pub camera_width : s.explicit.camera_width ≡ false → s.options.camera_width ≡ 640
    pub camera_height : s.explicit.camera_height ≡ false → s.options.camera_height ≡ 480
    pub camera_fps : s.explicit.camera_fps ≡ false → s.options.camera_fps ≡ 30
    pub camera_preview_port :
        s.explicit.camera_preview_port ≡ false → s.options.camera_preview_port ≡ 8080
    pub fits_udp_port : s.options.udp_port ≤ 65535
    pub fits_baud_rate : s.options.baud_rate ≤ 4_294_967_295
    pub fits_interval : s.options.snapshot_interval_ms ≤ 4_294_967_295
    pub fits_camera_port : s.options.camera_udp_port ≤ 65535
    pub fits_preview_port : s.options.camera_preview_port ≤ 65535
    pub fits_width : s.options.camera_width ≤ 4_294_967_295
    pub fits_height : s.options.camera_height ≤ 4_294_967_295
    pub fits_fps : s.options.camera_fps ≤ 4_294_967_295

  abbrev pub Reached : Parsed (Scan D) → Type 0
  Reached (parsed s) = Tracks s
  Reached (refused t) = Unit

  abbrev Keeps : Form D → Type 0
  Keeps (flag f) = (s : Scan D) → Tracks s → Tracks (f s)
  Keeps (valued f) = (v : Bytes) (s : Scan D) → Tracks s → Reached (f v s)
  Keeps (unknown t) = Unit

  number_or-Reached :
      (maximum : ℕ) (argument : Bytes) (o : Option ℕ) (f : ℕ → Scan D)
      → AtMost maximum o
      → ((n : ℕ) → n ≤ maximum → Tracks (f n))
      → Reached (number_or argument o >>= λ n. parsed (f n))
  number_or-Reached maximum argument none f a h = tt
  number_or-Reached maximum argument (some n) f a h = h n a

  number-Reached :
      (maximum : ℕ) (argument v : Bytes) (f : ℕ → Scan D)
      → ((n : ℕ) → n ≤ maximum → Tracks (f n))
      → Reached (number maximum argument v >>= λ n. parsed (f n))
  number-Reached maximum argument v f h =
      number_or-Reached maximum argument (parse_unsigned maximum v) f
        (parse_unsigned-AtMost maximum v) h

  defaults-Tracks : Tracks defaults
  unfolding defaults
  defaults-Tracks = ground arith

  set_transport-Reached : (v : Bytes) (s : Scan D) → Tracks s → Reached (set_transport v s)
  unfolding set_transport
  set_transport-Reached v s k = elim (Bool-cases (bytes_eq v (bytes "udp"))) [
    | inl e ↦ rw e (ground arith)
    | inr e ↦ rw e (elim (Bool-cases (bytes_eq v (bytes "serial"))) [
      | inl f ↦ rw f (ground arith)
      | inr f ↦ rw f tt
    ])
  ]

  set_source-Reached : (v : Bytes) (s : Scan D) → Tracks s → Reached (set_source v s)
  unfolding set_source
  set_source-Reached v s k = elim (Bool-cases (bytes_eq v (bytes "rpicam"))) [
    | inl e ↦ rw e (ground arith)
    | inr e ↦ rw e (elim (Bool-cases (bytes_eq v (bytes "gstreamer"))) [
      | inl f ↦ rw f (ground arith)
      | inr f ↦ rw f tt
    ])
  ]

  -- Every option keeps what is tracked.
  abbrev KeepAll : List (Bytes × Form D) → Type 0
  KeepAll forms = All (λ (f : Bytes × Form D). Keeps f.1) forms

  KeepAll-append :
      (fs gs : List (Bytes × Form D)) → KeepAll fs → KeepAll gs → KeepAll (append fs gs)
  KeepAll-append [] gs a b = b
  KeepAll-append (f ∷ fs) gs a b = (a.0, KeepAll-append fs gs a.1 b)

  find_form-Keeps :
      (forms : List (Bytes × Form D)) (argument : Bytes)
      → KeepAll forms
      → Keeps (find_form forms argument)
  unfolding find_form
  find_form-Keeps [] argument a = tt
  find_form-Keeps ((text, form) ∷ forms) argument a = elim (Bool-cases (bytes_eq argument text)) [
    | inl e ↦ rw e a.0
    | inr e ↦ rw e (find_form-Keeps forms argument a.1)
  ]

  end_with-Reached :
      (f : Form D) (argument : Bytes) (s : Scan D)
      → Keeps f
      → Tracks s
      → Reached (end_with f argument s)
  unfolding end_with
  end_with-Reached (flag f) argument s k t = k s t
  end_with-Reached (valued f) argument s k t = tt
  end_with-Reached (unknown text) argument s k t = tt

  Reached-bind :
      (p : Parsed (Scan D)) (g : Scan D → Parsed (Scan D))
      → Reached p
      → ((s : Scan D) → Tracks s → Reached (g s))
      → Reached (p >>= g)
  Reached-bind (parsed s) g r h = h s r
  Reached-bind (refused t) g r h = tt

  go_on-Reached :
      (f : Form D) (v : Bytes) (s : Scan D) (next behind : Scan D → Parsed (Scan D))
      → Keeps f
      → Tracks s
      → ((s : Scan D) → Tracks s → Reached (next s))
      → ((s : Scan D) → Tracks s → Reached (behind s))
      → Reached (go_on f v s next behind)
  unfolding go_on
  go_on-Reached (flag f) v s next behind k t a b = a (f s) (k s t)
  go_on-Reached (valued f) v s next behind k t a b = Reached-bind (f v s) behind (k v s t) b
  go_on-Reached (unknown text) v s next behind k t a b = tt

  scan-Reached :
      (form_of : Bytes → Form D) (keeps : (argument : Bytes) → Keeps (form_of argument))
      (arguments : List Bytes) (s : Scan D)
      → Tracks s
      → Reached (scan form_of arguments s)
  unfolding scan
  scan-Reached form_of keeps [] s t = t
  scan-Reached form_of keeps (argument ∷ []) s t =
      end_with-Reached (form_of argument) argument s (keeps argument) t
  scan-Reached form_of keeps (argument ∷ v ∷ rest) s t =
      go_on-Reached (form_of argument) v s (scan form_of (v ∷ rest)) (scan form_of rest)
        (keeps argument) t (scan-Reached form_of keeps (v ∷ rest)) (scan-Reached form_of keeps rest)

module _ (D : Type 0) where
  transport_forms-Keep : KeepAll (transport_forms {D = D})
  unfolding transport_forms
  transport_forms-Keep = (
    set_transport-Reached,
    (
      λ v s k. ground arith,
      (
        λ v s k. number-Reached _ _ v _ (λ n h. ground arith),
        (
          λ v s k. ground arith,
          (
            λ v s k. number-Reached _ _ v _ (λ n h. ground arith),
            (λ v s k. number-Reached _ _ v _ (λ n h. ground arith), tt),
          ),
        ),
      ),
    ),
  )

  camera_forms-Keep : KeepAll (camera_forms {D = D})
  unfolding camera_forms
  camera_forms-Keep = (
    λ s k. ground arith,
    (
      set_source-Reached,
      (
        λ v s k. number-Reached _ _ v _ (λ n h. ground arith),
        (
          λ v s k. number-Reached _ _ v _ (λ n h. ground arith),
          (
            λ v s k. number-Reached _ _ v _ (λ n h. ground arith),
            (λ v s k. number-Reached _ _ v _ (λ n h. ground arith), tt),
          ),
        ),
      ),
    ),
  )

  other_forms-Keep : KeepAll (other_forms {D = D})
  unfolding other_forms
  other_forms-Keep = (
    λ v s k. ground arith,
    (
      λ s k. ground arith,
      (
        λ s k. ground arith,
        (
          λ s k. ground arith,
          (
            λ s k. ground arith,
            (
              λ s k. ground arith,
              (λ s k. ground arith, (λ s k. ground arith, (tt, (tt, (tt, (tt, tt)))))),
            ),
          ),
        ),
      ),
    ),
  )

module _ {D : Type 0} ⦃d : Doubles D⦄ (from_chars : Bytes → Option D) where
  set_tag_size-Reached : (v : Bytes) (s : Scan D) → Tracks s → Reached (set_tag_size from_chars v s)
  unfolding set_tag_size
  set_tag_size-Reached v s k = ground (arith, Option-cases (from_chars v))

  vision_forms-Keep : KeepAll (vision_forms from_chars)
  unfolding vision_forms
  vision_forms-Keep = (
    λ s k. ground arith,
    (
      λ v s k. ground arith,
      (
        λ v s k. ground arith,
        (
          set_tag_size-Reached,
          (λ s k. ground arith, (λ v s k. number-Reached _ _ v _ (λ n h. ground arith), tt)),
        ),
      ),
    ),
  )

  form_of-Keeps : (argument : Bytes) → Keeps (form_of from_chars argument)
  unfolding form_of
  form_of-Keeps argument = find_form-Keeps (all_forms from_chars) argument (
      KeepAll-append transport_forms _ (transport_forms-Keep D) (
        KeepAll-append camera_forms _ (camera_forms-Keep D) (
          KeepAll-append (vision_forms from_chars) other_forms vision_forms-Keep
            (other_forms-Keep D))))

  -- After any arguments that are accepted, a setting that was not given explicitly has its default, and
  -- every number fits its type.
  pub scan-Tracks :
      (arguments : List Bytes) → Reached (scan (form_of from_chars) arguments defaults)
  scan-Tracks arguments =
      scan-Reached (form_of from_chars) form_of-Keeps arguments defaults defaults-Tracks
