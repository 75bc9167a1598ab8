-- ===== src/Mavlink/Decoder/Dispatch.antt =====
-- adapters/mavlink/MavlinkDecoder: which messages may change what.
use companion_lab.Prelude.{
  ℕ, ◌≡◌, refl, ◌∙◌, ◌≢◌, ◌⊎◌, inl, inr, Option, none, some, List, [], ◌∷◌, arith, All,
}
use companion_lab.Prelude.Time.{TimePoint}
use companion_lab.Prelude.Text.{Bytes}
use companion_lab.Prelude.Doubles.{Doubles}
use mathlib.Core.List.{◌++◌ as append}
use companion_lab.Mavlink.{Mavlink}
use companion_lab.Mavlink.Messages.{Messages, Framing}
use companion_lab.Mavlink.Decoder.{
  Handlers, Sinks, Label, heartbeat, label_of, handle, handle_message, receive, ingest,
}
use companion_lab.Vehicle.{
  VehicleState, on_gps, on_global_position, on_local_position, on_attitude, on_battery,
  on_system_status, on_autopilot_metadata, on_battery_arming_voltage, on_status_text,
  update_battery_locked,
}

module _ {D : Type 0} where
  -- What the vehicle is taken to be: which system, in which mode, armed or not, and when last heard.
  pub record SameIdentity (a b : VehicleState D) : Type 0 where
    pub same_last_heartbeat : a.last_heartbeat ≡ b.last_heartbeat
    pub same_system : a.system_id ≡ b.system_id
    pub same_component : a.component_id ≡ b.component_id
    pub same_mode : a.flight_mode ≡ b.flight_mode
    pub same_armed : a.armed ≡ b.armed

  same : (a : VehicleState D) → SameIdentity a a
  same a = record {
    same_last_heartbeat = refl;
    same_system = refl;
    same_component = refl;
    same_mode = refl;
    same_armed = refl;
  }

  trans : {a b c : VehicleState D} → SameIdentity a b → SameIdentity b c → SameIdentity a c
  trans p q = record {
    same_last_heartbeat = p.same_last_heartbeat ∙ q.same_last_heartbeat;
    same_system = p.same_system ∙ q.same_system;
    same_component = p.same_component ∙ q.same_component;
    same_mode = p.same_mode ∙ q.same_mode;
    same_armed = p.same_armed ∙ q.same_armed;
  }

module _ {M D : Type 0} ⦃m : Mavlink⦄ (lib : Messages M D) where
  -- No heartbeat, or one of a component that is no autopilot.
  abbrev pub IsNoAutopilot : M → Type 0
  IsNoAutopilot message =
      (lib.msgid message ≢ lib.id_heartbeat)
      ⊎ ((lib.heartbeat message).autopilot ≡ m.autopilot_invalid)

  label_of-ne : (id : ℕ) → id ≢ lib.id_heartbeat → label_of lib id ≢ heartbeat
  unfolding label_of
  label_of-ne id h = ground arith

module _ {P M : Type 0} (framing : Framing P M) where
  abbrev put : {A : Type 0} → Option A → List A → List A
  put none later = later
  put (some a) later = a ∷ later

  -- The messages that the bytes complete.
  abbrev pub messages : P → Bytes → List M
  messages p [] = []
  messages p (b ∷ bs) = let (p', message) = framing.frame_char p b in put message (messages p' bs)

module _ {M D S : Type 0} ⦃m : Mavlink⦄ ⦃d : Doubles D⦄ (lib : Messages M D) where
  -- The cases of the `switch`, for a message that is no heartbeat of an autopilot.
  handle-SameIdentity :
      (h : Handlers S D) (l : Label) (message : M) (now : TimePoint) (s : Sinks S D)
      → (l ≢ heartbeat) ⊎ ((lib.heartbeat message).autopilot ≡ m.autopilot_invalid)
      → SameIdentity (handle lib h l message now s).vehicle s.vehicle
  unfolding handle on_gps on_global_position on_local_position on_attitude on_battery
      on_system_status update_battery_locked on_autopilot_metadata on_battery_arming_voltage
      on_status_text
  handle-SameIdentity h heartbeat message now s e = ground arith
  handle-SameIdentity h l message now s e = ground arith

  handle_message-SameIdentity :
      (h : Handlers S D) (message : M) (now : TimePoint) (s : Sinks S D)
      → IsNoAutopilot lib message
      → SameIdentity (handle_message lib h message now s).vehicle s.vehicle
  unfolding handle_message
  handle_message-SameIdentity h message now s (inl e) =
      handle-SameIdentity h (label_of lib (lib.msgid message)) message now s
        (inl (label_of-ne lib (lib.msgid message) e))
  handle_message-SameIdentity h message now s (inr e) =
      handle-SameIdentity h (label_of lib (lib.msgid message)) message now s (inr e)

module _ {P M D S : Type 0} ⦃m : Mavlink⦄ ⦃d : Doubles D⦄ (framing : Framing P M)
    (lib : Messages M D) (h : Handlers S D) where
  receive-SameIdentity :
      (o : Option M) (now : TimePoint) (s : Sinks S D)
      → All (IsNoAutopilot lib) (put framing o [])
      → SameIdentity (receive framing lib h o now s).vehicle s.vehicle
  unfolding receive
  receive-SameIdentity none now s e = same s.vehicle
  receive-SameIdentity (some message) now s e = handle_message-SameIdentity lib h message now _ e.0

  All-put :
      (o : Option M) (later : List M)
      → All (IsNoAutopilot lib) (put framing o later)
      → All (IsNoAutopilot lib) (put framing o []) × All (IsNoAutopilot lib) later
  All-put none later e = (tt, e)
  All-put (some a) later e = ((e.0, tt), e.1)

  -- Bytes that complete no heartbeat of an autopilot leave the identity of the vehicle as it was: its
  -- ids, its mode, whether it is armed, and when it was last heard.
  pub ingest-SameIdentity :
      (bs : Bytes) (now : TimePoint) (p : P) (s : Sinks S D)
      → All (IsNoAutopilot lib) (messages framing p bs)
      → SameIdentity (ingest framing lib h bs now (p, s)).1.vehicle s.vehicle
  unfolding ingest
  ingest-SameIdentity [] now p s e = same s.vehicle
  ingest-SameIdentity (b ∷ bs) now p s e =
      let (p', message) = framing.frame_char p b in
      let (first, others) = All-put message (messages framing p' bs) e in
      trans (ingest-SameIdentity bs now p' (receive framing lib h message now s) others)
        (receive-SameIdentity message now s first)

  -- It makes no difference where the stream of bytes is cut into reads of one time.
  pub ingest-append :
      (bs cs : Bytes) (now : TimePoint) (r : P × Sinks S D)
      → ingest framing lib h (append bs cs) now r
        ≡ ingest framing lib h cs now (ingest framing lib h bs now r)
  unfolding ingest
  ingest-append [] cs now (p, s) = refl
  ingest-append (b ∷ bs) cs now (p, s) =
      let (p', message) = framing.frame_char p b in
      ingest-append bs cs now (p', receive framing lib h message now s)
