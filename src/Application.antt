-- ===== src/Application.antt =====
-- application/CompanionApplication: its log of link events and activities, which AppSnapshot shows.
-- The handler of acknowledgements and the request to start stand in the modules `Acks` and `Start`,
-- `write_frame` in `Frames`, the members and the handlers given to the decoder in `Members`, the
-- constructor in `Construct`, and `poll` in `Poll`, its parts in `Observe`, `Watch` and `Requests`.
pub mod Acks
pub mod Start
pub mod History
pub mod Routing
pub mod Frames
pub mod Commands
pub mod Labels
pub mod Observe
pub mod Members
pub mod Watch
pub mod Requests
pub mod Poll
pub mod Construct
pub mod Invariant
pub mod Parts
pub mod Asking
pub mod Guided
pub mod Sound
pub mod Consistent
pub mod Runs
pub mod Quiet
mod Tests
mod Flights
use companion_lab.Prelude.{
  ℕ, zero, suc, ◌+◌, ◌-◌, ◌/◌, ◌%◌, Bool, true, false, Option, none, some, List, [], ◌∷◌, String,
  length, ltb, leb, if◌then◌else◌,
}
use companion_lab.Prelude.Int.{ℤ, pos, negsuc}
use companion_lab.Prelude.Time.{TimePoint}
use mathlib.Core.List.{◌++◌ as append}

pub data LinkEventDirection : Type 0 where
  outbound inbound : LinkEventDirection

pub data LinkEventStatus : Type 0 where
  neutral pending success warning failure : LinkEventStatus

-- The time is a signed number of milliseconds.
pub record LinkEvent : Type 0 where
  pub sequence : ℕ
  pub elapsed : ℤ
  pub direction : LinkEventDirection
  pub status : LinkEventStatus
  pub label : String
  pub detail : String

pub record LinkActivity : Type 0 where
  pub sequence : ℕ
  pub observed_at : ℤ
  pub message_name : String
  pub detail : String

-- The members of the application that hold its log.
pub record LinkLog : Type 0 where
  pub started_at : Option TimePoint
  pub link_events : List LinkEvent
  pub next_event_sequence : ℕ
  pub next_activity_sequence : ℕ
  pub tx_activity : Option LinkActivity
  pub rx_activity : Option LinkActivity

-- The members' initializers.
unfoldable pub empty_log : LinkLog
empty_log = record {
  started_at = none;
  link_events = [];
  next_event_sequence = 0;
  next_activity_sequence = 0;
  tx_activity = none;
  rx_activity = none;
}

abbrev pub start_of : Option TimePoint → TimePoint → TimePoint
start_of none now = now
start_of (some t) now = t

-- -n milliseconds.
abbrev minus : ℕ → ℤ
minus zero = pos 0
minus (suc n) = negsuc n

-- `duration_cast` of `now - started_at`, which rounds towards zero.
elapsed_since : TimePoint → TimePoint → ℤ
elapsed_since start now =
    if leb start now then pos ((now - start) / 1_000_000) else minus ((start - now) / 1_000_000)

-- `pop_front` of a log that has grown beyond the maximum of eight.
unfoldable pub shorten : List LinkEvent → List LinkEvent
shorten [] = []
shorten (e ∷ es) = if ltb 8 (length (e ∷ es)) then es else e ∷ es

unfoldable pub record_event :
    LinkEventDirection → LinkEventStatus → String → String → TimePoint → LinkLog → LinkLog
unfolding elapsed_since
record_event direction status label detail now l =
    let event : LinkEvent = record {
      sequence = (l.next_event_sequence + 1) % 18_446_744_073_709_551_616;
      elapsed = elapsed_since (start_of l.started_at now) now;
      direction = direction;
      status = status;
      label = label;
      detail = detail;
    } in
    record l {
      started_at = some (start_of l.started_at now);
      next_event_sequence = (l.next_event_sequence + 1) % 18_446_744_073_709_551_616;
      link_events = shorten (append l.link_events (event ∷ []));
    }

abbrev is_outbound : LinkEventDirection → Bool
is_outbound outbound = true
is_outbound inbound = false

unfoldable pub record_activity :
    LinkEventDirection → String → String → TimePoint → LinkLog → LinkLog
unfolding elapsed_since
record_activity direction message_name detail now l =
    let activity : LinkActivity = record {
      sequence = (l.next_activity_sequence + 1) % 18_446_744_073_709_551_616;
      observed_at = elapsed_since (start_of l.started_at now) now;
      message_name = message_name;
      detail = detail;
    } in
    record l {
      started_at = some (start_of l.started_at now);
      next_activity_sequence = (l.next_activity_sequence + 1) % 18_446_744_073_709_551_616;
      tx_activity = if is_outbound direction then some activity else l.tx_activity;
      rx_activity = if is_outbound direction then l.rx_activity else some activity;
    }
