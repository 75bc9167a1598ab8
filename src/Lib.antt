-- ===== src/Lib.antt =====
-- A model of the onboard autonomy runtime: the part of the companion computer's program that decides
-- when the vehicle may be armed, flown and landed, with what it needs to know of the vehicle, of the
-- camera and of the link.
--
-- The parts and how they interact:
--   * domain/VehicleState keeps what the flight controller reported and when, and makes the
--     VehicleSnapshot that all others read. Module Vehicle holds its state and its on_ operations,
--     Vehicle/Snapshot the function snapshot, Vehicle/Events sequences of calls.
--   * application/CompanionLinkFailsafe reads four ArduPilot parameters and accepts the vehicle only
--     if it lands when the companion falls silent. Module Failsafe.
--   * adapters/mavlink/TelemetryStreamConfigurator asks for six telemetry streams. Module Telemetry,
--     with the acknowledgement (CommandAck) in Mavlink.
--   * application/FlightStartupController takes the vehicle from its first heartbeat into the air.
--     It reads the snapshot, the failsafe and whether telemetry is set up, and returns requests of
--     application/FlightCommand. Modules Startup (state, phases, small operations), Startup/Update and
--     Startup/Acks; Flight for the requests.
--   * application/AutonomyRuntime then sends landing targets and lands. It reads the snapshot, the
--     startup's snapshot, the failsafe and the target in view, and asks application/DecisionEngine and
--     application/SafetySupervisor, on application/WorldState, whether to move. Modules Runtime,
--     Runtime/Update and Decision.
--   * application/MotionSafetyPolicy decides at the start whether motion is allowed at all. Module
--     Motion.
--   * application/CameraMonitor takes frames from the camera source, counts losses and latencies and
--     passes frames to application/VisionMonitor, which calls the detector, moves the tracked target
--     to its smoothed position, and keeps application/TargetTracker. Modules Camera, Vision, Tracker
--     and Tracker/Update.
--   * domain/TargetTransform moves a target from the camera's frame into the body's, by extrinsics that
--     it checks, as domain/CameraCalibration checks the intrinsics. Module Transform.
--   * adapters/mavlink/MavlinkDecoder takes the bytes of the transport and hands the messages in them to
--     the vehicle state and to three handlers. Module Mavlink/Decoder, with the interface of the MAVLink
--     library in Mavlink/Messages and the values computed from payloads in Mavlink/Values.
--     adapters/mavlink/MavlinkEncoder makes the frames that are sent: Mavlink and Mavlink/Encoder.
--   * application/CompanionApplication owns them all. Module Application models its log of link events,
--     Application/Acks its handler of acknowledgements, which the telemetry setup, the startup and the
--     runtime share, Application/Start the operator's request to start the flight, and
--     Application/Frames the writing of a frame; Application/Commands relates the encoder to the handler.
--     Application/Members holds its members (class Impl) and the handlers given to the decoder,
--     Application/Construct its constructor, and Application/Poll its poll, in the order of the calls:
--     the camera (Application/Watch), the transport and the decoder, the vehicle's snapshot and what the
--     log tells of it (Application/Observe), the heartbeat and the requests (Application/Requests), the
--     startup and the runtime. Application/Invariant, Application/Parts, Application/Asking,
--     Application/Guided and Application/Sound follow the components' invariants through a poll, and
--     Application/Runs through sequences of them.
--   * adapters/camera/RpicamCameraSource is one of the two camera sources. Module Rpicam models the size of
--     its frames, the lines that it reads and the state that its thread shares; Rpicam/Lines and
--     Rpicam/Frames hold the proofs.
--   * presentation/cli/CommandLine parses and checks the arguments of the program. Module CommandLine:
--     CommandLine/Numbers for numbers, CommandLine/Forms for the options, CommandLine/Parse for the loop,
--     and CommandLine/Validate for the checks.
--   * adapters/vision/CameraExtrinsicsLoader and CameraCalibrationLoader check what a file holds. Module
--     Loaders.
--   * adapters/ardupilot/BoardTypeCatalog reads a table of board types and tells the names of one. Module
--     Boards, with Boards/Entries on the entries and Boards/Resolution on a whole table.
--   * main.cpp puts the parts together from the options and runs the loop of keys, polls and snapshots.
--     Module Program, with Program/Wiring on what the application is constructed from, Program/Opening
--     on when the program gets so far, and Program/Loop on what it returns.
--
-- Sources are under src/ for .cpp files and include/onboard_autonomy/ for .hpp files. An operation
-- has the name of the method that it models, and a field that of the member without the last
-- underscore. A class is a record, a method that changes the object takes it as its last argument
-- and returns it, and requests, bytes and published frames are further results. A constructor is
-- `make`, with `none` for its exception. Where the source reads an optional without a test, or calls
-- `at`, the model returns `none` (or `fault`) for the empty case.
--
-- Numbers: a time point is a number of nanoseconds, and system ids, ids of messages and flags are
-- natural numbers; the source's 8, 32 and 64 bit counters keep their wrap-around (`% 256`, `wrap`)
-- or their saturation. A `double` is an element of any type with the operations of Prelude/Doubles;
-- no law of floating point is assumed but the order of finite numbers in the selection of a target,
-- and the signs of three of the program's own numbers for its construction, each as a hypothesis.
-- Texts for the operator are native strings, and texts that are searched are lists of bytes.
--
-- The loop of FlightStartupController::update runs on the source's own bound of eight rounds, so
-- that the model adds no fuel. The loop of CompanionApplication::write_frame runs on the length of
-- the frame, of which each round takes a byte at least. All other loops are over lists.
--
-- What other code does is a parameter: the generated MAVLink headers (record Mavlink), the frame
-- parser and the decoders of payloads of the MAVLink library (records Framing and Messages), casts
-- to float and the square root (record Casts), the reading of a double from a text (`from_chars`),
-- the detector and the camera source (their answers are arguments of `process` and `poll`), the
-- transport (record Transport, whose reads and writes may throw, as the detector may), the values that the JSON library reads from a file, what the program
-- opens (record Setting), the clock (`now`). The mutex of VehicleState makes each operation atomic,
-- so its operations are functions.
--
-- An exception is `threw` with its text, `refused` in the command line, and a read of what is not
-- there is `fault` (both in Prelude/Outcomes).
--
-- Not modelled: the layout of the JSON output and CompanionApplication::snapshot, which copies the
-- snapshots of the components, the console, and what only does input and output: transports, the
-- processes and threads of the camera sources, the detector's library, the preview server.
--
-- The modules beside the models hold the proofs, named for what they prove, and Tests modules apply
-- the theorems at concrete inputs, for which Examples has fixed-point numbers in place of doubles.
pub mod Prelude
pub mod Vehicle
pub mod Motion
pub mod Decision
pub mod Failsafe
pub mod Flight
pub mod Startup
pub mod Runtime
pub mod Tracker
pub mod Transform
pub mod Vision
pub mod Camera
pub mod Rpicam
pub mod Examples
pub mod Mavlink
pub mod Telemetry
pub mod Loaders
pub mod Application
pub mod CommandLine
pub mod Boards
pub mod Program
