-- ===== src/Lib.antt =====
-- PhoneCam: the Rust core of a program that makes a phone the webcam of a desktop.
--
-- The phone's application (mobile core) opens a connection (transport) to the desktop, offers its
-- stream profiles in a handshake and sends encoded frames (protocol). The desktop's session
-- (pipeline) decodes them, converts the pictures (video) and writes them to a virtual camera
-- (output). The desktop asks for another profile with a numbered request; the phone's application
-- polls for it, reconfigures its encoder and reports; the desktop then follows, or takes the change
-- back.
--
-- Files and code:
-- - Protocol: rust/phonecam-protocol/src. Profile is StreamProfile, its validation and
--   `validate_profiles`; Handshake is Handshake, VideoCapabilitiesUpdate and VideoFrame with their
--   checks; Message is the enumeration of messages with its payload codec; Frame is
--   `encode_frame` and `decode_frame`. bincode is the parameter `Bincode`, for each type an encoder
--   and a decoder, and `IsLawful` says that what was encoded is decoded again and read to its end.
-- - Transport: rust/phonecam-transport/src. Wire is `write_message` and `read_message` on byte
--   lists; Connect is `PhoneCamClient::connect`, the server's `bind` and `accept`, and
--   `build_connection`, with the announced states; Loops is `writer_loop` and `reader_loop`. Each
--   completed `select!` or `timeout` is one entry of a list that the environment chooses.
-- - Mobile: rust/phonecam-mobile-core/src/lib.rs. State is the three global slots as one record;
--   Setup, Stream and Control are the calls of the C interface, as functions from a state to a state
--   and a result; Run is histories of calls and of the connection's tasks. serde_json is a
--   parameter.
-- - Video: `planar_to_nv12` of rust/phonecam-desktop/src-tauri/src/decode.rs (Planes) and
--   `Nv12ToYuyvConverter` of convert.rs beside it (Convert).
-- - Output: `OutputDevice` on Linux of output.rs, with what the kernel keeps of its `V4l2Device`; what
--   the V4L2 driver answers, and how a `set_format` leaves the device, is an argument.
--   FormatEvent is `NativeFormatEvent`, by which the drivers of macOS and Windows report a format.
--   Packed is the repacking of NV12 for these, and the device of macOS; the device of Windows has the
--   same text but for its messages. Wrapper is the format's part of `V4l2Device`
--   (rust/phonecam-driver-linux/src/device.rs), over the kernel's answers as the parameter `Kernel`; the
--   numbers `f64` are bit patterns with a division and a comparison as its fields;
--   `as_v4l2` gives it to the output device.
-- - Pipeline: pipeline.rs. Profiles is the choice of profiles and the numbering of requests; Session
--   is the state of `stream_connection`, Step one turn of its loop for each branch of the
--   `select!`, Results the turn of a configuration result. A turn gives the next session, what it
--   did (messages, statuses, replies, frames) and whether the loop goes on. What the driver, the
--   decoder, the connection and the clock answer in a turn is a `World`. `Runs` of History is the
--   relation of any number of turns.
--   Manager is `PipelineManager`, with `run_pipeline` as the list of its steps that others see: the
--   statuses and the slots of the two senders, each by its own step; a panic of the worker is only
--   what makes `stop` fail to join it. It calls adb's manager of Adb.
-- - Decoder: decode.rs. AnnexB is the check of H.264 payloads; Backends is the two decoders, with
--   openh264 and rust_h265 as the parameter `Codecs`, whose answers include a panic; Worker is the
--   thread's state and one happening (a control, a submitted frame, a reception); `Runs` is any
--   number of them; ParameterSets follows the HEVC backend over all payloads since it was made. How
--   many events the receiver takes before it closes is an argument.
-- - Adb: adb.rs. Devices reads what `adb devices -l` prints; Binary is the search for the binary;
--   Manager is `AdbManager`, a small monad over its cached path and the outside; Monitor is the task
--   of `monitor_devices`, and Map the ordered map that it keeps. Paths, files and processes are the
--   parameter `Machine`.
-- - Discovery: rust/phonecam-discovery/src/lib.rs. QrCode is the URI both ways, with the text of
--   addresses as the parameter `Addresses`; Label is the host's DNS label and the name of a found
--   service; Services is the loop of `discover` and its sorting.
-- - Shell: lib.rs of rust/phonecam-desktop/src-tauri/src, the command `connect` with the reading of
--   its input, and the checks of `configure_stream`.
-- - Prelude and Text are shared helpers; Tests has concrete inputs.
--
-- Conventions. Machine integers are natural numbers; where the code can wrap around, saturate or
-- test for overflow, the model does it at the written width (`next_request_id`, `checked_mul`,
-- `checked_add`, `presentation_ns`). A vector has less than 2 ^ 63 bytes, as Rust guarantees, where
-- a theorem says so. Loops are structural recursion on what they consume. Two run on fuel: the
-- scan of a payload, with its length, which is enough since each round moves on (`scan_lem`), and the
-- digits of a number n, with n + 1, which is enough since each digit divides by ten
-- (`digits_before-fuel`). `str` is the list of its code
-- points. Times are milliseconds. Mutexes are not poisoned.
--
-- Not modelled: the receiving side of the decoder's events and its timing calibration; the publisher
-- and the daemon of mDNS, which are a library; the string calls of the phones' C interface; the task
-- that joins a connection's two loops; the search for the V4L2 device and its module; the files and
-- shared memory of the drivers of macOS and Windows; the glue of the desktop's window, and the
-- phones' own code.
pub mod Prelude
pub mod Text
pub mod Protocol
pub mod Transport
pub mod Mobile
pub mod Video
pub mod Output
pub mod Decoder
pub mod Adb
pub mod Discovery
pub mod Shell
pub mod Pipeline
pub mod Tests
