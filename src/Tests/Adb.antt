-- ===== src/Tests/Adb.antt =====
-- A machine on which adb is installed and one phone is ready.
use phone_cam.Prelude.{
  ◌≡◌, ◌↔◌, refl, true, false, Option, none, some, List, [], ◌∷◌, ◌++◌, Result, ok, err, ◌==◌,
  contains, if◌then◌else◌,
}
use phone_cam.Text.{Text, is_whitespace, trim, trim_start, trim_end, keep_unless_last}
use phone_cam.Text.Order.{text_eq, text_lt}
use phone_cam.Text.Split.{
  codes, starts_with, split, split_once, non_empty, split_whitespace, without_return, as_lines,
  lines,
}
use phone_cam.Text.Numbers.{digits_before, show_nat, parse_digits, parse_unsigned}
use phone_cam.Adb.Map.{get, insert}
use phone_cam.Adb.Devices.{
  AdbDeviceState, device, unauthorized, from_token, AdbDevice, AdbError, io, no_devices,
  add_property, properties_of, device_of, device_of_words, parse_device_line, parse_lines,
  parse_devices_output,
}
use phone_cam.Adb.Binary.{
  Output, Machine, Environment, has_infix, push_candidate, push_all, candidates_of, says_adb,
  probe_adb_binary, search, discover_adb_binary,
}
use phone_cam.Adb.Binary.Search.{IsNew, Ends, discover_adb_binary-Ends}
use phone_cam.Adb.Manager.{
  find_serial, filter, choose_target, AdbManager, resolve_adb_path, run_with, run_success,
  ensure_server_started, list_devices_raw, resolve_target_serial, reverse_checked, reverse,
}
use phone_cam.Adb.Manager.Target.{IsTarget, choose_target-ok_iff}
use phone_cam.Adb.Manager.Reverse.{Reversed, reverse-Reversed}
use phone_cam.Adb.Monitor.{watch}
use phone_cam.Adb.Monitor.Replay.{IsChain, replay}
use phone_cam.Adb.Monitor.Known.{last_state, watch-replay}

-- What `adb devices -l` prints.
abbrev listing : Text
listing =
    codes "List of devices attached"
    ++ 10 ∷ codes "A1 device product:p transport_id:3"
    ++ 10 ∷ codes "B2 unauthorized usb:1"
    ++ 10 ∷ []

abbrev parse_listing : List AdbDevice
parse_listing = parse_devices_output listing

abbrev plain : Text → AdbDeviceState → AdbDevice
plain serial state = record {
  serial = serial;
  state = state;
  product = none;
  model = none;
  name = none;
  transport_id = none;
  properties = [];
}

abbrev first_phone : AdbDevice
first_phone = record (plain (codes "A1") device) {
  product = some (codes "p");
  transport_id = some 3;
  properties = (codes "product", codes "p") ∷ (codes "transport_id", codes "3") ∷ [];
}

abbrev second_phone : AdbDevice
second_phone = record (plain (codes "B2") unauthorized) {
  properties = (codes "usb", codes "1") ∷ [];
}

parses : parse_devices_output listing ≡ first_phone ∷ second_phone ∷ []
unfolding parse_devices_output parse_lines parse_device_line lines as_lines without_return split
    split_whitespace non_empty starts_with device_of_words device_of from_token properties_of
    add_property split_once get insert text_lt trim trim_start trim_end keep_unless_last
    is_whitespace parse_unsigned parse_digits
parses = refl

abbrev phones : List AdbDevice
phones = first_phone ∷ second_phone ∷ []

choose_target-ok_iff_example :
    (choose_target {P = Text} phones none ≡ ok (codes "A1")) ↔ IsTarget phones none (codes "A1")
choose_target-ok_iff_example = choose_target-ok_iff phones none (codes "A1")

abbrev says : Text → Option Output
says t = some (record { success = true; code = some 0; stdout = t; stderr = [] })

abbrev answer : List Text → Option Output
answer [] = none
answer (a ∷ args) =
    if a == codes "version"
    then says (codes "Android Debug Bridge version 1.0.41")
    else if a == codes "devices"
    then says (codes "A1 device")
    else says []

abbrev pub machine : Machine
machine = record {
  PathBuf = Text;
  path_eq = text_eq;
  from_str = λ t. t;
  join = λ p t. p ++ t;
  parent = λ p. none;
  exists = λ p. false;
  Outside = Unit {0};
  execute = λ p args o. (o, answer args);
  from_utf8 = λ bytes. some bytes;
  from_utf8_lossy = λ bytes. bytes;
}

abbrev pub environment : Environment machine
environment = record {
  adb_path = none;
  android_home = some (codes "/sdk/");
  android_sdk_root = some (codes "/sdk/");
  home = none;
  userprofile = none;
  local_app_data = none;
  current_exe = none;
  is_windows = false;
}

discover_adb_binary-Ends_example :
    IsNew machine environment [] (candidates_of machine environment)
    × Ends machine environment
        (candidates_of machine environment)
        []
        (discover_adb_binary machine environment tt).1
discover_adb_binary-Ends_example = discover_adb_binary-Ends machine environment tt

abbrev pub fresh : AdbManager machine environment
fresh = record { resolved_adb_path = none; outside = tt }

abbrev pub ready : AdbManager machine environment
ready = record { resolved_adb_path = some (codes "adb"); outside = tt }

pub reverses : reverse machine environment 7878 7878 none fresh ≡ (ready, ok (codes "A1"))
unfolding reverse reverse_checked ensure_server_started run_success resolve_adb_path run_with
    discover_adb_binary search candidates_of push_all push_candidate probe_adb_binary says_adb
    has_infix resolve_target_serial list_devices_raw choose_target filter find_serial
    parse_devices_output parse_lines parse_device_line lines as_lines without_return split
    split_whitespace non_empty starts_with device_of_words device_of from_token properties_of
    add_property split_once get insert text_lt trim trim_start trim_end keep_unless_last
    is_whitespace parse_unsigned parse_digits show_nat digits_before contains
reverses = refl

reverse-Reversed_example : Reversed machine environment 7878 7878 none ready (codes "A1")
reverse-Reversed_example =
    reverse-Reversed machine environment 7878 7878 none fresh ready (codes "A1") reverses

-- One device, a tick that fails, no device, and then two.
abbrev ticks : List (Result (AdbError Text) (List AdbDevice))
ticks = ok (second_phone ∷ []) ∷ err (io (codes "adb")) ∷ err no_devices ∷ []

watch-replay_example :
    IsChain (λ k. none) (watch (ticks ++ ok phones ∷ []) []).0
    × ((k : Text)
        → replay (watch (ticks ++ ok phones ∷ []) []).0 (λ j. none) k ≡ last_state phones k)
watch-replay_example = watch-replay ticks phones
