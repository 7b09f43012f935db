-- ===== src/Adb/Monitor.antt =====
-- The task of `monitor_devices` (rust/phonecam-desktop/src-tauri/src/adb.rs), while the receiver of
-- its events is open.
pub mod Replay
pub mod Follow
pub mod Known
use phone_cam.Prelude.{
  Option, none, some, List, [], ◌∷◌, ◌++◌, Result, ok, err, ◌==◌, if◌then◌else◌,
}
use phone_cam.Text.{Text}
use phone_cam.Adb.Map.{BTreeMap, get, insert}
use phone_cam.Adb.Devices.{AdbDeviceState, state_eq, AdbDevice, AdbError, no_devices}

pub data AdbDeviceEventKind : Type 0 where
  connected disconnected state_changed : AdbDeviceEventKind

pub record AdbDeviceEvent : Type 0 where
  pub serial : Text
  pub kind : AdbDeviceEventKind
  pub previous_state : Option AdbDeviceState
  pub current_state : Option AdbDeviceState
  pub device : Option AdbDevice

-- `collect` into a map: of devices with one serial the last stays.
unfoldable pub collect : BTreeMap AdbDevice → List AdbDevice → BTreeMap AdbDevice
collect m [] = m
collect m (d ∷ ds) = collect (insert d.serial d m) ds

-- The three events that the loops send.
abbrev pub arrival : Text → AdbDevice → AdbDeviceEvent
arrival serial d = record {
  serial = serial;
  kind = connected;
  previous_state = none;
  current_state = some d.state;
  device = some d;
}

abbrev pub change : Text → AdbDevice → AdbDevice → AdbDeviceEvent
change serial before d = record {
  serial = serial;
  kind = state_changed;
  previous_state = some before.state;
  current_state = some d.state;
  device = some d;
}

abbrev pub departure : Text → AdbDevice → AdbDeviceEvent
departure serial before = record {
  serial = serial;
  kind = disconnected;
  previous_state = some before.state;
  current_state = none;
  device = some before;
}

-- The first loop's body, for a device that is there now.
unfoldable pub present : BTreeMap AdbDevice → Text × AdbDevice → Option AdbDeviceEvent
present previous (serial, d) = elim (get previous serial) [
  | none ↦ some (arrival serial d)
  | some before ↦ if before.state == d.state then none else some (change serial before d)
]

-- The second loop's body, for a device that was there.
unfoldable pub absent : BTreeMap AdbDevice → Text × AdbDevice → Option AdbDeviceEvent
absent current (serial, before) = elim (get current serial) [
  | some d ↦ none
  | none ↦ some (departure serial before)
]

-- A loop over a map, with the events that its body sends.
unfoldable pub each :
    (Text × AdbDevice → Option AdbDeviceEvent) → BTreeMap AdbDevice → List AdbDeviceEvent
each body [] = []
each body (entry ∷ m) = elim (body entry) [ none ↦ each body m | some e ↦ e ∷ each body m ]

unfoldable pub poll_events : BTreeMap AdbDevice → BTreeMap AdbDevice → List AdbDeviceEvent
unfolding each present absent
poll_events previous current = each (present previous) current ++ each (absent current) previous

-- One tick: the events, and the map that is kept.
unfoldable pub poll :
    {P : Type 0}
    → Result (AdbError P) (List AdbDevice)
    → BTreeMap AdbDevice
    → List AdbDeviceEvent × BTreeMap AdbDevice
unfolding poll_events collect
poll (ok devices) previous =
    let current = collect [] devices in (poll_events previous current, current)
poll (err no_devices) previous = (poll_events previous [], [])
poll (err e) previous = ([], previous)

-- Ticks one after another.
unfoldable pub watch :
    {P : Type 0}
    → List (Result (AdbError P) (List AdbDevice))
    → BTreeMap AdbDevice
    → List AdbDeviceEvent × BTreeMap AdbDevice
unfolding poll
watch [] previous = ([], previous)
watch (a ∷ answers) previous =
    let r = poll a previous in let later = watch answers r.1 in (r.0 ++ later.0, later.1)
