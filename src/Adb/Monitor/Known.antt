-- ===== src/Adb/Monitor/Known.antt =====
-- The refinement: the monitor's events against the last list of devices.
use phone_cam.Prelude.{
  ◌≡◌, refl, ap, ◌∙◌, Option, none, some, List, [], ◌∷◌, ◌++◌, Result, ok, err, ◌==◌, if◌then◌else◌,
  Bool-cases, Option-cases, inl, inr,
}
use phone_cam.Text.{Text}
use phone_cam.Text.Order.{text_eq}
use phone_cam.Adb.Map.{BTreeMap, get, insert, IsOrdered, insert-IsOrdered, get-insert}
use phone_cam.Adb.Devices.{
  AdbDeviceState, AdbDevice, AdbError, not_found, io, utf8, parse, no_devices, invalid_port,
  unauthorized_devices, multiple_devices, device_not_found, device_unavailable, command_failed,
}
use phone_cam.Adb.Monitor.{AdbDeviceEvent, collect, poll_events, poll, watch}
use phone_cam.Adb.Monitor.Replay.{View, replay, IsChain, states, replay-append, IsChain-append}
use phone_cam.Adb.Monitor.Follow.{poll_events-replay, poll_events-IsChain}

-- The state that a list of devices gives a serial: its last device's.
abbrev pub last_state : List AdbDevice → View
last_state [] k = none
last_state (d ∷ ds) k = elim (last_state ds k) [
  | some s ↦ some s
  | none ↦ if k == d.serial then some d.state else none
]

collect-IsOrdered :
    (m : BTreeMap AdbDevice) (ds : List AdbDevice) → IsOrdered m → IsOrdered (collect m ds)
unfolding collect
collect-IsOrdered m [] o = o
collect-IsOrdered m (d ∷ ds) o =
    collect-IsOrdered (insert d.serial d m) ds (insert-IsOrdered d.serial d m o)

abbrev or_else : Option AdbDeviceState → Option AdbDeviceState → Option AdbDeviceState
or_else (some s) t = some s
or_else none t = t

states-collect :
    (m : BTreeMap AdbDevice) (ds : List AdbDevice) (k : Text)
    → states (collect m ds) k ≡ or_else (last_state ds k) (states m k)
unfolding collect
states-collect m [] k = refl
states-collect m (d ∷ ds) k =
    rw (states-collect (insert d.serial d m) ds k, get-insert d.serial k d m)
      (elim (Option-cases (last_state ds k)) [
        | inl e ↦ rw e (elim (Bool-cases (k == d.serial)) [ inl s ↦ rw s refl | inr s ↦ rw s refl ])
        | inr (s, e) ↦ rw e refl
      ])

none_left : (o : Option AdbDeviceState) → or_else o none ≡ o
none_left none = refl
none_left (some s) = refl

told : (devices : List AdbDevice) (k : Text) → states (collect [] devices) k ≡ last_state devices k
unfolding get
told devices k = states-collect [] devices k ∙ none_left (last_state devices k)

abbrev Answer : Type 0 → Type 0
Answer P = Result (AdbError P) (List AdbDevice)

-- What holds after some ticks, of a client that knew all states before them.
record Follows (view : View) (r : List AdbDeviceEvent × BTreeMap AdbDevice) : Type 0 where
  chain : IsChain view r.0
  known : (k : Text) → replay r.0 view k ≡ states r.1 k
  ordered : IsOrdered r.1

module _ (view : View) (previous : BTreeMap AdbDevice) (o : IsOrdered previous)
    (knows : (k : Text) → view k ≡ states previous k) where
  events-Follows :
      (current : BTreeMap AdbDevice)
      → IsOrdered current
      → Follows view (poll_events previous current, current)
  events-Follows current oc = record {
    chain = poll_events-IsChain previous current view o oc knows;
    known = poll_events-replay previous current view o oc knows;
    ordered = oc;
  }

  failed-Follows : Follows view ([], previous)
  unfolding replay
  failed-Follows = record { chain = tt; known = knows; ordered = o }

  poll-Follows : {P : Type 0} (a : Answer P) → Follows view (poll a previous)
  unfolding poll
  poll-Follows (ok devices) = events-Follows (collect [] devices) (collect-IsOrdered [] devices tt)
  poll-Follows (err no_devices) = events-Follows [] tt
  poll-Follows (err (not_found ps)) = failed-Follows
  poll-Follows (err (io p)) = failed-Follows
  poll-Follows (err (utf8 s)) = failed-Follows
  poll-Follows (err (invalid_port p)) = failed-Follows
  poll-Follows (err (unauthorized_devices ss)) = failed-Follows
  poll-Follows (err (multiple_devices ss)) = failed-Follows
  poll-Follows (err (device_not_found s)) = failed-Follows
  poll-Follows (err (device_unavailable s t)) = failed-Follows
  poll-Follows (err (parse s)) = failed-Follows
  poll-Follows (err (command_failed p args code x y)) = failed-Follows

module _ {P : Type 0} where
  watch-Follows :
      (answers : List (Answer P)) (view : View) (previous : BTreeMap AdbDevice)
      → IsOrdered previous
      → ((k : Text) → view k ≡ states previous k)
      → Follows view (watch answers previous)
  unfolding watch
  watch-Follows [] view previous o knows = failed-Follows view previous o knows
  watch-Follows (a ∷ answers) view previous o knows =
      let first = poll-Follows view previous o knows a in
      let r = poll a previous in
      let later = watch-Follows answers (replay r.0 view) r.1 first.ordered first.known in
      record {
        chain = IsChain-append r.0 (watch answers r.1).0 view first.chain later.chain;
        known = λ k. ap (λ v. v k) (replay-append r.0 (watch answers r.1).0 view) ∙ later.known k;
        ordered = later.ordered;
      }

  watch-last :
      (answers : List (Answer P)) (devices : List AdbDevice) (previous : BTreeMap AdbDevice)
      → (watch (answers ++ ok devices ∷ []) previous).1 ≡ collect [] devices
  unfolding watch poll
  watch-last [] devices previous = refl
  watch-last (a ∷ answers) devices previous = watch-last answers devices (poll a previous).1

  -- For any ticks up to one at which adb listed devices, failed ones included: each event names as the
  -- previous state the one that the events before it told, its kind fits its two states, and after all
  -- of them the states told are those of the devices of that last list, and of no others.
  pub watch-replay :
      (answers : List (Answer P)) (devices : List AdbDevice)
      → IsChain (λ k. none) (watch (answers ++ ok devices ∷ []) []).0
        × ((k : Text)
            → replay (watch (answers ++ ok devices ∷ []) []).0 (λ j. none) k ≡ last_state devices k)
  unfolding get
  watch-replay answers devices =
      let f = watch-Follows (answers ++ ok devices ∷ []) (λ k. none) [] tt (λ k. refl) in
      (
        f.chain,
        λ k. f.known k ∙ (ap (λ m. states m k) (watch-last answers devices []) ∙ told devices k),
      )
