-- ===== src/Adb/Manager.antt =====
-- `AdbManager` (rust/phonecam-desktop/src-tauri/src/adb.rs), over a `Machine` and an environment.
pub mod Target
pub mod Reverse
use phone_cam.Prelude.{
  ℕ, Bool, true, false, Option, none, some, List, [], ◌∷◌, ◌++◌, map, Result, ok, err, ◌==◌, nat_eq,
  if◌then◌else◌,
}
use phone_cam.Text.{Text, trim, is_empty}
use phone_cam.Text.Order.{text_eq}
use phone_cam.Text.Split.{codes}
use phone_cam.Text.Numbers.{show_nat}
use phone_cam.Adb.Devices.{
  AdbDevice, AdbError, io, utf8, no_devices, invalid_port, unauthorized_devices, multiple_devices,
  device_not_found, device_unavailable, command_failed, is_ready, is_unauthorized,
  parse_devices_output,
}
use phone_cam.Adb.Binary.{Output, Machine, Environment, discover_adb_binary}

unfoldable pub find_serial : Text → List AdbDevice → Option AdbDevice
find_serial serial [] = none
find_serial serial (d ∷ ds) = if d.serial == serial then some d else find_serial serial ds

unfoldable pub filter : (AdbDevice → Bool) → List AdbDevice → List AdbDevice
filter test [] = []
filter test (d ∷ ds) = let rest = filter test ds in if test d then d ∷ rest else rest

abbrev pub serials : List AdbDevice → List Text
serials = map (λ d. d.serial)

-- `serial.map(str::trim).filter(|value| !value.is_empty())`
abbrev pub requested : Option Text → Option Text
requested none = none
requested (some serial) = if is_empty (trim serial) then none else some (trim serial)

abbrev unauthorized_or_none : {P : Type 0} → List Text → AdbError P
unauthorized_or_none [] = no_devices
unauthorized_or_none (s ∷ ss) = unauthorized_devices (s ∷ ss)

abbrev only_ready : {P : Type 0} → List AdbDevice → List AdbDevice → Result (AdbError P) Text
only_ready devices [] =
    err (unauthorized_or_none (serials (filter (λ d. is_unauthorized d.state) devices)))
only_ready devices (d ∷ []) = ok d.serial
only_ready devices (d ∷ ds) = err (multiple_devices (serials (d ∷ ds)))

abbrev of_requested : {P : Type 0} → Text → Option AdbDevice → Result (AdbError P) Text
of_requested serial none = err (device_not_found serial)
of_requested serial (some d) =
    if is_ready d
    then ok serial
    else if is_unauthorized d.state
    then err (unauthorized_devices (serial ∷ []))
    else err (device_unavailable serial d.state)

-- `resolve_target_serial`, once the devices are listed and the request is trimmed.
unfoldable pub choose_target :
    {P : Type 0} → List AdbDevice → Option Text → Result (AdbError P) Text
unfolding find_serial filter
choose_target [] wanted = err no_devices
choose_target (d ∷ ds) none = only_ready (d ∷ ds) (filter is_ready (d ∷ ds))
choose_target (d ∷ ds) (some serial) = of_requested serial (find_serial serial (d ∷ ds))

module _ (M : Machine) (E : Environment M) where
  open M use {PathBuf, Outside}

  pub record AdbManager : Type 0 where
    pub resolved_adb_path : Option PathBuf
    pub outside : Outside

  abbrev pub Action : Type 0 → Type 0
  Action A = AdbManager → AdbManager × Result (AdbError PathBuf) A

  abbrev pub then_do :
      {A B : Type 0}
      → (A → Action B)
      → AdbManager × Result (AdbError PathBuf) A
      → AdbManager × Result (AdbError PathBuf) B
  then_do rest (m, ok a) = rest a m
  then_do rest (m, err e) = (m, err e)

  -- An error ends the calls that follow.
  infixl 5 ◌>>=◌ ◌>>◌
  abbrev ◌>>=◌ : {A B : Type 0} → Action A → (A → Action B) → Action B
  (first >>= rest) m = then_do rest (first m)

  abbrev ◌>>◌ : {A B : Type 0} → Action A → Action B → Action B
  (first >> rest) m = then_do (λ a. rest) (first m)

  abbrev pub lift : {A : Type 0} → Result (AdbError PathBuf) A → Action A
  lift r m = (m, r)

  abbrev keep_path :
      Outside × Result (AdbError PathBuf) PathBuf → AdbManager × Result (AdbError PathBuf) PathBuf
  keep_path (outside, ok p) = (record { resolved_adb_path = some p; outside = outside }, ok p)
  keep_path (outside, err e) = (record { resolved_adb_path = none; outside = outside }, err e)

  unfoldable pub resolve_adb_path : Action PathBuf
  resolve_adb_path m = elim m.resolved_adb_path [
    | some p ↦ (m, ok p)
    | none ↦ keep_path (discover_adb_binary M E m.outside)
  ]

  abbrev pub output_text : PathBuf → List Text → Output → Result (AdbError PathBuf) Text
  output_text path args o = elim (M.from_utf8 o.stdout) [
    | none ↦ err (utf8 (codes "stdout"))
    | some out ↦ elim (M.from_utf8 o.stderr) [
      | none ↦ err (utf8 (codes "stderr"))
      | some error ↦ if o.success then ok out else err (command_failed path args o.code out error)
    ]
  ]

  abbrev pub answer_of : PathBuf → List Text → Option Output → Result (AdbError PathBuf) Text
  answer_of path args none = err (io path)
  answer_of path args (some o) = output_text path args o

  unfoldable pub run_with : List Text → PathBuf → Action Text
  run_with args path m =
      let r = M.execute path args m.outside in (record m { outside = r.0 }, answer_of path args r.1)

  unfoldable pub run_success : List Text → Action Text
  unfolding resolve_adb_path run_with
  run_success args = do path ← resolve_adb_path; run_with args path

  unfoldable pub ensure_server_started : Action (Unit {0})
  unfolding run_success
  ensure_server_started = do _ ← run_success (codes "start-server" ∷ []); lift (ok tt)

  unfoldable pub list_devices_raw : Action (List AdbDevice)
  unfolding ensure_server_started run_success parse_devices_output
  list_devices_raw = do
    ensure_server_started
    stdout ← run_success (codes "devices" ∷ codes "-l" ∷ [])
    lift (ok (parse_devices_output stdout))

  abbrev some_devices : List AdbDevice → Result (AdbError PathBuf) (List AdbDevice)
  some_devices [] = err no_devices
  some_devices (d ∷ ds) = ok (d ∷ ds)

  unfoldable pub devices : Action (List AdbDevice)
  unfolding list_devices_raw
  devices = do listed ← list_devices_raw; lift (some_devices listed)

  unfoldable pub resolve_target_serial : Option Text → Action Text
  unfolding list_devices_raw choose_target
  resolve_target_serial serial = do
    listed ← list_devices_raw
    lift (choose_target listed (requested serial))

  -- `format!("tcp:{port}")`
  abbrev pub tcp : ℕ → Text
  tcp port = codes "tcp:" ++ show_nat port

  abbrev pub reverse_args : Text → ℕ → ℕ → List Text
  reverse_args target device_port host_port =
      codes "-s" ∷ target ∷ codes "reverse" ∷ tcp device_port ∷ tcp host_port ∷ []

  -- What follows the checks of the two ports.
  unfoldable pub reverse_checked : ℕ → ℕ → Option Text → Action Text
  unfolding ensure_server_started resolve_target_serial run_success
  reverse_checked device_port host_port serial = do
    ensure_server_started
    target ← resolve_target_serial serial
    _ ← run_success (reverse_args target device_port host_port)
    lift (ok target)

  unfoldable pub reverse : ℕ → ℕ → Option Text → Action Text
  unfolding reverse_checked
  reverse device_port host_port serial =
      if device_port == 0
      then lift (err (invalid_port device_port))
      else if host_port == 0
      then lift (err (invalid_port host_port))
      else reverse_checked device_port host_port serial

  abbrev pub remove_args : Text → ℕ → List Text
  remove_args target device_port =
      codes "-s" ∷ target ∷ codes "reverse" ∷ codes "--remove" ∷ tcp device_port ∷ []

  -- A serial that is given is not looked up.
  unfoldable pub removal_target : Option Text → Action Text
  unfolding resolve_target_serial
  removal_target (some serial) = lift (ok serial)
  removal_target none = resolve_target_serial none

  unfoldable pub kill_reverse_checked : ℕ → Option Text → Action Text
  unfolding ensure_server_started removal_target run_success
  kill_reverse_checked device_port serial = do
    ensure_server_started
    target ← removal_target (requested serial)
    _ ← run_success (remove_args target device_port)
    lift (ok target)

  unfoldable pub kill_reverse : ℕ → Option Text → Action Text
  unfolding kill_reverse_checked
  kill_reverse device_port serial =
      if device_port == 0
      then lift (err (invalid_port device_port))
      else kill_reverse_checked device_port serial
