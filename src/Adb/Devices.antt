-- ===== src/Adb/Devices.antt =====
-- What `adb devices -l` prints, read line by line (rust/phonecam-desktop/src-tauri/src/adb.rs).
use phone_cam.Prelude.{
  ℕ, ◌^◌, Bool, true, false, ◌||◌, Option, none, some, List, [], ◌∷◌, ◌==◌, if◌then◌else◌,
  PartialEq, nat_eq, pair_eq, beq_refl, sym, ap, ◌∙◌, ◌≡◌, ◌↔◌, refl,
}
use phone_cam.Text.{Text, trim, is_empty}
use phone_cam.Text.Order.{text_eq}
use phone_cam.Text.Split.{
  codes, starts_with, split_once, split_whitespace, lines, to_ascii_lowercase,
}
use phone_cam.Text.Numbers.{parse_unsigned}
use phone_cam.Adb.Map.{BTreeMap, get, insert}

pub data AdbDeviceState : Type 0 where
  device unauthorized offline recovery bootloader sideload : AdbDeviceState
  unknown : Text → AdbDeviceState

-- `PartialEq` of the states, by a number for each name.
abbrev code_of : AdbDeviceState → ℕ × Text
code_of device = (0, [])
code_of unauthorized = (1, [])
code_of offline = (2, [])
code_of recovery = (3, [])
code_of bootloader = (4, [])
code_of sideload = (5, [])
code_of (unknown t) = (6, t)

abbrev state_of : ℕ × Text → AdbDeviceState
state_of (n, t) =
    if n == 0
    then device
    else if n == 1
    then unauthorized
    else if n == 2
    then offline
    else if n == 3
    then recovery
    else if n == 4
    then bootloader
    else if n == 5
    then sideload
    else unknown t

state_of-code_of : (a : AdbDeviceState) → state_of (code_of a) ≡ a
state_of-code_of device = refl
state_of-code_of unauthorized = refl
state_of-code_of offline = refl
state_of-code_of recovery = refl
state_of-code_of bootloader = refl
state_of-code_of sideload = refl
state_of-code_of (unknown t) = refl

abbrev pub state_beq : AdbDeviceState → AdbDeviceState → Bool
state_beq a b = code_of a == code_of b

pub state_beq_iff : (a b : AdbDeviceState) → (state_beq a b ≡ true) ↔ (a ≡ b)
state_beq_iff a b = (
  λ h.
      let e = ((pair_eq ⦃e = nat_eq⦄ ⦃f = text_eq⦄).same_iff (code_of a) (code_of b)).0 h in
      sym (state_of-code_of a) ∙ (ap state_of e ∙ state_of-code_of b),
  λ e. rw e (beq_refl (code_of b)),
)

instance abbrev pub state_eq : PartialEq AdbDeviceState
state_eq = record { same = state_beq; same_iff = state_beq_iff }

-- The names are compared in lower case, and an unknown one is kept as it is.
unfoldable pub from_token : Text → AdbDeviceState
from_token token =
    let normalized = to_ascii_lowercase (trim token) in
    if normalized == codes "device"
    then device
    else if normalized == codes "unauthorized"
    then unauthorized
    else if normalized == codes "offline"
    then offline
    else if normalized == codes "recovery"
    then recovery
    else if normalized == codes "bootloader"
    then bootloader
    else if normalized == codes "sideload"
    then sideload
    else unknown (trim token)

-- `is_ready`
abbrev pub is_ready_state : AdbDeviceState → Bool
is_ready_state device = true
is_ready_state _ = false

abbrev pub is_unauthorized : AdbDeviceState → Bool
is_unauthorized unauthorized = true
is_unauthorized _ = false

pub record AdbDevice : Type 0 where
  pub serial : Text
  pub state : AdbDeviceState
  pub product : Option Text
  pub model : Option Text
  pub name : Option Text  -- the field `device`
  pub transport_id : Option ℕ
  pub properties : BTreeMap Text

-- `AdbDevice::is_ready`
abbrev pub is_ready : AdbDevice → Bool
is_ready d = is_ready_state d.state

-- One `key:value` word, if both sides are there.
unfoldable pub add_property : Text → BTreeMap Text → BTreeMap Text
add_property part m = elim (split_once 58 part) [
  | none ↦ m
  | some (key, value) ↦
      if is_empty (trim key) || is_empty (trim value) then m else insert (trim key) (trim value) m
]

unfoldable pub properties_of : List Text → BTreeMap Text → BTreeMap Text
unfolding add_property
properties_of [] m = m
properties_of (part ∷ parts) m = properties_of parts (add_property part m)

abbrev parse_u32 : Option Text → Option ℕ
parse_u32 none = none
parse_u32 (some t) = parse_unsigned (2 ^ 32) t

unfoldable pub device_of : Text → Text → BTreeMap Text → AdbDevice
unfolding from_token
device_of serial token properties = record {
  serial = serial;
  state = from_token token;
  product = get properties (codes "product");
  model = get properties (codes "model");
  name = get properties (codes "device");
  transport_id = parse_u32 (get properties (codes "transport_id"));
  properties = properties;
}

-- The words of a line: serial, state, and the properties.
unfoldable pub device_of_words : List Text → Option AdbDevice
unfolding device_of properties_of
device_of_words (serial ∷ token ∷ parts) =
    if is_empty (trim serial) || is_empty (trim token)
    then none
    else some (device_of (trim serial) (trim token) (properties_of parts []))
device_of_words _ = none

unfoldable pub parse_device_line : Text → Option AdbDevice
unfolding device_of_words
parse_device_line line =
    let trimmed = trim line in
    if is_empty trimmed
      || (starts_with (codes "List of devices attached") trimmed || starts_with (codes "*") trimmed)
    then none
    else device_of_words (split_whitespace trimmed)

-- `filter_map(parse_device_line)`
unfoldable pub parse_lines : List Text → List AdbDevice
unfolding parse_device_line
parse_lines [] = []
parse_lines (l ∷ ls) = elim (parse_device_line l) [
  | none ↦ parse_lines ls
  | some d ↦ d ∷ parse_lines ls
]

unfoldable pub parse_devices_output : Text → List AdbDevice
unfolding parse_lines
parse_devices_output output = parse_lines (lines output)

-- `AdbError`, with the values that its texts quote instead of the texts, but for the errors of the
-- system and of the UTF-8 reader. A path is of the type `P`.
pub data AdbError (P : Type 0) : Type 0 where
  not_found : (searched : List P) → AdbError P
  io : (executed : P) → AdbError P
  utf8 : (stream : Text) → AdbError P
  parse : Text → AdbError P
  no_devices : AdbError P
  invalid_port : ℕ → AdbError P
  unauthorized_devices multiple_devices : List Text → AdbError P
  device_not_found : Text → AdbError P
  device_unavailable : Text → AdbDeviceState → AdbError P
  command_failed :
      P → (args : List Text) → (code : Option ℕ) → (stdout : Text) → (stderr : Text) → AdbError P
