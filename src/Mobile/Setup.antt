-- ===== src/Mobile/Setup.antt =====
-- Configuration, opening and closing (rust/phonecam-mobile-core/src/lib.rs). `serde_json` is a
-- third-party crate: its reading of a `VideoConfig` is a parameter.
use phone_cam.Prelude.{
  ℕ, Bool, true, false, ◌||◌, not, Option, none, some, List, [], Result, ok, err, ◌==◌, nat_eq,
  is_ok, if◌then◌else◌, contains,
}
use phone_cam.Text.{Text, trim, is_empty}
use phone_cam.Protocol.Profile.{StreamProfile, profile_eq, protocol_version}
use phone_cam.Protocol.Handshake.{Handshake, validate_handshake}
use phone_cam.Protocol.Message.{Bincode}
use phone_cam.Transport.Wire.{TransportError}
use phone_cam.Transport.Connect.{Network, Connection, streaming, ConnectionState, connect}
use phone_cam.Mobile.State.{TransportClient, Core, CStr, text, profile_from_ffi}

pub record VideoConfig : Type 0 where
  pub active_profile : StreamProfile
  pub supported_profiles : List StreamProfile

-- The handshake that both `VideoConfig::validate` and `initialize_transport_client` build.
abbrev pub mobile_handshake : VideoConfig → Handshake
mobile_handshake c = record {
  version = protocol_version;
  device_name = "PhoneCam Mobile";
  supported_profiles = c.supported_profiles;
  active_profile = some c.active_profile;
}

-- `VideoConfig::validate`
unfoldable pub validate_config : VideoConfig → Bool
validate_config c = is_ok (validate_handshake (mobile_handshake c))

unfoldable pub configure_endpoint : Text → ℕ → Core → Core
configure_endpoint host port s =
    if is_empty (trim host)
    then s
    else record s { config = record s.config { endpoint_host = host; endpoint_port = port } }

unfoldable pub set_streaming_enabled : Bool → Core → Core
set_streaming_enabled enabled s = record s {
  config = record s.config { streaming_enabled = enabled };
}

-- What the machine does while a client opens: whether the runtime could be built, whether the
-- connect timeout came first, and the network.
pub record Environment : Type 0 where
  pub runtime_built : Bool
  pub connect_elapsed : Bool
  pub network : Network

-- The client that a new connection gives.
abbrev pub new_client : VideoConfig → Connection → TransportClient
new_client c connection = record {
  connection = record {
    outbound = [];
    writer_alive = true;
    inbound = [];
    reader_alive = true;
    state = streaming;
    peer_handshake = connection.peer_handshake;
  };
  supported_profiles = c.supported_profiles;
  active_profile = c.active_profile;
  pending_configuration = none;
}

module _ (B : Bincode) where
  unfoldable pub store_client :
      VideoConfig → Result (TransportError B) Connection → Core → Core × Bool
  store_client c (ok connection) s = (record s { client = some (new_client c connection) }, true)
  store_client c (err e) s = (s, false)

  unfoldable pub initialize_transport_client : Environment → Text → VideoConfig → Core → Core × Bool
  unfolding store_client
  initialize_transport_client env host c s =
      if is_empty (trim host) || not (validate_config c)
      then (s, false)
      else if not env.runtime_built
      then (s, false)
      else if env.connect_elapsed
      then (s, false)
      else store_client c (connect B env.network (mobile_handshake c)).1 s

  -- `phonecam_transport_init` once its arguments are texts.
  unfoldable pub init_with : Environment → Text → ℕ → Option VideoConfig → Core → Core × Bool
  init_with env host port none s = (s, false)
  init_with env host port (some c) s =
      if is_empty host || not (validate_config c)
      then (s, false)
      else let (s', initialized) =
          initialize_transport_client env host c (configure_endpoint host port s) in
        (set_streaming_enabled initialized s', initialized)

  -- `phonecam_transport_init`
  unfoldable pub transport_init :
      (Text → Option VideoConfig) → Environment → CStr → ℕ → CStr → Core → Core × Bool
  unfolding init_with
  transport_init read_config env (text host) port (text json) s =
      if port == 0 then (s, false) else init_with env (trim host) port (read_config json) s
  transport_init read_config env _ port _ s = (s, false)

-- `phonecam_transport_shutdown`, with `shutdown_transport_client`.
unfoldable pub transport_shutdown : Core → Core
unfolding set_streaming_enabled
transport_shutdown s = record (set_streaming_enabled false s) { client = none }

-- `matches!` in `phonecam_transport_is_connected`
unfoldable pub is_live : ConnectionState → Bool
is_live ConnectionState.handshaking = true
is_live ConnectionState.streaming = true
is_live _ = false

-- `phonecam_transport_is_connected`
unfoldable pub transport_is_connected : Core → Bool
unfolding is_live
transport_is_connected s = elim s.client [ none ↦ false | some c ↦ is_live c.connection.state ]

-- `phonecam_peer_supports_profile`
unfoldable pub peer_supports_profile : ℕ → ℕ → ℕ → ℕ → Core → Bool
peer_supports_profile codec width height fps s = elim (profile_from_ffi codec width height fps) [
  | none ↦ false
  | some profile ↦ elim s.client [
    | none ↦ false
    | some c ↦ contains c.connection.peer_handshake.supported_profiles profile
  ]
]
