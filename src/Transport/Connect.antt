-- ===== src/Transport/Connect.antt =====
-- Opening a connection: `build_connection`, `PhoneCamClient::connect` and the parts of
-- `PhoneCamServer` around it (rust/phonecam-transport/src/client.rs and server.rs). The published
-- connection states are a list, oldest first.
pub mod Laws
use phone_cam.Prelude.{
  ℕ, Bool, true, false, Option, none, some, List, [], ◌∷◌, ◌++◌, Result, ok, err, ensure, ok_or,
  map_err, ◌>>=◌, ◌>>◌, contains, if◌then◌else◌,
}
use phone_cam.Protocol.Profile.{StreamProfile, profile_eq}
use phone_cam.Protocol.Handshake.{Handshake, validate_handshake}
use phone_cam.Protocol.Message.{Bincode, Message}
use phone_cam.Transport.Wire.{
  TransportError, io, no_address, os_failure, invalid_handshake, handshake_timeout,
  expected_handshake, active_profile_not_common, read_message, write_message,
}

pub data ConnectionState : Type 0 where
  disconnected connecting handshaking streaming : ConnectionState

abbrev pub handshake_timeout_secs : ℕ
handshake_timeout_secs = 5

-- What the network does while a connection opens.
pub record Network : Type 0 where
  pub resolved : Bool  -- the address resolved to at least one socket address
  pub established : Bool  -- `TcpStream::connect`, or `accept`, and `set_nodelay` succeeded
  pub works : Bool  -- the handshake could be written
  pub elapsed : Bool  -- the handshake timeout came first
  pub incoming : List ℕ  -- all that the peer sends

-- A connection whose tasks have started: what is left to read, and what was written.
pub record Connection : Type 0 where
  pub peer_handshake : Handshake
  pub incoming : List ℕ
  pub sent : List ℕ

module _ (B : Bincode) where
  -- One round of the loop of `validate_common_active_profiles`.
  unfoldable pub active_is_common :
      Option StreamProfile → List StreamProfile → Result (TransportError B) (Unit {0})
  active_is_common none supported_by_other = ok tt
  active_is_common (some active) supported_by_other =
      ensure (contains supported_by_other active) (active_profile_not_common active)

  unfoldable pub validate_common_active_profiles :
      Handshake → Handshake → Result (TransportError B) (Unit {0})
  validate_common_active_profiles local peer = do
    active_is_common local.active_profile peer.supported_profiles
    active_is_common peer.active_profile local.supported_profiles

  -- `match read_message(..)` in `build_connection`.
  unfoldable pub as_handshake : Message → Result (TransportError B) Handshake
  as_handshake (Message.handshake h) = ok h
  as_handshake _ = err expected_handshake

  -- The block under `timeout`: the peer's handshake, the rest of the stream, and what was written.
  unfoldable pub exchange : Network → Handshake → Result (TransportError B) Connection
  unfolding as_handshake
  exchange net local = do
    sent ← write_message B net.works (Message.handshake local) []
    message ← read_message B net.incoming
    peer ← as_handshake message.0
    ok (record { peer_handshake = peer; incoming = message.1; sent = sent })

  unfoldable pub build_connection : Network → Handshake → Result (TransportError B) Connection
  build_connection net local = do
    map_err invalid_handshake (validate_handshake local)
    connection ←
        if net.elapsed then err (handshake_timeout handshake_timeout_secs) else exchange net local
    map_err invalid_handshake (validate_handshake connection.peer_handshake)
    validate_common_active_profiles local connection.peer_handshake
    ok connection

  -- The states that a successful `build_connection` adds.
  unfoldable pub announce :
      List ConnectionState
      → Result (TransportError B) Connection
      → List ConnectionState × Result (TransportError B) Connection
  announce states (ok c) = (states ++ streaming ∷ [], ok c)
  announce states (err e) = (states, err e)

  -- `PhoneCamClient::connect`
  unfoldable pub connect :
      Network → Handshake → List ConnectionState × Result (TransportError B) Connection
  unfolding announce
  connect net local = elim (validate_handshake local) [
    | err e ↦ ([], err (invalid_handshake e))
    | ok _ ↦
        if net.resolved
        then if net.established
          then announce (disconnected ∷ connecting ∷ handshaking ∷ []) (build_connection net local)
          else (disconnected ∷ connecting ∷ [], err (io os_failure))
        else (disconnected ∷ connecting ∷ [], err (io no_address))
  ]

  -- `PhoneCamServer::bind`, up to the listener.
  unfoldable pub bind : Network → Handshake → Result (TransportError B) (Unit {0})
  bind net local = do
    map_err invalid_handshake (validate_handshake local)
    ensure net.resolved (io no_address)
    ensure net.established (io os_failure)

  -- `PhoneCamServer::accept`
  unfoldable pub accept :
      Network → Handshake → List ConnectionState × Result (TransportError B) Connection
  unfolding announce
  accept net local =
      if net.established
      then announce (handshaking ∷ []) (build_connection net local)
      else ([], err (io os_failure))
