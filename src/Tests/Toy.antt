-- ===== src/Tests/Toy.antt =====
-- An encoding that stands in for bincode: it knows one handshake, the keepalive, and two of the
-- camera controls, and fails on every other value.
use phone_cam.Prelude.{
  ℕ, ◌≡◌, refl, Bool, true, false, ◌&&◌, Option, none, some, List, [], ◌∷◌, Result, ok, err, ◌==◌,
  nat_eq, string_eq, option_eq, nat_beq_iff, if◌then◌else◌, arith,
}
use phone_cam.Protocol.Profile.{StreamProfile, profile_eq, profile_beq_iff, h264_720p30}
use phone_cam.Protocol.Handshake.{Handshake}
use phone_cam.Protocol.Message.{
  CameraControl, switch_camera, request_keyframe, configure_stream, StatusUpdate, Serde, Bincode,
}
use phone_cam.Protocol.Message.Laws.{RoundTrips, IsLawful}
use phone_cam.Transport.Loops.{keepalive_ping}

abbrev pub phone : Handshake
phone = record {
  version = 2;
  device_name = "PhoneCam Mobile";
  supported_profiles = h264_720p30 ∷ [];
  active_profile = some h264_720p30;
}

abbrev nothing : {T : Type 0} → Serde (Unit {0}) (Unit {0}) T
nothing = record { encode_to_vec = λ v. err tt; decode_from_slice = λ bytes. err tt }

abbrev one_byte_of : {T : Type 0} → T → ℕ → List ℕ → Result (Unit {0}) (T × ℕ)
one_byte_of a code (b ∷ []) = if b == code then ok (a, 1) else err tt
one_byte_of a code _ = err tt

-- One value `a`, recognised by a test, as one byte.
abbrev one_value : {T : Type 0} → (T → Bool) → T → ℕ → Serde (Unit {0}) (Unit {0}) T
one_value test a code = record {
  encode_to_vec = λ v. if test v then ok (code ∷ []) else err tt;
  decode_from_slice = one_byte_of a code;
}

one_value-RoundTrips :
    {T : Type 0} (test : T → Bool) (a : T) (code : ℕ)
    → ((v : T) → test v ≡ true → v ≡ a)
    → RoundTrips (one_value test a code)
one_value-RoundTrips test a code sound v bytes h = let s = sound v in ground arith

abbrev control_bytes : CameraControl → Result (Unit {0}) (List ℕ)
control_bytes (switch_camera b) = ok ((if b then 1 else 0) ∷ [])
control_bytes request_keyframe = ok (2 ∷ [])
control_bytes (configure_stream id p) = err tt

abbrev control_of : List ℕ → Result (Unit {0}) (CameraControl × ℕ)
control_of (b ∷ []) =
    if b == 0
    then ok (switch_camera false, 1)
    else if b == 1
    then ok (switch_camera true, 1)
    else if b == 2
    then ok (request_keyframe, 1)
    else err tt
control_of _ = err tt

abbrev is_only : List StreamProfile → Bool
is_only (p ∷ []) = p == h264_720p30
is_only _ = false

abbrev is_active : Option StreamProfile → Bool
is_active (some p) = p == h264_720p30
is_active none = false

abbrev is_phone : Handshake → Bool
is_phone h =
    h.version == 2
    && (h.device_name == "PhoneCam Mobile"
        && (is_only h.supported_profiles && is_active h.active_profile))

abbrev keepalive : StatusUpdate
keepalive = record { status = keepalive_ping }

abbrev pub toy : Bincode
toy = record {
  EncodeError = Unit {0};
  DecodeError = Unit {0};
  handshakes = one_value is_phone phone 7;
  video_frames = nothing;
  audio_frames = nothing;
  camera_controls = record { encode_to_vec = control_bytes; decode_from_slice = control_of };
  status_updates = one_value (λ s. s.status == keepalive_ping) keepalive 9;
  disconnects = nothing;
  results = nothing;
  updates = nothing;
}

nothing-RoundTrips : {T : Type 0} → RoundTrips {T = T} nothing
nothing-RoundTrips v bytes h = cc

control-RoundTrips : RoundTrips toy.camera_controls
control-RoundTrips (switch_camera true) bytes h = ground arith
control-RoundTrips (switch_camera false) bytes h = ground arith
control-RoundTrips request_keyframe bytes h = ground arith
control-RoundTrips (configure_stream id p) bytes h = cc

is_only-eq : (ps : List StreamProfile) → is_only ps ≡ true → ps ≡ h264_720p30 ∷ []
is_only-eq [] h = cc
is_only-eq (p ∷ []) h = let e = (profile_beq_iff p h264_720p30).0 h in cc
is_only-eq (p ∷ q ∷ ps) h = cc

is_active-eq : (p : Option StreamProfile) → is_active p ≡ true → p ≡ some h264_720p30
is_active-eq none h = cc
is_active-eq (some p) h = let e = (profile_beq_iff p h264_720p30).0 h in cc

four :
    (a b c d : Bool)
    → (a && (b && (c && d))) ≡ true
    → (a ≡ true) × (b ≡ true) × (c ≡ true) × (d ≡ true)
four true true true true h = (refl, refl, refl, refl)
four true true true false h = cc
four true true false d h = cc
four true false c d h = cc
four false b c d h = cc

is_phone-eq : (h : Handshake) → is_phone h ≡ true → h ≡ phone
is_phone-eq h e =
    let (a, b, c, d) = four _ _ _ _ e in
    let v = (nat_beq_iff h.version 2).0 a in
    let n = (string_eq.same_iff h.device_name "PhoneCam Mobile").0 b in
    let o = is_only-eq h.supported_profiles c in let p = is_active-eq h.active_profile d in cc

pub toy-IsLawful : IsLawful toy
toy-IsLawful = record {
  handshakes = one_value-RoundTrips is_phone phone 7 is_phone-eq;
  video_frames = nothing-RoundTrips;
  audio_frames = nothing-RoundTrips;
  camera_controls = control-RoundTrips;
  status_updates =
      one_value-RoundTrips (λ s. s.status == keepalive_ping) keepalive 9
        (λ v h. let e = (string_eq.same_iff v.status keepalive_ping).0 h in cc);
  disconnects = nothing-RoundTrips;
  results = nothing-RoundTrips;
  updates = nothing-RoundTrips;
}
