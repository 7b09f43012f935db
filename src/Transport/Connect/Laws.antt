-- ===== src/Transport/Connect/Laws.antt =====
-- Both ends of a connection agree, and the states that are announced fit the result.
use phone_cam.Prelude.{
  ℕ, ◌≡◌, ◌↔◌, refl, true, false, Option, none, some, List, [], ◌∷◌, ◌++◌, Mem, ok, arith,
  contains→mem, mem→contains, Result-cases, inl, inr,
}
use phone_cam.Protocol.Profile.{StreamProfile, profile_eq}
use phone_cam.Protocol.Handshake.{Handshake}
use phone_cam.Protocol.Handshake.Laws.{IsHandshake, validate_handshake-ok_iff}
use phone_cam.Protocol.Message.{Bincode, Message}
use phone_cam.Protocol.Message.Laws.{IsLawful}
use phone_cam.Protocol.Frame.{encode_frame}
use phone_cam.Transport.Wire.{write_message}
use phone_cam.Transport.Wire.Laws.{read_message-write}
use phone_cam.Transport.Connect.{
  Network, Connection, disconnected, connecting, handshaking, streaming, active_is_common,
  validate_common_active_profiles, as_handshake, exchange, build_connection, announce, connect,
}

-- What an open connection has established about its two ends.
pub record IsAgreed (local peer : Handshake) : Type 0 where
  pub local_valid : IsHandshake local
  pub peer_valid : IsHandshake peer
  pub local_active :
      (p : StreamProfile) → local.active_profile ≡ some p → Mem p peer.supported_profiles
  pub peer_active :
      (p : StreamProfile) → peer.active_profile ≡ some p → Mem p local.supported_profiles

module _ (B : Bincode) where
  active_is_common-ok :
      (a : Option StreamProfile) (ps : List StreamProfile)
      → active_is_common B a ps ≡ ok tt
      → (p : StreamProfile) → a ≡ some p
      → Mem p ps
  unfolding active_is_common
  active_is_common-ok none ps h p e = absurd (cc)
  active_is_common-ok (some a) ps h p e = contains→mem ps p (ground arith)

  active_is_common-ok_of :
      (a : Option StreamProfile) (ps : List StreamProfile)
      → ((p : StreamProfile) → a ≡ some p → Mem p ps)
      → active_is_common B a ps ≡ ok tt
  unfolding active_is_common
  active_is_common-ok_of none ps h = refl
  active_is_common-ok_of (some a) ps h = rw (mem→contains ps (h a refl))

  -- If a connection opens, both handshakes are valid, and each end supports the other's active
  -- profile.
  pub build_connection-IsAgreed :
      (net : Network) (local : Handshake) (c : Connection)
      → build_connection B net local ≡ ok c
      → IsAgreed local c.peer_handshake
  unfolding build_connection validate_common_active_profiles
  build_connection-IsAgreed net local c h = record {
    local_valid = (validate_handshake-ok_iff local).0 (ground arith);
    peer_valid = (validate_handshake-ok_iff c.peer_handshake).0 (ground arith);
    local_active = active_is_common-ok local.active_profile _ (ground arith);
    peer_active = active_is_common-ok c.peer_handshake.active_profile _ (ground arith);
  }

  -- What the other end of the wire sees of a peer: its handshake frame, then whatever follows.
  pub record Speaks (peer : Handshake) (incoming : List ℕ) : Type 0 where
    pub hello : List ℕ
    pub rest : List ℕ
    pub encoded : encode_frame B (Message.handshake peer) ≡ ok hello
    pub first : incoming ≡ hello ++ rest

  exchange-ok :
      IsLawful B
      → (net : Network) (local peer : Handshake) (hello : List ℕ) → net.works ≡ true
      → encode_frame B (Message.handshake local) ≡ ok hello
      → (s : Speaks peer net.incoming)
      → exchange B net local
        ≡ ok (record { peer_handshake = peer; incoming = s.rest; sent = hello })
  unfolding exchange write_message as_handshake
  exchange-ok l net local peer hello w e s =
      rw (w, e, s.first, read_message-write B l (Message.handshake peer) s.hello s.rest s.encoded)
        refl

  -- Two peers whose handshakes are valid and agree do connect: an end whose network works and
  -- is in time, and that receives the peer's handshake frame first, opens the connection with the
  -- peer's handshake, has written its own handshake frame, and keeps the rest of the stream.
  pub build_connection_complete :
      IsLawful B
      → (net : Network) (local peer : Handshake) (hello : List ℕ) → IsAgreed local peer
      → net.works ≡ true
      → net.elapsed ≡ false
      → encode_frame B (Message.handshake local) ≡ ok hello
      → (s : Speaks peer net.incoming)
      → build_connection B net local
        ≡ ok (record { peer_handshake = peer; incoming = s.rest; sent = hello })
  unfolding build_connection validate_common_active_profiles
  build_connection_complete l net local peer hello a w t e s =
      rw
        (
          (validate_handshake-ok_iff local).1 a.local_valid,
          exchange-ok l net local peer hello w e s,
          t,
        )
        (rw
          (
            (validate_handshake-ok_iff peer).1 a.peer_valid,
            active_is_common-ok_of _ _ a.local_active,
            active_is_common-ok_of _ _ a.peer_active,
          )
          refl)

  -- A client ends its announcements with `streaming` exactly if it has a connection.
  pub connect-streaming :
      (net : Network) (local : Handshake)
      → (connect B net local).0 ≡ disconnected ∷ connecting ∷ handshaking ∷ streaming ∷ []
        ↔ ((c : Connection) × ((connect B net local).1 ≡ ok c))
  unfolding connect announce
  connect-streaming net local = elim (Result-cases (build_connection B net local)) [
    | inl (c, e) ↦ (λ h. (c, ground arith), λ h. ground arith)
    | inr (x, e) ↦ (λ h. absurd (ground arith), λ h. absurd (ground arith))
  ]

  pub connect-IsAgreed :
      (net : Network) (local : Handshake) (c : Connection)
      → (connect B net local).1 ≡ ok c
      → IsAgreed local c.peer_handshake
  unfolding connect announce
  connect-IsAgreed net local c h = build_connection-IsAgreed net local c (ground arith)
