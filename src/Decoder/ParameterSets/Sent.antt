-- ===== src/Decoder/ParameterSets/Sent.antt =====
-- The parameter sets of a whole stream: the HEVC backend of
-- rust/phonecam-desktop/src-tauri/src/decode.rs from when it is made, over one payload after another.
use phone_cam.Prelude.{
  ℕ, ◌≡◌, refl, Bool, true, false, ◌||◌, some, List, [], ◌∷◌, ◌++◌, arith, inl, inr, Option-cases,
  Sum-cases, Bool-cases,
}
use phone_cam.Protocol.Handshake.{VideoFrame}
use phone_cam.Video.Planes.{Nv12Frame}
use phone_cam.Decoder.Backends.{
  Codecs, done, NalKind, idr, HevcBackend, new_backend, note_nal, after_nal, decode_nals,
  is_empty_list, decode_hevc,
}
use phone_cam.Decoder.ParameterSets.{
  has_kind, is_vps, is_sps, is_pps, note_nal-Noted, HasSets, decode_nals-HasSets,
}

module _ (C : Codecs) where
  open C use {Nal, HevcDecoder}

  -- The backend after some payloads, whether they were decoded or not.
  abbrev pub after_all : List VideoFrame → HevcBackend C → HevcBackend C
  after_all [] b = b
  after_all (f ∷ fs) b = after_all fs (decode_hevc C b f).0

  -- The NAL units of some payloads.
  abbrev pub all_nals : List VideoFrame → List Nal
  all_nals [] = []
  all_nals (f ∷ fs) = C.parse_annex_b f.bytes ++ all_nals fs

  -- All three parameter sets are among some NAL units.
  pub record WereSent (ns : List Nal) : Type 0 where
    pub video : has_kind C (is_vps C) ns ≡ true
    pub sequence : has_kind C (is_sps C) ns ≡ true
    pub picture : has_kind C (is_pps C) ns ≡ true

  has_kind-append :
      (test : NalKind → Bool) (ms ns : List Nal)
      → has_kind C test (ms ++ ns) ≡ (has_kind C test ms || has_kind C test ns)
  unfolding has_kind
  has_kind-append test [] ns = refl
  has_kind-append test (m ∷ ms) ns = let ih = has_kind-append test ms ns in ground arith

  -- A flag of the backend that only a NAL unit of some type sets.
  module _ (flag : HevcBackend C → Bool) (test : NalKind → Bool)
      (noted : (k : NalKind) (b c : HevcBackend C)
        → note_nal C k b ≡ some c
        → flag c ≡ (flag b || test k))
      (kept : (b : HevcBackend C) (d : HevcDecoder)
        → flag (record b { decoder = d }) ≡ flag b) where
    decode_nals_flag :
        (pts : ℕ) (ns : List Nal) (b : HevcBackend C) (decoded : List Nv12Frame)
        → flag (decode_nals C pts ns b decoded).0 ≡ true
        → (flag b || has_kind C test ns) ≡ true
    unfolding decode_nals has_kind
    decode_nals_flag pts [] b decoded h = ground arith
    decode_nals_flag pts (n ∷ ns) b decoded h = elim (Option-cases (note_nal C (C.kind n) b)) [
      | inl e ↦ ground arith
      | inr (c, e) ↦
          let answer = C.decode_nal c.decoder n in
          let l = noted (C.kind n) b c e in
          let k = kept c (answer.0) in
          elim (Sum-cases (after_nal C pts decoded (answer.1))) [
            | inl (more, a) ↦
                let ih =
                  decode_nals_flag pts ns (record c { decoder = answer.0 }) more (ground arith) in
                ground arith
            | inr (end, a) ↦ ground arith
          ]
    ]

    decode_hevc_flag :
        (b : HevcBackend C) (f : VideoFrame)
        → flag (decode_hevc C b f).0 ≡ true
        → (flag b || has_kind C test (C.parse_annex_b f.bytes)) ≡ true
    unfolding decode_hevc
    decode_hevc_flag b f h = elim (Bool-cases (is_empty_list C (C.parse_annex_b f.bytes))) [
      | inl e ↦ ground arith
      | inr e ↦ decode_nals_flag f.pts_us (C.parse_annex_b f.bytes) b [] (ground arith)
    ]

    after_all_flag :
        (fs : List VideoFrame) (b : HevcBackend C)
        → flag (after_all fs b) ≡ true
        → (flag b || has_kind C test (all_nals fs)) ≡ true
    after_all_flag [] b h = ground arith
    after_all_flag (f ∷ fs) b h =
        let ih = after_all_flag fs (decode_hevc C b f).0 h in
        let l = has_kind-append test (C.parse_annex_b f.bytes) (all_nals fs) in
        elim (Bool-cases (flag (decode_hevc C b f).0)) [
          | inl e ↦ let m = decode_hevc_flag b f e in ground arith
          | inr e ↦ ground arith
        ]

    -- What was seen by a backend that began with the flag down was sent.
    sent :
        (fs : List VideoFrame) (b : HevcBackend C) (ns : List Nal)
        → flag b ≡ false
        → (flag (after_all fs b) || has_kind C test ns) ≡ true
        → has_kind C test (all_nals fs ++ ns) ≡ true
    sent fs b ns e h =
        let l = has_kind-append test (all_nals fs) ns in
        elim (Bool-cases (flag (after_all fs b))) [
          | inl s ↦ let m = after_all_flag fs b s in ground arith
          | inr s ↦ ground arith
        ]

  -- If a payload is decoded by a backend that has taken some payloads since it was made, decoded or
  -- not, then before each IDR unit of it all three parameter sets were sent: in this payload, or in
  -- one of those before.
  pub decode_hevc-WereSent :
      (fs : List VideoFrame) (f : VideoFrame) (before : List Nal) (n : Nal) (after : List Nal)
      (pictures : List Nv12Frame)
      → (decode_hevc C (after_all fs (new_backend C)) f).1 ≡ done pictures
      → C.parse_annex_b f.bytes ≡ before ++ n ∷ after
      → C.kind n ≡ idr
      → WereSent (all_nals fs ++ before)
  unfolding decode_hevc
  decode_hevc-WereSent fs f before n after pictures h e k =
      let b = after_all fs (new_backend C) in
      let s : HasSets C b before =
        decode_nals-HasSets C f.pts_us before n after b [] pictures (ground arith) k in
      record {
        video =
            sent (λ c. c.saw_vps) (is_vps C) (λ k b c l. (note_nal-Noted C k b c l).video_lem)
              (λ b d. refl) fs (new_backend C) before refl s.video;
        sequence =
            sent (λ c. c.saw_sps) (is_sps C) (λ k b c l. (note_nal-Noted C k b c l).sequence_lem)
              (λ b d. refl) fs (new_backend C) before refl s.sequence;
        picture =
            sent (λ c. c.saw_pps) (is_pps C) (λ k b c l. (note_nal-Noted C k b c l).picture_lem)
              (λ b d. refl) fs (new_backend C) before refl s.picture;
      }
