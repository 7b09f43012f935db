-- ===== src/Decoder/ParameterSets.antt =====
-- The HEVC backend and the parameter sets of a stream.
pub mod Sent
use phone_cam.Prelude.{
  ℕ, ◌≡◌, Bool, true, false, ◌||◌, Option, some, List, [], ◌∷◌, ◌++◌, arith, ap, ◌∙◌, inl, inr,
  Result-cases, Option-cases, Sum-cases,
}
use phone_cam.Video.Planes.{Nv12Frame}
use phone_cam.Decoder.Backends.{
  Codecs, Answer, gives, fails, panics, HevcPicture, push_picture, done, NalKind, vps, sps, pps,
  idr, other, HevcBackend, note_nal, after_nal, decode_nals,
}

module _ (C : Codecs) where
  open C use {Nal}

  -- A NAL unit of a type is among some.
  unfoldable pub has_kind : (NalKind → Bool) → List Nal → Bool
  has_kind test [] = false
  has_kind test (n ∷ ns) = test (C.kind n) || has_kind test ns

  abbrev pub is_vps : NalKind → Bool
  is_vps vps = true
  is_vps _ = false

  abbrev pub is_sps : NalKind → Bool
  is_sps sps = true
  is_sps _ = false

  abbrev pub is_pps : NalKind → Bool
  is_pps pps = true
  is_pps _ = false

  -- All three parameter sets came, to the backend before or among some NAL units.
  pub record HasSets (b : HevcBackend C) (ns : List Nal) : Type 0 where
    pub video : (b.saw_vps || has_kind is_vps ns) ≡ true
    pub sequence : (b.saw_sps || has_kind is_sps ns) ≡ true
    pub picture : (b.saw_pps || has_kind is_pps ns) ≡ true

  -- One NAL unit: what was seen after it, and that the loop went on.
  pub record Noted (k : NalKind) (b c : HevcBackend C) : Type 0 where
    pub video_lem : c.saw_vps ≡ (b.saw_vps || is_vps k)
    pub sequence_lem : c.saw_sps ≡ (b.saw_sps || is_sps k)
    pub picture_lem : c.saw_pps ≡ (b.saw_pps || is_pps k)

  pub note_nal-Noted : (k : NalKind) (b c : HevcBackend C) → note_nal C k b ≡ some c → Noted k b c
  unfolding note_nal
  note_nal-Noted vps b c h = record {
    video_lem = ground arith;
    sequence_lem = ground arith;
    picture_lem = ground arith;
  }
  note_nal-Noted sps b c h = record {
    video_lem = ground arith;
    sequence_lem = ground arith;
    picture_lem = ground arith;
  }
  note_nal-Noted pps b c h = record {
    video_lem = ground arith;
    sequence_lem = ground arith;
    picture_lem = ground arith;
  }
  note_nal-Noted idr b c h = record {
    video_lem = ground arith;
    sequence_lem = ground arith;
    picture_lem = ground arith;
  }
  note_nal-Noted other b c h = record {
    video_lem = ground arith;
    sequence_lem = ground arith;
    picture_lem = ground arith;
  }

  idr-seen : (k : NalKind) (b c : HevcBackend C) → k ≡ idr → note_nal C k b ≡ some c → HasSets b []
  unfolding note_nal has_kind
  idr-seen idr b c e h = record {
    video = ground arith;
    sequence = ground arith;
    picture = ground arith;
  }
  idr-seen vps b c e h = cc
  idr-seen sps b c e h = cc
  idr-seen pps b c e h = cc
  idr-seen other b c e h = cc

  -- Where the loop ends with pictures, it noted the first unit and went on with the others.
  record Went (pts : ℕ) (n : Nal) (ns : List Nal) (b : HevcBackend C) (pictures : List Nv12Frame)
      : Type 0 where
    noted : HevcBackend C
    noted_lem : note_nal C (C.kind n) b ≡ some noted
    decoder : C.HevcDecoder
    more : List Nv12Frame
    later : (decode_nals C pts ns (record noted { decoder = decoder }) more).1 ≡ done pictures

  -- A loop that ends at a NAL unit ends without pictures.
  after_nal-end :
      (pts : ℕ) (decoded pictures : List Nv12Frame) (a : Answer (Option HevcPicture))
      → after_nal C pts decoded a ≡ inr (done pictures)
      → ⊥
  unfolding after_nal
  after_nal-end pts decoded pictures (gives p) h =
      elim (Result-cases (push_picture C pts decoded p)) [
        | inl (more, k) ↦ ground arith
        | inr (e, k) ↦ ground arith
      ]
  after_nal-end pts decoded pictures fails h = cc
  after_nal-end pts decoded pictures panics h = cc

  went :
      (pts : ℕ) (n : Nal) (ns : List Nal) (b : HevcBackend C) (decoded pictures : List Nv12Frame)
      → (decode_nals C pts (n ∷ ns) b decoded).1 ≡ done pictures
      → Went pts n ns b pictures
  unfolding decode_nals
  went pts n ns b decoded pictures h = elim (Option-cases (note_nal C (C.kind n) b)) [
    | inl e ↦ absurd (ground arith)
    | inr (c, e) ↦
        let answer = C.decode_nal c.decoder n in
        elim (Sum-cases (after_nal C pts decoded (answer.1))) [
          | inl (more, k) ↦ record {
            noted = c;
            noted_lem = e;
            decoder = answer.0;
            more = more;
            later = ground arith;
          }
          | inr (end, k) ↦
              let d : end ≡ done pictures = ground arith in
              absurd (after_nal-end pts decoded pictures (answer.1) (k ∙ ap inr d))
        ]
  ]

  moved :
      (n : Nal) (ns : List Nal) (b c : HevcBackend C)
      → Noted (C.kind n) b c
      → HasSets c ns
      → HasSets b (n ∷ ns)
  unfolding has_kind
  moved n ns b c k s = record {
    video = let p = k.video_lem in let q = s.video in ground arith;
    sequence = let p = k.sequence_lem in let q = s.sequence in ground arith;
    picture = let p = k.picture_lem in let q = s.picture in ground arith;
  }

  -- If a payload is decoded, then before each IDR unit of it the backend had noted all three
  -- parameter sets: in this payload, or by its flags before.
  pub decode_nals-HasSets :
      (pts : ℕ) (before : List Nal) (n : Nal) (after : List Nal) (b : HevcBackend C)
      (decoded pictures : List Nv12Frame)
      → (decode_nals C pts (before ++ n ∷ after) b decoded).1 ≡ done pictures
      → C.kind n ≡ idr
      → HasSets b before
  decode_nals-HasSets pts [] n after b decoded pictures h e =
      let w = went pts n after b decoded pictures h in idr-seen (C.kind n) b w.noted e w.noted_lem
  decode_nals-HasSets pts (m ∷ before) n after b decoded pictures h e =
      let w = went pts m (before ++ n ∷ after) b decoded pictures h in
      let s =
        decode_nals-HasSets pts before n after (record w.noted { decoder = w.decoder }) w.more
          pictures w.later e in
      moved m before b w.noted (note_nal-Noted (C.kind m) b w.noted w.noted_lem)
        (record { video = s.video; sequence = s.sequence; picture = s.picture })
