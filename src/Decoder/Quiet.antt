-- ===== src/Decoder/Quiet.antt =====
-- After a reset nothing is shown until a key frame was decoded.
use phone_cam.Prelude.{
  ℕ, zero, suc, ◌≡◌, refl, All-append, true, false, Option, none, some, List, [], ◌∷◌, arith, All,
  take, ltb, length, inl, inr, Bool-cases,
}
use phone_cam.Protocol.Profile.{VideoCodec, h264, hevc, codec_eq}
use phone_cam.Protocol.Handshake.{VideoFrame}
use phone_cam.Decoder.Backends.{Codecs}
use phone_cam.Decoder.Worker.{
  DecodeEvent, recovery_required, Worker, Happening, reset, shutdown, submits, receives, Outcome,
  is_skipped, happen, apply_reset, renew, receive, try_send, frame_queue_capacity,
}
use phone_cam.Decoder.Runs.{Runs, rest, next}

-- The event asks for a key frame, and shows nothing.
abbrev pub IsRequest : DecodeEvent → Type 0
IsRequest recovery_required = Unit {0}
IsRequest _ = ⊥

abbrev pub IsDelta : VideoFrame → Type 0
IsDelta f = f.is_keyframe ≡ false

module _ (C : Codecs) where
  -- Nothing that happens brings a key frame.
  abbrev pub IsQuiet : Happening C → Type 0
  IsQuiet (submits f) = IsDelta f
  IsQuiet _ = Unit {0}

  record IsIdle (w : Worker C) : Type 0 where
    waiting : w.waiting_for_idr ≡ true
    deltas : All IsDelta w.frames

  record StaysIdle (o : Outcome C) : Type 0 where
    idle : IsIdle o.worker
    requests : All IsRequest o.events

  reset-idle :
      (created : Option (C.H264Decoder)) (c : VideoCodec) (w : Worker C)
      → w.waiting_for_idr ≡ true
      → StaysIdle (apply_reset C created c w)
  unfolding apply_reset renew
  reset-idle none h264 w i = record { idle = record { waiting = i; deltas = tt }; requests = tt }
  reset-idle (some d) h264 w i = record {
    idle = record { waiting = refl; deltas = tt };
    requests = tt;
  }
  reset-idle created hevc w i = record {
    idle = record { waiting = refl; deltas = tt };
    requests = tt;
  }

  one-IsRequest : (room : ℕ) → All IsRequest (take room (recovery_required ∷ []))
  one-IsRequest zero = tt
  one-IsRequest (suc zero) = (tt, tt)
  one-IsRequest (suc (suc n)) = (tt, tt)

  delta-skipped :
      (f : VideoFrame) (w : Worker C)
      → w.waiting_for_idr ≡ true
      → IsDelta f
      → is_skipped C f w ≡ true
  delta-skipped f w i d = ground arith

  receive-idle :
      (created : Option (C.H264Decoder)) (room : ℕ) (fs : List VideoFrame) (w : Worker C)
      → w.waiting_for_idr ≡ true
      → All IsDelta w.frames
      → All IsDelta fs
      → StaysIdle (receive C created room fs w)
  unfolding receive
  receive-idle created room [] w i q a = record {
    idle = record { waiting = i; deltas = q };
    requests = tt;
  }
  receive-idle created room (f ∷ fs) w i q a =
      rw (delta-skipped f w i a.0)
        (record { idle = record { waiting = i; deltas = a.1 }; requests = one-IsRequest room })

  happen-idle : (h : Happening C) (w : Worker C) → IsQuiet h → IsIdle w → StaysIdle (happen C h w)
  unfolding happen try_send
  happen-idle (reset c created) w q i = reset-idle created c w i.waiting
  happen-idle shutdown w q i = record { idle = i; requests = tt }
  happen-idle (submits f) w q i = elim (Bool-cases (ltb (length w.frames) frame_queue_capacity)) [
    | inl h ↦ rw h (record {
      idle = record {
        waiting = i.waiting;
        deltas = All-append IsDelta w.frames (f ∷ []) i.deltas (q, tt);
      };
      requests = tt;
    })
    | inr h ↦ rw h (record { idle = i; requests = tt })
  ]
  happen-idle (receives created room) w q i =
      receive-idle created room w.frames w i.waiting i.deltas i.deltas

  Runs-idle :
      {w v : Worker C} {hs : List (Happening C)} {es : List DecodeEvent}
      → Runs C w hs es v
      → All IsQuiet hs
      → IsIdle w
      → All IsRequest es
  Runs-idle rest q i = tt
  Runs-idle {w = w} (next {es = es} h a r) q i =
      let s = happen-idle h w q.0 i in
      All-append IsRequest (happen C h w).events es s.requests (Runs-idle r q.1 s.idle)

  -- After a reset that worked, and for any further resets, frames and receptions, as long as no key
  -- frame is submitted, the thread sends nothing but requests for one: no picture is shown.
  pub reset-Runs-IsRequest :
      (codec : VideoCodec) (created : Option (C.H264Decoder)) (w v : Worker C)
      (hs : List (Happening C)) (es : List DecodeEvent)
      → (happen C (reset codec created) w).accepted ≡ true
      → All IsQuiet hs
      → Runs C (happen C (reset codec created) w).worker hs es v
      → All IsRequest es
  unfolding happen apply_reset renew
  reset-Runs-IsRequest h264 none w v hs es a q r = cc
  reset-Runs-IsRequest h264 (some d) w v hs es a q r =
      Runs-idle r q (record { waiting = refl; deltas = tt })
  reset-Runs-IsRequest hevc created w v hs es a q r =
      Runs-idle r q (record { waiting = refl; deltas = tt })
