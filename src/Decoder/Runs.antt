-- ===== src/Decoder/Runs.antt =====
-- Histories of the decoder thread.
use phone_cam.Prelude.{true, List, [], ◌∷◌, ◌++◌, ◌≡◌}
use phone_cam.Decoder.Backends.{Codecs}
use phone_cam.Decoder.Worker.{DecodeEvent, Worker, Happening, happen}

-- Happenings one after another while the thread lives, with the events it sent.
pub data Runs (C : Codecs)
    : Worker C → List (Happening C) → List DecodeEvent → Worker C → Type 0 where
  rest : {w : Worker C} → Runs C w [] [] w
  next :
      {w v : Worker C} {hs : List (Happening C)} {es : List DecodeEvent} (h : Happening C)
      → (happen C h w).alive ≡ true
      → Runs C (happen C h w).worker hs es v
      → Runs C w (h ∷ hs) ((happen C h w).events ++ es) v
