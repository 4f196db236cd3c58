-- ===== src/Runs/Frames.antt =====
-- The theorems on SplitRed payloads, at a packet of one redundant frame and the main frame, and on
-- protobuf fields.
use wa_calls.Base.{ℕ, ◌-◌, ◌*◌, ◌≡◌, refl, ◌≢◌, true, false, List, [], ◌∷◌, length, drop}
use wa_calls.Codec.Red.Depack.{MlowFrame, panics, depack_split_red, read_headers, cut_frames}
use wa_calls.Codec.Red.Tiling.{frame_bytes, depack_split_red_safe, depack_split_red_tiles}

abbrev split_red : List ℕ
split_red = 131 ∷ 2 ∷ 5 ∷ 11 ∷ 12 ∷ 21 ∷ 22 ∷ []

abbrev frames : List MlowFrame
frames =
    record { body = 11 ∷ 12 ∷ []; time_code = 3; is_main = false }
    ∷ record { body = 21 ∷ 22 ∷ []; time_code = 5; is_main = true }
    ∷ []

depack_split_red_safe_example : depack_split_red split_red ≢ panics
depack_split_red_safe_example = depack_split_red_safe split_red

depack_split_red_tiles_example : frame_bytes frames ≡ drop (2 * length frames - 1) split_red
unfolding depack_split_red read_headers cut_frames
depack_split_red_tiles_example = depack_split_red_tiles split_red frames refl
