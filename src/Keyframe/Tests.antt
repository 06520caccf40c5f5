-- ===== src/Keyframe/Tests.antt =====
-- Payloads of internal/relay/keyframe.go, and its theorems at concrete ones.
use waga_strim.Base.{◌≡◌, refl, Bool, true, false, some, List, [], ◌∷◌, arith}
use waga_strim.Keyframe.{
  h264, h265, av1, unknown, Payload, walk, h264_resumes, h265_resumes, h264_keyframe, h265_keyframe,
  is_keyframe,
}
use waga_strim.Keyframe.Walk.{packed, any_resumes, walk_ends, aggregation_is_keyframe}

-- A slice that is no picture to resume at, and an IDR picture.
abbrev slices : List Payload
slices = (65 ∷ 1 ∷ []) ∷ (101 ∷ 2 ∷ 3 ∷ []) ∷ []

-- A supplemental unit, and an IRAP picture.
abbrev wide_slices : List Payload
wide_slices = (78 ∷ 1 ∷ []) ∷ (38 ∷ 1 ∷ 7 ∷ []) ∷ []

aggregated : is_keyframe h264 (24 ∷ packed slices) ≡ true
unfolding is_keyframe h264_keyframe walk
aggregated = refl

-- The last unit is cut short.
cut_short : is_keyframe h264 (24 ∷ 0 ∷ 3 ∷ 101 ∷ 2 ∷ []) ≡ false
unfolding is_keyframe h264_keyframe walk
cut_short = refl

-- The second fragment of an IDR picture, and its first.
fragments : (is_keyframe h264 (124 ∷ 5 ∷ []) ≡ false) × (is_keyframe h264 (124 ∷ 133 ∷ []) ≡ true)
unfolding is_keyframe h264_keyframe
fragments = (refl, refl)

wide_fragment : is_keyframe h265 (98 ∷ 1 ∷ 147 ∷ []) ≡ true
unfolding is_keyframe h265_keyframe
wide_fragment = refl

first_of_sequence : is_keyframe av1 (8 ∷ []) ≡ true
unfolding is_keyframe
first_of_sequence = refl

empty_payload : is_keyframe unknown [] ≡ false
unfolding is_keyframe
empty_payload = refl

walk_ends_example : (b : Bool) × (walk 1 h264_resumes 10 (24 ∷ packed slices) 1 ≡ some b)
walk_ends_example = walk_ends 1 h264_resumes 10 (24 ∷ packed slices) 1 (omega arith) (omega arith)

aggregation_is_keyframe_example :
    (is_keyframe h264 (24 ∷ packed slices) ≡ any_resumes h264_resumes slices)
    × (is_keyframe h265 (96 ∷ 1 ∷ packed wide_slices) ≡ any_resumes h265_resumes wide_slices)
aggregation_is_keyframe_example =
    aggregation_is_keyframe 24 96 1 slices wide_slices refl refl
      (omega arith, omega arith, (omega arith, omega arith, tt))
      (omega arith, omega arith, (omega arith, omega arith, tt))
