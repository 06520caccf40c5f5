-- ===== src/Keyframe.antt =====
-- `isKeyframe` of internal/relay/keyframe.go: where playback can resume. A payload is a list of bytes, and
-- the masks and shifts are written as divisions: `b & 0x1F` is `b % 32`. The walks recur on fuel, and each
-- pass moves on by two bytes at least, so the length of the payload is enough from offset 1.
pub mod Walk
mod Tests
use waga_strim.Base.{
  ℕ, zero, suc, ◌+◌, ◌*◌, ◌/◌, ◌%◌, Bool, true, false, not, ◌&&◌, ◌||◌, Option, none, some, List,
  [], ◌∷◌, ltb, leb, ◌==◌, if◌then◌else◌, length, get_or,
}

-- What `strings.EqualFold` says of the track's type.
pub data Mime : Type 0 where
  h264 h265 av1 unknown : Mime

abbrev pub Payload : Type 0
Payload = List ℕ

abbrev pub byte : Payload → ℕ → ℕ
byte payload i = get_or payload i 0

-- `b & 0x80 != 0`, and the same of another bit.
abbrev pub has_bit : ℕ → ℕ → Bool
has_bit bit b = (b / bit) % 2 == 1

abbrev pub h264_type : ℕ → ℕ
h264_type b = b % 32

abbrev pub h265_type : ℕ → ℕ
h265_type b = (b / 2) % 64

-- A picture to resume at, or the parameters of one.
abbrev pub h264_resumes : ℕ → Bool
h264_resumes b = h264_type b == 5 || h264_type b == 7

abbrev pub h265_resumes : ℕ → Bool
h265_resumes b = let nal = h265_type b in (leb 16 nal && leb nal 23) || (leb 32 nal && leb nal 34)

-- The loop of `stapaHasKeyframe` and of `h265AggregationHasKeyframe`, which differ in the least size of a
-- unit and in the test of its first byte: its result, or `none` where the fuel runs out.
unfoldable pub walk : ℕ → (ℕ → Bool) → ℕ → Payload → ℕ → Option Bool
walk least resumes zero payload offset = none
walk least resumes (suc fuel) payload offset =
    let size = byte payload offset * 256 + byte payload (offset + 1) in
    let start = offset + 2 in
    let rest = walk least resumes fuel payload (start + size) in
    if not (leb start (length payload))
    then some false
    else if ltb size least || ltb (length payload) (start + size)
    then some false
    else if resumes (byte payload start)
    then some true
    else rest

-- The result of a walk, which has enough fuel.
abbrev pub found : Option Bool → Bool
found none = false
found (some b) = b

-- `stapaHasKeyframe`
abbrev pub stapa_has_keyframe : Payload → Bool
stapa_has_keyframe payload = found (walk 1 h264_resumes (length payload) payload 1)

-- `h265AggregationHasKeyframe`
abbrev pub h265_aggregation_has_keyframe : Payload → Bool
h265_aggregation_has_keyframe payload = found (walk 2 h265_resumes (length payload) payload 2)

-- `fuaStartsKeyframe`
abbrev pub fua_starts_keyframe : Payload → Bool
fua_starts_keyframe payload =
    if ltb (length payload) 2
    then false
    else if not (has_bit 128 (byte payload 1))
    then false
    else h264_type (byte payload 1) == 5

-- `h265FragmentStartsKeyframe`
abbrev pub h265_fragment_starts_keyframe : Payload → Bool
h265_fragment_starts_keyframe payload =
    let nal = byte payload 2 % 64 in
    if ltb (length payload) 3 || not (has_bit 128 (byte payload 2))
    then false
    else leb 16 nal && leb nal 23

-- `h264Keyframe`
unfoldable pub h264_keyframe : Payload → Bool
h264_keyframe payload =
    let nal = h264_type (byte payload 0) in
    if nal == 5 || nal == 7
    then true
    else if nal == 24
    then stapa_has_keyframe payload
    else if nal == 28
    then fua_starts_keyframe payload
    else false

-- `h265Keyframe`
unfoldable pub h265_keyframe : Payload → Bool
h265_keyframe payload =
    let nal = h265_type (byte payload 0) in
    if leb 16 nal && leb nal 23
    then true
    else if leb 32 nal && leb nal 34
    then true
    else if nal == 48
    then h265_aggregation_has_keyframe payload
    else if nal == 49
    then h265_fragment_starts_keyframe payload
    else false

-- `isKeyframe`
unfoldable pub is_keyframe : Mime → Payload → Bool
is_keyframe mime [] = false
is_keyframe h264 (b ∷ payload) = h264_keyframe (b ∷ payload)
is_keyframe h265 (b ∷ payload) = h265_keyframe (b ∷ payload)
is_keyframe av1 (b ∷ payload) = has_bit 8 b
is_keyframe unknown (b ∷ payload) = true
