-- ===== src/Keyframe/Walk.antt =====
-- The walk over the units of an aggregation packet, of internal/relay/keyframe.go.
use mathlib.Core.List.{append_assoc}
use waga_strim.Base.{
  ℕ, zero, suc, ◌+◌, ◌*◌, ◌/◌, ◌%◌, ◌≤◌, ◌<◌, ◌≡◌, refl, sym, ap, ◌∙◌, Bool, true, false, ◌||◌,
  some, Bool-cases, inl, inr, List, [], ◌∷◌, ◌++◌, arith, ltb, leb, if◌then◌else◌, length,
  length-append, get_or-after,
}
use waga_strim.Keyframe.{
  h264, h265, Payload, byte, h264_type, h265_type, h264_resumes, h265_resumes, walk, found,
  h264_keyframe, h265_keyframe, is_keyframe,
}

module _ (least : ℕ) (resumes : ℕ → Bool) where
  past_end :
      (fuel : ℕ) (payload : Payload) (offset : ℕ)
      → 0 < fuel
      → length payload ≤ offset
      → walk least resumes fuel payload offset ≡ some false
  unfolding walk
  past_end zero payload offset f h = absurd (omega arith)
  past_end (suc fuel) payload offset f h =
      let over : leb (offset + 2) (length payload) ≡ false = ground arith in simp over refl

  -- The walk ends: with as much fuel as there are bytes left after the offset, and one more, it has a
  -- result, of any payload and from any offset (one pass from beyond the end), so the loop of the source ends within as many passes. From
  -- offset 1, or 2, the length of the payload is enough.
  pub walk_ends :
      (fuel : ℕ) (payload : Payload) (offset : ℕ)
      → 0 < fuel
      → length payload < fuel + offset
      → (b : Bool) × (walk least resumes fuel payload offset ≡ some b)
  unfolding walk
  walk_ends zero payload offset k h = absurd (omega arith)
  walk_ends (suc fuel) payload offset k h =
      let size = byte payload offset * 256 + byte payload (offset + 1) in
      let start = offset + 2 in
      elim (Bool-cases (leb start (length payload))) [
        | inr e ↦ simp e (false, refl)
        | inl e ↦ elim (Bool-cases (ltb size least || ltb (length payload) (start + size))) [
          | inl f ↦ simp (e, f) (false, refl)
          | inr f ↦ elim (Bool-cases (resumes (byte payload start))) [
            | inl g ↦ simp (e, f, g) (true, refl)
            | inr g ↦
                let within : start ≤ length payload = ground arith in
                simp (e, f, g) (walk_ends fuel payload (start + size) (omega arith) (omega arith))
          ]
        ]
      ]

-- The units, each after its size, as a sender packs them.
abbrev pub packed : List Payload → Payload
packed [] = []
packed (u ∷ us) = length u / 256 ∷ length u % 256 ∷ (u ++ packed us)

abbrev pub AreUnits : ℕ → List Payload → Type 0
AreUnits least [] = Unit {0}
AreUnits least (u ∷ us) = (least ≤ length u) × (length u < 65536) × AreUnits least us

abbrev pub any_resumes : (ℕ → Bool) → List Payload → Bool
any_resumes resumes [] = false
any_resumes resumes (u ∷ us) =
    let rest = any_resumes resumes us in if resumes (byte u 0) then true else rest

first_byte : (u rest : Payload) → 1 ≤ length u → byte (u ++ rest) 0 ≡ byte u 0
first_byte [] rest h = absurd (omega arith)
first_byte (b ∷ u) rest h = refl

module _ (least : ℕ) (resumes : ℕ → Bool) (some_bytes : 1 ≤ least) where
  walk-packed :
      (fuel : ℕ) (before : Payload) (units : List Payload) (offset : ℕ)
      → offset ≡ length before
      → length (packed units) < fuel
      → AreUnits least units
      → walk least resumes fuel (before ++ packed units) offset ≡ some (any_resumes resumes units)
  unfolding walk
  walk-packed fuel before [] offset at enough h =
      past_end least resumes fuel (before ++ []) offset (omega arith)
        (omega (arith, length-append before []))
  walk-packed zero before (u ∷ us) offset at enough h = absurd (omega arith)
  walk-packed (suc fuel) before (u ∷ us) offset at enough (low, high, h) =
      let all = before ++ packed (u ∷ us) in
      let unit : Payload = length u / 256 ∷ length u % 256 ∷ u in
      let b0 = get_or-after before (packed (u ∷ us)) 0 offset 0 (omega arith) in
      let b1 = get_or-after before (packed (u ∷ us)) 0 (offset + 1) 1 (omega arith) in
      let b2 =
        get_or-after before (packed (u ∷ us)) 0 (offset + 2) 2 (omega arith)
        ∙ first_byte u (packed us) (omega arith) in
      let count = length-append before (packed (u ∷ us)) in
      let tail = length-append u (packed us) in
      let size : byte all offset * 256 + byte all (offset + 1) ≡ length u = omega arith in
      let fits : leb (offset + 2) (length all) ≡ true = ground arith in
      let whole : (ltb (length u) least || ltb (length all) (offset + 2 + length u)) ≡ false =
        ground arith in
      let shifted : (before ++ unit) ++ packed us ≡ all = append_assoc before unit (packed us) in
      let rest : walk least resumes fuel all (offset + 2 + length u)
          ≡ some (any_resumes resumes us) =
        ap (λ p. walk least resumes fuel p (offset + 2 + length u)) (sym shifted)
        ∙ walk-packed fuel (before ++ unit) us (offset + 2 + length u)
            (omega (arith, length-append before unit)) (omega arith) h in
      elim (Bool-cases (resumes (byte u 0))) [
        | inl e ↦ simp (size, fits, whole, b2, rest, e) refl
        | inr e ↦ simp (size, fits, whole, b2, rest, e) refl
      ]

-- An aggregation packet of H.264 of units of one byte at least, and one of H.265 of units of two bytes at
-- least, is taken for a keyframe exactly when one of its units is one: for H.264 an IDR picture or a
-- sequence parameter set, for H.265 an IRAP picture or a parameter set. The units are shorter than 65536
-- bytes, and the packets begin with the header of an aggregation packet.
pub aggregation_is_keyframe :
    (first second third : ℕ) (units wide : List Payload)
    → h264_type first ≡ 24
    → h265_type second ≡ 48
    → AreUnits 1 units
    → AreUnits 2 wide
    → (is_keyframe h264 (first ∷ packed units) ≡ any_resumes h264_resumes units)
      × (is_keyframe h265 (second ∷ third ∷ packed wide) ≡ any_resumes h265_resumes wide)
unfolding is_keyframe h264_keyframe h265_keyframe
aggregation_is_keyframe first second third units wide f s h k =
    let narrow =
      walk-packed 1 h264_resumes (omega arith) (length (first ∷ packed units)) (first ∷ []) units 1
        refl (omega arith) h in
    let broad =
      walk-packed 2 h265_resumes (omega arith) (length (second ∷ third ∷ packed wide))
        (second ∷ third ∷ []) wide 2 refl (omega arith) k in
    (simp f (ap found narrow), simp s (ap found broad))
