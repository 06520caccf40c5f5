-- ===== src/Recovery/Gaps/Track.antt =====
-- `trackGapLocked` of internal/ingest/recovery.go, on each sequence number.
use waga_strim.Base.{
  ℕ, zero, suc, ◌+◌, ◌-◌, ◌%◌, ◌≤◌, ◌<◌, max, ◌≡◌, refl, sym, ap, ap₂, ◌∙◌, ◌⊎◌, ◌↔◌, ◌≢◌, subst,
  inl, inr, Bool, true, false, Option, [], ◌∷◌, arith, ◌==◌, not, ◌&&◌, ◌||◌, ltb, leb,
  if◌then◌else◌, Bool-cases, ==_iff,
}
use waga_strim.Base.Int.{ℤ}
use waga_strim.Base.Maps.{Table, has, has-put}
use waga_strim.Recovery.{Bytes, PacketId, Stream, history_size, packet_key, number_key}
use waga_strim.Recovery.Gaps.{
  sub_uint16, numbered, forget_old, ask_one, ask_gap, close_gap, track_gap,
}

abbrev pub Missing : Type 0
Missing = Table ℕ (Option ℤ)

present : (n m : ℕ) (t : Missing) → n ≡ m → has m t ≡ true → has n t ≡ true
present n m t e h = subst (λ k. has k t ≡ true) (sym e) h

-- Whether `n` is among the `left` numbers from `highest + offset` on.
abbrev pub within : ℕ → ℕ → ℕ → ℕ → Bool
within highest zero offset n = false
within highest (suc left) offset n =
    let rest = within highest left (offset + 1) n in
    if n == (highest + offset) % 65536 then true else rest

module _ (packets : Table PacketId Bytes) (id : PacketId) where
  -- The history has the packet of this number.
  abbrev pub held : ℕ → Bool
  held n = has (numbered id n) packets

  has-ask_one :
      (n m : ℕ) (t : Missing)
      → has n (ask_one packets id m t) ≡ (has n t || ((n == m) && not (held m)))
  unfolding ask_one number_key
  has-ask_one n m t = elim (Bool-cases (held m)) [
    | inl y ↦ simp y (ground arith)
    | inr y ↦ elim (Bool-cases (has m t)) [
      | inl z ↦
          simp (y, z) (ground (arith, λ (e : (n == m) ≡ true). present n m t ((==_iff n m).0 e) z))
      | inr z ↦ simp (y, z, has-put) (ground arith)
    ]
  ]

  -- The loop adds the numbers of the gap that the history lacks, and no others.
  has-ask_gap :
      (highest left offset n : ℕ) (t : Missing)
      → has n (ask_gap packets id highest left offset t)
        ≡ (has n t || (within highest left offset n && not (held n)))
  unfolding ask_gap
  has-ask_gap highest zero offset n t = ground arith
  has-ask_gap highest (suc left) offset n t =
      let m = (highest + offset) % 65536 in
      let rest = has-ask_gap highest left (offset + 1) n (ask_one packets id m t) in
      let step = has-ask_one n m t in
      elim (Bool-cases (n == m)) [
        | inl e ↦
            let same : held m ≡ held n = ap held (sym ((==_iff n m).0 e)) in
            rest
            ∙ ap (λ b. b || (within highest left (offset + 1) n && not (held n))) step
            ∙ simp (e, same) (ground arith)
        | inr e ↦
            rest
            ∙ ap (λ b. b || (within highest left (offset + 1) n && not (held n))) step
            ∙ simp e (ground arith)
      ]

shifted_range :
    (j offset left : ℕ)
    → j ≢ offset
    → (leb (offset + 1) j && ltb j (offset + 1 + left))
      ≡ (leb offset j && ltb j (offset + suc left))
shifted_range j offset left h = ground arith

within-sub :
    (highest left offset n : ℕ)
    → highest < 65536
    → n < 65536
    → offset + left ≤ 65536
    → within highest left offset n
      ≡ (leb offset (sub_uint16 n highest) && ltb (sub_uint16 n highest) (offset + left))
within-sub highest zero offset n h k l = ground arith
within-sub highest (suc left) offset n h k l =
    let rest = within-sub highest left (offset + 1) n h k (omega arith) in
    let fact : (n ≡ (highest + offset) % 65536) ↔ (sub_uint16 n highest ≡ offset) =
      (λ e. omega arith, λ e. omega arith) in
    elim (Bool-cases (n == (highest + offset) % 65536)) [
      | inl e ↦
          let same = fact.0 ((==_iff n ((highest + offset) % 65536)).0 e) in
          simp (e, same) (ground arith)
      | inr e ↦
          let other : sub_uint16 n highest ≢ offset =
            λ same. absurd (ground (arith, fact.1 same)) in
          simp e (rest ∙ shifted_range (sub_uint16 n highest) offset left other)
    ]

has-forget_old :
    (sequence_number n : ℕ) (t : Missing)
    → has n (forget_old sequence_number t)
      ≡ (has n t && ltb (sub_uint16 sequence_number n) history_size)
unfolding forget_old number_key
has-forget_old sequence_number n [] = refl
has-forget_old sequence_number n ((m, at) ∷ t) =
    let rest = has-forget_old sequence_number n t in
    elim (Bool-cases (leb history_size (sub_uint16 sequence_number m))) [
      | inl old ↦ elim (Bool-cases (n == m)) [
        | inl e ↦
            let same : n ≡ m = (==_iff n m).0 e in
            simp (old, rest, e) (ground (arith, ap (sub_uint16 sequence_number) same))
        | inr e ↦ simp (old, rest, e) refl
      ]
      | inr new ↦ elim (Bool-cases (n == m)) [
        | inl e ↦
            let same : n ≡ m = (==_iff n m).0 e in
            simp (new, rest, e) (ground (arith, ap (sub_uint16 sequence_number) same))
        | inr e ↦ simp (new, rest, e) refl
      ]
    ]

has-fresh :
    (sequence_number delta n : ℕ) (t : Missing)
    → has n (if ltb 1 delta then forget_old sequence_number t else t)
      ≡ (has n t && (leb delta 1 || ltb (sub_uint16 sequence_number n) history_size))
has-fresh sequence_number delta n t = elim (Bool-cases (ltb 1 delta)) [
  | inl e ↦
      let some_more : leb delta 1 ≡ false = ground arith in
      simp (e, some_more) (has-forget_old sequence_number n t)
  | inr e ↦ let next : leb delta 1 ≡ true = ground arith in simp (e, next) (ground arith)
]

-- The distances of a number from the two ends of the gap.
distances :
    (highest last n : ℕ)
    → highest < 65536
    → last < 65536
    → n < 65536
    → let j = sub_uint16 n highest in
      let delta = sub_uint16 last highest in
      (sub_uint16 last n + j ≡ delta) ⊎ ((delta < j) × (sub_uint16 last n + j ≡ 65536 + delta))
distances highest last n h k l = omega arith

in_range :
    (j delta behind : ℕ)
    → j < 65536
    → delta < 65536
    → 0 < delta
    → (behind + j ≡ delta) ⊎ ((delta < j) × (behind + j ≡ 65536 + delta))
    → let start = max 1 (delta + 1 - history_size) in
      (leb start j && ltb j (start + (delta - start)))
      ≡ (ltb 0 behind && (ltb behind delta && ltb behind history_size))
in_range j delta behind h k l d = ground arith

gap_range :
    (highest last n : ℕ)
    → highest < 65536
    → last < 65536
    → n < 65536
    → let j = sub_uint16 n highest in
      let delta = sub_uint16 last highest in
      let behind = sub_uint16 last n in
      let start = max 1 (delta + 1 - history_size) in
      0 < delta
      → (leb start j && ltb j (start + (delta - start)))
        ≡ (ltb 0 behind && (ltb behind delta && ltb behind history_size))
gap_range highest last n h k l p =
    in_range (sub_uint16 n highest) (sub_uint16 last highest) (sub_uint16 last n) (omega arith)
      (omega arith) p (distances highest last n h k l)

track-close :
    (packets : Table PacketId Bytes) (id : PacketId) (stream : Stream)
    → stream.based ≡ true
    → let delta = sub_uint16 id.sequence_number stream.highest in
      0 < delta → delta < 32768 → track_gap packets id stream ≡ close_gap packets id stream delta
unfolding track_gap
track-close packets id stream based some_gap near =
    let delta = sub_uint16 id.sequence_number stream.highest in
    let test : ((delta == 0) || leb 0x8000 delta) ≡ false = ground arith in simp (based, test) refl

-- A packet that comes `delta` numbers after the highest, less than half the range, leaves these
-- numbers missing: of those that were, the ones less than 4096 behind it, or all of them where it is
-- the next; and the numbers of the gap, less than 4096 behind it, whose packets the history does not
-- have. It is the new highest.
pub gap_is_asked :
    (packets : Table PacketId Bytes) (id : PacketId) (stream : Stream) (n : ℕ)
    → stream.based ≡ true
    → stream.highest < 65536
    → id.sequence_number < 65536
    → n < 65536
    → let delta = sub_uint16 id.sequence_number stream.highest in
      let behind = sub_uint16 id.sequence_number n in
      0 < delta
      → delta < 32768
      → let after = track_gap packets id stream in
        (after.highest ≡ id.sequence_number)
        × (has n after.missing ≡ (
            (has n stream.missing && (leb delta 1 || ltb behind history_size))
            || ((ltb 0 behind && (ltb behind delta && ltb behind history_size))
                && not (held packets id n))))
gap_is_asked packets id stream n based high number small some_gap near =
    let delta = sub_uint16 id.sequence_number stream.highest in
    let start = max 1 (delta + 1 - history_size) in
    let fresh =
      if ltb 1 delta then forget_old id.sequence_number stream.missing else stream.missing in
    rw (track-close packets id stream based some_gap near) (
      unfold close_gap in
      (
        refl,
        has-ask_gap packets id stream.highest (delta - start) start n fresh
            ∙ ap₂ (λ a b. a || (b && not (held packets id n)))
                (has-fresh id.sequence_number delta n stream.missing)
                (within-sub stream.highest (delta - start) start n high small (omega arith)
                  ∙ gap_range stream.highest id.sequence_number n high number small some_gap),
      ))
