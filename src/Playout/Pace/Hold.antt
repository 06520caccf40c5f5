-- ===== src/Playout/Pace/Hold.antt =====
-- How long, and how far apart, the pacing of internal/relay/delay.go holds packets.
use waga_strim.Base.{ℕ, ◌≡◌, refl, inl, inr, ◌⊎◌, ◌&&◌, ltb, arith, Bool-cases}
use waga_strim.Base.Int.{
  ℤ, pos, ◌+ℤ◌, ◌-ℤ◌, ◌*ℤ◌, quot, ltb_ℤ, leb_ℤ, eqb_ℤ, ◌≤ℤ◌, ◌<ℤ◌, int_laws, quot_floor,
}
use waga_strim.Playout.Heap.{Heap, get}
use waga_strim.Playout.Pace.{
  Pace, max_pace_lag, late_allowance, sharing, learned, spacing, start_group, hold_in, pace_hold,
  charge_pace,
}

-- The cadence is less than a second, and the spacing is not negative.
pub record IsPaced (p : Pace) : Type 0 where
  pub cadence : pos 0 ≤ℤ p.frame_gap
  pub brief : p.frame_gap <ℤ pos 1_000_000_000
  pub spaced : pos 0 ≤ℤ p.group_gap

allowance_range :
    (p : Pace) → IsPaced p → (pos 0 <ℤ late_allowance p) × (late_allowance p ≤ℤ max_pace_lag)
unfolding late_allowance
allowance_range p v = elim (Bool-cases (leb_ℤ p.frame_gap (pos 0))) [
  | inl e ↦ simp e (omega arith, omega arith)
  | inr e ↦
      let some_gap : pos 0 <ℤ p.frame_gap = ground arith in simp e (omega int_laws, omega int_laws)
]

learned-range :
    (p : Pace) (play_at : ℤ)
    → IsPaced p
    → (pos 0 ≤ℤ learned p play_at) × (learned p play_at <ℤ pos 1_000_000_000)
unfolding learned
learned-range p play_at v =
    let gap = play_at -ℤ p.group in
    elim (Bool-cases (eqb_ℤ p.group (pos 0))) [
      | inl e ↦ simp e (v.cadence, v.brief)
      | inr e ↦ elim (Bool-cases (ltb_ℤ (pos 0) gap && ltb_ℤ gap (pos 1_000_000_000))) [
        | inl near ↦
            let low : pos 0 <ℤ gap = ground arith in
            let high : gap <ℤ pos 1_000_000_000 = ground arith in
            elim (Bool-cases (eqb_ℤ p.frame_gap (pos 0))) [
              | inl first ↦ simp (e, near, first) (omega arith, high)
              | inr more ↦
                  let sum = (pos 3 *ℤ p.frame_gap) +ℤ gap in
                  let floor = quot_floor sum (pos 4) (omega (int_laws, v.cadence)) (omega arith) in
                  simp (e, near, more) (floor.0, omega (int_laws, floor, v.brief))
            ]
        | inr far ↦ simp (e, far) (v.cadence, v.brief)
      ]
    ]

spacing-low : (g : ℤ) (n : ℕ) → pos 0 ≤ℤ spacing g n
unfolding spacing
spacing-low g n = elim (Bool-cases (ltb 1 n && ltb_ℤ (pos 0) g)) [
  | inl e ↦
      let some_gap : pos 0 <ℤ g = ground arith in
      let several : pos 0 <ℤ pos n = ground arith in
      let fifth = quot_floor (g *ℤ pos 4) (pos 5) (omega int_laws) (omega arith) in
      simp e (quot_floor (quot (g *ℤ pos 4) (pos 5)) (pos n) fifth.0 several).0
  | inr e ↦ simp e (omega arith)
]

five_times : (x a b : ℤ) → x ≤ℤ a → pos 5 *ℤ a ≤ℤ b → pos 5 *ℤ x ≤ℤ b
five_times x a b h k = omega int_laws

times_zero : (n : ℕ) → pos n *ℤ pos 0 ≡ pos 0
unfolding ◌*ℤ◌
times_zero n = ground arith

spacing-total : (g : ℤ) (n : ℕ) → pos 0 ≤ℤ g → pos 5 *ℤ (pos n *ℤ spacing g n) ≤ℤ g *ℤ pos 4
unfolding spacing
spacing-total g n low = elim (Bool-cases (ltb 1 n && ltb_ℤ (pos 0) g)) [
  | inl e ↦
      let several : pos 0 <ℤ pos n = ground arith in
      let fifth = quot_floor (g *ℤ pos 4) (pos 5) (omega int_laws) (omega arith) in
      let share = quot_floor (quot (g *ℤ pos 4) (pos 5)) (pos n) fifth.0 several in
      let all = pos n *ℤ quot (quot (g *ℤ pos 4) (pos 5)) (pos n) in
      simp e (five_times all _ (g *ℤ pos 4) share.1 fifth.1)
  | inr e ↦ simp (e, times_zero) (omega int_laws)
]

start_group-IsPaced :
    (p : Pace) (queue : Heap) (now play_at : ℤ)
    → IsPaced p
    → IsPaced (start_group p queue now play_at)
unfolding start_group
start_group-IsPaced p queue now play_at v =
    let (low, high) = learned-range p play_at v in
    record {
      cadence = low;
      brief = high;
      spaced = spacing-low (learned p play_at) (sharing play_at queue);
    }

-- The hold of a group, and what it keeps.
hold_in-range :
    (p : Pace) (now late : ℤ)
    → IsPaced p
    → let (p', hold) = hold_in p now late in
      IsPaced p'
      × (pos 0 ≤ℤ hold)
      × (hold ≤ℤ max_pace_lag)
      × ((late ≤ℤ max_pace_lag) ⊎ (hold ≡ pos 0))
unfolding hold_in
hold_in-range p now late v =
    let (low, high) = allowance_range p v in
    let kept : IsPaced (record p { next_slot = now }) = record {
      cadence = v.cadence;
      brief = v.brief;
      spaced = v.spaced;
    } in
    elim (Bool-cases (ltb_ℤ (late_allowance p) late)) [
      | inl e ↦ simp e (kept, omega arith, omega arith, inr refl)
      | inr e ↦ elim (Bool-cases (ltb_ℤ (pos 0) (p.next_slot -ℤ now))) [
        | inl waits ↦
            let some_hold : pos 0 <ℤ p.next_slot -ℤ now = ground arith in
            simp (e, waits)
              (
                v,
                omega (int_laws, some_hold, low),
                omega (int_laws, high),
                inl (ground (arith, high)),
              )
        | inr due ↦ simp (e, due) (v, omega arith, omega arith, inr refl)
      ]
    ]

-- Pacing keeps its cadence between 0 and a second and its spacing at 0 or more. It holds a packet back
-- for 33 ms at most at a time, and a packet that is more than 33 ms late not at all.
pub hold_in_limits :
    (p : Pace) (queue : Heap) (now late : ℤ)
    → IsPaced p
    → let (p', hold) = pace_hold p queue now late in
      IsPaced p'
      × (pos 0 ≤ℤ hold)
      × (hold ≤ℤ max_pace_lag)
      × ((late ≤ℤ max_pace_lag) ⊎ (hold ≡ pos 0))
unfolding pace_hold
hold_in_limits p queue now late v =
    let head = get queue 0 in
    elim (Bool-cases (eqb_ℤ head.play_at p.group)) [
      | inl same ↦ simp same (hold_in-range p now late v)
      | inr next ↦ simp next (
          hold_in-range (start_group p queue now head.play_at) now late
            (start_group-IsPaced p queue now head.play_at v))
    ]

charge-IsPaced : (p : Pace) (now : ℤ) → IsPaced p → IsPaced (charge_pace p now)
unfolding charge_pace
charge-IsPaced p now v = elim (Bool-cases (leb_ℤ p.group_gap (pos 0))) [
  | inl e ↦ simp e v
  | inr e ↦ simp e (record { cadence = v.cadence; brief = v.brief; spaced = v.spaced })
]

-- The packets of a frame that starts a group, at the spacing that it is given, take four fifths of the
-- frame's interval at most; the cadence and the spacing stay in their limits when a packet is charged.
pub group_ends_in_time :
    (p : Pace) (queue : Heap) (now play_at : ℤ)
    → IsPaced p
    → let p' = start_group p queue now play_at in
      (pos 5 *ℤ (pos (sharing play_at queue) *ℤ p'.group_gap) ≤ℤ p'.frame_gap *ℤ pos 4)
      × IsPaced (charge_pace p' now)
unfolding start_group
group_ends_in_time p queue now play_at v =
    let g = learned p play_at in
    let (low, high) = learned-range p play_at v in
    (
      spacing-total g (sharing play_at queue) low,
      charge-IsPaced (start_group p queue now play_at) now
          (start_group-IsPaced p queue now play_at v),
    )
