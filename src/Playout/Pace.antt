-- ===== src/Playout/Pace.antt =====
-- How internal/relay/delay.go spreads the packets of a frame over its interval.
pub mod Hold
use waga_strim.Base.{
  ℕ, zero, suc, ◌+◌, Bool, true, false, not, ◌&&◌, List, [], ◌∷◌, ltb, ◌==◌, if◌then◌else◌,
}
use waga_strim.Base.Int.{ℤ, pos, ◌+ℤ◌, ◌-ℤ◌, ◌*ℤ◌, quot, min_ℤ, ltb_ℤ, leb_ℤ, eqb_ℤ}
use waga_strim.Playout.Heap.{Buffered, Heap, get}

-- The fields of `Buffer` that pacing uses. The zero instant is 0.
pub record Pace : Type 0 where
  pub group : ℤ
  pub group_gap : ℤ
  pub frame_gap : ℤ
  pub next_slot : ℤ

-- `maxPaceLag`
abbrev pub max_pace_lag : ℤ
max_pace_lag = pos 33_000_000

-- `lateAllowanceLocked`
unfoldable pub late_allowance : Pace → ℤ
late_allowance p =
    if leb_ℤ p.frame_gap (pos 0) then max_pace_lag else min_ℤ p.frame_gap max_pace_lag

-- The packets that share a playout time.
abbrev pub sharing : ℤ → Heap → ℕ
sharing play_at [] = 0
sharing play_at (b ∷ h) =
    let rest = sharing play_at h in if eqb_ℤ b.play_at play_at then suc rest else rest

-- The cadence that a frame teaches.
unfoldable pub learned : Pace → ℤ → ℤ
learned p play_at =
    let gap = play_at -ℤ p.group in
    if eqb_ℤ p.group (pos 0)
    then p.frame_gap
    else if ltb_ℤ (pos 0) gap && ltb_ℤ gap (pos 1_000_000_000)
    then (if eqb_ℤ p.frame_gap (pos 0) then gap else quot ((pos 3 *ℤ p.frame_gap) +ℤ gap) (pos 4))
    else p.frame_gap

-- Four fifths of the interval, shared by the packets of the group.
unfoldable pub spacing : ℤ → ℕ → ℤ
spacing frame_gap packets =
    if ltb 1 packets && ltb_ℤ (pos 0) frame_gap
    then quot (quot (frame_gap *ℤ pos 4) (pos 5)) (pos packets)
    else pos 0

-- `startGroupLocked`
unfoldable pub start_group : Pace → Heap → ℤ → ℤ → Pace
start_group p queue now play_at = record {
  group = play_at;
  group_gap = spacing (learned p play_at) (sharing play_at queue);
  frame_gap = learned p play_at;
  next_slot = now;
}

-- What `paceHoldLocked` does once the group is current.
unfoldable pub hold_in : Pace → ℤ → ℤ → Pace × ℤ
hold_in p now late =
    let hold = p.next_slot -ℤ now in
    if ltb_ℤ (late_allowance p) late
    then (record p { next_slot = now }, pos 0)
    else if ltb_ℤ (pos 0) hold
    then (p, min_ℤ hold (late_allowance p))
    else (p, pos 0)

-- `paceHoldLocked`, of a queue that is not empty.
unfoldable pub pace_hold : Pace → Heap → ℤ → ℤ → Pace × ℤ
pace_hold p queue now late =
    let head = get queue 0 in
    hold_in (if eqb_ℤ head.play_at p.group then p else start_group p queue now head.play_at) now
      late

-- `chargePaceLocked`
unfoldable pub charge_pace : Pace → ℤ → Pace
charge_pace p now =
    let slot = if ltb_ℤ p.next_slot (now -ℤ late_allowance p) then now else p.next_slot in
    if leb_ℤ p.group_gap (pos 0) then p else record p { next_slot = slot +ℤ p.group_gap }
