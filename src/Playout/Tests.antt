-- ===== src/Playout/Tests.antt =====
-- Timestamps and a heap of internal/relay/delay.go at concrete values.
use waga_strim.Base.{◌⊎◌, ℕ, zero, suc, ◌+◌, ◌<◌, ◌≡◌, refl, Bool, true, false, [], ◌∷◌, arith}
use waga_strim.Base.Int.{pos, negsuc, ◌+ℤ◌, ◌-ℤ◌, ◌*ℤ◌, ◌≤ℤ◌, ◌<ℤ◌, quot}
use waga_strim.Playout.Clock.{rtp_delta, playout_of, rtp_delta_lem}
use waga_strim.Playout.Clock.Mapping.{stamp, playout_of_exact}
use waga_strim.Playout.Pace.{
  Pace, max_pace_lag, learned, spacing, start_group, pace_hold, charge_pace,
}
use waga_strim.Playout.Pace.Hold.{IsPaced, hold_in_limits, group_ends_in_time}
use waga_strim.Playout.Heap.{Buffered, Heap, get, before, rise, push, smallest_of, sink, pop}
use waga_strim.Playout.Heap.Order.{IsHeap}
use waga_strim.Playout.Heap.Count.{one, count}
use waga_strim.Playout.Heap.Queue.{push_adds, pop_gives_first}

abbrev item : ℕ → ℕ → ℕ → Buffered
item pkt at order = record { pkt = pkt; play_at = pos at; order = order }

abbrev three : Heap
three = item 1 20 1 ∷ item 3 30 3 ∷ item 2 20 2 ∷ []

three-IsHeap : IsHeap three
unfolding before
three-IsHeap zero p q = absurd (omega arith)
three-IsHeap (suc zero) p q = refl
three-IsHeap (suc (suc zero)) p q = refl
three-IsHeap (suc (suc (suc c))) p q = absurd (omega arith)

-- An earlier packet rises to the root; packets due together leave in the order of their arrival.
heap_run : ((push three (item 4 10 4)).1 ≡ true) × ((pop (pop three).0).1 ≡ item 2 20 2)
unfolding push rise pop sink smallest_of before
heap_run = (refl, refl)

push_adds_example :
    IsHeap (push three (item 4 10 4)).0
    × ((p : Buffered → Bool)
        → count p (push three (item 4 10 4)).0 ≡ count p three + one (p (item 4 10 4)))
push_adds_example = push_adds three (item 4 10 4) three-IsHeap

pop_gives_first_example :
    ((i : ℕ) → i < 3 → before (get three i) (pop three).1 ≡ false)
    × IsHeap (pop three).0
    × ((p : Buffered → Bool) → count p (pop three).0 + one (p (pop three).1) ≡ count p three)
pop_gives_first_example = pop_gives_first three (omega arith) three-IsHeap

rtp_delta_lem_example : rtp_delta 4294965000 704 ≡ negsuc 2999
rtp_delta_lem_example = rtp_delta_lem 704 (negsuc 2999) (omega arith) (omega arith) (omega arith)

-- A packet before the wrap and one after it, of a clock of 90 kHz.
playout_of_exact_example :
    let at =
      playout_of 704 (pos 5_000_000_000) (pos 100_000_000) 90_000 (stamp 704 (negsuc 2999)) in
    let media = negsuc 2999 *ℤ pos 1_000_000_000 in
    let played = pos 90_000 *ℤ (at -ℤ (pos 5_000_000_000 +ℤ pos 100_000_000)) in
    (played <ℤ media +ℤ pos 90_000)
    × (media <ℤ played +ℤ pos 90_000)
    × (at ≤ℤ playout_of 704 (pos 5_000_000_000) (pos 100_000_000) 90_000 (stamp 704 (pos 600)))
playout_of_exact_example =
    playout_of_exact 704 (pos 5_000_000_000) (pos 100_000_000) 90_000 (negsuc 2999) (pos 600)
      (omega arith) (omega arith) (omega arith) (omega arith) (omega arith)

-- A cadence of 20 ms is known; the next frame has two packets.
abbrev paced : Pace
paced = record {
  group = pos 80_000_000;
  group_gap = pos 0;
  frame_gap = pos 20_000_000;
  next_slot = pos 81_000_000;
}

abbrev frame : Heap
frame = item 1 100_000_000 1 ∷ item 2 100_000_000 2 ∷ []

paced-IsPaced : IsPaced paced
paced-IsPaced = record { cadence = omega arith; brief = omega arith; spaced = omega arith }

pace_run : (start_group paced frame (pos 100_000_000) (pos 100_000_000)).group_gap ≡ pos 8_000_000
unfolding start_group spacing learned ◌-ℤ◌ ◌+ℤ◌ ◌*ℤ◌ quot
pace_run = refl

hold_in_limits_example :
    let (p', hold) = pace_hold paced frame (pos 100_000_000) (pos 0) in
    IsPaced p'
    × (pos 0 ≤ℤ hold)
    × (hold ≤ℤ max_pace_lag)
    × ((pos 0 ≤ℤ max_pace_lag) ⊎ (hold ≡ pos 0))
hold_in_limits_example = hold_in_limits paced frame (pos 100_000_000) (pos 0) paced-IsPaced

group_ends_in_time_example :
    let p' = start_group paced frame (pos 100_000_000) (pos 100_000_000) in
    (pos 5 *ℤ (pos 2 *ℤ p'.group_gap) ≤ℤ p'.frame_gap *ℤ pos 4)
    × IsPaced (charge_pace p' (pos 100_000_000))
group_ends_in_time_example =
    group_ends_in_time paced frame (pos 100_000_000) (pos 100_000_000) paced-IsPaced
