-- ===== src/Playout/Buffer/Tests.antt =====
-- Runs of the buffer of internal/relay/delay.go, and its theorem at a concrete one.
use waga_strim.Base.{ℕ, ◌*◌, ◌≡◌, refl, true, List, [], ◌∷◌, length}
use waga_strim.Base.Int.{ℤ, pos}
use waga_strim.Keyframe.{h264}
use waga_strim.Playout.Heap
use waga_strim.Playout.Heap.{Buffered}
use waga_strim.Playout.Buffer.Pop.{hold_or_give, look_at, waits_for, gave, pass}
use waga_strim.Playout.Buffer.{
  arrive, dynamic_arrival, offset_in, anchored, unless_stale, stale_reset, settled, admit, enqueue,
}
use waga_strim.Base.Int.{◌-ℤ◌, ◌+ℤ◌, quot, ◌*ℤ◌, max_ℤ, min_ℤ}
use waga_strim.Playout.Clock.{playout_of, rtp_delta, correction_margin}
use waga_strim.Playout.Heap.{before, pop, rise, sink, smallest_of}
use waga_strim.Playout.Pace.{
  charge_pace, hold_in, late_allowance, learned, pace_hold, spacing, start_group,
}
use waga_strim.Playout.Buffer.{Packet, Buffer, push, set_target}
use waga_strim.Playout.Buffer.Due.{Op, pushes, pops, retargets, opened, serve_all}

-- Packets of 90 kHz, 40 ms apart.
abbrev packet : ℕ → Packet
packet n = record { pkt = n; timestamp = 3600 * n; sequence = n; payload = 65 ∷ [] }

abbrev arrival : ℕ → ℤ → Op
arrival n now = pushes (packet n) now now now

-- The second packet comes first, and the delay goes from 100 ms to 120 ms.
abbrev script : List Op
script =
    arrival 1 (pos 1_000_000_000)
    ∷ arrival 0 (pos 1_010_000_000)
    ∷ pops (pos 1_050_000_000)
    ∷ pops (pos 1_060_000_000)
    ∷ retargets (pos 120_000_000)
    ∷ arrival 2 (pos 1_070_000_000)
    ∷ []

abbrev after_script : Buffer
after_script = (serve_all (opened (pos 100_000_000) 90_000 h264 true) script).buffer

one_popped : (serve_all (opened (pos 100_000_000) 90_000 h264 true) script).popped ≡ 0 ∷ []
unfolding pass push set_target arrive dynamic_arrival offset_in anchored unless_stale stale_reset
    settled admit enqueue hold_or_give look_at ◌-ℤ◌ ◌+ℤ◌ quot ◌*ℤ◌ max_ℤ min_ℤ playout_of rtp_delta
    correction_margin before pop rise sink smallest_of charge_pace hold_in late_allowance learned
    pace_hold spacing start_group Heap.push
one_popped = refl

two_left : length after_script.queue ≡ 2
unfolding pass push set_target arrive dynamic_arrival offset_in anchored unless_stale stale_reset
    settled admit enqueue hold_or_give look_at ◌-ℤ◌ ◌+ℤ◌ quot ◌*ℤ◌ max_ℤ min_ℤ playout_of rtp_delta
    correction_margin before pop rise sink smallest_of charge_pace hold_in late_allowance learned
    pace_hold spacing start_group Heap.push
two_left = refl

early : (pass after_script (pos 1_100_000_000)).1 ≡ waits_for (pos 20_000_000)
unfolding pass push set_target arrive dynamic_arrival offset_in anchored unless_stale stale_reset
    settled admit enqueue hold_or_give look_at ◌-ℤ◌ ◌+ℤ◌ quot ◌*ℤ◌ max_ℤ min_ℤ playout_of rtp_delta
    correction_margin before pop rise sink smallest_of charge_pace hold_in late_allowance learned
    pace_hold spacing start_group Heap.push
early = refl

due_then :
    (pass after_script (pos 1_120_000_000)).1
    ≡ gave (record { pkt = 1; play_at = pos 1_120_000_000; order = 1 })
unfolding pass push set_target arrive dynamic_arrival offset_in anchored unless_stale stale_reset
    settled admit enqueue hold_or_give look_at ◌-ℤ◌ ◌+ℤ◌ quot ◌*ℤ◌ max_ℤ min_ℤ playout_of rtp_delta
    correction_margin before pop rise sink smallest_of charge_pace hold_in late_allowance learned
    pace_hold spacing start_group Heap.push
due_then = refl
