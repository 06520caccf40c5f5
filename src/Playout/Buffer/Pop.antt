-- ===== src/Playout/Buffer/Pop.antt =====
-- `Pop` of internal/relay/delay.go, one pass of its loop at a time.
use waga_strim.Base.{◌==◌, if◌then◌else◌, length}
use waga_strim.Base.Int.{ℤ, pos, ◌+ℤ◌, ◌-ℤ◌, ltb_ℤ, leb_ℤ}
use waga_strim.Playout.Heap
use waga_strim.Playout.Heap.{Buffered, Heap, nothing, get}
use waga_strim.Playout.Pace.{Pace, pace_hold, charge_pace}
use waga_strim.Playout.Buffer.{Buffer, dynamic_offset}

-- What one pass of the loop of `Pop` comes to: the end, a wait for a signal or for a time, another pass at
-- once, or a packet.
pub data Pass : Type 0 where
  ended waits again : Pass
  waits_for : ℤ → Pass
  gave : Buffered → Pass

unfoldable pub hold_or_give : Buffer → ℤ → Pace × ℤ → Buffer × Pass
hold_or_give b now (pace, hold) =
    let (rest, top) = Heap.pop b.queue in
    if ltb_ℤ (pos 0) hold
    then (record b { pace = pace }, waits_for hold)
    else (record b { pace = charge_pace pace now; queue = rest }, gave top)

unfoldable pub look_at : Buffer → ℤ → ℤ → Buffer × Pass
look_at b now offset =
    let wait = ((get b.queue 0).play_at +ℤ offset) -ℤ now in
    if length b.queue == 0
    then (b, again)
    else if leb_ℤ wait (pos 0)
    then hold_or_give b now (pace_hold b.pace b.queue now (pos 0 -ℤ wait))
    else (b, waits_for wait)

-- One pass of the loop of `Pop`.
unfoldable pub pass : Buffer → ℤ → Buffer × Pass
pass b now =
    let (b', offset) = dynamic_offset b now in
    if length b.queue == 0 then (b, if b.closed then ended else waits) else look_at b' now offset
