-- ===== src/Playout/Buffer.antt =====
-- `Buffer` of internal/relay/delay.go. `time.Now()` is an argument for each of its calls. The controller
-- of the delay, which the tracks of a stream share, is passed and returned with the buffer. The counters
-- are natural numbers: 2 ^ 64 packets do not arrive.
pub mod Pop
pub mod Order
pub mod Ledger
pub mod Due
mod Tests
use waga_strim.Base.{
  ℕ, ◌+◌, ◌-◌, ◌%◌, Bool, true, false, not, ◌&&◌, ◌||◌, ◌==◌, leb, Option, none, some, List, [],
  ◌∷◌, map, if◌then◌else◌, length,
}
use waga_strim.Base.Int.{ℤ, pos, ◌+ℤ◌, ◌-ℤ◌, ◌*ℤ◌, max_ℤ, ltb_ℤ, leb_ℤ, eqb_ℤ}
use waga_strim.Dynamic.Curve.{State, delay}
use waga_strim.Dynamic.Controller.{Controller, jump}
use waga_strim.Keyframe.{Mime, Payload, is_keyframe}
use waga_strim.Playout.Heap
use waga_strim.Playout.Heap.{Buffered, Heap, nothing, get}
use waga_strim.Playout.Clock.{rtp_delta, playout_of, correction_margin}
use waga_strim.Playout.Pace.{Pace, pace_hold, charge_pace}

pub record Packet : Type 0 where
  pub pkt : ℕ
  pub timestamp : ℕ
  pub sequence : ℕ
  pub payload : Payload

-- `mime` is what `isKeyframe` makes of the track's type; `asks` says whether there is a `keyframe` callback.
pub record Buffer : Type 0 where
  pub queue : Heap
  pub closed : Bool
  pub target : ℤ
  pub clock_rate : ℕ
  pub mime : Mime
  pub based : Bool
  pub base_rtp : ℕ
  pub base_wall : ℤ
  pub clock_epoch : ℕ
  pub reset_pending : Bool
  pub reset_sequence : ℕ
  pub catch_up : Bool
  pub asks : Bool
  pub arrived : ℕ
  pub pace : Pace
  pub late : ℕ
  pub dropped : ℕ
  pub dynamic : Option Controller
  pub shift : ℤ
  pub cutoff : ℤ
  pub peak_late : ℤ

-- `NewBuffer`
abbrev pub new_buffer : ℤ → ℕ → Mime → Bool → Buffer
new_buffer target clock_rate mime asks = record {
  queue = [];
  closed = false;
  target = target;
  clock_rate = clock_rate;
  mime = mime;
  based = false;
  base_rtp = 0;
  base_wall = pos 0;
  clock_epoch = 0;
  reset_pending = false;
  reset_sequence = 0;
  catch_up = false;
  asks = asks;
  arrived = 0;
  pace = record { group = pos 0; group_gap = pos 0; frame_gap = pos 0; next_slot = pos 0 };
  late = 0;
  dropped = 0;
  dynamic = none;
  shift = pos 0;
  cutoff = pos 0;
  peak_late = pos 0;
}

-- `dropAllLocked`
abbrev pub drop_all : Buffer → Buffer
drop_all b = record b { dropped = b.dropped + length b.queue; queue = [] }

-- The body of the `if` of `dynamicOffsetLocked`.
abbrev pub resync : Buffer → State → Buffer
resync b s = record (drop_all b) {
  base_wall = b.base_wall +ℤ (s.shift -ℤ b.shift);
  shift = s.shift;
  cutoff = s.cutoff;
  pace = record b.pace { group = pos 0 };
  catch_up = false;
  peak_late = pos 0;
}

abbrev pub state_of : Option Controller → Option State
state_of none = none
state_of (some c) = c.state

unfoldable pub offset_in : Option State → Buffer → ℤ → Buffer × ℤ
offset_in none b now = (b, pos 0)
offset_in (some s) b now =
    (if eqb_ℤ s.cutoff b.cutoff then b else resync b s, delay s now -ℤ b.target)

-- `dynamicOffsetLocked`
abbrev pub dynamic_offset : Buffer → ℤ → Buffer × ℤ
dynamic_offset b now = offset_in (state_of b.dynamic) b now

abbrev pub playout : Buffer → Packet → ℤ
playout b p = playout_of b.base_rtp b.base_wall b.target b.clock_rate p.timestamp

-- `staleResetPacketLocked` of internal/relay/clock.go.
unfoldable pub stale_reset : Buffer → ℕ → ℤ → ℤ → ℤ → Buffer × Bool
stale_reset b sequence play_at now offset =
    let margin = correction_margin b.target in
    let behind = leb 32768 ((sequence + 65536 - b.reset_sequence) % 65536) in
    if b.clock_epoch == 0
    then (b, false)
    else if b.reset_pending || behind
    then (
      b,
      ltb_ℤ (b.target +ℤ margin) (play_at -ℤ now)
          || (not b.reset_pending && ltb_ℤ margin (now -ℤ (play_at +ℤ offset))),
    )
    else (record b { reset_sequence = sequence }, false)

-- Whether a keyframe may end a pending jump.
abbrev pub jumps : Option State → Buffer → Packet → Bool
jumps none b p = false
jumps (some s) b p = b.asks && (s.pending && is_keyframe b.mime p.payload)

abbrev pub jumped : Option Controller → ℤ → ℤ → Option Controller
jumped none now media_time = none
jumped (some c) now media_time = some (jump c now media_time)

-- What a packet's arrival finds: the buffer, the instant of its playout, the offset, and whether the
-- packet is stale.
pub record Arrival : Type 0 where
  pub buffer : Buffer
  pub play_at : ℤ
  pub offset : ℤ
  pub stale : Bool

-- The last part of `dynamicArrivalLocked`.
unfoldable pub settled : Buffer → Packet → ℤ → ℤ → ℤ → Arrival
settled b p now play_at offset =
    let c = jumped b.dynamic now (play_at -ℤ b.target) in
    let (b', offset') = dynamic_offset (record b { dynamic = c }) now in
    if jumps (state_of b.dynamic) b p
    then record { buffer = b'; play_at = playout b' p; offset = offset'; stale = false }
    else record { buffer = b; play_at = play_at; offset = offset; stale = false }

unfoldable pub unless_stale : Buffer × Bool → Packet → ℤ → ℤ → ℤ → Arrival
unless_stale (b, true) p now play_at offset = record {
  buffer = b;
  play_at = play_at;
  offset = offset;
  stale = true;
}
unless_stale (b, false) p now play_at offset = settled b p now play_at offset

-- `dynamicArrivalLocked`
unfoldable pub dynamic_arrival : Buffer → Packet → ℤ → Arrival
dynamic_arrival b p now =
    let (b', offset) = dynamic_offset b now in
    let play_at = playout b' p in
    if ltb_ℤ (play_at -ℤ b'.target) b'.cutoff
    then record { buffer = b'; play_at = play_at; offset = offset; stale = true }
    else unless_stale (stale_reset b' p.sequence play_at now offset) p now play_at offset

-- The first packet fixes the mapping of the clocks.
unfoldable pub anchored : Buffer → Packet → ℤ → ℤ → Buffer
anchored b p first wall = if b.based then b else record (dynamic_offset b first).0 {
  base_rtp = p.timestamp;
  base_wall = wall;
  based = true;
}

abbrev pub noted_late : Buffer → ℤ → Buffer
noted_late b late =
    if ltb_ℤ (pos 0) late
    then record b { late = b.late + 1; peak_late = max_ℤ b.peak_late late }
    else b

-- The anchor is kept recent.
abbrev pub reanchored : Buffer → Packet → ℤ → Buffer
reanchored b p play_at =
    if ltb_ℤ (pos b.clock_rate *ℤ pos 60) (rtp_delta p.timestamp b.base_rtp)
    then record b { base_wall = play_at -ℤ b.target; base_rtp = p.timestamp }
    else b

abbrev pub after_reset : Buffer → Packet → Buffer
after_reset b p =
    if b.reset_pending then record b { reset_pending = false; reset_sequence = p.sequence } else b

-- The end of `Push`, for a packet that is kept.
unfoldable pub enqueue : Buffer → Packet → ℤ → Buffer
enqueue b p play_at =
    let b' = reanchored (after_reset b p) p play_at in
    let item : Buffered = record { pkt = p.pkt; play_at = play_at; order = b'.arrived + 1 } in
    record b' { arrived = b'.arrived + 1; queue = (Heap.push b'.queue item).0 }

unfoldable pub admit : Buffer → Packet → ℤ → Buffer
admit b p play_at =
    if b.catch_up
    then (if not (is_keyframe b.mime p.payload)
        then record b { dropped = b.dropped + 1 }
        else enqueue (drop_all (record b { catch_up = false })) p play_at)
    else enqueue b p play_at

unfoldable pub arrive : Arrival → Packet → ℤ → Buffer
arrive a p now =
    let b = a.buffer in
    if a.stale
    then record b { dropped = b.dropped + 1 }
    else admit (noted_late b (now -ℤ (a.play_at +ℤ a.offset))) p a.play_at

-- `Push`
unfoldable pub push : Buffer → Packet → ℤ → ℤ → ℤ → Buffer
push b p first wall now =
    if b.closed then b else arrive (dynamic_arrival (anchored b p first wall) p now) p now

abbrev pub shifted : ℤ → Buffered → Buffered
shifted by item = record item { play_at = item.play_at +ℤ by }

-- `SetTarget`
unfoldable pub set_target : Buffer → ℤ → Buffer
set_target b target = record b {
  target = target;
  queue = map (shifted (target -ℤ b.target)) b.queue;
}

-- `moveClockLocked` of internal/relay/clock.go.
unfoldable pub move_clock : Buffer → ℤ → Bool → Buffer
move_clock b shift reset =
    let b' =
      if reset
      then record (drop_all b) { catch_up = true }
      else record b { queue = map (shifted shift) b.queue } in
    record b' {
      base_wall = b.base_wall +ℤ shift;
      pace = record b.pace { group = pos 0 };
      peak_late = pos 0;
    }

-- `newestLocked`
unfoldable pub newest_from : Heap → Buffered → Buffered
newest_from [] newest = newest
newest_from (item ∷ h) newest =
    newest_from h (if ltb_ℤ newest.play_at item.play_at then item else newest)

-- `depthLocked`
unfoldable pub depth : Buffer → ℤ → ℤ
depth b now = max_ℤ (pos 0) ((newest_from b.queue nothing).play_at -ℤ now)

-- `Close`
unfoldable pub close : Buffer → ℤ → Buffer
close b now =
    let b' = record b { closed = true } in
    if ltb_ℤ (correction_margin b.target) (depth b now -ℤ b.target) then drop_all b' else b'
