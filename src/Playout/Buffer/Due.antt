-- ===== src/Playout/Buffer/Due.antt =====
-- What `Pop` of internal/relay/delay.go gives, and the account of the packets over a run.
use waga_strim.Base.{
  ℕ, ◌+◌, ◌<◌, ◌≡◌, inl, inr, Bool, true, false, ◌==◌, Option, List, [], ◌∷◌, ◌++◌, ◌≤◌, arith,
  if◌then◌else◌, length, Bool-cases,
}
use waga_strim.Base.Int.{ℤ, pos, ◌+ℤ◌, ◌-ℤ◌, ◌≤ℤ◌, ltb_ℤ, leb_ℤ, -ℤ_parts}
use waga_strim.Dynamic.Controller.{Controller}
use waga_strim.Keyframe.{Mime}
use waga_strim.Playout.Heap
use waga_strim.Playout.Heap.{Buffered, Heap, get, before}
use waga_strim.Playout.Heap.Order.{IsHeap}
use waga_strim.Playout.Heap.Queue.{pop_gives_first}
use waga_strim.Playout.Pace.{Pace, pace_hold}
use waga_strim.Playout.Buffer.Order.{count-all}
use waga_strim.Playout.Buffer.Ledger.{held, tally, among, offset_in-Keeps}
use waga_strim.Playout.Buffer.Pop.{
  Pass, ended, waits, again, waits_for, gave, hold_or_give, look_at, pass,
}
use waga_strim.Playout.Buffer.{
  Packet, Buffer, new_buffer, state_of, dynamic_offset, push, set_target, move_clock, close,
}

-- The packet that a pass gives, if any.
abbrev pub given : Pass → List ℕ
given ended = []
given waits = []
given again = []
given (waits_for hold) = []
given (gave item) = item.pkt ∷ []

-- A packet that is given is due, with this offset at this instant, and no packet of the queue goes first.
abbrev pub IsDue : Heap → ℤ → ℤ → Pass → Type 0
IsDue queue offset now ended = Unit {0}
IsDue queue offset now waits = Unit {0}
IsDue queue offset now again = Unit {0}
IsDue queue offset now (waits_for hold) = Unit {0}
IsDue queue offset now (gave item) =
    (item.play_at +ℤ offset ≤ℤ now)
    × ((i : ℕ) → i < length queue → before (get queue i) item ≡ false)

abbrev pub Gives : Buffer → ℤ → ℤ → Buffer × Pass → Type 0
Gives b offset now (b', r) =
    IsHeap b'.queue
    × (held b' + length (given r) ≡ held b)
    × ((q : ℕ → Bool) → tally q b'.queue + among q (given r) ≤ tally q b.queue)
    × IsDue b.queue offset now r

hold_or_give-Gives :
    (b : Buffer) (now offset : ℤ) (paced : Pace × ℤ)
    → IsHeap b.queue
    → 0 < length b.queue
    → (get b.queue 0).play_at +ℤ offset ≤ℤ now
    → Gives b offset now (hold_or_give b now paced)
unfolding hold_or_give Heap.pop
hold_or_give-Gives b now offset (pace, hold) v some_left due =
    elim (Bool-cases (ltb_ℤ (pos 0) hold)) [
      | inl e ↦ simp e (v, omega arith, λ q. omega arith, tt)
      | inr e ↦
          let (first, order, counted) = pop_gives_first b.queue some_left v in
          let fewer : length (Heap.pop b.queue).0 + 1 ≡ length b.queue =
            omega (arith, counted (λ b. true), count-all (Heap.pop b.queue).0, count-all b.queue) in
          simp e
            (order, omega (arith, fewer), λ q. omega (arith, counted (λ i. q i.pkt)), (due, first))
    ]

look_at-Gives :
    (b : Buffer) (now offset : ℤ) → IsHeap b.queue → Gives b offset now (look_at b now offset)
unfolding look_at
look_at-Gives b now offset v =
    let at = (get b.queue 0).play_at +ℤ offset in
    let wait = at -ℤ now in
    elim (Bool-cases (length b.queue == 0)) [
      | inl e ↦ simp e (v, omega arith, λ q. omega arith, tt)
      | inr e ↦ elim (Bool-cases (leb_ℤ wait (pos 0))) [
        | inr f ↦ simp (e, f) (v, omega arith, λ q. omega arith, tt)
        | inl f ↦
            let due : at ≤ℤ now = ground (arith, -ℤ_parts at now) in
            let some_left : 0 < length b.queue = ground arith in
            simp (e, f)
              (hold_or_give-Gives b now offset (pace_hold b.pace b.queue now (pos 0 -ℤ wait)) v
                some_left due)
      ]
    ]

-- What a pass gives, in terms of the queue and the offset after a jump of the delay is followed.
pub pass-Gives :
    (b : Buffer) (now : ℤ)
    → IsHeap b.queue
    → let (b', offset) = dynamic_offset b now in
      IsHeap (pass b now).0.queue
      × (held (pass b now).0 + length (given (pass b now).1) ≡ held b)
      × ((q : ℕ → Bool)
          → tally q (pass b now).0.queue + among q (given (pass b now).1) ≤ tally q b.queue)
      × IsDue b'.queue offset now (pass b now).1
unfolding pass
pass-Gives b now v =
    let (b', offset) = dynamic_offset b now in
    let (keeps, same, none_new) = offset_in-Keeps (state_of b.dynamic) b now in
    elim (Bool-cases (length b.queue == 0)) [
      | inl e ↦ elim (Bool-cases b.closed) [
        | inl f ↦ simp (e, f) (v, omega arith, λ q. omega arith, tt)
        | inr f ↦ simp (e, f) (v, omega arith, λ q. omega arith, tt)
      ]
      | inr e ↦
          let (order, counted, among_old, due) = look_at-Gives b' now offset (keeps v) in
          simp e
            (order, omega (arith, counted, same), λ q. omega (arith, among_old q, none_new q), due)
    ]

-- The operations of a buffer, and what the rest of the program does to it: a move of its clock, the
-- reset of a sender's clock, and a change of the delay that its stream shares.
pub data Op : Type 0 where
  pushes : Packet → ℤ → ℤ → ℤ → Op
  pops : ℤ → Op
  retargets : ℤ → Op
  moves : ℤ → Bool → Op
  resets : Op
  shares : Option Controller → Op
  closes : ℤ → Op

-- A buffer, the packets that were pushed before it was closed, and the packets that it gave.
pub record Account : Type 0 where
  pub buffer : Buffer
  pub pushed : List ℕ
  pub popped : List ℕ

abbrev pub serve : Account → Op → Account
serve a (pushes p first wall now) = record a {
  buffer = push a.buffer p first wall now;
  pushed = (if a.buffer.closed then [] else p.pkt ∷ []) ++ a.pushed;
}
serve a (pops now) = record a {
  buffer = (pass a.buffer now).0;
  popped = given (pass a.buffer now).1 ++ a.popped;
}
serve a (retargets target) = record a { buffer = set_target a.buffer target }
serve a (moves shift reset) = record a { buffer = move_clock a.buffer shift reset }
serve a resets = record a {
  buffer = record a.buffer { clock_epoch = a.buffer.clock_epoch + 1; reset_pending = true };
}
serve a (shares c) = record a { buffer = record a.buffer { dynamic = c } }
serve a (closes now) = record a { buffer = close a.buffer now }

abbrev pub serve_all : Account → List Op → Account
serve_all a [] = a
serve_all a (op ∷ ops) = serve_all (serve a op) ops

abbrev pub opened : ℤ → ℕ → Mime → Bool → Account
opened target clock_rate mime asks = record {
  buffer = new_buffer target clock_rate mime asks;
  pushed = [];
  popped = [];
}

abbrev pub IsBalanced : Account → Type 0
IsBalanced a =
    IsHeap a.buffer.queue
    × (held a.buffer + length a.popped ≡ length a.pushed)
    × ((q : ℕ → Bool) → tally q a.buffer.queue + among q a.popped ≤ among q a.pushed)
