-- ===== src/Playout/Buffer/Ledger.antt =====
-- The packets of the buffer of internal/relay/delay.go, over each of its operations.
use waga_strim.Base.{
  ℕ, ◌+◌, ◌≤◌, List, [], ◌∷◌, ◌++◌, ◌-◌, ◌%◌, ◌≡◌, inl, inr, Bool, true, false, not, ◌||◌, ◌==◌,
  leb, Option, none, some, arith, if◌then◌else◌, length, Bool-cases,
}
use waga_strim.Base.Int.{ℤ, pos, ◌+ℤ◌, ◌-ℤ◌, ◌*ℤ◌, max_ℤ, ltb_ℤ, eqb_ℤ}
use waga_strim.Dynamic.Curve.{State}
use waga_strim.Keyframe.{is_keyframe}
use waga_strim.Playout.Heap.{Buffered, Heap}
use waga_strim.Playout.Heap.Order.{IsHeap}
use waga_strim.Playout.Heap.Queue.{push_adds}
use waga_strim.Playout.Heap.Count.{one, count}
use waga_strim.Playout.Clock.{correction_margin, rtp_delta}
use waga_strim.Playout.Buffer.Order.{
  nothing-IsHeap, count-push, length-push, length-map-shifted, tally-shifted, shifted-IsHeap,
}
use waga_strim.Playout.Buffer.{
  Packet, Buffer, drop_all, state_of, offset_in, dynamic_offset, stale_reset, settled, unless_stale,
  dynamic_arrival, jumps, anchored, noted_late, reanchored, after_reset, enqueue, admit, arrive,
  push, playout, Arrival, set_target, move_clock, close, depth,
}

-- The packets that are queued or were dropped.
abbrev pub held : Buffer → ℕ
held b = length b.queue + b.dropped

-- The queued packets that pass a test on their numbers, and such numbers of a list.
abbrev pub tally : (ℕ → Bool) → Heap → ℕ
tally q h = count (λ (item : Buffered). q item.pkt) h

abbrev pub among : (ℕ → Bool) → List ℕ → ℕ
among q [] = 0
among q (n ∷ ns) = one (q n) + among q ns

-- An operation that keeps the queue in order, holds the new packets more, and queues no packet but those
-- that were queued and the new ones, none of them twice.
abbrev pub Keeps : List ℕ → Buffer → Buffer → Type 0
Keeps new b b' =
    (IsHeap b.queue → IsHeap b'.queue)
    × (held b' ≡ held b + length new)
    × ((q : ℕ → Bool) → tally q b'.queue ≤ tally q b.queue + among q new)

pub drop_all-Keeps : (b : Buffer) → Keeps [] b (drop_all b)
drop_all-Keeps b = (λ v. nothing-IsHeap, omega arith, λ q. omega arith)

pub offset_in-Keeps : (s : Option State) (b : Buffer) (now : ℤ) → Keeps [] b (offset_in s b now).0
unfolding offset_in
offset_in-Keeps none b now = (λ v. v, omega arith, λ q. omega arith)
offset_in-Keeps (some s) b now = elim (Bool-cases (eqb_ℤ s.cutoff b.cutoff)) [
  | inl same ↦ simp same (λ v. v, omega arith, λ q. omega arith)
  | inr new ↦ simp new (λ v. nothing-IsHeap, omega arith, λ q. omega arith)
]

-- Two operations, of which the first one takes no new packet.
Keeps-trans : (new : List ℕ) (a b c : Buffer) → Keeps [] a b → Keeps new b c → Keeps new a c
Keeps-trans new a b c (v, e, k) (w, f, l) =
    (λ h. w (v h), omega (arith, e, f), λ q. omega (arith, k q, l q))

anchored-Keeps : (b : Buffer) (p : Packet) (first wall : ℤ) → Keeps [] b (anchored b p first wall)
unfolding anchored
anchored-Keeps b p first wall = elim (Bool-cases b.based) [
  | inl e ↦ simp e (λ v. v, omega arith, λ q. omega arith)
  | inr e ↦ simp e (offset_in-Keeps (state_of b.dynamic) b first)
]

settled-Keeps :
    (b : Buffer) (p : Packet) (now play_at offset : ℤ)
    → Keeps [] b (settled b p now play_at offset).buffer
unfolding settled
settled-Keeps b p now play_at offset = elim (Bool-cases (jumps (state_of b.dynamic) b p)) [
  | inl e ↦ simp e (offset_in-Keeps _ (record b { dynamic = _ }) now)
  | inr e ↦ simp e (λ v. v, omega arith, λ q. omega arith)
]

unless_stale-Keeps :
    (b : Buffer) (stale : Bool) (p : Packet) (now play_at offset : ℤ)
    → Keeps [] b (unless_stale (b, stale) p now play_at offset).buffer
unfolding unless_stale
unless_stale-Keeps b true p now play_at offset = (λ v. v, omega arith, λ q. omega arith)
unless_stale-Keeps b false p now play_at offset = settled-Keeps b p now play_at offset

stale_reset-Keeps :
    (b : Buffer) (sequence : ℕ) (play_at now offset : ℤ)
    → Keeps [] b (stale_reset b sequence play_at now offset).0
unfolding stale_reset
stale_reset-Keeps b sequence play_at now offset =
    let behind = leb 32768 ((sequence + 65536 - b.reset_sequence) % 65536) in
    elim (Bool-cases (b.clock_epoch == 0)) [
      | inl e ↦ simp e (λ v. v, omega arith, λ q. omega arith)
      | inr e ↦ elim (Bool-cases (b.reset_pending || behind)) [
        | inl f ↦ simp (e, f) (λ v. v, omega arith, λ q. omega arith)
        | inr f ↦ simp (e, f) (λ v. v, omega arith, λ q. omega arith)
      ]
    ]

dynamic_arrival-Keeps :
    (b : Buffer) (p : Packet) (now : ℤ) → Keeps [] b (dynamic_arrival b p now).buffer
unfolding dynamic_arrival
dynamic_arrival-Keeps b p now =
    let (b', offset) = dynamic_offset b now in
    let play_at = playout b' p in
    let first = offset_in-Keeps (state_of b.dynamic) b now in
    elim (Bool-cases (ltb_ℤ (play_at -ℤ b'.target) b'.cutoff)) [
      | inl e ↦ simp e first
      | inr e ↦
          let (b'', stale) = stale_reset b' p.sequence play_at now offset in
          let second = stale_reset-Keeps b' p.sequence play_at now offset in
          let third = unless_stale-Keeps b'' stale p now play_at offset in
          let last = (unless_stale (b'', stale) p now play_at offset).buffer in
          simp e (Keeps-trans [] b b' last first (Keeps-trans [] b' b'' last second third))
    ]

if-Keeps :
    (test : Bool) (new : List ℕ) (a b c : Buffer)
    → Keeps new a b
    → Keeps new a c
    → Keeps new a (if test then b else c)
if-Keeps true new a b c h k = h
if-Keeps false new a b c h k = k

ready-Keeps :
    (b : Buffer) (p : Packet) (play_at : ℤ) → Keeps [] b (reanchored (after_reset b p) p play_at)
ready-Keeps b p play_at =
    let b' = after_reset b p in
    let first : Keeps [] b b' =
      if-Keeps b.reset_pending [] b
        (record b { reset_pending = false; reset_sequence = p.sequence }) b
        (λ v. v, omega arith, λ q. omega arith) (λ v. v, omega arith, λ q. omega arith) in
    let second : Keeps [] b' (reanchored b' p play_at) =
      if-Keeps (ltb_ℤ (pos b'.clock_rate *ℤ pos 60) (rtp_delta p.timestamp b'.base_rtp)) [] b'
        (record b' { base_wall = play_at -ℤ b'.target; base_rtp = p.timestamp }) b'
        (λ v. v, omega arith, λ q. omega arith) (λ v. v, omega arith, λ q. omega arith) in
    Keeps-trans [] b b' (reanchored b' p play_at) first second

enqueue-Keeps : (b : Buffer) (p : Packet) (play_at : ℤ) → Keeps (p.pkt ∷ []) b (enqueue b p play_at)
unfolding enqueue
enqueue-Keeps b p play_at =
    let b' = reanchored (after_reset b p) p play_at in
    let item : Buffered = record { pkt = p.pkt; play_at = play_at; order = b'.arrived + 1 } in
    let (v, e, k) = ready-Keeps b p play_at in
    let size = length-push b'.queue item in
    (
      λ h. (push_adds b'.queue item (v h)).0,
      omega (arith, e, size),
      λ q. omega (arith, k q, count-push (λ i. q i.pkt) b'.queue item),
    )

admit-Keeps : (b : Buffer) (p : Packet) (play_at : ℤ) → Keeps (p.pkt ∷ []) b (admit b p play_at)
unfolding admit
admit-Keeps b p play_at =
    let dropped = record b { dropped = b.dropped + 1 } in
    let cleared = drop_all (record b { catch_up = false }) in
    let kept = enqueue cleared p play_at in
    if-Keeps b.catch_up (p.pkt ∷ []) b
      (if not (is_keyframe b.mime p.payload) then dropped else kept) (enqueue b p play_at)
      (if-Keeps (not (is_keyframe b.mime p.payload)) (p.pkt ∷ []) b dropped kept
        (λ v. v, omega arith, λ q. omega arith)
        (Keeps-trans (p.pkt ∷ []) b cleared kept
          (λ v. nothing-IsHeap, omega arith, λ q. omega arith) (enqueue-Keeps cleared p play_at)))
      (enqueue-Keeps b p play_at)

arrive-Keeps : (a : Arrival) (p : Packet) (now : ℤ) → Keeps (p.pkt ∷ []) a.buffer (arrive a p now)
unfolding arrive
arrive-Keeps a p now =
    let b = a.buffer in
    let late = now -ℤ (a.play_at +ℤ a.offset) in
    let noted : Keeps [] b (noted_late b late) =
      if-Keeps (ltb_ℤ (pos 0) late) [] b
        (record b { late = b.late + 1; peak_late = max_ℤ b.peak_late late }) b
        (λ v. v, omega arith, λ q. omega arith) (λ v. v, omega arith, λ q. omega arith) in
    let admitted = admit (noted_late b late) p a.play_at in
    if-Keeps a.stale (p.pkt ∷ []) b (record b { dropped = b.dropped + 1 }) admitted
      (λ v. v, omega arith, λ q. omega arith)
      (Keeps-trans (p.pkt ∷ []) b (noted_late b late) admitted noted
        (admit-Keeps (noted_late b late) p a.play_at))

-- A buffer that is not closed takes the packet, or drops it and counts it.
pub push-Keeps :
    (b : Buffer) (p : Packet) (first wall now : ℤ)
    → Keeps (if b.closed then [] else p.pkt ∷ []) b (push b p first wall now)
unfolding push
push-Keeps b p first wall now = elim (Bool-cases b.closed) [
  | inl e ↦ simp e (λ v. v, omega arith, λ q. omega arith)
  | inr e ↦
      let b' = anchored b p first wall in
      let a = dynamic_arrival b' p now in
      let last = arrive a p now in
      let rest =
        Keeps-trans (p.pkt ∷ []) b' a.buffer last (dynamic_arrival-Keeps b' p now)
          (arrive-Keeps a p now) in
      simp e (Keeps-trans (p.pkt ∷ []) b b' last (anchored-Keeps b p first wall) rest)
]

pub set_target-Keeps : (b : Buffer) (target : ℤ) → Keeps [] b (set_target b target)
unfolding set_target
set_target-Keeps b target =
    let by = target -ℤ b.target in
    (
      shifted-IsHeap by b.queue,
      omega (arith, length-map-shifted by b.queue),
      λ q. omega (arith, tally-shifted q by b.queue),
    )

pub move_clock-Keeps :
    (b : Buffer) (shift : ℤ) (reset : Bool) → Keeps [] b (move_clock b shift reset)
unfolding move_clock
move_clock-Keeps b shift true = (λ v. nothing-IsHeap, omega arith, λ q. omega arith)
move_clock-Keeps b shift false = (
  shifted-IsHeap shift b.queue,
  omega (arith, length-map-shifted shift b.queue),
  λ q. omega (arith, tally-shifted q shift b.queue),
)

pub close-Keeps : (b : Buffer) (now : ℤ) → Keeps [] b (close b now)
unfolding close
close-Keeps b now =
    let b' = record b { closed = true } in
    if-Keeps (ltb_ℤ (correction_margin b.target) (depth b now -ℤ b.target)) [] b (drop_all b') b'
      (λ v. nothing-IsHeap, omega arith, λ q. omega arith) (λ v. v, omega arith, λ q. omega arith)

pub among-append : (q : ℕ → Bool) (ns ms : List ℕ) → among q (ns ++ ms) ≡ among q ns + among q ms
among-append q [] ms = omega arith
among-append q (n ∷ ns) ms = omega (arith, among-append q ns ms)
