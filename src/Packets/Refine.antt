-- ===== src/Packets/Refine.antt =====
-- The packet buffer of internal/ingest/packet_buffer.go beside the queue that it models.
use mathlib.Core.List.{append_assoc, append-nil}
use waga_strim.Base.{
  ℕ, ◌+◌, ◌≤◌, ◌<◌, ◌≡◌, refl, sym, ap, ap₂, ◌∙◌, inl, inr, Bool, true, false, Option, List, [],
  ◌∷◌, ◌++◌, arith, ltb, ◌==◌, if◌then◌else◌, length, take, Bool-cases, length-append,
}
use waga_strim.Packets.{
  Bytes, PacketBuffer, receive_buffer_bytes, new_packet_buffer, observe, make_room, append_packet,
  write, read_packet, read, close, wrote, closed_pipe, short_buffer, full, got, eof, would_block,
  WriteResult, ReadResult,
}
use waga_strim.Packets.Queue
use waga_strim.Packets.Queue.{Queue, weight}
use waga_strim.Packets.Ring.{window, length-window}
use waga_strim.Packets.Grow.{IsValid, contents, make_room-HasRoom}
use waga_strim.Packets.Write.{frame, append_packet-contents, append_packet-IsValid}
use waga_strim.Packets.Read.{read_packet-takes}

-- The bytes of a list of datagrams, one frame after the other.
abbrev pub frames : List Bytes → Bytes
frames [] = []
frames (p ∷ ps) = frame p ++ frames ps

frames-append : (ps : List Bytes) (p : Bytes) → frames (ps ++ (p ∷ [])) ≡ frames ps ++ frame p
frames-append [] p = append-nil (frame p)
frames-append (x ∷ ps) p =
    ap (◌++◌ (frame x)) (frames-append ps p) ∙ sym (append_assoc (frame x) (frames ps) (frame p))

length-frames : (ps : List Bytes) → length (frames ps) ≡ weight ps
length-frames [] = refl
length-frames (p ∷ ps) = omega (arith, length-append (frame p) (frames ps), length-frames ps)

-- Every datagram queued has 1 to 65535 bytes.
abbrev pub AllSmall : List Bytes → Type 0
AllSmall [] = Unit {0}
AllSmall (p ∷ ps) = (0 < length p) × (length p ≤ 65535) × AllSmall ps

AllSmall-append :
    (ps : List Bytes) (p : Bytes)
    → 0 < length p
    → length p ≤ 65535
    → AllSmall ps
    → AllSmall (ps ++ (p ∷ []))
AllSmall-append [] p h k a = (h, k, tt)
AllSmall-append (x ∷ ps) p h k a = (a.0, a.1, AllSmall-append ps p h k a.2)

-- The buffer holds the datagrams of the queue; while it holds any, `wake` has a token.
pub record Models (b : PacketBuffer) (q : Queue) : Type 0 where
  pub valid : IsValid b
  pub holds : contents b ≡ frames q.packets
  pub small : AllSmall q.packets
  pub same_closed : b.closed ≡ q.closed
  pub awake : 0 < b.used → b.wake ≡ true

used-weight : (b : PacketBuffer) (q : Queue) → Models b q → b.used ≡ weight q.packets
used-weight b q m =
    omega (arith, ap length m.holds, length-window b.bytes b.head b.used, length-frames q.packets)

-- A new buffer is an empty queue.
pub new-Models :
    (observed : Option (List Bytes))
    → Models (new_packet_buffer observed) (record { packets = []; closed = false })
unfolding new_packet_buffer
new-Models observed = record {
  valid = omega arith;
  holds = unfold window in refl;
  small = tt;
  same_closed = refl;
  awake = λ h. absurd (omega arith);
}

same_bytes :
    (b : PacketBuffer) (q : Queue) (calls : Option (List Bytes))
    → Models b q
    → Models (record b { observed = calls }) q
same_bytes b q calls m = record {
  valid = omega (arith, m.valid);
  holds = m.holds;
  small = m.small;
  same_closed = m.same_closed;
  awake = m.awake;
}

store-Models :
    (b : PacketBuffer) (q : Queue) (p : Bytes)
    → 0 < length p
    → length p ≤ 65535
    → b.used + length p + 2 ≤ receive_buffer_bytes
    → Models b q
    → Models
        (append_packet (make_room b (b.used + length p + 2)) p)
        (record q { packets = q.packets ++ (p ∷ []) })
store-Models b q p h k l m =
    let b' = make_room b (b.used + length p + 2) in
    let made = make_room-HasRoom b (b.used + length p + 2) (omega arith) l m.valid in
    let room : b'.used + length p + 2 ≤ length b'.bytes =
      omega (arith, made.room, made.same_used) in
    record {
      valid = append_packet-IsValid b' p made.valid room;
      holds =
          append_packet-contents b' p made.valid room
          ∙ ap (λ l. l ++ frame p) (made.same ∙ m.holds)
          ∙ sym (frames-append q.packets p);
      small = AllSmall-append q.packets p h k m.small;
      same_closed = unfold append_packet in made.same_closed ∙ m.same_closed;
      awake = λ h. unfold append_packet in refl;
    }

-- The branches of a write, as the ring and as the queue take them.
data Branch (b : PacketBuffer) (q : Queue) (p : Bytes) : Type 0 where
  refuses : (r : WriteResult) → write b p ≡ (b, r) → Queue.write q p ≡ (q, r) → Branch b q p
  overflows :
      write b p ≡ (record b { observed = observe b.observed p }, full)
      → Queue.write q p ≡ (q, full)
      → Branch b q p
  stores :
      0 < length p
      → length p ≤ 65535
      → b.used + length p + 2 ≤ receive_buffer_bytes
      → write b p ≡ (
        append_packet
            (make_room (record b { observed = observe b.observed p }) (b.used + length p + 2))
            p,
        wrote (length p),
      )
      → Queue.write q p ≡ (record q { packets = q.packets ++ (p ∷ []) }, wrote (length p))
      → Branch b q p

write-Branch : (b : PacketBuffer) (q : Queue) (p : Bytes) → Models b q → Branch b q p
unfolding write Queue.write
write-Branch b q p m =
    let space = used-weight b q m in
    elim (Bool-cases b.closed) [
      | inl over ↦ refuses closed_pipe (ground arith) (ground arith)
      | inr opened ↦ elim (Bool-cases (length p == 0)) [
        | inl nothing ↦ refuses (wrote 0) (ground arith) (ground arith)
        | inr some_bytes ↦ elim (Bool-cases (ltb 65535 (length p))) [
          | inl long ↦ refuses short_buffer (ground arith) (ground arith)
          | inr short ↦ elim (Bool-cases (ltb receive_buffer_bytes (b.used + length p + 2))) [
            | inl crowded ↦ overflows (ground arith) (ground (arith, space))
            | inr room ↦
                stores (ground arith) (ground arith) (ground arith) (ground arith)
                  (ground (arith, space))
          ]
        ]
      ]
    ]

-- `Write` gives the result of the queue's write, on every branch, and leaves the buffer holding the
-- queue that it leaves.
pub write_refines :
    (b : PacketBuffer) (q : Queue) (p : Bytes)
    → Models b q
    → let (b', r) = write b p in let (q', r') = Queue.write q p in (r ≡ r') × Models b' q'
write_refines b q p m = elim (write-Branch b q p m) [
  | refuses r e e' ↦ rw (e, e') (refl, m)
  | overflows e e' ↦ rw (e, e') (refl, same_bytes b q (observe b.observed p) m)
  | stores h k l e e' ↦
      rw (e, e')
        (
          refl,
          store-Models (record b { observed = observe b.observed p }) q p h k l
              (same_bytes b q (observe b.observed p) m),
        )
]

read_nonempty :
    (b : PacketBuffer) (closed : Bool) (ps : List Bytes) (p : Bytes) (room : ℕ)
    → Models b (record { packets = p ∷ ps; closed = closed })
    → let (b', out, cut) = read_packet b room in
      (0 < b.used)
      × (got out cut ≡ got (take room p) (ltb room (length p)))
      × Models b' (record { packets = ps; closed = closed })
read_nonempty b closed ps p room m =
    let (out, cut, rest, valid, shut, awake) =
      read_packet-takes b p (frames ps) m.valid m.holds room m.small.1 in
    (
      omega (arith, used-weight b _ m),
      ap₂ got out cut,
      record {
        valid = valid;
        holds = rest;
        small = m.small.2;
        same_closed = shut ∙ m.same_closed;
        awake = awake;
      },
    )

if_same {ℓ κ} :
    {A : Type ℓ} (P : A → Type κ) (c d : Bool) (x y : A)
    → c ≡ d
    → P (if d then x else y)
    → P (if c then x else y)
if_same P c d x y e h = rw e h

empty_agrees :
    (b : PacketBuffer) (closed : Bool)
    → Models b (record { packets = []; closed = closed })
    → let x : PacketBuffer × ReadResult = if closed then (b, eof) else (b, would_block) in
      (x.1 ≡ (if closed then eof else would_block))
      × Models x.0 (record { packets = []; closed = closed })
empty_agrees b true m = (refl, m)
empty_agrees b false m = (refl, m)

-- The two reads side by side, where the branch of each is known.
read_agrees :
    (b : PacketBuffer) (closed : Bool) (ps : List Bytes) (expired : Bool) (room : ℕ)
    → Models b (record { packets = ps; closed = closed })
    → let (b', r) = read b expired room in
      let (q', r') = Queue.read (record { packets = ps; closed = closed }) expired room in
      (r ≡ r') × Models b' q'
unfolding read Queue.read Queue.take_packet
read_agrees b closed ps true room m = (refl, m)
read_agrees b closed [] false room m =
    let none_left = used-weight b (record { packets = []; closed = closed }) m in
    let test : ltb 0 b.used ≡ false = ground (arith, none_left) in
    let agrees = λ (x : PacketBuffer × ReadResult).
      (x.1 ≡ (if closed then eof else would_block))
      × Models x.0 (record { packets = []; closed = closed }) in
    if_same agrees (ltb 0 b.used) false _ _ test (
      if_same agrees b.closed closed (b, eof) (b, would_block) m.same_closed
        (empty_agrees b closed m))
read_agrees b closed (p ∷ ps) false room m =
    let (some_left, out, after) = read_nonempty b closed ps p room m in
    let test : ltb 0 b.used ≡ true = ground (arith, some_left) in
    if_same
      (λ (x : PacketBuffer × ReadResult).
        (x.1 ≡ got (take room p) (ltb room (length p)))
        × Models x.0 (record { packets = ps; closed = closed }))
      (ltb 0 b.used) true _ _ test (out, after)

-- `Read` gives the result of the queue's read: the oldest datagram, cut to the room, or the error,
-- or that it waits. It waits only where the queue is empty and open.
pub read_refines :
    (b : PacketBuffer) (q : Queue) (expired : Bool) (room : ℕ)
    → Models b q
    → let (b', r) = read b expired room in
      let (q', r') = Queue.read q expired room in (r ≡ r') × Models b' q'
read_refines b q expired room m = read_agrees b q.closed q.packets expired room m

close_refines : (b : PacketBuffer) (q : Queue) → Models b q → Models (close b) (Queue.close q)
unfolding close Queue.close
close_refines b q m = record {
  valid = omega (arith, m.valid);
  holds = m.holds;
  small = m.small;
  same_closed = refl;
  awake = m.awake;
}

-- What a client of the buffer can do, and what it sees.
pub data Op : Type 0 where
  put : Bytes → Op
  get : Bool → ℕ → Op
  shut : Op

pub data Reply : Type 0 where
  put_reply : WriteResult → Reply
  get_reply : ReadResult → Reply
  shut_reply : Reply

unfoldable pub run : PacketBuffer → List Op → List Reply
run b [] = []
run b (put p ∷ ops) = let (b', r) = write b p in put_reply r ∷ run b' ops
run b (get expired room ∷ ops) = let (b', r) = read b expired room in get_reply r ∷ run b' ops
run b (shut ∷ ops) = shut_reply ∷ run (close b) ops

unfoldable pub run_queue : Queue → List Op → List Reply
run_queue q [] = []
run_queue q (put p ∷ ops) = let (q', r) = Queue.write q p in put_reply r ∷ run_queue q' ops
run_queue q (get expired room ∷ ops) =
    let (q', r) = Queue.read q expired room in get_reply r ∷ run_queue q' ops
run_queue q (shut ∷ ops) = shut_reply ∷ run_queue (Queue.close q) ops

-- No sequence of writes, reads and closes tells a buffer from the bounded queue that it models, in
-- any reply: datagrams come out whole, once, in order, and never across a boundary.
pub run_refines :
    (ops : List Op) (b : PacketBuffer) (q : Queue) → Models b q → run b ops ≡ run_queue q ops
unfolding run run_queue
run_refines [] b q m = refl
run_refines (put p ∷ ops) b q m =
    let (r, m') = write_refines b q p m in
    ap₂ ◌∷◌ (ap put_reply r) (run_refines ops (write b p).0 (Queue.write q p).0 m')
run_refines (get expired room ∷ ops) b q m =
    let (r, m') = read_refines b q expired room m in
    ap₂ ◌∷◌ (ap get_reply r)
      (run_refines ops (read b expired room).0 (Queue.read q expired room).0 m')
run_refines (shut ∷ ops) b q m =
    ap (◌∷◌ shut_reply) (run_refines ops (close b) (Queue.close q) (close_refines b q m))
