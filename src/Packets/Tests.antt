-- ===== src/Packets/Tests.antt =====
-- A run of internal/ingest/packet_buffer.go, and its theorems at concrete buffers.
use waga_strim.Base.{◌≡◌, refl, true, false, none, List, [], ◌∷◌, arith}
use waga_strim.Packets.{
  PacketBuffer, new_packet_buffer, write, read, wrote, got, eof, would_block, read_packet,
}
use waga_strim.Packets.Queue
use waga_strim.Packets.Queue.{Queue}
use waga_strim.Packets.Ring.{window}
use waga_strim.Packets.Refine.{
  Models, new-Models, write_refines, read_refines, Op, put, get, shut, put_reply, get_reply,
  shut_reply, run, run_queue, run_refines,
}

abbrev fresh : PacketBuffer
fresh = new_packet_buffer none

abbrev empty_queue : Queue
empty_queue = record { packets = []; closed = false }

-- One frame of two bytes, wrapped round the end of a ring of seven bytes.
abbrev wrapped : PacketBuffer
wrapped = record {
  bytes = 2 ∷ 7 ∷ 8 ∷ 0 ∷ 0 ∷ 0 ∷ 0 ∷ [];
  head = 6;
  used = 4;
  closed = false;
  wake = true;
  observed = none;
}

abbrev wrapped_queue : Queue
wrapped_queue = record { packets = (7 ∷ 8 ∷ []) ∷ []; closed = false }

wrapped-Models : Models wrapped wrapped_queue
unfolding window
wrapped-Models = record {
  valid = omega arith;
  holds = refl;
  small = omega arith;
  same_closed = refl;
  awake = λ h. refl;
}

abbrev script : List Op
script =
    put (1 ∷ 2 ∷ [])
    ∷ get false 1
    ∷ get false 9
    ∷ put (5 ∷ [])
    ∷ shut
    ∷ get false 9
    ∷ get false 9
    ∷ []

-- The second datagram goes round the end; reads of the ring itself.
wrapped_reads :
    run wrapped (get false 9 ∷ get false 9 ∷ [])
    ≡ get_reply (got (7 ∷ 8 ∷ []) false) ∷ get_reply would_block ∷ []
unfolding run read read_packet
wrapped_reads = refl

queue_script :
    run_queue empty_queue script
    ≡ put_reply (wrote 2)
      ∷ get_reply (got (1 ∷ []) true)
      ∷ get_reply would_block
      ∷ put_reply (wrote 1)
      ∷ shut_reply
      ∷ get_reply (got (5 ∷ []) false)
      ∷ get_reply eof
      ∷ []
unfolding run_queue Queue.write Queue.read Queue.take_packet Queue.close
queue_script = refl

run_refines_example : run fresh script ≡ run_queue empty_queue script
run_refines_example = run_refines script fresh empty_queue (new-Models none)

write_refines_example :
    let (b', r) = write wrapped (9 ∷ []) in
    let (q', r') = Queue.write wrapped_queue (9 ∷ []) in (r ≡ r') × Models b' q'
write_refines_example = write_refines wrapped wrapped_queue (9 ∷ []) wrapped-Models

read_refines_example :
    let (b', r) = read wrapped false 1 in
    let (q', r') = Queue.read wrapped_queue false 1 in (r ≡ r') × Models b' q'
read_refines_example = read_refines wrapped wrapped_queue false 1 wrapped-Models
