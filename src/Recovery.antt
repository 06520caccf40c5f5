-- ===== src/Recovery.antt =====
-- internal/ingest/recovery.go: forward error correction and retransmission requests under an
-- ingest's media socket. These are its types; the children hold the operations.
pub mod Store
pub mod Repair
pub mod Wire
pub mod Groups
pub mod Gaps
pub mod Binding
pub mod Streams
mod Tests
use text.Mathlib.Text
use text.Mathlib.TextEquality.{eq_iff}
use Prim.Native.String.{String}
use waga_strim.Base.{
  ℕ, Bool, true, false, ◌&&◌, ◌≡◌, refl, sym, ap, ◌↔◌, Option, List, [], arith, ==_iff, ◌==◌,
}
use waga_strim.Base.Int.{ℤ}
use waga_strim.Base.Maps.{Key, Table}

abbrev pub Bytes : Type 0
Bytes = List ℕ

abbrev pub header_size : ℕ
header_size = 12

abbrev pub history_size : ℕ
history_size = 4096

abbrev pub group_limit : ℕ
group_limit = 256

abbrev pub stream_limit : ℕ
stream_limit = 256

abbrev pub request_size : ℕ
request_size = 32

-- `recoveryRetry`, in nanoseconds.
abbrev pub retry : ℕ
retry = 50_000_000

-- `remote` is the authenticated identity that stands for an address, or the address's text.
pub record PacketId : Type 0 where
  pub remote : String
  pub ssrc : ℕ
  pub sequence_number : ℕ

pub record StreamId : Type 0 where
  pub remote : String
  pub ssrc : ℕ

pub record GroupId : Type 0 where
  pub remote : String
  pub ssrc : ℕ
  pub last : ℕ

-- `addr` is the text of the `net.Addr`, `bytes` is `data`; the source never makes a datagram without one that it sends.
pub record Datagram : Type 0 where
  pub bytes : Bytes
  pub addr : String
  pub identity : String

-- `missing` maps a sequence number to when it was last asked for.
pub record Stream : Type 0 where
  pub highest : ℕ
  pub based : Bool
  pub enabled : Bool
  pub missing : Table ℕ (Option ℤ)
  pub last_touched : ℤ

pub record Entry : Type 0 where
  pub id : PacketId
  pub length : ℕ

-- `remote` is the text of the address that sent the parity.
pub record Group : Type 0 where
  pub entries : List Entry
  pub parity : Bytes
  pub remote : String

-- One connection with the state that it shares (`recoveryConn` and `recoveryState`): the fields that
-- the history, the groups and the gaps use.
pub record State : Type 0 where
  pub packets : Table PacketId Bytes
  pub packet_order : List PacketId
  pub packet_head : ℕ
  pub streams : Table StreamId Stream
  pub groups : Table GroupId Group
  pub group_order : List GroupId
  pub group_head : ℕ
  pub ready : List Datagram

-- `newRecoveryState`
abbrev pub new_state : State
new_state = record {
  packets = [];
  packet_order = [];
  packet_head = 0;
  streams = [];
  groups = [];
  group_order = [];
  group_head = 0;
  ready = [];
}

abbrev pub same_packet : PacketId → PacketId → Bool
same_packet a b =
    Text.◌==◌ a.remote b.remote && ((a.ssrc == b.ssrc) && (a.sequence_number == b.sequence_number))

abbrev pub same_stream : StreamId → StreamId → Bool
same_stream a b = Text.◌==◌ a.remote b.remote && (a.ssrc == b.ssrc)

abbrev pub same_group : GroupId → GroupId → Bool
same_group a b = Text.◌==◌ a.remote b.remote && ((a.ssrc == b.ssrc) && (a.last == b.last))

and_iff : (a b : Bool) → ((a && b) ≡ true) ↔ ((a ≡ true) × (b ≡ true))
and_iff a b = ground arith

packet_eta :
    (a b : PacketId)
    → a.remote ≡ b.remote
    → a.ssrc ≡ b.ssrc
    → a.sequence_number ≡ b.sequence_number
    → a ≡ b
packet_eta a b p q r = λ i. record { remote = p i; ssrc = q i; sequence_number = r i }

pub same_packet_iff : (a b : PacketId) → (same_packet a b ≡ true) ↔ (a ≡ b)
same_packet_iff a b = (
  λ h.
      let (p, h') = (and_iff _ _).0 h in
      let (q, r) = (and_iff _ _).0 h' in
      packet_eta a b ((eq_iff a.remote b.remote).0 p) ((==_iff _ _).0 q) ((==_iff _ _).0 r),
  λ h. (and_iff _ _).1 (
    (eq_iff a.remote b.remote).1 (ap (λ k. k.remote) h),
    (and_iff _ _).1 (
      (==_iff a.ssrc b.ssrc).1 (ap (λ k. k.ssrc) h),
      (==_iff a.sequence_number b.sequence_number).1 (ap (λ k. k.sequence_number) h),
    ),
  ),
)

pub same_stream_iff : (a b : StreamId) → (same_stream a b ≡ true) ↔ (a ≡ b)
same_stream_iff a b = (
  λ h.
      let (p, q) = (and_iff _ _).0 h in
      λ i. record {
        remote = (eq_iff a.remote b.remote).0 p i;
        ssrc = (==_iff a.ssrc b.ssrc).0 q i;
      },
  λ h. (and_iff _ _).1 (
    (eq_iff a.remote b.remote).1 (ap (λ k. k.remote) h),
    (==_iff a.ssrc b.ssrc).1 (ap (λ k. k.ssrc) h),
  ),
)

pub same_group_iff : (a b : GroupId) → (same_group a b ≡ true) ↔ (a ≡ b)
same_group_iff a b = (
  λ h.
      let (p, h') = (and_iff _ _).0 h in
      let (q, r) = (and_iff _ _).0 h' in
      λ i. record {
        remote = (eq_iff a.remote b.remote).0 p i;
        ssrc = (==_iff a.ssrc b.ssrc).0 q i;
        last = (==_iff a.last b.last).0 r i;
      },
  λ h. (and_iff _ _).1 (
    (eq_iff a.remote b.remote).1 (ap (λ k. k.remote) h),
    (and_iff _ _).1 (
      (==_iff a.ssrc b.ssrc).1 (ap (λ k. k.ssrc) h),
      (==_iff a.last b.last).1 (ap (λ k. k.last) h),
    ),
  ),
)

instance unfoldable pub packet_key : Key PacketId
packet_key = record { same = same_packet; same_iff = same_packet_iff }

instance unfoldable pub stream_key : Key StreamId
stream_key = record { same = same_stream; same_iff = same_stream_iff }

instance unfoldable pub group_key : Key GroupId
group_key = record { same = same_group; same_iff = same_group_iff }

instance unfoldable pub number_key : Key ℕ
number_key = record { same = ◌==◌; same_iff = ==_iff }
