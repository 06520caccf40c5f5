-- ===== src/Recovery/Streams.antt =====
-- The streams that internal/ingest/recovery.go follows, and how it forgets them.
pub mod Limit
use waga_strim.Base.{
  ℕ, Bool, true, false, not, ◌&&◌, ◌||◌, Option, none, some, List, [], ◌∷◌, leb, if◌then◌else◌,
  length,
}
use waga_strim.Base.Int.{ℤ, pos, ◌-ℤ◌, ltb_ℤ, eqb_ℤ}
use waga_strim.Base.Maps.{Table, find, put, remove}
use waga_strim.Recovery.{StreamId, Stream, stream_limit, stream_key}

abbrev pub Streams : Type 0
Streams = Table StreamId Stream

-- The loop of `trimOldestStreamLocked`, from the oldest so far; the zero instant is 0.
unfoldable pub oldest_from : Streams → StreamId → ℤ → StreamId
oldest_from [] oldest_id oldest = oldest_id
oldest_from ((id, stream) ∷ t) oldest_id oldest =
    let taken = oldest_from t id stream.last_touched in
    let kept = oldest_from t oldest_id oldest in
    if eqb_ℤ oldest (pos 0) || ltb_ℤ stream.last_touched oldest then taken else kept

-- `trimOldestStreamLocked`
unfoldable pub trim_oldest : Streams → Streams
trim_oldest t = remove (oldest_from t (record { remote = ""; ssrc = 0 }) (pos 0)) t

abbrev pub fresh_stream : ℤ → Stream
fresh_stream now = record {
  highest = 0;
  based = false;
  enabled = false;
  missing = [];
  last_touched = now;
}

abbrev pub with_room : Streams → Streams
with_room t = if leb stream_limit (length t) then trim_oldest t else t

-- `streamLocked` once the stream is looked up: the streams after the call, and the one it returns.
unfoldable pub stream_found : Streams → StreamId → ℤ → Option Stream → Streams × Stream
stream_found t id now none = (put id (fresh_stream now) (with_room t), fresh_stream now)
stream_found t id now (some stream) = (t, stream)

unfoldable pub stream_for : Streams → StreamId → ℤ → Streams × Stream
stream_for t id now = stream_found t id now (find id t)

-- `trimStreamsLocked`
unfoldable pub trim_streams : Streams → ℤ → Streams
trim_streams [] now = []
trim_streams ((id, stream) ∷ t) now =
    let rest = trim_streams t now in
    if ltb_ℤ (pos 30_000_000_000) (now -ℤ stream.last_touched) then rest else (id, stream) ∷ rest
