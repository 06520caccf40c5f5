-- ===== src/Recovery/Streams/Limit.antt =====
-- The number of streams of internal/ingest/recovery.go, and their trims.
use waga_strim.Base.{
  ◌+◌, ◌≤◌, ◌<◌, ◌≡◌, refl, sym, ap, ◌∙◌, subst, inl, inr, ◌⊎◌, Bool, true, false, ◌||◌, Option,
  none, some, [], ◌∷◌, leb, if◌then◌else◌, length, arith, Bool-cases,
}
use waga_strim.Base.Int.{ℤ, pos, ◌-ℤ◌, ltb_ℤ, eqb_ℤ}
use waga_strim.Base.Maps.{
  length-remove-has, length-put, find, has, same_self, find-put, IsTable, has-find,
}
use waga_strim.Recovery.{StreamId, Stream, stream_limit, stream_key}
use waga_strim.Recovery.Streams.{
  Streams, oldest_from, trim_oldest, fresh_stream, with_room, stream_found, stream_for,
  trim_streams,
}

has_here : (id : StreamId) (s : Stream) (t : Streams) → has id ((id, s) ∷ t) ≡ true
has_here id s t = simp (same_self id) refl

has_there :
    (j id : StreamId) (s : Stream) (t : Streams) → has j t ≡ true → has j ((id, s) ∷ t) ≡ true
has_there j id s t h = ground arith

either {ℓ κ} :
    {A : Type ℓ} (P : A → Type κ) (b : Bool) (x y : A) → P x → P y → P (if b then x else y)
either P true x y p q = p
either P false x y p q = q

-- The oldest is one of the streams, or the one that the search began with.
oldest_from-has :
    (t : Streams) (id : StreamId) (oldest : ℤ)
    → (has (oldest_from t id oldest) t ≡ true) ⊎ (oldest_from t id oldest ≡ id)
unfolding oldest_from
oldest_from-has [] id oldest = inr refl
oldest_from-has ((j, s) ∷ t) id oldest =
    let test = eqb_ℤ oldest (pos 0) || ltb_ℤ s.last_touched oldest in
    let taken = oldest_from t j s.last_touched in
    let kept = oldest_from t id oldest in
    let meets = λ (k : StreamId). (has k ((j, s) ∷ t) ≡ true) ⊎ (k ≡ id) in
    let from_taken : meets taken = elim (oldest_from-has t j s.last_touched) [
      | inl found ↦ inl (has_there taken j s t found)
      | inr same ↦ inl (subst (λ k. has k ((j, s) ∷ t) ≡ true) (sym same) (has_here j s t))
    ] in
    let from_kept : meets kept = elim (oldest_from-has t id oldest) [
      | inl found ↦ inl (has_there kept j s t found)
      | inr same ↦ inr same
    ] in
    either meets test taken kept from_taken from_kept

-- Among streams there is an oldest one.
oldest-has : (t : Streams) (id : StreamId) → 0 < length t → has (oldest_from t id (pos 0)) t ≡ true
unfolding oldest_from
oldest-has [] id h = absurd (omega arith)
oldest-has ((j, s) ∷ t) id h = elim (oldest_from-has t j s.last_touched) [
  | inl found ↦ has_there _ j s t found
  | inr same ↦ subst (λ k. has k ((j, s) ∷ t) ≡ true) (sym same) (has_here j s t)
]

with_room-below : (t : Streams) → length t ≤ stream_limit → length (with_room t) + 1 ≤ stream_limit
unfolding trim_oldest
with_room-below t h = elim (Bool-cases (leb stream_limit (length t))) [
  | inl full ↦
      let some_streams : 0 < length t = ground arith in
      let removed =
        length-remove-has _ t (oldest-has t (record { remote = ""; ssrc = 0 }) some_streams) in
      simp full (omega arith)
  | inr room ↦ simp room (ground arith)
]

found-limit :
    (t : Streams) (id : StreamId) (now : ℤ) (found : Option Stream)
    → length t ≤ 256
    → find id t ≡ found
    → let (t', stream) = stream_found t id now found in
      (length t' ≤ 256)
      × (find id t' ≡ some stream)
      × ((found ≡ some stream) ⊎ (stream ≡ fresh_stream now))
unfolding stream_found
found-limit t id now none h e = (
  omega (arith, length-put id (fresh_stream now) (with_room t), with_room-below t h),
  find-put id id (fresh_stream now) (with_room t) ∙ simp (same_self id) refl,
  inr refl,
)
found-limit t id now (some stream) h e = (h, e, inl refl)

-- Asking for a stream keeps the number of streams at 256 or below. The stream returned is the one that
-- is kept for the id: the old one, untouched, or a new one.
pub stream_limit_holds :
    (t : Streams) (id : StreamId) (now : ℤ)
    → length t ≤ 256
    → let (t', stream) = stream_for t id now in
      (length t' ≤ 256)
      × (find id t' ≡ some stream)
      × ((find id t ≡ some stream) ⊎ (stream ≡ fresh_stream now))
unfolding stream_for
stream_limit_holds t id now h = found-limit t id now (find id t) h refl

-- What is left of a stream that was found: one that was touched within 30 s.
abbrev pub recent : ℤ → Option Stream → Option Stream
recent now none = none
recent now (some s) = if ltb_ℤ (pos 30_000_000_000) (now -ℤ s.last_touched) then none else some s

-- The trim forgets the streams that nothing has touched for more than 30 s, and leaves the others as
-- they were, for the streams as a map.
pub trim_keeps_recent :
    (t : Streams) (id : StreamId) (now : ℤ)
    → IsTable t
    → find id (trim_streams t now) ≡ recent now (find id t)
unfolding trim_streams
trim_keeps_recent [] id now u = refl
trim_keeps_recent ((j, s) ∷ t) id now (new, u) =
    let rest = trim_keeps_recent t id now u in
    let old = ltb_ℤ (pos 30_000_000_000) (now -ℤ s.last_touched) in
    elim (Bool-cases (stream_key.same id j)) [
      | inl e ↦
          let same : id ≡ j = (stream_key.same_iff id j).0 e in
          let gone : find id t ≡ none =
            has-find id t (subst (λ k. has k t ≡ false) (sym same) new) in
          elim (Bool-cases old) [
            | inl stale ↦ simp (stale, e) (rest ∙ ap (recent now) gone)
            | inr young ↦ simp (young, e) refl
          ]
      | inr n ↦ elim (Bool-cases old) [
        | inl stale ↦ simp (stale, n) rest
        | inr young ↦ simp (young, n) rest
      ]
    ]
