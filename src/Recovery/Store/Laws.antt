-- ===== src/Recovery/Store/Laws.antt =====
-- The packet history of internal/ingest/recovery.go after `storePacketLocked`.
use waga_strim.Base.{
  ℕ, zero, suc, ◌+◌, ◌-◌, ◌≤◌, ◌<◌, ◌≡◌, refl, sym, ap, ◌∙◌, subst, inl, inr, true, false, some,
  List, [], ◌∷◌, ◌++◌, arith, ltb, leb, lt→ltb, ltb→lt, length, get_elem?, drop, Bool-cases,
  length-append,
}
use waga_strim.Base.Maps.{
  Table, keys, remove, has, IsTable, put-new, remove-absent, has-append, keys-append,
  append-IsTable, same_self, same_ne,
}
use waga_strim.Recovery.{Bytes, PacketId, State, history_size, packet_key}
use waga_strim.Recovery.Store.{evict, compact, remembered, store_packet}

-- The order, from its head on, lists the packets held, each once, the oldest first.
pub record IsHistory (s : State) : Type 0 where
  pub distinct : IsTable s.packets
  pub ordered : keys s.packets ≡ drop s.packet_head s.packet_order
  pub bounded : length s.packets ≤ history_size
  pub inside : s.packet_head ≤ length s.packet_order
  pub cut : s.packet_head < history_size

module _ {ℓ} {A : Type ℓ} where
  drop_next :
      (n : ℕ) (xs : List A) (y : A) (ys : List A)
      → y ∷ ys ≡ drop n xs
      → (get_elem? xs n ≡ some y) × (drop (suc n) xs ≡ ys) × (n < length xs)
  drop_next zero [] y ys h = absurd (ground arith)
  drop_next (suc n) [] y ys h = absurd (ground arith)
  drop_next zero (x ∷ xs) y ys h = (cc, cc, omega arith)
  drop_next (suc n) (x ∷ xs) y ys h = let (p, q, r) = drop_next n xs y ys h in (p, q, omega arith)

  drop-append : (n : ℕ) (xs ys : List A) → n ≤ length xs → drop n (xs ++ ys) ≡ drop n xs ++ ys
  drop-append zero xs ys h = refl
  drop-append (suc n) [] ys h = absurd (omega arith)
  drop-append (suc n) (x ∷ xs) ys h = drop-append n xs ys (omega arith)

evict_step :
    (n : ℕ) (s : State) (k : PacketId)
    → history_size < length s.packets
    → get_elem? s.packet_order s.packet_head ≡ some k
    → evict (suc n) s
      ≡ evict n (record s { packets = remove k s.packets; packet_head = suc s.packet_head })
unfolding evict
evict_step n s k h e = simp (e, lt→ltb _ _ h) refl

evict_done : (n : ℕ) (s : State) → length s.packets ≤ history_size → evict n s ≡ s
unfolding evict
evict_done zero s h = refl
evict_done (suc n) s h = ground arith

-- `compact` drops what lies before the head, and nothing else.
compact-IsHistory :
    (s : State)
    → IsTable s.packets
    → keys s.packets ≡ drop s.packet_head s.packet_order
    → length s.packets ≤ history_size
    → s.packet_head ≤ length s.packet_order
    → IsHistory (compact s) × ((compact s).packets ≡ s.packets)
unfolding compact
compact-IsHistory s u o b i = elim (Bool-cases (leb history_size s.packet_head)) [
  | inl y ↦ simp y (
    record { distinct = u; ordered = o; bounded = b; inside = omega arith; cut = omega arith },
    refl,
  )
  | inr y ↦
      simp y
        (record { distinct = u; ordered = o; bounded = b; inside = i; cut = ground arith }, refl)
]

-- A packet whose id the history does not have.
module _ (s : State) (id : PacketId) (bytes : Bytes) (v : IsHistory s)
    (new : has id s.packets ≡ false) where
  abbrev after : State
  after = remembered s id bytes

  after-packets : after.packets ≡ s.packets ++ ((id, bytes) ∷ [])
  unfolding remembered
  after-packets = put-new id bytes s.packets new

  after-ordered : keys after.packets ≡ drop after.packet_head after.packet_order
  unfolding remembered
  after-ordered =
      ap keys after-packets
      ∙ keys-append s.packets id bytes
      ∙ ap (λ l. l ++ (id ∷ [])) v.ordered
      ∙ sym (drop-append s.packet_head s.packet_order (id ∷ []) v.inside)

  after-length : length after.packets ≡ length s.packets + 1
  after-length = ap length after-packets ∙ length-append s.packets ((id, bytes) ∷ [])

  after-inside : after.packet_head ≤ length after.packet_order
  unfolding remembered
  after-inside = omega (arith, v.inside, length-append s.packet_order (id ∷ []))

  store-new : store_packet s id bytes ≡ compact (evict (length after.packets) after)
  unfolding store_packet
  store-new = simp new refl

  -- With room left, the history grows by the packet.
  store-room :
      length s.packets < history_size
      → IsHistory (store_packet s id bytes)
        × ((store_packet s id bytes).packets ≡ s.packets ++ ((id, bytes) ∷ []))
  store-room room =
      let done = evict_done (length after.packets) after (omega (arith, after-length)) in
      let u =
        subst IsTable (sym after-packets) (append-IsTable s.packets id bytes new v.distinct) in
      let (valid, same) =
        compact-IsHistory after u after-ordered (omega (arith, after-length)) after-inside in
      rw (store-new, done) (valid, same ∙ after-packets)

  -- A full history loses its oldest packet.
  module _ (k : PacketId) (old : Bytes) (t : Table PacketId Bytes)
      (oldest : s.packets ≡ (k, old) ∷ t) where
    abbrev left : Table PacketId Bytes
    left = t ++ ((id, bytes) ∷ [])

    rest_distinct : (has k t ≡ false) × IsTable t
    rest_distinct = subst IsTable oldest v.distinct

    others : has k left ≡ false
    others =
        let here : has k ((k, old) ∷ t) ≡ true = simp (same_self k) refl in
        let new' : has id ((k, old) ∷ t) ≡ false = subst (λ l. has id l ≡ false) oldest new in
        has-append k id bytes t rest_distinct.0
          (same_ne k id (λ e. let here' = subst (λ j. has j ((k, old) ∷ t) ≡ true) e here in cc))

    removed : remove k after.packets ≡ left
    removed = rw (after-packets, oldest) (simp (same_self k) (remove-absent k left others))

    next_order :
        (get_elem? after.packet_order after.packet_head ≡ some k)
        × (drop (suc after.packet_head) after.packet_order ≡ keys left)
        × (after.packet_head < length after.packet_order)
    next_order =
        drop_next after.packet_head after.packet_order k (keys left)
          (ap keys (sym (after-packets ∙ ap (λ l. l ++ ((id, bytes) ∷ [])) oldest)) ∙ after-ordered)

    abbrev evicted : State
    evicted = record after { packets = left; packet_head = suc after.packet_head }

    evict-oldest : length s.packets ≡ history_size → evict (length after.packets) after ≡ evicted
    evict-oldest full =
        let count : length after.packets ≡ suc (length s.packets) = omega (arith, after-length) in
        let small : length left ≤ history_size =
          omega (arith, full, ap length oldest, length-append t ((id, bytes) ∷ [])) in
        let step = evict_step (length s.packets) after k (omega (arith, full)) next_order.0 in
        ap (λ n. evict n after) count
        ∙ step
        ∙ ap
            (λ p.
              evict (length s.packets)
                (record after { packets = p; packet_head = suc after.packet_head }))
            removed
        ∙ evict_done (length s.packets) evicted small

    left-distinct : IsTable left
    left-distinct =
        append-IsTable t id bytes (ground (arith, subst (λ l. has id l ≡ false) oldest new))
          rest_distinct.1

    store-full :
        length s.packets ≡ history_size
        → IsHistory (store_packet s id bytes) × ((store_packet s id bytes).packets ≡ left)
    store-full full =
        let small : length left ≤ history_size =
          omega (arith, full, ap length oldest, length-append t ((id, bytes) ∷ [])) in
        rw (store-new, evict-oldest full)
          (compact-IsHistory evicted left-distinct (sym next_order.1) small
            (omega (arith, next_order.2)))

oldest_of :
    (t : Table PacketId Bytes)
    → 0 < length t
    → (k : PacketId) × (old : Bytes) × (rest : Table PacketId Bytes) × (t ≡ (k, old) ∷ rest)
oldest_of [] h = absurd (omega arith)
oldest_of ((k, old) ∷ rest) h = (k, old, rest, refl)

-- A packet with a new id is stored behind the others, and of a history that is full the oldest packet
-- goes: the history holds the latest 4096 packets, and the indexes stay within the order.
pub store_keeps_latest :
    (s : State) (id : PacketId) (bytes : Bytes)
    → IsHistory s
    → has id s.packets ≡ false
    → IsHistory (store_packet s id bytes)
      × ((store_packet s id bytes).packets
          ≡ drop (length s.packets + 1 - history_size) (s.packets ++ ((id, bytes) ∷ [])))
store_keeps_latest s id bytes v new = elim (Bool-cases (ltb (length s.packets) history_size)) [
  | inl room ↦
      let none_cut : length s.packets + 1 - history_size ≡ 0 = ground arith in
      rw none_cut (store-room s id bytes v new (ltb→lt _ _ room))
  | inr crowded ↦
      let full : length s.packets ≡ history_size = ground (arith, v.bounded) in
      let (k, old, t, oldest) = oldest_of s.packets (omega (arith, full)) in
      let one_cut : length s.packets + 1 - history_size ≡ 1 = omega (arith, full) in
      let (valid, same) = store-full s id bytes v new k old t oldest full in
      rw one_cut (valid, same ∙ ap (λ l. drop 1 (l ++ ((id, bytes) ∷ []))) (sym oldest))
]
