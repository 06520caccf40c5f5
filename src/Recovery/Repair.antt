-- ===== src/Recovery/Repair.antt =====
-- The parity of a group of internal/ingest/recovery.go, and what `recoverGroupLocked` makes of it.
use waga_strim.Base.{
  ℕ, zero, suc, ◌≤◌, bit_xor, ◌≡◌, refl, sym, ap, ap₂, ◌∙◌, false, Option, none, some, List, [],
  ◌∷◌, ◌++◌, arith, ==_iff, length, take, replicate,
}
use waga_strim.Base.Xor.{xor_zero, xor_comm, xor_assoc, xor_self}
use waga_strim.Base.Maps.{Table, find, has, has-find, has-true}
use waga_strim.Recovery.{Bytes, PacketId, Entry, Group, State, packet_key}
use waga_strim.Recovery.Store.{missing_of, xor_in, combine, rebuilt, recover_group}

xor_in_comm : (ds p q : Bytes) → xor_in (xor_in ds p) q ≡ xor_in (xor_in ds q) p
unfolding xor_in
xor_in_comm [] p q = refl
xor_in_comm (d ∷ ds) [] [] = refl
xor_in_comm (d ∷ ds) [] (b ∷ q) = refl
xor_in_comm (d ∷ ds) (a ∷ p) [] = refl
xor_in_comm (d ∷ ds) (a ∷ p) (b ∷ q) =
    ap₂ ◌∷◌ (xor_assoc d a b ∙ ap (bit_xor d) (xor_comm a b) ∙ sym (xor_assoc d b a))
      (xor_in_comm ds p q)

length-xor_in : (ds p : Bytes) → length (xor_in ds p) ≡ length ds
unfolding xor_in
length-xor_in [] p = refl
length-xor_in (d ∷ ds) [] = refl
length-xor_in (d ∷ ds) (a ∷ p) = ap suc (length-xor_in ds p)

xor_in_self : (ds p : Bytes) → xor_in (xor_in ds p) p ≡ ds
unfolding xor_in
xor_in_self [] p = refl
xor_in_self (d ∷ ds) [] = refl
xor_in_self (d ∷ ds) (a ∷ p) =
    ap₂ ◌∷◌ (xor_assoc d a a ∙ ap (bit_xor d) (xor_self a) ∙ xor_comm d 0 ∙ xor_zero d)
      (xor_in_self ds p)

xor_in_zeros : (n : ℕ) (p : Bytes) → length p ≤ n → take (length p) (xor_in (replicate n 0) p) ≡ p
unfolding xor_in
xor_in_zeros n [] h = refl
xor_in_zeros zero (a ∷ p) h = absurd (omega arith)
xor_in_zeros (suc n) (a ∷ p) h = ap₂ ◌∷◌ (xor_zero a) (xor_in_zeros n p (omega arith))

-- The exclusive or of a list of packets into `ds`.
abbrev pub xor_all : Bytes → List Bytes → Bytes
xor_all ds [] = ds
xor_all ds (p ∷ ps) = xor_all (xor_in ds p) ps

-- The parity that a sender makes: packets, each filled up with zeros to `n` bytes, in exclusive or.
abbrev pub parity_of : ℕ → List Bytes → Bytes
parity_of n ps = xor_all (replicate n 0) ps

xor_all_in : (ds p : Bytes) (ps : List Bytes) → xor_all (xor_in ds p) ps ≡ xor_in (xor_all ds ps) p
xor_all_in ds p [] = refl
xor_all_in ds p (q ∷ ps) =
    ap (λ x. xor_all x ps) (xor_in_comm ds p q) ∙ xor_all_in (xor_in ds q) p ps

xor_all_append :
    (ds : Bytes) (ps qs : List Bytes) → xor_all ds (ps ++ qs) ≡ xor_all (xor_all ds ps) qs
xor_all_append ds [] qs = refl
xor_all_append ds (p ∷ ps) qs = xor_all_append (xor_in ds p) ps qs

xor_all_self : (ds : Bytes) (ps : List Bytes) → xor_all (xor_all ds ps) ps ≡ ds
xor_all_self ds [] = refl
xor_all_self ds (p ∷ ps) =
    ap (λ x. xor_all (xor_in x p) ps) (xor_all_in ds p ps)
    ∙ ap (λ x. xor_all x ps) (xor_in_self (xor_all ds ps) p)
    ∙ xor_all_self ds ps

-- An entry with the packet that it describes.
abbrev pub Sent : Type 0
Sent = Entry × Bytes

abbrev pub entries_of : List Sent → List Entry
entries_of [] = []
entries_of ((e, p) ∷ l) = e ∷ entries_of l

abbrev pub packets_of : List Sent → List Bytes
packets_of [] = []
packets_of ((e, p) ∷ l) = p ∷ packets_of l

-- The history has these packets, with the lengths of their entries.
abbrev pub AllHeld : Table PacketId Bytes → List Sent → Type 0
AllHeld t [] = Unit {0}
AllHeld t ((e, p) ∷ l) = (find e.id t ≡ some p) × (length p ≡ e.length) × AllHeld t l

module _ (t : Table PacketId Bytes) where
  missing-held :
      (l : List Sent) (es : List Entry)
      → AllHeld t l
      → missing_of t (entries_of l ++ es) ≡ missing_of t es
  unfolding missing_of
  missing-held [] es h = refl
  missing-held ((e, p) ∷ l) es (f, _, h) = simp (has-true e.id p t f) (missing-held l es h)

  combine-some :
      (e : Entry) (p : Bytes) (es : List Entry) (ds : Bytes) (w : Option Entry)
      → find e.id t ≡ some p
      → length p ≡ e.length
      → combine t (e ∷ es) ds w ≡ combine t es (xor_in ds p) w
  unfolding combine
  combine-some e p es ds w f n = ground (arith, (==_iff (length p) e.length).1 n)

  combine-none :
      (e : Entry) (es : List Entry) (ds : Bytes) (w : Option Entry)
      → find e.id t ≡ none
      → combine t (e ∷ es) ds w ≡ combine t es ds (some e)
  unfolding combine
  combine-none e es ds w f = ground arith

  combine-held :
      (l : List Sent) (es : List Entry) (ds : Bytes) (w : Option Entry)
      → AllHeld t l
      → combine t (entries_of l ++ es) ds w ≡ combine t es (xor_all ds (packets_of l)) w
  combine-held [] es ds w h = refl
  combine-held ((e, p) ∷ l) es ds w (f, n, h) =
      combine-some e p (entries_of l ++ es) ds w f n ∙ combine-held l es (xor_in ds p) w h

  missing-end : (l : List Sent) → AllHeld t l → missing_of t (entries_of l) ≡ []
  unfolding missing_of
  missing-end [] h = refl
  missing-end ((e, p) ∷ l) (f, _, h) = simp (has-true e.id p t f) (missing-end l h)

  combine-end :
      (l : List Sent) (ds : Bytes) (w : Option Entry)
      → AllHeld t l
      → combine t (entries_of l) ds w ≡ some (xor_all ds (packets_of l), w)
  unfolding combine
  combine-end [] ds w h = refl
  combine-end ((e, p) ∷ l) ds w (f, n, h) =
      combine-some e p (entries_of l) ds w f n ∙ combine-end l (xor_in ds p) w h

xor_all_comm :
    (ds : Bytes) (ps qs : List Bytes) → xor_all (xor_all ds ps) qs ≡ xor_all (xor_all ds qs) ps
xor_all_comm ds [] qs = refl
xor_all_comm ds (p ∷ ps) qs =
    xor_all_comm (xor_in ds p) ps qs ∙ ap (λ x. xor_all x ps) (xor_all_in ds p qs)

-- Packets that go in and come out again leave nothing.
xor_all_twice :
    (ds : Bytes) (ps qs : List Bytes) → xor_all (xor_all (xor_all (xor_all ds ps) qs) ps) qs ≡ ds
xor_all_twice ds ps qs =
    xor_all_comm (xor_all (xor_all ds ps) qs) ps qs
    ∙ ap (λ x. xor_all x ps) (xor_all_self (xor_all ds ps) qs)
    ∙ xor_all_self ds ps

-- What is left of the parity when the packets that arrived are taken out of it.
parity-left :
    (n : ℕ) (p : Bytes) (before after : List Bytes)
    → length p ≤ n
    → take (length p) (xor_all (xor_all (parity_of n (before ++ (p ∷ after))) before) after) ≡ p
parity-left n p before after h =
    let zeros = replicate n 0 in
    let others = xor_all (xor_all zeros before) after in
    let all : xor_all zeros (before ++ (p ∷ after)) ≡ xor_in others p =
      xor_all_append zeros before (p ∷ after) ∙ xor_all_in (xor_all zeros before) p after in
    let moved : xor_all (xor_all (xor_in others p) before) after ≡ xor_in zeros p =
      ap (λ x. xor_all x after) (xor_all_in others p before)
      ∙ xor_all_in (xor_all others before) p after
      ∙ ap (λ x. xor_in x p) (xor_all_twice zeros before after) in
    ap (λ x. take (length p) (xor_all (xor_all x before) after)) all
    ∙ ap (take (length p)) moved
    ∙ xor_in_zeros n p h

-- Where one packet of a group is lost, and the parity is that of the packets as they were sent, the
-- repair delivers the lost packet, byte for byte, under its sender's identity, stores it, and names it
-- as the one that was missing. The history must hold the other packets, each with the length of its
-- entry, and the lost packet's length is that of its entry.
pub recover_lost :
    (s : State) (g : Group) (before after : List Sent) (e : Entry) (p : Bytes) (n : ℕ)
    → g.entries ≡ entries_of before ++ (e ∷ entries_of after)
    → g.parity ≡ parity_of n (packets_of before ++ (p ∷ packets_of after))
    → length p ≤ n
    → length p ≡ e.length
    → AllHeld s.packets before
    → AllHeld s.packets after
    → has e.id s.packets ≡ false
    → recover_group s g ≡ (
      rebuilt s e.id p,
      some (record { bytes = p; addr = g.remote; identity = e.id.remote }),
      e.id.sequence_number ∷ [],
    )
unfolding recover_group
recover_lost s g before after e p n es par fits long hb ha lost =
    let t = s.packets in
    let lacks : missing_of t (e ∷ entries_of after) ≡ e.id.sequence_number ∷ [] =
      unfold missing_of in simp lost (ap (◌∷◌ e.id.sequence_number) (missing-end t after ha)) in
    let missing : missing_of t g.entries ≡ e.id.sequence_number ∷ [] =
      ap (missing_of t) es ∙ missing-held t before (e ∷ entries_of after) hb ∙ lacks in
    let left = xor_all (xor_all g.parity (packets_of before)) (packets_of after) in
    let combined : combine t g.entries g.parity none ≡ some (left, some e) =
      ap (λ l. combine t l g.parity none) es
      ∙ combine-held t before (e ∷ entries_of after) g.parity none hb
      ∙ combine-none t e (entries_of after) _ none (has-find e.id t lost)
      ∙ combine-end t after _ (some e) ha in
    let same : take e.length left ≡ p =
      ap (λ k. take k left) (sym long)
      ∙ ap (λ x. take (length p) (xor_all (xor_all x (packets_of before)) (packets_of after))) par
      ∙ parity-left n p (packets_of before) (packets_of after) fits in
    simp (missing, combined, same) refl
