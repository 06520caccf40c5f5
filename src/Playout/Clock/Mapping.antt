-- ===== src/Playout/Clock/Mapping.antt =====
-- `playoutOf` of internal/relay/delay.go, as a mapping of the sender's clock to instants.
use waga_strim.Base.{ℕ, zero, suc, ◌+◌, ◌-◌, ◌*◌, ◌/◌, ◌%◌, ◌≤◌, ◌<◌, ◌≡◌, ap, arith}
use waga_strim.Base.Int.{
  ℤ, pos, negsuc, pos_part, neg_part, ◌+ℤ◌, ◌-ℤ◌, ◌*ℤ◌, quot, ◌≤ℤ◌, ◌<ℤ◌, *ℤ_parts, one_part,
  int_laws,
}
use waga_strim.Playout.Clock.{playout_of, rtp_delta_lem}

-- The timestamp `ticks` after the anchor, or before it.
abbrev pub stamp : ℕ → ℤ → ℕ
stamp base ticks = (base + pos_part ticks + 4294967296 - neg_part ticks) % 4294967296

div_low : (n m : ℕ) → suc m * (n / suc m) ≤ n
div_low n m = grind arith

div_high : (n m : ℕ) → n < suc m * (n / suc m) + suc m
div_high n m = grind arith

div_mono : (n k m : ℕ) → n ≤ k → n / suc m ≤ k / suc m
div_mono n k m h = grind arith

quot_parts :
    (a : ℤ) (m : ℕ)
    → (pos_part (quot a (pos (suc m))) ≡ pos_part a / suc m)
      × (neg_part (quot a (pos (suc m))) ≡ neg_part a / suc m)
unfolding quot
quot_parts (pos n) m = (ground arith, ground arith)
quot_parts (negsuc n) m = (ground arith, ground arith)

-- A quotient by a positive number is off by less than one.
quot_near :
    (a : ℤ) (m : ℕ)
    → let d = pos (suc m) in let q = quot a d in (d *ℤ q <ℤ a +ℤ d) × (a <ℤ d *ℤ q +ℤ d)
quot_near a m =
    let d = pos (suc m) in
    let q = quot a d in
    let (up, down) = quot_parts a m in
    let up' = ap (λ k. suc m * k) up in
    let down' = ap (λ k. suc m * k) down in
    let p = pos_part a in
    let n = neg_part a in
    (
      omega (
        int_laws,
        *ℤ_parts d q,
        up',
        down',
        div_low p m,
        div_high p m,
        div_low n m,
        div_high n m,
        one_part a,
      ),
      omega (
        int_laws,
        *ℤ_parts d q,
        up',
        down',
        div_low p m,
        div_high p m,
        div_low n m,
        div_high n m,
        one_part a,
      ),
    )

quot_mono : (a b : ℤ) (m : ℕ) → a ≤ℤ b → quot a (pos (suc m)) ≤ℤ quot b (pos (suc m))
unfolding quot
quot_mono (pos n) (pos k) m h = ground (arith, div_mono n k m (omega arith))
quot_mono (negsuc n) (pos k) m h = ground arith
quot_mono (negsuc n) (negsuc k) m h = ground (arith, div_mono (suc k) (suc n) m (omega arith))
quot_mono (pos n) (negsuc k) m h = absurd (omega arith)

-- The instant of a packet, in terms of the distance to the anchor.
at_stamp :
    (base : ℕ) (base_wall target : ℤ) (clock_rate : ℕ) (ticks : ℤ)
    → base < 4294967296
    → negsuc 2147483647 ≤ℤ ticks
    → ticks <ℤ pos 2147483648
    → playout_of base base_wall target clock_rate (stamp base ticks)
      ≡ (base_wall +ℤ quot (ticks *ℤ pos 1_000_000_000) (pos clock_rate)) +ℤ target
unfolding playout_of
at_stamp base base_wall target clock_rate ticks b low high =
    ap (λ x. (base_wall +ℤ quot (x *ℤ pos 1_000_000_000) (pos clock_rate)) +ℤ target)
      (rtp_delta_lem base ticks b low high)

less_anchor : (wall target q : ℤ) → ((wall +ℤ q) +ℤ target) -ℤ (wall +ℤ target) ≡ q
less_anchor wall target q = omega int_laws

-- For a clock of a positive rate, and packets whose timestamps are less than half of the range away from the
-- anchor, across the wrap or not: a packet is played when the sender's clock says, after the anchor's
-- instant and the target, to less than a nanosecond; and no packet before one with an earlier timestamp.
pub playout_of_exact :
    (base : ℕ) (base_wall target : ℤ) (clock_rate : ℕ) (ticks later : ℤ)
    → base < 4294967296
    → 0 < clock_rate
    → negsuc 2147483647 ≤ℤ ticks
    → ticks ≤ℤ later
    → later <ℤ pos 2147483648
    → let at = playout_of base base_wall target clock_rate (stamp base ticks) in
      let media = ticks *ℤ pos 1_000_000_000 in
      let played = pos clock_rate *ℤ (at -ℤ (base_wall +ℤ target)) in
      (played <ℤ media +ℤ pos clock_rate)
      × (media <ℤ played +ℤ pos clock_rate)
      × (at ≤ℤ playout_of base base_wall target clock_rate (stamp base later))
playout_of_exact base base_wall target zero ticks later b r low order high = absurd (omega arith)
playout_of_exact base base_wall target (suc m) ticks later b r low order high =
    let e = at_stamp base base_wall target (suc m) ticks b low (omega arith) in
    let f = at_stamp base base_wall target (suc m) later b (omega arith) high in
    let q = quot (ticks *ℤ pos 1_000_000_000) (pos (suc m)) in
    let (over, under) = quot_near (ticks *ℤ pos 1_000_000_000) m in
    let grows =
      quot_mono (ticks *ℤ pos 1_000_000_000) (later *ℤ pos 1_000_000_000) m (omega int_laws) in
    rw (e, f) (rw (less_anchor base_wall target q) (over, under, omega (int_laws, grows)))
