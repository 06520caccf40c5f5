-- ===== src/Playout/Clock.antt =====
-- The sender's clock, and the margins, of internal/relay/delay.go. Go's `^diff + 1` on 32 bits is
-- 2 ^ 32 - diff, for a `diff` that is not 0. The product that `playoutOf` divides is an integer here: it is at
-- most 2 ^ 31 times 10 ^ 9, which an `int64` holds.
pub mod Mapping
use waga_strim.Base.{ℕ, ◌+◌, ◌-◌, ◌%◌, ◌<◌, ◌≡◌, arith, ltb, if◌then◌else◌}
use waga_strim.Base.Int.{
  ℤ, pos, negsuc, pos_part, neg_part, ◌+ℤ◌, ◌-ℤ◌, ◌*ℤ◌, quot, ◌≤ℤ◌, ◌<ℤ◌, min_ℤ, max_ℤ,
}

-- `rtpDelta`
unfoldable pub rtp_delta : ℕ → ℕ → ℤ
rtp_delta timestamp base =
    let diff = (timestamp + 4294967296 - base) % 4294967296 in
    if ltb 2147483647 diff then pos 0 -ℤ pos ((4294967295 - diff + 1) % 4294967296) else pos diff

-- `correctionMargin`, in nanoseconds.
unfoldable pub correction_margin : ℤ → ℤ
correction_margin target = min_ℤ (pos 2_000_000_000) (max_ℤ target (pos 250_000_000))

-- `playoutOf`, from the buffer's anchor, target and clock rate.
unfoldable pub playout_of : ℕ → ℤ → ℤ → ℕ → ℕ → ℤ
playout_of base_rtp base_wall target clock_rate timestamp =
    let elapsed = rtp_delta timestamp base_rtp in
    (base_wall +ℤ quot (elapsed *ℤ pos 1_000_000_000) (pos clock_rate)) +ℤ target

-- A timestamp `ticks` after the anchor, or before it, across the wrap or not, reads as `ticks`, as long
-- as these are the numbers of a 32-bit integer.
pub rtp_delta_lem :
    (base : ℕ) (ticks : ℤ)
    → base < 4294967296
    → negsuc 2147483647 ≤ℤ ticks
    → ticks <ℤ pos 2147483648
    → rtp_delta ((base + pos_part ticks + 4294967296 - neg_part ticks) % 4294967296) base ≡ ticks
unfolding rtp_delta ◌-ℤ◌
rtp_delta_lem base ticks h low high = ground arith
