-- ===== src/Packets/Ring.antt =====
-- Reading a byte ring of internal/ingest/packet_buffer.go as a list: windows, copies and slices.
use native.Mathlib.Nat.{mod-eq_of_lt, mod-eq-sub-mod}
use waga_strim.Base.{
  ℕ, zero, suc, ◌+◌, ◌-◌, ◌%◌, ◌≤◌, ◌<◌, min, ◌≡◌, refl, ap, ap₂, ◌∙◌, ◌⊎◌, inl, inr, [], ◌∷◌, ◌++◌,
  arith, dec_lt, ltb, if◌then◌else◌, length, get_or, take, drop, length-append, length-take,
  length-drop,
}
use waga_strim.Packets.{Bytes, copy_at}

-- An index less than twice round.
pub wrap_cases :
    (x cap : ℕ) → x < cap + cap → ((x < cap) × (x % cap ≡ x)) ⊎ ((cap ≤ x) × (x % cap ≡ x - cap))
wrap_cases x cap h = elim (dec_lt x cap) [
  | yes p ↦ inl (p, mod-eq_of_lt p)
  | no p ↦
      inr (omega arith, mod-eq-sub-mod {n = x} {m = cap} (omega arith) ∙ mod-eq_of_lt (omega arith))
]

-- The `n` bytes from index `h` on, going round.
unfoldable pub window : Bytes → ℕ → ℕ → Bytes
window bytes h zero = []
window bytes h (suc n) = get_or bytes (h % length bytes) 0 ∷ window bytes (h + 1) n

pub length-window : (bytes : Bytes) (h n : ℕ) → length (window bytes h n) ≡ n
unfolding window
length-window bytes h zero = refl
length-window bytes h (suc n) = ap suc (length-window bytes (h + 1) n)

pub window-append :
    (bytes : Bytes) (h n m : ℕ)
    → window bytes h (n + m) ≡ window bytes h n ++ window bytes (h + n) m
unfolding window
window-append bytes h zero m =
    let e : h + 0 ≡ h = omega arith in let f : 0 + m ≡ m = omega arith in rw (e, f)
window-append bytes h (suc n) m =
    let e : suc n + m ≡ suc (n + m) = omega arith in
    let f : h + suc n ≡ h + 1 + n = omega arith in
    rw (e, f) (ap (◌∷◌ (get_or bytes (h % length bytes) 0)) (window-append bytes (h + 1) n m))

-- Two rings that agree at the indices of a window.
pub window_ext :
    (xs ys : Bytes) (h k n : ℕ)
    → ((i : ℕ) → i < n → get_or xs ((h + i) % length xs) 0 ≡ get_or ys ((k + i) % length ys) 0)
    → window xs h n ≡ window ys k n
unfolding window
window_ext xs ys h k zero same = refl
window_ext xs ys h k (suc n) same =
    let e : h + 0 ≡ h = omega arith in
    let f : k + 0 ≡ k = omega arith in
    ap₂ ◌∷◌ (rw (e, f) at (same 0 (omega arith))) (
      window_ext xs ys (h + 1) (k + 1) n λ i p.
        let e' : h + 1 + i ≡ h + suc i = omega arith in
        let f' : k + 1 + i ≡ k + suc i = omega arith in rw (e', f') (same (suc i) (omega arith)))

-- A window that holds a given list, byte by byte.
pub window_eq :
    (bytes : Bytes) (h : ℕ) (p : Bytes)
    → ((i : ℕ) → i < length p → get_or bytes ((h + i) % length bytes) 0 ≡ get_or p i 0)
    → window bytes h (length p) ≡ p
unfolding window
window_eq bytes h [] same = refl
window_eq bytes h (x ∷ p) same =
    let e : h + 0 ≡ h = omega arith in
    ap₂ ◌∷◌ (rw e at (same 0 (omega arith))) (
      window_eq bytes (h + 1) p
        λ i q. let e' : h + 1 + i ≡ h + suc i = omega arith in rw e' (same (suc i) (omega arith)))

pub get_or-take :
    (n i : ℕ) (xs : Bytes) → get_or (take n xs) i 0 ≡ (if ltb i n then get_or xs i 0 else 0)
get_or-take zero i xs = ground arith
get_or-take (suc n) i [] = ground arith
get_or-take (suc n) zero (x ∷ xs) = ground arith
get_or-take (suc n) (suc i) (x ∷ xs) = ground (arith, get_or-take n i xs)

pub get_or-drop : (n i : ℕ) (xs : Bytes) → get_or (drop n xs) i 0 ≡ get_or xs (n + i) 0
get_or-drop zero i xs = let e : 0 + i ≡ i = omega arith in rw e
get_or-drop (suc n) i [] = refl
get_or-drop (suc n) i (x ∷ xs) =
    let e : suc n + i ≡ suc (n + i) = omega arith in rw e (get_or-drop n i xs)

pub get_or-append :
    (xs ys : Bytes) (i : ℕ)
    → get_or (xs ++ ys) i 0
      ≡ (if ltb i (length xs) then get_or xs i 0 else get_or ys (i - length xs) 0)
get_or-append [] ys i = let e : i - 0 ≡ i = omega arith in ground (arith, e)
get_or-append (x ∷ xs) ys zero = ground arith
get_or-append (x ∷ xs) ys (suc i) =
    let e : suc i - suc (length xs) ≡ i - length xs = omega arith in
    rw e (ground (arith, get_or-append xs ys i))

-- Past the end every read gives 0.
pub get_or-past : (xs : Bytes) (i : ℕ) → length xs ≤ i → get_or xs i 0 ≡ 0
get_or-past [] i h = refl
get_or-past (x ∷ xs) zero h = absurd (omega arith)
get_or-past (x ∷ xs) (suc i) h = get_or-past xs i (omega arith)

pub length-copy_at :
    (dst : Bytes) (offset : ℕ) (src : Bytes)
    → offset ≤ length dst
    → length (copy_at dst offset src) ≡ length dst
unfolding copy_at
length-copy_at dst offset src h =
    let n = min (length dst - offset) (length src) in
    let rest = drop (offset + n) dst in
    omega (
      arith,
      length-append (take offset dst) (take n src ++ rest),
      length-append (take n src) rest,
      length-take offset dst,
      length-take n src,
      length-drop (offset + n) dst,
    )

-- What a copy leaves at each index.
pub get_or-copy_at :
    (dst : Bytes) (offset : ℕ) (src : Bytes) (i : ℕ)
    → offset ≤ length dst
    → i < length dst
    → get_or (copy_at dst offset src) i 0 ≡ (
        if ltb i offset
        then get_or dst i 0
        else if ltb (i - offset) (length src)
        then get_or src (i - offset) 0
        else get_or dst i 0)
unfolding copy_at
get_or-copy_at dst offset src i h k =
    let n = min (length dst - offset) (length src) in
    let rest = drop (offset + n) dst in
    ground (
      arith,
      get_or-append (take offset dst) (take n src ++ rest) i,
      length-take offset dst,
      get_or-take offset i dst,
      get_or-append (take n src) rest (i - length (take offset dst)),
      length-take n src,
      get_or-take n (i - length (take offset dst)) src,
      get_or-drop (offset + n) (i - length (take offset dst) - length (take n src)) dst,
    )
