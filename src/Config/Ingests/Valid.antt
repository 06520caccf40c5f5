-- ===== src/Config/Ingests/Valid.antt =====
-- The limits that internal/config/config.go keeps the settings of its cameras in.
use Prim.Native.String.{String}
use waga_strim.Base.{
  ℕ, zero, suc, ◌≡◌, refl, inl, inr, Option, none, some, List, [], ◌∷◌, ◌++◌, map, arith, get_or,
  set, take, drop, Bool-cases,
}
use waga_strim.Base.Int.{ℤ, pos, ◌≤ℤ◌, int_laws}
use waga_strim.Dynamic.Options.Laws.{IsNormal, normalize-IsNormal}
use waga_strim.Config.{Ingest, Config, delay_max_ms}
use waga_strim.Config.Ingests.{
  contains, offered, keep_codecs, clamp_floor, clamp_delay, normalise_ingest, clamp_given_floor,
  normalise,
}

-- The delay is within the limits, the options are normal for it, and the codecs are codecs that the
-- relay can carry, in its order, one at least.
abbrev pub IsValid : Option ℤ → Ingest → Type 0
IsValid floor_ms ing =
    (clamp_floor floor_ms ≤ℤ ing.delay_ms)
    × (ing.delay_ms ≤ℤ delay_max_ms)
    × IsNormal ing.options ing.delay_ms
    × (keep_codecs ing.codecs ≡ ing.codecs)

abbrev pub AllValid : Option ℤ → List Ingest → Type 0
AllValid floor_ms [] = Unit {0}
AllValid floor_ms (ing ∷ l) = IsValid floor_ms ing × AllValid floor_ms l

abbrev pub IsFloor : Option ℤ → Type 0
IsFloor none = Unit {0}
IsFloor (some floor_ms) = (pos 0 ≤ℤ floor_ms) × (floor_ms ≤ℤ delay_max_ms)

abbrev pub IsSound : Config → Type 0
IsSound c = IsFloor c.floor_ms × AllValid c.floor_ms c.ingests

clamp_floor_range :
    (floor_ms : Option ℤ) → (pos 0 ≤ℤ clamp_floor floor_ms) × (clamp_floor floor_ms ≤ℤ delay_max_ms)
unfolding clamp_floor
clamp_floor_range none = (omega arith, omega arith)
clamp_floor_range (some floor_ms) = (omega int_laws, omega int_laws)

pub clamp_delay_range :
    (floor_ms : Option ℤ) (delay_ms : ℤ)
    → (clamp_floor floor_ms ≤ℤ clamp_delay floor_ms delay_ms)
      × (clamp_delay floor_ms delay_ms ≤ℤ delay_max_ms)
unfolding clamp_delay
clamp_delay_range floor_ms delay_ms =
    let limits = clamp_floor_range floor_ms in (omega int_laws, omega int_laws)

-- A set of codecs that was kept is kept as it is.
pub keep_codecs_idem :
    (codecs : List String) → keep_codecs (keep_codecs codecs) ≡ keep_codecs codecs
unfolding keep_codecs offered
keep_codecs_idem codecs = elim (Bool-cases (contains codecs "h264")) [
  | inl a ↦ elim (Bool-cases (contains codecs "h265")) [
    | inl b ↦ elim (Bool-cases (contains codecs "av1")) [
      | inl c ↦ simp (a, b, c) refl
      | inr c ↦ simp (a, b, c) refl
    ]
    | inr b ↦ elim (Bool-cases (contains codecs "av1")) [
      | inl c ↦ simp (a, b, c) refl
      | inr c ↦ simp (a, b, c) refl
    ]
  ]
  | inr a ↦ elim (Bool-cases (contains codecs "h265")) [
    | inl b ↦ elim (Bool-cases (contains codecs "av1")) [
      | inl c ↦ simp (a, b, c) refl
      | inr c ↦ simp (a, b, c) refl
    ]
    | inr b ↦ elim (Bool-cases (contains codecs "av1")) [
      | inl c ↦ simp (a, b, c) refl
      | inr c ↦ simp (a, b, c) refl
    ]
  ]
]

normalise_ingest-IsValid :
    (floor_ms : Option ℤ) (ing : Ingest) → IsValid floor_ms (normalise_ingest floor_ms ing)
unfolding normalise_ingest
normalise_ingest-IsValid floor_ms ing =
    let (low, high) = clamp_delay_range floor_ms ing.delay_ms in
    (low, high, normalize-IsNormal ing.options _, keep_codecs_idem ing.codecs)

module _ (floor_ms : Option ℤ) where
  pub map-AllValid : (l : List Ingest) → AllValid floor_ms (map (normalise_ingest floor_ms) l)
  map-AllValid [] = tt
  map-AllValid (ing ∷ l) = (normalise_ingest-IsValid floor_ms ing, map-AllValid l)

  pub append-AllValid :
      (l m : List Ingest) → AllValid floor_ms l → AllValid floor_ms m → AllValid floor_ms (l ++ m)
  append-AllValid [] m v w = w
  append-AllValid (ing ∷ l) m (h, v) w = (h, append-AllValid l m v w)

  pub take-AllValid : (n : ℕ) (l : List Ingest) → AllValid floor_ms l → AllValid floor_ms (take n l)
  take-AllValid zero l v = tt
  take-AllValid (suc n) [] v = tt
  take-AllValid (suc n) (ing ∷ l) (h, v) = (h, take-AllValid n l v)

  pub drop-AllValid : (n : ℕ) (l : List Ingest) → AllValid floor_ms l → AllValid floor_ms (drop n l)
  drop-AllValid zero l v = v
  drop-AllValid (suc n) [] v = tt
  drop-AllValid (suc n) (ing ∷ l) (h, v) = drop-AllValid n l v

  pub set-AllValid :
      (f : Ingest → Ingest) (l : List Ingest) (n : ℕ) (d : Ingest)
      → ((ing : Ingest) → IsValid floor_ms ing → IsValid floor_ms (f ing))
      → AllValid floor_ms l
      → AllValid floor_ms (set l n (f (get_or l n d)))
  set-AllValid f [] n d keeps v = tt
  set-AllValid f (ing ∷ l) zero d keeps (h, v) = (keeps ing h, v)
  set-AllValid f (ing ∷ l) (suc n) d keeps (h, v) = (h, set-AllValid f l n d keeps v)

-- Whatever a file holds, a load makes it sound.
pub normalise-IsSound : (c : Config) → IsSound (normalise c)
unfolding normalise clamp_floor
normalise-IsSound c = (floor_lem c.floor_ms, map-AllValid (clamp_given_floor c.floor_ms) c.ingests)
  where
    floor_lem : (floor_ms : Option ℤ) → IsFloor (clamp_given_floor floor_ms)
    floor_lem none = tt
    floor_lem (some floor_ms) = (omega int_laws, omega int_laws)
