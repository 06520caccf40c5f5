-- ===== src/Recovery/Gaps/Due.antt =====
-- `dueRepairs` of internal/ingest/recovery.go, over two calls.
use waga_strim.Base.{
  ℕ, zero, suc, ◌≤◌, ◌≡◌, refl, sym, ◌⊎◌, subst, inl, inr, Bool, true, false, Option, some, List,
  [], ◌∷◌, arith, ◌==◌, if◌then◌else◌, length, Bool-cases, ==_iff,
}
use waga_strim.Base.Int.{ℤ, pos, ◌-ℤ◌, ltb_ℤ}
use waga_strim.Base.Maps.{Table, has, IsTable}
use waga_strim.Recovery.{Stream, retry, request_size, number_key}
use waga_strim.Recovery.Gaps.{is_stale, is_waiting, due_from, due_repairs}

abbrev pub contains : ℕ → List ℕ → Bool
contains n [] = false
contains n (m ∷ ms) = let rest = contains n ms in if n == m then true else rest

due_from-at_most :
    (stream : Stream) (now : ℤ) (t : Table ℕ (Option ℤ)) (room : ℕ)
    → length (due_from stream now t room).1 ≤ room
unfolding due_from
due_from-at_most stream now [] room = omega arith
due_from-at_most stream now (entry ∷ t) zero = omega arith
due_from-at_most stream now ((n, requested) ∷ t) (suc room) =
    ground (arith, due_from-at_most stream now t (suc room), due_from-at_most stream now t room)

-- A number that is not missing is not asked for, and is not missing after.
due_from-absent :
    (stream : Stream) (now : ℤ) (t : Table ℕ (Option ℤ)) (room n : ℕ)
    → has n t ≡ false
    → (has n (due_from stream now t room).0 ≡ false)
      × (contains n (due_from stream now t room).1 ≡ false)
unfolding due_from number_key
due_from-absent stream now [] room n h = (refl, refl)
due_from-absent stream now (entry ∷ t) zero n h = (h, refl)
due_from-absent stream now ((m, requested) ∷ t) (suc room) n h =
    let other : (n == m) ≡ false = ground arith in
    let h' : has n t ≡ false = ground arith in
    let skipped = due_from-absent stream now t (suc room) n h' in
    let asked = due_from-absent stream now t room n h' in
    elim (Bool-cases (is_stale stream m)) [
      | inl stale ↦ simp stale skipped
      | inr fresh ↦ elim (Bool-cases (is_waiting now requested)) [
        | inl waits ↦ simp (fresh, waits, other) skipped
        | inr due ↦ simp (fresh, due, other) asked
      ]
    ]

-- A list whose calls never ask for `n` can be put behind an entry of another number, or behind one
-- that waits.
abbrev Never : Stream → ℤ → Table ℕ (Option ℤ) → ℕ → Type 0
Never stream now t n = (room : ℕ) → contains n (due_from stream now t room).1 ≡ false

cons-Never :
    (stream : Stream) (now : ℤ) (t : Table ℕ (Option ℤ)) (m : ℕ) (requested : Option ℤ) (n : ℕ)
    → (is_waiting now requested ≡ true) ⊎ ((n == m) ≡ false)
    → Never stream now t n
    → Never stream now ((m, requested) ∷ t) n
unfolding due_from
cons-Never stream now t m requested n why h zero = refl
cons-Never stream now t m requested n why h (suc room) = elim (Bool-cases (is_stale stream m)) [
  | inl stale ↦ simp stale (h (suc room))
  | inr fresh ↦ elim (Bool-cases (is_waiting now requested)) [
    | inl waits ↦ simp (fresh, waits) (h (suc room))
    | inr due ↦ elim why [ inl waits ↦ absurd cc | inr other ↦ simp (fresh, due, other) (h room) ]
  ]
]

absent-Never :
    (stream : Stream) (now : ℤ) (t : Table ℕ (Option ℤ)) (n : ℕ)
    → has n t ≡ false
    → Never stream now t n
absent-Never stream now t n h room = (due_from-absent stream now t room n h).1

one_value : (b : Bool) → b ≡ true → b ≡ false → ⊥
one_value b p q = cc

-- The entries that one call asks for, a later call within 50 ms leaves alone.
due_from-Never :
    (stream later : Stream) (now soon : ℤ) (t : Table ℕ (Option ℤ)) (room n : ℕ)
    → IsTable t
    → ltb_ℤ (soon -ℤ now) (pos retry) ≡ true
    → contains n (due_from stream now t room).1 ≡ true
    → Never later soon (due_from stream now t room).0 n
unfolding due_from is_waiting number_key
due_from-Never stream later now soon [] room n u close h = absurd cc
due_from-Never stream later now soon (entry ∷ t) zero n u close h = absurd cc
due_from-Never stream later now soon ((m, requested) ∷ t) (suc room) n (new, u) close h =
    let skipped = due_from stream now t (suc room) in
    let asked = due_from stream now t room in
    let same_new : (n == m) ≡ true → has n t ≡ false =
      λ e. subst (λ k. has k t ≡ false) (sym ((==_iff n m).0 e)) new in
    elim (Bool-cases (is_stale stream m)) [
      | inl stale ↦
          simp stale (due_from-Never stream later now soon t (suc room) n u close (simp stale at h))
      | inr fresh ↦ elim (Bool-cases (is_waiting now requested)) [
        | inl waits ↦
            let h' : contains n skipped.1 ≡ true = simp (fresh, waits) at h in
            let other : (n == m) ≡ false = elim (Bool-cases (n == m)) [
              | inl e ↦
                  absurd (one_value _ h' (due_from-absent stream now t (suc room) n (same_new e)).1)
              | inr e ↦ e
            ] in
            simp (fresh, waits)
              (cons-Never later soon skipped.0 m requested n (inr other)
                (due_from-Never stream later now soon t (suc room) n u close h'))
        | inr due ↦ elim (Bool-cases (n == m)) [
          | inl e ↦
              simp (fresh, due)
                (cons-Never later soon asked.0 m (some now) n (inl close) (
                  absent-Never later soon asked.0 n
                    (due_from-absent stream now t room n (same_new e)).0))
          | inr e ↦
              simp (fresh, due)
                (cons-Never later soon asked.0 m (some now) n (inr e) (
                  due_from-Never stream later now soon t room n u close
                    (simp (fresh, due, e) at h)))
        ]
      ]
    ]

-- A call asks for 32 numbers at most. What it asks for, a call of the next 50 ms on the numbers that it
-- left missing does not ask for again, whatever the stream's highest number has become. `missing` is a
-- map.
pub repairs_not_repeated :
    (stream later : Stream) (now soon : ℤ) (n : ℕ)
    → IsTable stream.missing
    → later.missing ≡ (due_repairs stream now).0.missing
    → ltb_ℤ (soon -ℤ now) (pos retry) ≡ true
    → contains n (due_repairs stream now).1 ≡ true
    → (length (due_repairs stream now).1 ≤ 32)
      × (length (due_repairs later soon).1 ≤ 32)
      × (contains n (due_repairs later soon).1 ≡ false)
unfolding due_repairs
repairs_not_repeated stream later now soon n u same close h = (
  due_from-at_most stream now stream.missing request_size,
  due_from-at_most later soon later.missing request_size,
  subst (λ t. contains n (due_from later soon t request_size).1 ≡ false) (sym same)
      (due_from-Never stream later now soon stream.missing request_size n u close h request_size),
)
