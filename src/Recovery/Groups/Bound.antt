-- ===== src/Recovery/Groups/Bound.antt =====
-- The number of groups that `storeGroupLocked` of internal/ingest/recovery.go keeps, and its order.
use waga_strim.Base.{
  ℕ, zero, suc, ◌+◌, ◌*◌, ◌≤◌, ◌<◌, ◌≡◌, refl, sym, ap, ◌∙◌, inl, inr, ◌⊎◌, true, false, none, some,
  List, [], ◌∷◌, ◌++◌, arith, ltb, length, get_elem?, drop, Bool-cases,
}
use waga_strim.Base.Maps.{Table, remove, has, has-remove, same_self}
use waga_strim.Recovery.{GroupId, Group, State, group_limit, same_group, group_key}
use waga_strim.Recovery.Groups.{listed, evict_groups}

-- Every group is listed in the order, from the head on.
pub record IsListed (s : State) : Type 0 where
  pub covers :
      (id : GroupId) → has id s.groups ≡ true → listed id (drop s.group_head s.group_order) ≡ true
  pub inside : s.group_head ≤ length s.group_order

-- The groups and their order are within their limits.
pub record IsBounded (s : State) : Type 0 where
  pub lists : IsListed s
  pub few : length s.groups ≤ group_limit
  pub short : length s.group_order ≤ 2 * group_limit

pub same_group_eq : (a b : GroupId) → same_group a b ≡ true → a ≡ b
unfolding group_key
same_group_eq a b h = (group_key.same_iff a b).0 h

pub listed-append :
    (id j : GroupId) (l : List GroupId) → listed id l ≡ true → listed id (l ++ (j ∷ [])) ≡ true
listed-append id j [] h = absurd cc
listed-append id j (i ∷ l) h = ground (arith, listed-append id j l)

pub listed_last : (id : GroupId) (l : List GroupId) → listed id (l ++ (id ∷ [])) ≡ true
unfolding group_key
listed_last id [] = simp (same_self id) refl
listed_last id (i ∷ l) = ground (arith, listed_last id l)

pub drop-append : (n : ℕ) (l m : List GroupId) → n ≤ length l → drop n (l ++ m) ≡ drop n l ++ m
drop-append zero l m h = refl
drop-append (suc n) [] m h = absurd (omega arith)
drop-append (suc n) (i ∷ l) m h = drop-append n l m (omega arith)

drop_nothing : (n : ℕ) (l : List GroupId) → length l ≤ n → drop n l ≡ []
drop_nothing zero [] h = refl
drop_nothing zero (i ∷ l) h = absurd (omega arith)
drop_nothing (suc n) [] h = refl
drop_nothing (suc n) (i ∷ l) h = drop_nothing n l (omega arith)

-- The order from an index on: its head, and what follows.
drop-get :
    (n : ℕ) (l : List GroupId)
    → ((get_elem? l n ≡ none) × (drop n l ≡ []))
      ⊎ ((id : GroupId) × (get_elem? l n ≡ some id) × (drop n l ≡ id ∷ drop (suc n) l))
drop-get zero [] = inl (refl, refl)
drop-get zero (i ∷ l) = inr (i, refl, refl)
drop-get (suc n) [] = inl (refl, refl)
drop-get (suc n) (i ∷ l) = drop-get n l

some_key : (t : Table GroupId Group) → 0 < length t → (id : GroupId) × (has id t ≡ true)
unfolding group_key
some_key [] h = absurd (omega arith)
some_key ((id, g) ∷ t) h = (id, simp (same_self id) refl)

get-inside : (n : ℕ) (l : List GroupId) (id : GroupId) → get_elem? l n ≡ some id → n < length l
get-inside zero [] id h = absurd cc
get-inside zero (i ∷ l) id h = omega arith
get-inside (suc n) [] id h = absurd cc
get-inside (suc n) (i ∷ l) id h = let below = get-inside n l id h in omega arith

-- Where the order has ended there are no groups.
none_left :
    (s : State) → IsListed s → drop s.group_head s.group_order ≡ [] → 0 < length s.groups → ⊥
none_left s l e h =
    let (id, there) = some_key s.groups h in
    not_listed id (ap (listed id) (sym e) ∙ l.covers id there)
  where
    not_listed : (id : GroupId) → listed id [] ≡ true → ⊥
    not_listed id g = cc

-- One pass of the loop.
evict_one : State → GroupId → State
evict_one s id = record s { groups = remove id s.groups; group_head = suc s.group_head }

evict_one-IsListed :
    (s : State) (id : GroupId)
    → get_elem? s.group_order s.group_head ≡ some id
    → drop s.group_head s.group_order ≡ id ∷ drop (suc s.group_head) s.group_order
    → IsListed s
    → IsListed (evict_one s id)
unfolding evict_one group_key
evict_one-IsListed s id g e l = record {
  covers = λ j h. elim (Bool-cases (same_group j id)) [
    | inl same ↦ absurd (not_true (sym h ∙ has-remove j id s.groups ∙ simp same refl))
    | inr other ↦
        let there = l.covers j (sym (has-remove j id s.groups ∙ simp other refl) ∙ h) in
        let here = sym (ap (listed j) e) ∙ there in simp other at here
  ];
  inside = get-inside s.group_head s.group_order id g;
}
  where
    not_true : true ≡ false → ⊥
    not_true h = cc

-- What the loop that evicts leaves: a state, within the limit, and listed.
pub evicted :
    (n : ℕ) (s : State)
    → length s.group_order ≤ n + s.group_head
    → IsListed s
    → (t : State) × (evict_groups n s ≡ some t)
      × IsListed t
      × (length t.groups ≤ group_limit)
      × (t.group_order ≡ s.group_order)
unfolding evict_groups evict_one
evicted zero s enough l = elim (Bool-cases (ltb group_limit (length s.groups))) [
  | inl over ↦
      absurd (none_left s l (drop_nothing s.group_head s.group_order (omega arith)) (ground arith))
  | inr fits ↦ (s, simp fits refl, l, ground arith, refl)
]
evicted (suc n) s enough l = elim (Bool-cases (ltb group_limit (length s.groups))) [
  | inr fits ↦ (s, simp fits refl, l, ground arith, refl)
  | inl over ↦ elim (drop-get s.group_head s.group_order) [
    | inl (g, e) ↦ absurd (none_left s l e (ground arith))
    | inr (id, g, e) ↦
        let (t, f, listed, few, same) =
          evicted n (evict_one s id) (omega arith) (evict_one-IsListed s id g e l) in
        (t, simp (over, g) f, listed, few, same)
  ]
]
