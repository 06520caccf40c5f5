-- ===== src/Recovery/Groups/Store.antt =====
-- `storeGroupLocked` of internal/ingest/recovery.go, over any run of stores and deletions.
use waga_strim.Base.{
  ◌+◌, ◌*◌, ◌≤◌, ◌<◌, ◌≡◌, refl, sym, ap, ◌∙◌, subst, inl, inr, ◌⊎◌, Bool, true, false, not, ◌&&◌,
  Option, none, some, List, [], ◌∷◌, ◌++◌, arith, leb, if◌then◌else◌, length, drop, length-append,
  length-drop, Bool-cases,
}
use waga_strim.Base.Maps.{
  Table, put, remove, has, has-put, has-remove, length-remove, length-remove-has,
}
use waga_strim.Recovery.{GroupId, Group, State, group_limit, same_group, group_key}
use waga_strim.Recovery.Groups.{
  listed, still_there, compacted, listed_in, trimmed, trimmed_if, store_group,
}
use waga_strim.Recovery.{new_state}
use waga_strim.Recovery.Groups.Bound.{
  IsListed, IsBounded, same_group_eq, listed-append, listed_last, drop-append, evicted,
}

neither : (a b : Bool) → (if a then true else b) ≡ false → (a ≡ false) × (b ≡ false)
neither a b h = ground arith

distinct : (b : Bool) → b ≡ true → b ≡ false → ⊥
distinct b h g = cc

still_there-covers :
    (groups : Table GroupId Group) (seen order : List GroupId) (id : GroupId)
    → has id groups ≡ true
    → listed id order ≡ true
    → (listed id seen ≡ true) ⊎ (listed id (still_there groups seen order) ≡ true)
unfolding still_there
still_there-covers groups seen [] id h l = absurd cc
still_there-covers groups seen (j ∷ order) id h l =
    let kept = has j groups && not (listed j seen) in
    elim (Bool-cases (same_group id j)) [
      | inl same ↦
          let e = same_group_eq id j same in
          let there = subst (λ k. has k groups ≡ true) e h in
          elim (Bool-cases (listed j seen)) [
            | inl old ↦ inl (subst (λ k. listed k seen ≡ true) (sym e) old)
            | inr new ↦ inr (simp (there, new) (simp same refl))
          ]
      | inr other ↦
          let later = simp other at l in
          elim (Bool-cases kept) [
            | inr gone ↦ simp gone (still_there-covers groups seen order id h later)
            | inl here ↦ elim (still_there-covers groups (j ∷ seen) order id h later) [
              | inl was ↦ inl (simp other at was)
              | inr is ↦ inr (simp here (simp other is))
            ]
          ]
    ]

-- The groups that are kept are no more than those that were not seen.
still_there-few :
    (groups unseen : Table GroupId Group) (seen order : List GroupId)
    → ((id : GroupId) → has id groups ≡ true → listed id seen ≡ false → has id unseen ≡ true)
    → length (still_there groups seen order) ≤ length unseen
unfolding still_there group_key
still_there-few groups unseen seen [] h = omega arith
still_there-few groups unseen seen (j ∷ order) h =
    elim (Bool-cases (has j groups && not (listed j seen))) [
      | inr gone ↦ simp gone (still_there-few groups unseen seen order h)
      | inl here ↦
          let there = h j (ground arith) (ground arith) in
          let fewer = length-remove-has j unseen there in
          let rest = still_there-few groups (remove j unseen) (j ∷ seen) order (λ id k l.
            let (apart, new) = neither (same_group id j) (listed id seen) l in
            has-remove id j unseen ∙ simp apart (h id k new)) in
          simp here (omega arith)
    ]

compacted-IsListed :
    (s : State)
    → IsBounded s
    → IsListed (compacted s) × (length (compacted s).group_order < 2 * group_limit)
unfolding compacted
compacted-IsListed s b = elim (Bool-cases (leb (2 * group_limit) (length s.group_order))) [
  | inr short ↦ simp short (b.lists, ground arith)
  | inl full ↦
      let few =
        still_there-few s.groups s.groups [] (drop s.group_head s.group_order) (λ id h l. h) in
      let bound = b.few in
      simp full (
        record {
          covers = λ id h.
              elim (still_there-covers s.groups [] (drop s.group_head s.group_order) id h
                (b.lists.covers id h)) [
                  | inl seen ↦ absurd (distinct false seen refl)
                  | inr kept ↦ kept
                ];
          inside = omega arith;
        },
        omega arith,
      )
]

listed_in-IsListed :
    (s : State) (id : GroupId) (group : Group)
    → IsListed s
    → IsListed (record (listed_in s id) { groups = put id group (listed_in s id).groups })
      × (length (listed_in s id).group_order ≤ length s.group_order + 1)
unfolding group_key
listed_in-IsListed s id group l = elim (Bool-cases (has id s.groups)) [
  | inl old ↦ simp old (
    record {
      covers = λ j h. elim (Bool-cases (same_group j id)) [
        | inl same ↦
            subst (λ k. listed k (drop s.group_head s.group_order) ≡ true)
              (sym (same_group_eq j id same)) (l.covers id old)
        | inr other ↦ l.covers j (sym (has-put j id group s.groups ∙ simp other refl) ∙ h)
      ];
      inside = l.inside;
    },
    omega arith,
  )
  | inr new ↦
      let longer = length-append s.group_order (id ∷ []) in
      let order = drop-append s.group_head s.group_order (id ∷ []) l.inside in
      simp new (
        record {
          covers = λ j h. elim (Bool-cases (same_group j id)) [
            | inl same ↦
                subst (λ k. listed k (drop s.group_head (s.group_order ++ (id ∷ []))) ≡ true)
                  (sym (same_group_eq j id same))
                  (ap (listed id) order ∙ listed_last id (drop s.group_head s.group_order))
            | inr other ↦
                ap (listed j) order
                ∙ listed-append j id (drop s.group_head s.group_order)
                    (l.covers j (sym (has-put j id group s.groups ∙ simp other refl) ∙ h))
          ];
          inside = let within = l.inside in omega arith;
        },
        omega arith,
      )
]

trimmed-IsBounded :
    (s : State)
    → IsListed s
    → length s.groups ≤ group_limit
    → length s.group_order ≤ 2 * group_limit
    → IsBounded (trimmed s)
trimmed-IsBounded s l few short = elim (Bool-cases (leb group_limit s.group_head)) [
  | inr low ↦ simp low (record { lists = l; few = few; short = short })
  | inl high ↦
      let shorter = length-drop s.group_head s.group_order in
      simp high (record {
        lists = record { covers = l.covers; inside = omega arith };
        few = few;
        short = omega arith;
      })
]

store_group-IsBounded :
    (s : State) (id : GroupId) (group : Group)
    → IsBounded s
    → (t : State) × (store_group s id group ≡ some t) × IsBounded t
unfolding store_group
store_group-IsBounded s id group b =
    let (l, short) = compacted-IsListed s b in
    let s' = listed_in (compacted s) id in
    let s'' = record s' { groups = put id group s'.groups } in
    let (l', more) = listed_in-IsListed (compacted s) id group l in
    let (t, f, listed, few, same) = evicted (length s''.group_order) s'' (omega arith) l' in
    let size = ap length same in
    (trimmed t, ap trimmed_if f, trimmed-IsBounded t listed few (omega arith))

-- A group that is taken out leaves a hole in the order.
abbrev pub delete_group : State → GroupId → State
delete_group s id = record s { groups = remove id s.groups }

has_before :
    (j id : GroupId) (t : Table GroupId Group) → has j (remove id t) ≡ true → has j t ≡ true
has_before j id t h = ground (arith, has-remove j id t)

delete_group-IsBounded : (s : State) (id : GroupId) → IsBounded s → IsBounded (delete_group s id)
delete_group-IsBounded s id b = record {
  lists = record {
    covers = λ j h. b.lists.covers j (has_before j id s.groups h);
    inside = b.lists.inside;
  };
  few = let fewer = length-remove id s.groups in let bound = b.few in omega arith;
  short = b.short;
}

-- Groups are stored, and taken out when they are complete.
pub data Op : Type 0 where
  stores : GroupId → Group → Op
  deletes : GroupId → Op

abbrev pub after : Option State → List Op → Option State
after none ops = none
after (some s) [] = some s
after (some s) (stores id group ∷ ops) = after (store_group s id group) ops
after (some s) (deletes id ∷ ops) = after (some (delete_group s id)) ops

after-IsBounded :
    (s : State) (ops : List Op)
    → IsBounded s
    → (t : State) × (after (some s) ops ≡ some t) × IsBounded t
after-IsBounded s [] b = (s, refl, b)
after-IsBounded s (deletes id ∷ ops) b =
    after-IsBounded (delete_group s id) ops (delete_group-IsBounded s id b)
after-IsBounded s (stores id group ∷ ops) b =
    let (t, e, b') = store_group-IsBounded s id group b in
    let (u, f, b'') = after-IsBounded t ops b' in (u, ap (λ o. after o ops) e ∙ f, b'')

-- From a new state, over any run of groups stored and groups taken out, however the holes that these
-- leave in the order fall: the loop that evicts never runs past the order, which would panic, and at most
-- 256 groups are kept, with an order of at most 512 entries.
pub groups_bounded :
    (ops : List Op)
    → (t : State) × (after (some new_state) ops ≡ some t)
      × (length t.groups ≤ group_limit)
      × (length t.group_order ≤ 2 * group_limit)
groups_bounded ops =
    let start : IsBounded new_state = record {
      lists = record { covers = λ id h. absurd cc; inside = omega arith };
      few = omega arith;
      short = omega arith;
    } in
    let (t, e, b) = after-IsBounded new_state ops start in (t, e, b.few, b.short)
