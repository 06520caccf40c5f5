-- ===== src/Recovery/Groups.antt =====
-- `storeGroupLocked` of internal/ingest/recovery.go: the groups of parity that wait for packets. An index
-- out of the order's range, where Go panics, gives no state.
pub mod Bound
pub mod Store
mod Tests
use waga_strim.Base.{
  ℕ, zero, suc, ◌+◌, ◌*◌, Bool, true, false, not, ◌&&◌, Option, none, some, List, [], ◌∷◌, ◌++◌,
  ltb, leb, if◌then◌else◌, length, get_elem?, drop,
}
use waga_strim.Base.Maps.{Table, put, remove, has}
use waga_strim.Recovery.{GroupId, Group, State, group_limit, same_group, group_key}

abbrev pub listed : GroupId → List GroupId → Bool
listed id [] = false
listed id (j ∷ order) = if same_group id j then true else listed id order

-- The loop that compacts the order: the groups that are still there, once each.
unfoldable pub still_there : Table GroupId Group → List GroupId → List GroupId → List GroupId
still_there groups seen [] = []
still_there groups seen (id ∷ order) =
    let kept = still_there groups (id ∷ seen) order in
    let rest = still_there groups seen order in
    if has id groups && not (listed id seen) then id ∷ kept else rest

unfoldable pub compacted : State → State
compacted s =
    if leb (2 * group_limit) (length s.group_order)
    then record s {
      group_order = still_there s.groups [] (drop s.group_head s.group_order);
      group_head = 0;
    }
    else s

abbrev pub listed_in : State → GroupId → State
listed_in s id =
    if has id s.groups then s else record s { group_order = s.group_order ++ (id ∷ []) }

-- `for len(c.groups) > recoveryGroupLimit`: each pass moves the head on, so that the length of the order is
-- enough fuel.
unfoldable pub evict_groups : ℕ → State → Option State
evict_groups zero s = if ltb group_limit (length s.groups) then none else some s
evict_groups (suc n) s =
    let rest = λ (id : GroupId).
      evict_groups n (record s { groups = remove id s.groups; group_head = suc s.group_head }) in
    if ltb group_limit (length s.groups)
    then elim (get_elem? s.group_order s.group_head) [ none ↦ none | some id ↦ rest id ]
    else some s

abbrev pub trimmed : State → State
trimmed s =
    if leb group_limit s.group_head
    then record s { group_order = drop s.group_head s.group_order; group_head = 0 }
    else s

abbrev pub trimmed_if : Option State → Option State
trimmed_if none = none
trimmed_if (some s) = some (trimmed s)

-- `storeGroupLocked`
unfoldable pub store_group : State → GroupId → Group → Option State
store_group s id group =
    let s' = listed_in (compacted s) id in
    let s'' = record s' { groups = put id group s'.groups } in
    trimmed_if (evict_groups (length s''.group_order) s'')
