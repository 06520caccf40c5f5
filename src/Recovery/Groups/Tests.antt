-- ===== src/Recovery/Groups/Tests.antt =====
-- A run of `storeGroupLocked` of internal/ingest/recovery.go, and its theorem at a concrete one.
use waga_strim.Base.{ℕ, ◌*◌, ◌≤◌, ◌≡◌, refl, Option, none, some, List, [], ◌∷◌, length}
use waga_strim.Recovery.{GroupId, Group, State, new_state, group_limit, group_key}
use waga_strim.Recovery.Groups.{store_group, evict_groups, compacted}
use waga_strim.Recovery.Groups.Store.{Op, stores, deletes, after, groups_bounded}

abbrev id : ℕ → GroupId
id n = record { remote = "ice:a:b"; ssrc = 7; last = n }

abbrev group : Group
group = record { entries = []; parity = []; remote = "1.2.3.4:5" }

-- The second group is complete before the third comes, and comes again.
abbrev script : List Op
script =
    stores (id 1) group
    ∷ stores (id 2) group
    ∷ deletes (id 2)
    ∷ stores (id 3) group
    ∷ stores (id 2) group
    ∷ []

abbrev order_of : Option State → List GroupId
order_of none = []
order_of (some s) = s.group_order

twice_listed : order_of (after (some new_state) script) ≡ id 1 ∷ id 2 ∷ id 3 ∷ id 2 ∷ []
unfolding store_group evict_groups compacted group_key
twice_listed = refl

groups_bounded_example :
    (t : State) × (after (some new_state) script ≡ some t)
    × (length t.groups ≤ group_limit)
    × (length t.group_order ≤ 2 * group_limit)
groups_bounded_example = groups_bounded script
