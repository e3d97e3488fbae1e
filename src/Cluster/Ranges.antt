-- ===== src/Cluster/Ranges.antt =====
-- internal/cluster/ranges.go and fsm.go's RangeOp: the directory of key ranges that every member keeps.
-- Ids and generations are uint64.
pub mod Fencing
pub mod Ids
pub mod Serving
use super_db.Engine.Value.{text_less}
use super_db.Prelude.Map.{remove, Map, get, get_or, put}
use super_db.Prelude.{
  nat_eq, ℕ, Text, Bool, List, [], if◌then◌else◌, some, ◌+◌, Option, false, leb, none, true, ◌%◌,
  ◌==◌, ◌∷◌, ltb, not, text_eq, text_instance, ◌^◌, ◌&&◌,
}

pub record Range : Type 0 where
  pub id : ℕ
  pub start_key : Text
  pub end_key : Text
  pub replicas : List Text
  pub leader : Text
  pub generation : ℕ

-- Go's zero `Range{}`
abbrev pub no_range : Range
no_range = record {
  id = 0;
  start_key = [];
  end_key = [];
  replicas = [];
  leader = [];
  generation = 0;
}

pub record RangeStore : Type 0 where
  pub ranges : Map ℕ Range
  pub assign : Map Text ℕ
  pub next_id : ℕ

-- `RangeOp`; its type is not read.
pub record RangeOp : Type 0 where
  pub ranges : List Range
  pub remove : List ℕ
  pub assign : Map Text ℕ
  pub unassign : List Text
  pub base_generations : Map ℕ ℕ

pub data RangeError : Type 0 where
  range_not_found : RangeError
  stale_generation : ℕ → ℕ → ℕ → RangeError

pub data Result {ℓ} (A : Type ℓ) : Type ℓ where
  ok : A → Result A
  err : RangeError → Result A

-- `x++` and `x + 1` on uint64
abbrev pub next : ℕ → ℕ
next x = (x + 1) % 2 ^ 64

-- `Contains`
unfoldable pub contains : Range → Text → Bool
contains r key =
    if text_less key r.start_key
    then false
    else if not (text_eq r.end_key []) && not (text_less key r.end_key)
    then false
    else true

-- the loop of `HasReplica`
unfoldable pub has_replica : List Text → Text → Bool
has_replica [] node = false
has_replica (n ∷ ns) node = if text_eq n node then true else has_replica ns node

abbrev pub new_range_store : RangeStore
new_range_store = record { ranges = []; assign = []; next_id = 1 }

unfoldable pub ensure_single_range : RangeStore → Text → RangeStore × Range
ensure_single_range s node = elim s.ranges [
  | (id, r) ∷ _ ↦ (s, r)
  | [] ↦
      let r : Range = record {
        id = s.next_id;
        start_key = [];
        end_key = [];
        replicas = node ∷ [];
        leader = node;
        generation = 1;
      } in
      (record s { ranges = put s.ranges r.id r; next_id = next s.next_id }, r)
]

-- `allLocked`: the ranges sorted by id
insert_range : Range → List Range → List Range
insert_range r [] = r ∷ []
insert_range r (q ∷ qs) = if ltb q.id r.id then q ∷ insert_range r qs else r ∷ q ∷ qs

unfoldable pub all : Map ℕ Range → List Range
unfolding insert_range
all [] = []
all ((id, r) ∷ m) = insert_range r (all m)

-- the loop of `Lookup`
unfoldable pub lookup : Map ℕ Range → Text → Result Range
unfolding contains
lookup [] key = err range_not_found
lookup ((id, r) ∷ m) key = if contains r key then ok r else lookup m key

-- `lookupLocked`
unfoldable pub by_id : RangeStore → ℕ → Result Range
by_id s id = elim (get s.ranges id) [ none ↦ err range_not_found | some r ↦ ok r ]

-- the loop of `TableRange`: `best` is none while `first` is true
unfoldable pub lowest : Map ℕ Range → Option Range → Option Range
lowest [] best = best
lowest ((id, r) ∷ m) none = lowest m (some r)
lowest ((id, r) ∷ m) (some b) = lowest m (some (if ltb r.id b.id then r else b))

unfoldable pub fallback_range : RangeStore → Range
fallback_range s = get_or (lowest s.ranges none) no_range

unfoldable pub table_range : RangeStore → Text → Range
unfolding fallback_range
table_range s table = elim (get s.assign table) [
  | none ↦ fallback_range s
  | some id ↦ elim (get s.ranges id) [ none ↦ fallback_range s | some r ↦ r ]
]

-- the loop that `ReplaceBulk` and `restoreLocked` share: the map and the greatest id
unfoldable pub load : List Range → Map ℕ Range → ℕ → Map ℕ Range × ℕ
load [] m max = (m, max)
load (r ∷ rs) m max = load rs (put m r.id r) (if ltb max r.id then r.id else max)

-- if s.nextID == 0
abbrev pub at_least_one : ℕ → ℕ
at_least_one n = if n == 0 then 1 else n

-- `ReplaceBulk`
unfoldable pub replace_bulk : RangeStore → List Range → RangeStore
unfolding load
replace_bulk s rs =
    let (m, max) = load rs [] 0 in record s { ranges = m; next_id = at_least_one (next max) }

-- `restoreLocked`; the copied assignment is a map already.
unfoldable pub restore : List Range → Map Text ℕ → ℕ → RangeStore
unfolding load
restore rs assign next_id =
    let (m, max) = load rs [] 0 in
    record {
      ranges = m;
      assign = assign;
      next_id = at_least_one (if leb next_id max then next max else next_id);
    }

-- `UpdateLeader`
unfoldable pub update_leader : RangeStore → ℕ → Text → Result RangeStore
update_leader s id leader = elim (get s.ranges id) [
  | none ↦ err range_not_found
  | some r ↦ ok (record s {
    ranges = put s.ranges id (record r { leader = leader; generation = next r.generation });
  })
]

-- `SetRangeLeader`
unfoldable pub set_range_leader : RangeStore → ℕ → Text → RangeStore
set_range_leader s id leader = elim (get s.ranges id) [
  | none ↦ s
  | some r ↦ record s { ranges = put s.ranges id (record r { leader = leader }) }
]

-- the fence of `applyOpLocked`
unfoldable pub check_generations : Map ℕ Range → Map ℕ ℕ → Option RangeError
check_generations m [] = none
check_generations m ((id, gen) ∷ base) = elim (get m id) [
  | none ↦ some range_not_found
  | some r ↦
      if r.generation == gen
      then check_generations m base
      else some (stale_generation id r.generation gen)
]

-- for _, id := range op.Remove
unfoldable pub remove_ranges : List ℕ → Map ℕ Range → Map ℕ Range
remove_ranges [] m = m
remove_ranges (id ∷ ids) m = remove_ranges ids (remove m id)

-- the body of the loop over op.Ranges
unfoldable pub place : RangeStore → Range → RangeStore
place s r =
    if r.id == 0
    then record s {
      ranges = put s.ranges s.next_id (record r { id = s.next_id });
      next_id = next s.next_id;
    }
    else if leb s.next_id r.id
    then record s { ranges = put s.ranges r.id r; next_id = next r.id }
    else record s { ranges = put s.ranges r.id r }

unfoldable pub place_all : List Range → RangeStore → RangeStore
place_all [] s = s
place_all (r ∷ rs) s = place_all rs (place s r)

-- for t, id := range op.Assign
unfoldable pub assign_all : Map Text ℕ → Map Text ℕ → Map Text ℕ
assign_all [] m = m
assign_all ((t, id) ∷ ts) m = assign_all ts (put m t id)

-- for _, t := range op.Unassign
unfoldable pub unassign_all : List Text → Map Text ℕ → Map Text ℕ
unassign_all [] m = m
unassign_all (t ∷ ts) m = unassign_all ts (remove m t)

-- what follows the fence of `applyOpLocked`
unfoldable pub rewrite : RangeStore → RangeOp → RangeStore
unfolding remove_ranges
rewrite s op =
    let placed = place_all op.ranges (record s { ranges = remove_ranges op.remove s.ranges }) in
    record placed { assign = unassign_all op.unassign (assign_all op.assign placed.assign) }

-- `applyOpLocked`
unfoldable pub apply_op : RangeStore → RangeOp → Result RangeStore
apply_op s op = elim (check_generations s.ranges op.base_generations) [
  | some e ↦ err e
  | none ↦ ok (rewrite s op)
]
