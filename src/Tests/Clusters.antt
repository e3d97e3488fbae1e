-- ===== src/Tests/Clusters.antt =====
-- The range directory and the member registry of a small cluster.
use super_db.Cluster.Ranges.Fencing.{apply_op_once}
use super_db.Cluster.Membership.Steps.{
  upsert_step, sweep_step, done, then, steps_keep_tombstone, then,
}
use super_db.Cluster.Ranges.Serving.{table_range_same}
use super_db.Prelude.Map.{get}
use super_db.Cluster.Ranges.Ids.{IsNumbered}
use super_db.Cluster.Ranges.{
  ok, Range, RangeOp, RangeStore, apply_op, table_range, rewrite, check_generations,
}
use super_db.Cluster.Membership.{
  Member, Membership, addr_of, sweep_suspects, upsert, alive, removed, suspect,
}
use super_db.Prelude.{
  nat_eq, text_instance, [], codes, ◌∷◌, ◌≡◌, ◌≢◌, none, arith, refl, inl, text_eq,
}

abbrev whole : Range
whole = record {
  id = 1;
  start_key = [];
  end_key = [];
  replicas = codes "a" ∷ [];
  leader = codes "a";
  generation = 1;
}

abbrev directory : RangeStore
directory = record { ranges = (1, whole) ∷ []; assign = []; next_id = 2 }

-- A split: the range keeps its lower half under a new generation, and a new range takes the rest.
abbrev split : RangeOp
split = record {
  ranges =
      record whole { end_key = codes "m"; generation = 2 }
      ∷ record whole { id = 0; start_key = codes "m" }
      ∷ [];
  remove = [];
  assign = [];
  unassign = [];
  base_generations = (1, 1) ∷ [];
}

abbrev halves : RangeStore
halves = rewrite directory split

apply_op_once_example : apply_op halves split ≢ ok halves
unfolding apply_op check_generations get
apply_op_once_example =
    apply_op_once directory halves halves split 1 1 (omega arith, (omega arith, tt)) (omega arith)
      (omega arith) (inl refl) ((λ e h. absurd (omega arith)), ((λ e h. absurd (omega arith)), tt))
      refl refl

-- The same two ranges, in two orders
abbrev left : RangeStore
left = record { ranges = (1, whole) ∷ (2, record whole { id = 2 }) ∷ []; assign = []; next_id = 3 }

abbrev right : RangeStore
right = record left { ranges = (2, record whole { id = 2 }) ∷ (1, whole) ∷ [] }

left-IsNumbered : IsNumbered left
unfolding get
left-IsNumbered k r g = ground arith

table_range_same_example : table_range left (codes "t") ≡ table_range right (codes "t")
unfolding get
table_range_same_example =
    table_range_same left right (codes "t") (refl, (refl, tt)) (refl, (refl, tt)) left-IsNumbered
      (λ k. ground arith) (λ name. refl)

abbrev peer : Member
peer = record {
  id = codes "b";
  addr = codes "b:1";
  state = removed;
  last_seen = 5;
  version = 4;
  region = [];
}

abbrev registry : Membership
registry = record {
  members = (codes "a", record peer { id = codes "a"; state = alive }) ∷ (codes "b", peer) ∷ [];
  self = codes "a";
  version = 2;
}

-- A peer reports the member as suspect, and the suspects are swept.
abbrev reported : Membership
reported = upsert 9 registry (codes "b") (codes "b:2") suspect 8

steps_keep_tombstone_example : addr_of (sweep_suspects 3 20 reported) (codes "b") ≡ none
unfolding get text_eq
steps_keep_tombstone_example =
    steps_keep_tombstone registry (sweep_suspects 3 20 reported) (codes "b") peer
      (then (upsert_step 9 (codes "b") (codes "b:2") suspect 8) (then (sweep_step 3 20) done))
      ((λ e. refl), (tt, tt)) refl refl
