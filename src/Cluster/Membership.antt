-- ===== src/Cluster/Membership.antt =====
-- internal/cluster/membership.go: the registry of known nodes. `now` is what time.Now returns, in
-- nanoseconds since some instant before every reading; versions are uint64. No member's pointer leaves
-- the registry, so that a member is a value here.
use super_db.Prelude.Map.{Map, get, put}
pub mod Steps
pub mod Counting
use super_db.Prelude.{
  ℕ, Text, Bool, List, Option, [], if◌then◌else◌, ◌+◌, false, none, some, text_eq, true, ◌%◌, ◌∷◌,
  text_instance, ◌^◌, ◌||◌, not, ◌&&◌, leb, ltb, ◌-◌,
}

-- `State`: any other string can come from a peer.
pub data State : Type 0 where
  alive suspect leaving removed : State
  other : Text → State

pub record Member : Type 0 where
  pub id : Text
  pub addr : Text
  pub state : State
  pub last_seen : ℕ
  pub version : ℕ
  pub region : Text

pub record Membership : Type 0 where
  pub members : Map Text Member
  pub self : Text
  pub version : ℕ

-- m.version++
abbrev pub next : ℕ → ℕ
next x = (x + 1) % 2 ^ 64

abbrev pub is_alive : State → Bool
is_alive alive = true
is_alive _ = false

abbrev pub is_removed : State → Bool
is_removed removed = true
is_removed _ = false

unfoldable pub new_membership : ℕ → Text → Text → Membership
new_membership now id addr = record {
  members =
      (
        id,
        record { id = id; addr = addr; state = alive; last_seen = now; version = 1; region = [] },
      )
      ∷ [];
  self = id;
  version = 0;
}

-- `Upsert`
unfoldable pub upsert : ℕ → Membership → Text → Text → State → ℕ → Membership
upsert now m id addr state version =
    if text_eq id [] || text_eq addr [] then m else elim (get m.members id) [
      | none ↦ record m {
        members = put m.members id (record {
          id = id;
          addr = addr;
          state = state;
          last_seen = now;
          version = version;
          region = [];
        });
        version = next m.version;
      }
      | some a ↦
          if is_removed a.state && not (is_alive state)
          then m
          else if leb a.version version
          then record m {
            members =
                put m.members id
                  (record a { addr = addr; state = state; version = version; last_seen = now });
            version = next m.version;
          }
          else record m { members = put m.members id (record a { last_seen = now }) }
    ]

-- `if r.Region != "" { existing.Region = r.Region }`
abbrev pub with_region : Member → Text → Member
with_region a region = if text_eq region [] then a else record a { region = region }

unfoldable pub upsert_member : ℕ → Membership → Member → Membership
upsert_member now m r =
    if text_eq r.id [] || text_eq r.addr [] then m else elim (get m.members r.id) [
      | none ↦ record m {
        members = put m.members r.id (record r { last_seen = now });
        version = next m.version;
      }
      | some a ↦
          if is_removed a.state && not (is_alive r.state)
          then m
          else if leb a.version r.version
          then record m {
            members =
                put m.members r.id
                  (record (with_region
                    (record a { addr = r.addr; state = r.state; version = r.version }) r.region) {
                      last_seen = now;
                    });
            version = next m.version;
          }
          else record m {
            members = put m.members r.id (record (with_region a r.region) { last_seen = now });
          }
    ]

-- `MergeBulk`, with one reading of the clock for the list
unfoldable pub merge_bulk : ℕ → List Member → Membership → Membership
merge_bulk now [] m = m
merge_bulk now (r ∷ rs) m =
    if text_eq r.id m.self
    then merge_bulk now rs m
    else if text_eq r.id [] || text_eq r.addr []
    then merge_bulk now rs m
    else merge_bulk now rs (upsert_member now m r)

-- the operations below write a member that is there
abbrev pub write : Membership → Text → (Member → Member) → Membership
write m id f = elim (get m.members id) [
  | none ↦ m
  | some a ↦ record m { members = put m.members id (f a) }
]

unfoldable pub set_region : Membership → Text → Text → Membership
set_region m id region =
    if text_eq region [] then m else write m id (λ a. record a { region = region })

unfoldable pub mark_alive : ℕ → Membership → Text → Membership
mark_alive now m id = write m id (λ a. record a { state = alive; last_seen = now })

unfoldable pub mark_suspect : Membership → Text → Membership
mark_suspect m id = write m id (λ a. if is_alive a.state then record a { state = suspect } else a)

-- `Remove`
unfoldable pub remove_member : Membership → Text → Membership
remove_member m id = elim (get m.members id) [
  | none ↦ m
  | some a ↦ record m {
    members = put m.members id (record a { state = removed });
    version = next m.version;
  }
]

-- `AddrOf`
unfoldable pub addr_of : Membership → Text → Option Text
addr_of m id = elim (get m.members id) [
  | none ↦ none
  | some a ↦ if is_removed a.state then none else some a.addr
]

-- the loop of `List`
unfoldable pub list : Map Text Member → List Member
list [] = []
list ((id, a) ∷ m) = let rest = list m in if is_removed a.state then rest else a ∷ rest

-- the loop of `Count`
unfoldable pub count : Map Text Member → ℕ → ℕ
count [] n = n
count ((id, a) ∷ m) n = count m (if is_removed a.state then n else n + 1)

-- the loop of `SweepSuspects`, for an `after` that is not negative: a member seen later than `now`
-- has a negative age in Go and the age 0 here, and neither is above `after`.
unfoldable pub sweep : ℕ → ℕ → Text → Map Text Member → Map Text Member
sweep after now self [] = []
sweep after now self ((id, a) ∷ m) =
    (
      id,
      (if text_eq id self || not (is_alive a.state)
          then a
          else if ltb after (now - a.last_seen)
          then record a { state = suspect }
          else a),
    )
    ∷ sweep after now self m

-- `SweepSuspects`
unfoldable pub sweep_suspects : ℕ → ℕ → Membership → Membership
sweep_suspects after now m = record m { members = sweep after now m.self m.members }
