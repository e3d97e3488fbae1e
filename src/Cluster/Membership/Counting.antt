-- ===== src/Cluster/Membership/Counting.antt =====
-- The registry's views of itself agree, and a sweep is what its timeout says.
use super_db.Prelude.Map.{Map, get}
use super_db.Prelude.{
  Option, none, some, [], ◌∷◌, ℕ, Text, text_instance, if◌then◌else◌, ◌≡◌, Option, text_eq, ◌+◌,
  length, arith, ◌&&◌, ltb, ◌-◌, Bool-cases, some, inl, text_eq_iff, inr, refl,
}
use super_db.Cluster.Membership.{
  Membership, Member, list, count, sweep, sweep_suspects, State, is_alive, suspect,
}

-- The number of visible members is that of the members listed.
pub count-list : (m : Map Text Member) (n : ℕ) → count m n ≡ n + length (list m)
unfolding count list
count-list [] n = omega arith
count-list ((id, a) ∷ m) n = ground (arith, count-list m n, count-list m (n + 1))

-- What a sweep makes of the member `id`
abbrev pub expected : ℕ → ℕ → Text → Text → Member → State
expected after now self id a =
    if text_eq id self
    then a.state
    else if is_alive a.state && ltb after (now - a.last_seen)
    then suspect
    else a.state

abbrev pub swept : ℕ → ℕ → Text → Text → Option Member → Option Member
swept after now self id none = none
swept after now self id (some a) = some (record a { state = expected after now self id a })

get-sweep :
    (after now : ℕ) (self : Text) (m : Map Text Member) (id : Text)
    → get (sweep after now self m) id ≡ swept after now self id (get m id)
unfolding sweep get
get-sweep after now self [] id = refl
get-sweep after now self ((j, a) ∷ m) id = elim (Bool-cases (text_eq j id)) [
  | inl e ↦ let same : j ≡ id = (text_eq_iff j id).0 e in ground (arith, e, same)
  | inr e ↦ rw e (get-sweep after now self m id)
]

-- A sweep makes suspect the alive members other than the node itself that were last seen more than
-- `after` ago, and changes nothing else of anybody.
pub sweep_suspects_lem :
    (after now : ℕ) (m : Membership) (id : Text)
    → get (sweep_suspects after now m).members id ≡ swept after now m.self id (get m.members id)
unfolding sweep_suspects
sweep_suspects_lem after now m id = get-sweep after now m.self m.members id
