-- ===== src/Cluster/Membership/Steps.antt =====
-- What the registry's operations keep of a member, over any sequence of them.
use super_db.Prelude.Map.{get, Map, put, get-put}
use super_db.Prelude.{
  ℕ, Text, text_instance, List, ◌≡◌, some, ◌≤◌, Bool, true, Bool-cases, false, text_eq, [], inl,
  text_eq_iff, ◌||◌, arith, inr, Option-cases, ◌&&◌, not, leb, ◌∷◌, ◌≢◌, refl, none,
}
use super_db.Cluster.Membership.{
  Membership, Member, upsert, upsert_member, merge_bulk, set_region, mark_alive, mark_suspect,
  remove_member, sweep_suspects, addr_of, State, is_alive, is_removed, sweep, write, removed,
}

-- One call of an operation.
pub data Step : Membership → Membership → Type 0 where
  upsert_step :
      {m : Membership} (now : ℕ) (id addr : Text) (state : State) (version : ℕ)
      → Step m (upsert now m id addr state version)
  merge_step : {m : Membership} (now : ℕ) (remote : List Member) → Step m (merge_bulk now remote m)
  member_step : {m : Membership} (now : ℕ) (r : Member) → Step m (upsert_member now m r)
  region_step : {m : Membership} (id region : Text) → Step m (set_region m id region)
  alive_step : {m : Membership} (now : ℕ) (id : Text) → Step m (mark_alive now m id)
  suspect_step : {m : Membership} (id : Text) → Step m (mark_suspect m id)
  remove_step : {m : Membership} (id : Text) → Step m (remove_member m id)
  sweep_step : {m : Membership} (after now : ℕ) → Step m (sweep_suspects after now m)

pub data Steps : Membership → Membership → Type 0 where
  done : {m : Membership} → Steps m m
  then : {m m' m'' : Membership} → Step m m' → Steps m' m'' → Steps m m''

-- The registry has `id`, at `version` or a later one, and as removed if `gone` says so.
abbrev pub Knows : Bool → Text → ℕ → Map Text Member → Type 0
Knows gone id version m =
    (a : Member) × (get m id ≡ some a)
    × (version ≤ a.version)
    × (gone ≡ true → is_removed a.state ≡ true)

-- A write that takes no version back and, if `gone` says so, revives nobody
abbrev Keeps : Bool → Member → Member → Type 0
Keeps gone a b =
    (a.version ≤ b.version) × (gone ≡ true → is_removed a.state ≡ true → is_removed b.state ≡ true)

Knows-put :
    (gone : Bool) (id : Text) (version : ℕ) (m : Map Text Member) (j : Text) (b : Member)
    → ((a : Member) → j ≡ id → get m j ≡ some a → Keeps gone a b)
    → Knows gone id version m
    → Knows gone id version (put m j b)
Knows-put gone id version m j b keeps (a, at, low, dead) = elim (Bool-cases (text_eq j id)) [
  | inl e ↦
      let same : j ≡ id = (text_eq_iff j id).0 e in
      let keep = keeps a same (rw same at) in
      (b, ground (arith, e, get-put m j b id), omega (arith, keep.0), (λ g. keep.1 g (dead g)))
  | inr e ↦ (a, ground (arith, e, at, get-put m j b id), low, dead)
]

-- No entry of a peer's list has `id` as alive.
abbrev pub NoneAlive : Text → List Member → Type 0
NoneAlive id [] = Unit
NoneAlive id (r ∷ rs) = (r.id ≡ id → is_alive r.state ≡ false) × NoneAlive id rs

-- The step reports nothing of `id` that makes it alive.
abbrev pub IsQuiet : {m m' : Membership} → Text → Step m m' → Type 0
IsQuiet id (upsert_step now j addr state v) = j ≡ id → is_alive state ≡ false
IsQuiet id (member_step now r) = r.id ≡ id → is_alive r.state ≡ false
IsQuiet id (merge_step now remote) = NoneAlive id remote
IsQuiet id (region_step j region) = Unit
IsQuiet id (alive_step now j) = j ≢ id
IsQuiet id (suspect_step j) = Unit
IsQuiet id (remove_step j) = Unit
IsQuiet id (sweep_step after now) = Unit

abbrev pub AreQuiet : {m m' : Membership} → Text → Steps m m' → Type 0
AreQuiet id done = Unit
AreQuiet id (then s ss) = IsQuiet id s × AreQuiet id ss

module _ (gone : Bool) (id : Text) (version : ℕ) where
  upsert-Knows :
      (now : ℕ) (m : Membership) (j addr : Text) (state : State) (v : ℕ)
      → (gone ≡ true → j ≡ id → is_alive state ≡ false)
      → Knows gone id version m.members
      → Knows gone id version (upsert now m j addr state v).members
  unfolding upsert get
  upsert-Knows now m j addr state v quiet knows =
      elim (Bool-cases (text_eq j [] || text_eq addr [])) [
        | inl e ↦ rw (upsert, e) knows
        | inr e ↦ elim (Option-cases (get m.members j)) [
          | inl n ↦
              rw (upsert, e, n)
                (Knows-put gone id version m.members j _ (λ a same at. ground (arith, n, at)) knows)
          | inr (a, at) ↦ elim (Bool-cases (is_removed a.state && not (is_alive state))) [
            | inl d ↦ rw (upsert, e, at, d) knows
            | inr d ↦ elim (Bool-cases (leb a.version v)) [
              | inl newer ↦
                  rw (upsert, e, at, d, newer)
                    (Knows-put gone id version m.members j _
                      (λ b same at'. ground (arith, at, at', d, newer, quiet, same)) knows)
              | inr older ↦
                  rw (upsert, e, at, d, older)
                    (Knows-put gone id version m.members j _ (λ b same at'. ground (arith, at, at'))
                      knows)
            ]
          ]
        ]
      ]

  upsert_member-Knows :
      (now : ℕ) (m : Membership) (r : Member)
      → (gone ≡ true → r.id ≡ id → is_alive r.state ≡ false)
      → Knows gone id version m.members
      → Knows gone id version (upsert_member now m r).members
  unfolding upsert_member get
  upsert_member-Knows now m r quiet knows =
      elim (Bool-cases (text_eq r.id [] || text_eq r.addr [])) [
        | inl e ↦ rw (upsert_member, e) knows
        | inr e ↦ elim (Option-cases (get m.members r.id)) [
          | inl n ↦
              rw (upsert_member, e, n)
                (Knows-put gone id version m.members r.id _ (λ a same at. ground (arith, n, at))
                  knows)
          | inr (a, at) ↦ elim (Bool-cases (is_removed a.state && not (is_alive r.state))) [
            | inl d ↦ rw (upsert_member, e, at, d) knows
            | inr d ↦ elim (Bool-cases (leb a.version r.version)) [
              | inl newer ↦
                  rw (upsert_member, e, at, d, newer)
                    (Knows-put gone id version m.members r.id _
                      (λ b same at'. ground (arith, at, at', d, newer, quiet, same)) knows)
              | inr older ↦
                  rw (upsert_member, e, at, d, older)
                    (Knows-put gone id version m.members r.id _
                      (λ b same at'. ground (arith, at, at')) knows)
            ]
          ]
        ]
      ]

  merge_bulk-Knows :
      (now : ℕ) (remote : List Member) (m : Membership)
      → (gone ≡ true → NoneAlive id remote)
      → Knows gone id version m.members
      → Knows gone id version (merge_bulk now remote m).members
  unfolding merge_bulk
  merge_bulk-Knows now [] m quiet knows = knows
  merge_bulk-Knows now (r ∷ rs) m quiet knows = elim (Bool-cases (text_eq r.id m.self)) [
    | inl e ↦ rw e (merge_bulk-Knows now rs m (λ g. (quiet g).1) knows)
    | inr e ↦ elim (Bool-cases (text_eq r.id [] || text_eq r.addr [])) [
      | inl d ↦ rw (e, d) (merge_bulk-Knows now rs m (λ g. (quiet g).1) knows)
      | inr d ↦
          rw (e, d)
            (merge_bulk-Knows now rs (upsert_member now m r) (λ g. (quiet g).1)
              (upsert_member-Knows now m r (λ g. (quiet g).0) knows))
    ]
  ]

  -- an operation that writes a member that is there
  write-Knows :
      (m : Membership) (j : Text) (f : Member → Member)
      → ((a : Member) → j ≡ id → Keeps gone a (f a))
      → Knows gone id version m.members
      → Knows gone id version (write m j f).members
  write-Knows m j f keeps knows = elim (Option-cases (get m.members j)) [
    | inl n ↦ rw (write, n) knows
    | inr (a, at) ↦
        rw (write, at)
          (Knows-put gone id version m.members j (f a)
            (λ b same at'. let twin : b ≡ a = ground (arith, at, at') in rw twin (keeps a same))
            knows)
  ]

  set_region-Knows :
      (m : Membership) (j region : Text)
      → Knows gone id version m.members
      → Knows gone id version (set_region m j region).members
  unfolding set_region
  set_region-Knows m j region knows = elim (Bool-cases (text_eq region [])) [
    | inl e ↦ rw e knows
    | inr e ↦ rw e (write-Knows m j _ (λ a same. ground arith) knows)
  ]

  mark_alive-Knows :
      (now : ℕ) (m : Membership) (j : Text)
      → (gone ≡ true → j ≢ id)
      → Knows gone id version m.members
      → Knows gone id version (mark_alive now m j).members
  unfolding mark_alive
  mark_alive-Knows now m j quiet knows =
      write-Knows m j _ (λ a same. (omega arith, λ g d. absurd (quiet g same))) knows

  mark_suspect-Knows :
      (m : Membership) (j : Text)
      → Knows gone id version m.members
      → Knows gone id version (mark_suspect m j).members
  unfolding mark_suspect
  mark_suspect-Knows m j knows = write-Knows m j _ (λ a same. ground arith) knows

  remove_member-Knows :
      (m : Membership) (j : Text)
      → Knows gone id version m.members
      → Knows gone id version (remove_member m j).members
  unfolding remove_member
  remove_member-Knows m j knows = elim (Option-cases (get m.members j)) [
    | inl n ↦ rw (remove_member, n) knows
    | inr (a, at) ↦
        rw (remove_member, at)
          (Knows-put gone id version m.members j _ (λ b same at'. ground (arith, at, at')) knows)
  ]

  sweep-Knows :
      (after now : ℕ) (self : Text) (m : Map Text Member)
      → Knows gone id version m
      → Knows gone id version (sweep after now self m)
  unfolding sweep get
  sweep-Knows after now self [] knows = knows
  sweep-Knows after now self ((j, b) ∷ m) (a, at, low, dead) = elim (Bool-cases (text_eq j id)) [
    | inl e ↦ rw e (_, refl, ground (arith, e, at, low), λ g. ground (arith, e, at, dead g))
    | inr e ↦ rw e (sweep-Knows after now self m (a, ground (arith, e, at), low, dead))
  ]

  Step-Knows :
      {m m' : Membership} (step : Step m m')
      → (gone ≡ true → IsQuiet id step)
      → Knows gone id version m.members
      → Knows gone id version m'.members
  unfolding sweep_suspects
  Step-Knows {m} (upsert_step now j addr state v) quiet knows =
      upsert-Knows now m j addr state v quiet knows
  Step-Knows {m} (member_step now r) quiet knows = upsert_member-Knows now m r quiet knows
  Step-Knows {m} (merge_step now remote) quiet knows = merge_bulk-Knows now remote m quiet knows
  Step-Knows {m} (region_step j region) quiet knows = set_region-Knows m j region knows
  Step-Knows {m} (alive_step now j) quiet knows = mark_alive-Knows now m j quiet knows
  Step-Knows {m} (suspect_step j) quiet knows = mark_suspect-Knows m j knows
  Step-Knows {m} (remove_step j) quiet knows = remove_member-Knows m j knows
  Step-Knows {m} (sweep_step after now) quiet knows = sweep-Knows after now m.self m.members knows

  Steps-Knows :
      {m m' : Membership} (steps : Steps m m')
      → (gone ≡ true → AreQuiet id steps)
      → Knows gone id version m.members
      → Knows gone id version m'.members
  Steps-Knows done quiet knows = knows
  Steps-Knows (then s ss) quiet knows =
      Steps-Knows ss (λ g. (quiet g).1) (Step-Knows s (λ g. (quiet g).0) knows)

-- No operation forgets a member or takes its version back: what the registry has of an id is there
-- after any sequence of operations, at the same version or at a later one.
pub steps_keep_version :
    (m m' : Membership) (id : Text) (a : Member)
    → Steps m m'
    → get m.members id ≡ some a
    → (b : Member) × (get m'.members id ≡ some b) × (a.version ≤ b.version)
steps_keep_version m m' id a steps at =
    let (b, at', low, dead) =
      Steps-Knows false id a.version steps (λ g. ground (arith, g))
        (a, at, omega arith, λ g. ground (arith, g)) in
    (b, at', low)

-- A removed member stays removed, and has no address, over any sequence of operations in which no peer
-- reports it alive and no health check of it succeeds.
pub steps_keep_tombstone :
    (m m' : Membership) (id : Text) (a : Member) (steps : Steps m m')
    → AreQuiet id steps
    → get m.members id ≡ some a
    → a.state ≡ removed
    → addr_of m' id ≡ none
unfolding addr_of
steps_keep_tombstone m m' id a steps quiet at gone =
    let (b, at', low, dead) =
      Steps-Knows true id a.version steps (λ g. quiet) (a, at, omega arith, λ g. rw gone refl) in
    ground (arith, at', dead refl)
