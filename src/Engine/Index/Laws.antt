-- ===== src/Engine/Index/Laws.antt =====
-- What each index operation does to the keys that are posted under a column and a value.
use super_db.Engine.Value.{Floats, Row, value_key, cell}
use super_db.Prelude.{
  Option-cases, ◌≡◌, refl, Bool, true, false, ◌&&◌, List, [], ◌∷◌, Option, none, some, Text, arith,
  if◌then◌else◌, text_eq, text_eq_iff, text_instance, inl, inr, ◌∙◌,
}
use super_db.Prelude.Map.{get, put, remove, has, get_or, get-put, get-remove}
use super_db.Engine.Index.{
  Keys, Index, Indexes, add_key, is_empty, remove_key, add_index_value, columns_of,
  remove_index_value, add_columns, remove_columns, add_row, remove_row,
}

abbrev pub member : Option Keys → Text → Bool
member none k = false
member (some s) k = has s k

abbrev pub posted_in : Option Index → Text → Text → Bool
posted_in none v k = false
posted_in (some idx) v k = member (get idx v) k

-- Is `k` posted under the value `v` of column `c`?
unfoldable pub posted : Indexes → Text → Text → Text → Bool
posted ix c v k = posted_in (get ix c) v k

unfoldable pub contains : List Text → Text → Bool
contains [] c = false
contains (x ∷ xs) c = if text_eq x c then true else contains xs c

member-get_or : (o : Option Keys) (k : Text) → has (get_or o []) k ≡ member o k
unfolding has get
member-get_or none k = refl
member-get_or (some s) k = refl

pub member-add_key :
    (idx : Index) (v k w j : Text)
    → member (get (add_key idx v k) w) j
      ≡ (if text_eq v w && text_eq k j then true else member (get idx w) j)
unfolding add_key has
member-add_key idx v k w j = ground (
  arith,
  get-put idx v (put (get_or (get idx v) []) k tt) w,
  get-put (get_or (get idx v) []) k tt j,
  member-get_or (get idx v) j,
  text_eq_iff v w,
)

is_empty-has : (s : Keys) (j : Text) → is_empty s ≡ true → has s j ≡ false
unfolding is_empty has get
is_empty-has [] j h = refl
is_empty-has (x ∷ s) j h = cc

member-remove_key :
    (idx : Index) (v k w j : Text)
    → member (get (remove_key idx v k) w) j
      ≡ (if text_eq v w && text_eq k j then false else member (get idx w) j)
unfolding remove_key has
member-remove_key idx v k w j = ground (
  arith,
  get-put idx v (remove (get_or (get idx v) []) k) w,
  get-remove idx v w,
  get-remove (get_or (get idx v) []) k j,
  is_empty-has (remove (get_or (get idx v) []) k) j,
  member-get_or (get idx v) j,
  text_eq_iff v w,
)

pub posted-add_index_value :
    (ix : Indexes) (c v k d w j : Text)
    → posted (add_index_value ix c v k) d w j
      ≡ (if has ix c && text_eq c d && text_eq v w && text_eq k j then true else posted ix d w j)
unfolding posted add_index_value has
posted-add_index_value ix c v k d w j = elim (Option-cases (get ix c)) [
  | inl e ↦ ground arith
  | inr (idx, e) ↦
      ground
        (arith, e, get-put ix c (add_key idx v k) d, member-add_key idx v k w j, text_eq_iff c d)
]

pub posted-remove_index_value :
    (ix : Indexes) (c v k d w j : Text)
    → posted (remove_index_value ix c v k) d w j
      ≡ (if text_eq c d && text_eq v w && text_eq k j then false else posted ix d w j)
unfolding posted remove_index_value has
posted-remove_index_value ix c v k d w j = elim (Option-cases (get ix c)) [
  | inl e ↦ ground (arith, text_eq_iff c d)
  | inr (idx, e) ↦ ground (
    arith,
    e,
    get-put ix c (remove_key idx v k) d,
    member-remove_key idx v k w j,
    text_eq_iff c d,
  )
]

pub has-add_index_value :
    (ix : Indexes) (c v k d : Text) → has (add_index_value ix c v k) d ≡ has ix d
unfolding add_index_value has
has-add_index_value ix c v k d = elim (Option-cases (get ix c)) [
  | inl e ↦ ground arith
  | inr (idx, e) ↦ ground (arith, e, get-put ix c (add_key idx v k) d, text_eq_iff c d)
]

pub has-remove_index_value :
    (ix : Indexes) (c v k d : Text) → has (remove_index_value ix c v k) d ≡ has ix d
unfolding remove_index_value has
has-remove_index_value ix c v k d = elim (Option-cases (get ix c)) [
  | inl e ↦ ground arith
  | inr (idx, e) ↦ ground (arith, e, get-put ix c (remove_key idx v k) d, text_eq_iff c d)
]

contains-columns_of : (ix : Indexes) (c : Text) → contains (columns_of ix) c ≡ has ix c
unfolding contains columns_of has get
contains-columns_of [] c = refl
contains-columns_of ((d, i) ∷ ix) c = ground (arith, contains-columns_of ix c)

module _ {F : Type 0} ⦃fl : Floats F⦄ where
  -- `key` is posted for `row` under `v` of column `c`.
  abbrev posts : Row F → Text → Text → Text → Text → Bool
  posts row key c v j = text_eq (value_key (cell row c)) v && text_eq key j

  posted-add_columns :
      (cs : List Text) (ix : Indexes) (row : Row F) (key c v j : Text)
      → posted (add_columns cs ix row key) c v j
        ≡ (if has ix c && contains cs c && posts row key c v j then true else posted ix c v j)
  unfolding add_columns contains
  posted-add_columns [] ix row key c v j = ground arith
  posted-add_columns (d ∷ cs) ix row key c v j =
      rw (posted-add_columns cs (add_index_value ix d (value_key (cell row d)) key) row key c v j)
        ground
        (
          arith,
          posted-add_index_value ix d (value_key (cell row d)) key c v j,
          has-add_index_value ix d (value_key (cell row d)) key c,
          text_eq_iff d c,
        )

  posted-remove_columns :
      (cs : List Text) (ix : Indexes) (row : Row F) (key c v j : Text)
      → posted (remove_columns cs ix row key) c v j
        ≡ (if contains cs c && posts row key c v j then false else posted ix c v j)
  unfolding remove_columns contains
  posted-remove_columns [] ix row key c v j = ground arith
  posted-remove_columns (d ∷ cs) ix row key c v j =
      rw
        (posted-remove_columns cs (remove_index_value ix d (value_key (cell row d)) key) row key c v
          j)
        ground
        (arith, posted-remove_index_value ix d (value_key (cell row d)) key c v j, text_eq_iff d c)

  has-add_columns :
      (cs : List Text) (ix : Indexes) (row : Row F) (key c : Text)
      → has (add_columns cs ix row key) c ≡ has ix c
  unfolding add_columns
  has-add_columns [] ix row key c = refl
  has-add_columns (d ∷ cs) ix row key c =
      has-add_columns cs (add_index_value ix d (value_key (cell row d)) key) row key c
      ∙ has-add_index_value ix d (value_key (cell row d)) key c

  has-remove_columns :
      (cs : List Text) (ix : Indexes) (row : Row F) (key c : Text)
      → has (remove_columns cs ix row key) c ≡ has ix c
  unfolding remove_columns
  has-remove_columns [] ix row key c = refl
  has-remove_columns (d ∷ cs) ix row key c =
      has-remove_columns cs (remove_index_value ix d (value_key (cell row d)) key) row key c
      ∙ has-remove_index_value ix d (value_key (cell row d)) key c

  pub posted-add_row :
      (ix : Indexes) (row : Row F) (key c v j : Text)
      → posted (add_row ix row key) c v j ≡ (
          if has ix c && text_eq (value_key (cell row c)) v && text_eq key j
          then true
          else posted ix c v j)
  unfolding add_row
  posted-add_row ix row key c v j =
      ground (arith, posted-add_columns (columns_of ix) ix row key c v j, contains-columns_of ix c)

  pub posted-remove_row :
      (ix : Indexes) (row : Row F) (key c v j : Text)
      → posted (remove_row ix row key) c v j ≡ (
          if has ix c && text_eq (value_key (cell row c)) v && text_eq key j
          then false
          else posted ix c v j)
  unfolding remove_row
  posted-remove_row ix row key c v j =
      ground
        (arith, posted-remove_columns (columns_of ix) ix row key c v j, contains-columns_of ix c)

  pub has-add_row :
      (ix : Indexes) (row : Row F) (key c : Text) → has (add_row ix row key) c ≡ has ix c
  unfolding add_row
  has-add_row ix row key c = has-add_columns (columns_of ix) ix row key c

  pub has-remove_row :
      (ix : Indexes) (row : Row F) (key c : Text) → has (remove_row ix row key) c ≡ has ix c
  unfolding remove_row
  has-remove_row ix row key c = has-remove_columns (columns_of ix) ix row key c
