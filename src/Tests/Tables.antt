-- ===== src/Tests/Tables.antt =====
-- The statements on a small table.
use super_db.Engine.Index.{remove_row, remove_columns, remove_index_value, remove_key, columns_of}
use super_db.Engine.Update.Ordered.{update-IsOrdered}
use super_db.Prelude.Decimal.{pos, format_int, format_uint}
use super_db.Engine.Update.Indexed.{update-IsIndexed}
use super_db.Engine.Value.{text, value_key, primary_column}
use super_db.Engine.Insert.Synthetic.{next_synthetic_key_lem}
use super_db.Engine.Delete.Indexed.{delete-IsIndexed}
use super_db.Engine.Delete.Ordered.{delete_scan_cancelled, delete-IsOrdered}
use super_db.Engine.Update.{move_row, rekey_primary, rename_first, update}
use super_db.Engine.Select.Rows.{Query, row_test, select_ordered}
use super_db.Engine.Select.Scan.{Lines, answer}
use super_db.Engine.Select.Twice.{select_ordered-rekeyed}
use super_db.Tests.Orders.{sorting}
use super_db.Prelude.Map.{has, get, put, remove}
use super_db.Engine.Table.Order.{IsOrdered, occurs}
use super_db.Engine.Table.Frame.{IsIndexed}
use super_db.Engine.Table.{Table, next_synthetic_key, rekey_fast_row, remove_fast_row}
use super_db.Engine.Outcome.{Context, background, tick}
use super_db.Prelude.{
  ℕ, Text, length, true, ◌≡◌, ◌≤◌, codes, false, none, some, arith, text_instance, ◌∷◌, [],
  text_eq_iff, text_eq, refl,
}
use super_db.Engine.Value.{int}
use super_db.Tests.Data.{
  whole_floats, settled, people, every, nobody, bob, people-IsIndexed, settled-IsOrdered, apart,
}
use super_db.Engine.Delete.{delete, delete_scan, delete_rows, drop_row, reap_fast}

delete-IsIndexed_example :
    IsIndexed (delete background people (codes "city") (codes "Rome") false every).0
delete-IsIndexed_example =
    delete-IsIndexed background people (codes "city") (codes "Rome") false every people-IsIndexed

delete-IsOrdered_example :
    IsOrdered (delete background settled (codes "city") (codes "Rome") false every).0
unfolding delete primary_column delete_scan tick delete_rows drop_row remove_row remove_columns
    remove_index_value remove_key columns_of get put remove text_eq value_key format_int format_uint
    reap_fast remove_fast_row
delete-IsOrdered_example =
    delete-IsOrdered background settled (codes "city") (codes "Rome") false every 2
      settled-IsOrdered refl

update-IsIndexed_example :
    IsIndexed
      (update background people
        (codes "city")
        (text (codes "Bonn"))
        (codes "id")
        (codes "1")
        true
        every).0
update-IsIndexed_example =
    update-IsIndexed background people (codes "city") (text (codes "Bonn")) (codes "id") (codes "1")
      true every people-IsIndexed

update-IsOrdered_example :
    IsOrdered
      (update background settled (codes "id") (int (pos 7)) (codes "id") (codes "1") true every).0
unfolding value_key format_int format_uint occurs text_eq has get
update-IsOrdered_example =
    update-IsOrdered background settled (codes "id") (int (pos 7)) (codes "id") (codes "1") true
      every settled-IsOrdered (ground (arith)) (λ h. refl)

-- The row 2 with 1 deleted just before: a tombstone is in the order.
abbrev buried : Table ℕ
buried = record nobody {
  rows = (codes "2", bob) ∷ [];
  order = codes "1" ∷ codes "2" ∷ [];
  dead = 1;
}

buried-IsOrdered : IsOrdered buried
unfolding has get occurs
buried-IsOrdered = record {
  once = λ k h. ground (arith, h, apart, text_eq_iff (codes "1") k, text_eq_iff (codes "2") k);
  clean = λ d k h. absurd (omega arith);
}

-- SELECT city FROM people
abbrev every_city : Query
every_city = record {
  names = codes "city" ∷ [];
  distinct = false;
  condition = [];
  order_column = [];
  descending = false;
  limit = none;
  offset = 0;
  max_rows = 0;
}

select_ordered-rekeyed_example :
    (lines : Lines ℕ) × (select_ordered background
        (λ s. s)
        sorting
        (λ lt entries. entries)
        (rekey_primary buried (codes "2") bob (int (pos 1))).0
        every_city
        []
      ≡ answer lines)
    × (2 ≤ length lines)
unfolding value_key format_int format_uint occurs text_eq has get rekey_primary move_row
    rename_first row_test rekey_fast_row
select_ordered-rekeyed_example =
    select_ordered-rekeyed (λ s. s) sorting (λ lt entries. entries) buried (codes "2") bob
      (int (pos 1)) every_city [] buried-IsOrdered refl refl refl refl refl refl refl refl refl refl
      (omega arith)

-- A context that is done when it is first asked
abbrev done : Context
done n = true

delete_scan_cancelled_example :
    (length (delete_scan done every settled).0.order ≡ length settled.order)
    × ((delete_scan done every settled).0.dead ≡ settled.dead)
unfolding delete_scan tick delete_rows drop_row remove_row remove_columns remove_index_value
    remove_key columns_of get put remove text_eq value_key format_int format_uint reap_fast
    remove_fast_row
delete_scan_cancelled_example = delete_scan_cancelled done every settled refl

next_synthetic_key_lem_example :
    (r : Text × ℕ) × (next_synthetic_key 3 settled.rows 0 ≡ some r) × (has settled.rows r.0 ≡ false)
next_synthetic_key_lem_example = next_synthetic_key_lem 3 settled.rows 0 (omega arith) (omega arith)
