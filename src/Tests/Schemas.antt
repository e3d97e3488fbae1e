-- ===== src/Tests/Schemas.antt =====
-- The schema's statements on a table of two rows.
use super_db.Engine.Outcome.{Context, background, tick}
use super_db.Engine.Schema.{create_index, drop_column, refused, cancelled, ok}
use super_db.Engine.Schema.Columns.{drop_column-IsIndexed}
use super_db.Engine.Schema.Indexed.{create_index-IsIndexed}
use super_db.Engine.Table.Frame.{IsIndexed}
use super_db.Engine.Value.{has_column}
use super_db.Engine.Insert.{apply_insert_rows, check_batch}
use super_db.Engine.Table.{append_fast_row}
use super_db.Prelude.Map.{has, put}
use super_db.Prelude.{codes, text_eq, ◌≡◌, ◌≢◌, refl, true, arith}
use super_db.Tests.Data.{whole_floats, people, people-IsIndexed}

-- A context that is done
abbrev expired : Context
expired n = true

create_index-IsIndexed_example :
    IsIndexed (create_index background people (codes "by_id") (codes "id")).0
create_index-IsIndexed_example =
    create_index-IsIndexed background people (codes "by_id") (codes "id") people-IsIndexed

dropped : (drop_column background people (codes "city")).1 ≡ ok
unfolding drop_column apply_insert_rows check_batch tick text_eq has put append_fast_row has_column
dropped = refl

not_ended : (drop_column background people (codes "city")).1 ≢ refused cancelled
not_ended h = ground (arith, dropped, h)

drop_column-IsIndexed_example : IsIndexed (drop_column background people (codes "city")).0
drop_column-IsIndexed_example =
    drop_column-IsIndexed background people (codes "city") not_ended people-IsIndexed
