-- ===== src/Engine/Outcome.antt =====
-- internal/engine/cancel.go, and how a statement on a table ends.
use super_db.Prelude.{false, ℕ, Bool, ◌+◌, ◌%◌, ◌^◌, if◌then◌else◌, not, ◌==◌, ◌&&◌}

-- The errors of the statements on rows. `out_of_fuel` belongs to the model only.
pub data Failure : Type 0 where
  cancelled duplicate_primary_key out_of_fuel : Failure

-- `ok n` is Result{Affected: n}.
pub data Outcome : Type 0 where
  ok : ℕ → Outcome
  fail : Failure → Outcome

-- `expired n` says whether the context is done when it is polled at tick `n`.
abbrev pub Context : Type 0
Context = ℕ → Bool

-- `rowTicker.tick`: the counter after it, and whether the context ended the scan.
unfoldable pub tick : Context → ℕ → ℕ × Bool
tick expired n =
    let n' = (n + 1) % 2 ^ 32 in
    (n', if not (n' == 1) && not (n' % 64 == 0) then false else expired n')

-- A context that is never done.
abbrev pub background : Context
background n = false
