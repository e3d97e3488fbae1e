-- ===== src/Tests/Slots.antt =====
-- A listener with one slot for queries.
use super_db.Prelude.{some, arith, refl}
use super_db.Prelude.Decimal.{pos}
use super_db.Server.Limits.{
  Limits, Limiter, new_limiter, acquire_query, slots_for, send, slot_free, timer_fired, busy,
}
use super_db.Server.Limits.InFlight.{
  done, more, query_taken, query_refused, in_flight-IsBounded, IsBounded,
}

abbrev limits : Limits
limits = record { max_connections = pos 0; max_inflight_queries = pos 1 }

abbrev full : Limiter
full = record (new_limiter limits) { query_sem = some (record { cap = 1; used = 1 }) }

in_flight-IsBounded_example : IsBounded (pos 0) 0 × IsBounded (pos 1) 1
unfolding new_limiter slots_for acquire_query send
in_flight-IsBounded_example =
    in_flight-IsBounded limits (record full { rejected_queries = 1 }) 0 1
      (more (query_taken slot_free refl)
        (more (query_refused timer_fired busy refl (ground arith)) done))
