-- ===== src/Server/Limits.antt =====
-- internal/server/limits.go: the slots for connections and queries. A nil Limiter does what one with no
-- caps does. Each method is one step: the channel that stands for the slots makes it one.
pub mod InFlight
use super_db.Prelude.{
  ℕ, Text, Bool, Option, false, if◌then◌else◌, inl, inr, none, some, true, ltb, ◌+◌, ◌==◌, ◌%◌, ◌-◌,
  ◌^◌,
}
use super_db.Prelude.Decimal.{ℤ, pos, negsuc}

-- The fields of `Limits` that the limiter reads. Timeouts only decide which wakeup comes.
pub record Limits : Type 0 where
  pub max_connections : ℤ
  pub max_inflight_queries : ℤ

-- A channel of empty structs: its capacity and how many stand in it
pub record Slots : Type 0 where
  pub cap : ℕ
  pub used : ℕ

-- A semaphore that is none is a nil channel. The counters are uint64.
pub record Limiter : Type 0 where
  pub conn_sem : Option Slots
  pub query_sem : Option Slots
  pub rejected_conns : ℕ
  pub rejected_queries : ℕ

-- if l.MaxConnections > 0 { make(chan struct{}, l.MaxConnections) }
unfoldable pub slots_for : ℤ → Option Slots
slots_for (pos n) = if n == 0 then none else some (record { cap = n; used = 0 })
slots_for (negsuc n) = none

-- `NewLimiter`
unfoldable pub new_limiter : Limits → Limiter
new_limiter l = record {
  conn_sem = slots_for l.max_connections;
  query_sem = slots_for l.max_inflight_queries;
  rejected_conns = 0;
  rejected_queries = 0;
}

-- A send that does not wait: none where the channel is full
unfoldable pub send : Slots → Option Slots
send s = if ltb s.used s.cap then some (record s { used = s.used + 1 }) else none

-- A receive: none where it would block
unfoldable pub receive : Slots → Option Slots
receive s = if s.used == 0 then none else some (record s { used = s.used - 1 })

-- `AcquireConn`
unfoldable pub acquire_conn : Limiter → Limiter × Bool
acquire_conn l = elim l.conn_sem [
  | none ↦ (l, true)
  | some s ↦ elim (send s) [
    | some s' ↦ (record l { conn_sem = some s' }, true)
    | none ↦ (record l { rejected_conns = (l.rejected_conns + 1) % 2 ^ 64 }, false)
  ]
]

-- `ReleaseConn`; none where it blocks
unfoldable pub release_conn : Limiter → Option Limiter
release_conn l = elim l.conn_sem [
  | none ↦ some l
  | some s ↦ elim (receive s) [ none ↦ none | some s' ↦ some (record l { conn_sem = some s' }) ]
]

-- Which case of the select in `AcquireQuery` is taken
pub data Wakeup : Type 0 where
  slot_free context_done timer_fired : Wakeup

pub data Admission : Type 0 where
  admitted context_error busy : Admission

-- `AcquireQuery`; none where the case that is taken cannot be, the channel being full
unfoldable pub acquire_query : Wakeup → Limiter → Option (Limiter × Admission)
acquire_query wake l = elim l.query_sem [
  | none ↦ some (l, admitted)
  | some s ↦ elim wake [
    | slot_free ↦ elim (send s) [
      | none ↦ none
      | some s' ↦ some (record l { query_sem = some s' }, admitted)
    ]
    | context_done ↦
        some (record l { rejected_queries = (l.rejected_queries + 1) % 2 ^ 64 }, context_error)
    | timer_fired ↦ some (record l { rejected_queries = (l.rejected_queries + 1) % 2 ^ 64 }, busy)
  ]
]

-- `ReleaseQuery`; none where it blocks
unfoldable pub release_query : Limiter → Option Limiter
release_query l = elim l.query_sem [
  | none ↦ some l
  | some s ↦ elim (receive s) [ none ↦ none | some s' ↦ some (record l { query_sem = some s' }) ]
]
