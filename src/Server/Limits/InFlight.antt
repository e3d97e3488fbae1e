-- ===== src/Server/Limits/InFlight.antt =====
-- No more connections and queries are in flight than the caps allow.
use super_db.Prelude.Decimal.{ℤ, pos, negsuc}
use super_db.Prelude.{
  none, some, true, false, ℕ, Option, ◌≡◌, true, arith, some, ◌+◌, false, ◌≤◌, ◌≢◌, Bool, ◌==◌,
  ◌&&◌, leb, if◌then◌else◌, ◌<◌, refl,
}
use super_db.Server.Limits.{
  admitted, Slots, Limits, Limiter, Wakeup, Admission, acquire_conn, release_conn, acquire_query,
  release_query, new_limiter, send, Slots, receive, admitted, slots_for,
}

-- One call, and what the callers of the limiter hold: connections, then queries.
pub data Step : Limiter × ℕ × ℕ → Limiter × ℕ × ℕ → Type 0 where
  conn_taken :
      {l l' : Limiter} {conns queries : ℕ}
      → acquire_conn l ≡ (l', true)
      → Step (l, conns, queries) (l', conns + 1, queries)
  conn_refused :
      {l l' : Limiter} {conns queries : ℕ}
      → acquire_conn l ≡ (l', false)
      → Step (l, conns, queries) (l', conns, queries)
  conn_released :
      {l l' : Limiter} {conns queries : ℕ}
      → release_conn l ≡ some l'
      → Step (l, conns + 1, queries) (l', conns, queries)
  query_taken :
      {l l' : Limiter} {conns queries : ℕ} (wake : Wakeup)
      → acquire_query wake l ≡ some (l', admitted)
      → Step (l, conns, queries) (l', conns, queries + 1)
  query_refused :
      {l l' : Limiter} {conns queries : ℕ} (wake : Wakeup) (why : Admission)
      → acquire_query wake l ≡ some (l', why)
      → why ≢ admitted
      → Step (l, conns, queries) (l', conns, queries)
  query_released :
      {l l' : Limiter} {conns queries : ℕ}
      → release_query l ≡ some l'
      → Step (l, conns, queries + 1) (l', conns, queries)

pub data Steps : Limiter × ℕ × ℕ → Limiter × ℕ × ℕ → Type 0 where
  done : {s : Limiter × ℕ × ℕ} → Steps s s
  more : {s s' s'' : Limiter × ℕ × ℕ} → Step s s' → Steps s' s'' → Steps s s''

-- A semaphore with the cap counts what is held, within the cap; without a cap there is none.
abbrev pub within : Option ℕ → Option Slots → ℕ → Bool
within none none held = true
within none (some s) held = false
within (some cap) none held = false
within (some cap) (some s) held = s.cap == cap && (s.used == held && leb held cap)

acquire_conn_taken :
    (cap : Option ℕ) (l l' : Limiter) (held : ℕ)
    → acquire_conn l ≡ (l', true)
    → within cap l.conn_sem held ≡ true
    → (within cap l'.conn_sem (held + 1) ≡ true) × (l'.query_sem ≡ l.query_sem)
unfolding acquire_conn send
acquire_conn_taken none l l' held h w = ground (arith, h, w)
acquire_conn_taken (some cap) l l' held h w = ground (arith, h, w)

acquire_conn_refused :
    (l l' : Limiter)
    → acquire_conn l ≡ (l', false)
    → (l'.conn_sem ≡ l.conn_sem) × (l'.query_sem ≡ l.query_sem)
unfolding acquire_conn send
acquire_conn_refused l l' h = ground (arith, h)

release_conn_lem :
    (cap : Option ℕ) (l l' : Limiter) (held : ℕ)
    → release_conn l ≡ some l'
    → within cap l.conn_sem (held + 1) ≡ true
    → (within cap l'.conn_sem held ≡ true) × (l'.query_sem ≡ l.query_sem)
unfolding release_conn receive
release_conn_lem none l l' held h w = ground (arith, h, w)
release_conn_lem (some cap) l l' held h w = ground (arith, h, w)

acquire_query_taken :
    (cap : Option ℕ) (wake : Wakeup) (l l' : Limiter) (held : ℕ)
    → acquire_query wake l ≡ some (l', admitted)
    → within cap l.query_sem held ≡ true
    → (within cap l'.query_sem (held + 1) ≡ true) × (l'.conn_sem ≡ l.conn_sem)
unfolding acquire_query send
acquire_query_taken none wake l l' held h w = ground (arith, h, w)
acquire_query_taken (some cap) wake l l' held h w = ground (arith, h, w)

acquire_query_refused :
    (wake : Wakeup) (why : Admission) (l l' : Limiter)
    → acquire_query wake l ≡ some (l', why)
    → why ≢ admitted
    → (l'.query_sem ≡ l.query_sem) × (l'.conn_sem ≡ l.conn_sem)
unfolding acquire_query send
acquire_query_refused wake why l l' h n = ground (arith, h, n)

release_query_lem :
    (cap : Option ℕ) (l l' : Limiter) (held : ℕ)
    → release_query l ≡ some l'
    → within cap l.query_sem (held + 1) ≡ true
    → (within cap l'.query_sem held ≡ true) × (l'.conn_sem ≡ l.conn_sem)
unfolding release_query receive
release_query_lem none l l' held h w = ground (arith, h, w)
release_query_lem (some cap) l l' held h w = ground (arith, h, w)

abbrev AreWithin : Option ℕ → Option ℕ → Limiter × ℕ × ℕ → Type 0
AreWithin conn_cap query_cap (l, conns, queries) =
    (within conn_cap l.conn_sem conns ≡ true) × (within query_cap l.query_sem queries ≡ true)

Step-AreWithin :
    (of_conns of_queries : Option ℕ) {s s' : Limiter × ℕ × ℕ}
    → Step s s'
    → AreWithin of_conns of_queries s
    → AreWithin of_conns of_queries s'
Step-AreWithin of_conns of_queries (conn_taken {l} {l'} {conns} h) (c, q) =
    let (c', same) = acquire_conn_taken of_conns l l' conns h c in (c', rw same q)
Step-AreWithin of_conns of_queries (conn_refused {l} {l'} h) (c, q) =
    let (same, same') = acquire_conn_refused l l' h in (rw same c, rw same' q)
Step-AreWithin of_conns of_queries (conn_released {l} {l'} {conns} h) (c, q) =
    let (c', same) = release_conn_lem of_conns l l' conns h c in (c', rw same q)
Step-AreWithin of_conns of_queries (query_taken {l} {l'} {conns} {queries} wake h) (c, q) =
    let (q', same) = acquire_query_taken of_queries wake l l' queries h q in (rw same c, q')
Step-AreWithin of_conns of_queries (query_refused {l} {l'} wake why h n) (c, q) =
    let (same, same') = acquire_query_refused wake why l l' h n in (rw same' c, rw same q)
Step-AreWithin of_conns of_queries (query_released {l} {l'} {conns} {queries} h) (c, q) =
    let (q', same) = release_query_lem of_queries l l' queries h q in (rw same c, q')

Steps-AreWithin :
    (of_conns of_queries : Option ℕ) {s s' : Limiter × ℕ × ℕ}
    → Steps s s'
    → AreWithin of_conns of_queries s
    → AreWithin of_conns of_queries s'
Steps-AreWithin of_conns of_queries done w = w
Steps-AreWithin of_conns of_queries (more s ss) w =
    Steps-AreWithin of_conns of_queries ss (Step-AreWithin of_conns of_queries s w)

cap_of : ℤ → Option ℕ
cap_of (pos n) = if n == 0 then none else some n
cap_of (negsuc n) = none

-- What a limit promises: 0 and what is below it mean no limit.
abbrev pub IsBounded : ℤ → ℕ → Type 0
IsBounded (pos n) held = 0 < n → held ≤ n
IsBounded (negsuc n) held = Unit

slots_for-within : (limit : ℤ) → within (cap_of limit) (slots_for limit) 0 ≡ true
unfolding slots_for cap_of
slots_for-within (pos n) = ground arith
slots_for-within (negsuc n) = refl

within-IsBounded :
    (limit : ℤ) (sem : Option Slots) (held : ℕ)
    → within (cap_of limit) sem held ≡ true
    → IsBounded limit held
unfolding cap_of
within-IsBounded (pos n) sem held w = λ h. ground (arith, w, h)
within-IsBounded (negsuc n) sem held w = tt

-- After any sequence of calls, no more connections and no more queries are in flight than the limits
-- that are set allow, where only what was acquired is released.
pub in_flight-IsBounded :
    (limits : Limits) (l : Limiter) (conns queries : ℕ)
    → Steps (new_limiter limits, 0, 0) (l, conns, queries)
    → IsBounded limits.max_connections conns × IsBounded limits.max_inflight_queries queries
unfolding new_limiter
in_flight-IsBounded limits l conns queries steps =
    let (c, q) =
      Steps-AreWithin (cap_of limits.max_connections) (cap_of limits.max_inflight_queries) steps
        (slots_for-within limits.max_connections, slots_for-within limits.max_inflight_queries) in
    (
      within-IsBounded limits.max_connections l.conn_sem conns c,
      within-IsBounded limits.max_inflight_queries l.query_sem queries q,
    )
