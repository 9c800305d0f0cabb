-- ===== src/Pool/Leases.antt =====
-- The clients' discipline: a connection that Acquire returned is given back once, by Release or by
-- CloseAndDrop. Reachable states, and what holds in them.
use native.Mathlib.Nat.{add-zero}
use native.Mathlib.Numerals.{add-one}
use fasthttpproxy.Pool.Settings.{max_connections_per_host}
use fasthttpproxy.Common.{
  ℕ, ◌+◌, ◌≤◌, ◌<◌, ◌^◌, Bool-cases, inl, inr, Option, List, [], ◌∷◌, ◌++◌, ◌≡◌, ◌≢◌, ap, ◌∙◌,
  arith, length, length-append,
}
use fasthttpproxy.Common.Int.{pos}
use fasthttpproxy.Common.Text.{Str, str_eq, str_eq_iff}
use fasthttpproxy.Common.Result.{Error, Result, ok, err}
use fasthttpproxy.Common.Net.{Conn}
use fasthttpproxy.Pool.State.{PoolState, update, update_self, update_ne, initial}
use fasthttpproxy.Pool.Upstream.{
  acquire_upstream_connection, release_upstream_connection, close_and_drop_upstream_connection,
}
use fasthttpproxy.Pool.Frame.{Frame, acquire-Frame, release-Frame, drop-Frame}
use fasthttpproxy.Pool.Conservation.{
  Holds, leases, acquire-Holds, release-Holds, drop-Holds, not_full,
}

-- The pools with the connections that the clients hold at each address.
pub record System : Type 0 where
  pub pool : PoolState
  pub leased : Str → List Conn

abbrev pub take_lease : System → Str → PoolState × Result Conn → System
take_lease s addr (p, ok c) = record { pool = p; leased = update s.leased addr (c ∷ s.leased addr) }
take_lease s addr (p, err e) = record { pool = p; leased = s.leased }

-- One call of a client. The dial function, the time and what Close returns are the environment's.
pub data Step (s : System) : System → Type 0 where
  acquires :
      (fasthttp_dial : Str → Result Conn) (now : ℕ) (e : Option Error) (addr : Str)
      → Step s (take_lease s addr (acquire_upstream_connection fasthttp_dial now e addr s.pool))
  releases :
      (now : ℕ) (e : Option Error) (addr : Str) (c : Conn) (before after : List Conn)
      → s.leased addr ≡ before ++ c ∷ after
      → Step s (record {
        pool = release_upstream_connection now e addr c s.pool;
        leased = update s.leased addr (before ++ after);
      })
  drops :
      (e : Option Error) (addr : Str) (c : Conn) (before after : List Conn)
      → s.leased addr ≡ before ++ c ∷ after
      → Step s (record {
        pool = close_and_drop_upstream_connection e addr c s.pool;
        leased = update s.leased addr (before ++ after);
      })

pub data Reach (s : System) : System → Type 0 where
  here : Reach s s
  next : {t u : System} → Reach s t → Step t u → Reach s u

-- At every address the count is that of the idle and the leased connections, within `max`.
abbrev pub Inv : ℕ → System → Type 0
Inv max s = (addr : Str) → Holds max (length (s.leased addr)) addr s.pool

-- The holdings at an address after a call at another one.
elsewhere :
    {max : ℕ} (s : System) {addr : Str} {q : PoolState} (ls : List Conn) (b : Str)
    → Frame addr s.pool q
    → addr ≢ b
    → Holds max (length (s.leased b)) b s.pool
    → Holds max (length (update s.leased addr ls b)) b q
elsewhere s ls b f h v = rw (f.same_settings, f.same_pools b h, update_ne _ _ ls b h) v

-- To hold at every address: at that of the call, and where nothing changed.
everywhere :
    {max : ℕ} (s : System) (addr : Str) {q : PoolState} (ls : List Conn)
    → Inv max s
    → Frame addr s.pool q
    → Holds max (length ls) addr q
    → Inv max (record { pool = q; leased = update s.leased addr ls })
everywhere s addr ls v f h b = elim (Bool-cases (str_eq addr b)) [
  | inl same ↦ let e : addr ≡ b = (str_eq_iff addr b).0 same in rw (← e) (rw update_self h)
  | inr different ↦ elsewhere s ls b f (λ e. cc ((str_eq_iff addr b).1 e)) (v b)
]

take_lease-Inv :
    {max : ℕ} (s : System) (addr : Str) (r : PoolState × Result Conn)
    → Inv max s
    → Frame addr s.pool r.0
    → Holds max (length (s.leased addr) + leases r.1) addr r.0
    → Inv max (take_lease s addr r)
take_lease-Inv s addr (q, ok c) v f h =
    everywhere s addr (c ∷ s.leased addr) v f (rw (← add-one (length (s.leased addr))) h)
take_lease-Inv s addr (q, err e) v f h = λ b. elim (Bool-cases (str_eq addr b)) [
  | inl same ↦
      let here_now : addr ≡ b = (str_eq_iff addr b).0 same in rw (← here_now) (rw add-zero at h)
  | inr different ↦
      let ne : addr ≢ b = λ e'. cc ((str_eq_iff addr b).1 e') in
      rw (f.same_settings, f.same_pools b ne) (v b)
]

-- A list that contains a lease is one longer than the list without it.
length_without :
    (before after : List Conn) (c : Conn) {ls : List Conn}
    → ls ≡ before ++ c ∷ after
    → length ls ≡ length (before ++ after) + 1
length_without before after c e =
    ap length e ∙ length-append before (c ∷ after) ∙ omega (arith, length-append before after)

-- Every call keeps the count of every address equal to the number of its connections, within `max`.
pub Step-Inv : {max : ℕ} {s t : System} → Step s t → Inv max s → Inv max t
Step-Inv {s} (acquires fasthttp_dial now e addr) v =
    take_lease-Inv s addr (acquire_upstream_connection fasthttp_dial now e addr s.pool) v
      (acquire-Frame fasthttp_dial now e addr s.pool)
      (acquire-Holds fasthttp_dial now e addr s.pool (v addr))
Step-Inv {s} (releases now e addr c before after held) v =
    everywhere s addr (before ++ after) v (release-Frame now e addr c s.pool)
      (release-Holds now e addr c s.pool (rw (length_without before after c held) at (v addr)))
Step-Inv {s} (drops e addr c before after held) v =
    everywhere s addr (before ++ after) v (drop-Frame e addr c s.pool)
      (drop-Holds e addr c s.pool (rw (length_without before after c held) at (v addr)))

-- The pools at the start, with a limit that the setter accepted, and no leases.
abbrev pub start : ℕ → System
start max = record { pool = max_connections_per_host (pos max) initial; leased = λ _. [] }

start-Inv : (max : ℕ) → 1 ≤ max → max < 2 ^ 31 → Inv max (start max)
unfolding max_connections_per_host
start-Inv max nonzero small addr = ground arith

-- From the start, with a limit of 1 up to 2 ^ 31 - 1 connections, after any calls of clients that
-- give back each connection once: at every address the count is the number of the idle and the
-- leased connections together, and at most the limit.
pub Reach-Inv : {max : ℕ} {t : System} → 1 ≤ max → max < 2 ^ 31 → Reach (start max) t → Inv max t
Reach-Inv {max} nonzero small here = start-Inv max nonzero small
Reach-Inv nonzero small (next r st) = Step-Inv st (Reach-Inv nonzero small r)

-- Where at every address the count is the number of the idle and the leased connections together, and
-- at most the limit, Release of a leased connection never closes it: the branch for a full pool is not
-- taken, the connection becomes the last of the free list, and nothing is closed.
pub release_keeps :
    {max : ℕ} (s : System) (now : ℕ) (e : Option Error) (addr : Str) (c : Conn)
    (before after : List Conn)
    → Inv max s
    → s.leased addr ≡ before ++ c ∷ after
    → let q = release_upstream_connection now e addr c s.pool in
      (q.closed ≡ s.pool.closed)
      × (q.metrics ≡ s.pool.metrics)
      × ((q.upstream_pool addr).free
          ≡ (s.pool.upstream_pool addr).free ++ record { conn = c; returned_at = now } ∷ [])
unfolding release_upstream_connection
release_keeps s now e addr c before after v held =
    let v' =
      not_full (length (before ++ after)) (rw (length_without before after c held) at (v addr)) in
    (rw v', rw v', rw (v', update_self))
