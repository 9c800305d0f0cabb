-- ===== src/Pool/Semaphore.antt =====
-- What the pool of an address promises to its clients: a semaphore. The free list, the ages of its
-- connections and the count are not seen.
pub mod Refinement
use fasthttpproxy.Common.{
  ℕ, zero, suc, ◌+◌, ◌≤◌, ltb, Bool, true, false, Bool-cases, Option, none, some, List, [], ◌∷◌,
  ◌≡◌, refl, ap, ◌∙◌, subst, if◌then◌else◌, if_both, inl, inr, arith, length, unsnoc,
}
use fasthttpproxy.Common.Int.{int32, int32_small, leb_ℤ}
use native.Mathlib.Numerals.{add-one}
use fasthttpproxy.Common.Text.{Str, has_prefix}
use fasthttpproxy.Config.Prefix.{prefix_https}
use fasthttpproxy.Common.Result.{Error, Result, ok, err, err_dial_timeout}
use fasthttpproxy.Common.Net.{Conn, TlsConfig}
use fasthttpproxy.Pool.State.{PoolState, IdleConn}
use fasthttpproxy.Pool.Dial.{
  dial, dial_plain, over_tls, tls_client, parse_upstream_address_for_dial,
}
use fasthttpproxy.Pool.Upstream.{
  close, drop_idle, dialed, dial_new, acquire_upstream_connection, release_upstream_connection,
  close_and_drop_upstream_connection,
}
use fasthttpproxy.Pool.Conservation.{Holds, leases, acquire-Holds, release-Holds, drop-Holds}
use fasthttpproxy.Pool.Branches.{acquire_empty}
use fasthttpproxy.Pool.Reuse.{acquire_available}

-- A semaphore of `max` units, by the number that is taken.
unfoldable pub take_unit : ℕ → ℕ → ℕ × Bool
take_unit max k = if ltb k max then (suc k, true) else (k, false)

unfoldable pub give_unit : ℕ → ℕ × Bool
give_unit zero = (zero, false)
give_unit (suc k) = (k, true)

-- The calls of the clients at one address: they give back or drop the connection taken last.
pub data Op : Type 0 where
  acquire : (now : ℕ) → Option Error → Op
  release : (now : ℕ) → Option Error → Op
  drop : Option Error → Op

pub record Clients : Type 0 where
  pub pool : PoolState
  pub held : List Conn

module _ (fasthttp_dial : Str → Result Conn) (addr : Str) where
  abbrev pub took : Clients → PoolState × Result Conn → Clients × Bool
  took s (p, ok c) = (record { pool = p; held = c ∷ s.held }, true)
  took s (p, err e) = (record s { pool = p }, false)

  abbrev pub gave : List Conn → Clients → (Conn → PoolState) → Clients × Bool
  gave [] s f = (s, false)
  gave (c ∷ cs) s f = (record { pool = f c; held = cs }, true)

  -- A call, and whether it succeeded.
  unfoldable pub call : Op → Clients → Clients × Bool
  call (acquire now e) s = took s (acquire_upstream_connection fasthttp_dial now e addr s.pool)
  call (release now e) s = gave s.held s (λ c. release_upstream_connection now e addr c s.pool)
  call (drop e) s = gave s.held s (λ c. close_and_drop_upstream_connection e addr c s.pool)

  unfoldable pub calls : List Op → Clients → List Bool × Clients
  unfolding call
  calls [] s = ([], s)
  calls (op ∷ ops) s =
      let (s', done) = call op s in let (results, last) = calls ops s' in (done ∷ results, last)

module _ (max : ℕ) where
  unfoldable pub spec_call : Op → ℕ → ℕ × Bool
  unfolding take_unit give_unit
  spec_call (acquire now e) k = take_unit max k
  spec_call (release now e) k = give_unit k
  spec_call (drop e) k = give_unit k

  unfoldable pub spec_calls : List Op → ℕ → List Bool × ℕ
  unfolding spec_call
  spec_calls [] k = ([], k)
  spec_calls (op ∷ ops) k =
      let (k', done) = spec_call op k in
      let (results, last) = spec_calls ops k' in (done ∷ results, last)
