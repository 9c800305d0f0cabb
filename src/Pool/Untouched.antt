-- ===== src/Pool/Untouched.antt =====
-- Steps that leave the pools of connections as they are, and the leases of all addresses at once.
use native.Mathlib.Nat.{add-zero}
use fasthttpproxy.Common.{ℕ, ◌+◌, Option, none, some, ◌≡◌, ◌≢◌, refl, sym, ◌∙◌, subst}
use fasthttpproxy.Common.Text.{Str}
use fasthttpproxy.Common.Result.{Error, Result}
use fasthttpproxy.Common.Net.{Conn}
use fasthttpproxy.Pool.State.{PoolState}
use fasthttpproxy.Pool.Upstream.{
  acquire_upstream_connection, release_upstream_connection, close_and_drop_upstream_connection,
}
use fasthttpproxy.Pool.Buffers.{
  Buffered, acquire_bufio_reader, acquire_bufio_writer, release_bufio_writer, release_bufio_reader,
}
use fasthttpproxy.Pool.Conservation.{Holds, leases, acquire-Holds, release-Holds, drop-Holds}
use fasthttpproxy.Pool.Frame.{Frame, acquire-Frame, release-Frame, drop-Frame}

-- At every address `n` connections are leased, and at `addr` `k` more.
pub record Lease (max : ℕ) (n : Str → ℕ) (addr : Str) (k : ℕ) (p : PoolState) : Type 0 where
  pub here : Holds max (n addr + k) addr p
  pub elsewhere : (b : Str) → addr ≢ b → Holds max (n b) b p

-- The pools of connections, their limit and the connections that were closed are the same.
pub record Untouched (p q : PoolState) : Type 0 where
  pub same_pools : q.upstream_pool ≡ p.upstream_pool
  pub same_settings : q.settings ≡ p.settings
  pub same_closed : q.closed ≡ p.closed

pub Untouched-trans : {p q r : PoolState} → Untouched p q → Untouched q r → Untouched p r
Untouched-trans f g = record {
  same_pools = g.same_pools ∙ f.same_pools;
  same_settings = g.same_settings ∙ f.same_settings;
  same_closed = g.same_closed ∙ f.same_closed;
}

Untouched-refl : (p : PoolState) → Untouched p p
Untouched-refl p = record { same_pools = refl; same_settings = refl; same_closed = refl }

pub Untouched-Holds :
    {p q : PoolState} (max n : ℕ) (a : Str) → Untouched p q → Holds max n a p → Holds max n a q
Untouched-Holds max n a u v = rw (u.same_pools, u.same_settings) v

pub Untouched-Lease :
    {max : ℕ} {n : Str → ℕ} {addr : Str} {k : ℕ} {p q : PoolState}
    → Untouched p q
    → Lease max n addr k p
    → Lease max n addr k q
Untouched-Lease {max} {n} {addr} {k} u v = record {
  here = Untouched-Holds max (n addr + k) addr u v.here;
  elsewhere = λ b ne. Untouched-Holds max (n b) b u (v.elsewhere b ne);
}

pub acquire_reader-Untouched :
    (got : Option Buffered) (c : Conn) (p : PoolState)
    → Untouched p (acquire_bufio_reader got c p).0
unfolding acquire_bufio_reader
acquire_reader-Untouched none c p = record {
  same_pools = refl;
  same_settings = refl;
  same_closed = refl;
}
acquire_reader-Untouched (some b) c p = record {
  same_pools = refl;
  same_settings = refl;
  same_closed = refl;
}

pub acquire_writer-Untouched :
    (got : Option Buffered) (c : Conn) (p : PoolState)
    → Untouched p (acquire_bufio_writer got c p).0
unfolding acquire_bufio_writer
acquire_writer-Untouched none c p = record {
  same_pools = refl;
  same_settings = refl;
  same_closed = refl;
}
acquire_writer-Untouched (some b) c p = record {
  same_pools = refl;
  same_settings = refl;
  same_closed = refl;
}

pub release_writer-Untouched : (p : PoolState) → Untouched p (release_bufio_writer p)
unfolding release_bufio_writer
release_writer-Untouched p = record { same_pools = refl; same_settings = refl; same_closed = refl }

pub acquire-Lease :
    (fasthttp_dial : Str → Result Conn) (now : ℕ) (e : Option Error) (addr : Str) (p : PoolState)
    {max : ℕ} (n : Str → ℕ)
    → ((a : Str) → Holds max (n a) a p)
    → let r = acquire_upstream_connection fasthttp_dial now e addr p in
      Lease max n addr (leases r.1) r.0
acquire-Lease fasthttp_dial now e addr p n v =
    let f = acquire-Frame fasthttp_dial now e addr p in
    record {
      here = acquire-Holds fasthttp_dial now e addr p (v addr);
      elsewhere = λ b ne. rw (f.same_settings, f.same_pools b ne) (v b);
    }

-- A call that gives one connection of the address back.
given_back :
    {max : ℕ} (n : Str → ℕ) {addr : Str} {p q : PoolState}
    → Frame addr p q
    → Holds max (n addr) addr q
    → Lease max n addr 1 p
    → Lease max n addr 0 q
given_back {max} n {addr} {q = q} f fewer v = record {
  here = subst (λ k. Holds max k addr q) (sym (add-zero (n addr))) fewer;
  elsewhere = λ b ne. rw (f.same_settings, f.same_pools b ne) (v.elsewhere b ne);
}

pub drop-Lease :
    (e : Option Error) (addr : Str) (c : Conn) (p : PoolState) {max : ℕ} (n : Str → ℕ)
    → Lease max n addr 1 p
    → Lease max n addr 0 (close_and_drop_upstream_connection e addr c p)
drop-Lease e addr c p n v = given_back n (drop-Frame e addr c p) (drop-Holds e addr c p v.here) v

pub release_reader-Untouched : (p : PoolState) → Untouched p (release_bufio_reader p)
unfolding release_bufio_reader
release_reader-Untouched p = record { same_pools = refl; same_settings = refl; same_closed = refl }

pub release-Lease :
    (now : ℕ) (e : Option Error) (addr : Str) (c : Conn) (p : PoolState) {max : ℕ} (n : Str → ℕ)
    → Lease max n addr 1 p
    → Lease max n addr 0 (release_upstream_connection now e addr c p)
release-Lease now e addr c p {max} n v =
    given_back n (release-Frame now e addr c p) (release-Holds now e addr c p v.here) v
