-- ===== src/Proxy/Service/Leases.antt =====
-- The leases of many requests: each open answer has its own, and there is no other.
use fasthttpproxy.Common.{
  ℕ, zero, suc, ◌+◌, Option, none, some, List, [], ◌∷◌, ◌++◌, ◌≡◌, refl, subst, arith, All,
  All-snoc,
}
use fasthttpproxy.Common.Text.{Str}
use fasthttpproxy.Common.Net.{Conn, Reader}
use fasthttpproxy.Pool.State.{PoolState}
use fasthttpproxy.Pool.Buffers.{Buffered, release_bufio_reader}
use fasthttpproxy.Pool.Conservation.{Holds}
use fasthttpproxy.Pool.Untouched.{Lease}
use fasthttpproxy.Readers.PoolReader.{Call, read, new_pool_reader}
use fasthttpproxy.Readers.TimedReader.{TimedReader, timed}
use fasthttpproxy.Readers.Owing.{Owes, read-Owes}
use fasthttpproxy.Proxy.Served.{owed, Held-Lease, Lease-Held}
use fasthttpproxy.Pool.Leasing.{at, gather, spread, leasing}
use fasthttpproxy.Upstream.Upstreams.{Upstreams}
use fasthttpproxy.Proxy.Fasthttp.{Fasthttp}
use fasthttpproxy.Proxy.State.{Env}
use fasthttpproxy.Proxy.Termination.{Ends}
use fasthttpproxy.Proxy.Lease.{streaming, handle-Settled}
use fasthttpproxy.Proxy.Answer.{IsAnswer, handle-IsAnswer}
use fasthttpproxy.Proxy.Service.{
  Stream, Service, Event, arrive, reads, read_at, opened, enter, leave, occur, occur_all,
}

-- The bufio.Reader of the answer is released when its connection is returned.
abbrev pub Releases : Stream → Type 0
Releases b = b.on_done ≡ some release_bufio_reader

-- The body of the request, if it is streamed, ends within the fuel.
abbrev pub Bounded : (F : Fasthttp) {S W : Type 0} (src : Reader S) → Event F S W → Type 0
Bounded F src (arrive env req r) = Ends F src env req.body
Bounded F src (reads low now i c) = Unit

-- The answers from the address that have not returned their connection.
unfoldable pub open_at : Str → List Stream → ℕ
open_at a [] = 0
open_at a (b ∷ bs) = at b.upstream_addr (owed b.returned) a + open_at a bs

open_at-snoc :
    (a : Str) (bs : List Stream) (b : Stream)
    → open_at a (bs ++ b ∷ []) ≡ open_at a bs + at b.upstream_addr (owed b.returned) a
unfolding open_at
open_at-snoc a [] b = omega arith
open_at-snoc a (x ∷ bs) b = omega (arith, open_at-snoc a bs b)

module _ (max : ℕ) where
  -- The answers hold all that is leased at every address, beside `m` of others.
  record Backed (m : Str → ℕ) (bs : List Stream) (p : PoolState) : Type 0 where
    finishes : All Releases bs
    holds : (a : Str) → Holds max (m a + open_at a bs) a p

  -- The leases beside the first answer.
  beside : (Str → ℕ) → List Stream → Str → ℕ
  beside m bs a = m a + open_at a bs

  -- Those of others with those of the first answer.
  past : (Str → ℕ) → Stream → Str → ℕ
  past m b a = m a + at b.upstream_addr (owed b.returned) a

  first-Owes :
      (m : Str → ℕ) (b : Stream) (bs : List Stream) (p : PoolState)
      → Backed m (b ∷ bs) p
      → Owes (leasing max (beside m bs)) b.upstream_addr b.connection b p
  unfolding open_at beside
  first-Owes m b bs p v = record {
    same_addr = refl;
    same_conn = refl;
    same_done = v.finishes.0;
    held = Lease-Held max (beside m bs) b.returned b.upstream_addr b.connection p (
        gather max (beside m bs) b.upstream_addr (owed b.returned) p
          (λ a. subst (λ j. Holds max j a p) (omega arith) (v.holds a)));
  }

  Owes-first :
      (m : Str → ℕ) (addr : Str) (c : Conn) (b : Stream) (bs : List Stream) (p : PoolState)
      → All Releases bs
      → Owes (leasing max (beside m bs)) addr c b p
      → Backed m (b ∷ bs) p
  unfolding open_at beside
  Owes-first m addr c b bs p rest v = record {
    finishes = (v.same_done, rest);
    holds = λ a.
        subst (λ j. Holds max j a p) (omega arith)
          (spread max (beside m bs) b.upstream_addr (owed b.returned) p
            (rw v.same_addr (Held-Lease max (beside m bs) b.returned addr c p v.held)) a);
  }

  read_at-Backed :
      (src : Reader (TimedReader Buffered)) (c : Call) (i : ℕ) (m : Str → ℕ) (bs : List Stream)
      (p : PoolState)
      → Backed m bs p
      → let r = read_at src c i bs p in Backed m r.0 r.1
  unfolding read_at open_at past
  read_at-Backed src c i m [] p v = v
  read_at-Backed src c zero m (b ∷ bs) p v =
      let r = read src c b p in
      Owes-first m b.upstream_addr b.connection r.1 bs r.2 v.finishes.1 (
        read-Owes (leasing max (beside m bs)) b.upstream_addr b.connection src c b p
          (first-Owes m b bs p v))
  read_at-Backed src c (suc i) m (b ∷ bs) p v =
      let r = read_at src c i bs p in
      let rest : Backed (past m b) r.0 r.1 = read_at-Backed src c i (past m b) bs p (record {
        finishes = v.finishes.1;
        holds = λ a. subst (λ j. Holds max j a p) (omega arith) (v.holds a);
      }) in
      record {
        finishes = (v.finishes.0, rest.finishes);
        holds = λ a. subst (λ j. Holds max j a r.1) (omega arith) (rest.holds a);
      }

  -- Every connection that is leased at an address is one that an answer from there has not returned,
  -- and the count of the address is that of these and of the idle connections, within the limit.
  pub record Sound (s : Service) : Type 0 where
    pub finishes : All Releases s.streams
    pub holds : (a : Str) → Holds max (open_at a s.streams) a s.pool

  module _ (F : Fasthttp) {S W : Type 0} (src : Reader S) where
    leave-Sound :
        (env : Env F.Header W) (addr : Str) (o : Option Stream) (bs : List Stream) (p : PoolState)
        (u : Upstreams)
        → IsAnswer F src env addr o
        → All Releases bs
        → Lease max (λ a. open_at a bs) addr (streaming F o) p
        → Sound (record { pool = p; upstreams = u; streams = opened o bs })
    unfolding new_pool_reader
    leave-Sound env addr none bs p u a rest v = record {
      finishes = rest;
      holds = λ a.
          let held = spread max (λ b. open_at b bs) addr 0 p v a in
          subst (λ j. Holds max j a p) (ground arith) held;
    }
    leave-Sound env addr (some b) bs p u (c, reader, header, got, new) rest v = record {
      finishes = All-snoc Releases bs b rest (rw new refl);
      holds = λ a.
          let held = spread max (λ b. open_at b bs) addr 1 p v a in
          let e : at b.upstream_addr (owed b.returned) a ≡ at addr 1 a = rw new refl in
          rw (open_at-snoc a bs b, e) held;
    }

    pub occur-Sound :
        (x : Event F S W) (s : Service)
        → Bounded F src x
        → Sound s
        → (s' : Service) × (occur F src x s ≡ some s') × Sound s'
    unfolding occur
    occur-Sound (arrive env req r) s ends v =
        let h = enter F r s in
        let (h', e, settled) =
          handle-Settled F src env max (λ a. open_at a s.streams) req h ends refl v.holds in
        (
          leave F s.streams h',
          rw (e, occur) refl,
          leave-Sound env h'.upstream_address h'.body_stream s.streams h'.pool h'.upstreams
              (handle-IsAnswer F src env req h h' refl e) v.finishes settled,
        )
    occur-Sound (reads low now i c) s ends v =
        let r = read_at (timed low now) c i s.streams s.pool in
        let v' =
          read_at-Backed (timed low now) c i (λ a. 0) s.streams s.pool
            (record {
              finishes = v.finishes;
              holds = λ a. subst (λ j. Holds max j a s.pool) (omega arith) (v.holds a);
            }) in
        (
          _,
          refl,
          record {
            finishes = v'.finishes;
            holds = λ a. subst (λ j. Holds max j a r.1) (omega arith) (v'.holds a);
          },
        )

    -- From a service in which each connection that is leased at an address is one that an answer from
    -- there has not returned, counted within the limit: whatever requests come, with bodies that end
    -- within the fuel, and however the reads of their answers follow each other, every event returns,
    -- and the service is such a one again. So no branch of a request and no order of the reads of
    -- several answers loses a connection, returns one twice, or gives one back to the pool of another
    -- address.
    pub occur_all-Sound :
        (xs : List (Event F S W)) (s : Service)
        → All (Bounded F src) xs
        → Sound s
        → (s' : Service) × (occur_all F src xs s ≡ some s') × Sound s'
    unfolding occur_all
    occur_all-Sound [] s ends v = (s, refl, v)
    occur_all-Sound (x ∷ xs) s ends v =
        let (s₁, e, v₁) = occur-Sound x s ends.0 v in
        let (s', e', v') = occur_all-Sound xs s₁ ends.1 v₁ in (s', rw (e, occur_all) e', v')
