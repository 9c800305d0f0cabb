-- ===== src/Proxy/Service.antt =====
-- Many requests to the program: they share the pools and the upstreams, and their answers are read in
-- any order. A request runs up to the end of handle(), and a Read of one answer runs, as a whole.
pub mod Leases
pub mod Places
pub mod Starved
pub mod Emptied
pub mod Lifetime
use fasthttpproxy.Common.{ℕ, zero, suc, Option, none, some, List, [], ◌∷◌, ◌++◌}
use fasthttpproxy.Common.Net.{Reader}
use fasthttpproxy.Pool.State.{PoolState}
use fasthttpproxy.Pool.Buffers.{Buffered}
use fasthttpproxy.Readers.PoolReader.{PoolReader, Call, read}
use fasthttpproxy.Readers.TimedReader.{TimedReader, timed}
use fasthttpproxy.Upstream.Upstreams.{Upstreams}
use fasthttpproxy.Proxy.Fasthttp.{Fasthttp}
use fasthttpproxy.Proxy.State.{Handler, Request, Env}
use fasthttpproxy.Proxy.Handler.{handle}

abbrev pub Stream : Type 0
Stream = PoolReader (TimedReader Buffered)

-- The package's variables, and the answers that were begun.
pub record Service : Type 0 where
  pub pool : PoolState
  pub upstreams : Upstreams
  pub streams : List Stream

-- What happens next: a request comes, with the response of its context, or the client of the `i`-th
-- answer reads.
pub data Event (F : Fasthttp) (S W : Type 0) : Type 0 where
  arrive : Env F.Header W → Request S → F.Response → Event F S W
  reads : Reader Buffered → (now : ℕ) → (i : ℕ) → Call → Event F S W

-- A Read of the `i`-th answer, if there is one.
unfoldable pub read_at :
    Reader (TimedReader Buffered) → Call → ℕ → List Stream → PoolState → List Stream × PoolState
read_at src c i [] p = ([], p)
read_at src c zero (b ∷ bs) p = let (bytes, b', p') = read src c b p in (b' ∷ bs, p')
read_at src c (suc i) (b ∷ bs) p = let (bs', p') = read_at src c i bs p in (b ∷ bs', p')

-- The answers after a request.
abbrev pub opened : Option Stream → List Stream → List Stream
opened none bs = bs
opened (some b) bs = bs ++ b ∷ []

module _ (F : Fasthttp) where
  -- `h := &handler{ctx: ctx}`
  abbrev pub enter : F.Response → Service → Handler F
  enter r s = record {
    pool = s.pool;
    upstreams = s.upstreams;
    response = r;
    upstream_address = [];
    body_stream = none;
  }

  abbrev pub leave : List Stream → Handler F → Service
  leave bs h = record { pool = h.pool; upstreams = h.upstreams; streams = opened h.body_stream bs }

  module _ {S W : Type 0} (src : Reader S) where
    -- One event; `none` where handle() has not returned within its fuel.
    unfoldable pub occur : Event F S W → Service → Option Service
    unfolding read_at
    occur (arrive env req r) s = elim (handle F src env req (enter r s)) [
      | none ↦ none
      | some h ↦ some (leave s.streams h)
    ]
    occur (reads low now i c) s =
        let (bs, p) = read_at (timed low now) c i s.streams s.pool in
        some (record s { pool = p; streams = bs })

    unfoldable pub occur_all : List (Event F S W) → Service → Option Service
    unfolding occur
    occur_all [] s = some s
    occur_all (e ∷ es) s = elim (occur e s) [ none ↦ none | some s' ↦ occur_all es s' ]
