-- ===== src/Proxy/Lease.antt =====
-- How many connections are leased when a request has been handled.
use fasthttpproxy.Common.{ℕ, Option, none, some, ◌≡◌}
use fasthttpproxy.Common.Text.{Str}
use fasthttpproxy.Common.Net.{Reader}
use fasthttpproxy.Pool.State.{PoolState}
use fasthttpproxy.Pool.Buffers.{Buffered}
use fasthttpproxy.Pool.Conservation.{Holds}
use fasthttpproxy.Pool.Untouched.{Lease}
use fasthttpproxy.Pool.Leasing.{none_leased, leasing, leasing-Ready}
use fasthttpproxy.Readers.PoolReader.{PoolReader}
use fasthttpproxy.Readers.TimedReader.{TimedReader}
use fasthttpproxy.Proxy.Fasthttp.{Fasthttp}
use fasthttpproxy.Proxy.State.{Handler, Request, Env}
use fasthttpproxy.Proxy.Handler.{handle}
use fasthttpproxy.Proxy.Termination.{Ends}
use fasthttpproxy.Proxy.Custody.{Kept, handle-Through}

module _ (F : Fasthttp) where
  abbrev pub streaming {ℓ} : {A : Type ℓ} → Option A → ℕ
  streaming none = 0
  streaming (some s) = 1

  -- When the handler is through: one connection more is leased where an answer is streamed, none where not.
  abbrev pub Settled : ℕ → (Str → ℕ) → Handler F → Type 0
  Settled max n h = Lease max n h.upstream_address (streaming h.body_stream) h.pool

  module _ {S W : Type 0} (src : Reader S) (env : Env F.Header W) (max : ℕ) (n : Str → ℕ) where
    Kept-Lease :
        (addr : Str) (o : Option (PoolReader (TimedReader Buffered))) (p : PoolState)
        → Kept F src env (leasing max n) addr o p
        → Lease max n addr (streaming o) p
    Kept-Lease addr none p v = none_leased max n addr p v
    Kept-Lease addr (some pr) p v = v

    -- A request that begins with `n a` connections leased at each address `a`, counted within the
    -- limit, and whose body, if streamed, ends within the fuel, is handled to an end, so that exactly
    -- one more is leased, at its upstream's address, if its answer is streamed from there, and none
    -- more if it is not: no branch of handle() loses a connection or gives one back twice.
    pub handle-Settled :
        (req : Request S) (h : Handler F)
        → Ends F src env req.body
        → h.body_stream ≡ none
        → ((a : Str) → Holds max (n a) a h.pool)
        → (h' : Handler F) × (handle F src env req h ≡ some h') × Settled max n h'
    handle-Settled req h ends idle v =
        let (h', e, through) =
          handle-Through F src env (leasing max n) req h ends idle
            (leasing-Ready max n env.fasthttp_dial h.pool v) in
        (h', e, Kept-Lease h'.upstream_address h'.body_stream h'.pool through)
