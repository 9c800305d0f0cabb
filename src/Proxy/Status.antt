-- ===== src/Proxy/Status.antt =====
-- The status codes that a client can be given.
use fasthttpproxy.Common.{some, ◌≡◌, ◌<◌, ◌⊎◌, inl, inr, arith}
use fasthttpproxy.Common.Net.{Conn, Reader}
use fasthttpproxy.Proxy.Fasthttp.{Fasthttp, StatusLaws}
use fasthttpproxy.Proxy.Termination.{Ends}
use fasthttpproxy.Proxy.State.{Handler, Request, Body, Env}
use fasthttpproxy.Proxy.Handler.{handle}
use fasthttpproxy.Proxy.Outcome.{
  Outcome, no_host, not_dialed, exchanged, Exchange, not_sent, not_copied, not_written, not_read,
  bad_answer, answered,
}
use fasthttpproxy.Proxy.Verdict.{handle-Outcome}

module _ (F : Fasthttp) where
  open F use {Header, Response, status_code}

  -- A status below 500, or 502.
  abbrev Allowed : Response → Type 0
  Allowed r = (status_code r < 500) ⊎ (status_code r ≡ 502)

  module _ {S W : Type 0} (src : Reader S) (env : Env Header W) where
    Exchange-Allowed :
        (c : Conn) (b : Body S) (h h' : Handler F)
        → Exchange F src env c b h h'
        → Allowed h'.response
    Exchange-Allowed c b h h' (not_sent e why v) = inr v.answer
    Exchange-Allowed c b h h' (not_copied s is sent why v) = inr v.answer
    Exchange-Allowed c b h h' (not_written body is sent why v) = inr v.answer
    Exchange-Allowed c b h h' (not_read e sent whole why v) = inr v.answer
    Exchange-Allowed c b h h' (bad_answer header sent whole read bad v) = inr v.answer
    Exchange-Allowed c b h h' (answered header sent whole read fine v) =
        inl (omega (arith, v.answer, fine))

    Outcome-Allowed :
        (req : Request S) (h h' : Handler F) → Outcome F src env req h h' → Allowed h'.response
    Outcome-Allowed req h h' (no_host unlisted nobody v) = inl (omega (arith, v.answer))
    Outcome-Allowed req h h' (not_dialed e chosen why v) = inr v.answer
    Outcome-Allowed req h h' (exchanged c chosen given x) = Exchange-Allowed c req.body h h' x

    -- Whatever the upstream answers and whatever fails: a request whose body, if streamed, ends within
    -- the fuel is handled to an end, and its status is then below 500, or 502. No other 5xx is passed
    -- on.
    pub handle-Allowed :
        (laws : StatusLaws F) (req : Request S) (h : Handler F)
        → Ends F src env req.body
        → (h' : Handler F) × (handle F src env req h ≡ some h') × Allowed h'.response
    handle-Allowed laws req h ends =
        let (h', e, v) = handle-Outcome F laws src env req h ends in
        (h', e, Outcome-Allowed req h h' v)
