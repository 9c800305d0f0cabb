-- ===== src/Proxy/Overwritten.antt =====
-- resolveUpstream() and handle() of internal/proxy/handler.go, for a Host that url.Parse refuses.
use fasthttpproxy.Common.{refl, true, ◌<◌, none, some, [], ◌∷◌, ◌≡◌, ◌≢◌, ap, ◌⊎◌, inl, inr}
use fasthttpproxy.Common.Text.{Str, codes}
use fasthttpproxy.Common.Result.{ok}
use fasthttpproxy.Common.Net.{Conn, Reader}
use fasthttpproxy.Upstream.Address.{Upstream, with_scheme}
use fasthttpproxy.Upstream.Upstreams.{Upstreams, no_upstreams, unparsed, random}
use fasthttpproxy.Proxy.Fasthttp.{Fasthttp, StatusLaws}
use fasthttpproxy.Proxy.State.{Handler, Request, Body, Env}
use fasthttpproxy.Proxy.Handler.{resolve_upstream, handle}
use fasthttpproxy.Proxy.Outcome.{
  Chosen, Outcome, no_host, not_dialed, exchanged, Exchange, not_sent, not_copied, not_written,
  not_read, bad_answer, answered,
}
use fasthttpproxy.Proxy.Resolve.{random_empty, invalid_host_resolves}
use fasthttpproxy.Proxy.Termination.{Ends}
use fasthttpproxy.Proxy.Verdict.{handle-Outcome}

module _ (F : Fasthttp) {S W : Type 0} (src : Reader S) (env : Env F.Header W) where
  open F use {Header, status_code, header_status}

  -- The status that the client gets: 502, or that of the upstream's answer.
  abbrev pub Upstreamed : Handler F → Type 0
  Upstreamed h' =
      (status_code h'.response ≡ 502)
      ⊎ ((header : Header) × (env.response_header ≡ ok header)
          × (header_status header < 500)
          × (status_code h'.response ≡ header_status header))

  Exchange-Upstreamed :
      {c : Conn} {b : Body S} {h h' : Handler F} → Exchange F src env c b h h' → Upstreamed h'
  Exchange-Upstreamed (not_sent e u v) = inl v.answer
  Exchange-Upstreamed (not_copied s e f u v) = inl v.answer
  Exchange-Upstreamed (not_written b e f u v) = inl v.answer
  Exchange-Upstreamed (not_read e f u r v) = inl v.answer
  Exchange-Upstreamed (bad_answer header f u r big v) = inl v.answer
  Exchange-Upstreamed (answered header f u r small v) = inr (header, r, small, v.answer)

  module _ (req : Request S) (h : Handler F) (unlisted : random env.intn h.upstreams ≡ none)
      (given : req.host ≢ []) where
    Chosen-host : {a : _} → Chosen F src env req.host h a → a ≡ with_scheme req.host
    Chosen-host (inl (up, listed, e)) = absurd (cc)
    Chosen-host (inr (nothing, full, e)) = e

    Outcome-host :
        {h' : Handler F}
        → Outcome F src env req h h'
        → (h'.upstream_address ≡ with_scheme req.host) × Upstreamed h'
    Outcome-host (no_host nothing empty v) = absurd (given empty)
    Outcome-host (not_dialed e chosen refused v) = (Chosen-host chosen, inl v.answer)
    Outcome-host (exchanged c chosen dialed v) = (Chosen-host chosen, Exchange-Upstreamed v)

-- An upstream with this address and the scheme http, and with neither host name nor port, is in the
-- map under the address, and alone on the list.
abbrev pub Stored : Str → Upstreams → Type 0
Stored addr u =
    (k : Upstream) × (u.keys ≡ k ∷ [])
    × (u.m addr ≡ some k)
    × (k.address ≡ addr)
    × (k.scheme ≡ codes "http")
    × (k.host ≡ [])
    × (k.port ≡ [])
    × (k.tls_config ≡ none)

-- Where no upstream is listed and url.Parse refuses the address of the Host, resolveUpstream() sets
-- a response of 400 and returns true all the same, with an upstream for that address, of the scheme
-- http and without host name or port, in the map and alone on the list. For a body at hand, or a stream that ends within the
-- fuel, handle() then goes on with that address, and what the client gets is 502 or the status, below
-- 500, of the upstream's answer.
pub invalid_host_answered :
    (F : Fasthttp) (laws : StatusLaws F) {S W : Type 0} (src : Reader S) (env : Env F.Header W)
    (req : Request S) (h : Handler F)
    → h.upstreams ≡ no_upstreams
    → req.host ≢ []
    → env.parse (with_scheme req.host) ≡ none
    → Ends F src env req.body
    → let x = resolve_upstream F env.parse env.intn req.host h in
      (x.1 ≡ true)
      × (x.0.response ≡ F.error (codes "invalid upstream address") 400 h.response)
      × Stored (with_scheme req.host) x.0.upstreams
      × ((h' : Handler F) × (handle F src env req h ≡ some h')
          × (h'.upstream_address ≡ with_scheme req.host)
          × Upstreamed F src env h')
invalid_host_answered F laws src env req h nothing given refused ends =
    let (resolves, address, response, keys, m) =
      invalid_host_resolves F env.parse env.intn req.host h nothing given refused in
    let stored : Stored (with_scheme req.host)
        (resolve_upstream F env.parse env.intn req.host h).0.upstreams =
      (unparsed (with_scheme req.host), keys, m, refl, refl, refl, refl, refl) in
    let (h', e, v) = handle-Outcome F laws src env req h ends in
    let unlisted = random_empty F env.intn h.upstreams (ap (λ u. u.keys) nothing) in
    let (at, status) = Outcome-host F src env req h unlisted given v in
    (resolves, response, stored, (h', e, at, status))
