-- ===== src/Proxy/Verdict.antt =====
-- What every request comes to.
use fasthttpproxy.Common.{
  Bool-cases, true, false, Option, Option-cases, none, some, [], ◌≡◌, ◌≢◌, refl, sym, ap, ◌∙◌,
  subst, ◌⊎◌, inl, inr, arith,
}
use fasthttpproxy.Common.Text.{Str, str_eq, str_eq_iff}
use fasthttpproxy.Common.Result.{ok}
use fasthttpproxy.Common.Net.{Conn, Reader}
use fasthttpproxy.Pool.Buffers.{use_all}
use fasthttpproxy.Pool.Accounting.Shift.{Shift, unmoved}
use fasthttpproxy.Upstream.Address.{with_scheme}
use fasthttpproxy.Upstream.Upstreams.{random}
use fasthttpproxy.Proxy.Fasthttp.{Fasthttp, StatusLaws}
use fasthttpproxy.Proxy.State.{Handler, Request, Env}
use fasthttpproxy.Proxy.Handler.{resolve_upstream, acquire_upstream_conn, after_resolve, handle}
use fasthttpproxy.Proxy.Outcome.{dialing, Chosen, Outcome, no_host, not_dialed, exchanged}
use fasthttpproxy.Proxy.Resolve.{use_host_lem, resolve_by_list, resolve_by_host}
use fasthttpproxy.Proxy.Keeps.{resolve_step}
use fasthttpproxy.Proxy.Termination.{Ends, handle-Returns}
use fasthttpproxy.Proxy.Steps.{acquire-Step, acquire_same}
use fasthttpproxy.Proxy.Steps.Exchanges.{IfExchanged, after_acquire-Exchange}

module _ (F : Fasthttp) (laws : StatusLaws F) where
  module _ {S W : Type 0} (src : Reader S) (env : Env F.Header W) where
    -- What is said of a request that may not have ended.
    abbrev IfOutcome : Request S → Handler F → Option (Handler F) → Type 0
    IfOutcome req h none = Unit
    IfOutcome req h (some h') = Outcome F src env req h h'

    through :
        (req : Request S) (c : Conn) (h : Handler F) {addr : Str} (r : Option (Handler F))
        → Chosen F src env req.host h addr
        → dialing F src env addr h.pool ≡ ok c
        → IfExchanged F laws src env addr c req.body h r
        → IfOutcome req h r
    through req c h none chosen given v = tt
    through req c h (some h') chosen given (at, v) =
        exchanged c (subst (Chosen F src env req.host h) (sym at) chosen)
          (ap (λ a. dialing F src env a h.pool) at ∙ given) v

    after_resolve-Outcome :
        (req : Request S) (h g : Handler F)
        → g.pool ≡ h.pool
        → g.body_stream ≡ h.body_stream
        → Chosen F src env req.host h g.upstream_address
        → IfOutcome req h (after_resolve F src env req.body g)
    unfolding after_resolve
    after_resolve-Outcome req h g pools idle chosen =
        let x = acquire_upstream_conn F src env g in
        let (address, stream) = acquire_same F laws src env g in
        let there : dialing F src env g.upstream_address h.pool
            ≡ dialing F src env g.upstream_address g.pool =
          ap (dialing F src env g.upstream_address) (sym pools) in
        elim (acquire-Step F laws src env g) [
          | inl (c, given, got, v) ↦
              rw (got, after_resolve)
                (through req c h _ chosen (there ∙ given) (
                  after_acquire-Exchange F laws src env g.upstream_address req.body c h x.0
                    (record {
                      so_far = subst (λ p. Shift 0 [] p x.0.pool) pools (unmoved v);
                      unstreamed = stream ∙ idle;
                      same_address = address;
                    })))
          | inr (e, refused, got, f) ↦
              rw (got, after_resolve)
                (not_dialed e (subst (Chosen F src env req.host h) (sym address) chosen)
                  (ap (λ a. dialing F src env a h.pool) address ∙ there ∙ refused)
                  (record {
                    answer = f.gateway;
                    shift = subst (λ p. Shift 1 [] p x.0.pool) pools f.shift;
                    same_stream = stream ∙ idle;
                  }))
        ]

    resolve-cases :
        (req : Request S) (h : Handler F)
        → let x = resolve_upstream F env.parse env.intn req.host h in
          ((x.1 ≡ true) × Chosen F src env req.host h x.0.upstream_address)
          ⊎ ((x.1 ≡ false) × Outcome F src env req h x.0)
    unfolding resolve_upstream use_all
    resolve-cases req h = elim (Option-cases (random env.intn h.upstreams)) [
      | inr (up, listed) ↦
          let e = resolve_by_list F env.parse env.intn req.host h up listed in
          inl (ap (λ x. x.1) e, inl (up, listed, ap (λ x. x.0.upstream_address) e))
      | inl unlisted ↦ elim (Bool-cases (str_eq req.host [])) [
        | inr full ↦
            let given : req.host ≢ [] =
              λ e. absurd (let yes = (str_eq_iff req.host []).1 e in cc) in
            let e = resolve_by_host F env.parse env.intn req.host h unlisted given in
            let (resolved, address, listed) = use_host_lem F env.parse (with_scheme req.host) h in
            inl (
              ap (λ x. x.1) e ∙ resolved,
              inr (unlisted, given, ap (λ x. x.0.upstream_address) e ∙ address),
            )
        | inl empty ↦
            let nobody : req.host ≡ [] = (str_eq_iff req.host []).0 empty in
            inr (
              rw (unlisted, resolve_upstream) (rw empty refl),
              rw (unlisted, resolve_upstream)
                  (rw empty (
                    no_host unlisted nobody (record {
                      answer = laws.status_code-error _ 400 h.response;
                      shift = record { failed = omega arith; used = refl };
                      same_stream = refl;
                    }))),
            )
      ]
    ]

    handle-IfOutcome : (req : Request S) (h : Handler F) → IfOutcome req h (handle F src env req h)
    unfolding handle
    handle-IfOutcome req h =
        let x = resolve_upstream F env.parse env.intn req.host h in
        let same = resolve_step F src env req.host h in
        elim (resolve-cases req h) [
          | inl (resolved, chosen) ↦
              rw resolved (after_resolve-Outcome req h x.0 same.0 same.1 chosen)
          | inr (failed, v) ↦ rw failed v
        ]

    -- For a body at hand, or a stream that ends within the fuel, handle() ends, and its outcome is one
    -- of these. With no upstream listed and no Host: status 400, nothing counted, no buffer asked for.
    -- Else the address is that of a listed upstream, or of the Host where none is listed. If the pool
    -- gives no connection for it: 502 and one error counted. If it does and the header of the request is
    -- not written or not flushed, or the body at hand not written in full: 502, one error counted, a
    -- writer acquired and released. If a streamed body is not copied: the same with no error counted. If
    -- header and body are written and the header of the response is not read: 502, one error counted, and
    -- a reader acquired that is not released. If it is read: the response gets a stream over that reader,
    -- and the status of the upstream with no error counted, or, where that is from 500 on, 502 with one
    -- error counted. The response gets a new stream in no other case.
    pub handle-Outcome :
        (req : Request S) (h : Handler F)
        → Ends F src env req.body
        → (h' : Handler F) × (handle F src env req h ≡ some h') × Outcome F src env req h h'
    handle-Outcome req h ends =
        let (h', e) = handle-Returns F src env req h ends in
        (h', e, subst (IfOutcome req h) e (handle-IfOutcome req h))
