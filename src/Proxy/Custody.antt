-- ===== src/Proxy/Custody.antt =====
-- handle() keeps the custody of its connection: it gives it back on every branch but the one on which
-- the answer is streamed, and there leaves it to the stream.
use fasthttpproxy.Common.{
  Bool-cases, Option-cases, Option, none, some, ◌≡◌, refl, sym, ◌∙◌, subst, inl, inr,
}
use fasthttpproxy.Common.Text.{Str}
use fasthttpproxy.Common.Result.{Result-cases}
use fasthttpproxy.Common.Net.{Conn, Reader}
use fasthttpproxy.Pool.State.{PoolState}
use fasthttpproxy.Pool.Upstream.{acquire_upstream_connection}
use fasthttpproxy.Pool.Custody.{Custody, Ready}
use fasthttpproxy.Pool.Buffers.{Buffered}
use fasthttpproxy.Readers.PoolReader.{PoolReader, new_pool_reader}
use fasthttpproxy.Readers.TimedReader.{TimedReader}
use fasthttpproxy.Proxy.Fasthttp.{Fasthttp}
use fasthttpproxy.Proxy.State.{Handler, Request, Body, Env}
use fasthttpproxy.Proxy.Handler.{
  resolve_upstream, acquire_upstream_conn, write_request_headers, write_request_body,
  read_response_headers, stream_response_body, drop_conn, after_body, after_headers, after_acquire,
  after_resolve, handle,
}
use fasthttpproxy.Proxy.Termination.{Ends, handle-Returns}
use fasthttpproxy.Proxy.Keeps.{
  Keeps, IfDone, write_headers-Keeps, write_request_body-Keeps, read_headers-Keeps, copy-Keeps,
  resolve_step,
}

module _ (F : Fasthttp) {S W : Type 0} (src : Reader S) (env : Env F.Header W) (K : Custody) where
  open K use {Idle, Taken, idle_same, taken_same, dropped}

  -- The connection is with the stream, if there is one, and else with nobody.
  abbrev pub Kept : Str → Option (PoolReader (TimedReader Buffered)) → PoolState → Type 0
  Kept addr none p = Idle p
  Kept addr (some pr) p = Taken addr pr.connection p

  -- When the handler is through.
  abbrev pub Through : Handler F → Type 0
  Through h = Kept h.upstream_address h.body_stream h.pool

  abbrev Busy : Conn → Handler F → Type 0
  Busy c h = (h.body_stream ≡ none) × Taken h.upstream_address c h.pool

  pub Keeps-Taken :
      {h h' : Handler F} (c : Conn)
      → Keeps F h h'
      → Taken h.upstream_address c h.pool
      → Taken h'.upstream_address c h'.pool
  Keeps-Taken {h' = h'} c f v =
      subst (λ a. Taken a c h'.pool) (sym f.address) (taken_same f.pools v)

  Keeps-Busy : {h h' : Handler F} (c : Conn) → Keeps F h h' → Busy c h → Busy c h'
  Keeps-Busy c f v = (f.stream ∙ v.0, Keeps-Taken c f v.1)

  -- A handler that streams nothing has no connection.
  settle : (h : Handler F) → h.body_stream ≡ none → Idle h.pool → Through h
  settle h idle v = subst (λ o. Kept h.upstream_address o h.pool) (sym idle) v

  drop-Through : (c : Conn) (h : Handler F) → Busy c h → Through (drop_conn F src env c h)
  drop-Through c h v = settle (drop_conn F src env c h) v.0 (dropped env.close_error v.1)

  abbrev pub Acquired : Str → Option Conn → PoolState → Type 0
  Acquired addr none p = Idle p
  Acquired addr (some c) p = Taken addr c p

  -- The pool gives its connection, or no connection is taken.
  pub acquire-Acquired :
      (h : Handler F)
      → h.body_stream ≡ none
      → Ready K env.fasthttp_dial h.pool
      → let x = acquire_upstream_conn F src env h in
        (x.0.body_stream ≡ none) × Acquired x.0.upstream_address x.1 x.0.pool
  unfolding acquire_upstream_conn
  acquire-Acquired h idle v =
      let r =
        acquire_upstream_connection env.fasthttp_dial env.now env.idle_close_error
          h.upstream_address h.pool in
      elim (Result-cases r.1) [
        | inl (c, got) ↦
            rw (got, acquire_upstream_conn)
              (idle, v.acquired env.now env.idle_close_error h.upstream_address c got)
        | inr (e, refused) ↦
            rw (refused, acquire_upstream_conn)
              (
                idle,
                idle_same (record { same_pools = refl; same_settings = refl; same_closed = refl })
                    (v.refused env.now env.idle_close_error h.upstream_address e refused),
              )
      ]

  after_body-Through : (c : Conn) (h : Handler F) → Busy c h → Through (after_body F src env c h)
  unfolding after_body stream_response_body new_pool_reader
  after_body-Through c h v =
      let x = read_response_headers F src env c h in
      let v' = Keeps-Busy c (read_headers-Keeps F src env c h) v in
      elim (Option-cases x.1) [
        | inl failed ↦ rw (failed, after_body) (drop-Through c x.0 v')
        | inr ((header, reader), got) ↦
            rw (got, after_body) (Keeps-Busy c (copy-Keeps F src env header x.0) v').1
      ]

  abbrev IfEnded : Option (Handler F) → Type 0
  IfEnded none = Unit
  IfEnded (some h) = Through h

  after_headers-Through :
      (c : Conn) (b : Body S) (h : Handler F) → Busy c h → IfEnded (after_headers F src env c b h)
  unfolding after_headers
  after_headers-Through c b h v = elim (Option-cases (write_request_body F src env b h)) [
    | inl stuck ↦ rw (stuck, after_headers) tt
    | inr ((h', written), done) ↦
        let v' =
          Keeps-Busy c (subst (IfDone F src env h) done (write_request_body-Keeps F src env b h))
            v in
        rw (done, after_headers)
          (elim (Bool-cases written) [
            | inl all ↦ rw all (after_body-Through c h' v')
            | inr failed ↦ rw failed (drop-Through c h' v')
          ])
  ]

  after_acquire-Through :
      (c : Conn) (b : Body S) (h : Handler F) → Busy c h → IfEnded (after_acquire F src env c b h)
  unfolding after_acquire
  after_acquire-Through c b h v =
      let x = write_request_headers F src env c h in
      let v' = Keeps-Busy c (write_headers-Keeps F src env c h) v in
      elim (Bool-cases x.1) [
        | inl sent ↦ rw sent (after_headers-Through c b x.0 v')
        | inr failed ↦ rw failed (drop-Through c x.0 v')
      ]

  after_resolve-Through :
      (b : Body S) (h : Handler F)
      → h.body_stream ≡ none
      → Ready K env.fasthttp_dial h.pool
      → IfEnded (after_resolve F src env b h)
  unfolding after_resolve
  after_resolve-Through b h idle v =
      let x = acquire_upstream_conn F src env h in
      let v' = acquire-Acquired h idle v in
      let have : (o : Option Conn) → x.1 ≡ o → Acquired x.0.upstream_address o x.0.pool =
        λ o e. subst (λ y. Acquired x.0.upstream_address y x.0.pool) e v'.1 in
      elim (Option-cases x.1) [
        | inl refused ↦ rw (refused, after_resolve) (settle x.0 v'.0 (have none refused))
        | inr (c, got) ↦
            rw (got, after_resolve) (after_acquire-Through c b x.0 (v'.0, have (some c) got))
      ]

  handle-IfEnded :
      (req : Request S) (h : Handler F)
      → h.body_stream ≡ none
      → Ready K env.fasthttp_dial h.pool
      → IfEnded (handle F src env req h)
  unfolding handle
  handle-IfEnded req h idle v =
      let x = resolve_upstream F env.parse env.intn req.host h in
      let (pool, stream) = resolve_step F src env req.host h in
      let idle' : x.0.body_stream ≡ none = stream ∙ idle in
      let v' : Ready K env.fasthttp_dial x.0.pool = rw pool v in
      elim (Bool-cases x.1) [
        | inl resolved ↦ rw resolved (after_resolve-Through req.body x.0 idle' v')
        | inr failed ↦ rw failed (settle x.0 idle' v'.idle)
      ]

  -- On every branch of handle().
  pub handle-Kept :
      (req : Request S) (h h' : Handler F)
      → h.body_stream ≡ none
      → Ready K env.fasthttp_dial h.pool
      → handle F src env req h ≡ some h'
      → Through h'
  handle-Kept req h h' idle v e = subst IfEnded e (handle-IfEnded req h idle v)

  pub handle-Through :
      (req : Request S) (h : Handler F)
      → Ends F src env req.body
      → h.body_stream ≡ none
      → Ready K env.fasthttp_dial h.pool
      → (h' : Handler F) × (handle F src env req h ≡ some h') × Through h'
  handle-Through req h ends idle v =
      let (h', e) = handle-Returns F src env req h ends in (h', e, handle-Kept req h h' idle v e)
