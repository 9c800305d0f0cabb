-- ===== src/Proxy/Answer.antt =====
-- The stream that handle() leaves: a PoolReader of the request's upstream and of the answer's length.
use fasthttpproxy.Common.{
  Bool-cases, Option-cases, Option, none, some, ◌≡◌, refl, sym, subst, ◌∙◌, inl, inr, arith,
}
use fasthttpproxy.Common.Text.{Str}
use fasthttpproxy.Common.Result.{ok}
use fasthttpproxy.Common.Net.{Conn, Reader}
use fasthttpproxy.Pool.Buffers.{Buffered, release_bufio_reader}
use fasthttpproxy.Readers.PoolReader.{PoolReader, new_pool_reader}
use fasthttpproxy.Readers.TimedReader.{TimedReader, new_timed_reader}
use fasthttpproxy.Proxy.Fasthttp.{Fasthttp}
use fasthttpproxy.Proxy.State.{Handler, Request, Body, Env}
use fasthttpproxy.Proxy.Handler.{
  resolve_upstream, acquire_upstream_conn, write_request_headers, write_request_body,
  read_response_headers, stream_response_body, drop_conn, after_body, after_headers, after_acquire,
  after_resolve, handle,
}
use fasthttpproxy.Proxy.Keeps.{
  IfDone, write_headers-Keeps, write_request_body-Keeps, read_headers-Keeps, resolve_step,
}

module _ (F : Fasthttp) {S W : Type 0} (src : Reader S) (env : Env F.Header W) where
  -- A new PoolReader of the address, for the length that the header of the answer has.
  abbrev pub IsAnswer : Str → Option (PoolReader (TimedReader Buffered)) → Type 0
  IsAnswer addr none = Unit
  IsAnswer addr (some pr) =
      (c : Conn) × (reader : Buffered) × (header : F.Header) × (env.response_header ≡ ok header)
      × (pr
          ≡ new_pool_reader (new_timed_reader reader c) addr c (F.content_length header)
              (some release_bufio_reader))

  abbrev Answers : Handler F → Type 0
  Answers h = IsAnswer h.upstream_address h.body_stream

  idle-Answers : (h : Handler F) → h.body_stream ≡ none → Answers h
  idle-Answers h idle = subst (IsAnswer h.upstream_address) (sym idle) tt

  read_headers-some :
      (c : Conn) (h : Handler F) (header : F.Header) (reader : Buffered)
      → (read_response_headers F src env c h).1 ≡ some (header, reader)
      → env.response_header ≡ ok header
  unfolding read_response_headers
  read_headers-some c h header reader e = ground arith

  after_body-Answers :
      (c : Conn) (h : Handler F) → h.body_stream ≡ none → Answers (after_body F src env c h)
  unfolding after_body stream_response_body
  after_body-Answers c h idle =
      let x = read_response_headers F src env c h in
      elim (Option-cases x.1) [
        | inl failed ↦
            rw (failed, after_body)
              (idle-Answers (drop_conn F src env c x.0)
                ((read_headers-Keeps F src env c h).stream ∙ idle))
        | inr ((header, reader), got) ↦
            rw (got, after_body) (c, reader, header, read_headers-some c h header reader got, refl)
      ]

  abbrev IfEnded : Option (Handler F) → Type 0
  IfEnded none = Unit
  IfEnded (some h) = Answers h

  after_headers-Answers :
      (c : Conn) (b : Body S) (h : Handler F)
      → h.body_stream ≡ none
      → IfEnded (after_headers F src env c b h)
  unfolding after_headers
  after_headers-Answers c b h idle = elim (Option-cases (write_request_body F src env b h)) [
    | inl stuck ↦ rw (stuck, after_headers) tt
    | inr ((h', written), done) ↦
        let idle' =
          (subst (IfDone F src env h) done (write_request_body-Keeps F src env b h)).stream
          ∙ idle in
        rw (done, after_headers)
          (elim (Bool-cases written) [
            | inl all ↦ rw all (after_body-Answers c h' idle')
            | inr failed ↦ rw failed (idle-Answers (drop_conn F src env c h') idle')
          ])
  ]

  after_acquire-Answers :
      (c : Conn) (b : Body S) (h : Handler F)
      → h.body_stream ≡ none
      → IfEnded (after_acquire F src env c b h)
  unfolding after_acquire
  after_acquire-Answers c b h idle =
      let x = write_request_headers F src env c h in
      let idle' = (write_headers-Keeps F src env c h).stream ∙ idle in
      elim (Bool-cases x.1) [
        | inl sent ↦ rw sent (after_headers-Answers c b x.0 idle')
        | inr failed ↦ rw failed (idle-Answers (drop_conn F src env c x.0) idle')
      ]

  pub acquire-idle :
      (h : Handler F) → (acquire_upstream_conn F src env h).0.body_stream ≡ h.body_stream
  unfolding acquire_upstream_conn
  acquire-idle h = ground arith

  after_resolve-Answers :
      (b : Body S) (h : Handler F) → h.body_stream ≡ none → IfEnded (after_resolve F src env b h)
  unfolding after_resolve
  after_resolve-Answers b h idle =
      let x = acquire_upstream_conn F src env h in
      let idle' = acquire-idle h ∙ idle in
      elim (Option-cases x.1) [
        | inl refused ↦ rw (refused, after_resolve) (idle-Answers x.0 idle')
        | inr (c, got) ↦ rw (got, after_resolve) (after_acquire-Answers c b x.0 idle')
      ]

  handle-IfEnded :
      (req : Request S) (h : Handler F) → h.body_stream ≡ none → IfEnded (handle F src env req h)
  unfolding handle
  handle-IfEnded req h idle =
      let x = resolve_upstream F env.parse env.intn req.host h in
      let idle' = (resolve_step F src env req.host h).1 ∙ idle in
      elim (Bool-cases x.1) [
        | inl resolved ↦ rw resolved (after_resolve-Answers req.body x.0 idle')
        | inr failed ↦ rw failed (idle-Answers x.0 idle')
      ]

  pub handle-IsAnswer :
      (req : Request S) (h h' : Handler F)
      → h.body_stream ≡ none
      → handle F src env req h ≡ some h'
      → IsAnswer h'.upstream_address h'.body_stream
  handle-IsAnswer req h h' idle e = subst IfEnded e (handle-IfEnded req h idle)
