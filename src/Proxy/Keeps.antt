-- ===== src/Proxy/Keeps.antt =====
-- The steps of handle() between the acquisition of the connection and its release: they leave the
-- pools of connections, the address, the stream and the list of upstreams as they are.
use fasthttpproxy.Common.{
  arith, ℕ, leb, ◌==◌, Bool, Bool-cases, Option-cases, Option, none, some, List, ◌≡◌, refl, ◌∙◌,
  subst, inl, inr, length,
}
use fasthttpproxy.Common.Text.{Str}
use fasthttpproxy.Common.Result.{Error, Result-cases}
use fasthttpproxy.Common.Net.{Conn, Reader}
use fasthttpproxy.Pool.State.{PoolState}
use fasthttpproxy.Pool.Buffers.{acquire_bufio_writer}
use fasthttpproxy.Pool.PipeCopy.{pipe_copy}
use fasthttpproxy.Proxy.Fasthttp.{Fasthttp}
use fasthttpproxy.Proxy.State.{Handler, Body, streamed, fixed, Env}
use fasthttpproxy.Proxy.Handler.{
  resolve_upstream, use_host, send_headers, write_request_headers, write_fixed, copied, write_body,
  write_request_body, read_response_headers, copy_response_status,
}
use fasthttpproxy.Pool.Untouched.{
  Untouched, Untouched-trans, acquire_reader-Untouched, acquire_writer-Untouched,
  release_writer-Untouched,
}

module _ (F : Fasthttp) where
  -- A step before the connection is acquired, or while it is: the pools of connections, the address,
  -- the stream and the list of upstreams are as before.
  pub record Keeps (h h' : Handler F) : Type 0 where
    pub pools : Untouched h.pool h'.pool
    pub address : h'.upstream_address ≡ h.upstream_address
    pub stream : h'.body_stream ≡ h.body_stream
    pub same_upstreams : h'.upstreams ≡ h.upstreams

  keeps :
      {h h' : Handler F}
      → h'.pool.upstream_pool ≡ h.pool.upstream_pool
      → h'.pool.settings ≡ h.pool.settings
      → h'.pool.closed ≡ h.pool.closed
      → h'.upstream_address ≡ h.upstream_address
      → h'.body_stream ≡ h.body_stream
      → h'.upstreams ≡ h.upstreams
      → Keeps h h'
  keeps a b c d e f = record {
    pools = record { same_pools = a; same_settings = b; same_closed = c };
    address = d;
    stream = e;
    same_upstreams = f;
  }

  Keeps-trans : {a b c : Handler F} → Keeps a b → Keeps b c → Keeps a c
  Keeps-trans f g = record {
    pools = Untouched-trans f.pools g.pools;
    address = g.address ∙ f.address;
    stream = g.stream ∙ f.stream;
    same_upstreams = g.same_upstreams ∙ f.same_upstreams;
  }

  -- The same for a step that changes the pools alone.
  pool-Keeps :
      (h : Handler F) (p : PoolState) → Untouched h.pool p → Keeps h (record h { pool = p })
  pool-Keeps h p u = record { pools = u; address = refl; stream = refl; same_upstreams = refl }

  module _ {S W : Type 0} (src : Reader S) (env : Env F.Header W) where
    send_headers-Keeps : (h : Handler F) → Keeps h (send_headers F src env h).0
    unfolding send_headers
    send_headers-Keeps h = elim (Option-cases env.header_write) [
      | inr (e, failed) ↦ rw (failed, send_headers) (keeps refl refl refl refl refl refl)
      | inl written ↦ elim (Option-cases env.flush) [
        | inr (e, failed) ↦ rw (written, failed, send_headers) (keeps refl refl refl refl refl refl)
        | inl flushed ↦ rw (written, flushed, send_headers) (keeps refl refl refl refl refl refl)
      ]
    ]

    pub write_headers-Keeps :
        (c : Conn) (h : Handler F) → Keeps h (write_request_headers F src env c h).0
    unfolding write_request_headers
    write_headers-Keeps c h =
        let acquired = record h { pool = (acquire_bufio_writer env.got_writer c h.pool).0 } in
        let sent = (send_headers F src env acquired).0 in
        Keeps-trans (pool-Keeps h _ (acquire_writer-Untouched env.got_writer c h.pool)) (
          Keeps-trans (send_headers-Keeps acquired)
            (pool-Keeps sent _ (release_writer-Untouched sent.pool)))

    -- What is said of a step that may not have ended.
    abbrev pub IfDone : Handler F → Option (Handler F × Bool) → Type 0
    IfDone h none = Unit
    IfDone h (some x) = Keeps h x.0

    write_fixed-Keeps : (body : List ℕ) (h : Handler F) → Keeps h (write_fixed F src env body h).0
    unfolding write_fixed
    write_fixed-Keeps body h = elim (Bool-cases (length body == 0)) [
      | inl empty ↦ rw empty (keeps refl refl refl refl refl refl)
      | inr full ↦ rw full (elim (Option-cases (env.body_write body).1) [
        | inr (e, failed) ↦ rw (failed, write_fixed) (keeps refl refl refl refl refl refl)
        | inl fine ↦
            rw (fine, write_fixed)
              (elim (Bool-cases ((env.body_write body).0 == length body)) [
                | inl all ↦ rw all (keeps refl refl refl refl refl refl)
                | inr short ↦ rw short (keeps refl refl refl refl refl refl)
              ])
      ])
    ]

    copied-Keeps : (r : Option (Option Error)) (h : Handler F) → IfDone h (copied F src env r h)
    unfolding copied
    copied-Keeps none h = tt
    copied-Keeps (some none) h = keeps refl refl refl refl refl refl
    copied-Keeps (some (some e)) h = keeps refl refl refl refl refl refl

    copied-after :
        (r : Option (Option Error)) (h g : Handler F) → Keeps h g → IfDone h (copied F src env r g)
    copied-after r h g k = elim (Option-cases (copied F src env r g)) [
      | inl stuck ↦ rw stuck tt
      | inr (x, done) ↦ rw done (Keeps-trans k (subst (IfDone g) done (copied-Keeps r g)))
    ]

    write_body-Keeps : (b : Body S) (h : Handler F) → IfDone h (write_body F src env b h)
    unfolding write_body pipe_copy
    write_body-Keeps (streamed s) h =
        let x = pipe_copy src env.write env.fuel env.copy_buffer s env.link h.pool in
        copied-after x.1 h (record h { pool = x.0 }) (keeps refl refl refl refl refl refl)
    write_body-Keeps (fixed body) h = write_fixed-Keeps body h

    pub write_request_body-Keeps :
        (b : Body S) (h : Handler F) → IfDone h (write_request_body F src env b h)
    unfolding write_request_body
    write_request_body-Keeps b h = elim (Option-cases (write_body F src env b h)) [
      | inl stuck ↦ rw (stuck, write_request_body) tt
      | inr (x, done) ↦
          rw (done, write_request_body)
            (Keeps-trans (subst (IfDone h) done (write_body-Keeps b h))
              (keeps refl refl refl refl refl refl))
    ]

    pub read_headers-Keeps :
        (c : Conn) (h : Handler F) → Keeps h (read_response_headers F src env c h).0
    unfolding read_response_headers
    read_headers-Keeps c h =
        let got = acquire_reader-Untouched env.got_reader c h.pool in
        elim (Result-cases env.response_header) [
          | inr (e, failed) ↦
              rw (failed, read_response_headers)
                (keeps got.same_pools got.same_settings got.same_closed refl refl refl)
          | inl (header, read) ↦
              rw (read, read_response_headers)
                (keeps got.same_pools got.same_settings got.same_closed refl refl refl)
        ]

    pub copy-Keeps :
        (header : F.Header) (h : Handler F) → Keeps h (copy_response_status F src env header h)
    unfolding copy_response_status
    copy-Keeps header h = elim (Bool-cases (leb 500 (F.header_status header))) [
      | inl failed ↦ rw failed (keeps refl refl refl refl refl refl)
      | inr fine ↦ rw fine (keeps refl refl refl refl refl refl)
    ]

    pub resolve_step :
        (host : Str) (h : Handler F)
        → let x = resolve_upstream F env.parse env.intn host h in
          (x.0.pool ≡ h.pool) × (x.0.body_stream ≡ h.body_stream)
    unfolding resolve_upstream use_host
    resolve_step host h = ground arith
