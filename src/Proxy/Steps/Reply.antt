-- ===== src/Proxy/Steps/Reply.antt =====
-- What the steps of handle() from readResponseHeaders() on count, and the status that they answer with.
use fasthttpproxy.Common.{
  suc, leb, ◌≤◌, Bool-cases, none, some, [], ◌∷◌, ◌≡◌, refl, ◌⊎◌, inl, inr, arith,
}
use fasthttpproxy.Common.Result.{Error, Result-cases, ok, err}
use fasthttpproxy.Common.Net.{Conn, Reader}
use fasthttpproxy.Pool.Buffers.{Buffered, acquire_reader, use_all, acquire_bufio_reader}
use fasthttpproxy.Pool.Accounting.Shift.{Shift, Unmoved, alike}
use fasthttpproxy.Proxy.Fasthttp.{Fasthttp, StatusLaws}
use fasthttpproxy.Proxy.State.{Handler, Env}
use fasthttpproxy.Proxy.Handler.{read_response_headers, copy_response_status, stream_response_body}
use fasthttpproxy.Proxy.Steps.{Failed, acquire_reader-Shift}

module _ (F : Fasthttp) (laws : StatusLaws F) where
  open F use {Header, status_code, header_status}

  module _ {S W : Type 0} (src : Reader S) (env : Env Header W) where
    -- readResponseHeaders
    pub read-Step :
        (c : Conn) (h : Handler F)
        → let x = read_response_headers F src env c h in
          ((header : Header) × (r : Buffered) × (env.response_header ≡ ok header)
            × (x.1 ≡ some (header, r))
            × Shift 0 (acquire_reader env.got_reader c ∷ []) h.pool x.0.pool)
          ⊎ ((e : Error) × (env.response_header ≡ err e)
              × (x.1 ≡ none)
              × Failed F laws 1 (acquire_reader env.got_reader c ∷ []) h x.0)
    unfolding read_response_headers
    read-Step c h =
        let taken = acquire_reader-Shift F laws src env env.got_reader c h.pool in
        elim (Result-cases env.response_header) [
          | inl (header, read) ↦ inl (
            header,
            (acquire_bufio_reader env.got_reader c h.pool).1,
            read,
            rw (read, read_response_headers) refl,
            rw (read, read_response_headers) taken,
          )
          | inr (e, failed) ↦ inr (
            e,
            failed,
            rw (failed, read_response_headers) refl,
            rw (failed, read_response_headers)
                (record {
                  shift = record { failed = omega (arith, taken.failed); used = taken.used };
                  gateway = laws.status_code-error _ 502 h.response;
                }),
          )
        ]

    -- copyResponseStatus
    pub copy-Step :
        (header : Header) (h : Handler F)
        → let h' = copy_response_status F src env header h in
          ((500 ≤ header_status header) × Failed F laws 1 [] h h')
          ⊎ ((suc (header_status header) ≤ 500)
              × (status_code h'.response ≡ header_status header)
              × Unmoved h.pool h'.pool)
    unfolding copy_response_status use_all
    copy-Step header h = elim (Bool-cases (leb 500 (header_status header))) [
      | inl failed ↦ inl (
        ground arith,
        rw failed (record {
          shift = record { failed = omega arith; used = refl };
          gateway = laws.status_code-set 502 h.response;
        }),
      )
      | inr fine ↦
          inr (ground arith, rw fine (laws.status_code-copy header _), rw fine (alike refl refl))
    ]

    -- streamResponseBody keeps the status and the pools.
    pub stream-status :
        (c : Conn) (header : Header) (r : Buffered) (h : Handler F)
        → status_code (stream_response_body F src env c header r h).response
          ≡ status_code h.response
    unfolding stream_response_body
    stream-status c header r h = rw (laws.status_code-stream, laws.status_code-flush) refl
