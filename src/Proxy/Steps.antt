-- ===== src/Proxy/Steps.antt =====
-- What each step of handle() counts, which buffers it takes and gives back, and the status that it
-- answers with if it fails.
pub mod Upload
pub mod Reply
pub mod Exchanges
use fasthttpproxy.Common.{
  ℕ, suc, ◌+◌, ◌≤◌, ◌==◌, leb, Bool, Bool-cases, true, false, Option, Option-cases, none, some,
  List, [], ◌∷◌, ◌++◌, ◌≡◌, refl, ◌⊎◌, inl, inr, arith, length, subst,
}
use fasthttpproxy.Common.Text.{Str, codes}
use fasthttpproxy.Common.Result.{Error, Result, Result-cases, ok, err}
use fasthttpproxy.Common.Net.{Conn, Reader}
use fasthttpproxy.Pool.State.{PoolState}
use fasthttpproxy.Pool.Buffers.{
  Use, acquire_reader, acquire_writer, release_writer, use_one, use_all, Buffered,
  acquire_bufio_reader, acquire_bufio_writer, release_bufio_writer, metrics_bufio_reader_new,
  metrics_bufio_reader, metrics_bufio_writer_new, metrics_bufio_writer,
}
use fasthttpproxy.Pool.PipeCopy.{pipe_copy, metrics_up_pipe_copy, metrics_down_pipe_copy}
use fasthttpproxy.Pool.Accounting.Shift.{
  failures, buffer_counts, Shift, Shift-trans, Unmoved, unmoved, alike, acquire-Unmoved,
}
use fasthttpproxy.Pool.Upstream.{acquire_upstream_connection}
use fasthttpproxy.Proxy.Fasthttp.{Fasthttp, StatusLaws}
use fasthttpproxy.Proxy.State.{Handler, Env}
use fasthttpproxy.Proxy.Outcome.{dialing, writing, Sent, Unsent}
use fasthttpproxy.Proxy.Handler.{
  acquire_upstream_conn, send_headers, write_request_headers, write_fixed, copied, write_body,
  write_request_body, read_response_headers, copy_response_status,
}

module _ (F : Fasthttp) (laws : StatusLaws F) where
  open F use {Response, Header, status_code, header_status}

  -- The step failed: so many errors are counted, and the answer is 502.
  pub record Failed (k : ℕ) (us : List Use) (h h' : Handler F) : Type 0 where
    pub shift : Shift k us h.pool h'.pool
    pub gateway : status_code h'.response ≡ 502

  module _ {S W : Type 0} (src : Reader S) (env : Env Header W) where
    acquire_writer-Shift :
        (got : Option Buffered) (c : Conn) (p : PoolState)
        → Shift 0 (acquire_writer got c ∷ []) p (acquire_bufio_writer got c p).0
    unfolding acquire_bufio_writer metrics_bufio_writer_new metrics_bufio_writer use_all use_one
    acquire_writer-Shift none c p = record { failed = omega arith; used = refl }
    acquire_writer-Shift (some w) c p = record { failed = omega arith; used = refl }

    release_writer-Shift :
        (p : PoolState) → Shift 0 (release_writer ∷ []) p (release_bufio_writer p)
    unfolding release_bufio_writer metrics_bufio_writer use_all use_one
    release_writer-Shift p = record { failed = omega arith; used = refl }

    acquire_reader-Shift :
        (got : Option Buffered) (c : Conn) (p : PoolState)
        → Shift 0 (acquire_reader got c ∷ []) p (acquire_bufio_reader got c p).0
    unfolding acquire_bufio_reader metrics_bufio_reader_new metrics_bufio_reader use_all use_one
    acquire_reader-Shift none c p = record { failed = omega arith; used = refl }
    acquire_reader-Shift (some r) c p = record { failed = omega arith; used = refl }

    -- acquireUpstreamConn
    pub acquire-Step :
        (h : Handler F)
        → let x = acquire_upstream_conn F src env h in
          ((c : Conn) × (dialing F src env h.upstream_address h.pool ≡ ok c)
            × (x.1 ≡ some c)
            × Unmoved h.pool x.0.pool)
          ⊎ ((e : Error) × (dialing F src env h.upstream_address h.pool ≡ err e)
              × (x.1 ≡ none)
              × Failed 1 [] h x.0)
    unfolding acquire_upstream_conn use_all
    acquire-Step h =
        let v =
          acquire-Unmoved env.fasthttp_dial env.now env.idle_close_error h.upstream_address
            h.pool in
        elim (Result-cases (dialing F src env h.upstream_address h.pool)) [
          | inl (c, got) ↦
              inl (c, got, rw (got, acquire_upstream_conn) refl, rw (got, acquire_upstream_conn) v)
          | inr (e, refused) ↦ inr (
            e,
            refused,
            rw (refused, acquire_upstream_conn) refl,
            rw (refused, acquire_upstream_conn)
                (record {
                  shift = record { failed = omega (arith, v.same_failures); used = v.same_counts };
                  gateway = laws.status_code-error _ 502 h.response;
                }),
          )
        ]

    pub acquire_same :
        (h : Handler F)
        → let x = acquire_upstream_conn F src env h in
          (x.0.upstream_address ≡ h.upstream_address) × (x.0.body_stream ≡ h.body_stream)
    unfolding acquire_upstream_conn
    acquire_same h = ground arith

    -- `ctx.Error` with 502, after one counter of errors was raised.
    pub bad_gateway :
        (m : Str) (h h' : Handler F)
        → failures h'.pool.metrics ≡ suc (failures h.pool.metrics)
        → buffer_counts h'.pool ≡ buffer_counts h.pool
        → h'.response ≡ F.error m 502 h.response
        → Failed 1 [] h h'
    unfolding use_all
    bad_gateway m h h' counted same answer = record {
      shift = record { failed = omega (arith, counted); used = same };
      gateway = rw answer (laws.status_code-error m 502 h.response);
    }

    send-Step :
        (h : Handler F)
        → let x = send_headers F src env h in
          ((x.1 ≡ true) × Sent F src env × Unmoved h.pool x.0.pool)
          ⊎ ((x.1 ≡ false) × (e : Error) × Unsent F src env e × Failed 1 [] h x.0)
    unfolding send_headers
    send-Step h = elim (Option-cases env.header_write) [
      | inr (e, failed) ↦ inr (
        rw (failed, send_headers) refl,
        e,
        inl failed,
        rw (failed, send_headers) (bad_gateway _ h _ (omega arith) refl refl),
      )
      | inl written ↦ elim (Option-cases env.flush) [
        | inr (e, failed) ↦ inr (
          rw (written, failed, send_headers) refl,
          e,
          inr (written, failed),
          rw (written, failed, send_headers) (bad_gateway _ h _ (omega arith) refl refl),
        )
        | inl flushed ↦ inl (
          rw (written, flushed, send_headers) refl,
          (written, flushed),
          rw (written, flushed, send_headers) (alike refl refl),
        )
      ]
    ]

    -- writeRequestHeaders
    pub headers-Step :
        (c : Conn) (h : Handler F)
        → let x = write_request_headers F src env c h in
          ((x.1 ≡ true) × Sent F src env × Shift 0 (writing F src env c) h.pool x.0.pool)
          ⊎ ((x.1 ≡ false)
              × (e : Error) × Unsent F src env e
              × Failed 1 (writing F src env c) h x.0)
    unfolding write_request_headers
    headers-Step c h =
        let got = record h { pool = (acquire_bufio_writer env.got_writer c h.pool).0 } in
        let x = send_headers F src env got in
        let taken = acquire_writer-Shift env.got_writer c h.pool in
        let given = release_writer-Shift x.0.pool in
        elim (send-Step got) [
          | inl (sent, fine, v) ↦
              inl (sent, fine, Shift-trans (Shift-trans taken (unmoved v)) given)
          | inr (failed, e, why, f) ↦ inr (
            failed,
            e,
            why,
            record { shift = Shift-trans (Shift-trans taken f.shift) given; gateway = f.gateway },
          )
        ]
