-- ===== src/Proxy/Handler.antt =====
-- The methods of `handler`, and handle().
use fasthttpproxy.Common.{
  ℕ, suc, leb, ◌==◌, Bool, true, false, Option, none, some, List, [], ◌∷◌, ◌++◌, if◌then◌else◌,
  length,
}
use fasthttpproxy.Common.Text.{Str, codes, str_eq}
use fasthttpproxy.Common.Result.{Error, ok, err}
use fasthttpproxy.Common.Net.{Conn, Reader}
use fasthttpproxy.Metrics.{Metrics}
use fasthttpproxy.Pool.Upstream.{acquire_upstream_connection, close_and_drop_upstream_connection}
use fasthttpproxy.Pool.Buffers.{
  Buffered, acquire_bufio_reader, release_bufio_reader, acquire_bufio_writer, release_bufio_writer,
}
use fasthttpproxy.Pool.PipeCopy.{pipe_copy}
use fasthttpproxy.Readers.PoolReader.{new_pool_reader}
use fasthttpproxy.Readers.TimedReader.{new_timed_reader}
use fasthttpproxy.Upstream.Address.{Url, with_scheme}
use fasthttpproxy.Upstream.Upstreams.{append, random}
use fasthttpproxy.Proxy.Fasthttp.{Fasthttp}
use fasthttpproxy.Proxy.State.{Handler, Request, Body, streamed, fixed, Env, fail, count}

module _ (F : Fasthttp) where
  open F use {
    Response, Header, error, set_status_code, copy_header, flush_header, stream, header_status,
    content_length, message,
  }

  abbrev pub inc_write_errors : Metrics → Metrics
  inc_write_errors m = record m { write_errors = suc m.write_errors }

  -- The tail of resolveUpstream, for an address that has a scheme: the error of url.Parse is
  -- answered, and the address is used and appended all the same.
  unfoldable pub use_host : (Str → Option Url) → Str → Handler F → Handler F × Bool
  use_host parse addr h =
      let h₁ = record h { upstream_address = addr } in
      let h₂ : Handler F = elim (parse addr) [
        | none ↦ fail F (codes "invalid upstream address") 400 h₁
        | some u ↦ h₁
      ] in
      (record h₂ { upstreams = append parse addr h₂.upstreams }, true)

  -- resolveUpstream
  unfoldable pub resolve_upstream :
      (Str → Option Url) → (ℕ → ℕ) → Str → Handler F → Handler F × Bool
  unfolding use_host
  resolve_upstream parse intn host h = elim (random intn h.upstreams) [
    | some up ↦ (record h { upstream_address = up.address }, true)
    | none ↦
        if str_eq host []
        then (fail F (codes "no host header") 400 (record h { upstream_address = [] }), false)
        else use_host parse (with_scheme host) h
  ]

  module _ {S W : Type 0} (src : Reader S) (env : Env Header W) where
    open env use {
      fasthttp_dial, parse, intn, now, idle_close_error, close_error, got_writer, got_reader,
      header_write, flush, write, link, body_write, fuel, copy_buffer, write_duration,
      response_header,
    }

    -- acquireUpstreamConn; `none` is its false.
    unfoldable pub acquire_upstream_conn : Handler F → Handler F × Option Conn
    acquire_upstream_conn h =
        let (p, r) =
          acquire_upstream_connection fasthttp_dial now idle_close_error h.upstream_address
            h.pool in
        let h' = record h { pool = p } in
        elim r [
          | ok c ↦ (h', some c)
          | err e ↦ (
            fail F (codes "cannot connect to upstream") 502
                (count F (λ m. record m { dial_errors = suc m.dial_errors }) h'),
            none,
          )
        ]

    -- writeRequestHeaders, with its writer acquired and not yet released
    unfoldable pub send_headers : Handler F → Handler F × Bool
    send_headers h = elim header_write [
      | some e ↦ (
        fail F (codes "upstream request header error: " ++ message e) 502
            (count F inc_write_errors h),
        false,
      )
      | none ↦ elim flush [
        | some e ↦ (
          fail F (codes "upstream request flush error: " ++ message e) 502 (
              count F
                (λ m. record m { bufio_writer_flush_errors = suc m.bufio_writer_flush_errors }) h),
          false,
        )
        | none ↦ (h, true)
      ]
    ]

    -- writeRequestHeaders
    unfoldable pub write_request_headers : Conn → Handler F → Handler F × Bool
    unfolding send_headers
    write_request_headers c h =
        let acquired = record h { pool = (acquire_bufio_writer got_writer c h.pool).0 } in
        let (h', sent) = send_headers acquired in
        (record h' { pool = release_bufio_writer h'.pool }, sent)

    -- metrics.RequestBodyWriteDuration.Observe, which is deferred
    abbrev pub observe_write : Metrics → Metrics
    observe_write m = record m {
      request_body_write_duration = write_duration ∷ m.request_body_write_duration;
    }

    -- A body at hand: the Write of all of it, and the test for a short write.
    unfoldable pub write_fixed : List ℕ → Handler F → Handler F × Bool
    write_fixed body h =
        let (n, e) = body_write body in
        let failed : Error → Handler F × Bool = λ e'. (
          fail F (codes "upstream request body write error: " ++ message e') 502
              (count F inc_write_errors h),
          false,
        ) in
        let short : Handler F × Bool = (
          fail F (codes "upstream request body short write") 502 (count F inc_write_errors h),
          false,
        ) in
        if length body == 0
        then (h, true)
        else elim e [ some e' ↦ failed e' | none ↦ if n == length body then (h, true) else short ]

    -- The end of a streamed body: `none` where PipeCopy has not returned within the fuel.
    unfoldable pub copied : Option (Option Error) → Handler F → Option (Handler F × Bool)
    copied none h = none
    copied (some none) h = some (h, true)
    copied (some (some e)) h =
        some (fail F (codes "upstream request body stream error: " ++ message e) 502 h, false)

    unfoldable pub write_body : Body S → Handler F → Option (Handler F × Bool)
    unfolding write_fixed copied
    write_body (streamed s) h =
        let (p, result, w) = pipe_copy src write fuel copy_buffer s link h.pool in
        copied result (record h { pool = p })
    write_body (fixed body) h = some (write_fixed body h)

    -- writeRequestBody
    unfoldable pub write_request_body : Body S → Handler F → Option (Handler F × Bool)
    unfolding write_body
    write_request_body b h = elim (write_body b h) [
      | none ↦ none
      | some (h', written) ↦ some (count F observe_write h', written)
    ]

    -- readResponseHeaders: the reader is acquired and, if the header is not read, not released.
    -- The header and the reader are the handler's fields responseHeader and bufIOReader.
    unfoldable pub read_response_headers : Conn → Handler F → Handler F × Option (Header × Buffered)
    read_response_headers c h =
        let (p, reader) = acquire_bufio_reader got_reader c h.pool in
        let h' = record h { pool = p } in
        elim response_header [
          | err e ↦ (
            fail F (codes "upstream response error: " ++ message e) 502
                (count F (λ m. record m { read_errors = suc m.read_errors }) h'),
            none,
          )
          | ok header ↦ (h', some (header, reader))
        ]

    -- copyResponseStatus, without its test for a header that is nil: handle() calls it only where
    -- readResponseHeaders has set the header.
    unfoldable pub copy_response_status : Header → Handler F → Handler F
    copy_response_status header h =
        let status = header_status header in
        if leb 500 status
        then record (count F (λ m. record m { upstream_5xx = suc m.upstream_5xx }) h) {
          response = set_status_code 502 h.response;
        }
        else record h { response = copy_header header (set_status_code status h.response) }

    -- streamResponseBody
    unfoldable pub stream_response_body : Conn → Header → Buffered → Handler F → Handler F
    stream_response_body c header reader h =
        let length' = content_length header in
        let timed = new_timed_reader reader c in
        let pr = new_pool_reader timed h.upstream_address c length' (some release_bufio_reader) in
        record h { response = stream length' (flush_header h.response); body_stream = some pr }

    -- pool.CloseAndDropUpstreamConnection(h.upstreamAddress, h.connection)
    abbrev pub drop_conn : Conn → Handler F → Handler F
    drop_conn c h = record h {
      pool = close_and_drop_upstream_connection close_error h.upstream_address c h.pool;
    }

    -- The tails of handle(), from each of its tests on.
    unfoldable pub after_body : Conn → Handler F → Handler F
    unfolding read_response_headers copy_response_status stream_response_body
    after_body c h =
        let (h', r) = read_response_headers c h in
        elim r [
          | none ↦ drop_conn c h'
          | some (header, reader) ↦
              stream_response_body c header reader (copy_response_status header h')
        ]

    unfoldable pub after_headers : Conn → Body S → Handler F → Option (Handler F)
    unfolding write_request_body after_body
    after_headers c b h = elim (write_request_body b h) [
      | none ↦ none
      | some (h', written) ↦ if written then some (after_body c h') else some (drop_conn c h')
    ]

    unfoldable pub after_acquire : Conn → Body S → Handler F → Option (Handler F)
    unfolding write_request_headers after_headers
    after_acquire c b h =
        let (h', sent) = write_request_headers c h in
        if sent then after_headers c b h' else some (drop_conn c h')

    unfoldable pub after_resolve : Body S → Handler F → Option (Handler F)
    unfolding acquire_upstream_conn after_acquire
    after_resolve b h =
        let (h', r) = acquire_upstream_conn h in
        elim r [ none ↦ some h' | some c ↦ after_acquire c b h' ]

    -- handle(); `none` where PipeCopy has not returned within the fuel.
    unfoldable pub handle : Request S → Handler F → Option (Handler F)
    unfolding resolve_upstream after_resolve
    handle req h =
        let (h', resolved) = resolve_upstream parse intn req.host h in
        if resolved then after_resolve req.body h' else some h'
