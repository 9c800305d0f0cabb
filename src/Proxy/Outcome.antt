-- ===== src/Proxy/Outcome.antt =====
-- What a request comes to: a specification of handle() that leaves out its steps and speaks of what
-- the calls of other packages gave, of the answer, and of what is counted and acquired on the way.
use fasthttpproxy.Common.{ℕ, ◌≤◌, ◌<◌, none, some, List, [], ◌∷◌, ◌++◌, ◌≡◌, ◌≢◌, ◌⊎◌, length}
use fasthttpproxy.Common.Text.{Str}
use fasthttpproxy.Common.Result.{Error, Result, ok, err}
use fasthttpproxy.Common.Net.{Conn, Reader}
use fasthttpproxy.Pool.State.{PoolState}
use fasthttpproxy.Pool.Buffers.{
  Use, Buffered, acquire_reader, acquire_writer, release_writer, release_bufio_reader,
}
use fasthttpproxy.Pool.PipeCopy.{copy_loop}
use fasthttpproxy.Pool.Accounting.Shift.{Shift}
use fasthttpproxy.Pool.Upstream.{acquire_upstream_connection}
use fasthttpproxy.Readers.PoolReader.{new_pool_reader}
use fasthttpproxy.Readers.TimedReader.{new_timed_reader}
use fasthttpproxy.Upstream.Address.{Upstream, with_scheme}
use fasthttpproxy.Upstream.Upstreams.{random}
use fasthttpproxy.Proxy.Fasthttp.{Fasthttp}
use fasthttpproxy.Proxy.State.{Handler, Request, Body, streamed, fixed, Env}

module _ (F : Fasthttp) where
  open F use {Header, status_code, header_status}

  -- It ended with this status and no new stream: so many errors more are counted, and the counters of
  -- the buffers are those after these calls.
  pub record Ended (status k : ℕ) (us : List Use) (h h' : Handler F) : Type 0 where
    pub answer : status_code h'.response ≡ status
    pub shift : Shift k us h.pool h'.pool
    pub same_stream : h'.body_stream ≡ h.body_stream

  module _ {S W : Type 0} (src : Reader S) (env : Env Header W) where
    -- The address: that of an upstream drawn from the list, or else the Host's.
    abbrev pub Chosen : Str → Handler F → Str → Type 0
    Chosen host h addr =
        ((up : Upstream) × (random env.intn h.upstreams ≡ some up) × (addr ≡ up.address))
        ⊎ ((random env.intn h.upstreams ≡ none) × (host ≢ []) × (addr ≡ with_scheme host))

    -- What the pool gives for an address.
    abbrev pub dialing : Str → PoolState → Result Conn
    dialing addr p =
        (acquire_upstream_connection env.fasthttp_dial env.now env.idle_close_error addr p).1

    -- The calls for the writer of the request's header, and with those for the reader of the answer.
    abbrev pub writing : Conn → List Use
    writing c = acquire_writer env.got_writer c ∷ release_writer ∷ []

    abbrev pub asking : Conn → List Use
    asking c = writing c ++ acquire_reader env.got_reader c ∷ []

    -- The header of the request is written and flushed, or not.
    abbrev pub Sent : Type 0
    Sent = (env.header_write ≡ none) × (env.flush ≡ none)

    abbrev pub Unsent : Error → Type 0
    Unsent e = (env.header_write ≡ some e) ⊎ ((env.header_write ≡ none) × (env.flush ≡ some e))

    -- The body of the request is written, all of it, or not.
    unfoldable pub Delivered : Body S → Type 0
    Delivered (streamed s) =
        (copy_loop src env.write env.fuel env.copy_buffer s env.link).0 ≡ some none
    Delivered (fixed body) =
        (length body ≡ 0)
        ⊎ (((env.body_write body).1 ≡ none) × ((env.body_write body).0 ≡ length body))

    abbrev pub Uncopied : S → Type 0
    Uncopied s =
        (e : Error) × ((copy_loop src env.write env.fuel env.copy_buffer s env.link).0
          ≡ some (some e))

    abbrev pub Unwritten : List ℕ → Type 0
    Unwritten body =
        (length body ≢ 0)
        × (((e : Error) × ((env.body_write body).1 ≡ some e))
            ⊎ (((env.body_write body).1 ≡ none) × ((env.body_write body).0 ≢ length body)))

    -- Like Ended, but with a stream: that of an answer with this header, over a reader that is not yet
    -- released.
    pub record Streams (status k : ℕ) (c : Conn) (header : Header) (h h' : Handler F) : Type 0 where
      pub reader : Buffered
      pub answer : status_code h'.response ≡ status
      pub shift : Shift k (asking c) h.pool h'.pool
      pub stream :
          h'.body_stream
          ≡ some (
              new_pool_reader
                (new_timed_reader reader c)
                h'.upstream_address
                c
                (F.content_length header)
                (some release_bufio_reader))

    -- What comes of a request with this body on a connection.
    pub data Exchange (c : Conn) (b : Body S) (h h' : Handler F) : Type 0 where
      not_sent : (e : Error) → Unsent e → Ended 502 1 (writing c) h h' → Exchange c b h h'
      not_copied :
          (s : S)
          → b ≡ streamed s
          → Sent
          → Uncopied s
          → Ended 502 0 (writing c) h h'
          → Exchange c b h h'
      not_written :
          (body : List ℕ)
          → b ≡ fixed body
          → Sent
          → Unwritten body
          → Ended 502 1 (writing c) h h'
          → Exchange c b h h'
      not_read :
          (e : Error)
          → Sent
          → Delivered b
          → env.response_header ≡ err e
          → Ended 502 1 (asking c) h h'
          → Exchange c b h h'
      bad_answer :
          (header : Header)
          → Sent
          → Delivered b
          → env.response_header ≡ ok header
          → 500 ≤ header_status header
          → Streams 502 1 c header h h'
          → Exchange c b h h'
      answered :
          (header : Header)
          → Sent
          → Delivered b
          → env.response_header ≡ ok header
          → header_status header < 500
          → Streams (header_status header) 0 c header h h'
          → Exchange c b h h'

    -- What a request comes to.
    pub data Outcome (req : Request S) (h h' : Handler F) : Type 0 where
      no_host :
          random env.intn h.upstreams ≡ none
          → req.host ≡ []
          → Ended 400 0 [] h h'
          → Outcome req h h'
      not_dialed :
          (e : Error)
          → Chosen req.host h h'.upstream_address
          → dialing h'.upstream_address h.pool ≡ err e
          → Ended 502 1 [] h h'
          → Outcome req h h'
      exchanged :
          (c : Conn)
          → Chosen req.host h h'.upstream_address
          → dialing h'.upstream_address h.pool ≡ ok c
          → Exchange c req.body h h'
          → Outcome req h h'
