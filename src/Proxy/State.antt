-- ===== src/Proxy/State.antt =====
-- What one request of internal/proxy/handler.go has: the request, the results of the calls that it
-- makes, and the fields of `handler` with the pools and the upstreams.
use fasthttpproxy.Common.{ℕ, Option, List}
use fasthttpproxy.Common.Text.{Str}
use fasthttpproxy.Common.Result.{Error, Result}
use fasthttpproxy.Common.Net.{Conn}
use fasthttpproxy.Metrics.{Metrics}
use fasthttpproxy.Pool.State.{PoolState}
use fasthttpproxy.Pool.Buffers.{Buffered}
use fasthttpproxy.Readers.PoolReader.{PoolReader}
use fasthttpproxy.Readers.TimedReader.{TimedReader}
use fasthttpproxy.Upstream.Address.{Url}
use fasthttpproxy.Upstream.Upstreams.{Upstreams}
use fasthttpproxy.Proxy.Fasthttp.{Fasthttp}

-- The client's request: its Host, and its body, streamed or at hand.
pub data Body (S : Type 0) : Type 0 where
  streamed : S → Body S
  fixed : List ℕ → Body S

pub record Request (S : Type 0) : Type 0 where
  pub host : Str
  pub body : Body S

-- What the calls of other packages give in the course of one request.
pub record Env (Header W : Type 0) : Type 0 where
  pub fasthttp_dial : Str → Result Conn
  pub parse : Str → Option Url  -- url.Parse
  pub intn : ℕ → ℕ  -- rand.Intn
  pub now : ℕ
  pub idle_close_error : Option Error  -- Close of a connection that was idle too long
  pub close_error : Option Error  -- Close of the request's connection
  pub got_writer : Option Buffered  -- from the sync.Pool of writers
  pub got_reader : Option Buffered  -- from the sync.Pool of readers
  pub header_write : Option Error  -- Header.Write
  pub flush : Option Error  -- Flush
  pub write : List ℕ → W → Option Error × W  -- the connection's Write, for the parts of a stream
  pub link : W
  pub body_write : List ℕ → ℕ × Option Error  -- the connection's Write, for a body at hand
  pub fuel : ℕ  -- a bound on the rounds of PipeCopy
  pub copy_buffer : ℕ  -- the length of the buffer of PipeCopy
  pub write_duration : ℕ
  pub response_header : Result Header  -- ResponseHeader.Read

module _ (F : Fasthttp) where
  open F use {
    Response, Header, error, set_status_code, copy_header, flush_header, stream, header_status,
    content_length, message,
  }

  -- The pools and the upstreams, and the handler's fields with the response of its context.
  pub record Handler : Type 0 where
    pub pool : PoolState
    pub upstreams : Upstreams
    pub response : Response
    pub upstream_address : Str
    pub body_stream : Option (PoolReader (TimedReader Buffered))

  -- ctx.Error
  abbrev pub fail : Str → ℕ → Handler → Handler
  fail m c h = record h { response = error m c h.response }

  abbrev pub count : (Metrics → Metrics) → Handler → Handler
  count f h = record h { pool = record (h.pool) { metrics = f h.pool.metrics } }
