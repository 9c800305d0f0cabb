-- ===== src/Proxy/Concurrent.antt =====
-- Requests that are handled at the same time: goroutines that share the pools and the upstreams. A
-- step is one call of handle(), run as a whole, or one Read of an answer; between two steps of a
-- goroutine the others may make any of theirs. acquireUpstreamConn is one step, dial included; its parts
-- interleave in Pool.Race.
pub mod Custody
pub mod Answers
pub mod Places
pub mod Alone
pub mod Calls
pub mod Progress
pub mod Choice
use fasthttpproxy.Common.{
  ℕ, ◌<◌, Bool, true, false, if◌then◌else◌, Option, none, some, [], ◌≡◌, refl,
}
use fasthttpproxy.Common.Threads.{assign}
use fasthttpproxy.Common.Text.{Str}
use fasthttpproxy.Common.Net.{Conn, Reader}
use fasthttpproxy.Pool.State.{PoolState}
use fasthttpproxy.Pool.Buffers.{Buffered}
use fasthttpproxy.Readers.PoolReader.{PoolReader, Call, read}
use fasthttpproxy.Readers.TimedReader.{TimedReader, timed}
use fasthttpproxy.Upstream.Upstreams.{Upstreams}
use fasthttpproxy.Proxy.Fasthttp.{Fasthttp}
use fasthttpproxy.Proxy.State.{Handler, Request, Body, Env}
use fasthttpproxy.Proxy.Handler.{
  resolve_upstream, acquire_upstream_conn, write_request_headers, write_request_body,
  read_response_headers, copy_response_status, stream_response_body, drop_conn,
}

abbrev pub Stream : Type 0
Stream = PoolReader (TimedReader Buffered)

-- The package's variables.
pub record Shared : Type 0 where
  pub pool : PoolState
  pub upstreams : Upstreams

module _ (F : Fasthttp) (S : Type 0) where
  open F use {Header, Response}

  -- The call of handle() that is next, with the fields of the handler that the later calls read.
  pub data Phase : Type 0 where
    resolving : Request S → Phase
    acquiring : Body S → Phase
    heading : Conn → Body S → Phase
    sending : Conn → Body S → Phase
    reading : Conn → Phase
    copying : Conn → Header → Buffered → Phase
    dropping : Conn → Phase
    streaming : Stream → Phase
    ended : Phase

  -- A goroutine, with what the calls of other packages give to it.
  pub record Task (W : Type 0) : Type 0 where
    pub env : Env Header W
    pub response : Response
    pub address : Str
    pub phase : Phase

-- What SetBodyStream was given.
abbrev pub stream_phase : (F : Fasthttp) {S : Type 0} → Option Stream → Phase F S
stream_phase F none = ended
stream_phase F (some b) = streaming b

-- After acquireUpstreamConn, and after readResponseHeaders.
abbrev pub heading_if : (F : Fasthttp) {S : Type 0} → Body S → Option Conn → Phase F S
heading_if F b none = ended
heading_if F b (some c) = heading c b

abbrev pub copying_if :
    (F : Fasthttp) {S : Type 0} → Conn → Option (F.Header × Buffered) → Phase F S
copying_if F c none = dropping c
copying_if F c (some (header, reader)) = copying c header reader

module _ (F : Fasthttp) {S W : Type 0} where
  -- The handler of a goroutine, and what it leaves.
  abbrev pub view : Shared → Task F S W → Handler F
  view m t = record {
    pool = m.pool;
    upstreams = m.upstreams;
    response = t.response;
    upstream_address = t.address;
    body_stream = none;
  }

  abbrev pub kept : Task F S W → Handler F → Phase F S → Shared × Task F S W
  kept t h p = (
    record { pool = h.pool; upstreams = h.upstreams },
    record t { response = h.response; address = h.upstream_address; phase = p },
  )

  module _ (src : Reader S) where
    -- The next call of handle(); `none` where PipeCopy has not returned within the fuel. An answer that
    -- is streamed waits for its client.
    unfoldable pub next_call : Phase F S → Shared → Task F S W → Option (Shared × Task F S W)
    next_call (resolving req) m t =
        let (h, found) = resolve_upstream F t.env.parse t.env.intn req.host (view m t) in
        some (kept t h (if found then acquiring req.body else ended))
    next_call (acquiring b) m t =
        let (h, r) = acquire_upstream_conn F src t.env (view m t) in
        some (kept t h (heading_if F b r))
    next_call (heading c b) m t =
        let (h, good) = write_request_headers F src t.env c (view m t) in
        some (kept t h (if good then sending c b else dropping c))
    next_call (sending c b) m t = elim (write_request_body F src t.env b (view m t)) [
      | none ↦ none
      | some (h, good) ↦ some (kept t h (if good then reading c else dropping c))
    ]
    next_call (reading c) m t =
        let (h, r) = read_response_headers F src t.env c (view m t) in
        some (kept t h (copying_if F c r))
    next_call (copying c header reader) m t =
        let h =
          stream_response_body F src t.env c header reader
            (copy_response_status F src t.env header (view m t)) in
        some (kept t h (stream_phase F h.body_stream))
    next_call (dropping c) m t = some (kept t (drop_conn F src t.env c (view m t)) ended)
    next_call (streaming b) m t = some (m, record t { phase = streaming b })
    next_call ended m t = some (m, record t { phase = ended })

    unfoldable pub advance : Shared → Task F S W → Option (Shared × Task F S W)
    unfolding next_call
    advance m t = next_call t.phase m t

  abbrev pub read_stream :
      Reader (TimedReader Buffered) → Call → Stream → Shared → Task F S W → Shared × Task F S W
  read_stream low c b m t =
      let (bytes, b', p) = read low c b m.pool in
      (record m { pool = p }, record t { phase = streaming b' })

  -- A Read of the answer, if it is streamed.
  abbrev pub read_phase :
      Reader (TimedReader Buffered) → Call → Phase F S → Shared → Task F S W → Shared × Task F S W
  read_phase low c (streaming b) m t = read_stream low c b m t
  read_phase low c _ m t = (m, t)

  -- What holds after a Read of an answer that is streamed, and where none is, holds after it.
  pub read_phase-both {ℓ} :
      (P : Shared × Task F S W → Type ℓ) (low : Reader (TimedReader Buffered)) (c : Call)
      (p : Phase F S) (m : Shared) (t : Task F S W)
      → ((b : Stream) → p ≡ streaming b → P (read_stream low c b m t))
      → P (m, t)
      → P (read_phase low c p m t)
  read_phase-both P low c (streaming b) m t read_it as_is = read_it b refl
  read_phase-both P low c (resolving req) m t read_it as_is = as_is
  read_phase-both P low c (acquiring b) m t read_it as_is = as_is
  read_phase-both P low c (heading d b) m t read_it as_is = as_is
  read_phase-both P low c (sending d b) m t read_it as_is = as_is
  read_phase-both P low c (reading d) m t read_it as_is = as_is
  read_phase-both P low c (copying d header reader) m t read_it as_is = as_is
  read_phase-both P low c (dropping d) m t read_it as_is = as_is
  read_phase-both P low c ended m t read_it as_is = as_is

pub record System (F : Fasthttp) (S W : Type 0) : Type 0 where
  pub shared : Shared
  pub task : ℕ → Task F S W

-- One of the goroutines 0, …, n - 1 makes its next call, or its client reads. `May` is what is known
-- of the call.
pub data Step (F : Fasthttp) {S W : Type 0} (src : Reader S) (May : System F S W → ℕ → Type 0)
    (n : ℕ) (s : System F S W) : System F S W → Type 0 where
  calls :
      (i : ℕ) {m : Shared} {t : Task F S W}
      → i < n
      → May s i
      → advance F src s.shared (s.task i) ≡ some (m, t)
      → Step F src May n s (record { shared = m; task = assign s.task i t })
  reads :
      (i : ℕ) (low : Reader Buffered) (now : ℕ) (c : Call) {m : Shared} {t : Task F S W}
      → i < n
      → read_phase F (timed low now) c (s.task i).phase s.shared (s.task i) ≡ (m, t)
      → Step F src May n s (record { shared = m; task = assign s.task i t })

pub data Runs (F : Fasthttp) {S W : Type 0} (src : Reader S) (May : System F S W → ℕ → Type 0)
    (n : ℕ) (s : System F S W) : System F S W → Type 0 where
  start : Runs F src May n s s
  next : {t u : System F S W} → Runs F src May n s t → Step F src May n t u → Runs F src May n s u
