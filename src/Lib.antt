-- ===== src/Lib.antt =====
-- A model of fasthttpproxy, an HTTP reverse proxy that streams requests to upstream servers over
-- pooled connections, and proofs about it.
--
-- The parts, and where they stand. `Config` is internal/config/config.go: the scheme prefixes, the
-- list of upstreams of the command line, and in `Config.Flags` the flags (ParseFlags). `Upstream`
-- is internal/upstream/upstream.go: the parsing of addresses (ParseAddress) and the list with its
-- random choice (NewUpstreams, Append, Random). `Pool` is internal/pool: `Pool.State` has the
-- package's variables as the record `PoolState`, `Pool.Settings` the setters, `Pool.Dial` dial.go,
-- `Pool.Upstream` the functions AcquireUpstreamConnection, ReleaseUpstreamConnection and
-- CloseAndDropUpstreamConnection with dialNew, each run as a whole, `Pool.Race` the same functions
-- by the steps in which goroutines interleave on the pool of one address, `Pool.Semaphore` what the
-- pool of an address promises its clients, `Pool.TestHelpers` pool_test_helpers.go, `Pool.Buffers`
-- the pools of bufio readers and writers, `Pool.PipeCopy` PipeCopy. `Readers` is internal/readers:
-- PoolReader and TimedReader, in `Readers.Observed` the one over the other, in `Readers.Reused`
-- what comes of a connection on which an answer broke off, and in `Readers.Content` what a client
-- reads through them. `Metrics` is internal/metrics/metrics.go. `Proxy.State` and `Proxy.Handler`
-- are internal/proxy/handler.go: a request resolves its upstream, acquires a connection, writes
-- headers and body, reads the response's header and hands the body to the client as a PoolReader,
-- which gives the connection back. `Proxy.Outcome` is a specification of what a request comes to,
-- with the counters that it raises (`Pool.Accounting.Shift`), `Proxy.Steps` the part of each method
-- in it, `Proxy.Verdict` that of handle(), and `Proxy.Overwritten` what comes of a Host that does
-- not parse. `Proxy.Served` is a request with the client's reads of its answer, `Proxy.Service`
-- many requests one after the other, which share the pools and the upstreams, with the reads of
-- their answers in any order, and in `Proxy.Service.Starved`, `Proxy.Service.Emptied` and
-- `Proxy.Service.Lifetime` what becomes of it when answers keep their connections,
-- `Proxy.Concurrent` requests in goroutines that interleave. `Start` is cmd/proxy/main.go: main,
-- run, runWith, serveMetrics and constructTLSConfig, over `Config.Values`, the record of the flags,
-- and `Upstream.Tls`, NewTLSConfig. `Common` has what all parts use, `Examples` the tests and the
-- instances of the theorems.
--
-- How the code is modelled. A function of the source is a function of the same name that takes the
-- state it changes and returns the new one; a method's receiver is a record. `closed` in
-- `PoolState` records the connections on which Close was called. Texts are lists of code points. An
-- int, an int64 of a body's length, and a duration in nanoseconds are integers (`ℤ`); the counters
-- of type int32 and int64 wrap as in Go (`int32`, `int64`). Times are numbers of nanoseconds that
-- the environment gives.
--
-- Goroutines. What interleaves is modelled at two grains. In `Pool.Race` a step is one access to
-- the count or to the list of the pool of one address, and the calls of `Pool.Upstream` are runs of
-- these steps; in `Proxy.Race` it is one read or write of the map or of the slice of the list of
-- upstreams, in resolveUpstream with Random and Append, where Random has three of them: the test
-- for an empty slice, its length for rand.Intn, and the index, which may be out of range by then
-- (`panicked`). Each read or write is taken as atomic: that Go stops a program which writes a map
-- twice at the same time is not modelled. In `Proxy.Concurrent` a goroutine handles a request, a
-- step is one call that handle() makes (the last two, copyResponseStatus and streamResponseBody,
-- are one step) or one Read of an answer, and each call runs as a whole, acquireUpstreamConn with
-- its dial and resolveUpstream with its reads of the list among them: what comes of other
-- goroutines in the midst of these two is in `Pool.Race`, where the limit can be overrun, and in
-- `Proxy.Race`; a goroutine has its own fields of `handler` (`Task`) and all share the pools and
-- the upstreams (`Shared`). A run is a relation (`Runs`); `turns` of `Proxy.Concurrent.Progress`
-- makes one of the turns that a scheduler picks. `Proxy.Concurrent.Alone` has the calls of one
-- request in their order.
--
-- The proofs on requests and on readers share one interface, `Pool.Custody`: what is known of the
-- pools while a client has a connection and while it has none, with the laws of the calls that lead
-- from one to the other. `Pool.Leasing` fills it with the number of connections that are leased at
-- each address, `Pool.Placing` with the place of each connection, idle, taken or closed.
--
-- What other packages do is an argument. url.Parse, rand.Intn, fasthttp.Dial, the errors of Close,
-- Write and Flush, and what a sync.Pool returns are fields of `Env` or arguments of their
-- functions. The files and certificates read at the start are `Files`. What package flag makes of
-- the command line is a `FlagSet`: the error of Parse, and the value of a flag defined with a name
-- and a default. Package fasthttp is the interface `Fasthttp`, and `StatusLaws` states the
-- documented effect of its calls on the status code. An io.Reader is a `Reader`, whose law is that
-- it gives no more bytes than the buffer holds.
--
-- Bounds and fuel. The loop of PipeCopy takes fuel; it is enough to have as much as the source has
-- chunks, the one with the error included, and then PipeCopy returns. `handle` is `none` only where
-- PipeCopy has not returned within the fuel of the environment; `Ends` of Proxy/Termination.antt is
-- the condition on the request's body under which it is enough. All other loops recur on a list.
--
-- Not modelled: the log, but for what serveMetrics writes; the registration of the metrics; what
-- package fasthttp does to listen, which is an argument of `Start.Exit`. There the goroutine of
-- serveMetrics is what it may log; whether it gets to do so before the program ends is left open.
-- Of TimedReader the durations are left out where it stands under the PoolReader of a request
-- (`timed`), since nothing depends on them; `Readers.Observed` has them. cmd/http is an empty
-- program.
pub mod Common
pub mod Metrics
pub mod Config
pub mod Pool
pub mod Readers
pub mod Upstream
pub mod Proxy
pub mod Examples
pub mod Start
