-- ===== src/Proxy.antt =====
-- internal/proxy/handler.go: one request, from the choice of the upstream to the set-up of the
-- streamed answer. `Fasthttp` is what the code uses of package fasthttp, `Handler` the handler,
-- `Service` requests one after the other, `Concurrent` requests at the same time.
pub mod Fasthttp
pub mod State
pub mod Handler
pub mod Resolve
pub mod Keeps
pub mod Custody
pub mod Termination
pub mod Lease
pub mod Answer
pub mod Outcome
pub mod Steps
pub mod Verdict
pub mod Overwritten
pub mod Status
pub mod Served
pub mod Service
pub mod Race
pub mod Concurrent
