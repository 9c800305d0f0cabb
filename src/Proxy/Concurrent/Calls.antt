-- ===== src/Proxy/Concurrent/Calls.antt =====
-- How many calls a request has left: each returns, and there is one fewer after it.
use fasthttpproxy.Common.{
  ℕ, ◌-◌, ◌≤◌, Bool-cases, Option-cases, Option, some, ◌≡◌, refl, sym, subst, if◌then◌else◌, inl,
  inr, arith,
}
use fasthttpproxy.Common.Net.{Reader}
use fasthttpproxy.Pool.Buffers.{Buffered}
use fasthttpproxy.Readers.PoolReader.{Call}
use fasthttpproxy.Readers.TimedReader.{timed}
use fasthttpproxy.Proxy.Fasthttp.{Fasthttp}
use fasthttpproxy.Proxy.State.{Env}
use fasthttpproxy.Proxy.Handler.{
  resolve_upstream, acquire_upstream_conn, write_request_headers, read_response_headers,
  stream_response_body,
}
use fasthttpproxy.Proxy.Termination.{Ends, write_request_body-Returns}
use fasthttpproxy.Proxy.Concurrent.{
  Shared, Phase, resolving, acquiring, heading, sending, reading, copying, dropping, streaming,
  ended, Task, view, kept, next_call, read_phase, read_phase-both,
}

-- The calls that are left at most.
abbrev pub calls_left : (F : Fasthttp) {S : Type 0} → Phase F S → ℕ
calls_left F (resolving req) = 6
calls_left F (acquiring b) = 5
calls_left F (heading c b) = 4
calls_left F (sending c b) = 3
calls_left F (reading c) = 2
calls_left F (copying c header reader) = 1
calls_left F (dropping c) = 1
calls_left F (streaming b) = 0
calls_left F ended = 0

-- The request is answered or refused, and its answer, if streamed, is the client's to read.
abbrev pub IsHandled : (F : Fasthttp) {S : Type 0} → Phase F S → Type 0
IsHandled F (streaming b) = Unit
IsHandled F ended = Unit
IsHandled F _ = ⊥

pub six : (F : Fasthttp) {S : Type 0} (p : Phase F S) → calls_left F p ≤ 6
six F (resolving req) = omega arith
six F (acquiring b) = omega arith
six F (heading c b) = omega arith
six F (sending c b) = omega arith
six F (reading c) = omega arith
six F (copying c header reader) = omega arith
six F (dropping c) = omega arith
six F (streaming b) = omega arith
six F ended = omega arith

pub none_left : (F : Fasthttp) {S : Type 0} (p : Phase F S) → calls_left F p ≤ 0 → IsHandled F p
none_left F (resolving req) h = omega arith
none_left F (acquiring b) h = omega arith
none_left F (heading c b) h = omega arith
none_left F (sending c b) h = omega arith
none_left F (reading c) h = omega arith
none_left F (copying c header reader) h = omega arith
none_left F (dropping c) h = omega arith
none_left F (streaming b) h = tt
none_left F ended h = tt

module _ (F : Fasthttp) {S W : Type 0} (src : Reader S) where
  -- The body that is still to be sent is at hand, or its stream ends within the fuel.
  abbrev pub BodyEnds : Phase F S → Env F.Header W → Type 0
  BodyEnds (resolving req) env = Ends F src env req.body
  BodyEnds (acquiring b) env = Ends F src env b
  BodyEnds (heading c b) env = Ends F src env b
  BodyEnds (sending c b) env = Ends F src env b
  BodyEnds _ env = Unit

  -- A call that returns, and after which at most so many are left.
  abbrev pub Goes : ℕ → Option (Shared × Task F S W) → Type 0
  Goes k o =
      (x : Shared × Task F S W) × (o ≡ some x)
      × (calls_left F x.1.phase ≤ k)
      × BodyEnds x.1.phase x.1.env

  module _ (m : Shared) (t : Task F S W) where
    pub next_call-Goes :
        (p : Phase F S) → BodyEnds p t.env → Goes (calls_left F p - 1) (next_call F src p m t)
    unfolding next_call stream_response_body
    next_call-Goes (resolving req) fine =
        let x = resolve_upstream F t.env.parse t.env.intn req.host (view F m t) in
        elim (Bool-cases x.1) [
          | inl found ↦ (_, refl, rw found (omega arith), rw found fine)
          | inr failed ↦ (_, refl, rw failed (omega arith), rw failed tt)
        ]
    next_call-Goes (acquiring b) fine =
        let x = acquire_upstream_conn F src t.env (view F m t) in
        elim (Option-cases x.1) [
          | inl refused ↦ (_, refl, rw refused (omega arith), rw refused tt)
          | inr (c, got) ↦ (_, refl, rw got (omega arith), rw got fine)
        ]
    next_call-Goes (heading c b) fine =
        let x = write_request_headers F src t.env c (view F m t) in
        elim (Bool-cases x.1) [
          | inl sent ↦ (_, refl, rw sent (omega arith), rw sent fine)
          | inr failed ↦ (_, refl, rw failed (omega arith), rw failed tt)
        ]
    next_call-Goes (sending c b) fine =
        let ((h, written), done) = write_request_body-Returns F src t.env b (view F m t) fine in
        let next = kept F t h (if written then reading c else dropping c) in
        elim (Bool-cases written) [
          | inl all ↦ (next, rw (done, next_call) refl, rw all (omega arith), rw all tt)
          | inr failed ↦ (next, rw (done, next_call) refl, rw failed (omega arith), rw failed tt)
        ]
    next_call-Goes (reading c) fine =
        let x = read_response_headers F src t.env c (view F m t) in
        elim (Option-cases x.1) [
          | inl failed ↦ (_, refl, rw failed (omega arith), rw failed tt)
          | inr (y, got) ↦ (_, refl, rw got (omega arith), rw got tt)
        ]
    next_call-Goes (copying c header reader) fine = (_, refl, omega arith, tt)
    next_call-Goes (dropping c) fine = (_, refl, omega arith, tt)
    next_call-Goes (streaming b) fine = (_, refl, omega arith, tt)
    next_call-Goes ended fine = (_, refl, omega arith, tt)

  pub read_phase-stays :
      (low : Reader Buffered) (now : ℕ) (c : Call) (p : Phase F S) (m : Shared) (t : Task F S W)
      → t.phase ≡ p
      → BodyEnds p t.env
      → let u = (read_phase F (timed low now) c p m t).1 in
        (calls_left F u.phase ≤ calls_left F p) × BodyEnds u.phase u.env
  read_phase-stays low now c p m t at fine =
      read_phase-both F
        (λ x. (calls_left F x.1.phase ≤ calls_left F p) × BodyEnds x.1.phase x.1.env)
        (timed low now) c p m t (λ b streamed. (omega arith, tt))
        (subst (λ q. (calls_left F q ≤ calls_left F p) × BodyEnds q t.env) (sym at)
          (omega arith, fine))
