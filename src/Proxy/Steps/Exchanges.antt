-- ===== src/Proxy/Steps/Exchanges.antt =====
-- From the connection on: what a request comes to once the pool has given its connection.
use fasthttpproxy.Common.{
  ℕ, Option, Option-cases, none, some, List, [], ◌++◌, ◌≡◌, refl, ◌∙◌, subst, inl, inr,
}
use fasthttpproxy.Common.Text.{Str}
use fasthttpproxy.Common.Net.{Conn, Reader}
use fasthttpproxy.Pool.Buffers.{Use, Buffered}
use fasthttpproxy.Pool.Accounting.Shift.{Shift, Shift-next, Shift-Unmoved, close_and_drop-Unmoved}
use fasthttpproxy.Proxy.Fasthttp.{Fasthttp, StatusLaws}
use fasthttpproxy.Proxy.State.{Handler, Body, streamed, fixed, Env}
use fasthttpproxy.Proxy.Handler.{
  write_request_headers, write_request_body, read_response_headers, copy_response_status,
  stream_response_body, drop_conn, after_body, after_headers, after_acquire,
}
use fasthttpproxy.Proxy.Outcome.{
  writing, asking, Ended, Streams, Sent, Delivered, Exchange, not_sent, not_copied, not_written,
  not_read, bad_answer, answered,
}
use fasthttpproxy.Proxy.Keeps.{
  IfDone, write_headers-Keeps, write_request_body-Keeps, read_headers-Keeps, copy-Keeps,
}
use fasthttpproxy.Proxy.Steps.{Failed, headers-Step}
use fasthttpproxy.Proxy.Steps.Upload.{BodyFails, BodyStep, body-Step}
use fasthttpproxy.Proxy.Steps.Reply.{read-Step, copy-Step, stream-status}

module _ (F : Fasthttp) (laws : StatusLaws F) where
  open F use {Header, status_code, header_status}

  module _ {S W : Type 0} (src : Reader S) (env : Env Header W) where
    -- A request on its way: with these calls made and no error, at this address.
    pub record OnWay (us : List Use) (addr : Str) (h g : Handler F) : Type 0 where
      pub so_far : Shift 0 us h.pool g.pool
      pub unstreamed : g.body_stream ≡ h.body_stream
      pub same_address : g.upstream_address ≡ addr

    -- What it came to, at this address.
    abbrev pub Exchanged : Str → Conn → Body S → Handler F → Handler F → Type 0
    Exchanged addr c b h h' = (h'.upstream_address ≡ addr) × Exchange F src env c b h h'

    dropped :
        {k : ℕ} {us vs : List Use} {addr : Str} (c : Conn) {h g g' : Handler F}
        → OnWay us addr h g
        → g'.body_stream ≡ g.body_stream
        → Failed F laws k vs g g'
        → Ended F 502 k (us ++ vs) h (drop_conn F src env c g')
    dropped c {g' = g'} w still f = record {
      answer = f.gateway;
      shift =
          Shift-Unmoved (Shift-next w.so_far f.shift)
            (close_and_drop-Unmoved env.close_error g'.upstream_address c g'.pool);
      same_stream = still ∙ w.unstreamed;
    }

    streaming :
        {status k : ℕ} (c : Conn) (header : Header) (r : Buffered) (h g : Handler F)
        → status_code g.response ≡ status
        → Shift k (asking F src env c) h.pool g.pool
        → Streams F src env status k c header h (stream_response_body F src env c header r g)
    unfolding stream_response_body
    streaming c header r h g e a = record {
      reader = r;
      answer = stream-status F laws src env c header r g ∙ e;
      shift = record { failed = a.failed; used = a.used };
      stream = refl;
    }

    after_body-Exchange :
        (addr : Str) (b : Body S) (c : Conn) (h g : Handler F)
        → OnWay (writing F src env c) addr h g
        → Sent F src env
        → Delivered F src env b
        → Exchanged addr c b h (after_body F src env c g)
    unfolding after_body stream_response_body
    after_body-Exchange addr b c h g w sent whole =
        let x = read_response_headers F src env c g in
        let same = read_headers-Keeps F src env c g in
        elim (read-Step F laws src env c g) [
          | inr (e, failed, got, f) ↦
              rw (got, after_body)
                (
                  same.address ∙ w.same_address,
                  not_read e sent whole failed (dropped c w same.stream f),
                )
          | inl (header, r, read, got, a) ↦
              let y = copy_response_status F src env header x.0 in
              let at : y.upstream_address ≡ addr =
                (copy-Keeps F src env header x.0).address ∙ same.address ∙ w.same_address in
              let b = Shift-next w.so_far a in
              rw (got, after_body)
                (
                  at,
                  elim (copy-Step F laws src env header x.0) [
                    | inl (bad, f) ↦
                        bad_answer header sent whole read bad
                          (streaming c header r h y f.gateway (Shift-next b f.shift))
                    | inr (fine, e, v) ↦
                        answered header sent whole read fine
                          (streaming c header r h y e (Shift-Unmoved b v))
                  ],
                )
        ]

    -- What is said of a request that may not have ended.
    abbrev pub IfExchanged : Str → Conn → Body S → Handler F → Option (Handler F) → Type 0
    IfExchanged addr c b h none = Unit
    IfExchanged addr c b h (some h') = Exchanged addr c b h h'

    undelivered :
        (addr : Str) (b : Body S) (c : Conn) {h g : Handler F} (g' : Handler F)
        → OnWay (writing F src env c) addr h g
        → Sent F src env
        → g'.body_stream ≡ g.body_stream
        → BodyFails F laws src env b g g'
        → Exchange F src env c b h (drop_conn F src env c g')
    unfolding BodyFails
    undelivered addr (streamed s) c g' w sent same (why, f) =
        not_copied s refl sent why (dropped c w same f)
    undelivered addr (fixed body) c g' w sent same (why, f) =
        not_written body refl sent why (dropped c w same f)

    after_headers-Exchange :
        (addr : Str) (b : Body S) (c : Conn) (h g : Handler F)
        → OnWay (writing F src env c) addr h g
        → Sent F src env
        → IfExchanged addr c b h (after_headers F src env c b g)
    unfolding after_headers BodyStep
    after_headers-Exchange addr b c h g w sent =
        elim (Option-cases (write_request_body F src env b g)) [
          | inl stuck ↦ rw (stuck, after_headers) tt
          | inr ((g', written), done) ↦
              let same = subst (IfDone F src env g) done (write_request_body-Keeps F src env b g) in
              rw (done, after_headers)
                (elim (body-Step F laws src env b g done) [
                  | inl (all, whole, v) ↦ rw all (
                      after_body-Exchange addr b c h g'
                        (record {
                          so_far = Shift-Unmoved w.so_far v;
                          unstreamed = same.stream ∙ w.unstreamed;
                          same_address = same.address ∙ w.same_address;
                        })
                        sent whole)
                  | inr (failed, f) ↦
                      rw failed (
                        same.address ∙ w.same_address,
                        undelivered addr b c g' w sent same.stream f,
                      )
                ])
        ]

    pub after_acquire-Exchange :
        (addr : Str) (b : Body S) (c : Conn) (h g : Handler F)
        → OnWay [] addr h g
        → IfExchanged addr c b h (after_acquire F src env c b g)
    unfolding after_acquire
    after_acquire-Exchange addr b c h g w =
        let x = write_request_headers F src env c g in
        let same = write_headers-Keeps F src env c g in
        elim (headers-Step F laws src env c g) [
          | inl (went, sent, a) ↦ rw went (
              after_headers-Exchange addr b c h x.0
                (record {
                  so_far = Shift-next w.so_far a;
                  unstreamed = same.stream ∙ w.unstreamed;
                  same_address = same.address ∙ w.same_address;
                })
                sent)
          | inr (failed, e, why, f) ↦
              rw failed (same.address ∙ w.same_address, not_sent e why (dropped c w same.stream f))
        ]
