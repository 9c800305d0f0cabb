-- ===== src/Proxy/Concurrent/Custody.antt =====
-- Each call of handle(), and each Read of an answer, keeps the custody of its goroutine's connection.
use fasthttpproxy.Common.{
  Bool-cases, Option, Option-cases, none, some, ◌≡◌, refl, sym, subst, inl, inr,
}
use fasthttpproxy.Common.Text.{Str}
use fasthttpproxy.Common.Result.{Result}
use fasthttpproxy.Common.Net.{Conn, Reader}
use fasthttpproxy.Pool.State.{PoolState}
use fasthttpproxy.Pool.Buffers.{Buffered}
use fasthttpproxy.Pool.Custody.{Custody, Ready}
use fasthttpproxy.Readers.PoolReader.{Call, new_pool_reader}
use fasthttpproxy.Readers.TimedReader.{TimedReader}
use fasthttpproxy.Readers.Owing.{Owes, read-Owes}
use fasthttpproxy.Proxy.Fasthttp.{Fasthttp}
use fasthttpproxy.Proxy.State.{Request, Body}
use fasthttpproxy.Proxy.Handler.{
  resolve_upstream, acquire_upstream_conn, write_request_headers, write_request_body,
  read_response_headers, stream_response_body,
}
use fasthttpproxy.Proxy.Keeps.{
  IfDone, write_headers-Keeps, write_request_body-Keeps, read_headers-Keeps, copy-Keeps,
  resolve_step,
}
use fasthttpproxy.Proxy.Custody.{Keeps-Taken, Acquired, acquire-Acquired}
use fasthttpproxy.Proxy.Concurrent.{
  Shared, Phase, resolving, acquiring, heading, sending, reading, copying, dropping, streaming,
  ended, Task, view, next_call, advance, read_phase, read_phase-both,
}

module _ (F : Fasthttp) {S : Type 0} (K : Custody) where
  open K use {Idle, Taken, dropped}

  -- The connection of a goroutine, by where it stands.
  abbrev pub Carries : Phase F S → Str → PoolState → Type 0
  Carries (resolving req) addr p = Idle p
  Carries (acquiring b) addr p = Idle p
  Carries (heading c b) addr p = Taken addr c p
  Carries (sending c b) addr p = Taken addr c p
  Carries (reading c) addr p = Taken addr c p
  Carries (copying c header reader) addr p = Taken addr c p
  Carries (dropping c) addr p = Taken addr c p
  Carries (streaming b) addr p = Owes K addr b.connection b p
  Carries ended addr p = Idle p

  -- What Acquire needs.
  abbrev pub Prepared : Phase F S → (Str → Result Conn) → PoolState → Type 0
  Prepared (acquiring b) fasthttp_dial p = Ready K fasthttp_dial p
  Prepared _ fasthttp_dial p = Unit

module _ (F : Fasthttp) {S W : Type 0} (K : Custody) where
  open K use {Idle, Taken, dropped}

  -- What a goroutine leaves, if its call has returned.
  abbrev pub IfCalled : Option (Shared × Task F S W) → Type 0
  IfCalled none = Unit
  IfCalled (some (m, t)) = Carries F K t.phase t.address m.pool

  module _ (src : Reader S) (m : Shared) (t : Task F S W) where
    resolving-Carries :
        (req : Request S)
        → Carries F K (resolving req) t.address m.pool
        → IfCalled (next_call F src (resolving req) m t)
    unfolding next_call
    resolving-Carries req v =
        let x = resolve_upstream F t.env.parse t.env.intn req.host (view F m t) in
        let v' : Idle x.0.pool = rw ((resolve_step F src t.env req.host (view F m t)).0) v in
        elim (Bool-cases x.1) [ inl found ↦ rw found v' | inr failed ↦ rw failed v' ]

    acquiring-Carries :
        (b : Body S)
        → Ready K t.env.fasthttp_dial m.pool
        → IfCalled (next_call F src (acquiring b) m t)
    unfolding next_call
    acquiring-Carries b ready =
        let x = acquire_upstream_conn F src t.env (view F m t) in
        let v = (acquire-Acquired F src t.env K (view F m t) refl ready).1 in
        let have : (o : Option Conn)
            → x.1 ≡ o
            → Acquired F src t.env K x.0.upstream_address o x.0.pool =
          λ o e. subst (λ y. Acquired F src t.env K x.0.upstream_address y x.0.pool) e v in
        elim (Option-cases x.1) [
          | inl refused ↦ rw refused (have none refused)
          | inr (c, got) ↦ rw got (have (some c) got)
        ]

    heading-Carries :
        (c : Conn) (b : Body S)
        → Taken t.address c m.pool
        → IfCalled (next_call F src (heading c b) m t)
    unfolding next_call
    heading-Carries c b v =
        let x = write_request_headers F src t.env c (view F m t) in
        let v' = Keeps-Taken F src t.env K c (write_headers-Keeps F src t.env c (view F m t)) v in
        elim (Bool-cases x.1) [ inl good ↦ rw good v' | inr failed ↦ rw failed v' ]

    sending-Carries :
        (c : Conn) (b : Body S)
        → Taken t.address c m.pool
        → IfCalled (next_call F src (sending c b) m t)
    unfolding next_call
    sending-Carries c b v = elim (Option-cases (write_request_body F src t.env b (view F m t))) [
      | inl stuck ↦ rw (stuck, next_call) tt
      | inr ((h, good), done) ↦
          let v' =
            Keeps-Taken F src t.env K c
              (subst (IfDone F src t.env (view F m t)) done
                (write_request_body-Keeps F src t.env b (view F m t)))
              v in
          rw (done, next_call)
            (elim (Bool-cases good) [ inl all ↦ rw all v' | inr failed ↦ rw failed v' ])
    ]

    reading-Carries :
        (c : Conn) → Taken t.address c m.pool → IfCalled (next_call F src (reading c) m t)
    unfolding next_call
    reading-Carries c v =
        let x = read_response_headers F src t.env c (view F m t) in
        let v' = Keeps-Taken F src t.env K c (read_headers-Keeps F src t.env c (view F m t)) v in
        elim (Option-cases x.1) [
          | inl failed ↦ rw failed v'
          | inr ((header, reader), got) ↦ rw got v'
        ]

    copying-Carries :
        (c : Conn) (header : F.Header) (reader : Buffered)
        → Taken t.address c m.pool
        → IfCalled (next_call F src (copying c header reader) m t)
    unfolding next_call stream_response_body new_pool_reader
    copying-Carries c header reader v = record {
      same_addr = refl;
      same_conn = refl;
      same_done = refl;
      held = Keeps-Taken F src t.env K c (copy-Keeps F src t.env header (view F m t)) v;
    }

    call-Carries :
        (p : Phase F S)
        → Prepared F K p t.env.fasthttp_dial m.pool
        → Carries F K p t.address m.pool
        → IfCalled (next_call F src p m t)
    unfolding next_call
    call-Carries (resolving req) ready v = resolving-Carries req v
    call-Carries (acquiring b) ready v = acquiring-Carries b ready
    call-Carries (heading c b) ready v = heading-Carries c b v
    call-Carries (sending c b) ready v = sending-Carries c b v
    call-Carries (reading c) ready v = reading-Carries c v
    call-Carries (copying c header reader) ready v = copying-Carries c header reader v
    call-Carries (dropping c) ready v = dropped t.env.close_error v
    call-Carries (streaming b) ready v = v
    call-Carries ended ready v = v

    pub advance-Carries :
        {m' : Shared} {t' : Task F S W}
        → Prepared F K t.phase t.env.fasthttp_dial m.pool
        → Carries F K t.phase t.address m.pool
        → advance F src m t ≡ some (m', t')
        → Carries F K t'.phase t'.address m'.pool
    unfolding advance
    advance-Carries ready v e = subst IfCalled e (call-Carries t.phase ready v)

  read_phase-Carries :
      (low : Reader (TimedReader Buffered)) (c : Call) (p : Phase F S) (m : Shared) (t : Task F S W)
      → t.phase ≡ p
      → Carries F K p t.address m.pool
      → let r = read_phase F low c p m t in Carries F K r.1.phase r.1.address r.0.pool
  read_phase-Carries low c p m t e v =
      read_phase-both F (λ r. Carries F K r.1.phase r.1.address r.0.pool) low c p m t
        (λ b streamed.
          let v' = subst (λ q. Carries F K q t.address m.pool) streamed v in
          let o = read-Owes K t.address b.connection low c b m.pool v' in
          record {
            same_addr = o.same_addr;
            same_conn = refl;
            same_done = o.same_done;
            held = rw o.same_conn o.held;
          })
        (subst (λ q. Carries F K q t.address m.pool) (sym e) v)

  pub reads-Carries :
      (low : Reader (TimedReader Buffered)) (c : Call) (m m' : Shared) (t t' : Task F S W)
      → Carries F K t.phase t.address m.pool
      → read_phase F low c t.phase m t ≡ (m', t')
      → Carries F K t'.phase t'.address m'.pool
  reads-Carries low c m m' t t' v e =
      subst (λ r. Carries F K r.1.phase r.1.address r.0.pool) e
        (read_phase-Carries low c t.phase m t refl v)
