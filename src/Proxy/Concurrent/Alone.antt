-- ===== src/Proxy/Concurrent/Alone.antt =====
-- A request whose calls no other goroutine interrupts.
use fasthttpproxy.Common.{
  ℕ, zero, suc, Bool-cases, Option, Option-cases, none, some, ◌≡◌, refl, sym, ap, ◌∙◌, subst,
  if◌then◌else◌, inl, inr,
}
use fasthttpproxy.Common.Net.{Conn, Reader}
use fasthttpproxy.Pool.Buffers.{Buffered}
use fasthttpproxy.Proxy.Fasthttp.{Fasthttp}
use fasthttpproxy.Proxy.State.{Handler, Request, Body, Env}
use fasthttpproxy.Proxy.Handler.{
  resolve_upstream, acquire_upstream_conn, write_request_headers, write_request_body,
  read_response_headers, copy_response_status, stream_response_body, drop_conn, after_body,
  after_headers, after_acquire, after_resolve, handle,
}
use fasthttpproxy.Proxy.Keeps.{
  IfDone, write_headers-Keeps, write_request_body-Keeps, read_headers-Keeps, resolve_step,
}
use fasthttpproxy.Proxy.Answer.{acquire-idle}
use fasthttpproxy.Proxy.Concurrent.{
  Stream, Shared, Phase, resolving, acquiring, heading, sending, reading, copying, dropping, ended,
  Task, view, kept, stream_phase, heading_if, copying_if, next_call, advance,
}

module _ (F : Fasthttp) {S : Type 0} (W : Type 0) (src : Reader S) where
  -- So many calls of one goroutine.
  unfoldable pub advance_times : ℕ → Shared × Task F S W → Option (Shared × Task F S W)
  unfolding advance
  advance_times zero x = some x
  advance_times (suc k) (m, t) = elim (advance F src m t) [
    | none ↦ none
    | some x ↦ advance_times k x
  ]

  -- What handle() leaves.
  abbrev pub left : Task F S W → Option (Handler F) → Option (Shared × Task F S W)
  left t none = none
  left t (some h) = some (kept F t h (stream_phase F h.body_stream))

  -- A goroutine that stands at a call.
  abbrev pub standing : Shared → Task F S W → Phase F S → Shared × Task F S W
  standing m t p = (m, record t { phase = p })

  -- Between two calls the handler is what they have left.
  left-view :
      (t : Task F S W) (f : Handler F → Option (Handler F)) (h : Handler F)
      → h.body_stream ≡ none
      → left t (
          f (
            view F
              (record { pool = h.pool; upstreams = h.upstreams })
              (record t { response = h.response; address = h.upstream_address })))
        ≡ left t (f h)
  left-view t f h idle = ap (λ o. left t (f (record h { body_stream = o }))) (sym idle)

  stays_ended :
      (k : ℕ) (m : Shared) (t : Task F S W)
      → advance_times k (standing m t ended) ≡ some (standing m t ended)
  unfolding advance_times
  stays_ended zero m t = refl
  stays_ended (suc k) m t = stays_ended k m t

  stays_put :
      (k : ℕ) (m : Shared) (t : Task F S W) (o : Option Stream)
      → advance_times k (standing m t (stream_phase F o)) ≡ some (standing m t (stream_phase F o))
  unfolding advance_times
  stays_put k m t none = stays_ended k m t
  stays_put zero m t (some b) = refl
  stays_put (suc k) m t (some b) = stays_put k m t (some b)

  first_call :
      (k : ℕ) (m : Shared) (t : Task F S W) (p : Phase F S) (x : Shared × Task F S W)
      → next_call F src p m (record t { phase = p }) ≡ some x
      → advance_times (suc k) (standing m t p) ≡ advance_times k x
  unfolding advance_times advance
  first_call k m t p x e = rw (e, advance_times) refl

  -- The rest of handle(), from each call on.
  abbrev Rest : Type 0
  Rest = Env F.Header W → Handler F → Option (Handler F)

  abbrev rest_dropping : Conn → Rest
  rest_dropping c env h = some (drop_conn F src env c h)

  abbrev rest_copying : Conn → F.Header → Buffered → Rest
  rest_copying c header reader env h =
      some
        (stream_response_body F src env c header reader (copy_response_status F src env header h))

  abbrev rest_reading : Conn → Rest
  rest_reading c env h = some (after_body F src env c h)

  abbrev rest_sending : Conn → Body S → Rest
  rest_sending c b env h = after_headers F src env c b h

  abbrev rest_heading : Conn → Body S → Rest
  rest_heading c b env h = after_acquire F src env c b h

  abbrev rest_acquiring : Body S → Rest
  rest_acquiring b env h = after_resolve F src env b h

  -- The calls of a goroutine that stands at `p` are those of `f` on its handler.
  abbrev Does : ℕ → Rest → Phase F S → Type 0
  Does k f p =
      (m : Shared) (t : Task F S W)
      → advance_times k (standing m t p) ≡ left t (f t.env (view F m t))

  -- The same of the handler that a call has left.
  after_call :
      (k : ℕ) (f : Rest) (p : Phase F S)
      → Does k f p
      → (t : Task F S W) (h : Handler F) → h.body_stream ≡ none
      → advance_times k (kept F t h p) ≡ left t (f t.env h)
  after_call k f p does t h idle =
      does (kept F t h ended).0 (kept F t h ended).1 ∙ left-view t (f t.env) h idle

  ended-Does : (k : ℕ) → Does k (λ env h. some h) ended
  ended-Does k m t = stays_ended k m t

  dropping-Does : (k : ℕ) (c : Conn) → Does (suc k) (rest_dropping c) (dropping c)
  unfolding next_call
  dropping-Does k c m t =
      let x = kept F t (drop_conn F src t.env c (view F m t)) ended in
      first_call k m t (dropping c) x refl ∙ stays_ended k x.0 x.1

  copying-Does :
      (k : ℕ) (c : Conn) (header : F.Header) (reader : Buffered)
      → Does (suc k) (rest_copying c header reader) (copying c header reader)
  unfolding next_call
  copying-Does k c header reader m t =
      let h =
        stream_response_body F src t.env c header reader
          (copy_response_status F src t.env header (view F m t)) in
      let x = kept F t h (stream_phase F h.body_stream) in
      first_call k m t (copying c header reader) x refl ∙ stays_put k x.0 x.1 h.body_stream

  reading-Does : (k : ℕ) (c : Conn) → Does (suc (suc k)) (rest_reading c) (reading c)
  unfolding next_call after_body
  reading-Does k c m t =
      let x = read_response_headers F src t.env c (view F m t) in
      let idle : x.0.body_stream ≡ none = (read_headers-Keeps F src t.env c (view F m t)).stream in
      first_call (suc k) m t (reading c) (kept F t x.0 (copying_if F c x.1)) refl
      ∙ elim (Option-cases x.1) [
        | inl failed ↦
            rw (failed, after_body)
              (after_call (suc k) (rest_dropping c) (dropping c) (dropping-Does k c) t x.0 idle)
        | inr ((header, reader), got) ↦
            rw (got, after_body)
              (after_call (suc k) (rest_copying c header reader) (copying c header reader)
                (copying-Does k c header reader) t x.0 idle)
      ]

  sending-Does :
      (k : ℕ) (c : Conn) (b : Body S) → Does (suc (suc (suc k))) (rest_sending c b) (sending c b)
  unfolding next_call after_headers advance_times advance
  sending-Does k c b m t = elim (Option-cases (write_request_body F src t.env b (view F m t))) [
    | inl stuck ↦ rw (stuck, advance_times, after_headers) refl
    | inr ((h, good), done) ↦
        let idle : h.body_stream ≡ none =
          (subst (IfDone F src t.env (view F m t)) done
            (write_request_body-Keeps F src t.env b (view F m t))).stream in
        first_call (suc (suc k)) m t (sending c b)
          (kept F t h (if good then reading c else dropping c)) (rw (done, next_call) refl)
        ∙ elim (Bool-cases good) [
          | inl all ↦
              rw (done, all, after_headers)
                (after_call (suc (suc k)) (rest_reading c) (reading c) (reading-Does k c) t h idle)
          | inr failed ↦
              rw (done, failed, after_headers)
                (after_call (suc (suc k)) (rest_dropping c) (dropping c) (dropping-Does (suc k) c) t
                  h idle)
        ]
  ]

  heading-Does :
      (k : ℕ) (c : Conn) (b : Body S)
      → Does (suc (suc (suc (suc k)))) (rest_heading c b) (heading c b)
  unfolding next_call after_acquire
  heading-Does k c b m t =
      let x = write_request_headers F src t.env c (view F m t) in
      let idle : x.0.body_stream ≡ none = (write_headers-Keeps F src t.env c (view F m t)).stream in
      first_call (suc (suc (suc k))) m t (heading c b)
        (kept F t x.0 (if x.1 then sending c b else dropping c)) refl
      ∙ elim (Bool-cases x.1) [
        | inl sent ↦ rw sent (
            after_call (suc (suc (suc k))) (rest_sending c b) (sending c b) (sending-Does k c b) t
              x.0 idle)
        | inr failed ↦ rw failed (
            after_call (suc (suc (suc k))) (rest_dropping c) (dropping c)
              (dropping-Does (suc (suc k)) c) t x.0 idle)
      ]

  acquiring-Does :
      (k : ℕ) (b : Body S) → Does (suc (suc (suc (suc (suc k))))) (rest_acquiring b) (acquiring b)
  unfolding next_call after_resolve
  acquiring-Does k b m t =
      let x = acquire_upstream_conn F src t.env (view F m t) in
      let idle : x.0.body_stream ≡ none = acquire-idle F src t.env (view F m t) in
      let k' = suc (suc (suc (suc k))) in
      first_call k' m t (acquiring b) (kept F t x.0 (heading_if F b x.1)) refl
      ∙ elim (Option-cases x.1) [
        | inl refused ↦
            rw (refused, after_resolve)
              (after_call k' (λ env h. some h) ended (ended-Does k') t x.0 idle)
        | inr (c, got) ↦
            rw (got, after_resolve)
              (after_call k' (rest_heading c b) (heading c b) (heading-Does k c b) t x.0 idle)
      ]

  -- A request whose calls no other goroutine interrupts is handle(): after at most six calls the shared
  -- state, the response and the answer that is streamed are those that handle() leaves, and where
  -- PipeCopy does not return within the fuel neither does.
  pub advance_times-handle :
      (req : Request S) (m : Shared) (t : Task F S W)
      → advance_times 6 (standing m t (resolving req))
        ≡ left t (handle F src t.env req (view F m t))
  unfolding next_call handle
  advance_times-handle req m t =
      let x = resolve_upstream F t.env.parse t.env.intn req.host (view F m t) in
      let idle : x.0.body_stream ≡ none = (resolve_step F src t.env req.host (view F m t)).1 in
      first_call 5 m t (resolving req) (kept F t x.0 (if x.1 then acquiring req.body else ended))
        refl
      ∙ elim (Bool-cases x.1) [
        | inl found ↦ rw found (
            after_call 5 (rest_acquiring req.body) (acquiring req.body) (acquiring-Does 0 req.body)
              t x.0 idle)
        | inr failed ↦ rw failed (after_call 5 (λ env h. some h) ended (ended-Does 5) t x.0 idle)
      ]
