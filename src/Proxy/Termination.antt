-- ===== src/Proxy/Termination.antt =====
-- handle() ends: what it takes for its one loop, the PipeCopy of a streamed body, to end.
use fasthttpproxy.Common.{
  ℕ, ◌≤◌, Bool-cases, Option-cases, Option, none, some, List, ◌≡◌, refl, sym, ap, subst, true, inl,
  inr, length,
}
use fasthttpproxy.Common.Result.{Error}
use fasthttpproxy.Common.Net.{Conn, Reader}
use fasthttpproxy.Pool.PipeCopy.{Gives, pipe_copy, deliver, loop-deliver}
use fasthttpproxy.Proxy.Fasthttp.{Fasthttp}
use fasthttpproxy.Proxy.State.{Handler, Request, Body, streamed, fixed, Env}
use fasthttpproxy.Proxy.Handler.{
  resolve_upstream, acquire_upstream_conn, write_request_headers, write_fixed, copied, write_body,
  write_request_body, after_headers, after_acquire, after_resolve, handle,
}

-- It gives a value.
abbrev pub Returns {ℓ} : {A : Type ℓ} → Option A → Type ℓ
Returns {A = A} r = (a : A) × (r ≡ some a)

module _ (F : Fasthttp) {S W : Type 0} (src : Reader S) (env : Env F.Header W) where
  -- The body is at hand, or its stream ends within as many reads as there is fuel.
  abbrev pub Ends : Body S → Type 0
  Ends (streamed s) =
      (chunks : List (List ℕ)) × (e : Error) × Gives src env.write env.copy_buffer s chunks e
      × (length chunks ≤ env.fuel)
  Ends (fixed body) = Unit

  copied-Returns : (e : Option Error) (h : Handler F) → Returns (copied F src env (some e) h)
  unfolding copied
  copied-Returns none h = ((h, true), refl)
  copied-Returns (some e) h = (_, refl)

  write_body-Returns : (b : Body S) (h : Handler F) → Ends b → Returns (write_body F src env b h)
  unfolding write_body pipe_copy
  write_body-Returns (fixed body) h fine = (write_fixed F src env body h, refl)
  write_body-Returns (streamed s) h (chunks, e, gives, enough) =
      let (p, result, w) = pipe_copy src env.write env.fuel env.copy_buffer s env.link h.pool in
      let r = loop-deliver src env.write env.copy_buffer env.fuel gives enough env.link in
      let stop : result ≡ some (deliver src env.write chunks e env.link).0 = ap (λ x. x.0) r in
      subst (λ o. Returns (copied F src env o (record h { pool = p }))) (sym stop)
        (copied-Returns _ (record h { pool = p }))

  pub write_request_body-Returns :
      (b : Body S) (h : Handler F) → Ends b → Returns (write_request_body F src env b h)
  unfolding write_request_body
  write_request_body-Returns b h fine =
      let (x, e) = write_body-Returns b h fine in rw (e, write_request_body) (_, refl)

  after_headers-Returns :
      (c : Conn) (b : Body S) (h : Handler F) → Ends b → Returns (after_headers F src env c b h)
  unfolding after_headers
  after_headers-Returns c b h fine =
      let ((h', written), e) = write_request_body-Returns b h fine in
      rw (e, after_headers)
        (elim (Bool-cases written) [
          | inl all ↦ rw all (_, refl)
          | inr failed ↦ rw failed (_, refl)
        ])

  after_acquire-Returns :
      (c : Conn) (b : Body S) (h : Handler F) → Ends b → Returns (after_acquire F src env c b h)
  unfolding after_acquire
  after_acquire-Returns c b h fine =
      let x = write_request_headers F src env c h in
      elim (Bool-cases x.1) [
        | inl sent ↦ rw sent (after_headers-Returns c b x.0 fine)
        | inr failed ↦ rw failed (_, refl)
      ]

  after_resolve-Returns :
      (b : Body S) (h : Handler F) → Ends b → Returns (after_resolve F src env b h)
  unfolding after_resolve
  after_resolve-Returns b h fine =
      let x = acquire_upstream_conn F src env h in
      elim (Option-cases x.1) [
        | inl refused ↦ rw (refused, after_resolve) (_, refl)
        | inr (c, got) ↦ rw (got, after_resolve) (after_acquire-Returns c b x.0 fine)
      ]

  -- handle() returns for each request whose body is at hand, and for each whose stream ends, with
  -- EOF or another error, within as many reads as there is fuel; whatever the other calls give.
  pub handle-Returns :
      (req : Request S) (h : Handler F)
      → Ends req.body
      → (h' : Handler F) × (handle F src env req h ≡ some h')
  unfolding handle
  handle-Returns req h fine =
      let x = resolve_upstream F env.parse env.intn req.host h in
      elim (Bool-cases x.1) [
        | inl resolved ↦ rw resolved (after_resolve-Returns req.body x.0 fine)
        | inr failed ↦ rw failed (_, refl)
      ]
