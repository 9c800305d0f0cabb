-- ===== src/Proxy/Steps/Upload.antt =====
-- What writeRequestBody() counts, and the status that it answers with if it fails.
use fasthttpproxy.Common.{
  ℕ, ◌==◌, Bool, Bool-cases, true, false, Option, Option-cases, none, some, List, [], ◌≡◌, ◌≢◌, ◌∙◌,
  sym, refl, ◌⊎◌, inl, inr, arith, length, subst,
}
use fasthttpproxy.Common.Result.{Error}
use fasthttpproxy.Common.Net.{Reader}
use fasthttpproxy.Pool.PipeCopy.{copy_loop, pipe_copy, metrics_up_pipe_copy, metrics_down_pipe_copy}
use fasthttpproxy.Pool.Accounting.Shift.{Unmoved, unmoved, alike}
use fasthttpproxy.Proxy.Fasthttp.{Fasthttp, StatusLaws}
use fasthttpproxy.Proxy.State.{Handler, Body, streamed, fixed, Env, count}
use fasthttpproxy.Proxy.Outcome.{Delivered, Uncopied, Unwritten}
use fasthttpproxy.Proxy.Handler.{write_fixed, copied, write_body, write_request_body, observe_write}
use fasthttpproxy.Proxy.Steps.{Failed, bad_gateway}

module _ (F : Fasthttp) (laws : StatusLaws F) where
  open F use {Header}

  module _ {S W : Type 0} (src : Reader S) (env : Env Header W) where
    written_fixed :
        (body : List ℕ) (h : Handler F)
        → let x = write_fixed F src env body h in
          ((x.1 ≡ true) × Delivered F src env (fixed body) × Unmoved h.pool x.0.pool)
          ⊎ ((x.1 ≡ false) × (Unwritten F src env body × Failed F laws 1 [] h x.0))
    unfolding write_fixed Delivered
    written_fixed body h = elim (Bool-cases (length body == 0)) [
      | inl empty ↦ inl (rw empty refl, inl (ground arith), rw empty (alike refl refl))
      | inr full ↦
          let some_bytes : length body ≢ 0 = ground arith in
          elim (Option-cases (env.body_write body).1) [
            | inr (e, failed) ↦ inr (
              rw full (rw (failed, write_fixed) refl),
              (
                (some_bytes, inl (e, failed)),
                rw full (
                    rw (failed, write_fixed)
                      (bad_gateway F laws src env _ h _ (omega arith) refl refl)),
              ),
            )
            | inl fine ↦ elim (Bool-cases ((env.body_write body).0 == length body)) [
              | inl all ↦ inl (
                rw full (rw (fine, write_fixed) (rw all refl)),
                inr (fine, ground arith),
                rw full (rw (fine, write_fixed) (rw all (alike refl refl))),
              )
              | inr short ↦ inr (
                rw full (rw (fine, write_fixed) (rw short refl)),
                (
                  (some_bytes, inr (fine, ground arith)),
                  rw full (
                      rw (fine, write_fixed)
                        (rw short (bad_gateway F laws src env _ h _ (omega arith) refl refl))),
                ),
              )
            ]
          ]
    ]

    -- writeRequestBody: the failure of a streamed body is not counted.
    unfoldable pub BodyFails : Body S → Handler F → Handler F → Type 0
    BodyFails (streamed s) h h' = Uncopied F src env s × Failed F laws 0 [] h h'
    BodyFails (fixed body) h h' = Unwritten F src env body × Failed F laws 1 [] h h'

    unfoldable pub BodyStep : Body S → Handler F → Handler F × Bool → Type 0
    BodyStep b h (h', written) =
        ((written ≡ true) × Delivered F src env b × Unmoved h.pool h'.pool)
        ⊎ ((written ≡ false) × BodyFails b h h')

    -- What is said of a body that may not have ended.
    abbrev IfStep : Body S → Handler F → Option (Handler F × Bool) → Type 0
    IfStep b h none = Unit
    IfStep b h (some x) = BodyStep b h x

    copied-Step :
        (s : S) (r : Option (Option Error)) (h h' : Handler F)
        → (copy_loop src env.write env.fuel env.copy_buffer s env.link).0 ≡ r
        → Unmoved h.pool h'.pool
        → IfStep (streamed s) h (copied F src env r h')
    unfolding copied BodyStep BodyFails Delivered
    copied-Step s none h h' e v = tt
    copied-Step s (some none) h h' e v = inl (refl, e, v)
    copied-Step s (some (some failed)) h h' e v = inr (
      refl,
      (
        (failed, e),
        record { shift = unmoved v; gateway = laws.status_code-error _ 502 h'.response },
      ),
    )

    write_body-Step : (b : Body S) (h : Handler F) → IfStep b h (write_body F src env b h)
    unfolding write_body BodyStep BodyFails metrics_up_pipe_copy metrics_down_pipe_copy pipe_copy
    write_body-Step (streamed s) h =
        let x = pipe_copy src env.write env.fuel env.copy_buffer s env.link h.pool in
        copied-Step s x.1 h (record h { pool = x.0 }) refl (alike refl refl)
    write_body-Step (fixed body) h = written_fixed body h

    Failed-observed :
        {k : ℕ} {h h' : Handler F}
        → Failed F laws k [] h h'
        → Failed F laws k [] h (count F (observe_write F src env) h')
    Failed-observed f = record {
      shift = record { failed = f.shift.failed; used = f.shift.used };
      gateway = f.gateway;
    }

    observed :
        (b : Body S) (h : Handler F) (x : Handler F × Bool)
        → BodyStep b h x
        → BodyStep b h (count F (observe_write F src env) x.0, x.1)
    unfolding BodyStep BodyFails
    observed b h x (inl (all, d, v)) = inl (all, d, alike v.same_failures v.same_counts)
    observed (streamed s) h x (inr (failed, (why, f))) = inr (failed, (why, Failed-observed f))
    observed (fixed body) h x (inr (failed, (why, f))) = inr (failed, (why, Failed-observed f))

    pub body-Step :
        (b : Body S) (h : Handler F) {x : Handler F × Bool}
        → write_request_body F src env b h ≡ some x
        → BodyStep b h x
    unfolding write_request_body
    body-Step b h e = elim (Option-cases (write_body F src env b h)) [
      | inl stuck ↦
          let missing : write_request_body F src env b h ≡ none =
            rw (stuck, write_request_body) refl in
          absurd (cc)
      | inr (y, done) ↦
          let wrote : write_request_body F src env b h
              ≡ some (count F (observe_write F src env) y.0, y.1) =
            rw (done, write_request_body) refl in
          subst (IfStep b h) (sym wrote ∙ e)
            (observed b h y (subst (IfStep b h) done (write_body-Step b h)))
    ]
