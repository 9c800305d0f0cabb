-- ===== src/Proxy/Service/Starved.antt =====
-- What becomes of the service once the answers of an upstream that are not read to their end hold as
-- many connections as the limit allows.
use fasthttpproxy.Common.{
  ℕ, suc, get_elem?-All, none, some, List, [], ◌∷◌, map, All, ◌≡◌, ◌≢◌, refl, ap, subst, inl, inr,
  get_elem?,
}
use fasthttpproxy.Common.Text.{codes}
use fasthttpproxy.Common.Net.{Reader}
use fasthttpproxy.Pool.Conservation.{Holds}
use fasthttpproxy.Pool.Reuse.{acquire_exhausted}
use fasthttpproxy.Upstream.Address.{Upstream}
use fasthttpproxy.Upstream.Upstreams.{random}
use fasthttpproxy.Upstream.Choice.{random_lem}
use fasthttpproxy.Proxy.Fasthttp.{Fasthttp, StatusLaws}
use fasthttpproxy.Proxy.State.{Handler, Request, Env, fail, count}
use fasthttpproxy.Proxy.Handler.{acquire_upstream_conn, after_resolve, handle}
use fasthttpproxy.Proxy.Resolve.{resolve_by_list}
use fasthttpproxy.Proxy.Concurrent.Choice.{IntnFits}
use fasthttpproxy.Proxy.Service.{Service, Event, arrive, enter, leave, occur, occur_all}
use fasthttpproxy.Proxy.Service.Leases.{open_at, Sound}

module _ (F : Fasthttp) where
  -- A request that comes, with the response of its context.
  abbrev pub Ask : Type 0 → Type 0 → Type 0
  Ask S W = Env F.Header W × Request S × F.Response

  abbrev pub arrival : {S W : Type 0} → Ask S W → Event F S W
  arrival (env, req, r) = arrive env req r

  -- handle() as it ends for an upstream that is full.
  abbrev pub refusal : F.Response → Service → Upstream → Handler F
  refusal r s k = fail F (codes "cannot connect to upstream") 502 (
      count F (λ m. record m { dial_errors = suc m.dial_errors })
        (record (enter F r s) { upstream_address = k.address }))

module _ (max : ℕ) where
  -- Each listed upstream has as many answers that have not returned their connection as the limit
  -- allows.
  abbrev pub IsFull : Service → Type 0
  IsFull s = All (λ k. open_at k.address s.streams ≡ max) s.upstreams.keys

  -- Every connection that the limit allows is leased by an answer, for each listed upstream.
  pub record Blocked (s : Service) : Type 0 where
    pub sound : Sound max s
    pub some_listed : s.upstreams.keys ≢ []
    pub full : IsFull s

  chosen-Holds :
      (s : Service)
      → Blocked s
      → (i : ℕ) (k : Upstream) → get_elem? s.upstreams.keys i ≡ some k
      → Holds max max k.address s.pool
  chosen-Holds s v i k at =
      let all =
        get_elem?-All (λ k. open_at k.address s.streams ≡ max) s.upstreams.keys i v.full at in
      subst (λ j. Holds max j k.address s.pool) all (v.sound.holds k.address)

  refusal-Blocked :
      (F : Fasthttp) (r : F.Response) (s : Service) (k : Upstream)
      → Blocked s
      → Blocked (leave F s.streams (refusal F r s k))
  refusal-Blocked F r s k v = record {
    sound = record { finishes = v.sound.finishes; holds = v.sound.holds };
    some_listed = v.some_listed;
    full = v.full;
  }

module _ (F : Fasthttp) (laws : StatusLaws F) (max : ℕ) where
  module _ {S W : Type 0} (src : Reader S) where
    handle-refusal :
        (env : Env F.Header W) (req : Request S) (r : F.Response) (s : Service) (k : Upstream)
        → random env.intn s.upstreams ≡ some k
        → Holds max max k.address s.pool
        → handle F src env req (enter F r s) ≡ some (refusal F r s k)
    unfolding handle after_resolve acquire_upstream_conn
    handle-refusal env req r s k drawn full =
        let go = resolve_by_list F env.parse env.intn req.host (enter F r s) k drawn in
        let no =
          acquire_exhausted env.fasthttp_dial env.now env.idle_close_error k.address s.pool max
            full in
        let step : acquire_upstream_conn F src env
              (record (enter F r s) { upstream_address = k.address })
            ≡ (refusal F r s k, none) =
          rw (ap (λ x. x.1) no, acquire_upstream_conn) (rw (ap (λ x. x.0) no) refl) in
        rw (go, handle) (rw (ap (λ x. x.1) step, after_resolve) (ap (λ x. some x.0) step))

    pub turned_away :
        (env : Env F.Header W) (req : Request S) (r : F.Response) (s : Service)
        → IntnFits env.intn
        → Blocked max s
        → (k : Upstream) × (handle F src env req (enter F r s) ≡ some (refusal F r s k))
    turned_away env req r s law v = elim (random_lem env.intn s.upstreams law) [
      | inl (empty, nothing) ↦ absurd (v.some_listed empty)
      | inr (i, k, drawn, at) ↦
          (k, handle-refusal env req r s k drawn (chosen-Holds max s v i k at))
    ]

    arrivals-Blocked :
        (asks : List (Ask F S W)) (s : Service)
        → All (λ a. IntnFits a.0.intn) asks
        → Blocked max s
        → (s' : Service) × (occur_all F src (map (arrival F) asks) s ≡ some s')
          × (s'.streams ≡ s.streams)
          × Blocked max s'
    unfolding occur_all occur
    arrivals-Blocked [] s fits v = (s, refl, refl, v)
    arrivals-Blocked ((env, req, r) ∷ asks) s fits v =
        let (k, e) = turned_away env req r s fits.0 v in
        let (s', e', same, v') =
          arrivals-Blocked asks (leave F s.streams (refusal F r s k)) fits.1
            (refusal-Blocked max F r s k v) in
        (s', rw (e, occur_all) e', same, v')

    -- Once the answers from each listed upstream that have not returned their connection are as many
    -- as the limit allows, the service is blocked for as long as none of these answers is read: after
    -- any further requests the same answers are open, and the next request is handled to an end with
    -- status 502 and no stream, whatever it asks for and whatever the upstreams would answer.
    pub starved :
        (asks : List (Ask F S W)) (env : Env F.Header W) (req : Request S) (r : F.Response)
        (s : Service)
        → All (λ a. IntnFits a.0.intn) asks
        → IntnFits env.intn
        → Blocked max s
        → (s' : Service) × (occur_all F src (map (arrival F) asks) s ≡ some s')
          × (s'.streams ≡ s.streams)
          × (h : Handler F) × (handle F src env req (enter F r s') ≡ some h)
          × (F.status_code h.response ≡ 502)
          × (h.body_stream ≡ none)
    starved asks env req r s fits law v =
        let (s', e, same, v') = arrivals-Blocked asks s fits v in
        let (k, e') = turned_away env req r s' law v' in
        (s', e, same, refusal F r s' k, e', laws.status_code-error _ 502 r, refl)
