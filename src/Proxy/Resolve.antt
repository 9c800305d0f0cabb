-- ===== src/Proxy/Resolve.antt =====
-- How the address of the upstream is chosen, and what a request's Host leaves behind.
use fasthttpproxy.Common.{
  ℕ, ◌<◌, true, Bool-cases, Option-cases, Option, none, some, List, [], ◌∷◌, ◌++◌, ◌≡◌, ◌≢◌, refl,
  sym, ap, ◌∙◌, inl, inr, arith, All, subst, Bool,
}
use fasthttpproxy.Common.Text.{Str, codes, str_eq, str_eq_iff}
use fasthttpproxy.Upstream.Address.{
  Url, Upstream, with_scheme, with_scheme_twice, parse_address, parse_address_lem,
}
use fasthttpproxy.Upstream.Choice.{append_lem, append-missing, random_single}
use fasthttpproxy.Upstream.Upstreams.{
  Upstreams, no_upstreams, append, random, upstream_of, unparsed,
}
use fasthttpproxy.Pool.State.{update_self}
use fasthttpproxy.Proxy.Fasthttp.{Fasthttp}
use fasthttpproxy.Proxy.State.{Handler}
use fasthttpproxy.Proxy.Handler.{use_host, resolve_upstream}

-- The upstream that is listed for an address with a scheme has that address.
pub address-upstream_of :
    (parse : Str → Option Url) (host : Str)
    → (upstream_of parse (with_scheme host)).address ≡ with_scheme host
unfolding upstream_of
address-upstream_of parse host = elim (Option-cases (parse_address parse (with_scheme host))) [
  | inl e ↦ rw (e, upstream_of) refl
  | inr (u, e) ↦
      rw (e, upstream_of)
        ((parse_address_lem parse (with_scheme host) u e).0 ∙ with_scheme_twice host)
]

module _ (F : Fasthttp) where
  pub random_empty : (intn : ℕ → ℕ) (u : Upstreams) → u.keys ≡ [] → random intn u ≡ none
  unfolding random
  random_empty intn u h = ground (arith, h)

  pub use_host_lem :
      (parse : Str → Option Url) (addr : Str) (h : Handler F)
      → let x = use_host F parse addr h in
        (x.1 ≡ true)
        × (x.0.upstream_address ≡ addr)
        × (x.0.upstreams ≡ append parse addr h.upstreams)
  unfolding use_host
  use_host_lem parse addr h = elim (Option-cases (parse addr)) [
    | inl refused ↦ (refl, rw (refused, use_host) refl, rw (refused, use_host) refl)
    | inr (u, fine) ↦ (refl, rw (fine, use_host) refl, rw (fine, use_host) refl)
  ]

  use_host-refused :
      (parse : Str → Option Url) (addr : Str) (h : Handler F)
      → parse addr ≡ none
      → (use_host F parse addr h).0.response
        ≡ F.error (codes "invalid upstream address") 400 h.response
  unfolding use_host
  use_host-refused parse addr h refused = rw (refused, use_host) refl

  pub resolve_by_host :
      (parse : Str → Option Url) (intn : ℕ → ℕ) (host : Str) (h : Handler F)
      → random intn h.upstreams ≡ none
      → host ≢ []
      → resolve_upstream F parse intn host h ≡ use_host F parse (with_scheme host) h
  unfolding resolve_upstream
  resolve_by_host parse intn host h nothing given = elim (Bool-cases (str_eq host [])) [
    | inl empty ↦ absurd (given ((str_eq_iff host []).0 empty))
    | inr full ↦ rw (nothing, resolve_upstream) (rw full refl)
  ]

  pub resolve_by_list :
      (parse : Str → Option Url) (intn : ℕ → ℕ) (host : Str) (h : Handler F) (k : Upstream)
      → random intn h.upstreams ≡ some k
      → resolve_upstream F parse intn host h ≡ (record h { upstream_address = k.address }, true)
  unfolding resolve_upstream
  resolve_by_list parse intn host h k e = rw (e, resolve_upstream) refl

  -- A host's address is the only one listed where none was.
  listed_first :
      (parse : Str → Option Url) (host : Str) (h : Handler F)
      → h.upstreams ≡ no_upstreams
      → (use_host F parse (with_scheme host) h).0.upstreams.keys
        ≡ upstream_of parse (with_scheme host) ∷ []
  listed_first parse host h nothing =
      ap (λ u. u.keys) (use_host_lem parse (with_scheme host) h).2
      ∙ (append_lem parse (with_scheme host) h.upstreams).1
          (ap (λ u. u.m (with_scheme host)) nothing)
      ∙ ap (λ u. u.keys ++ upstream_of parse (with_scheme host) ∷ []) nothing

  -- Requests in resolveUpstream(), one after the other on the same upstreams: each with its numbers
  -- for Random, its Host and its handler.
  unfoldable pub resolve_each :
      (Str → Option Url) → List ((ℕ → ℕ) × Str × Handler F) → Upstreams → List (Handler F × Bool)
  unfolding resolve_upstream
  resolve_each parse [] u = []
  resolve_each parse ((intn, host, h) ∷ rest) u =
      let x = resolve_upstream F parse intn host (record h { upstreams = u }) in
      x ∷ resolve_each parse rest x.0.upstreams

  abbrev pub InRange : (ℕ → ℕ) → Type 0
  InRange intn = (n : ℕ) → 0 < n → intn n < n

  -- It is resolved to this address, with the upstreams as they were.
  abbrev pub Goes : Str → Upstreams → Handler F × Bool → Type 0
  Goes addr u x = (x.1 ≡ true) × (x.0.upstream_address ≡ addr) × (x.0.upstreams ≡ u)

  resolve_each-single :
      (parse : Str → Option Url) (k : Upstream) (u : Upstreams)
      (requests : List ((ℕ → ℕ) × Str × Handler F))
      → u.keys ≡ k ∷ []
      → All (λ r. InRange r.0) requests
      → All (Goes k.address u) (resolve_each parse requests u)
  unfolding resolve_each
  resolve_each-single parse k u [] single all = tt
  resolve_each-single parse k u ((intn, host, h) ∷ rest) single (law, all) =
      let drawn =
        resolve_by_list parse intn host (record h { upstreams = u }) k
          (random_single intn u k law single) in
      let same = ap (λ x. x.0.upstreams) drawn in
      (
        (ap (λ x. x.1) drawn, ap (λ x. x.0.upstream_address) drawn, same),
        subst (λ v. All (Goes k.address u) (resolve_each parse rest v)) (sym same)
            (resolve_each-single parse k u rest single all),
      )

  -- With no upstreams configured, the first request with a Host decides for all later ones. It is
  -- resolved to its Host, whose upstream alone is then listed; any requests after it, one after the
  -- other and whatever their Hosts are, are resolved to that same address, and leave the upstreams as
  -- the first one left them. The numbers for Random are in range, like those of rand.Intn.
  pub first_host_wins :
      (parse : Str → Option Url) (intn : ℕ → ℕ) (host : Str) (h : Handler F)
      (later : List ((ℕ → ℕ) × Str × Handler F))
      → h.upstreams ≡ no_upstreams
      → host ≢ []
      → All (λ r. InRange r.0) later
      → let x = resolve_upstream F parse intn host h in
        (x.1 ≡ true)
        × (x.0.upstream_address ≡ with_scheme host)
        × (x.0.upstreams.keys ≡ upstream_of parse (with_scheme host) ∷ [])
        × All (Goes (with_scheme host) x.0.upstreams) (resolve_each parse later x.0.upstreams)
  first_host_wins parse intn host h later nothing given laws =
      let first =
        resolve_by_host parse intn host h (random_empty intn h.upstreams (ap (λ u. u.keys) nothing))
          given in
      let used = use_host_lem parse (with_scheme host) h in
      let listed = listed_first parse host h nothing in
      let u = (use_host F parse (with_scheme host) h).0.upstreams in
      rw first (
        used.0,
        used.1,
        listed,
        subst (λ a. All (Goes a u) (resolve_each parse later u)) (address-upstream_of parse host)
            (resolve_each-single parse (upstream_of parse (with_scheme host)) u later listed laws),
      )

  unparsed-upstream_of :
      (parse : Str → Option Url) (host : Str)
      → parse (with_scheme host) ≡ none
      → upstream_of parse (with_scheme host) ≡ unparsed (with_scheme host)
  unfolding upstream_of parse_address
  unparsed-upstream_of parse host refused =
      let again : parse (with_scheme (with_scheme host)) ≡ none =
        ap parse (with_scheme_twice host) ∙ refused in
      let nothing : parse_address parse (with_scheme host) ≡ none =
        rw (again, parse_address) refl in
      rw (nothing, upstream_of) refl

  mapped_first :
      (parse : Str → Option Url) (host : Str) (h : Handler F)
      → h.upstreams ≡ no_upstreams
      → (use_host F parse (with_scheme host) h).0.upstreams.m (with_scheme host)
        ≡ some (upstream_of parse (with_scheme host))
  mapped_first parse host h nothing =
      ap (λ u. u.m (with_scheme host))
        ((use_host_lem parse (with_scheme host) h).2
          ∙ append-missing parse (with_scheme host) h.upstreams
              (ap (λ u. u.m (with_scheme host)) nothing))
      ∙ update_self h.upstreams.m (with_scheme host) (some (upstream_of parse (with_scheme host)))

  -- Where no upstream is listed and url.Parse refuses the address of the Host, the request is
  -- resolved, with a response of 400, and an upstream without a host name is kept for it.
  pub invalid_host_resolves :
      (parse : Str → Option Url) (intn : ℕ → ℕ) (host : Str) (h : Handler F)
      → h.upstreams ≡ no_upstreams
      → host ≢ []
      → parse (with_scheme host) ≡ none
      → let x = resolve_upstream F parse intn host h in
        (x.1 ≡ true)
        × (x.0.upstream_address ≡ with_scheme host)
        × (x.0.response ≡ F.error (codes "invalid upstream address") 400 h.response)
        × (x.0.upstreams.keys ≡ unparsed (with_scheme host) ∷ [])
        × (x.0.upstreams.m (with_scheme host) ≡ some (unparsed (with_scheme host)))
  invalid_host_resolves parse intn host h nothing given refused =
      let first =
        resolve_by_host parse intn host h (random_empty intn h.upstreams (ap (λ u. u.keys) nothing))
          given in
      let used = use_host_lem parse (with_scheme host) h in
      let kept = unparsed-upstream_of parse host refused in
      rw first (
        used.0,
        used.1,
        use_host-refused parse (with_scheme host) h refused,
        listed_first parse host h nothing ∙ ap (λ k. k ∷ []) kept,
        mapped_first parse host h nothing ∙ ap some kept,
      )
