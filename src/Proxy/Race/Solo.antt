-- ===== src/Proxy/Race/Solo.antt =====
-- resolveUpstream() as a whole, as steps that no other goroutine interrupts.
use fasthttpproxy.Common.{
  ℕ, Bool-cases, true, false, Option, Option-cases, [], ◌≡◌, ◌≢◌, refl, inl, inr, ◌<◌, ◌⊎◌, List,
  ◌∷◌, zero, suc, some, ap, arith, length, get_elem?,
}
use fasthttpproxy.Common.Text.{Str, str_eq, str_eq_iff}
use fasthttpproxy.Upstream.Address.{Url, Upstream, with_scheme}
use fasthttpproxy.Upstream.Choice.{random_lem, append-missing, append-present}
use fasthttpproxy.Upstream.Upstreams.{Upstreams, append}
use fasthttpproxy.Proxy.Fasthttp.{Fasthttp}
use fasthttpproxy.Proxy.State.{Handler}
use fasthttpproxy.Proxy.Handler.{resolve_upstream}
use fasthttpproxy.Proxy.Resolve.{use_host_lem, resolve_by_list, resolve_by_host}
use fasthttpproxy.Proxy.Race.{
  Stage, arriving, refused, resolved, Access, some_listed, draw, index, refuse, find_none, find,
  miss, put, load, extend,
}

-- Steps of one goroutine, one after the other.
pub data Solo (parse : Str → Option Url) (u : Upstreams) (p : Stage)
    : Upstreams → Stage → Type 0 where
  alone : Solo parse u p u p
  further :
      {v w : Upstreams} {q r : Stage}
      → Solo parse u p v q
      → Access parse v q w r
      → Solo parse u p w r

append-Solo :
    (parse : Str → Option Url) (host : Str) (u : Upstreams)
    → u.keys ≡ []
    → host ≢ []
    → let addr = with_scheme host in
      Solo parse u (arriving host) (append parse addr u) (resolved addr)
append-Solo parse host u empty given =
    let addr = with_scheme host in
    let looked = further alone (find_none {host = host} empty given) in
    elim (Option-cases (u.m addr)) [
      | inr (k, there) ↦ rw (append-present parse addr u there) (further looked (find there))
      | inl missing ↦
          rw (append-missing parse addr u missing)
            (further (further (further (further looked (miss missing)) put) load) extend)
    ]

get_elem?-lt {ℓ} : {A : Type ℓ} (l : List A) (i : ℕ) {a : A} → get_elem? l i ≡ some a → i < length l
get_elem?-lt [] i h = absurd (cc)
get_elem?-lt (x ∷ l) zero h = omega arith
get_elem?-lt (x ∷ l) (suc i) h = omega (arith, get_elem?-lt l i h)

-- Random on a list with something in it.
random-Solo :
    (parse : Str → Option Url) (host : Str) (u : Upstreams) (i : ℕ) {k : Upstream}
    → get_elem? u.keys i ≡ some k
    → Solo parse u (arriving host) u (resolved k.address)
random-Solo parse host u i at =
    let small = get_elem?-lt u.keys i at in
    let full : u.keys ≢ [] = λ e. absurd (omega (arith, ap length e, small)) in
    further (further (further alone (some_listed full)) (draw i small)) (index at)

module _ (F : Fasthttp) where
  -- Where nothing interrupts it, resolveUpstream() is a run of the steps that interleave. Where it
  -- returns true, the run is from the Host to the address that it resolves to, and from the upstreams
  -- before to those after; where it returns false, to the 400 for an empty Host, with the upstreams as
  -- they were. The numbers for Random are in range, like those of rand.Intn.
  pub resolve-Solo :
      (parse : Str → Option Url) (intn : ℕ → ℕ) (host : Str) (h : Handler F)
      → ((n : ℕ) → 0 < n → intn n < n)
      → let x = resolve_upstream F parse intn host h in
        ((x.1 ≡ true)
          × Solo parse h.upstreams (arriving host) x.0.upstreams (resolved x.0.upstream_address))
        ⊎ ((x.1 ≡ false)
            × (x.0.upstreams ≡ h.upstreams)
            × Solo parse h.upstreams (arriving host) h.upstreams refused)
  unfolding resolve_upstream
  resolve-Solo parse intn host h law = elim (random_lem intn h.upstreams law) [
    | inr (i, k, drawn, at) ↦
        rw (resolve_by_list F parse intn host h k drawn)
          (inl (refl, random-Solo parse host h.upstreams i at))
    | inl (empty, nothing) ↦ elim (Bool-cases (str_eq host [])) [
      | inl nobody ↦ inr (
        rw (nothing, resolve_upstream) (rw nobody refl),
        rw (nothing, resolve_upstream) (rw nobody refl),
        further alone (refuse empty ((str_eq_iff host []).0 nobody)),
      )
      | inr full ↦
          let given : host ≢ [] = λ e. absurd (let yes = (str_eq_iff host []).1 e in cc) in
          let (resolves, address, same_list) = use_host_lem F parse (with_scheme host) h in
          rw (resolve_by_host F parse intn host h nothing given, same_list, address)
            (inl (resolves, append-Solo parse host h.upstreams empty given))
    ]
  ]
