-- ===== src/Upstream/Upstreams.antt =====
-- The type Upstreams: a map from the addresses as given, and a list for the random choice.
use fasthttpproxy.Common.{
  ℕ, Option, none, some, List, [], ◌∷◌, ◌++◌, if◌then◌else◌, length, get_elem?, ◌==◌, map,
}
use fasthttpproxy.Common.Text.{Str}
use fasthttpproxy.Pool.State.{update}
use fasthttpproxy.Upstream.Address.{Upstream, Url, parse_address, scheme_http}

-- `m` is the Go map, `none` at a missing key.
pub record Upstreams : Type 0 where
  pub m : Str → Option Upstream
  pub keys : List Upstream

abbrev pub no_upstreams : Upstreams
no_upstreams = record { m = λ _. none; keys = [] }

-- The upstream that is kept for an address that does not parse.
abbrev pub unparsed : Str → Upstream
unparsed addr = record {
  address = addr;
  scheme = scheme_http;
  host = [];
  port = [];
  tls_config = none;
}

module _ (parse : Str → Option Url) where
  -- What NewUpstreams and Append make of an address.
  unfoldable pub upstream_of : Str → Upstream
  upstream_of addr = elim (parse_address parse addr) [ none ↦ unparsed addr | some u ↦ u ]

  abbrev pub insert : Str → Upstreams → Upstreams
  insert addr u = record {
    m = update u.m addr (some (upstream_of addr));
    keys = u.keys ++ upstream_of addr ∷ [];
  }

  -- The loop of NewUpstreams: keys[i] is written at each i, and a repeated address is kept twice.
  unfoldable pub add_each : List Str → Upstreams → Upstreams
  add_each [] u = u
  add_each (addr ∷ rest) u = add_each rest (insert addr u)

  -- NewUpstreams
  unfoldable pub new_upstreams : List Str → Upstreams
  unfolding add_each
  new_upstreams address = add_each address no_upstreams

  -- (*Upstreams).Append
  unfoldable pub append : Str → Upstreams → Upstreams
  append addr u = elim (u.m addr) [ some _ ↦ u | none ↦ insert addr u ]

-- (*Upstreams).Random; `intn` is rand.Intn. A number out of range, which rand.Intn does not give,
-- makes it `none` here and panic in Go.
unfoldable pub random : (ℕ → ℕ) → Upstreams → Option Upstream
random intn u = if length u.keys == 0 then none else get_elem? u.keys (intn (length u.keys))

-- What is said of the parts of a value below.
abbrev pub addresses : Upstreams → List Str
addresses u = map (λ k. k.address) u.keys
