-- ===== src/Upstream/Address.antt =====
-- The type Upstream and ParseAddress.
use fasthttpproxy.Common.{
  true, false, not, ◌&&◌, Bool-cases, Option-cases, Option, none, some, [], ◌++◌, if◌then◌else◌,
  ◌≡◌, ◌≢◌, ◌⊎◌, refl, sym, ap, ◌∙◌, inl, inr, arith,
}
use fasthttpproxy.Common.Text.{Str, codes, str_eq, str_eq_iff, has_prefix}
use fasthttpproxy.Common.Net.{TlsConfig}
use fasthttpproxy.Config.Prefix.{prefix_http, prefix_https}

-- SchemeHTTP and SchemeHTTPS
abbrev pub scheme_http : Str
scheme_http = codes "http"

abbrev pub scheme_https : Str
scheme_https = codes "https"

pub record Upstream : Type 0 where
  pub address : Str
  pub scheme : Str
  pub host : Str
  pub port : Str
  pub tls_config : Option TlsConfig

-- What the program reads of a url.URL: Scheme, Hostname() and Port().
pub record Url : Type 0 where
  pub scheme : Str
  pub hostname : Str
  pub port : Str

-- The address with the default scheme where it has none.
unfoldable pub with_scheme : Str → Str
with_scheme addr =
    if not (has_prefix addr prefix_http) && not (has_prefix addr prefix_https)
    then prefix_http ++ addr
    else addr

abbrev default_port : Str → Str
default_port scheme = if str_eq scheme scheme_https then codes "443" else codes "80"

abbrev from_url : Str → Url → Upstream
from_url addr u = record {
  address = addr;
  scheme = u.scheme;
  host = u.hostname;
  port = if str_eq u.port [] then default_port u.scheme else u.port;
  tls_config = none;
}

with_scheme_prefixed : (addr : Str) → with_scheme (prefix_http ++ addr) ≡ prefix_http ++ addr
unfolding with_scheme has_prefix
with_scheme_prefixed addr = refl

pub with_scheme_bare :
    (addr : Str)
    → (not (has_prefix addr prefix_http) && not (has_prefix addr prefix_https)) ≡ true
    → with_scheme addr ≡ prefix_http ++ addr
unfolding with_scheme
with_scheme_bare addr h = rw h refl

with_scheme_known :
    (addr : Str)
    → (not (has_prefix addr prefix_http) && not (has_prefix addr prefix_https)) ≡ false
    → with_scheme addr ≡ addr
unfolding with_scheme
with_scheme_known addr h = rw h refl

pub with_scheme_twice : (addr : Str) → with_scheme (with_scheme addr) ≡ with_scheme addr
with_scheme_twice addr =
    elim (Bool-cases (not (has_prefix addr prefix_http) && not (has_prefix addr prefix_https))) [
      | inl bare ↦
          let e = with_scheme_bare addr bare in ap with_scheme e ∙ with_scheme_prefixed addr ∙ sym e
      | inr known ↦ ap with_scheme (with_scheme_known addr known)
    ]

default_port-ne-nil : (scheme : Str) → default_port scheme ≢ []
default_port-ne-nil scheme = ground arith

from_url-port : (addr : Str) (u : Url) → (from_url addr u).port ≢ []
from_url-port addr u = elim (Bool-cases (str_eq u.port [])) [
  | inl empty ↦ rw empty (default_port-ne-nil u.scheme)
  | inr given ↦ rw given (λ e. cc ((str_eq_iff u.port []).1 e))
]

some-eq {ℓ} : {A : Type ℓ} {a b : A} → some a ≡ some b → a ≡ b
some-eq h = cc

-- The port of an upstream: that of the URL where it gives one, and else the scheme's default.
abbrev pub HasPort : Url → Str → Type 0
HasPort url port =
    ((url.port ≢ []) × (port ≡ url.port))
    ⊎ ((url.port ≡ []) × (url.scheme ≡ codes "https") × (port ≡ codes "443"))
    ⊎ ((url.port ≡ []) × (url.scheme ≢ codes "https") × (port ≡ codes "80"))

from_url-HasPort : (addr : Str) (url : Url) → HasPort url (from_url addr url).port
from_url-HasPort addr url = elim (Bool-cases (str_eq url.port [])) [
  | inr given ↦ rw given (inl ((λ e. cc ((str_eq_iff url.port []).1 e)), refl))
  | inl empty ↦
      let none_given = (str_eq_iff url.port []).0 empty in
      rw empty (elim (Bool-cases (str_eq url.scheme scheme_https)) [
        | inl secure ↦
            rw secure (inr (inl (none_given, (str_eq_iff url.scheme scheme_https).0 secure, refl)))
        | inr plain ↦
            rw plain
              (inr (inr (none_given, (λ e. cc ((str_eq_iff url.scheme scheme_https).1 e)), refl)))
      ])
]

module _ (parse : Str → Option Url) where
  -- ParseAddress; `none` is its error.
  unfoldable pub parse_address : Str → Option Upstream
  parse_address addr = elim (parse (with_scheme addr)) [
    | none ↦ none
    | some u ↦ some (from_url (with_scheme addr) u)
  ]

  pub parse_address_lem :
      (addr : Str) (u : Upstream)
      → parse_address addr ≡ some u
      → (u.address ≡ with_scheme addr) × (u.port ≢ []) × (parse_address u.address ≡ some u)
  unfolding parse_address
  parse_address_lem addr u h = elim (Option-cases (parse (with_scheme addr))) [
    | inl refused ↦ cc (rw (refused, parse_address) at h)
    | inr (url, e) ↦
        let here : parse_address addr ≡ some (from_url (with_scheme addr) url) =
          rw (e, parse_address) refl in
        let same : from_url (with_scheme addr) url ≡ u = some-eq (sym here ∙ h) in
        let again : parse_address (with_scheme addr) ≡ parse_address addr =
          ap parsed (with_scheme_twice addr) in
        rw (← same) (refl, from_url-port (with_scheme addr) url, again ∙ here)
  ]
    where
      parsed : Str → Option Upstream
      parsed a = elim (parse a) [ none ↦ none | some v ↦ some (from_url a v) ]

  -- ParseAddress fails where url.Parse refuses the address with its default scheme, and only there.
  -- Else the upstream has that address, the scheme and the host name of the URL, and the port of the
  -- URL or, where that gives none, 443 for https and 80 for any other scheme; it has no TLS
  -- configuration of its own, and parsing its address again gives the same upstream.
  pub parse_address-parse :
      (addr : Str)
      → ((parse (with_scheme addr) ≡ none) × (parse_address addr ≡ none))
        ⊎ ((url : Url) × (u : Upstream) × (parse (with_scheme addr) ≡ some url)
            × (parse_address addr ≡ some u)
            × (u.address ≡ with_scheme addr)
            × (u.scheme ≡ url.scheme)
            × (u.host ≡ url.hostname)
            × HasPort url u.port
            × (u.tls_config ≡ none)
            × (parse_address u.address ≡ some u))
  unfolding parse_address
  parse_address-parse addr = elim (Option-cases (parse (with_scheme addr))) [
    | inl refused ↦ inl (refused, rw (refused, parse_address) refl)
    | inr (url, e) ↦
        let u = from_url (with_scheme addr) url in
        let here : parse_address addr ≡ some u = rw (e, parse_address) refl in
        inr (
          url,
          u,
          e,
          here,
          refl,
          refl,
          refl,
          from_url-HasPort (with_scheme addr) url,
          refl,
          (parse_address_lem addr u here).2,
        )
  ]
