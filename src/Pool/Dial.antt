-- ===== src/Pool/Dial.antt =====
-- internal/pool/dial.go: the scheme of an address decides on TLS, and is cut off for dialing.
use fasthttpproxy.Common.{
  Option, Option-cases, none, some, ◌++◌, if◌then◌else◌, ◌≡◌, ◌∙◌, ◌⊎◌, inl, inr, refl, sym, ap,
  subst, drop,
}
use fasthttpproxy.Common.Text.{Str, has_prefix}
use fasthttpproxy.Config.Prefix.{prefix_http, prefix_https}
use fasthttpproxy.Common.Result.{Error, Result, ok, err}
use fasthttpproxy.Common.Net.{Conn, TlsConfig}
use fasthttpproxy.Pool.State.{PoolState}

-- parseUpstreamAddressForDial
unfoldable pub parse_upstream_address_for_dial : Str → Str
parse_upstream_address_for_dial addr =
    if has_prefix addr prefix_http
    then drop 7 addr
    else if has_prefix addr prefix_https
    then drop 8 addr
    else addr

-- tls.Client(conn, cfg)
abbrev pub tls_client : TlsConfig → Conn → Conn
tls_client cfg c = record c { tls = some cfg }

-- `if customDial != nil { customDial(addr) } else { fasthttp.Dial(addr) }`; `fasthttp_dial` is the
-- function of package fasthttp.
unfoldable pub dial_plain : (Str → Result Conn) → PoolState → Str → Result Conn
dial_plain fasthttp_dial p addr = elim p.custom_dial [
  | none ↦ fasthttp_dial addr
  | some custom ↦ custom addr
]

abbrev pub over_tls : Option TlsConfig → Result Conn → Result Conn
over_tls none r = r
over_tls (some cfg) (ok c) = ok (tls_client cfg c)
over_tls (some cfg) (err e) = err e

-- dial
unfoldable pub dial : (Str → Result Conn) → PoolState → Str → Result Conn
dial fasthttp_dial p addr =
    let clean_addr = parse_upstream_address_for_dial addr in
    if has_prefix addr prefix_https
    then over_tls p.tls_config (dial_plain fasthttp_dial p clean_addr)
    else dial_plain fasthttp_dial p clean_addr

drop_http : (host : Str) → parse_upstream_address_for_dial (prefix_http ++ host) ≡ host
unfolding parse_upstream_address_for_dial has_prefix
drop_http host = refl

drop_https : (host : Str) → parse_upstream_address_for_dial (prefix_https ++ host) ≡ host
unfolding parse_upstream_address_for_dial has_prefix
drop_https host = refl

-- The dialer in use: the custom one when it is set, and else fasthttp.Dial.
abbrev pub IsDialer : (Str → Result Conn) → PoolState → (Str → Result Conn) → Type 0
IsDialer fasthttp_dial p d =
    (p.custom_dial ≡ some d) ⊎ ((p.custom_dial ≡ none) × (d ≡ fasthttp_dial))

-- The connection over TLS: the dialer's own with the configuration laid over it, or the dialer's error.
abbrev pub OverTls : TlsConfig → Result Conn → Result Conn → Type 0
OverTls cfg got r =
    ((c : Conn) × (got ≡ ok c) × (r ≡ ok (record { id = c.id; tls = some cfg })))
    ⊎ ((e : Error) × (got ≡ err e) × (r ≡ err e))

dial_plain-IsDialer :
    (fasthttp_dial : Str → Result Conn) (p : PoolState) (d : Str → Result Conn) (addr : Str)
    → IsDialer fasthttp_dial p d
    → dial_plain fasthttp_dial p addr ≡ d addr
unfolding dial_plain
dial_plain-IsDialer fasthttp_dial p d addr (inl custom) = rw (custom, dial_plain) refl
dial_plain-IsDialer fasthttp_dial p d addr (inr (unset, same)) =
    rw (unset, dial_plain) (ap (λ f. f addr) (sym same))

over_tls-OverTls : (cfg : TlsConfig) (got : Result Conn) → OverTls cfg got (over_tls (some cfg) got)
over_tls-OverTls cfg (ok c) = inl (c, refl, refl)
over_tls-OverTls cfg (err e) = inr (e, refl, refl)

-- For the dialer in use, the custom one when it is set and else fasthttp.Dial: an http address is
-- dialed without its scheme, and what the dialer gives is passed on. So is an https address where no
-- TLS configuration is set. Where one is set, the dialer's connection gets that configuration, and an
-- error of the dialer is passed on.
pub dial-scheme :
    (fasthttp_dial : Str → Result Conn) (p : PoolState) (d : Str → Result Conn) (host : Str)
    → IsDialer fasthttp_dial p d
    → (dial fasthttp_dial p (prefix_http ++ host) ≡ d host)
      × (((p.tls_config ≡ none) × (dial fasthttp_dial p (prefix_https ++ host) ≡ d host))
          ⊎ ((cfg : TlsConfig) × (p.tls_config ≡ some cfg)
              × OverTls cfg (d host) (dial fasthttp_dial p (prefix_https ++ host))))
unfolding dial has_prefix
dial-scheme fasthttp_dial p d host used =
    let plain = dial_plain-IsDialer fasthttp_dial p d host used in
    let over : dial fasthttp_dial p (prefix_https ++ host) ≡ over_tls p.tls_config (d host) =
      ap (λ a. over_tls p.tls_config (dial_plain fasthttp_dial p a)) (drop_https host)
      ∙ ap (over_tls p.tls_config) plain in
    (
      ap (dial_plain fasthttp_dial p) (drop_http host) ∙ plain,
      elim (Option-cases p.tls_config) [
        | inl unset ↦ inl (unset, over ∙ ap (λ t. over_tls t (d host)) unset)
        | inr (cfg, set) ↦ inr (
          cfg,
          set,
          subst (OverTls cfg (d host)) (sym (over ∙ ap (λ t. over_tls t (d host)) set))
              (over_tls-OverTls cfg (d host)),
        )
      ],
    )
