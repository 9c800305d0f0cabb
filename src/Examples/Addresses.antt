-- ===== src/Examples/Addresses.antt =====
-- Addresses and upstreams at concrete inputs.
use fasthttpproxy.Common.{Bool, true, Option, none, some, [], ◌∷◌, ◌++◌, ◌≡◌, ◌⊎◌, refl, All}
use fasthttpproxy.Common.Text.{Str, codes, has_prefix}
use fasthttpproxy.Config.Addresses.{trim_space, parse_upstreams}
use fasthttpproxy.Config.Listing.{Clean, joined_tail, parse_upstreams-joined}
use fasthttpproxy.Upstream.Address.{
  Upstream, Url, parse_address, parse_address-parse, HasPort, with_scheme,
}

abbrev valid : Str → Bool
valid s = true

abbrev first : Str
first = codes "http://a:80"

abbrev second : Str
second = codes "https://b"

both-Clean : All (Clean valid) (first ∷ second ∷ [])
unfolding trim_space has_prefix
both-Clean = (
  record { known = refl; single = refl; trimmed = refl; parses = refl },
  (record { known = refl; single = refl; trimmed = refl; parses = refl }, tt),
)

parse_upstreams-joined_example :
    parse_upstreams valid (first ++ joined_tail (second ∷ [])) [] ≡ some (first ∷ second ∷ [])
parse_upstreams-joined_example = parse_upstreams-joined valid first (second ∷ []) both-Clean

-- A parser of URLs that finds the host name a and no port.
abbrev parse : Str → Option Url
parse s = some (record { scheme = codes "http"; hostname = codes "a"; port = [] })

parse_address-parse_example :
    ((parse (with_scheme (codes "a")) ≡ none) × (parse_address parse (codes "a") ≡ none))
    ⊎ ((url : Url) × (u : Upstream) × (parse (with_scheme (codes "a")) ≡ some url)
        × (parse_address parse (codes "a") ≡ some u)
        × (u.address ≡ with_scheme (codes "a"))
        × (u.scheme ≡ url.scheme)
        × (u.host ≡ url.hostname)
        × HasPort url u.port
        × (u.tls_config ≡ none)
        × (parse_address parse u.address ≡ some u))
parse_address-parse_example = parse_address-parse parse (codes "a")
