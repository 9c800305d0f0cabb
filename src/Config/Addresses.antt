-- ===== src/Config/Addresses.antt =====
-- parseUpstreams and addrAppend of internal/config/config.go, with strings.Split and
-- strings.TrimSpace. Texts are lists of code points, as TrimSpace reads them.
use fasthttpproxy.Common.{
  ℕ, leb, ◌==◌, Bool, ◌&&◌, ◌||◌, Option, none, some, List, [], ◌∷◌, ◌++◌, if◌then◌else◌,
}
use mathlib.Core.List.{reverse}
use fasthttpproxy.Common.Text.{Str, has_prefix}
use fasthttpproxy.Config.Prefix.{prefix_http, prefix_https}

abbrev pub comma : ℕ
comma = b','

-- unicode.IsSpace
abbrev pub is_space : ℕ → Bool
is_space c =
    (leb 9 c && leb c 13)
    || c == 0x20
    || c == 0x85
    || c == 0xA0
    || c == 0x1680
    || (leb 0x2000 c && leb c 0x200A)
    || c == 0x2028
    || c == 0x2029
    || c == 0x202F
    || c == 0x205F
    || c == 0x3000

trim_left : Str → Str
trim_left [] = []
trim_left (c ∷ s) = let rest = trim_left s in if is_space c then rest else c ∷ s

-- strings.TrimSpace
unfoldable pub trim_space : Str → Str
unfolding trim_left
trim_space s = reverse (trim_left (reverse (trim_left s)))

abbrev cons_head : ℕ → List Str → List Str
cons_head d [] = (d ∷ []) ∷ []
cons_head d (x ∷ xs) = (d ∷ x) ∷ xs

-- strings.Split(s, ",")
unfoldable pub split : Str → List Str
split [] = [] ∷ []
split (d ∷ s) = let rest = split s in if d == comma then [] ∷ rest else cons_head d rest

-- The test of both prefixes.
abbrev pub has_scheme : Str → Bool
has_scheme addr = has_prefix addr prefix_http || has_prefix addr prefix_https

-- `valid` is whether url.Parse takes the address; `none` is the exit by log.Fatalf.
module _ (valid : Str → Bool) where
  -- The two appends of addrAppend, after their test by url.Parse.
  abbrev append_valid : List Str → Str → Option (List Str)
  append_valid upstreams addr = if valid addr then some (upstreams ++ addr ∷ []) else none

  -- addrAppend
  unfoldable pub addr_append : List Str → Str → Option (List Str)
  addr_append upstreams raw =
      let addr = trim_space raw in
      if has_scheme addr
      then append_valid upstreams addr
      else append_valid upstreams (prefix_http ++ addr)

  -- The loop of parseUpstreams
  unfoldable pub add_all : List Str → List Str → Option (List Str)
  unfolding addr_append
  add_all [] upstreams = some upstreams
  add_all (addr ∷ rest) upstreams = elim (addr_append upstreams addr) [
    | none ↦ none
    | some upstreams' ↦ add_all rest upstreams'
  ]

  -- parseUpstreams
  unfoldable pub parse_upstreams : Str → List Str → Option (List Str)
  unfolding add_all
  parse_upstreams raw upstreams = add_all (split raw) upstreams
