-- ===== src/Start/Main.antt =====
-- cmd/proxy/main.go: run, from the flags to the server.
use fasthttpproxy.Common.{
  ◌*◌, Bool, true, false, Option, none, some, List, [], ◌∷◌, ◌++◌, ◌≡◌, refl, ap, ◌∙◌, All, map,
  arith,
}
use fasthttpproxy.Common.Int.{ℤ, pos}
use fasthttpproxy.Common.Text.{Str, codes, str_eq, has_prefix}
use fasthttpproxy.Common.Result.{Result, ok}
use fasthttpproxy.Common.Net.{Conn}
use fasthttpproxy.Pool.State.{PoolState, initial, default_settings, second}
use fasthttpproxy.Pool.Settings.{
  buffer_size, idle_timeout, max_connections_per_host, pipe_copy_buffer_size, http_dialer_timeout,
}
use fasthttpproxy.Config.Flags.{FlagSet, NoFlags, values_of, listed, parse_flags}
use fasthttpproxy.Config.Values.{Values}
use fasthttpproxy.Config.Listing.{Clean, joined_tail, parse_upstreams-joined}
use fasthttpproxy.Upstream.Address.{Url}
use fasthttpproxy.Upstream.Upstreams.{upstream_of, new_upstreams}
use fasthttpproxy.Upstream.Choice.{new_upstreams-keys}
use fasthttpproxy.Upstream.Tls.{Files}
use fasthttpproxy.Start.Server.{Server, configure, plain_server, set_tls, run_with}

-- Whether url.Parse takes an address.
abbrev pub valid : (Str → Option Url) → Str → Bool
valid parse a = elim (parse a) [ none ↦ false | some u ↦ true ]

-- The setters leave a setting alone that they are called with.
configure-defaults :
    (http_dialer : ℤ → Str → Result Conn) (v : Values)
    → v.io_buffers_size ≡ pos 4096
    → v.idle_timeout ≡ pos (45 * second)
    → v.max_connections ≡ pos 100
    → v.copy_buffers_size ≡ pos 65536
    → let q = configure http_dialer v initial in
      (q.settings ≡ default_settings) × (q.tls_config ≡ none)
unfolding configure buffer_size idle_timeout max_connections_per_host pipe_copy_buffer_size
    http_dialer_timeout
configure-defaults http_dialer v buffers idle max copy = rw (buffers, idle, max, copy) (refl, refl)

listed-empty :
    (fs : FlagSet) (valid : Str → Bool)
    → fs.string_flag (codes "upstreams") [] ≡ []
    → listed fs valid ≡ some []
unfolding listed str_eq
listed-empty fs valid e = rw e refl

Clean-nonempty : (valid : Str → Bool) (x r : Str) → Clean valid x → str_eq (x ++ r) [] ≡ false
unfolding str_eq has_prefix
Clean-nonempty valid [] r c = cc c.known
Clean-nonempty valid (d ∷ x) r c = refl

listed-joined :
    (fs : FlagSet) (valid : Str → Bool) (x : Str) (xs : List Str)
    → All (Clean valid) (x ∷ xs)
    → fs.string_flag (codes "upstreams") [] ≡ x ++ joined_tail xs
    → listed fs valid ≡ some (x ∷ xs)
unfolding listed
listed-joined fs valid x xs clean e =
    rw (e, Clean-nonempty valid x (joined_tail xs) clean.0)
      (parse_upstreams-joined valid x xs clean)

module _ (fs : FlagSet) (files : Files) (parse : Str → Option Url)
    (http_dialer : ℤ → Str → Result Conn) where
  -- run(); `none` where ParseFlags exits.
  unfoldable pub run : PoolState → Option (PoolState × Result Server)
  run p = elim (parse_flags fs (valid parse)) [
    | none ↦ none
    | some v ↦ some (run_with files parse http_dialer v p)
  ]

  parse_flags-some :
      (upstreams : List Str)
      → fs.parse_error ≡ none
      → listed fs (valid parse) ≡ some upstreams
      → parse_flags fs (valid parse) ≡ some (values_of fs upstreams)
  unfolding parse_flags
  parse_flags-some upstreams fine e = ground arith

  run-some :
      (upstreams : List Str) (p : PoolState)
      → fs.parse_error ≡ none
      → listed fs (valid parse) ≡ some upstreams
      → run p ≡ some (run_with files parse http_dialer (values_of fs upstreams) p)
  unfolding run
  run-some upstreams p fine e = rw (parse_flags-some upstreams fine e, run) refl

  without_tls :
      (v : Values) (p : PoolState)
      → v.tls_enabled ≡ false
      → run_with files parse http_dialer v p
        ≡ (configure http_dialer v p, ok (plain_server parse v))
  unfolding run_with set_tls
  without_tls v p off = rw off refl

  -- With no flags the program starts, in plain HTTP, with no upstreams, and the setters leave the
  -- settings of the pools at the values that they are declared with: the defaults of the flags agree
  -- with those of the package.
  pub run-defaults :
      NoFlags fs
      → (q : PoolState) × (s : Server) × (run initial ≡ some (q, ok s))
        × (q.settings ≡ default_settings)
        × (q.tls_config ≡ none)
        × (s.tls ≡ none)
        × (s.handler.keys ≡ [])
  unfolding values_of new_upstreams run_with set_tls plain_server
  run-defaults d =
      let v = values_of fs [] in
      let off : v.tls_enabled ≡ false = d.default_bool (codes "tls-enabled") false in
      let q = configure http_dialer v initial in
      let same =
        configure-defaults http_dialer v (d.default_int _ _) (d.default_duration _ _)
          (d.default_int _ _) (d.default_int _ _) in
      let listed_none = listed-empty fs (valid parse) (d.default_string (codes "upstreams") []) in
      let plain : set_tls files v (plain_server parse v) ≡ plain_server parse v = rw off refl in
      (
        q,
        plain_server parse v,
        run-some [] initial d.no_error listed_none ∙ ap some (without_tls v initial off),
        same.0,
        same.1,
        refl,
        new_upstreams-keys parse [],
      )

  -- From the flag to the handler: when the flags are parsed, TLS for upstreams is not enabled, and the
  -- flag of the upstreams has a list of clean addresses with commas between them, the program starts
  -- a server whose upstreams are those that NewUpstreams makes of these addresses, in their order.
  pub run-upstreams :
      (x : Str) (xs : List Str) (p : PoolState)
      → fs.parse_error ≡ none
      → fs.bool_flag (codes "tls-enabled") false ≡ false
      → All (Clean (valid parse)) (x ∷ xs)
      → fs.string_flag (codes "upstreams") [] ≡ x ++ joined_tail xs
      → (q : PoolState) × (s : Server) × (run p ≡ some (q, ok s))
        × (s.handler.keys ≡ map (upstream_of parse) (x ∷ xs))
  unfolding values_of plain_server
  run-upstreams x xs p fine off clean text =
      let v = values_of fs (x ∷ xs) in
      (
        configure http_dialer v p,
        plain_server parse v,
        run-some (x ∷ xs) p fine (listed-joined fs (valid parse) x xs clean text)
            ∙ ap some (without_tls v p off),
        new_upstreams-keys parse (x ∷ xs),
      )
