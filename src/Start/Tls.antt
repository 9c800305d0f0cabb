-- ===== src/Start/Tls.antt =====
-- What the start of the program does with its settings and its TLS flags.
use fasthttpproxy.Common.{
  true, false, Bool-cases, inl, inr, Option, none, some, [], ◌∷◌, ◌≡◌, refl, ap, ◌∙◌, arith,
}
use fasthttpproxy.Common.Int.{ℤ}
use fasthttpproxy.Common.Text.{Str, str_eq}
use fasthttpproxy.Common.Result.{Result, Result-cases, ok}
use fasthttpproxy.Common.Net.{Conn, TlsConfig}
use fasthttpproxy.Pool.State.{PoolState}
use fasthttpproxy.Pool.Settings.{
  IsValid, buffer_size, http_dialer_timeout, tls_config, set_all, set_one, set_max, set_idle,
  set_buffer, set_pipe, set_all-IsValid,
}
use fasthttpproxy.Config.Values.{Values}
use fasthttpproxy.Upstream.Address.{Url}
use fasthttpproxy.Upstream.Tls.{Files, new_tls_config}
use fasthttpproxy.Start.Server.{
  Server, configure, plain_server, construct_tls_config, with_pair, set_tls, run_with,
  version_tls12,
}

configure-IsValid :
    (http_dialer : ℤ → Str → Result Conn) (v : Values) (p : PoolState)
    → IsValid p.settings
    → IsValid (configure http_dialer v p).settings
unfolding configure http_dialer_timeout set_all set_one
configure-IsValid http_dialer v p fine =
    set_all-IsValid
      (set_idle v.idle_timeout ∷ set_max v.max_connections ∷ set_pipe v.copy_buffers_size ∷ [])
      (http_dialer_timeout http_dialer v.dialer_timeout (buffer_size v.io_buffers_size p))
      (set_all-IsValid (set_buffer v.io_buffers_size ∷ []) p fine)

module _ (files : Files) (parse : Str → Option Url) (http_dialer : ℤ → Str → Result Conn) where
  -- Whatever the flags, and also where the start fails: settings that are at least the documented
  -- minimums are so when the program listens.
  pub run_with-IsValid :
      (v : Values) (p : PoolState)
      → IsValid p.settings
      → IsValid (run_with files parse http_dialer v p).0.settings
  unfolding run_with tls_config new_tls_config
  run_with-IsValid v p fine =
      let fine' = configure-IsValid http_dialer v p fine in
      elim (Bool-cases v.tls_enabled) [
        | inr off ↦ rw off fine'
        | inl on ↦ rw on (elim (Result-cases (new_tls_config files v)) [
          | inl (cfg, e) ↦ rw (e, run_with) fine'
          | inr (failed, e) ↦ rw (e, run_with) fine'
        ])
      ]

  set_tls-some :
      (v : Values) (s : Server) (cfg : TlsConfig)
      → s.tls ≡ none
      → (set_tls files v s).tls ≡ some cfg
      → (v.tls_enabled ≡ true) × (construct_tls_config files v ≡ (cfg, true))
  unfolding set_tls
  set_tls-some v s cfg plain h = ground arith

  construct-true :
      (v : Values) (cfg : TlsConfig)
      → construct_tls_config files v ≡ (cfg, true)
      → let x = files.load_key_pair v.tls_server_certificate_pem_file v.tls_server_key_pem_file in
        (str_eq v.tls_server_name [] ≡ false)
        × (x.1 ≡ none)
        × (cfg.certificates ≡ x.0 ∷ [])
        × (cfg.server_name ≡ v.tls_server_name)
        × (cfg.min_version ≡ version_tls12)
  unfolding construct_tls_config with_pair
  construct-true v cfg h = ground arith

  run_with-ok :
      (v : Values) (p q : PoolState) (s : Server)
      → run_with files parse http_dialer v p ≡ (q, ok s)
      → set_tls files v (plain_server parse v) ≡ s
  unfolding run_with
  run_with-ok v p q s h = ground arith

  -- Where runWith makes a server with a TLS configuration, TLS is enabled for upstreams, a server name
  -- is given, the key pair was loaded without an error, and the configuration has that pair alone,
  -- the server name, and TLS 1.2 as the least version.
  pub served_tls :
      (v : Values) (p q : PoolState) (s : Server) (cfg : TlsConfig)
      → run_with files parse http_dialer v p ≡ (q, ok s)
      → s.tls ≡ some cfg
      → let x = files.load_key_pair v.tls_server_certificate_pem_file v.tls_server_key_pem_file in
        (v.tls_enabled ≡ true)
        × (str_eq v.tls_server_name [] ≡ false)
        × (x.1 ≡ none)
        × (cfg.certificates ≡ x.0 ∷ [])
        × (cfg.server_name ≡ v.tls_server_name)
        × (cfg.min_version ≡ version_tls12)
  unfolding run_with set_tls construct_tls_config with_pair plain_server
  served_tls v p q s cfg run tls =
      let (on, built) =
        set_tls-some v (plain_server parse v) cfg refl
          (ap (λ x. x.tls) (run_with-ok v p q s run) ∙ tls) in
      let (named, loaded, pair, same_name, version) = construct-true v cfg built in
      (on, named, loaded, pair, same_name, version)
