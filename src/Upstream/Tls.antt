-- ===== src/Upstream/Tls.antt =====
-- internal/upstream/upstream.go: NewTLSConfig.
use fasthttpproxy.Common.{ℕ, Option, none, some, List, [], ◌++◌, if◌then◌else◌}
use fasthttpproxy.Common.Text.{Str, codes, str_eq}
use fasthttpproxy.Common.Result.{Error, other, Result, ok, err}
use fasthttpproxy.Common.Net.{TlsConfig, empty_tls_config}
use fasthttpproxy.Config.Values.{Values}

-- What the program uses of packages os, crypto/x509, crypto/tls and fmt for its TLS configurations.
pub record Files : Type 0 where
  pub read_file : Str → Result (List ℕ)  -- os.ReadFile
  pub parse_pem : List ℕ → Option ℕ  -- AppendCertsFromPEM on a new pool
  pub load_key_pair : Str → Str → ℕ × Option Error  -- tls.LoadX509KeyPair
  pub quote : Str → Str  -- %q
  pub message : Error → Str

module _ (files : Files) where
  -- The branch of a CA file
  unfoldable pub with_ca : Values → TlsConfig → Result TlsConfig
  with_ca v cfg = elim (files.read_file v.tls_ca_file) [
    | err e ↦ err (
        other (
          codes "failed to read CA file "
          ++ files.quote v.tls_ca_file
          ++ codes ": "
          ++ files.message e))
    | ok pem ↦ elim (files.parse_pem pem) [
      | none ↦
          err (other (codes "failed to parse CA certificate from " ++ files.quote v.tls_ca_file))
      | some certs ↦ ok (record cfg { root_cas = some certs })
    ]
  ]

  -- NewTLSConfig
  unfoldable pub new_tls_config : Values → Result TlsConfig
  unfolding with_ca
  new_tls_config v =
      let cfg : TlsConfig = record empty_tls_config {
        insecure_skip_verify = v.tls_insecure_skip_verify;
      } in
      let named : TlsConfig =
        if str_eq v.tls_server_name []
        then cfg
        else record cfg { server_name = v.tls_server_name } in
      if str_eq v.tls_ca_file [] then ok named else with_ca v named
