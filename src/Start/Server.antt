-- ===== src/Start/Server.antt =====
-- cmd/proxy/main.go: runWith, up to its calls of ListenAndServe, and constructTLSConfig.
use fasthttpproxy.Common.{
  ℕ, Bool, true, false, ◌||◌, Option, none, some, [], ◌∷◌, ◌++◌, if◌then◌else◌,
}
use fasthttpproxy.Common.Int.{ℤ}
use fasthttpproxy.Common.Text.{Str, codes, str_eq}
use fasthttpproxy.Common.Result.{other, Result, ok, err}
use fasthttpproxy.Common.Net.{Conn, TlsConfig, empty_tls_config}
use fasthttpproxy.Pool.State.{PoolState}
use fasthttpproxy.Pool.Settings
use fasthttpproxy.Config.Values.{Values}
use fasthttpproxy.Upstream.Address.{Url}
use fasthttpproxy.Upstream.Upstreams.{Upstreams, new_upstreams}
use fasthttpproxy.Upstream.Tls.{Files, new_tls_config}

-- The fields of fasthttp.Server that runWith sets, with the address that it listens on. The handler
-- is the list of upstreams that proxy.Handler closes over.
pub record Server : Type 0 where
  pub concurrency : ℤ
  pub disable_header_names_normalizing : Bool
  pub disable_keepalive : Bool
  pub disable_pre_parse_multipart_form : Bool
  pub get_only : Bool
  pub handler : Upstreams
  pub log_all_errors : Bool
  pub max_conns_per_ip : ℤ
  pub max_request_body_size : ℤ
  pub max_requests_per_conn : ℤ
  pub no_default_content_type : Bool
  pub no_default_date : Bool
  pub no_default_server_header : Bool
  pub read_buffer_size : ℤ
  pub read_timeout : ℤ
  pub reduce_memory_usage : Bool
  pub secure_error_log_message : Bool
  pub stream_request_body : Bool
  pub write_buffer_size : ℤ
  pub write_timeout : ℤ
  pub tls : Option TlsConfig
  pub addr : Str

-- The setters that runWith calls first, in its order.
unfoldable pub configure : (ℤ → Str → Result Conn) → Values → PoolState → PoolState
configure http_dialer v p = Settings.pipe_copy_buffer_size v.copy_buffers_size (
    Settings.max_connections_per_host v.max_connections (
      Settings.idle_timeout v.idle_timeout (
        Settings.http_dialer_timeout http_dialer v.dialer_timeout
          (Settings.buffer_size v.io_buffers_size p))))

-- tls.VersionTLS12
abbrev pub version_tls12 : ℕ
version_tls12 = 771

-- The server before its TLS configuration is set.
unfoldable pub plain_server : (Str → Option Url) → Values → Server
plain_server parse v = record {
  concurrency = v.concurrency;
  disable_header_names_normalizing = v.disable_header_names_normalizing;
  disable_keepalive = v.disable_keepalive;
  disable_pre_parse_multipart_form = v.disable_pre_parse_multipart_form;
  get_only = v.get_only;
  handler = new_upstreams parse v.upstreams;
  log_all_errors = v.log_all_errors;
  max_conns_per_ip = v.max_connections_per_ip;
  max_request_body_size = v.max_request_body_size;
  max_requests_per_conn = v.max_requests_per_conn;
  no_default_content_type = v.no_default_content_type;
  no_default_date = v.no_default_date;
  no_default_server_header = v.no_default_server_header;
  read_buffer_size = v.read_buffer_size;
  read_timeout = v.read_timeout;
  reduce_memory_usage = v.reduce_memory_usage;
  secure_error_log_message = v.secure_error_log_message;
  stream_request_body = true;
  write_buffer_size = v.write_buffer_size;
  write_timeout = v.write_timeout;
  tls = none;
  addr = v.proxy_addr;
}

module _ (files : Files) where
  -- constructTLSConfig, from the call of tls.LoadX509KeyPair on
  unfoldable pub with_pair : Values → TlsConfig × Bool
  with_pair v =
      let (pair, failed) =
        files.load_key_pair v.tls_server_certificate_pem_file v.tls_server_key_pem_file in
      let result : TlsConfig = record empty_tls_config { certificates = pair ∷ [] } in
      elim failed [
        | some e ↦ (result, false)
        | none ↦ (
          record result {
            server_name = v.tls_server_name;
            insecure_skip_verify = v.tls_insecure_skip_verify;
            min_version = version_tls12;
          },
          true,
        )
      ]

  -- constructTLSConfig
  unfoldable pub construct_tls_config : Values → TlsConfig × Bool
  unfolding with_pair
  construct_tls_config v =
      if str_eq v.tls_server_name []
      then (empty_tls_config, false)
      else if str_eq v.tls_server_certificate_pem_file [] || str_eq v.tls_server_key_pem_file []
      then (empty_tls_config, false)
      else with_pair v

  -- `if values.TLSEnabled { if tlsConfig, ok := constructTLSConfig(values); ok { … } }`
  unfoldable pub set_tls : Values → Server → Server
  unfolding construct_tls_config
  set_tls v s =
      let (cfg, good) = construct_tls_config v in
      if v.tls_enabled then (if good then record s { tls = some cfg } else s) else s

  -- runWith: the state of the pools and the server that is to listen, or the error.
  unfoldable pub run_with :
      (Str → Option Url) → (ℤ → Str → Result Conn) → Values → PoolState → PoolState × Result Server
  unfolding configure plain_server set_tls
  run_with parse http_dialer v p =
      let p' = configure http_dialer v p in
      let served : Result Server = ok (set_tls v (plain_server parse v)) in
      if v.tls_enabled
      then elim (new_tls_config files v) [
        | err e ↦ (p', err (other (codes "failed to create TLS config: " ++ files.message e)))
        | ok cfg ↦ (Settings.tls_config (some cfg) p', served)
      ]
      else (p', served)
