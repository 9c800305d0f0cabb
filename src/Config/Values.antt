-- ===== src/Config/Values.antt =====
-- internal/config/config.go: the record that ParseFlags returns.
use fasthttpproxy.Common.{Bool, List}
use fasthttpproxy.Common.Int.{ℤ}
use fasthttpproxy.Common.Text.{Str}

-- Durations are nanoseconds.
pub record Values : Type 0 where
  pub concurrency : ℤ
  pub max_connections : ℤ
  pub copy_buffers_size : ℤ
  pub disable_header_names_normalizing : Bool
  pub disable_keepalive : Bool
  pub disable_pre_parse_multipart_form : Bool
  pub get_only : Bool
  pub log_all_errors : Bool
  pub io_buffers_size : ℤ
  pub idle_timeout : ℤ
  pub dialer_timeout : ℤ
  pub max_connections_per_ip : ℤ
  pub max_request_body_size : ℤ
  pub max_requests_per_conn : ℤ
  pub metrics_addr : Str
  pub proxy_addr : Str
  pub no_default_content_type : Bool
  pub no_default_date : Bool
  pub no_default_server_header : Bool
  pub read_buffer_size : ℤ
  pub write_buffer_size : ℤ
  pub read_timeout : ℤ
  pub write_timeout : ℤ
  pub reduce_memory_usage : Bool
  pub secure_error_log_message : Bool
  pub upstreams : List Str
  pub tls_ca_file : Str
  pub tls_enabled : Bool
  pub tls_insecure_skip_verify : Bool
  pub tls_server_certificate_pem_file : Str
  pub tls_server_enabled : Bool
  pub tls_server_key_pem_file : Str
  pub tls_server_name : Str
