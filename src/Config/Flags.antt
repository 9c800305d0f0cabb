-- ===== src/Config/Flags.antt =====
-- internal/config/config.go: ParseFlags. What package flag finds on the command line is an argument.
use fasthttpproxy.Common.{Bool, true, false, ◌*◌, Option, none, some, List, [], ◌≡◌, if◌then◌else◌}
use fasthttpproxy.Common.Int.{ℤ, pos}
use fasthttpproxy.Common.Text.{Str, codes, str_eq}
use fasthttpproxy.Common.Result.{Error}
use fasthttpproxy.Pool.State.{second}
use fasthttpproxy.Config.Addresses.{parse_upstreams}
use fasthttpproxy.Config.Values.{Values}

-- After `fs.Parse(os.Args[1:])`: its error, and what the pointer of a flag points to that was defined
-- by fs.Int, fs.Duration, fs.Bool or fs.String with this name and this default.
pub record FlagSet : Type 0 where
  pub parse_error : Option Error
  pub int_flag : Str → ℤ → ℤ
  pub duration_flag : Str → ℤ → ℤ
  pub bool_flag : Str → Bool → Bool
  pub string_flag : Str → Str → Str

-- A command line without flags: Parse succeeds, and every flag has its default.
pub record NoFlags (fs : FlagSet) : Type 0 where
  pub no_error : fs.parse_error ≡ none
  pub default_int : (name : Str) (d : ℤ) → fs.int_flag name d ≡ d
  pub default_duration : (name : Str) (d : ℤ) → fs.duration_flag name d ≡ d
  pub default_bool : (name : Str) (d : Bool) → fs.bool_flag name d ≡ d
  pub default_string : (name : Str) (d : Str) → fs.string_flag name d ≡ d

module _ (fs : FlagSet) where
  open fs use {parse_error, int_flag, duration_flag, bool_flag, string_flag}

  -- The values that are returned, with the list of upstreams.
  unfoldable pub values_of : List Str → Values
  values_of upstreams = record {
    concurrency = int_flag (codes "concurrency") (pos (256 * 1024));
    copy_buffers_size = int_flag (codes "copy-buffers-size") (pos 65536);
    dialer_timeout = duration_flag (codes "dialer-timeout") (pos (30 * second));
    disable_header_names_normalizing = bool_flag (codes "disable-header-norm") true;
    disable_keepalive = bool_flag (codes "disable-keepalive") false;
    disable_pre_parse_multipart_form = bool_flag (codes "disable-preparse-multipart") false;
    get_only = bool_flag (codes "get-only") false;
    io_buffers_size = int_flag (codes "io-buffers-size") (pos 4096);
    idle_timeout = duration_flag (codes "idle-timeout") (pos (45 * second));
    log_all_errors = bool_flag (codes "log-all-errors") true;
    max_connections = int_flag (codes "max-conns") (pos 100);
    max_connections_per_ip = int_flag (codes "max-conns-per-ip") (pos 0);
    max_request_body_size = int_flag (codes "max-body-size") (pos (4 * 1024 * 1024));
    max_requests_per_conn = int_flag (codes "max-reqs-per-conn") (pos 0);
    metrics_addr = string_flag (codes "metrics-addr") (codes ":7070");
    no_default_content_type = bool_flag (codes "no-default-content-type") false;
    no_default_date = bool_flag (codes "no-default-date") false;
    no_default_server_header = bool_flag (codes "no-default-server-header") true;
    proxy_addr = string_flag (codes "proxy-addr") (codes ":8080");
    read_buffer_size = int_flag (codes "read-buffer-size") (pos 0);
    read_timeout = duration_flag (codes "read-timeout") (pos 0);
    reduce_memory_usage = bool_flag (codes "reduce-memory-usage") true;
    secure_error_log_message = bool_flag (codes "secure-error-log") true;
    tls_ca_file = string_flag (codes "tls-ca-file") [];
    tls_enabled = bool_flag (codes "tls-enabled") false;
    tls_insecure_skip_verify = bool_flag (codes "tls-insecure-skip-verify") false;
    tls_server_certificate_pem_file = string_flag (codes "tls-server-certificate-pem-file") [];
    tls_server_enabled = bool_flag (codes "tls-server-enabled") false;
    tls_server_key_pem_file = string_flag (codes "tls-server-key-pem-file") [];
    tls_server_name = string_flag (codes "tls-server-name") [];
    upstreams = upstreams;
    write_buffer_size = int_flag (codes "write-buffer-size") (pos 0);
    write_timeout = duration_flag (codes "write-timeout") (pos 0);
  }

  -- `if *upstreamsFlag != "" { upstreams = parseUpstreams(*upstreamsFlag, nil) }`; `valid` is whether
  -- url.Parse takes an address.
  unfoldable pub listed : (Str → Bool) → Option (List Str)
  listed valid =
      let text = string_flag (codes "upstreams") [] in
      if str_eq text [] then some [] else parse_upstreams valid text []

  -- ParseFlags; `none` is the exit by log.Fatal.
  unfoldable pub parse_flags : (Str → Bool) → Option Values
  unfolding values_of listed
  parse_flags valid = elim parse_error [
    | some e ↦ none
    | none ↦ elim (listed valid) [ none ↦ none | some upstreams ↦ some (values_of upstreams) ]
  ]
