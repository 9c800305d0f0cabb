-- ===== src/Examples/Start.antt =====
-- The start of the program with given flags.
use fasthttpproxy.Common.{
  if◌then◌else◌, All, ◌++◌, true, false, Option, none, some, [], ◌∷◌, ◌≡◌, refl,
}
use fasthttpproxy.Common.Int.{ℤ, pos}
use fasthttpproxy.Common.Text.{Str, codes, str_eq, has_prefix}
use fasthttpproxy.Common.Result.{Result, ok, err, eof}
use fasthttpproxy.Common.Net.{Conn, TlsConfig, empty_tls_config}
use fasthttpproxy.Pool.State.{PoolState, initial, second, default_settings}
use fasthttpproxy.Pool.Settings.{IsValid, default_settings-IsValid}
use fasthttpproxy.Config.Values.{Values}
use fasthttpproxy.Upstream.Address.{Url}
use fasthttpproxy.Upstream.Tls.{Files, new_tls_config}
use fasthttpproxy.Start.Server.{Server, run_with, set_tls, plain_server, version_tls12}
use fasthttpproxy.Start.Main.{run, valid, run-defaults}
use fasthttpproxy.Config.Flags.{FlagSet, NoFlags, listed, parse_flags}
use fasthttpproxy.Start.Exit.{fatal, serve_metrics, main}
use fasthttpproxy.Config.Listing.{Clean, joined_tail}
use fasthttpproxy.Config.Addresses.{trim_space}
use fasthttpproxy.Start.Tls.{run_with-IsValid, served_tls}

abbrev disk : Files
disk = record {
  read_file = λ f. err eof;
  parse_pem = λ b. none;
  load_key_pair = λ a b. (5, none);
  quote = λ s. s;
  message = λ e. codes "EOF";
}

abbrev refuse : Str → Option Url
refuse s = none

abbrev no_dialer : ℤ → Str → Result Conn
no_dialer t s = err eof

-- One idle second is the least; the limit of connections is refused.
abbrev values : Values
values = record {
  concurrency = pos 8;
  max_connections = pos 0;
  copy_buffers_size = pos 300;
  disable_header_names_normalizing = true;
  disable_keepalive = false;
  disable_pre_parse_multipart_form = false;
  get_only = false;
  log_all_errors = true;
  io_buffers_size = pos 4096;
  idle_timeout = pos second;
  dialer_timeout = pos 7;
  max_connections_per_ip = pos 0;
  max_request_body_size = pos 100;
  max_requests_per_conn = pos 0;
  metrics_addr = codes ":7070";
  proxy_addr = codes ":8080";
  no_default_content_type = false;
  no_default_date = false;
  no_default_server_header = true;
  read_buffer_size = pos 0;
  write_buffer_size = pos 0;
  read_timeout = pos 0;
  write_timeout = pos 0;
  reduce_memory_usage = true;
  secure_error_log_message = true;
  upstreams = [];
  tls_ca_file = [];
  tls_enabled = true;
  tls_insecure_skip_verify = false;
  tls_server_certificate_pem_file = codes "c";
  tls_server_enabled = false;
  tls_server_key_pem_file = codes "k";
  tls_server_name = codes "n";
}

run_with-IsValid_example : IsValid (run_with disk refuse no_dialer values initial).0.settings
run_with-IsValid_example =
    run_with-IsValid disk refuse no_dialer values initial default_settings-IsValid

abbrev server_tls : TlsConfig
server_tls = record empty_tls_config {
  certificates = 5 ∷ [];
  server_name = codes "n";
  min_version = version_tls12;
}

abbrev server : Server
server = record (plain_server refuse values) { tls = some server_tls }

-- The server flag is false, and the server has a TLS configuration.
started :
    run_with disk refuse no_dialer values initial
    ≡ ((run_with disk refuse no_dialer values initial).0, ok server)
unfolding run_with set_tls plain_server new_tls_config str_eq
started = refl

served_tls_example :
    (true ≡ true)
    × (str_eq (codes "n") [] ≡ false)
    × ((disk.load_key_pair (codes "c") (codes "k")).1 ≡ none)
    × (server_tls.certificates ≡ 5 ∷ [])
    × (server_tls.server_name ≡ codes "n")
    × (server_tls.min_version ≡ version_tls12)
served_tls_example =
    served_tls disk refuse no_dialer values initial
      (run_with disk refuse no_dialer values initial).0 server server_tls started refl

-- An empty command line.
abbrev bare : FlagSet
bare = record {
  parse_error = none;
  int_flag = λ name d. d;
  duration_flag = λ name d. d;
  bool_flag = λ name d. d;
  string_flag = λ name d. d;
}

bare-NoFlags : NoFlags bare
bare-NoFlags = record {
  no_error = refl;
  default_int = λ name d. refl;
  default_duration = λ name d. refl;
  default_bool = λ name d. refl;
  default_string = λ name d. refl;
}

run-defaults_example :
    (q : PoolState) × (s : Server) × (run bare disk refuse no_dialer initial ≡ some (q, ok s))
    × (q.settings ≡ default_settings)
    × (q.tls_config ≡ none)
    × (s.tls ≡ none)
    × (s.handler.keys ≡ [])
run-defaults_example = run-defaults bare disk refuse no_dialer bare-NoFlags

-- A command line with two upstreams.
abbrev two : FlagSet
two = record bare {
  string_flag = λ name d.
      if str_eq name (codes "upstreams")
      then codes "http://a:80" ++ joined_tail (codes "https://b" ∷ [])
      else d;
}

abbrev read_url : Str → Option Url
read_url s = some (record { scheme = codes "http"; hostname = codes "a"; port = [] })

two-Clean : All (Clean (valid read_url)) (codes "http://a:80" ∷ codes "https://b" ∷ [])
unfolding trim_space has_prefix
two-Clean = (
  record { known = refl; single = refl; trimmed = refl; parses = refl },
  (record { known = refl; single = refl; trimmed = refl; parses = refl }, tt),
)

-- Neither server can listen, and main ends by the error of the proxy's.
no_listener :
    main disk (λ a. some eof) (λ s. some eof) bare refuse no_dialer initial
    ≡ record { exit = fatal eof; may_log = some (codes "metrics server error: EOF") }
unfolding main parse_flags listed run_with serve_metrics set_tls str_eq
no_listener = refl
