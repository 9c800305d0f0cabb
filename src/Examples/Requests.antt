-- ===== src/Examples/Requests.antt =====
-- Whole requests at concrete inputs, over a small model of package fasthttp.
use fasthttpproxy.Common.{
  ℕ, zero, suc, ◌≤◌, List, ◌-◌, true, Option, none, some, [], ◌∷◌, ◌≡◌, ◌≢◌, refl, arith, length,
  All,
}
use fasthttpproxy.Common.Int.{ℤ, pos}
use fasthttpproxy.Common.Text.{Str, codes}
use fasthttpproxy.Common.Result.{ok, eof}
use fasthttpproxy.Common.Net.{Conn, Reader, Reading}
use fasthttpproxy.Pool.State.{initial}
use fasthttpproxy.Pool.Conservation.{Holds}
use fasthttpproxy.Upstream.Address.{Url, with_scheme}
use fasthttpproxy.Upstream.Upstreams.{no_upstreams, upstream_of}
use fasthttpproxy.Proxy.Fasthttp.{Fasthttp, StatusLaws}
use fasthttpproxy.Proxy.State.{Handler, Request, streamed, fixed, Env}
use fasthttpproxy.Proxy.Handler.{resolve_upstream, handle}
use fasthttpproxy.Proxy.Resolve.{Goes, resolve_each, first_host_wins}
use fasthttpproxy.Proxy.Overwritten.{Stored, Upstreamed, invalid_host_answered}
use fasthttpproxy.Proxy.Outcome.{Outcome}
use fasthttpproxy.Proxy.Verdict.{handle-Outcome}
use fasthttpproxy.Proxy.Served.{serve, Served, serve-Served}
use fasthttpproxy.Readers.PoolReader.{Call}
use fasthttpproxy.Pool.Buffers.{Buffered}

abbrev wire : Conn
wire = record { id = 7; tls = none }

-- A response is its status, a header its status and content length.
abbrev pub toy : Fasthttp
toy = record {
  Response = ℕ;
  Header = ℕ × ℤ;
  error = λ m c r. c;
  set_status_code = λ c r. c;
  status_code = λ r. r;
  copy_header = λ h r. h.0;
  flush_header = λ r. r;
  stream = λ n r. r;
  header_status = λ h. h.0;
  content_length = λ h. h.1;
  message = λ e. codes "error";
}

pub toy_laws : StatusLaws toy
toy_laws = record {
  status_code-error = λ m c r. refl;
  status_code-set = λ c r. refl;
  status_code-copy = λ h r. refl;
  status_code-flush = λ r. refl;
  status_code-stream = λ n r. refl;
}

abbrev refuse : Str → Option Url
refuse s = none

abbrev pub fresh : Handler toy
fresh = record {
  pool = initial;
  upstreams = no_upstreams;
  response = 200;
  upstream_address = [];
  body_stream = none;
}

cons-ne-nil : {a : ℕ} {l : Str} → a ∷ l ≢ []
cons-ne-nil h = cc

-- Two later requests, with other Hosts.
abbrev later : List ((ℕ → ℕ) × Str × Handler toy)
later = ((λ n. 0), codes "b", fresh) ∷ ((λ n. n - 1), [], fresh) ∷ []

first_host_wins_example :
    let x = resolve_upstream toy refuse (λ n. n - 1) (codes "a") fresh in
    (x.1 ≡ true)
    × (x.0.upstream_address ≡ with_scheme (codes "a"))
    × (x.0.upstreams.keys ≡ upstream_of refuse (with_scheme (codes "a")) ∷ [])
    × All
        (Goes toy (with_scheme (codes "a")) x.0.upstreams)
        (resolve_each toy refuse later x.0.upstreams)
first_host_wins_example =
    first_host_wins toy refuse (λ n. n - 1) (codes "a") fresh later refl cons-ne-nil
      ((λ n h. h), ((λ n h. omega (arith, h)), tt))

unfoldable pub no_source : Reader ℕ
no_source = record { read = λ k s. (([], some eof), s); read_fits = λ k s. omega arith }

abbrev env : Env (ℕ × ℤ) ℕ
env = record {
  fasthttp_dial = λ a. ok wire;
  parse = refuse;
  intn = λ n. n - 1;
  now = 5;
  idle_close_error = none;
  close_error = none;
  got_writer = none;
  got_reader = none;
  header_write = none;
  flush = none;
  write = λ b w. (none, w);
  link = 0;
  body_write = λ b. (length b, none);
  fuel = 9;
  copy_buffer = 64;
  write_duration = 1;
  response_header = ok (503, pos 2);
}

abbrev pub request : Request ℕ
request = record { host = codes "a"; body = fixed (1 ∷ 2 ∷ []) }

-- One whose body is a stream, which ends at its first read.
abbrev pub upload : Request ℕ
upload = record { host = codes "a"; body = streamed 0 }

handle-Outcome_example :
    (h : Handler toy) × (handle toy no_source env request fresh ≡ some h)
    × Outcome toy no_source env request fresh h
handle-Outcome_example = handle-Outcome toy toy_laws no_source env request fresh tt

invalid_host_answered_example :
    let x = resolve_upstream toy env.parse env.intn request.host fresh in
    (x.1 ≡ true)
    × (x.0.response ≡ 400)
    × Stored (with_scheme request.host) x.0.upstreams
    × ((h' : Handler toy) × (handle toy no_source env request fresh ≡ some h')
        × (h'.upstream_address ≡ with_scheme request.host)
        × Upstreamed toy no_source env h')
invalid_host_answered_example =
    invalid_host_answered toy toy_laws no_source env request fresh refl cons-ne-nil refl tt

pub fresh-Holds : (a : Str) → Holds 100 0 a fresh.pool
fresh-Holds a = record {
  is_limit = refl;
  fits = omega arith;
  counted = refl;
  bounded = omega arith;
}

unfoldable pub give_one : ℕ → Reading
give_one zero = ([], none)
give_one (suc k) = (1 ∷ [], none)

pub give_one_fits : (k : ℕ) → length (give_one k).0 ≤ k
unfolding give_one
give_one_fits zero = omega arith
give_one_fits (suc k) = omega arith

-- The reader of an answer of which every read gives one byte.
abbrev pub drip : Reader Buffered
drip = record { read = λ k s. (give_one k, s); read_fits = λ k s. give_one_fits k }

abbrev pub good_env : Env (ℕ × ℤ) ℕ
good_env = record env { response_header = ok (200, pos 2) }

abbrev pub one_read : Call
one_read = record { buffer = 4; now = 9; close_error = none }

serve-Served_example :
    (r : List ℕ × Handler toy) × (serve toy no_source good_env drip 6 request
        (one_read ∷ one_read ∷ [])
        fresh
      ≡ some r)
    × Served toy no_source good_env drip 6 100 (λ _. 0) r
serve-Served_example =
    serve-Served toy no_source good_env drip 6 100 (λ _. 0) request (one_read ∷ one_read ∷ []) fresh
      tt refl fresh-Holds
