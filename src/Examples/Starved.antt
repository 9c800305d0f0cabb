-- ===== src/Examples/Starved.antt =====
-- A service whose one upstream has its one connection leased by an answer with no bytes.
use fasthttpproxy.Common.{
  ℕ, ◌+◌, ◌≤◌, Bool-cases, true, false, inl, inr, none, some, List, [], ◌∷◌, map, ◌≡◌, refl, arith,
}
use fasthttpproxy.Common.Int.{ℤ, pos}
use fasthttpproxy.Common.Text.{Str, codes, str_eq}
use fasthttpproxy.Common.Net.{Conn}
use fasthttpproxy.Pool.State.{PoolState, empty_conn_pool, initial, update}
use fasthttpproxy.Pool.Conservation.{Holds}
use fasthttpproxy.Pool.Buffers.{release_bufio_reader}
use fasthttpproxy.Upstream.Upstreams.{upstream_of}
use fasthttpproxy.Upstream.Address.{parse_address}
use fasthttpproxy.Common.Result.{ok}
use fasthttpproxy.Proxy.State.{Handler, Env}
use fasthttpproxy.Proxy.Service.Lifetime.{empties, empties-le_max}
use fasthttpproxy.Proxy.Handler.{handle}
use fasthttpproxy.Proxy.Service.{Service, Stream, Event, arrive, reads, enter, occur_all}
use fasthttpproxy.Proxy.Service.Emptied.{empty_at, stuck_with, Spent, never_recovers}
use fasthttpproxy.Proxy.Service.Leases.{open_at, Sound}
use fasthttpproxy.Proxy.Service.Starved.{Ask, arrival, Blocked, starved}
use fasthttpproxy.Examples.Requests.{
  toy, toy_laws, good_env, request, upload, no_source, drip, one_read,
}
use fasthttpproxy.Examples.Upstreams.{refuse}

abbrev wire : Conn
wire = record { id = 7; tls = none }

abbrev host : Str
host = codes "http://a"

-- Its connection is leased, and no other is allowed.
abbrev leased : PoolState
leased = record initial {
  settings = record (initial.settings) { max_upstream_connections_per_host = pos 1 };
  upstream_pool = update (λ _. empty_conn_pool) host (record { free = []; count = pos 1 });
}

abbrev no_bytes : Stream
no_bytes = record {
  reader = record {
    connection = wire;
    reader = record { size = pos 4096; target = wire; waiting = [] };
    size = pos 0;
    started = true;
    start = 5;
  };
  upstream_addr = host;
  connection = wire;
  returned = false;
  remain = pos 0;
  on_done = some release_bufio_reader;
}

abbrev stuck : Service
stuck = record {
  pool = leased;
  upstreams = record { m = λ _. none; keys = upstream_of refuse host ∷ [] };
  streams = no_bytes ∷ [];
}

leased-Holds : (a : Str) → Holds 1 (open_at a stuck.streams) a leased
unfolding open_at update
leased-Holds a = elim (Bool-cases (str_eq host a)) [
  | inl here ↦
      rw here
        (record { is_limit = refl; fits = omega arith; counted = refl; bounded = omega arith })
  | inr there ↦
      rw there
        (record { is_limit = refl; fits = omega arith; counted = refl; bounded = omega arith })
]

stuck-Blocked : Blocked 1 stuck
unfolding open_at upstream_of str_eq parse_address
stuck-Blocked = record {
  sound = record { finishes = (refl, tt); holds = leased-Holds };
  some_listed = λ h. cc;
  full = (refl, tt);
}

abbrev asked : List (Ask toy ℕ ℕ)
asked = (good_env, request, 200) ∷ (good_env, upload, 200) ∷ []

starved_example :
    (s : Service) × (occur_all toy no_source (map (arrival toy) asked) stuck ≡ some s)
    × (s.streams ≡ stuck.streams)
    × (h : Handler toy) × (handle toy no_source good_env request (enter toy 200 s) ≡ some h)
    × (h.response ≡ 502)
    × (h.body_stream ≡ none)
starved_example =
    starved toy toy_laws 1 no_source asked good_env request 200 stuck
      ((λ n h. omega arith), ((λ n h. omega arith), tt)) (λ n h. omega arith) stuck-Blocked

stuck-Spent : Spent 1 stuck
unfolding empty_at stuck_with upstream_of str_eq parse_address
stuck-Spent = record {
  sound = stuck-Blocked.sound;
  some_listed = stuck-Blocked.some_listed;
  all_empty = (refl, tt);
}

-- Requests, and a read of the answer.
abbrev traffic : List (Event toy ℕ ℕ)
traffic = arrive good_env upload 200 ∷ reads drip 6 0 one_read ∷ arrive good_env request 200 ∷ []

never_recovers_example :
    (s : Service) × (occur_all toy no_source traffic stuck ≡ some s)
    × (h : Handler toy) × (handle toy no_source good_env request (enter toy 200 s) ≡ some h)
    × (h.response ≡ 502)
    × (h.body_stream ≡ none)
never_recovers_example =
    never_recovers 1 toy toy_laws no_source traffic good_env request 200 stuck
      ((λ n h. omega arith), (tt, ((λ n h. omega arith), tt))) (λ n h. omega arith) stuck-Spent

-- A service with nothing open, and the same limit.
abbrev fresh_service : Service
fresh_service = record {
  pool = record initial {
    settings = record (initial.settings) { max_upstream_connections_per_host = pos 1 };
  };
  upstreams = stuck.upstreams;
  streams = [];
}

fresh-Sound : Sound 1 fresh_service
unfolding open_at
fresh-Sound = record {
  finishes = tt;
  holds =
      λ a. record { is_limit = refl; fits = omega arith; counted = refl; bounded = omega arith };
}

-- Two requests for answers of length 0, the first one read to its end.
abbrev no_length : Env (ℕ × ℤ) ℕ
no_length = record good_env { response_header = ok (204, pos 0) }

abbrev visits : List (Event toy ℕ ℕ)
visits = arrive no_length request 200 ∷ reads drip 6 0 one_read ∷ arrive no_length request 200 ∷ []

empties-le_max_example :
    (s : Service) × (occur_all toy no_source visits fresh_service ≡ some s)
    × (empties toy no_source host visits fresh_service + empty_at host fresh_service.streams ≤ 1)
empties-le_max_example =
    empties-le_max toy no_source 1 visits fresh_service host (tt, (tt, (tt, tt))) fresh-Sound
