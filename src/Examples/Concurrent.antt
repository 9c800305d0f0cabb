-- ===== src/Examples/Concurrent.antt =====
-- Two requests at the same time, at concrete inputs.
use fasthttpproxy.Common.{sym, subst, ℕ, zero, suc, some, none, [], ◌≡◌, ◌<◌, refl, arith}
use fasthttpproxy.Common.Threads.{gathered, assign}
use fasthttpproxy.Common.Int.{wrap, pos, ◌+ℤ◌}
use fasthttpproxy.Common.Text.{Str, str_eq, codes}
use fasthttpproxy.Common.Text.{has_prefix}
use fasthttpproxy.Common.Result.{ok}
use fasthttpproxy.Common.Net.{Conn}
use fasthttpproxy.Pool.Dial.{dial, dial_plain}
use fasthttpproxy.Pool.State.{PoolState, initial, update}
use fasthttpproxy.Pool.Upstream.{acquire_upstream_connection, dial_new, dialed, add_count}
use fasthttpproxy.Upstream.Address.{with_scheme, parse_address}
use fasthttpproxy.Pool.Places.{gone, Apart}
use fasthttpproxy.Pool.Placing.{free_of, free_of-add}
use fasthttpproxy.Upstream.Upstreams.{no_upstreams, random, append, upstream_of}
use fasthttpproxy.Pool.PipeCopy.{pipe_copy}
use fasthttpproxy.Proxy.Handler.{
  use_host, resolve_upstream, acquire_upstream_conn, write_request_headers, write_request_body,
  read_response_headers, handle,
}
use fasthttpproxy.Proxy.Concurrent.{
  Shared, Phase, resolving, Task, System, calls, reads, Runs, start, next, advance, next_call, view,
}
use fasthttpproxy.Proxy.Concurrent.Answers.{Fits}
use fasthttpproxy.Proxy.Concurrent.Places.{Unshared, MayDial, Runs-Unshared}
use fasthttpproxy.Proxy.Concurrent.Alone.{advance_times, standing, left, advance_times-handle}
use fasthttpproxy.Examples.Requests.{toy, good_env, request, upload, drip, one_read, no_source}

abbrev pub empty : Shared
empty = record { pool = initial; upstreams = no_upstreams }

abbrev pub other_wire : Conn
other_wire = record { id = 8; tls = none }

abbrev pub goroutine : Phase toy ℕ → Task toy ℕ ℕ
goroutine p = record { env = good_env; response = 200; address = []; phase = p }

abbrev pub asking : ℕ → Task toy ℕ ℕ
asking zero = goroutine (resolving request)
asking (suc i) = record (goroutine (resolving upload)) {
  env = record good_env { fasthttp_dial = λ a. ok other_wire };
}

abbrev pub quiet : System toy ℕ ℕ
quiet = record { shared = empty; task = asking }

-- The system after the next call of a goroutine.
unfoldable call : ℕ → System toy ℕ ℕ → System toy ℕ ℕ
call i s = elim (advance toy no_source s.shared (s.task i)) [
  | none ↦ s
  | some (m, t) ↦ record { shared = m; task = assign s.task i t }
]

called :
    (i : ℕ) {s u : System toy ℕ ℕ}
    → i < 2
    → MayDial toy 2 u i
    → (x : Shared × Task toy ℕ ℕ) × (advance toy no_source u.shared (u.task i) ≡ some x)
    → Runs toy no_source (MayDial toy 2) 2 s u
    → Runs toy no_source (MayDial toy 2) 2 s (call i u)
unfolding call
called i lt may (x, e) r = rw (e, call) (next r (calls i lt may e))

-- What the second goroutine dials, whatever the scheme.
dials_other :
    (p : PoolState) (a : Str) (c : Conn)
    → p.tls_config ≡ none
    → p.custom_dial ≡ none
    → dial (λ b. ok other_wire) p a ≡ ok c
    → c.id ≡ 8
unfolding dial dial_plain
dials_other p a c tls custom got = ground (arith, got, tls, custom)

-- Both have resolved their upstreams, and the first has acquired its connection.
abbrev one_acquired : System toy ℕ ℕ
one_acquired = call 0 (call 1 (call 0 quiet))

first_acquires : Runs toy no_source (MayDial toy 2) 2 quiet one_acquired
unfolding call advance next_call resolve_upstream use_host random assign append upstream_of
    with_scheme has_prefix str_eq gathered parse_address
first_acquires =
    called 0 (omega arith)
      (λ a c got. record { not_idle = λ a. tt; not_taken = tt; not_closed = tt }) (_, refl)
      (called 1 (omega arith) tt (_, refl) (called 0 (omega arith) tt (_, refl) start))

none_idle : (i : ℕ) (b : Str) → Apart i (free_of one_acquired.shared.pool b)
unfolding call advance next_call resolve_upstream use_host random assign append upstream_of
    with_scheme has_prefix str_eq acquire_upstream_conn acquire_upstream_connection dial_new dialed
    dial dial_plain gathered wrap parse_address update
none_idle i b = subst (λ f. Apart i (f b)) (sym (free_of-add initial (codes "http://a") (pos 1))) tt

both_acquire : Runs toy no_source (MayDial toy 2) 2 quiet (call 1 one_acquired)
unfolding call advance next_call resolve_upstream use_host random assign append upstream_of
    with_scheme has_prefix str_eq acquire_upstream_conn acquire_upstream_connection dial_new dialed
    dial dial_plain add_count update parse_address gathered wrap
both_acquire =
    called 1 (omega arith)
      (λ a c got. record {
        not_idle = none_idle c.id;
        not_taken =
            ((λ e. omega (arith, dials_other one_acquired.shared.pool a c refl refl got)), tt);
        not_closed = tt;
      })
      (_, refl) first_acquires

-- Both write their headers and bodies, in turn.
abbrev both_sent : System toy ℕ ℕ
both_sent = call 0 (call 1 (call 1 (call 0 (call 1 one_acquired))))

both_send : Runs toy no_source (MayDial toy 2) 2 quiet both_sent
unfolding call advance next_call resolve_upstream use_host random assign append upstream_of
    with_scheme has_prefix str_eq acquire_upstream_conn acquire_upstream_connection dial_new dialed
    dial dial_plain add_count update parse_address gathered wrap ◌+ℤ◌ write_request_headers
    write_request_body pipe_copy no_source
both_send =
    called 0 (omega arith) tt (_, refl)
      (called 1 (omega arith) tt (_, refl)
        (called 1 (omega arith) tt (_, refl) (called 0 (omega arith) tt (_, refl) both_acquire)))

-- The first answers, and its client reads while the second is still to read its response header.
one_answers : Runs toy no_source (MayDial toy 2) 2 quiet (call 0 (call 0 both_sent))
unfolding call advance next_call resolve_upstream use_host random assign append upstream_of
    with_scheme has_prefix str_eq acquire_upstream_conn acquire_upstream_connection dial_new dialed
    dial dial_plain add_count update parse_address gathered wrap ◌+ℤ◌ write_request_headers
    write_request_body pipe_copy no_source read_response_headers
one_answers = called 0 (omega arith) tt (_, refl) (called 0 (omega arith) tt (_, refl) both_send)

one_read_on : (s : System toy ℕ ℕ) × Runs toy no_source (MayDial toy 2) 2 quiet s
one_read_on = (_, next one_answers (reads 0 drip 6 one_read (omega arith) refl))

asking-Fits : (i : ℕ) → Fits toy (asking i).phase (asking i).address
asking-Fits zero = tt
asking-Fits (suc i) = tt

none_taken : Unshared toy 2 quiet
unfolding gathered
none_taken = record {
  fits = asking-Fits;
  placed = (
    λ i. gone,
    record {
      idle = λ a. record { here = tt; once = tt };
      held = record { here = tt; once = tt };
      shut = record { here = tt; once = tt };
    },
  );
}

Runs-Unshared_example : Unshared toy 2 one_read_on.0
Runs-Unshared_example = Runs-Unshared toy no_source one_read_on.1 none_taken

advance_times-handle_example :
    advance_times toy ℕ no_source 6 (standing toy ℕ no_source empty (asking 0) (resolving request))
    ≡ left toy ℕ no_source
        (asking 0)
        (handle toy no_source good_env request (view toy empty (asking 0)))
advance_times-handle_example = advance_times-handle toy ℕ no_source request empty (asking 0)
