-- ===== src/Examples/Races.antt =====
-- Goroutines that interleave on a pool, at concrete inputs.
use fasthttpproxy.Common.{ℕ, ◌<◌, none, some, [], ◌∷◌, ◌≡◌, ◌≢◌, refl, arith}
use fasthttpproxy.Common.Int.{pos, wrap}
use fasthttpproxy.Common.Text.{Str, codes}
use fasthttpproxy.Common.Threads.{assign}
use fasthttpproxy.Common.Result.{Result, ok}
use fasthttpproxy.Common.Net.{Conn}
use fasthttpproxy.Pool.State.{initial, default_settings}
use fasthttpproxy.Pool.Upstream.{
  acquire_upstream_connection, release_upstream_connection, close_and_drop_upstream_connection,
}
use fasthttpproxy.Pool.Race.{
  outside, testing, tested, dialing, holding, find_none, pass, raise, connect, put_back, add,
  set_free, own, System, goes, start, Reach, here, next,
}
use fasthttpproxy.Pool.Race.Counting.{Tally, Reach-Tally}
use fasthttpproxy.Pool.Race.Exclusive.{Exclusive, Reach-Exclusive}
use fasthttpproxy.Pool.Race.Overrun.{limit_overrun}
use fasthttpproxy.Pool.Race.Calls.{shared_of, outcome, acquiring, releasing, dropping, Run}
use fasthttpproxy.Pool.Race.Solo.{calls-Run}
use fasthttpproxy.Pool.Dial.{dial}

abbrev wire : Conn
wire = record { id = 7; tls = none }

-- The first goroutine looks for a connection, passes the test, counts one and dials it.
abbrev looked : System
looked = record { shared = start.shared; pc = assign start.pc 0 testing }

abbrev may_dial : System
may_dial = record { shared = looked.shared; pc = assign looked.pc 0 tested }

abbrev raised : System
raised = record { shared = add (pos 1) may_dial.shared; pc = assign may_dial.pc 0 dialing }

abbrev connected : System
connected = record { shared = raised.shared; pc = assign raised.pc 0 (holding wire) }

-- Then it puts it back, while the second one has found the pool empty.
abbrev waited : System
waited = record { shared = connected.shared; pc = assign connected.pc 1 testing }

abbrev returned : System
returned = record {
  shared = set_free (record { conn = wire; returned_at = 9 } ∷ []) waited.shared;
  pc = assign waited.pc 0 outside;
}

nothing_owned : (i : ℕ) → own (raised.pc i) ≢ some wire
unfolding assign
nothing_owned i h = ground arith

connected-Reach : Reach 2 default_settings connected
unfolding assign wrap
connected-Reach =
    next
      (next
        (next (next here (goes 0 (omega arith) (find_none refl)))
          (goes 0 (omega arith) (pass refl)))
        (goes 0 (omega arith) raise))
      (goes 0 (omega arith)
        (connect (record { not_idle = tt; not_owned = nothing_owned; not_closed = tt })))

returned-Reach : Reach 2 default_settings returned
unfolding assign wrap
returned-Reach =
    next (next connected-Reach (goes 1 (omega arith) (find_none refl)))
      (goes 0 (omega arith) (put_back 9 refl))

Reach-Tally_example : Tally 2 100 returned.shared returned.pc
Reach-Tally_example = Reach-Tally (omega arith) refl returned-Reach

Reach-Exclusive_example : Exclusive (record { conn = wire; returned_at = 9 } ∷ []) [] returned.pc
Reach-Exclusive_example = Reach-Exclusive returned-Reach

-- Three goroutines under a limit of 1.
limit_overrun_example :
    (s : System) × Reach 3 (record default_settings { max_upstream_connections_per_host = pos 1 }) s
    × (s.shared.pool.count ≡ pos 3)
    × ((i : ℕ) → i < 3 → s.pc i ≡ holding (record { id = i; tls = none }))
limit_overrun_example =
    limit_overrun 3 1 (record default_settings { max_upstream_connections_per_host = pos 1 }) refl
      (omega arith) (omega arith) (omega arith)

abbrev dialer : Str → Result Conn
dialer addr = ok wire

abbrev host : Str
host = codes "a:80"

calls-Run_example :
    let x = acquire_upstream_connection dialer 5 none host initial in
    let freed = release_upstream_connection 5 none host wire initial in
    let dropped = close_and_drop_upstream_connection none host wire initial in
    Run
      (acquiring 5 (dial dialer initial host))
      default_settings
      (shared_of host initial)
      outside
      (shared_of host x.0)
      (outcome x.1)
    × Run
        (releasing 5)
        default_settings
        (shared_of host initial)
        (holding wire)
        (shared_of host freed)
        outside
    × Run dropping default_settings
        (shared_of host initial)
        (holding wire)
        (shared_of host dropped)
        outside
calls-Run_example = calls-Run dialer 5 none host wire initial
