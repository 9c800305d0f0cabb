-- ===== src/Examples/Schedules.antt =====
-- Two requests under a scheduler, at concrete inputs.
use fasthttpproxy.Common.{ℕ, zero, suc, some, none, List, [], ◌∷◌, ◌≡◌, ◌≢◌, ◌<◌, All, refl, arith}
use fasthttpproxy.Common.Text.{codes}
use fasthttpproxy.Common.Result.{eof}
use fasthttpproxy.Pool.State.{initial}
use fasthttpproxy.Upstream.Address.{Upstream}
use fasthttpproxy.Upstream.Upstreams.{Upstreams}
use fasthttpproxy.Pool.PipeCopy.{ends}
use fasthttpproxy.Proxy.Concurrent.{System, Runs}
use fasthttpproxy.Proxy.Concurrent.Calls.{BodyEnds, IsHandled}
use fasthttpproxy.Proxy.Concurrent.Choice.{IntnFits, Sends, Confined, Runs-Confined}
use fasthttpproxy.Proxy.Concurrent.Progress.{whose, Turn, to_call, to_read, turns, turns-IsHandled}
use fasthttpproxy.Examples.Requests.{toy, drip, one_read, no_source}
use fasthttpproxy.Examples.Concurrent.{asking}

-- The first goroutine makes all its calls while the second makes two.
abbrev schedule : List Turn
schedule =
    to_call 0
    ∷ to_call 1
    ∷ to_call 0
    ∷ to_call 0
    ∷ to_read 1 drip 6 one_read
    ∷ to_call 0
    ∷ to_call 0
    ∷ to_call 1
    ∷ to_call 0
    ∷ to_read 0 drip 7 one_read
    ∷ []

bodies_end : (i : ℕ) → BodyEnds toy no_source (asking i).phase (asking i).env
unfolding no_source
bodies_end zero = tt
bodies_end (suc i) = ([] ∷ [], eof, ends refl, omega arith)

schedule_fits : All (λ t. whose t < 2) schedule
schedule_fits = ground arith

-- One upstream is configured.
abbrev backend : Upstream
backend = record {
  address = codes "http://b";
  scheme = codes "http";
  host = codes "b";
  port = codes "80";
  tls_config = none;
}

abbrev backends : Upstreams
backends = record { m = λ a. none; keys = backend ∷ [] }

some_backend : backends.keys ≢ []
some_backend e = cc

abbrev configured : System toy ℕ ℕ
configured = record { shared = record { pool = initial; upstreams = backends }; task = asking }

configured_run :
    (u : System toy ℕ ℕ) × (turns toy no_source schedule configured ≡ some u)
    × Runs toy no_source (λ v j. Unit) 2 configured u
    × IsHandled toy (u.task 0).phase
configured_run =
    turns-IsHandled toy no_source 2 schedule configured 0 schedule_fits bodies_end (omega arith)

asking_intn : (i : ℕ) → IntnFits (asking i).env.intn
asking_intn zero n h = omega arith
asking_intn (suc i) n h = omega arith

asking_sends : (i : ℕ) → Sends toy backends (asking i).phase (asking i).address
asking_sends zero = tt
asking_sends (suc i) = tt

configured-Confined : Confined toy backends configured
configured-Confined = record { same_list = refl; fits = asking_intn; listed = asking_sends }

Runs-Confined_example : Confined toy backends configured_run.0
Runs-Confined_example =
    Runs-Confined toy backends no_source some_backend configured_run.2 configured-Confined
