-- ===== src/Start/Exit.antt =====
-- cmd/proxy/main.go: main, with the calls that listen, and serveMetrics.
use fasthttpproxy.Common.{Option, none, some, ◌++◌}
use fasthttpproxy.Common.Int.{ℤ}
use fasthttpproxy.Common.Text.{Str, codes}
use fasthttpproxy.Common.Result.{Error, Result, ok, err}
use fasthttpproxy.Common.Net.{Conn}
use fasthttpproxy.Pool.State.{PoolState}
use fasthttpproxy.Config.Flags.{FlagSet, parse_flags}
use fasthttpproxy.Config.Values.{Values}
use fasthttpproxy.Upstream.Address.{Url}
use fasthttpproxy.Upstream.Tls.{Files}
use fasthttpproxy.Start.Server.{Server, run_with}
use fasthttpproxy.Start.Main.{valid}

-- How main ends: in ParseFlags, by log.Fatal(err), or by its return.
pub data Exit : Type 0 where
  in_flags : Exit
  fatal : Error → Exit
  returned : Exit

abbrev pub exit_of : Option Error → Exit
exit_of none = returned
exit_of (some e) = fatal e

-- With what serveMetrics may log. It runs in a goroutine of its own that nothing waits for: the program
-- can end before it has logged this, and before it listens.
pub record Outcome : Type 0 where
  pub exit : Exit
  pub may_log : Option Str

-- `metrics_listen` is fasthttp.ListenAndServe with the handler of the metrics, `listen` the method
-- ListenAndServe of the server.
module _ (files : Files) (metrics_listen : Str → Option Error)
    (listen : Server → Option Error) where
  -- serveMetrics
  unfoldable pub serve_metrics : Str → Option Str
  serve_metrics addr = elim (metrics_listen addr) [
    | none ↦ none
    | some e ↦ some (codes "metrics server error: " ++ files.message e)
  ]

  -- What runWith does once it has made the server: what the goroutine of serveMetrics may log, and the
  -- error that runWith returns.
  unfoldable pub listened : Values → Result Server → Option Str × Option Error
  unfolding serve_metrics
  listened v (err e) = (none, some e)
  listened v (ok s) = (serve_metrics v.metrics_addr, listen s)

  module _ (fs : FlagSet) (parse : Str → Option Url) (http_dialer : ℤ → Str → Result Conn) where
    unfoldable pub main : PoolState → Outcome
    unfolding listened
    main p = elim (parse_flags fs (valid parse)) [
      | none ↦ record { exit = in_flags; may_log = none }
      | some v ↦
          let (may_log, e) = listened v (run_with files parse http_dialer v p).1 in
          record { exit = exit_of e; may_log = may_log }
    ]
