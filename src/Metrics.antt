-- ===== src/Metrics.antt =====
-- internal/metrics/metrics.go: the gauges, counters and histograms of the process.
use fasthttpproxy.Common.{ℕ, List, []}
use fasthttpproxy.Common.Int.{ℤ, pos}

-- A gauge holds the integer that was last set, a counter the number of increments, a histogram its
-- observations, newest first.
pub record Metrics : Type 0 where
  pub bufio_reader_pool_in_use : ℤ
  pub bufio_reader_pool_idle : ℤ
  pub bufio_writer_pool_in_use : ℤ
  pub bufio_writer_pool_idle : ℤ
  pub pipe_copy_buf_pool_in_use : ℤ
  pub pipe_copy_buf_pool_idle : ℤ
  pub bufio_writer_flush_errors : ℕ
  pub read_errors : ℕ
  pub write_errors : ℕ
  pub close_errors : ℕ
  pub upstream_5xx : ℕ
  pub dial_errors : ℕ
  pub idle_drop_errors : ℕ
  pub request_body_write_duration : List ℕ
  pub response_body_read_duration : List ℕ

-- At the start of the process.
abbrev pub no_metrics : Metrics
no_metrics = record {
  bufio_reader_pool_in_use = pos 0;
  bufio_reader_pool_idle = pos 0;
  bufio_writer_pool_in_use = pos 0;
  bufio_writer_pool_idle = pos 0;
  pipe_copy_buf_pool_in_use = pos 0;
  pipe_copy_buf_pool_idle = pos 0;
  bufio_writer_flush_errors = 0;
  read_errors = 0;
  write_errors = 0;
  close_errors = 0;
  upstream_5xx = 0;
  dial_errors = 0;
  idle_drop_errors = 0;
  request_body_write_duration = [];
  response_body_read_duration = [];
}
