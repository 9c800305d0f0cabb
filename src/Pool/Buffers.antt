-- ===== src/Pool/Buffers.antt =====
-- internal/pool/bufio_pool.go: the pools of bufio.Reader and bufio.Writer, their counters and gauges.
use fasthttpproxy.Common.{ℕ, Option, none, some, List, [], ◌∷◌, if◌then◌else◌}
use fasthttpproxy.Common.Int.{ℤ, pos, negsuc, ◌+ℤ◌, ltb_ℤ, int64}
use fasthttpproxy.Common.Net.{Conn}
use fasthttpproxy.Pool.State.{PoolState}

-- MetricTrend: Down is -1, Up is 1.
pub data MetricTrend : Type 0 where
  down up : MetricTrend

-- 1 * int64(value) and -1 * int64(value)
abbrev pub trend : MetricTrend → ℤ
trend down = negsuc 0
trend up = pos 1

abbrev pub opposite : MetricTrend → ℤ
opposite down = pos 1
opposite up = negsuc 0

-- The two gauges of the readers are set to their counters; so for the writers and the pipe buffers.
abbrev pub publish_reader : PoolState → PoolState
publish_reader p = record p {
  metrics = record (p.metrics) {
    bufio_reader_pool_in_use = p.counters.reader_in_use;
    bufio_reader_pool_idle = p.counters.reader_idle;
  };
}

abbrev pub publish_writer : PoolState → PoolState
publish_writer p = record p {
  metrics = record (p.metrics) {
    bufio_writer_pool_in_use = p.counters.writer_in_use;
    bufio_writer_pool_idle = p.counters.writer_idle;
  };
}

-- metricsBufIOReaderNew
unfoldable pub metrics_bufio_reader_new : PoolState → PoolState
metrics_bufio_reader_new p = publish_reader (record p {
  counters = record (p.counters) { reader_in_use = int64 (p.counters.reader_in_use +ℤ pos 1) };
})

-- metricsBufIOReader
unfoldable pub metrics_bufio_reader : MetricTrend → PoolState → PoolState
metrics_bufio_reader value p = publish_reader (record p {
  counters = record (p.counters) {
    reader_in_use = int64 (p.counters.reader_in_use +ℤ trend value);
    reader_idle = int64 (p.counters.reader_idle +ℤ opposite value);
  };
})

-- metricsBufIOWriterNew
unfoldable pub metrics_bufio_writer_new : PoolState → PoolState
metrics_bufio_writer_new p = publish_writer (record p {
  counters = record (p.counters) { writer_in_use = int64 (p.counters.writer_in_use +ℤ pos 1) };
})

-- metricsBufIOWriter, whose body names the counters and the gauges of the readers.
unfoldable pub metrics_bufio_writer : MetricTrend → PoolState → PoolState
metrics_bufio_writer value p = publish_reader (record p {
  counters = record (p.counters) {
    reader_in_use = int64 (p.counters.reader_in_use +ℤ trend value);
    reader_idle = int64 (p.counters.reader_idle +ℤ opposite value);
  };
})

-- A bufio.Reader or bufio.Writer: the size of its buffer, the connection that it works on, and the
-- bytes that wait in the buffer.
pub record Buffered : Type 0 where
  pub size : ℤ
  pub target : Conn
  pub waiting : List ℕ

-- bufio.NewReaderSize and bufio.NewWriterSize, with the sizes that package bufio puts in place of
-- ones that are too small.
abbrev pub new_reader_size : Conn → ℤ → Buffered
new_reader_size c size = record {
  size = if ltb_ℤ size (pos 16) then pos 16 else size;
  target = c;
  waiting = [];
}

abbrev pub new_writer_size : Conn → ℤ → Buffered
new_writer_size c size = record {
  size = if ltb_ℤ size (pos 1) then pos 4096 else size;
  target = c;
  waiting = [];
}

-- Reset
abbrev pub reset : Conn → Buffered → Buffered
reset c b = record b { target = c; waiting = [] }

-- AcquireBufIOReader; `got` is what the sync.Pool returned, which is the runtime's choice.
unfoldable pub acquire_bufio_reader : Option Buffered → Conn → PoolState → PoolState × Buffered
unfolding metrics_bufio_reader_new metrics_bufio_reader
acquire_bufio_reader none c p =
    (metrics_bufio_reader_new p, new_reader_size c p.settings.default_buf_size)
acquire_bufio_reader (some b) c p = (metrics_bufio_reader up p, reset c b)

-- ReleaseBufIOReader
unfoldable pub release_bufio_reader : PoolState → PoolState
unfolding metrics_bufio_reader
release_bufio_reader p = metrics_bufio_reader down p

-- AcquireBufIOWriter
unfoldable pub acquire_bufio_writer : Option Buffered → Conn → PoolState → PoolState × Buffered
unfolding metrics_bufio_writer_new metrics_bufio_writer
acquire_bufio_writer none c p =
    (metrics_bufio_writer_new p, new_writer_size c p.settings.default_buf_size)
acquire_bufio_writer (some b) c p = (metrics_bufio_writer up p, reset c b)

-- ReleaseBufIOWriter
unfoldable pub release_bufio_writer : PoolState → PoolState
unfolding metrics_bufio_writer
release_bufio_writer p = metrics_bufio_writer down p

-- A call on the buffer pools.
pub data Use : Type 0 where
  acquire_reader : Option Buffered → Conn → Use
  release_reader : Use
  acquire_writer : Option Buffered → Conn → Use
  release_writer : Use

unfoldable pub use_one : Use → PoolState → PoolState
unfolding acquire_bufio_reader release_bufio_reader acquire_bufio_writer release_bufio_writer
use_one (acquire_reader got c) p = (acquire_bufio_reader got c p).0
use_one release_reader p = release_bufio_reader p
use_one (acquire_writer got c) p = (acquire_bufio_writer got c p).0
use_one release_writer p = release_bufio_writer p

unfoldable pub use_all : List Use → PoolState → PoolState
use_all [] p = p
use_all (u ∷ us) p = use_all us (use_one u p)
