-- ===== src/Examples/Readings.antt =====
-- The readers of answers at concrete inputs.
use fasthttpproxy.Common.{
  ℕ, zero, suc, ◌+◌, ◌≤◌, ◌<◌, ltb, if◌then◌else◌, Bool, true, false, Option, none, some, List, [],
  ◌∷◌, ◌≡◌, refl, arith, length, ◌++◌,
}
use fasthttpproxy.Common.Int.{ℤ, pos, negsuc, ◌≤ℤ◌}
use fasthttpproxy.Common.Text.{Str, codes}
use fasthttpproxy.Common.Result.{ok, err, eof}
use fasthttpproxy.Common.Net.{Conn, Reader, Reading}
use fasthttpproxy.Pool.State.{PoolState, initial}
use fasthttpproxy.Pool.Buffers.{release_bufio_reader}
use fasthttpproxy.Readers.PoolReader.{PoolReader, Call, hand_back, read, read_all, new_pool_reader}
use fasthttpproxy.Readers.Held
use fasthttpproxy.Readers.Limited
use fasthttpproxy.Readers.Reused
use fasthttpproxy.Pool.Upstream.{acquire_upstream_connection}
use fasthttpproxy.Readers.Chunked
use fasthttpproxy.Readers.TimedReader.{TimedReader}
use fasthttpproxy.Readers.Observed.{Watched, durations, Delivers, watched, read_all-silent}
use fasthttpproxy.Readers.Content.{Content, Eager, read_all-content, read_all_complete}
use fasthttpproxy.Metrics.{no_metrics}

abbrev wire : Conn
wire = record { id = 7; tls = none }

abbrev host : Str
host = codes "a:80"

-- An upstream whose state is the number of bytes that it still sends, one to a read.
trickle : ℕ → ℕ → Reading × ℕ
trickle zero n = (([], none), n)
trickle (suc k) zero = (([], some eof), 0)
trickle (suc k) (suc n) = ((n ∷ [], none), n)

trickle_fits : (k n : ℕ) → length (trickle k n).0.0 ≤ k
unfolding trickle
trickle_fits zero n = omega arith
trickle_fits (suc k) zero = omega arith
trickle_fits (suc k) (suc n) = omega arith

abbrev source : Reader ℕ
source = record { read = trickle; read_fits = trickle_fits }

abbrev call : Call
call = record { buffer = 16; now = 3; close_error = none }

abbrev cleanup : Option (PoolState → PoolState)
cleanup = some release_bufio_reader

abbrev limited : PoolReader ℕ
limited = record {
  reader = 2;
  upstream_addr = host;
  connection = wire;
  returned = false;
  remain = pos 2;
  on_done = cleanup;
}

read_all-limited_example :
    let r =
      read_all source (call ∷ call ∷ []) (new_pool_reader 2 host wire (pos 2) cleanup) initial in
    Held.Progress 2 (new_pool_reader 2 host wire (pos 2) cleanup) initial (length r.0) r.1 r.2
read_all-limited_example =
    Limited.read_all-limited source 2 (call ∷ call ∷ []) 2 host wire cleanup initial (omega arith)

-- Both bytes are read, and the connection went back with the second.
limited_run :
    let r = read_all source (call ∷ call ∷ []) limited initial in
    (r.0 ≡ 1 ∷ 0 ∷ []) × (r.1.returned ≡ true)
unfolding read_all trickle fasthttpproxy.Common.Int.◌-ℤ◌
limited_run = (refl, refl)

abbrev short : PoolReader ℕ
short = record limited { reader = 0 }

failed_read-reused_example :
    let r = read source call short initial in
    let x = acquire_upstream_connection (λ a. err eof) 4 none host r.2 in
    (r.0 ≡ ([], some eof))
    × (r.1.remain ≡ pos 2)
    × (x.1 ≡ ok wire)
    × (x.0.closed ≡ [])
    × (x.0.upstream_pool host ≡ initial.upstream_pool host)
unfolding trickle ◌≤ℤ◌
failed_read-reused_example =
    Reused.failed_read-reused source (λ a. err eof) call short initial 1 [] eof 0 4 none refl refl
      refl refl (omega arith) refl (omega arith)

read_all-chunked_example :
    let r = read_all source (call ∷ []) (new_pool_reader 0 host wire (negsuc 0) cleanup) initial in
    Chunked.Progress (new_pool_reader 0 host wire (negsuc 0) cleanup) initial r.1 r.2
read_all-chunked_example = Chunked.read_all-chunked source 0 (call ∷ []) 0 host wire cleanup initial

abbrev chunked : PoolReader ℕ
chunked = record limited { reader = 0; remain = negsuc 0 }

abbrev timed : TimedReader ℕ
timed = record { connection = wire; reader = 1; size = pos 0; started = true; start = 10 }

-- An upstream whose state is the number of bytes that it has given: it gives two.
two_bytes : ℕ → ℕ → Reading × ℕ
two_bytes zero n = (([], none), n)
two_bytes (suc k) n = if ltb n 2 then ((5 ∷ [], none), suc n) else (([], some eof), n)

two_bytes_fits : (k n : ℕ) → length (two_bytes k n).0.0 ≤ k
unfolding two_bytes
two_bytes_fits zero n = omega arith
two_bytes_fits (suc k) n = ground arith

abbrev two_source : Reader ℕ
two_source = record { read = two_bytes; read_fits = two_bytes_fits }

two_counts : (k n : ℕ) → (two_bytes k n).1 ≡ n + length (two_bytes k n).0.0
unfolding two_bytes
two_counts zero n = omega arith
two_counts (suc k) n = ground arith

two_no_error : (k n : ℕ) → n < 2 → (two_bytes k n).0.1 ≡ none
unfolding two_bytes
two_no_error zero n h = refl
two_no_error (suc k) n h = ground arith

two_Delivers : Delivers two_source 2
two_Delivers = record { given = λ n. n; counts = two_counts; no_error = two_no_error }

abbrev unread : Watched ℕ
unread = record {
  timed = record timed { reader = 0; started = false };
  metrics = no_metrics;
  ticks = 0;
}

-- Three reads, the last after the end, and a clock that runs.
read_all-silent_example :
    durations
      (read_all
        (watched two_source (λ t. t))
        (call ∷ call ∷ call ∷ [])
        (new_pool_reader unread host wire (pos 2) cleanup)
        initial).1.reader
    ≡ []
unfolding two_Delivers
read_all-silent_example =
    read_all-silent two_source (λ t. t) 2 two_Delivers (call ∷ call ∷ call ∷ []) unread host wire
      cleanup initial refl

-- What the trickling upstream has still to give.
still : ℕ → List ℕ
still zero = []
still (suc n) = n ∷ still n

source_gives : (k n : ℕ) → (trickle k n).0.0 ++ still (trickle k n).1 ≡ still n
unfolding trickle still
source_gives zero n = refl
source_gives (suc k) zero = refl
source_gives (suc k) (suc n) = refl

abbrev source_content : Content source
source_content = record { rest = still; gives = source_gives }

source_eager : Eager source source_content
unfolding trickle still
source_eager zero n h g = omega arith
source_eager (suc k) zero h g = omega arith
source_eager (suc k) (suc n) h g = omega arith

read_all-content_example :
    let r = read_all source (call ∷ call ∷ []) (record chunked { reader = 3 }) initial in
    r.0 ++ still r.1.reader ≡ 2 ∷ 1 ∷ 0 ∷ []
unfolding still
read_all-content_example =
    read_all-content source source_content (call ∷ call ∷ []) (record chunked { reader = 3 })
      initial

-- Two bytes of three, in two reads and one more.
read_all_complete_example :
    let a = new_pool_reader {S = ℕ} 3 host wire (pos 2) cleanup in
    let r = read_all source (call ∷ call ∷ call ∷ []) a initial in
    (r.0 ++ still r.1.reader ≡ still 3)
    × (length r.0 ≡ 2)
    × (r.1.returned ≡ true)
    × (c : Call) × (r.2 ≡ hand_back c a initial)
unfolding still
read_all_complete_example =
    read_all_complete source source_content 2 (call ∷ call ∷ call ∷ []) 3 host wire cleanup initial
      source_eager (omega arith) (omega arith) (omega arith, (omega arith, (omega arith, tt)))
      (omega arith)
