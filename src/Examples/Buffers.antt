-- ===== src/Examples/Buffers.antt =====
-- The buffer pools and PipeCopy at concrete inputs.
use fasthttpproxy.Common.{
  ℕ, zero, suc, ◌≤◌, Option, none, some, List, [], ◌∷◌, ◌≡◌, refl, arith, length,
}
use fasthttpproxy.Common.Int.{pos, negsuc, ◌+ℤ◌, int64, wrap}
use fasthttpproxy.Common.Result.{Error, eof}
use fasthttpproxy.Common.Net.{Conn, Reader, Reading}
use fasthttpproxy.Pool.State.{initial}
use fasthttpproxy.Pool.Buffers.{
  Use, acquire_reader, release_reader, acquire_writer, release_writer, use_all,
}
use fasthttpproxy.Pool.Accounting.{total, lent, given_back, new_writers, InRange, use_all-counts}
use fasthttpproxy.Pool.PipeCopy.{pipe_copy, Gives, ends, more, deliver, pipe_copy-deliver}

abbrev wire : Conn
wire = record { id = 7; tls = none }

-- A request's use of the pools, when they are empty.
abbrev request : List Use
request = acquire_writer none wire ∷ release_writer ∷ acquire_reader none wire ∷ release_reader ∷ []

initial-InRange : InRange initial.counters
unfolding wrap
initial-InRange = record {
  reader_in_use_fits = refl;
  reader_idle_fits = refl;
  writer_in_use_fits = refl;
}

use_all-counts_example :
    let k = (use_all request initial).counters in
    (k.reader_in_use ≡ int64 (pos 0 +ℤ total lent request))
    × (k.reader_idle ≡ int64 (pos 0 +ℤ total given_back request))
    × (k.writer_in_use ≡ int64 (pos 0 +ℤ total new_writers request))
    × (k.writer_idle ≡ pos 0)
use_all-counts_example = use_all-counts request initial initial-InRange

-- The sums of that request: a reader fewer than none is in use, and the writer stays in use.
request_totals : (total lent request ≡ negsuc 0) × (total new_writers request ≡ pos 1)
unfolding ◌+ℤ◌
request_totals = (refl, refl)

-- A source whose state is the number of bytes that it still has, of which a read takes one.
count_down : ℕ → ℕ → Reading × ℕ
count_down zero n = (([], none), n)
count_down (suc k) zero = (([], some eof), 0)
count_down (suc k) (suc n) = ((n ∷ [], none), n)

count_down_fits : (k n : ℕ) → length (count_down k n).0.0 ≤ k
unfolding count_down
count_down_fits zero n = omega arith
count_down_fits (suc k) zero = omega arith
count_down_fits (suc k) (suc n) = omega arith

abbrev source : Reader ℕ
source = record { read = count_down; read_fits = count_down_fits }

-- A connection that keeps what is written, the last write first.
abbrev keep : List ℕ → List (List ℕ) → Option Error × List (List ℕ)
keep chunk w = (none, chunk ∷ w)

abbrev two_bytes : List (List ℕ)
two_bytes = (1 ∷ []) ∷ (0 ∷ []) ∷ [] ∷ []

source-Gives : Gives source keep 4 2 two_bytes eof
unfolding count_down
source-Gives = more refl (more refl (ends refl))

pipe_copy-deliver_example :
    let r = pipe_copy source keep 3 4 2 [] initial in
    (r.1 ≡ some (deliver source keep two_bytes eof []).0)
    × (r.2 ≡ (deliver source keep two_bytes eof []).1)
    × (r.0.counters ≡ initial.counters)
unfolding wrap
pipe_copy-deliver_example =
    pipe_copy-deliver source keep 4 3 source-Gives (omega arith) [] initial refl refl

delivered : deliver source keep two_bytes eof [] ≡ (none, (0 ∷ []) ∷ (1 ∷ []) ∷ [])
unfolding deliver fasthttpproxy.Pool.PipeCopy.write_chunk
delivered = refl
