-- ===== src/Readers/TimedReader.antt =====
-- internal/readers/timed_reader.go: a reader that measures how long an answer takes.
use fasthttpproxy.Common.{
  ℕ, ◌-◌, ltb, Bool, true, false, ◌&&◌, ◌||◌, Option, none, some, List, [], ◌∷◌, if◌then◌else◌, ◌≡◌,
  refl, ◌∙◌, arith, length,
}
use fasthttpproxy.Common.Int.{ℤ, pos, ◌+ℤ◌, int64}
use fasthttpproxy.Common.Result.{Error, eof, err_dial_timeout, other}
use fasthttpproxy.Common.Net.{Conn, Reader, Reading}
use fasthttpproxy.Metrics.{Metrics, no_metrics}

pub record TimedReader (S : Type 0) : Type 0 where
  pub connection : Conn
  pub reader : S
  pub size : ℤ
  pub started : Bool
  pub start : ℕ

-- NewTimedReader
unfoldable pub new_timed_reader : {S : Type 0} → S → Conn → TimedReader S
new_timed_reader r c = record {
  connection = c;
  reader = r;
  size = pos 0;
  started = false;
  start = 0;
}

-- `err == io.EOF`, and `n > 0 && err != nil`
abbrev is_eof : Option Error → Bool
is_eof none = false
is_eof (some eof) = true
is_eof (some err_dial_timeout) = false
is_eof (some (other s)) = false

abbrev is_error : Option Error → Bool
is_error none = false
is_error (some e) = true

abbrev pub finished : Reading → Bool
finished (bytes, e) = is_eof e || (ltb 0 (length bytes) && is_error e)

-- metrics.ResponseBodyReadDuration.Observe
abbrev observe : ℕ → Metrics → Metrics
observe d m = record m { response_body_read_duration = d ∷ m.response_body_read_duration }

-- One Read: the length of its buffer, and the time when it begins and when it ends.
pub record Call : Type 0 where
  pub buffer : ℕ
  pub began : ℕ
  pub ended : ℕ

module _ {S : Type 0} (src : Reader S) where
  -- (*TimedReader).Read
  unfoldable pub read : Call → TimedReader S → Metrics → Reading × TimedReader S × Metrics
  read c tr m =
      let start = if tr.started then tr.start else c.began in
      let (reading, s) = src.read c.buffer tr.reader in
      let tr' = record tr {
        reader = s;
        started = true;
        start = start;
        size = int64 (tr.size +ℤ pos (length reading.0));
      } in
      (reading, tr', if finished reading then observe (c.ended - start) m else m)

  unfoldable pub read_all :
      List Call → TimedReader S → Metrics → List Reading × TimedReader S × Metrics
  unfolding read
  read_all [] tr m = ([], tr, m)
  read_all (c ∷ cs) tr m =
      let (reading, tr', m') = read c tr m in
      let (readings, tr'', m'') = read_all cs tr' m' in (reading ∷ readings, tr'', m'')

  -- What reads of a started reader observe: one duration, from its start, for each reading that is
  -- EOF or an error with bytes; newest first.
  pub observed : ℕ → List Call → List Reading → List ℕ → List ℕ
  observed start [] rs ds = ds
  observed start (c ∷ cs) [] ds = ds
  observed start (c ∷ cs) (r ∷ rs) ds =
      observed start cs rs (if finished r then (c.ended - start) ∷ ds else ds)

  -- Once a TimedReader is started, its reads observe one duration for each reading that is EOF or an
  -- error that comes with bytes, measured from the first read, and no other.
  pub read_all-observed :
      (cs : List Call) (tr : TimedReader S) (m : Metrics)
      → tr.started ≡ true
      → (read_all cs tr m).2.response_body_read_duration
        ≡ observed tr.start cs (read_all cs tr m).0 m.response_body_read_duration
  unfolding read_all observed read
  read_all-observed [] tr m h = refl
  read_all-observed (c ∷ cs) tr m h =
      let x = read c tr m in
      let kept : x.1.start ≡ tr.start = rw h refl in
      let one : x.2.response_body_read_duration ≡ (
          if finished x.0
          then (c.ended - tr.start) ∷ m.response_body_read_duration
          else m.response_body_read_duration) =
        ground arith in
      read_all-observed cs x.1 x.2 refl ∙ λ i. observed (kept i) cs (read_all cs x.1 x.2).0 (one i)

-- A TimedReader as the io.Reader under a PoolReader. What it observes is left out: neither the bytes
-- nor the errors depend on it, or on the time.
pub timed : {S : Type 0} → Reader S → ℕ → Reader (TimedReader S)
unfolding read
timed src now = record {
  read = λ k tr.
      let (reading, tr', m) =
        read src (record { buffer = k; began = now; ended = now }) tr no_metrics in
      (reading, tr');
  read_fits = λ k tr. src.read_fits k tr.reader;
}
