-- ===== src/Readers/Observed.antt =====
-- A PoolReader over a TimedReader, with the durations that are observed: what streamResponseBody of
-- internal/proxy/handler.go puts together.
use native.Mathlib.Nat.{add-zero, le_trans}
use fasthttpproxy.Common.{
  ℕ, suc, ◌+◌, ◌-◌, ◌≤◌, ◌<◌, leb, false, Bool-cases, Option, none, List, [], ◌∷◌, ◌≡◌, refl, ap,
  ◌∙◌, inl, inr, arith, length,
}
use fasthttpproxy.Common.Int.{ℤ, pos, ◌-ℤ◌, leb_ℤ}
use fasthttpproxy.Common.Text.{Str}
use fasthttpproxy.Common.Net.{Conn, Reader, Reading}
use fasthttpproxy.Metrics.{Metrics}
use fasthttpproxy.Pool.State.{PoolState}
use fasthttpproxy.Readers.PoolReader.{
  PoolReader, Call, is_some, release_if, limited_buffer, after_read, new_pool_reader, read,
  read_all,
}
use fasthttpproxy.Readers.TimedReader.{TimedReader, finished}
use fasthttpproxy.Readers.TimedReader
use fasthttpproxy.Readers.Held.{release_if-remain, release_if-reader}
use fasthttpproxy.Readers.Limited.{pos_sub, read_exhausted, read_some}

-- A TimedReader with the metrics, and with the number of calls of time.Now so far.
pub record Watched (S : Type 0) : Type 0 where
  pub timed : TimedReader S
  pub metrics : Metrics
  pub ticks : ℕ

-- What the histogram of the durations holds.
abbrev pub durations : {S : Type 0} → Watched S → List ℕ
durations w = w.metrics.response_body_read_duration

-- The first `n` bytes of a source come with no error; `given` is how many it has given.
pub record Delivers {S : Type 0} (src : Reader S) (n : ℕ) : Type 0 where
  pub given : S → ℕ
  pub counts : (k : ℕ) (s : S) → given (src.read k s).1 ≡ given s + length (src.read k s).0.0
  pub no_error : (k : ℕ) (s : S) → given s < n → (src.read k s).0.1 ≡ none

module _ {S : Type 0} (src : Reader S) (clock : ℕ → ℕ) where
  -- One Read of the TimedReader, with two calls of time.Now.
  unfoldable pub watched_read : ℕ → Watched S → Reading × Watched S
  unfolding TimedReader.read
  watched_read k w =
      let (reading, tr, m) =
        TimedReader.read src
          (record { buffer = k; began = clock w.ticks; ended = clock (suc w.ticks) }) w.timed
          w.metrics in
      (reading, record { timed = tr; metrics = m; ticks = suc (suc w.ticks) })

  pub watched_read_fits : (k : ℕ) (w : Watched S) → length (watched_read k w).0.0 ≤ k
  unfolding watched_read
  watched_read_fits k w = src.read_fits k w.timed.reader

  abbrev pub watched : Reader (Watched S)
  watched = record { read = watched_read; read_fits = watched_read_fits }

module _ {S : Type 0} (src : Reader S) (clock : ℕ → ℕ) (n : ℕ) (d : Delivers src n) where
  -- A PoolReader that has read `total` bytes of an answer of `n`, none of which has ended a duration.
  record Silent (ds : List ℕ) (total : ℕ) (b : PoolReader (Watched S)) : Type 0 where
    within : total ≤ n
    left : b.remain ≡ pos (n - total)
    same_given : d.given b.reader.timed.reader ≡ total
    silent : durations b.reader ≡ ds

  not_finished : (r : Reading) → r.1 ≡ none → finished r ≡ false
  not_finished (bytes, e) h = rw h (ground arith)

  watched_read-silent :
      (k : ℕ) (w : Watched S)
      → d.given w.timed.reader < n
      → let r = watched_read src clock k w in
        (durations r.1 ≡ durations w)
        × (d.given r.1.timed.reader ≡ d.given w.timed.reader + length r.0.0)
  unfolding watched_read
  watched_read-silent k w more = (
    rw (not_finished (src.read k w.timed.reader).0 (d.no_error k w.timed.reader more)) refl,
    d.counts k w.timed.reader,
  )

  after_read-Silent :
      (ds : List ℕ) (total : ℕ) (c : Call) (b : PoolReader (Watched S)) (q : PoolState)
      → Silent ds total b
      → d.given b.reader.timed.reader < n
      → let x = watched_read src clock (limited_buffer c b) b.reader in
        Silent ds (total + length x.0.0) (after_read (watched src clock) c b q x).1
  unfolding after_read
  after_read-Silent ds total c b q v more =
      let x = watched_read src clock (limited_buffer c b) b.reader in
      let (silent, counted) = watched_read-silent (limited_buffer c b) b.reader more in
      let fits : length x.0.0 ≤ n - total =
        le_trans (watched_read_fits src clock (limited_buffer c b) b.reader)
          (rw v.left (ground arith)) in
      let now_left : ℤ = b.remain -ℤ pos (length x.0.0) in
      let gone : now_left ≡ pos (n - (total + length x.0.0)) =
        ap (λ z. z -ℤ pos (length x.0.0)) v.left
        ∙ pos_sub (n - total) (length x.0.0) fits
        ∙ ap pos (omega arith) in
      let y =
        release_if (leb_ℤ now_left (pos 0)) c (record b { reader = x.1; remain = now_left }, q) in
      let same : (release_if (is_some x.0.1) c y).0.reader ≡ x.1 =
        release_if-reader (is_some x.0.1) c y
        ∙ release_if-reader (leb_ℤ now_left (pos 0)) c
            (record b { reader = x.1; remain = now_left }, q) in
      record {
        within = omega arith;
        left = release_if-remain (is_some x.0.1) c y ∙ release_if-remain _ c _ ∙ gone;
        same_given =
            ap (λ w. d.given w.timed.reader) same
            ∙ counted
            ∙ ap (λ k. k + length x.0.0) v.same_given;
        silent = ap durations same ∙ silent ∙ v.silent;
      }

  read-Silent :
      (ds : List ℕ) (total : ℕ) (c : Call) (b : PoolReader (Watched S)) (q : PoolState)
      → Silent ds total b
      → let r = read (watched src clock) c b q in Silent ds (total + length r.0.0) r.1
  unfolding after_read
  read-Silent ds total c b q v = elim (Bool-cases (leb n total)) [
    | inl all ↦
        rw (read_exhausted (watched src clock) c b q (v.left ∙ ap pos (ground arith)))
          (rw add-zero v)
    | inr more ↦
        let some_left : n - total ≡ suc (n - total - 1) = ground arith in
        rw (read_some (watched src clock) c b q (n - total - 1) (v.left ∙ ap pos some_left))
          (after_read-Silent ds total c b q v (ground (arith, v.same_given)))
  ]

  read_all-Silent :
      (ds : List ℕ) (cs : List Call) (total : ℕ) (b : PoolReader (Watched S)) (q : PoolState)
      → Silent ds total b
      → durations (read_all (watched src clock) cs b q).1.reader ≡ ds
  unfolding read_all
  read_all-Silent ds [] total b q v = v.silent
  read_all-Silent ds (c ∷ cs) total b q v =
      let r = read (watched src clock) c b q in
      read_all-Silent ds cs (total + length r.0.0) r.1 r.2 (read-Silent ds total c b q v)

  -- Any reads of an answer with a Content-Length of `n` bytes, of which the upstream sends all `n`
  -- without an error: none of them observes a duration, however many there are, since the PoolReader
  -- does not ask the TimedReader for more once it has the last byte, and so never shows it the EOF.
  pub read_all-silent :
      (cs : List Call) (w : Watched S) (addr : Str) (conn : Conn)
      (cleanup : Option (PoolState → PoolState)) (p : PoolState)
      → d.given w.timed.reader ≡ 0
      → durations
          (read_all (watched src clock) cs (new_pool_reader w addr conn (pos n) cleanup) p).1.reader
        ≡ durations w
  unfolding new_pool_reader
  read_all-silent cs w addr conn cleanup p fresh =
      read_all-Silent (durations w) cs 0 (new_pool_reader w addr conn (pos n) cleanup) p (record {
        within = omega arith;
        left = ap pos (omega arith);
        same_given = fresh;
        silent = refl;
      })
