-- ===== src/Pool/Accounting/Shift.antt =====
-- What a stretch of code does to the counters of errors and to those of the buffer pools.
use fasthttpproxy.Common.{
  ℕ, ◌+◌, ◌-◌, if_both, Bool-cases, Option, none, some, List, [], ◌∷◌, ◌++◌, ◌≡◌, refl, sym, ap,
  ◌∙◌, arith, inl, inr, unsnoc-cases,
}
use fasthttpproxy.Common.Int.{ℤ, pos, negsuc, ◌+ℤ◌, int64, int32, leb_ℤ, ltb_ℤ}
use fasthttpproxy.Common.Text.{Str}
use fasthttpproxy.Common.Result.{Error, Result, ok, err}
use fasthttpproxy.Common.Net.{Conn}
use fasthttpproxy.Metrics.{Metrics}
use fasthttpproxy.Pool.State.{PoolState}
use fasthttpproxy.Pool.Dial.{dial}
use fasthttpproxy.Pool.Upstream.{
  add_count, close, drop_idle, dialed, dial_new, acquire_upstream_connection,
  close_and_drop_upstream_connection,
}
use fasthttpproxy.Pool.Branches.{popped, acquire_empty, acquire_fresh, acquire_stale}
use fasthttpproxy.Pool.Buffers.{
  Use, acquire_reader, release_reader, acquire_writer, release_writer, use_one, use_all,
}

-- The errors of requests that are counted: of dials, of writes, of flushes, of reads, and the answers
-- with a status from 500 on.
abbrev pub failures : Metrics → ℕ
failures m =
    m.dial_errors
    + (m.write_errors + (m.bufio_writer_flush_errors + (m.read_errors + m.upstream_5xx)))

-- The counters of the readers and the writers: in use, and idle.
abbrev pub Counts : Type 0
Counts = ℤ × ℤ × ℤ × ℤ

abbrev pub buffer_counts : PoolState → Counts
buffer_counts p = (
  p.counters.reader_in_use, p.counters.reader_idle, p.counters.writer_in_use,
  p.counters.writer_idle,
)

-- So many errors more are counted, and the counters of the buffers are those after these calls.
pub record Shift (k : ℕ) (us : List Use) (p q : PoolState) : Type 0 where
  pub failed : failures q.metrics ≡ k + failures p.metrics
  pub used : buffer_counts q ≡ buffer_counts (use_all us p)

-- The calls depend on the counters alone.
count_one : Use → Counts → Counts
count_one (acquire_reader none c) (a, b, x, y) = (int64 (a +ℤ pos 1), b, x, y)
count_one (acquire_reader (some r) c) (a, b, x, y) =
    (int64 (a +ℤ pos 1), int64 (b +ℤ negsuc 0), x, y)
count_one release_reader (a, b, x, y) = (int64 (a +ℤ negsuc 0), int64 (b +ℤ pos 1), x, y)
count_one (acquire_writer none c) (a, b, x, y) = (a, b, int64 (x +ℤ pos 1), y)
count_one (acquire_writer (some w) c) (a, b, x, y) =
    (int64 (a +ℤ pos 1), int64 (b +ℤ negsuc 0), x, y)
count_one release_writer (a, b, x, y) = (int64 (a +ℤ negsuc 0), int64 (b +ℤ pos 1), x, y)

use_one-count :
    (u : Use) (p : PoolState) → buffer_counts (use_one u p) ≡ count_one u (buffer_counts p)
unfolding use_one count_one
use_one-count (acquire_reader none c) p = refl
use_one-count (acquire_reader (some r) c) p = refl
use_one-count release_reader p = refl
use_one-count (acquire_writer none c) p = refl
use_one-count (acquire_writer (some w) c) p = refl
use_one-count release_writer p = refl

use_all-alike :
    (us : List Use) (p q : PoolState)
    → buffer_counts p ≡ buffer_counts q
    → buffer_counts (use_all us p) ≡ buffer_counts (use_all us q)
unfolding use_all
use_all-alike [] p q e = e
use_all-alike (u ∷ us) p q e =
    use_all-alike us (use_one u p) (use_one u q)
      (use_one-count u p ∙ ap (count_one u) e ∙ sym (use_one-count u q))

use_all-append :
    (us vs : List Use) (p : PoolState) → use_all (us ++ vs) p ≡ use_all vs (use_all us p)
unfolding use_all
use_all-append [] vs p = refl
use_all-append (u ∷ us) vs p = use_all-append us vs (use_one u p)

pub Shift-trans :
    {k l : ℕ} {us vs : List Use} {p q r : PoolState}
    → Shift k us p q
    → Shift l vs q r
    → Shift (k + l) (us ++ vs) p r
Shift-trans {us = us} {vs = vs} {p = p} {q = q} a b = record {
  failed = omega (arith, a.failed, b.failed);
  used =
      b.used
      ∙ use_all-alike vs q (use_all us p) a.used
      ∙ ap buffer_counts (sym (use_all-append us vs p));
}

-- Nothing of it is changed.
pub record Unmoved (p q : PoolState) : Type 0 where
  pub same_failures : failures q.metrics ≡ failures p.metrics
  pub same_counts : buffer_counts q ≡ buffer_counts p

pub alike :
    {p q : PoolState}
    → failures q.metrics ≡ failures p.metrics
    → buffer_counts q ≡ buffer_counts p
    → Unmoved p q
alike e f = record { same_failures = e; same_counts = f }

pub unmoved : {p q : PoolState} → Unmoved p q → Shift 0 [] p q
unfolding use_all
unmoved v = record { failed = omega (arith, v.same_failures); used = v.same_counts }

dialed-Unmoved : (p : PoolState) (addr : Str) (r : Result Conn) → Unmoved p (dialed p addr r).0
unfolding dialed add_count
dialed-Unmoved p addr (ok c) = alike refl refl
dialed-Unmoved p addr (err e) = alike refl refl

dial_new-Unmoved :
    (fasthttp_dial : Str → Result Conn) (p : PoolState) (addr : Str)
    → Unmoved p (dial_new fasthttp_dial p addr).0
unfolding dial_new
dial_new-Unmoved fasthttp_dial p addr =
    if_both (λ (x : PoolState × Result Conn). Unmoved p x.0)
      (leb_ℤ (int32 p.settings.max_upstream_connections_per_host) (p.upstream_pool addr).count) _ _
      (alike refl refl) (dialed-Unmoved p addr (dial fasthttp_dial p addr))

drop_idle-Unmoved :
    (p : PoolState) (addr : Str) (c : Conn) (e : Option Error) → Unmoved p (drop_idle p addr c e)
unfolding drop_idle close add_count
drop_idle-Unmoved p addr c none = alike refl refl
drop_idle-Unmoved p addr c (some e) = alike refl refl

pub close_and_drop-Unmoved :
    (e : Option Error) (addr : Str) (c : Conn) (p : PoolState)
    → Unmoved p (close_and_drop_upstream_connection e addr c p)
unfolding close_and_drop_upstream_connection close add_count
close_and_drop-Unmoved none addr c p = alike refl refl
close_and_drop-Unmoved (some e) addr c p = alike refl refl

Unmoved-trans : {p q r : PoolState} → Unmoved p q → Unmoved q r → Unmoved p r
Unmoved-trans a b = alike (b.same_failures ∙ a.same_failures) (b.same_counts ∙ a.same_counts)

pub acquire-Unmoved :
    (fasthttp_dial : Str → Result Conn) (now : ℕ) (e : Option Error) (addr : Str) (p : PoolState)
    → Unmoved p (acquire_upstream_connection fasthttp_dial now e addr p).0
acquire-Unmoved fasthttp_dial now e addr p = elim (unsnoc-cases (p.upstream_pool addr).free) [
  | inl (empty, _) ↦
      rw (acquire_empty fasthttp_dial now e addr p empty) (dial_new-Unmoved fasthttp_dial p addr)
  | inr (rest, last, split, _) ↦
      elim (Bool-cases (ltb_ℤ p.settings.idle_timeout (pos (now - last.returned_at)))) [
        | inr fresh ↦ rw (acquire_fresh fasthttp_dial now e addr p split fresh) (alike refl refl)
        | inl stale ↦
            let dropped = drop_idle (popped p addr rest) addr last.conn e in
            rw (acquire_stale fasthttp_dial now e addr p split stale) (
              Unmoved-trans
                (Unmoved-trans (alike {p = p} {q = popped p addr rest} refl refl)
                  (drop_idle-Unmoved (popped p addr rest) addr last.conn e))
                (dial_new-Unmoved fasthttp_dial dropped addr))
      ]
]

pub Shift-Unmoved :
    {k : ℕ} {us : List Use} {p q r : PoolState} → Shift k us p q → Unmoved q r → Shift k us p r
Shift-Unmoved a v = record { failed = v.same_failures ∙ a.failed; used = v.same_counts ∙ a.used }

-- After a stretch with no error.
pub Shift-next :
    {k : ℕ} {us vs : List Use} {p q r : PoolState}
    → Shift 0 us p q
    → Shift k vs q r
    → Shift k (us ++ vs) p r
Shift-next a b =
    let c = Shift-trans a b in record { failed = omega (arith, c.failed); used = c.used }
