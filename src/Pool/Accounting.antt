-- ===== src/Pool/Accounting.antt =====
-- What the counters of the buffer pools count, over any sequence of calls.
pub mod Shift
use fasthttpproxy.Common.{none, some, List, [], ◌∷◌, ◌≡◌, refl, sym, ap, ◌∙◌, arith}
use fasthttpproxy.Common.Int.{ℤ, pos, negsuc, ◌+ℤ◌, int64, int64-+ℤ, int64_idem, +ℤ_assoc, +ℤ-zero}
use fasthttpproxy.Pool.State.{PoolState, Counters}
use fasthttpproxy.Pool.Buffers.{
  Use, acquire_reader, release_reader, acquire_writer, release_writer, use_one, use_all,
}

-- The sum over the calls of what each call contributes.
abbrev pub total : (Use → ℤ) → List Use → ℤ
total f [] = pos 0
total f (u ∷ us) = f u +ℤ total f us

-- Acquires less releases: of readers, and of writers that the pool had.
abbrev pub lent : Use → ℤ
lent (acquire_reader got c) = pos 1
lent release_reader = negsuc 0
lent (acquire_writer none c) = pos 0
lent (acquire_writer (some b) c) = pos 1
lent release_writer = negsuc 0

-- Releases less acquires out of a pool.
abbrev pub given_back : Use → ℤ
given_back (acquire_reader none c) = pos 0
given_back (acquire_reader (some b) c) = negsuc 0
given_back release_reader = pos 1
given_back (acquire_writer none c) = pos 0
given_back (acquire_writer (some b) c) = negsuc 0
given_back release_writer = pos 1

-- Writers that were made anew.
abbrev pub new_writers : Use → ℤ
new_writers (acquire_writer none c) = pos 1
new_writers _ = pos 0

-- Every counter is a value of its type.
pub record InRange (k : Counters) : Type 0 where
  pub reader_in_use_fits : int64 k.reader_in_use ≡ k.reader_in_use
  pub reader_idle_fits : int64 k.reader_idle ≡ k.reader_idle
  pub writer_in_use_fits : int64 k.writer_in_use ≡ k.writer_in_use

-- One counter, from what one call adds to it.
module _ (field : Counters → ℤ) (f : Use → ℤ)
    (one : (u : Use) (p : PoolState)
      → int64 (field p.counters) ≡ field p.counters
      → field (use_one u p).counters ≡ int64 (field p.counters +ℤ f u)) where
  counts :
      (us : List Use) (p : PoolState)
      → int64 (field p.counters) ≡ field p.counters
      → field (use_all us p).counters ≡ int64 (field p.counters +ℤ total f us)
  unfolding use_all
  counts [] p fits = sym fits ∙ ap int64 (sym (+ℤ-zero (field p.counters)))
  counts (u ∷ us) p fits =
      let step = one u p fits in
      counts us (use_one u p) (rw step (int64_idem (field p.counters +ℤ f u)))
      ∙ ap (λ x. int64 (x +ℤ total f us)) step
      ∙ int64-+ℤ (field p.counters +ℤ f u) (total f us)
      ∙ ap int64 (+ℤ_assoc (field p.counters) (f u) (total f us))

unchanged : (a : ℤ) → int64 a ≡ a → a ≡ int64 (a +ℤ pos 0)
unchanged a fits = sym fits ∙ ap int64 (sym (+ℤ-zero a))

in_use_one :
    (u : Use) (p : PoolState)
    → int64 p.counters.reader_in_use ≡ p.counters.reader_in_use
    → (use_one u p).counters.reader_in_use ≡ int64 (p.counters.reader_in_use +ℤ lent u)
unfolding use_one
in_use_one (acquire_reader none c) p fits = refl
in_use_one (acquire_reader (some b) c) p fits = refl
in_use_one release_reader p fits = refl
in_use_one (acquire_writer none c) p fits = unchanged p.counters.reader_in_use fits
in_use_one (acquire_writer (some b) c) p fits = refl
in_use_one release_writer p fits = refl

idle_one :
    (u : Use) (p : PoolState)
    → int64 p.counters.reader_idle ≡ p.counters.reader_idle
    → (use_one u p).counters.reader_idle ≡ int64 (p.counters.reader_idle +ℤ given_back u)
unfolding use_one
idle_one (acquire_reader none c) p fits = unchanged p.counters.reader_idle fits
idle_one (acquire_reader (some b) c) p fits = refl
idle_one release_reader p fits = refl
idle_one (acquire_writer none c) p fits = unchanged p.counters.reader_idle fits
idle_one (acquire_writer (some b) c) p fits = refl
idle_one release_writer p fits = refl

writers_one :
    (u : Use) (p : PoolState)
    → int64 p.counters.writer_in_use ≡ p.counters.writer_in_use
    → (use_one u p).counters.writer_in_use ≡ int64 (p.counters.writer_in_use +ℤ new_writers u)
unfolding use_one
writers_one (acquire_reader none c) p fits = unchanged p.counters.writer_in_use fits
writers_one (acquire_reader (some b) c) p fits = unchanged p.counters.writer_in_use fits
writers_one release_reader p fits = unchanged p.counters.writer_in_use fits
writers_one (acquire_writer none c) p fits = refl
writers_one (acquire_writer (some b) c) p fits = unchanged p.counters.writer_in_use fits
writers_one release_writer p fits = unchanged p.counters.writer_in_use fits

writer_idle_one :
    (u : Use) (p : PoolState) → (use_one u p).counters.writer_idle ≡ p.counters.writer_idle
unfolding use_one
writer_idle_one (acquire_reader none c) p = refl
writer_idle_one (acquire_reader (some b) c) p = refl
writer_idle_one release_reader p = refl
writer_idle_one (acquire_writer none c) p = refl
writer_idle_one (acquire_writer (some b) c) p = refl
writer_idle_one release_writer p = refl

writer_idle_all :
    (us : List Use) (p : PoolState) → (use_all us p).counters.writer_idle ≡ p.counters.writer_idle
unfolding use_all
writer_idle_all [] p = refl
writer_idle_all (u ∷ us) p = writer_idle_all us (use_one u p) ∙ writer_idle_one u p

-- What the counters hold after any sequence of acquires and releases, modulo 2 ^ 64. Those of the
-- readers also count the writers: every release of a writer, and every acquire of one out of the
-- pool, moves them. The counter of writers in use only ever grows, by the writers made anew, and the
-- counter of idle writers never moves.
pub use_all-counts :
    (us : List Use) (p : PoolState)
    → InRange p.counters
    → let k = (use_all us p).counters in
      (k.reader_in_use ≡ int64 (p.counters.reader_in_use +ℤ total lent us))
      × (k.reader_idle ≡ int64 (p.counters.reader_idle +ℤ total given_back us))
      × (k.writer_in_use ≡ int64 (p.counters.writer_in_use +ℤ total new_writers us))
      × (k.writer_idle ≡ p.counters.writer_idle)
use_all-counts us p r = (
  counts (λ k. k.reader_in_use) lent in_use_one us p r.reader_in_use_fits,
  counts (λ k. k.reader_idle) given_back idle_one us p r.reader_idle_fits,
  counts (λ k. k.writer_in_use) new_writers writers_one us p r.writer_in_use_fits,
  writer_idle_all us p,
)

-- The gauges show the counters.
pub record Published (p : PoolState) : Type 0 where
  pub reader_in_use_shown : p.metrics.bufio_reader_pool_in_use ≡ p.counters.reader_in_use
  pub reader_idle_shown : p.metrics.bufio_reader_pool_idle ≡ p.counters.reader_idle
  pub writer_in_use_shown : p.metrics.bufio_writer_pool_in_use ≡ p.counters.writer_in_use
  pub writer_idle_shown : p.metrics.bufio_writer_pool_idle ≡ p.counters.writer_idle

use_one-Published : (u : Use) (p : PoolState) → Published p → Published (use_one u p)
unfolding use_one
use_one-Published (acquire_reader none c) p v = ground arith
use_one-Published (acquire_reader (some b) c) p v = ground arith
use_one-Published release_reader p v = ground arith
use_one-Published (acquire_writer none c) p v = ground arith
use_one-Published (acquire_writer (some b) c) p v = ground arith
use_one-Published release_writer p v = ground arith

-- Every acquire and release publishes the counters that it changed: gauges that show the counters
-- still do after any sequence of them.
pub use_all-Published : (us : List Use) (p : PoolState) → Published p → Published (use_all us p)
unfolding use_all
use_all-Published [] p v = v
use_all-Published (u ∷ us) p v = use_all-Published us (use_one u p) (use_one-Published u p v)
