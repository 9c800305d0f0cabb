-- ===== src/Pool/Race/Overrun.antt =====
-- The test of dialNew and its increment are two operations: goroutines that pass the test together
-- take the pool past its limit.
use fasthttpproxy.Common.{
  ℕ, zero, suc, ◌≤◌, ◌<◌, ◌^◌, ltb, false, none, some, [], ◌≡◌, ◌≢◌, refl, sym, ap, ◌∙◌, subst,
  if◌then◌else◌, arith,
}
use fasthttpproxy.Common.Int.{pos, int32, int32_small, int32_inc, leb_ℤ}
use fasthttpproxy.Common.Threads.{assign}
use fasthttpproxy.Common.Net.{Conn}
use fasthttpproxy.Pool.State.{Settings}
use fasthttpproxy.Pool.Race.{
  Shared, Pc, outside, testing, tested, dialing, holding, Move, find_none, pass, raise, connect,
  own, System, IsNew, goes, start, Reach, here, next,
}

module _ (n max : ℕ) (settings : Settings)
    (limit : settings.max_upstream_connections_per_host ≡ pos max) (some_limit : 1 ≤ max)
    (fits : max < 2 ^ 31) (small : n < 2 ^ 31) where
  then_goes :
      {s : System} (i : ℕ) (p : Pc) {m : Shared} {p' : Pc}
      → Reach n settings s
      → i < n
      → s.pc i ≡ p
      → Move (IsNew s) settings s.shared p m p'
      → Reach n settings (record { shared = m; pc = assign s.pc i p' })
  then_goes {s} i p {m} {p'} r lt e mv =
      next r (goes i lt (subst (λ q. Move (IsNew s) settings s.shared q m p') (sym e) mv))

  -- The first `k` goroutines have passed the test.
  record Passed (k : ℕ) : Type 0 where
    last : System
    reach : Reach n settings last
    untouched : last.shared ≡ start.shared
    there : (i : ℕ) → last.pc i ≡ (if ltb i k then tested else outside)

  passed : (k : ℕ) → k ≤ n → Passed k
  unfolding assign
  passed zero h = record { last = start; reach = here; untouched = refl; there = λ i. ground arith }
  passed (suc k) h =
      let before = passed k (omega arith) in
      let s = before.last in
      let room : leb_ℤ (int32 settings.max_upstream_connections_per_host) s.shared.pool.count
          ≡ false =
        rw (before.untouched, limit, int32_small max fits) (ground arith) in
      let r₁ =
        then_goes k outside before.reach h (before.there k ∙ ground arith)
          (find_none (rw before.untouched refl)) in
      let r₂ = then_goes k testing r₁ h (ground arith) (pass room) in
      record {
        last = _;
        reach = r₂;
        untouched = before.untouched;
        there = λ i. ground (arith, before.there i);
      }

  -- The connection that the `i`-th goroutine dials.
  abbrev wire : ℕ → Conn
  wire i = record { id = i; tls = none }

  abbrev filled : ℕ → ℕ → Pc
  filled k i = if ltb i k then holding (wire i) else if ltb i n then tested else outside

  -- The first `k` goroutines have their connections, the others have passed the test.
  record Filled (k : ℕ) : Type 0 where
    last : System
    reach : Reach n settings last
    now : last.shared ≡ record { pool = record { free = []; count = pos k }; closed = [] }
    there : (i : ℕ) → last.pc i ≡ filled k i

  not_wired : (k i : ℕ) → own (filled k i) ≢ some (wire k)
  not_wired k i h = ground arith

  fill : (k : ℕ) → k ≤ n → Filled k
  unfolding assign
  fill zero h =
      let all = passed n (omega arith) in
      record {
        last = all.last;
        reach = all.reach;
        now = all.untouched;
        there = λ i. all.there i ∙ ground arith;
      }
  fill (suc k) h =
      let before = fill k (omega arith) in
      let s = before.last in
      let r₁ = then_goes k tested before.reach h (before.there k ∙ ground arith) raise in
      let r₂ = then_goes k dialing r₁ h (ground arith) (
        connect {c = wire k} (record {
          not_idle = rw before.now tt;
          not_owned = λ i e. not_wired k i (ground (arith, before.there i));
          not_closed = rw before.now tt;
        })) in
      record {
        last = _;
        reach = r₂;
        now = rw (before.now, int32_inc k (omega arith)) refl;
        there = λ i. ground (arith, before.there i);
      }

  -- Under any limit from 1 up to 2 ^ 31 - 1, `n` goroutines, fewer than 2 ^ 31, can come to hold `n`
  -- connections of the address at the same time, all of them counted: the limit does not bound the
  -- connections that are open.
  pub limit_overrun :
      (s : System) × Reach n settings s
      × (s.shared.pool.count ≡ pos n)
      × ((i : ℕ) → i < n → s.pc i ≡ holding (record { id = i; tls = none }))
  limit_overrun =
      let full = fill n (omega arith) in
      (full.last, full.reach, ap (λ m. m.pool.count) full.now, λ i lt. full.there i ∙ ground arith)
