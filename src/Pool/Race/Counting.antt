-- ===== src/Pool/Race/Counting.antt =====
-- What the count of a pool is while goroutines interleave.
use fasthttpproxy.Common.{
  ℕ, suc, ◌+◌, ◌≤◌, ◌<◌, ◌^◌, some, none, List, [], ◌∷◌, ◌++◌, ◌≡◌, refl, ap, ◌∙◌, arith, length,
  length-append, unsnoc, unsnoc-cases, inl, inr,
}
use fasthttpproxy.Common.Int.{pos, negsuc, int32_inc, int32_dec}
use fasthttpproxy.Common.Threads.{
  assign, total, total-assign, total-zero, total-le_length, total_mono,
}
use fasthttpproxy.Common.Net.{Conn}
use fasthttpproxy.Pool.State.{IdleConn, Settings}
use fasthttpproxy.Pool.Race.{
  Shared, Pc, outside, popped, stale, dialing, failed, holding, closing, Move, pop, find_none,
  uncount, raise, lower, put_back, overflow, drop, add, System, Step, goes, start, Reach, here,
  next,
}

-- Whether the count includes a connection, or an attempt, of the goroutine.
abbrev pub counted : Pc → ℕ
counted (popped last) = 1
counted stale = 1
counted dialing = 1
counted failed = 1
counted (holding c) = 1
counted _ = 0

-- The same, with those that have found no idle connection and may go on to dial.
abbrev pub busy : Pc → ℕ
busy outside = 0
busy (closing c) = 0
busy _ = 1

-- `n` goroutines on a pool that keeps at most `max` idle connections.
pub record Tally (n max : ℕ) (m : Shared) (pc : ℕ → Pc) : Type 0 where
  pub exact : m.pool.count ≡ pos (length m.pool.free + total counted n pc)
  pub few : length m.pool.free + total busy n pc ≤ n
  pub kept : length m.pool.free ≤ max

length-unsnoc :
    (xs : List IdleConn) {rest : List IdleConn} {last : IdleConn}
    → unsnoc xs ≡ some (rest, last)
    → length xs ≡ suc (length rest)
length-unsnoc xs {rest} {last} h = elim (unsnoc-cases xs) [
  | inl (empty, _) ↦ cc
  | inr (ys, y, split, whole) ↦
      let e : ys ≡ rest = ground arith in
      rw (← e) (ap length whole ∙ length-append ys (y ∷ []) ∙ omega arith)
]

unsnoc-none : (xs : List IdleConn) → unsnoc xs ≡ none → length xs ≡ 0
unsnoc-none [] h = refl
unsnoc-none (x ∷ xs) h = cc

counted-le-busy : (p : Pc) → counted p ≤ busy p
counted-le-busy p = ground arith

busy-le-one : (p : Pc) → busy p ≤ 1
busy-le-one p = ground arith

-- The sums when goroutine `i` goes from `p` to `p'`.
record Sums (n : ℕ) (pc : ℕ → Pc) (i : ℕ) (p p' : Pc) : Type 0 where
  counts : total counted n (assign pc i p') + counted p ≡ total counted n pc + counted p'
  busies : total busy n (assign pc i p') + busy p ≡ total busy n pc + busy p'
  before : total counted n pc ≤ total busy n pc
  after : total counted n (assign pc i p') ≤ total busy n (assign pc i p')
  room : total busy n (assign pc i p') ≤ n

sums : (n : ℕ) (pc : ℕ → Pc) (i : ℕ) (p' : Pc) → i < n → Sums n pc i (pc i) p'
sums n pc i p' lt = record {
  counts = total-assign counted n pc i p' lt;
  busies = total-assign busy n pc i p' lt;
  before = total_mono counted busy n pc counted-le-busy;
  after = total_mono counted busy n (assign pc i p') counted-le-busy;
  room = total-le_length busy n (assign pc i p') busy-le-one;
}

module _ {n max : ℕ} {pc : ℕ → Pc} (small : n < 2 ^ 31) (i : ℕ) where
  -- Lowering the count of a pool that has a connection.
  lowered :
      (m : Shared) {p p' : Pc}
      → Tally n max m pc
      → Sums n pc i p p'
      → counted p ≡ suc (counted p')
      → (add (negsuc 0) m).pool.count ≡ pos (length m.pool.free + total counted n (assign pc i p'))
  lowered m {p} {p'} v f less =
      let e : m.pool.count ≡ pos (suc (length m.pool.free + total counted n (assign pc i p'))) =
        v.exact ∙ ap pos (omega arith) in
      rw (e, int32_dec (length m.pool.free + total counted n (assign pc i p')) (omega arith)) refl

  raised :
      (m : Shared) {p p' : Pc}
      → Tally n max m pc
      → Sums n pc i p p'
      → counted p' ≡ suc (counted p)
      → busy p' ≡ busy p
      → (add (pos 1) m).pool.count ≡ pos (length m.pool.free + total counted n (assign pc i p'))
  raised m {p} {p'} v f more same =
      rw (v.exact, int32_inc (length m.pool.free + total counted n pc) (omega arith))
        (ap pos (omega arith))

  Move-Tally :
      {fresh : Conn → Type 0} {settings : Settings} {m m' : Shared} {p p' : Pc}
      → settings.max_upstream_connections_per_host ≡ pos max
      → Move fresh settings m p m' p'
      → Tally n max m pc
      → Sums n pc i p p'
      → Tally n max m' (assign pc i p')
  Move-Tally {m = m} limit (pop h) v f = record {
    exact = v.exact ∙ ap pos (omega (arith, length-unsnoc m.pool.free h));
    few = omega (arith, length-unsnoc m.pool.free h);
    kept = omega (arith, length-unsnoc m.pool.free h);
  }
  Move-Tally {m = m} limit (find_none h) v f = record {
    exact = v.exact ∙ ap pos (omega arith);
    few = omega (arith, unsnoc-none m.pool.free h);
    kept = v.kept;
  }
  Move-Tally {m = m} limit uncount v f = record {
    exact = lowered m v f refl;
    few = omega arith;
    kept = v.kept;
  }
  Move-Tally {m = m} limit raise v f = record {
    exact = raised m v f refl refl;
    few = omega arith;
    kept = v.kept;
  }
  Move-Tally {m = m} limit lower v f = record {
    exact = lowered m v f refl;
    few = omega arith;
    kept = v.kept;
  }
  Move-Tally {m = m} limit (put_back {c} now h) v f =
      let len : length (m.pool.free ++ record { conn = c; returned_at = now } ∷ [])
          ≡ suc (length m.pool.free) =
        length-append m.pool.free (record { conn = c; returned_at = now } ∷ []) ∙ omega arith in
      record { exact = v.exact ∙ ap pos (omega arith); few = omega arith; kept = ground arith }
  Move-Tally {m = m} limit (overflow h) v f = record {
    exact = lowered m v f refl;
    few = omega arith;
    kept = v.kept;
  }
  Move-Tally {m = m} limit drop v f = record {
    exact = lowered m v f refl;
    few = omega arith;
    kept = v.kept;
  }
  Move-Tally limit mv v f = record {
    exact = v.exact ∙ ap pos (omega arith);
    few = omega arith;
    kept = v.kept;
  }

-- Every step of a goroutine keeps the invariant.
Step-Tally :
    {n max : ℕ} {settings : Settings} {s t : System}
    → n < 2 ^ 31
    → settings.max_upstream_connections_per_host ≡ pos max
    → Step n settings s t
    → Tally n max s.shared s.pc
    → Tally n max t.shared t.pc
Step-Tally {n} {s = s} small limit (goes i {p = p} lt mv) v =
    Move-Tally small i limit mv v (sums n s.pc i p lt)

start-Tally : (n max : ℕ) → Tally n max start.shared start.pc
start-Tally n max =
    let none_counted = total-zero counted n (λ _. outside) (λ i. refl) in
    let none_busy = total-zero busy n (λ _. outside) (λ i. refl) in
    record { exact = ap pos (omega arith); few = omega arith; kept = omega arith }

-- However fewer than 2 ^ 31 goroutines interleave on a pool with the limit `max`: the count is that
-- of the idle connections, of those that are taken and of the attempts to dial; these, together with
-- the goroutines that are about to dial, are at most as many as the goroutines; and at most `max`
-- connections are idle.
pub Reach-Tally :
    {n max : ℕ} {settings : Settings} {s : System}
    → n < 2 ^ 31
    → settings.max_upstream_connections_per_host ≡ pos max
    → Reach n settings s
    → Tally n max s.shared s.pc
Reach-Tally {n} {max} small limit here = start-Tally n max
Reach-Tally small limit (next r st) = Step-Tally small limit st (Reach-Tally small limit r)

-- When no goroutine is in a call or has a connection, every connection that is counted is idle, and
-- the limit holds.
pub Reach-quiet :
    {n max : ℕ} {settings : Settings} {s : System}
    → n < 2 ^ 31
    → settings.max_upstream_connections_per_host ≡ pos max
    → Reach n settings s
    → ((i : ℕ) → s.pc i ≡ outside)
    → (s.shared.pool.count ≡ pos (length s.shared.pool.free)) × (length s.shared.pool.free ≤ max)
Reach-quiet {n} {s = s} small limit r quiet =
    let v = Reach-Tally small limit r in
    let none_counted = total-zero counted n s.pc (λ i. ap counted (quiet i)) in
    (v.exact ∙ ap pos (omega arith), v.kept)
