-- ===== src/Proxy/Concurrent/Progress.antt =====
-- Runs of the goroutines by a list of turns. The results of the calls of other packages are at hand.
use fasthttpproxy.Common.{
  ℕ, ◌+◌, ◌-◌, ◌≤◌, ◌<◌, All, Option, none, some, List, [], ◌∷◌, ◌≡◌, refl, ◌==◌, if◌then◌else◌,
  arith,
}
use fasthttpproxy.Common.Threads.{assign, assigned}
use fasthttpproxy.Common.Net.{Reader}
use fasthttpproxy.Pool.Buffers.{Buffered}
use fasthttpproxy.Readers.PoolReader.{Call}
use fasthttpproxy.Readers.TimedReader.{timed}
use fasthttpproxy.Proxy.Fasthttp.{Fasthttp}
use fasthttpproxy.Proxy.Concurrent.Calls.{
  calls_left, IsHandled, six, none_left, BodyEnds, next_call-Goes, read_phase-stays,
}
use fasthttpproxy.Proxy.Concurrent.{System, advance, read_phase, calls, reads, Runs, start, next}

-- What a scheduler picks: the next call of a goroutine, or a Read of its answer.
pub data Turn : Type 0 where
  to_call : ℕ → Turn
  to_read : ℕ → Reader Buffered → ℕ → Call → Turn

-- The goroutine whose turn it is.
abbrev pub whose : Turn → ℕ
whose (to_call i) = i
whose (to_read i low now c) = i

-- How often a goroutine makes a call.
abbrev pub calls_of : ℕ → List Turn → ℕ
calls_of i [] = 0
calls_of i (to_call j ∷ ts) = (if i == j then 1 else 0) + calls_of i ts
calls_of i (to_read j low now c ∷ ts) = calls_of i ts

module _ (F : Fasthttp) {S W : Type 0} (src : Reader S) where
  -- The turns of a scheduler, one after another; `none` where a call has not returned.
  unfoldable pub turns : List Turn → System F S W → Option (System F S W)
  unfolding advance
  turns [] s = some s
  turns (to_call i ∷ ts) s = elim (advance F src s.shared (s.task i)) [
    | none ↦ none
    | some (m, t) ↦ turns ts (record { shared = m; task = assign s.task i t })
  ]
  turns (to_read i low now c ∷ ts) s =
      let (m, t) = read_phase F (timed low now) c (s.task i).phase s.shared (s.task i) in
      turns ts (record { shared = m; task = assign s.task i t })

  abbrev AllEnd : System F S W → Type 0
  AllEnd s = (i : ℕ) → BodyEnds F src (s.task i).phase (s.task i).env

  -- A run of `n` goroutines.
  abbrev pub RunsTo : ℕ → System F S W → System F S W → Type 0
  RunsTo n s u = Runs F src (λ v i. Unit) n s u

  -- The turns return, as a run that began at `s₀`, and each goroutine has made its calls.
  abbrev GoesOn : ℕ → System F S W → List Turn → System F S W → Option (System F S W) → Type 0
  GoesOn n s₀ ts s o =
      (u : System F S W) × (o ≡ some u)
      × RunsTo n s₀ u
      × ((i : ℕ) → calls_left F (u.task i).phase ≤ calls_left F (s.task i).phase - calls_of i ts)

  turns-GoesOn :
      (n : ℕ) {s₀ : System F S W} (ts : List Turn) (s : System F S W)
      → All (λ t. whose t < n) ts
      → RunsTo n s₀ s
      → AllEnd s
      → GoesOn n s₀ ts s (turns ts s)
  unfolding turns advance
  turns-GoesOn n [] s in_range r all = (s, refl, r, λ i. omega arith)
  turns-GoesOn n (to_call i ∷ ts) s in_range r all =
      let ((m, t), done, fewer, fine) =
        next_call-Goes F src s.shared (s.task i) (s.task i).phase (all i) in
      let v : System F S W = record { shared = m; task = assign s.task i t } in
      let (u, e, run, left) =
        turns-GoesOn n ts v in_range.1 (next r (calls i in_range.0 tt done))
          (assigned (λ x j. BodyEnds F src x.phase x.env) s.task i t fine (λ j ne. all j)) in
      let one : (j : ℕ)
          → calls_left F (v.task j).phase
            ≤ calls_left F (s.task j).phase - (if j == i then 1 else 0) =
        assigned
          (λ x j. calls_left F x.phase ≤ calls_left F (s.task j).phase - (if j == i then 1 else 0))
          s.task i t (ground (arith, fewer)) (λ j ne. ground arith) in
      (u, rw (done, turns) e, run, λ j. omega (arith, left j, one j))
  turns-GoesOn n (to_read i low now c ∷ ts) s in_range r all =
      let (m, t) = read_phase F (timed low now) c (s.task i).phase s.shared (s.task i) in
      let (same, fine) =
        read_phase-stays F src low now c (s.task i).phase s.shared (s.task i) refl (all i) in
      let v : System F S W = record { shared = m; task = assign s.task i t } in
      let (u, e, run, left) =
        turns-GoesOn n ts v in_range.1 (next r (reads i low now c in_range.0 refl))
          (assigned (λ x j. BodyEnds F src x.phase x.env) s.task i t fine (λ j ne. all j)) in
      let one : (j : ℕ) → calls_left F (v.task j).phase ≤ calls_left F (s.task j).phase =
        assigned (λ x j. calls_left F x.phase ≤ calls_left F (s.task j).phase) s.task i t same
          (λ j ne. omega arith) in
      (u, e, run, λ j. omega (arith, left j, one j))

  -- The turns as a run of `n` goroutines, each call with its result at hand: how runs are made of a
  -- list of turns.
  pub turns-IsHandled :
      (n : ℕ) (ts : List Turn) (s : System F S W) (i : ℕ)
      → All (λ t. whose t < n) ts
      → ((j : ℕ) → BodyEnds F src (s.task j).phase (s.task j).env)
      → 6 ≤ calls_of i ts
      → (u : System F S W) × (turns ts s ≡ some u)
        × Runs F src (λ v j. Unit) n s u
        × IsHandled F (u.task i).phase
  turns-IsHandled n ts s i in_range all enough =
      let (u, e, run, left) = turns-GoesOn n ts s in_range start all in
      (
        u,
        e,
        run,
        none_left F (u.task i).phase (omega (arith, left i, six F (s.task i).phase, enough)),
      )
