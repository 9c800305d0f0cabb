-- ===== src/Proxy/Race.antt =====
-- resolveUpstream() of internal/proxy/handler.go, with Random and Append of
-- internal/upstream/upstream.go, by the steps in which the goroutines of requests interleave on the
-- list of upstreams that they share without a lock. A step is one read or write of the map or of the
-- slice, Random's three reads of the slice among them.
pub mod Solo
pub mod Sound
pub mod Lost
pub mod Panic
use fasthttpproxy.Common.{
  subst, sym, ℕ, ◌<◌, Option, none, some, List, [], ◌∷◌, ◌++◌, ◌≡◌, ◌≢◌, length, get_elem?,
}
use fasthttpproxy.Common.Text.{Str}
use fasthttpproxy.Common.Threads.{assign}
use fasthttpproxy.Pool.State.{update}
use fasthttpproxy.Upstream.Address.{Url, Upstream, with_scheme}
use fasthttpproxy.Upstream.Upstreams.{Upstreams, no_upstreams, upstream_of}

-- Where a goroutine stands in resolveUpstream(), with its Host and then the address made of it.
pub data Stage : Type 0 where
  arriving : Str → Stage  -- Random, at the test for an empty slice
  drawing : Stage  -- Random, at the call of rand.Intn with the length of the slice
  indexing : ℕ → Stage  -- Random, with the number drawn, at the index into the slice
  panicked : Stage  -- Random has panicked
  refused : Stage  -- it is answered by 400, for it has no Host
  unlisted : Str → Stage  -- Append, at the look into the map
  unmapped : Str → Stage  -- Append, before the write of the map
  mapped : Str → Stage  -- Append, before the read of the slice
  appending : Str → List Upstream → Stage  -- Append, before the write of the slice, with what it read
  resolved : Str → Stage  -- it goes on with this address

pub record Racers : Type 0 where
  pub list : Upstreams
  pub stage : ℕ → Stage

-- No upstream is configured, and each goroutine has a request.
abbrev pub arrivals : (ℕ → Str) → Racers
arrivals host = record { list = no_upstreams; stage = λ i. arriving (host i) }

module _ (parse : Str → Option Url) where
  -- The steps of a goroutine on the upstreams. rand.Intn panics on a length of 0, and the index when
  -- it is out of range.
  pub data Access (u : Upstreams) : Stage → Upstreams → Stage → Type 0 where
    some_listed : {host : Str} → u.keys ≢ [] → Access u (arriving host) u drawing
    draw : (i : ℕ) → i < length u.keys → Access u drawing u (indexing i)
    draw_none : u.keys ≡ [] → Access u drawing u panicked
    index :
        {i : ℕ} {k : Upstream}
        → get_elem? u.keys i ≡ some k
        → Access u (indexing i) u (resolved k.address)
    out_of_range : {i : ℕ} → get_elem? u.keys i ≡ none → Access u (indexing i) u panicked
    refuse : {host : Str} → u.keys ≡ [] → host ≡ [] → Access u (arriving host) u refused
    find_none :
        {host : Str}
        → u.keys ≡ []
        → host ≢ []
        → Access u (arriving host) u (unlisted (with_scheme host))
    find :
        {addr : Str} {k : Upstream} → u.m addr ≡ some k → Access u (unlisted addr) u (resolved addr)
    miss : {addr : Str} → u.m addr ≡ none → Access u (unlisted addr) u (unmapped addr)
    put :
        {addr : Str}
        → Access u
            (unmapped addr)
            (record u { m = update u.m addr (some (upstream_of parse addr)) })
            (mapped addr)
    load : {addr : Str} → Access u (mapped addr) u (appending addr u.keys)
    extend :
        {addr : Str} {keys : List Upstream}
        → Access u
            (appending addr keys)
            (record u { keys = keys ++ upstream_of parse addr ∷ [] })
            (resolved addr)

  -- One of the goroutines 0, …, n - 1 makes a step.
  pub data Racing (n : ℕ) (s : Racers) : Racers → Type 0 where
    steps :
        (i : ℕ) {u : Upstreams} {p : Stage}
        → i < n
        → Access s.list (s.stage i) u p
        → Racing n s (record { list = u; stage = assign s.stage i p })

  pub data Raced (n : ℕ) (start : Racers) : Racers → Type 0 where
    begin : Raced n start start
    after : {s t : Racers} → Raced n start s → Racing n s t → Raced n start t

  -- One more step, of a goroutine that is known to be at this stage.
  pub then_steps :
      {n : ℕ} {start s : Racers} (i : ℕ) (p : Stage) {u : Upstreams} {p' : Stage}
      → Raced n start s
      → i < n
      → s.stage i ≡ p
      → Access s.list p u p'
      → Raced n start (record { list = u; stage = assign s.stage i p' })
  then_steps {s = s} i p {u} {p'} r lt e a =
      after r (steps i lt (subst (λ q. Access s.list q u p') (sym e) a))
