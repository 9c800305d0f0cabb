-- ===== src/Examples/Upstreams.antt =====
-- Requests that interleave on the list of upstreams, at concrete inputs.
use fasthttpproxy.Common.{
  ℕ, ◌<◌, ◌-◌, Option, none, some, [], ◌∷◌, true, false, ◌⊎◌, ◌≢◌, ◌≡◌, ◌==◌, refl, arith,
  if◌then◌else◌,
}
use fasthttpproxy.Common.Text.{Str, codes}
use fasthttpproxy.Common.Threads.{assign}
use fasthttpproxy.Pool.State.{update}
use fasthttpproxy.Upstream.Address.{Url, with_scheme}
use fasthttpproxy.Upstream.Upstreams.{Upstreams, no_upstreams, append, upstream_of, random}
use fasthttpproxy.Proxy.Handler.{resolve_upstream}
use fasthttpproxy.Proxy.Race.{
  Stage, arriving, panicked, refused, unlisted, unmapped, mapped, appending, resolved, find_none,
  miss, put, load, extend, Racers, arrivals, steps, Raced, begin, after,
}
use fasthttpproxy.Proxy.Race.Solo.{Solo, resolve-Solo}
use fasthttpproxy.Proxy.Race.Sound.{Sound, Raced-Sound}
use fasthttpproxy.Proxy.Race.Lost.{appends_lost}
use fasthttpproxy.Proxy.Race.Panic.{index_panics}
use fasthttpproxy.Examples.Requests.{toy, fresh}

abbrev pub refuse : Str → Option Url
refuse s = none

abbrev two_hosts : ℕ → Str
two_hosts i = if i == 0 then codes "a" else codes "b"

resolve-Solo_example :
    let x = resolve_upstream toy refuse (λ n. n - 1) (codes "a") fresh in
    ((x.1 ≡ true)
      × Solo refuse fresh.upstreams
          (arriving (codes "a"))
          x.0.upstreams
          (resolved x.0.upstream_address))
    ⊎ ((x.1 ≡ false)
        × (x.0.upstreams ≡ fresh.upstreams)
        × Solo refuse fresh.upstreams (arriving (codes "a")) fresh.upstreams refused)
resolve-Solo_example = resolve-Solo toy refuse (λ n. n - 1) (codes "a") fresh (λ n h. omega arith)

given : (i : ℕ) → two_hosts i ≢ []
given i = ground arith

appends_lost_example :
    (s : Racers) × Raced refuse 2 (arrivals two_hosts) s
    × ((i : ℕ) → i < 2 → s.stage i ≡ resolved (with_scheme (two_hosts i)))
    × (s.list.keys ≡ upstream_of refuse (with_scheme (codes "b")) ∷ [])
    × ((i : ℕ) → i < 2 → append refuse (with_scheme (two_hosts i)) s.list ≡ s.list)
    × (random (λ n. n - 1) s.list ≡ some (upstream_of refuse (with_scheme (codes "b"))))
appends_lost_example =
    appends_lost refuse 1 two_hosts (λ n. n - 1) (λ i h. given i) (λ n h. omega arith)

index_panics_example :
    (s : Racers) × Raced refuse 4 (arrivals two_hosts) s
    × (s.stage 3 ≡ panicked)
    × ((i : ℕ) → i < 3 → s.stage i ≡ resolved (with_scheme (two_hosts i)))
    × (s.list.keys ≡ upstream_of refuse (with_scheme (codes "b")) ∷ [])
index_panics_example = index_panics refuse two_hosts (λ i h. given i)

abbrev moved : Racers → ℕ → Upstreams → Stage → Racers
moved s i u p = record { list = u; stage = assign s.stage i p }

abbrev first : Str
first = with_scheme (codes "a")

abbrev second : Str
second = with_scheme (codes "b")

-- The second request finds nothing listed, then the first one appends its Host.

abbrev waiting : Racers
waiting = moved (arrivals two_hosts) 1 no_upstreams (unlisted second)

abbrev looked : Racers
looked = moved waiting 0 no_upstreams (unlisted first)

abbrev storing : Racers
storing = moved looked 0 no_upstreams (unmapped first)

abbrev stored : Racers
stored =
    moved storing 0
      (record no_upstreams { m = update no_upstreams.m first (some (upstream_of refuse first)) })
      (mapped first)

abbrev read : Racers
read = moved stored 0 stored.list (appending first [])

abbrev written : Racers
written =
    moved read 0 (record (read.list) { keys = upstream_of refuse first ∷ [] }) (resolved first)

read-Raced : Raced refuse 2 (arrivals two_hosts) read
unfolding assign
read-Raced =
    after
      (after
        (after
          (after (after begin (steps 1 (omega arith) (find_none refl (given 1))))
            (steps 0 (omega arith) (find_none refl (given 0))))
          (steps 0 (omega arith) (miss refl)))
        (steps 0 (omega arith) put))
      (steps 0 (omega arith) load)

written-Raced : Raced refuse 2 (arrivals two_hosts) written
unfolding assign
written-Raced = after read-Raced (steps 0 (omega arith) extend)

Raced-Sound_example : Sound refuse 2 two_hosts written
Raced-Sound_example = Raced-Sound refuse 2 two_hosts written written-Raced
