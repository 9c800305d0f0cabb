-- ===== src/Proxy/Race/Panic.antt =====
-- Random reads the slice three times, and Append can write an older one between two of them.
use fasthttpproxy.Common.{ℕ, ◌<◌, Option, [], ◌∷◌, ◌≡◌, ◌≢◌, refl, arith}
use fasthttpproxy.Common.Text.{Str}
use fasthttpproxy.Common.Threads.{assign}
use fasthttpproxy.Upstream.Address.{Url, with_scheme}
use fasthttpproxy.Upstream.Upstreams.{upstream_of}
use fasthttpproxy.Proxy.Race.{
  arriving, drawing, indexing, panicked, unlisted, unmapped, mapped, appending, resolved,
  some_listed, draw, out_of_range, find_none, miss, put, load, extend, Racers, arrivals, then_steps,
  Raced, begin,
}

-- Where no upstream is configured, for any three requests with a Host each and any fourth there is a
-- schedule in which the first three are resolved, each to its own Host, and the fourth panics in
-- Random: it draws the number 1 where two upstreams are listed, and takes the index when the third
-- request has written the slice with its own Host alone.
pub index_panics :
    (parse : Str → Option Url) (host : ℕ → Str)
    → ((i : ℕ) → i < 3 → host i ≢ [])
    → (s : Racers) × Raced parse 4 (arrivals host) s
      × (s.stage 3 ≡ panicked)
      × ((i : ℕ) → i < 3 → s.stage i ≡ resolved (with_scheme (host i)))
      × (s.list.keys ≡ upstream_of parse (with_scheme (host 2)) ∷ [])
unfolding assign
index_panics parse host given =
    let a = with_scheme (host 0) in
    let b = with_scheme (host 1) in
    let c = with_scheme (host 2) in
    let first = upstream_of parse a in
    let found₀ =
      then_steps parse 0 (arriving (host 0)) begin (omega arith) refl
        (find_none refl (given 0 (omega arith))) in
    let found₁ =
      then_steps parse 1 (arriving (host 1)) found₀ (omega arith) refl
        (find_none refl (given 1 (omega arith))) in
    let found₂ =
      then_steps parse 2 (arriving (host 2)) found₁ (omega arith) refl
        (find_none refl (given 2 (omega arith))) in
    let missed₀ = then_steps parse 0 (unlisted a) found₂ (omega arith) refl (miss refl) in
    let missed₁ = then_steps parse 1 (unlisted b) missed₀ (omega arith) refl (miss refl) in
    let missed₂ = then_steps parse 2 (unlisted c) missed₁ (omega arith) refl (miss refl) in
    let put₀ = then_steps parse 0 (unmapped a) missed₂ (omega arith) refl put in
    let put₁ = then_steps parse 1 (unmapped b) put₀ (omega arith) refl put in
    let put₂ = then_steps parse 2 (unmapped c) put₁ (omega arith) refl put in
    let loaded₀ = then_steps parse 0 (mapped a) put₂ (omega arith) refl load in
    let loaded₂ = then_steps parse 2 (mapped c) loaded₀ (omega arith) refl load in
    let one = then_steps parse 0 (appending a []) loaded₂ (omega arith) refl extend in
    let loaded₁ = then_steps parse 1 (mapped b) one (omega arith) refl load in
    let two = then_steps parse 1 (appending b (first ∷ [])) loaded₁ (omega arith) refl extend in
    let tested =
      then_steps parse 3 (arriving (host 3)) two (omega arith) refl (some_listed (λ e. cc)) in
    let drawn = then_steps parse 3 drawing tested (omega arith) refl (draw 1 (omega arith)) in
    let over = then_steps parse 2 (appending c []) drawn (omega arith) refl extend in
    let last = then_steps parse 3 (indexing 1) over (omega arith) refl (out_of_range refl) in
    (_, last, refl, (λ i lt. ground arith), refl)
