-- ===== src/Proxy/Race/Lost.antt =====
-- Append reads the slice and writes it in two steps, with nothing to keep the appends of other
-- requests out between them.
use fasthttpproxy.Common.{
  ℕ, zero, suc, ◌≤◌, ◌<◌, ltb, Option, some, [], ◌∷◌, ◌≡◌, ◌≢◌, refl, ap, ◌∙◌, subst, if◌then◌else◌,
  arith, Bool-cases, inl, inr, ◌==◌,
}
use fasthttpproxy.Common.Text.{Str}
use fasthttpproxy.Common.Threads.{assign}
use fasthttpproxy.Pool.State.{update, update_self}
use fasthttpproxy.Upstream.Address.{Url, with_scheme}
use fasthttpproxy.Upstream.Choice.{append-present, random_single}
use fasthttpproxy.Upstream.Upstreams.{Upstreams, append, upstream_of, random}
use fasthttpproxy.Proxy.Race.{
  arriving, unlisted, unmapped, mapped, appending, resolved, find_none, miss, put, load, extend,
  Racers, arrivals, then_steps, Raced, begin,
}
use fasthttpproxy.Proxy.Race.Sound.{InMap, put-InMap}

module _ (parse : Str → Option Url) (n : ℕ) (host : ℕ → Str)
    (given : (i : ℕ) → i < n → host i ≢ []) where
  abbrev own : ℕ → Str
  own i = with_scheme (host i)

  abbrev Reaches : Racers → Type 0
  Reaches = Raced parse n (arrivals host)

  -- The first `k` have not found their address in the slice or in the map.
  record Missed (k : ℕ) : Type 0 where
    last : Racers
    reach : Reaches last
    untouched : last.list ≡ (arrivals host).list
    there : (i : ℕ) → last.stage i ≡ (if ltb i k then unmapped (own i) else arriving (host i))

  missed : (k : ℕ) → k ≤ n → Missed k
  unfolding assign
  missed zero h = record {
    last = arrivals host;
    reach = begin;
    untouched = refl;
    there = λ i. ground arith;
  }
  missed (suc k) h =
      let before = missed k (omega arith) in
      let r₁ =
        then_steps parse k (arriving (host k)) before.reach h (before.there k ∙ ground arith)
          (find_none (rw before.untouched refl) (given k h)) in
      let r₂ =
        then_steps parse k (unlisted (own k)) r₁ h (ground arith)
          (miss (rw before.untouched refl)) in
      record {
        last = _;
        reach = r₂;
        untouched = before.untouched;
        there = λ i. ground (arith, before.there i);
      }

  -- The first `k` have put their address into the map and read the slice.
  record Stored (k : ℕ) : Type 0 where
    last : Racers
    reach : Reaches last
    empty : last.list.keys ≡ []
    known : (i : ℕ) → i < k → InMap parse n host last.list (own i)
    there :
        (i : ℕ)
        → i < n
        → last.stage i ≡ (if ltb i k then appending (own i) [] else unmapped (own i))

  abbrev put_at : ℕ → Upstreams → Upstreams
  put_at k u = record u { m = update u.m (own k) (some (upstream_of parse (own k))) }

  stored : (k : ℕ) → k ≤ n → Stored k
  unfolding assign
  stored zero h =
      let all = missed n (omega arith) in
      record {
        last = all.last;
        reach = all.reach;
        empty = ap (λ u. u.keys) all.untouched;
        known = λ i lt. absurd (omega (arith, lt));
        there = λ i lt. all.there i ∙ ground arith;
      }
  stored (suc k) h =
      let before = stored k (omega arith) in
      let r₁ =
        then_steps parse k (unmapped (own k)) before.reach h (before.there k h ∙ ground arith)
          put in
      let r₂ = then_steps parse k (mapped (own k)) r₁ h (ground arith) load in
      record {
        last = _;
        reach = r₂;
        empty = before.empty;
        known = λ i lt. elim (Bool-cases (i == k)) [
          | inl same ↦
              let e : k ≡ i = ground arith in
              subst (λ j. InMap parse n host (put_at k before.last.list) (own j)) e
                (update_self before.last.list.m (own k) (some (upstream_of parse (own k))))
          | inr other ↦
              put-InMap parse n host before.last.list (own k) (own i)
                (before.known i (ground arith))
        ];
        there = λ i lt. ground (arith, before.there i lt, before.empty);
      }

  -- The first `k` have written the slice, each over the one before.
  record Written (k : ℕ) : Type 0 where
    last : Racers
    reach : Reaches last
    listed : (j : ℕ) → k ≡ suc j → last.list.keys ≡ upstream_of parse (own j) ∷ []
    known : (i : ℕ) → i < n → InMap parse n host last.list (own i)
    there :
        (i : ℕ)
        → i < n
        → last.stage i ≡ (if ltb i k then resolved (own i) else appending (own i) [])

  written : (k : ℕ) → k ≤ n → Written k
  unfolding assign
  written zero h =
      let all = stored n (omega arith) in
      record {
        last = all.last;
        reach = all.reach;
        listed = λ j e. absurd (omega (arith, e));
        known = all.known;
        there = λ i lt. all.there i lt ∙ ground arith;
      }
  written (suc k) h =
      let before = written k (omega arith) in
      let r =
        then_steps parse k (appending (own k) []) before.reach h (before.there k h ∙ ground arith)
          extend in
      record {
        last = _;
        reach = r;
        listed = λ j e.
            let same : k ≡ j = omega (arith, e) in ap (λ i. upstream_of parse (own i) ∷ []) same;
        known = before.known;
        there = λ i lt. ground (arith, before.there i lt);
      }

-- Where no upstream is configured, for any number of requests with a Host each there is a schedule by
-- which they are resolved, each to its own Host, with the last one's Host alone on the list. The map
-- then has all of them, so that Append changes nothing for any of their Hosts any more, and Random,
-- for a source of numbers like rand.Intn, gives later requests the one upstream that is listed.
pub appends_lost :
    (parse : Str → Option Url) (n : ℕ) (host : ℕ → Str) (intn : ℕ → ℕ)
    → ((i : ℕ) → i < suc n → host i ≢ [])
    → ((k : ℕ) → 0 < k → intn k < k)
    → (s : Racers) × Raced parse (suc n) (arrivals host) s
      × ((i : ℕ) → i < suc n → s.stage i ≡ resolved (with_scheme (host i)))
      × (s.list.keys ≡ upstream_of parse (with_scheme (host n)) ∷ [])
      × ((i : ℕ) → i < suc n → append parse (with_scheme (host i)) s.list ≡ s.list)
      × (random intn s.list ≡ some (upstream_of parse (with_scheme (host n))))
appends_lost parse n host intn given law =
    let all = written parse (suc n) host given (suc n) (omega arith) in
    let one = all.listed n refl in
    (
      all.last,
      all.reach,
      λ i lt. all.there i lt ∙ ground arith,
      one,
      λ i lt. append-present parse (with_scheme (host i)) all.last.list (all.known i lt),
      random_single intn all.last.list (upstream_of parse (with_scheme (host n))) law one,
    )
