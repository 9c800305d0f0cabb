-- ===== src/Upstream/Choice.antt =====
-- Which upstreams the random choice can return, and how Append grows the list.
use fasthttpproxy.Common.{
  ℕ, ◌<◌, ◌==◌, ==_iff, Bool-cases, Option-cases, Option, none, some, List, [], ◌∷◌, ◌++◌, ◌≡◌, ◌≢◌,
  refl, sym, ◌∙◌, inl, inr, ◌⊎◌, arith, length, map, get_elem?, get_elem?-total, append_assoc,
  append-nil,
}
use fasthttpproxy.Common.Text.{Str}
use fasthttpproxy.Pool.State.{update_self}
use fasthttpproxy.Upstream.Address.{Upstream, Url}
use fasthttpproxy.Upstream.Upstreams.{
  Upstreams, no_upstreams, upstream_of, insert, add_each, new_upstreams, append, random,
}

some-ne-none {ℓ} : {A : Type ℓ} {a : A} → some a ≢ none
some-ne-none h = cc

module _ (parse : Str → Option Url) where
  pub append-missing :
      (addr : Str) (u : Upstreams) → u.m addr ≡ none → append parse addr u ≡ insert parse addr u
  unfolding append
  append-missing addr u h = rw (h, append) refl

  pub append-present :
      (addr : Str) (u : Upstreams) {v : Upstream} → u.m addr ≡ some v → append parse addr u ≡ u
  unfolding append
  append-present addr u h = rw (h, append) refl

  add_each-keys :
      (list : List Str) (u : Upstreams)
      → (add_each parse list u).keys ≡ u.keys ++ map (upstream_of parse) list
  unfolding add_each
  add_each-keys [] u = sym (append-nil u.keys)
  add_each-keys (a ∷ list) u =
      add_each-keys list (insert parse a u)
      ∙ append_assoc u.keys (upstream_of parse a ∷ []) (map (upstream_of parse) list)

  -- NewUpstreams lists one upstream for each address, in order, a repeated address as often as it is given.
  pub new_upstreams-keys :
      (list : List Str) → (new_upstreams parse list).keys ≡ map (upstream_of parse) list
  unfolding new_upstreams
  new_upstreams-keys list = add_each-keys list no_upstreams

  -- Appending an address twice is appending it once; an address that was not in the map is listed at
  -- the end, and from then on is in the map.
  pub append_lem :
      (addr : Str) (u : Upstreams)
      → (append parse addr (append parse addr u) ≡ append parse addr u)
        × ((u.m addr ≡ none) → (append parse addr u).keys ≡ u.keys ++ upstream_of parse addr ∷ [])
        × ((append parse addr u).m addr ≢ none)
  append_lem addr u = elim (Option-cases (u.m addr)) [
    | inl missing ↦
        let e = append-missing addr u missing in
        let there = update_self u.m addr (some (upstream_of parse addr)) in
        rw e (
          append-present addr (insert parse addr u) there,
          (λ _. refl),
          λ h. some-ne-none (sym there ∙ h),
        )
    | inr (v, present) ↦
        let e = append-present addr u present in
        rw e
          (e, (λ h. absurd (some-ne-none (sym present ∙ h))), λ h. some-ne-none (sym present ∙ h))
  ]

length-zero {ℓ} : {A : Type ℓ} (l : List A) → length l ≡ 0 → l ≡ []
length-zero [] h = refl
length-zero (x ∷ l) h = absurd (omega arith)

-- For a source of numbers like rand.Intn, Random fails just on an empty list, and else returns one of
-- its upstreams.
pub random_lem :
    (intn : ℕ → ℕ) (u : Upstreams)
    → ((n : ℕ) → 0 < n → intn n < n)
    → ((u.keys ≡ []) × (random intn u ≡ none))
      ⊎ ((i : ℕ) × (k : Upstream) × (random intn u ≡ some k) × (get_elem? u.keys i ≡ some k))
unfolding random
random_lem intn u law = elim (Bool-cases (length u.keys == 0)) [
  | inl empty ↦ inl (length-zero u.keys ((==_iff (length u.keys) 0).0 empty), rw empty)
  | inr full ↦
      let some_keys : 0 < length u.keys = ground arith in
      let (k, e) = get_elem?-total u.keys (intn (length u.keys)) (law (length u.keys) some_keys) in
      inr (intn (length u.keys), k, rw full e, e)
]

pub random_single :
    (intn : ℕ → ℕ) (u : Upstreams) (k : Upstream)
    → ((n : ℕ) → 0 < n → intn n < n)
    → u.keys ≡ k ∷ []
    → random intn u ≡ some k
unfolding random
random_single intn u k law h =
    let zero_only : intn 1 ≡ 0 = omega (arith, law 1 (omega arith)) in rw h (rw zero_only refl)
