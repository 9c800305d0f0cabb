-- ===== src/Proxy/Race/Sound.antt =====
-- What holds of the upstreams however the requests interleave in resolveUpstream().
use fasthttpproxy.Common.{
  get_elem?-All, ℕ, ◌<◌, Bool-cases, Option, some, [], ◌∷◌, ◌++◌, ◌≡◌, ◌≢◌, refl, sym, ap, ◌∙◌,
  subst, inl, inr, All, All-map, All-snoc,
}
use mathlib.Core.Option.{some_inj}
use fasthttpproxy.Common.Text.{Str, str_eq, str_eq_iff}
use fasthttpproxy.Common.Threads.{assign, assigned}
use fasthttpproxy.Pool.State.{update, update_self, update_ne}
use fasthttpproxy.Upstream.Address.{Url, Upstream, with_scheme}
use fasthttpproxy.Upstream.Upstreams.{Upstreams, upstream_of}
use fasthttpproxy.Proxy.Resolve.{address-upstream_of}
use fasthttpproxy.Proxy.Race.{
  Stage, arriving, drawing, indexing, panicked, refused, unlisted, unmapped, mapped, appending,
  resolved, Access, some_listed, draw, draw_none, index, out_of_range, refuse, find_none, find,
  miss, put, load, extend, Racers, arrivals, steps, Raced, begin, after,
}

module _ (parse : Str → Option Url) (n : ℕ) (host : ℕ → Str) where
  -- The address made of the Host of a request.
  abbrev own : ℕ → Str
  own i = with_scheme (host i)

  -- The map has the upstream of this address.
  abbrev pub InMap : Upstreams → Str → Type 0
  InMap u addr = u.m addr ≡ some (upstream_of parse addr)

  -- The address is of the request's Host, which is not empty.
  abbrev pub Owns : ℕ → Str → Type 0
  Owns i addr = (addr ≡ own i) × (host i ≢ [])

  -- The address is of the Host of one of the requests.
  abbrev pub Asked : Str → Type 0
  Asked addr = (i : ℕ) × (i < n) × Owns i addr

  abbrev pub Known : Upstreams → Str → Type 0
  Known u addr = Asked addr × InMap u addr

  abbrev pub Listed : Upstreams → Upstream → Type 0
  Listed u k = Known u k.address × (k ≡ upstream_of parse k.address)

  -- What a request knows at its stage.
  abbrev pub AtStage : Upstreams → ℕ → Stage → Type 0
  AtStage u i (arriving host') = host' ≡ host i
  AtStage u i drawing = Unit
  AtStage u i (indexing j) = Unit
  AtStage u i panicked = Unit
  AtStage u i refused = host i ≡ []
  AtStage u i (unlisted addr) = Owns i addr
  AtStage u i (unmapped addr) = Owns i addr
  AtStage u i (mapped addr) = Owns i addr × InMap u addr
  AtStage u i (appending addr keys) = Owns i addr × InMap u addr × All (Listed u) keys
  AtStage u i (resolved addr) = Known u addr

  -- Each listed upstream is that of the Host of a request and is in the map, like the address to which
  -- a request is resolved.
  pub record Sound (s : Racers) : Type 0 where
    pub in_map :
        (addr : Str) (k : Upstream)
        → s.list.m addr ≡ some k
        → (k ≡ upstream_of parse addr) × Asked addr
    pub listed : All (Listed s.list) s.list.keys
    pub stages : (i : ℕ) → i < n → AtStage s.list i (s.stage i)

  pub put-InMap :
      (u : Upstreams) (addr b : Str)
      → InMap u b
      → InMap (record u { m = update u.m addr (some (upstream_of parse addr)) }) b
  put-InMap u addr b v = elim (Bool-cases (str_eq addr b)) [
    | inl same ↦
        let e = (str_eq_iff addr b).0 same in
        subst (λ c. update u.m addr (some (upstream_of parse addr)) c ≡ some (upstream_of parse c))
          e (update_self u.m addr (some (upstream_of parse addr)))
    | inr other ↦
        update_ne u.m addr (some (upstream_of parse addr)) b
          (λ e. let yes = (str_eq_iff addr b).1 e in absurd (cc))
        ∙ v
  ]

  put-in_map :
      (u : Upstreams) (addr : Str)
      → Asked addr
      → ((b : Str) (k : Upstream) → u.m b ≡ some k → (k ≡ upstream_of parse b) × Asked b)
      → (b : Str) (k : Upstream) → update u.m addr (some (upstream_of parse addr)) b ≡ some k
      → (k ≡ upstream_of parse b) × Asked b
  put-in_map u addr asked v b k e = elim (Bool-cases (str_eq addr b)) [
    | inl same ↦
        subst
          (λ c.
            update u.m addr (some (upstream_of parse addr)) c ≡ some k
            → (k ≡ upstream_of parse c) × Asked c)
          ((str_eq_iff addr b).0 same)
          (λ e'. (
            sym ((some_inj).0 (sym (update_self u.m addr (some (upstream_of parse addr))) ∙ e')),
            asked,
          ))
          e
    | inr other ↦
        let ne : addr ≢ b = λ e'. let yes = (str_eq_iff addr b).1 e' in absurd (cc) in
        v b k (sym (update_ne u.m addr (some (upstream_of parse addr)) b ne) ∙ e)
  ]

  module _ (u u' : Upstreams) (grows : (b : Str) → InMap u b → InMap u' b) where
    Listed-grows : (k : Upstream) → Listed u k → Listed u' k
    Listed-grows k ((asked, v), same) = ((asked, grows k.address v), same)

    AtStage-grows : (i : ℕ) (p : Stage) → AtStage u i p → AtStage u' i p
    AtStage-grows i (arriving host') v = v
    AtStage-grows i drawing v = v
    AtStage-grows i (indexing j) v = v
    AtStage-grows i panicked v = v
    AtStage-grows i refused v = v
    AtStage-grows i (unlisted addr) v = v
    AtStage-grows i (unmapped addr) v = v
    AtStage-grows i (mapped addr) (e, v) = (e, grows addr v)
    AtStage-grows i (appending addr keys) (e, v, all) =
        (e, grows addr v, All-map Listed-grows keys all)
    AtStage-grows i (resolved addr) (asked, v) = (asked, grows addr v)

  upstream_of-Listed :
      (u : Upstreams) (i : ℕ) {addr : Str}
      → i < n
      → Owns i addr
      → InMap u addr
      → Listed u (upstream_of parse addr)
  upstream_of-Listed u i {addr} lt e v =
      let same : (upstream_of parse addr).address ≡ addr =
        rw (e.0) (address-upstream_of parse (host i)) in
      subst (λ a. Known u a × (upstream_of parse addr ≡ upstream_of parse a)) (sym same)
        (((i, lt, e), v), refl)

  module _ (s : Racers) (i : ℕ) (lt : i < n) (v : Sound s) where
    settle :
        (u : Upstreams) (p : Stage)
        → ((b : Str) → InMap s.list b → InMap u b)
        → ((b : Str) (k : Upstream) → u.m b ≡ some k → (k ≡ upstream_of parse b) × Asked b)
        → All (Listed u) u.keys
        → AtStage u i p
        → Sound (record { list = u; stage = assign s.stage i p })
    settle u p grows in_map listed here = record {
      in_map = in_map;
      listed = listed;
      stages =
          assigned (λ q j. j < n → AtStage u j q) s.stage i p (λ _. here)
            (λ j ne lt'. AtStage-grows s.list u grows j (s.stage j) (v.stages j lt'));
    }

    -- Nothing is written.
    look : (p : Stage) → AtStage s.list i p → Sound (record s { stage = assign s.stage i p })
    look p here = settle s.list p (λ b w. w) v.in_map v.listed here

    Access-Sound :
        {u : Upstreams} {p p' : Stage}
        → AtStage s.list i p
        → Access parse s.list p u p'
        → Sound (record { list = u; stage = assign s.stage i p' })
    Access-Sound at (some_listed full) = look drawing tt
    Access-Sound at (draw j small) = look (indexing j) tt
    Access-Sound at (draw_none empty) = look panicked tt
    Access-Sound at (index {i = j} {k = k} there) =
        look (resolved k.address) (get_elem?-All (Listed s.list) s.list.keys j v.listed there).0
    Access-Sound at (out_of_range out) = look panicked tt
    Access-Sound at (refuse empty nobody) = look refused (sym at ∙ nobody)
    Access-Sound at (find_none {host = host'} empty given) =
        look (unlisted (with_scheme host')) (ap with_scheme at, λ e. given (at ∙ e))
    Access-Sound at (find {addr = addr} {k = k} there) =
        look (resolved addr) ((i, lt, at), there ∙ ap some (v.in_map addr k there).0)
    Access-Sound at (miss {addr = addr} missing) = look (unmapped addr) at
    Access-Sound at (put {addr = addr}) =
        let grows = put-InMap s.list addr in
        let u = record (s.list) { m = update s.list.m addr (some (upstream_of parse addr)) } in
        settle u (mapped addr) grows (put-in_map s.list addr (i, lt, at) v.in_map)
          (All-map (Listed-grows s.list u grows) s.list.keys v.listed)
          (at, update_self s.list.m addr (some (upstream_of parse addr)))
    Access-Sound at (load {addr = addr}) = look (appending addr s.list.keys) (at.0, at.1, v.listed)
    Access-Sound at (extend {addr = addr} {keys = keys}) =
        let u = record (s.list) { keys = keys ++ upstream_of parse addr ∷ [] } in
        settle u (resolved addr) (λ b w. w) v.in_map
          (All-snoc (Listed s.list) keys (upstream_of parse addr) at.2
            (upstream_of-Listed s.list i lt at.0 at.1))
          ((i, lt, at.0), at.1)

  -- However the first requests interleave where no upstream is configured: each upstream that is
  -- listed is that of the Host of one of them, which is not empty, and so is each address to which a
  -- request is resolved; all of these are in the map, and nothing is in the map under an address that
  -- is not its own. A request is refused by 400 only where its Host is empty.
  pub Raced-Sound : (s : Racers) → Raced parse n (arrivals host) s → Sound s
  Raced-Sound s begin = record {
    in_map = λ addr k e. absurd (cc);
    listed = tt;
    stages = λ i lt. refl;
  }
  Raced-Sound s (after {s = r} before (steps i lt a)) =
      let v = Raced-Sound r before in Access-Sound r i lt v (v.stages i lt) a
