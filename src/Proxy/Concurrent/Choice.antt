-- ===== src/Proxy/Concurrent/Choice.antt =====
-- Where requests are sent while goroutines handle them, if upstreams are configured.
use fasthttpproxy.Common.{
  ℕ, ◌<◌, Option, Option-cases, none, some, [], ◌≡◌, ◌≢◌, refl, sym, ap, ◌∙◌, subst, inl, inr,
  arith, if◌then◌else◌, get_elem?,
}
use fasthttpproxy.Common.Threads.{assign, assigned}
use fasthttpproxy.Common.Text.{Str}
use fasthttpproxy.Common.Net.{Conn, Reader}
use fasthttpproxy.Pool.Buffers.{Buffered}
use fasthttpproxy.Readers.PoolReader.{Call}
use fasthttpproxy.Readers.TimedReader.{timed}
use fasthttpproxy.Upstream.Upstreams.{Upstreams}
use fasthttpproxy.Upstream.Address.{Upstream}
use fasthttpproxy.Upstream.Choice.{random_lem}
use fasthttpproxy.Proxy.Fasthttp.{Fasthttp}
use fasthttpproxy.Proxy.State.{Handler, Request, Body}
use fasthttpproxy.Proxy.Handler.{
  acquire_upstream_conn, write_request_headers, write_request_body, read_response_headers,
  stream_response_body,
}
use fasthttpproxy.Proxy.Keeps.{
  Keeps, IfDone, write_headers-Keeps, write_request_body-Keeps, read_headers-Keeps, copy-Keeps,
}
use fasthttpproxy.Proxy.Resolve.{resolve_by_list}
use fasthttpproxy.Proxy.Concurrent.{
  Shared, Phase, resolving, acquiring, heading, sending, reading, copying, dropping, streaming,
  ended, Task, System, view, kept, heading_if, copying_if, next_call, advance, read_phase,
  read_phase-both, Step, calls, reads, Runs, start, next,
}

-- An address of the list.
abbrev pub IsListed : Upstreams → Str → Type 0
IsListed u addr = (i : ℕ) × (k : Upstream) × (get_elem? u.keys i ≡ some k) × (k.address ≡ addr)

-- Once its upstream is resolved, a goroutine has an address of the list.
abbrev pub Sends : (F : Fasthttp) {S : Type 0} → Upstreams → Phase F S → Str → Type 0
Sends F u (resolving req) addr = Unit
Sends F u ended addr = Unit
Sends F u _ addr = IsListed u addr

sends :
    (F : Fasthttp) {S : Type 0} (u : Upstreams) (p : Phase F S) (addr : Str)
    → IsListed u addr
    → Sends F u p addr
sends F u (resolving req) addr v = tt
sends F u (acquiring b) addr v = v
sends F u (heading c b) addr v = v
sends F u (sending c b) addr v = v
sends F u (reading c) addr v = v
sends F u (copying c header reader) addr v = v
sends F u (dropping c) addr v = v
sends F u (streaming b) addr v = v
sends F u ended addr v = tt

-- rand.Intn gives a number below its argument.
abbrev pub IntnFits : (ℕ → ℕ) → Type 0
IntnFits intn = (n : ℕ) → 0 < n → intn n < n

module _ (F : Fasthttp) {S W : Type 0} (u : Upstreams) where
  -- The list of upstreams is `u`, and every goroutine that has an upstream has one of it.
  pub record Confined (s : System F S W) : Type 0 where
    pub same_list : s.shared.upstreams ≡ u
    pub fits : (i : ℕ) → IntnFits (s.task i).env.intn
    pub listed : (i : ℕ) → Sends F u (s.task i).phase (s.task i).address

  -- What a step of a goroutine leaves.
  abbrev Keeping : Task F S W → Shared × Task F S W → Type 0
  Keeping t (m', t') = (m'.upstreams ≡ u) × (t'.env ≡ t.env) × Sends F u t'.phase t'.address

  abbrev IfKeeping : Task F S W → Option (Shared × Task F S W) → Type 0
  IfKeeping t none = Unit
  IfKeeping t (some x) = Keeping t x

  module _ (src : Reader S) (some_listed : u.keys ≢ []) (m : Shared) (t : Task F S W)
      (same_list : m.upstreams ≡ u) (fits : IntnFits t.env.intn) where
    stays :
        (h : Handler F) (p : Phase F S)
        → h.upstreams ≡ m.upstreams
        → h.upstream_address ≡ t.address
        → IsListed u t.address
        → Keeping t (kept F t h p)
    stays h p same addr v =
        (same ∙ same_list, refl, sends F u p h.upstream_address (subst (IsListed u) (sym addr) v))

    keeping :
        (h : Handler F) (p : Phase F S)
        → Keeps F (view F m t) h
        → IsListed u t.address
        → Keeping t (kept F t h p)
    keeping h p k v = stays h p k.same_upstreams k.address v

    resolving-IfKeeping : (req : Request S) → IfKeeping t (next_call F src (resolving req) m t)
    unfolding next_call
    resolving-IfKeeping req = elim (random_lem t.env.intn m.upstreams fits) [
      | inl (nothing, e) ↦ absurd (some_listed (ap (λ v. v.keys) (sym same_list) ∙ nothing))
      | inr (i, k, e, at) ↦
          rw (resolve_by_list F t.env.parse t.env.intn req.host (view F m t) k e)
            (same_list, refl, (i, k, ap (λ v. get_elem? v.keys i) (sym same_list) ∙ at, refl))
    ]

    acquire-same : (acquire_upstream_conn F src t.env (view F m t)).0.upstreams ≡ m.upstreams
    unfolding acquire_upstream_conn
    acquire-same = ground arith

    acquire-address :
        (acquire_upstream_conn F src t.env (view F m t)).0.upstream_address ≡ t.address
    unfolding acquire_upstream_conn
    acquire-address = ground arith

    sending-IfKeeping :
        (c : Conn) (b : Body S)
        → IsListed u t.address
        → IfKeeping t (next_call F src (sending c b) m t)
    unfolding next_call
    sending-IfKeeping c b v = elim (Option-cases (write_request_body F src t.env b (view F m t))) [
      | inl stuck ↦ rw (stuck, next_call) tt
      | inr ((h, good), done) ↦
          rw (done, next_call)
            (keeping h (if good then reading c else dropping c)
              (subst (IfDone F src t.env (view F m t)) done
                (write_request_body-Keeps F src t.env b (view F m t)))
              v)
    ]

    call-IfKeeping : (p : Phase F S) → Sends F u p t.address → IfKeeping t (next_call F src p m t)
    unfolding next_call stream_response_body
    call-IfKeeping (resolving req) v = resolving-IfKeeping req
    call-IfKeeping (acquiring b) v =
        let x = acquire_upstream_conn F src t.env (view F m t) in
        stays x.0 (heading_if F b x.1) acquire-same acquire-address v
    call-IfKeeping (heading c b) v =
        let x = write_request_headers F src t.env c (view F m t) in
        keeping x.0 (if x.1 then sending c b else dropping c)
          (write_headers-Keeps F src t.env c (view F m t)) v
    call-IfKeeping (sending c b) v = sending-IfKeeping c b v
    call-IfKeeping (reading c) v =
        let x = read_response_headers F src t.env c (view F m t) in
        keeping x.0 (copying_if F c x.1) (read_headers-Keeps F src t.env c (view F m t)) v
    call-IfKeeping (copying c header reader) v =
        let k = copy-Keeps F src t.env header (view F m t) in
        (k.same_upstreams ∙ same_list, refl, subst (IsListed u) (sym k.address) v)
    call-IfKeeping (dropping c) v = (same_list, refl, tt)
    call-IfKeeping (streaming b) v = (same_list, refl, v)
    call-IfKeeping ended v = (same_list, refl, tt)

  read_phase-Keeping :
      (low : Reader Buffered) (now : ℕ) (c : Call) (p : Phase F S) (m : Shared) (t : Task F S W)
      → t.phase ≡ p
      → m.upstreams ≡ u
      → Sends F u p t.address
      → Keeping t (read_phase F (timed low now) c p m t)
  read_phase-Keeping low now c p m t at same v =
      let sends_at : (q : Phase F S) → p ≡ q → Sends F u q t.address =
        λ q e. subst (λ r. Sends F u r t.address) e v in
      read_phase-both F (Keeping t) (timed low now) c p m t
        (λ b streamed. (same, refl, sends_at (streaming b) streamed))
        (same, refl, sends_at t.phase (sym at))

  settle :
      (s : System F S W) (i : ℕ) (m : Shared) (t : Task F S W)
      → Confined s
      → Keeping (s.task i) (m, t)
      → Confined (record { shared = m; task = assign s.task i t })
  settle s i m t v (same, env, one) = record {
    same_list = same;
    fits =
        assigned (λ x j. IntnFits x.env.intn) s.task i t
          (subst (λ e. IntnFits e.intn) (sym env) (v.fits i)) (λ j ne. v.fits j);
    listed = assigned (λ x j. Sends F u x.phase x.address) s.task i t one (λ j ne. v.listed j);
  }

  module _ (src : Reader S) {May : System F S W → ℕ → Type 0} {n : ℕ}
      (some_listed : u.keys ≢ []) where
    Step-Confined : {s v : System F S W} → Step F src May n s v → Confined s → Confined v
    unfolding advance
    Step-Confined {s} (calls i {m} {t} lt may e) c = settle s i m t c (
        subst (IfKeeping (s.task i)) e (
          call-IfKeeping src some_listed s.shared (s.task i) c.same_list (c.fits i) (s.task i).phase
            (c.listed i)))
    Step-Confined {s} (reads i low now k {m} {t} lt e) c = settle s i m t c (
        subst (Keeping (s.task i)) e (
          read_phase-Keeping low now k (s.task i).phase s.shared (s.task i) refl c.same_list
            (c.listed i)))

    -- Where at least one upstream is configured: however the requests of `n` goroutines interleave,
    -- the list of upstreams stays as it is, and every request that has an upstream has one of the list,
    -- whatever its Host is.
    pub Runs-Confined : {s v : System F S W} → Runs F src May n s v → Confined s → Confined v
    Runs-Confined start c = c
    Runs-Confined (next r st) c = Step-Confined st (Runs-Confined r c)
