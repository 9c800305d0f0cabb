-- ===== src/Pool/Semaphore/Refinement.antt =====
-- The calls on the pool of an address have the results of the semaphore's.
use fasthttpproxy.Common.{
  ℕ, zero, suc, ◌+◌, ◌≤◌, ltb, true, false, Bool-cases, Option, none, some, List, [], ◌∷◌, ◌≡◌,
  refl, ap, ◌∙◌, subst, if_both, inl, inr, arith, length, unsnoc,
}
use fasthttpproxy.Common.Int.{int32, int32_small, leb_ℤ}
use native.Mathlib.Numerals.{add-one}
use fasthttpproxy.Common.Text.{Str, has_prefix}
use fasthttpproxy.Config.Prefix.{prefix_https}
use fasthttpproxy.Common.Result.{Error, Result, ok, err, err_dial_timeout}
use fasthttpproxy.Common.Net.{Conn, TlsConfig}
use fasthttpproxy.Pool.State.{PoolState, IdleConn}
use fasthttpproxy.Pool.Dial.{
  dial, dial_plain, over_tls, tls_client, parse_upstream_address_for_dial,
}
use fasthttpproxy.Pool.Upstream.{
  close, drop_idle, dialed, dial_new, acquire_upstream_connection, release_upstream_connection,
  close_and_drop_upstream_connection,
}
use fasthttpproxy.Pool.Conservation.{Holds, leases, acquire-Holds, release-Holds, drop-Holds}
use fasthttpproxy.Pool.Branches.{acquire_empty}
use fasthttpproxy.Pool.Reuse.{acquire_available}
use fasthttpproxy.Pool.Semaphore.{
  take_unit, give_unit, Op, acquire, release, drop, Clients, took, gave, call, calls, spec_call,
  spec_calls,
}

at_limit : (k max extra : ℕ) → extra + k ≤ max → ltb k max ≡ false → k ≡ max
at_limit k max extra h full = ground arith

-- No call changes the dialer.
acquire-dialer :
    (fasthttp_dial : Str → Result Conn) (now : ℕ) (e : Option Error) (addr : Str) (p : PoolState)
    → (acquire_upstream_connection fasthttp_dial now e addr p).0.custom_dial ≡ p.custom_dial
unfolding acquire_upstream_connection dial_new dialed drop_idle close
acquire-dialer fasthttp_dial now e addr p = ground arith

release-dialer :
    (now : ℕ) (e : Option Error) (addr : Str) (c : Conn) (p : PoolState)
    → (release_upstream_connection now e addr c p).custom_dial ≡ p.custom_dial
unfolding release_upstream_connection close
release-dialer now e addr c p = ground arith

drop-dialer :
    (e : Option Error) (addr : Str) (c : Conn) (p : PoolState)
    → (close_and_drop_upstream_connection e addr c p).custom_dial ≡ p.custom_dial
unfolding close_and_drop_upstream_connection close
drop-dialer e addr c p = ground arith

refused :
    (fasthttp_dial : Str → Result Conn) (p : PoolState) (addr : Str) (max : ℕ)
    → Holds max max addr p
    → dial_new fasthttp_dial p addr ≡ (p, err err_dial_timeout)
unfolding dial_new
refused fasthttp_dial p addr max v =
    let full : leb_ℤ (int32 p.settings.max_upstream_connections_per_host)
          (p.upstream_pool addr).count
        ≡ true =
      rw (v.is_limit, int32_small max v.fits, v.counted) (ground arith) in
    ground arith

-- Every connection is leased: Acquire refuses at once, and changes nothing.
acquire_exhausted :
    (fasthttp_dial : Str → Result Conn) (now : ℕ) (e : Option Error) (addr : Str) (p : PoolState)
    (max : ℕ)
    → Holds max max addr p
    → acquire_upstream_connection fasthttp_dial now e addr p ≡ (p, err err_dial_timeout)
acquire_exhausted fasthttp_dial now e addr p max v =
    acquire_empty fasthttp_dial now e addr p
      (no_idle (p.upstream_pool addr).free (omega (arith, v.bounded)))
    ∙ refused fasthttp_dial p addr max v
  where
    no_idle : (xs : List IdleConn) → length xs ≡ 0 → unsnoc xs ≡ none
    no_idle [] h = refl
    no_idle (x ∷ xs) h = absurd (omega arith)

-- What the two sides agree on: the connections held are the units taken, and are counted.
record Agrees (fasthttp_dial : Str → Result Conn) (addr : Str) (max k : ℕ) (s : Clients)
    : Type 0 where
  as_many : length s.held ≡ k
  holds : Holds max k addr s.pool
  works : (a : Str) → (c : Conn) × (dial_plain fasthttp_dial s.pool a ≡ ok c)

module _ (fasthttp_dial : Str → Result Conn) (addr : Str) (max : ℕ) where
  over_tls-works :
      (cfg : Option TlsConfig) (r : Result Conn)
      → (c : Conn) × (r ≡ ok c)
      → (c : Conn) × (over_tls cfg r ≡ ok c)
  over_tls-works none r h = h
  over_tls-works (some cfg) r (c, e) = (tls_client cfg c, rw e refl)

  dial-works :
      (p : PoolState)
      → ((a : Str) → (c : Conn) × (dial_plain fasthttp_dial p a ≡ ok c))
      → (c : Conn) × (dial fasthttp_dial p addr ≡ ok c)
  unfolding dial
  dial-works p works =
      let plain = works (parse_upstream_address_for_dial addr) in
      if_both (λ r. (c : Conn) × (r ≡ ok c)) (has_prefix addr prefix_https) _ _
        (over_tls-works p.tls_config _ plain) plain

  still_works :
      (p q : PoolState)
      → q.custom_dial ≡ p.custom_dial
      → ((a : Str) → (c : Conn) × (dial_plain fasthttp_dial p a ≡ ok c))
      → ((a : Str) → (c : Conn) × (dial_plain fasthttp_dial q a ≡ ok c))
  unfolding dial_plain
  still_works p q same works a = let (c, e) = works a in (c, rw (same, dial_plain) e)

  took-ok :
      (s : Clients) (r : PoolState × Result Conn) (c : Conn)
      → r.1 ≡ ok c
      → took fasthttp_dial addr s r ≡ (record { pool = r.0; held = c ∷ s.held }, true)
  took-ok s (p, ok d) c e = let same : d ≡ c = cc in rw same refl
  took-ok s (p, err f) c e = cc

  acquire-Agrees :
      (now : ℕ) (e : Option Error) {k : ℕ} (s : Clients)
      → Agrees fasthttp_dial addr max k s
      → let r =
          took fasthttp_dial addr s (acquire_upstream_connection fasthttp_dial now e addr s.pool) in
        let x = take_unit max k in (r.1 ≡ x.1) × Agrees fasthttp_dial addr max x.0 r.0
  unfolding take_unit
  acquire-Agrees now e {k} s v =
      let r = acquire_upstream_connection fasthttp_dial now e addr s.pool in
      elim (Bool-cases (ltb k max)) [
        | inl room ↦
            let (d, dials) = dial-works s.pool v.works in
            let (c, got) =
              acquire_available fasthttp_dial now e addr s.pool max k d v.holds (ground arith)
                dials in
            let more : Holds max (k + leases r.1) addr r.0 =
              acquire-Holds fasthttp_dial now e addr s.pool v.holds in
            rw (room, took-ok s r c got)
              (
                refl,
                record {
                  as_many = ap suc v.as_many;
                  holds =
                      rw (← add-one k) (subst (λ y. Holds max (k + leases y) addr r.0) got more);
                  works =
                      still_works s.pool r.0 (acquire-dialer fasthttp_dial now e addr s.pool)
                        v.works;
                },
              )
        | inr full ↦
            let all : k ≡ max = at_limit k max _ v.holds.bounded full in
            let out = acquire_exhausted fasthttp_dial now e addr s.pool max (rw all at v.holds) in
            rw (full, out) (refl, v)
      ]

  give-Agrees :
      (hs : List Conn) (k : ℕ) (s : Clients) (f : Conn → PoolState)
      → s.held ≡ hs
      → Agrees fasthttp_dial addr max k s
      → ((c : Conn) (j : ℕ) → Holds max (j + 1) addr s.pool → Holds max j addr (f c))
      → ((c : Conn) → (f c).custom_dial ≡ s.pool.custom_dial)
      → let r = gave fasthttp_dial addr hs s f in
        (r.1 ≡ (give_unit k).1) × Agrees fasthttp_dial addr max (give_unit k).0 r.0
  unfolding give_unit
  give-Agrees [] zero s f e v fewer same = (refl, v)
  give-Agrees [] (suc k) s f e v fewer same = absurd (omega (arith, ap length e, v.as_many))
  give-Agrees (c ∷ cs) zero s f e v fewer same = absurd (omega (arith, ap length e, v.as_many))
  give-Agrees (c ∷ cs) (suc k) s f e v fewer same = (
    refl,
    record {
      as_many = omega (arith, ap length e, v.as_many);
      holds = fewer c k (rw add-one v.holds);
      works = still_works s.pool (f c) (same c) v.works;
    },
  )

  call-Agrees :
      (op : Op) {k : ℕ} (s : Clients)
      → Agrees fasthttp_dial addr max k s
      → let r = call fasthttp_dial addr op s in
        let x = spec_call max op k in (r.1 ≡ x.1) × Agrees fasthttp_dial addr max x.0 r.0
  unfolding call spec_call
  call-Agrees (acquire now e) {k} s v = acquire-Agrees now e s v
  call-Agrees (release now e) {k} s v =
      give-Agrees s.held k s (λ c. release_upstream_connection now e addr c s.pool) refl v
        (λ c j h. release-Holds now e addr c s.pool h) (λ c. release-dialer now e addr c s.pool)
  call-Agrees (drop e) {k} s v =
      give-Agrees s.held k s (λ c. close_and_drop_upstream_connection e addr c s.pool) refl v
        (λ c j h. drop-Holds e addr c s.pool h) (λ c. drop-dialer e addr c s.pool)

  calls-Agrees :
      (ops : List Op) {k : ℕ} (s : Clients)
      → Agrees fasthttp_dial addr max k s
      → let r = calls fasthttp_dial addr ops s in
        let x = spec_calls max ops k in (r.0 ≡ x.0) × Agrees fasthttp_dial addr max x.1 r.1
  unfolding calls spec_calls
  calls-Agrees [] s v = (refl, v)
  calls-Agrees (op ∷ ops) {k} s v =
      let (same, v') = call-Agrees op s v in
      let (rest, last) = calls-Agrees ops (call fasthttp_dial addr op s).0 v' in
      ((λ i. same i ∷ rest i), last)

  -- While its dials succeed, the pool of an address refines a semaphore of `max` units, whatever the
  -- times are and whatever Close returns: from a pool with `k` connections held and counted, each call
  -- of a sequence of acquisitions, releases and drops succeeds just when it does on the semaphore with
  -- `k` units taken, and at the end as many connections are held as units are taken.
  pub calls-semaphore :
      (ops : List Op) (s : Clients)
      → Holds max (length s.held) addr s.pool
      → ((a : Str) → (c : Conn) × (dial_plain fasthttp_dial s.pool a ≡ ok c))
      → let r = calls fasthttp_dial addr ops s in
        let x = spec_calls max ops (length s.held) in (r.0 ≡ x.0) × (length r.1.held ≡ x.1)
  calls-semaphore ops s v works =
      let r = calls-Agrees ops s (record { as_many = refl; holds = v; works = works }) in
      (r.0, r.1.as_many)
