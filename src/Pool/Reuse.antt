-- ===== src/Pool/Reuse.antt =====
-- Which connection AcquireUpstreamConnection returns, and when it returns one.
use fasthttpproxy.Common.{
  ℕ, ◌+◌, ◌-◌, ◌≤◌, ◌<◌, true, false, Bool-cases, inl, inr, ◌⊎◌, Option, some, List, [], ◌∷◌, ◌++◌,
  ◌≡◌, refl, sym, ap, ◌∙◌, arith, length, length-append, unsnoc, unsnoc-append, unsnoc-cases,
}
use fasthttpproxy.Common.Int.{ℤ, pos, ◌≤ℤ◌, leb_ℤ, ltb_ℤ, int32, int32_small}
use fasthttpproxy.Common.Text.{Str}
use fasthttpproxy.Common.Result.{Error, Result, ok, err, err_dial_timeout}
use fasthttpproxy.Common.Net.{Conn}
use fasthttpproxy.Pool.State.{PoolState, ConnPool, IdleConn, update_self}
use fasthttpproxy.Pool.Dial.{dial}
use fasthttpproxy.Pool.Upstream.{
  dialed, dial_new, drop_idle, acquire_upstream_connection, release_upstream_connection,
}
use fasthttpproxy.Pool.Conservation.{Counts, Holds, pop-Counts, drop_idle-Holds}
use fasthttpproxy.Pool.Branches.{
  acquire_empty, acquire_fresh, acquire_stale, dial-drop_idle, free-drop_idle, popped, release_room,
}

ok-injective {ℓ} : {A : Type ℓ} {a b : A} → ok a ≡ ok b → a ≡ b
ok-injective h = cc

dialed-ok : (p : PoolState) (addr : Str) (r : Result Conn) → (dialed p addr r).1 ≡ r
unfolding dialed
dialed-ok p addr (ok c) = refl
dialed-ok p addr (err e) = refl

-- A connection from dialNew is the one that was dialed.
dial_new-ok :
    (fasthttp_dial : Str → Result Conn) (p : PoolState) (addr : Str) {q : PoolState} {c : Conn}
    → dial_new fasthttp_dial p addr ≡ (q, ok c)
    → dial fasthttp_dial p addr ≡ ok c
unfolding dial_new
dial_new-ok fasthttp_dial p addr h =
    elim (Bool-cases
      (leb_ℤ (int32 p.settings.max_upstream_connections_per_host) (p.upstream_pool addr).count)) [
        | inl full ↦ cc (rw full at (ap (λ x. x.1) h))
        | inr room ↦
            sym (dialed-ok p addr (dial fasthttp_dial p addr)) ∙ rw room at (ap (λ x. x.1) h)
      ]

not_at_limit :
    {max n : ℕ} {limit : ℤ} {cp : ConnPool}
    → Counts max n limit cp
    → length cp.free + n < max
    → leb_ℤ (int32 limit) cp.count ≡ false
not_at_limit {max} v room = rw (v.is_limit, int32_small max v.fits, v.counted) (ground arith)

-- With room for one more connection, dialNew dials.
dial_new_available :
    (fasthttp_dial : Str → Result Conn) (p : PoolState) (addr : Str) {max n : ℕ} {d : Conn}
    → Holds max n addr p
    → length (p.upstream_pool addr).free + n < max
    → dial fasthttp_dial p addr ≡ ok d
    → (dial_new fasthttp_dial p addr).1 ≡ ok d
unfolding dial_new
dial_new_available fasthttp_dial p addr v room works =
    rw (not_at_limit v room) (dialed-ok p addr (dial fasthttp_dial p addr) ∙ works)

-- Last in, first out: at an address whose free list is below the limit, Acquire after Release
-- returns the released connection if it was idle for at most the idle timeout; it neither dials nor
-- closes, and the free list and the count of the address are as before the two calls.
pub acquire-release :
    (fasthttp_dial : Str → Result Conn) (e e' : Option Error) (addr : Str) (c : Conn)
    (p : PoolState) (now later : ℕ)
    → leb_ℤ p.settings.max_upstream_connections_per_host (pos (length (p.upstream_pool addr).free))
      ≡ false
    → pos (later - now) ≤ℤ p.settings.idle_timeout
    → let r =
        acquire_upstream_connection fasthttp_dial later e' addr
          (release_upstream_connection now e addr c p) in
      (r.1 ≡ ok c) × (r.0.upstream_pool addr ≡ p.upstream_pool addr) × (r.0.closed ≡ p.closed)
acquire-release fasthttp_dial e e' addr c p now later room fresh =
    let free = (p.upstream_pool addr).free in
    let q = popped p addr (free ++ record { conn = c; returned_at = now } ∷ []) in
    let back : unsnoc (q.upstream_pool addr).free
        ≡ some (free, record { conn = c; returned_at = now }) =
      rw update_self (unsnoc-append free (record { conn = c; returned_at = now })) in
    let in_time : ltb_ℤ p.settings.idle_timeout (pos (later - now)) ≡ false = ground arith in
    rw (release_room now e addr c p room, acquire_fresh fasthttp_dial later e' addr q back in_time)
      (refl, rw (update_self, update_self), refl)

-- Where a connection comes from: the one that Acquire returns was dialed in this call, or it was the
-- last of the free list, idle for at most the idle timeout, and then nothing is closed.
pub acquire-provenance :
    (fasthttp_dial : Str → Result Conn) (now : ℕ) (e : Option Error) (addr : Str) (p q : PoolState)
    (c : Conn)
    → acquire_upstream_connection fasthttp_dial now e addr p ≡ (q, ok c)
    → (dial fasthttp_dial p addr ≡ ok c)
      ⊎ ((rest : List IdleConn) × (last : IdleConn) × ((p.upstream_pool addr).free
            ≡ rest ++ last ∷ [])
          × (last.conn ≡ c)
          × (pos (now - last.returned_at) ≤ℤ p.settings.idle_timeout)
          × (q.closed ≡ p.closed))
acquire-provenance fasthttp_dial now e addr p q c h =
    elim (unsnoc-cases (p.upstream_pool addr).free) [
      | inl (empty, _) ↦ inl (
          dial_new-ok fasthttp_dial p addr
            (sym (acquire_empty fasthttp_dial now e addr p empty) ∙ h))
      | inr (rest, last, split, whole) ↦
          elim (Bool-cases (ltb_ℤ p.settings.idle_timeout (pos (now - last.returned_at)))) [
            | inl stale ↦
                let r =
                  dial_new-ok fasthttp_dial (drop_idle (popped p addr rest) addr last.conn e) addr
                    (sym (acquire_stale fasthttp_dial now e addr p split stale) ∙ h) in
                inl (sym (dial-drop_idle fasthttp_dial p addr rest last.conn e) ∙ r)
            | inr fresh ↦
                let r = sym (acquire_fresh fasthttp_dial now e addr p split fresh) ∙ h in
                inr (
                  rest,
                  last,
                  whole,
                  ok-injective (ap (λ x. x.1) r),
                  ground arith,
                  sym (ap (λ x. x.0.closed) r),
                )
          ]
    ]

-- While fewer than `max` connections of an address are leased, and its dial succeeds, Acquire
-- returns a connection: idle connections never take the room of a new one.
pub acquire_available :
    (fasthttp_dial : Str → Result Conn) (now : ℕ) (e : Option Error) (addr : Str) (p : PoolState)
    (max n : ℕ) (d : Conn)
    → Holds max n addr p
    → n < max
    → dial fasthttp_dial p addr ≡ ok d
    → (c : Conn) × ((acquire_upstream_connection fasthttp_dial now e addr p).1 ≡ ok c)
acquire_available fasthttp_dial now e addr p max n d v room works =
    elim (unsnoc-cases (p.upstream_pool addr).free) [
      | inl (empty, nothing) ↦ (
        d,
        rw (acquire_empty fasthttp_dial now e addr p empty)
            (dial_new_available fasthttp_dial p addr v (rw nothing (omega arith)) works),
      )
      | inr (rest, last, split, whole) ↦
          let v' : Holds max (n + 1) addr (popped p addr rest) =
            rw update_self (pop-Counts rest last whole v) in
          let fits : length ((popped p addr rest).upstream_pool addr).free + (n + 1) ≤ max =
            v'.bounded in
          let fits' : length rest + (n + 1) ≤ max = rw update_self at fits in
          elim (Bool-cases (ltb_ℤ p.settings.idle_timeout (pos (now - last.returned_at)))) [
            | inl stale ↦ (
              d,
              rw (acquire_stale fasthttp_dial now e addr p split stale) (
                  dial_new_available fasthttp_dial (drop_idle (popped p addr rest) addr last.conn e)
                    addr (drop_idle-Holds (popped p addr rest) addr last.conn e v')
                    (rw (free-drop_idle p addr rest last.conn e) (omega arith))
                    (dial-drop_idle fasthttp_dial p addr rest last.conn e ∙ works)),
            )
            | inr fresh ↦
                (last.conn, rw (acquire_fresh fasthttp_dial now e addr p split fresh) refl)
          ]
    ]

-- With as many connections leased as the limit allows, Acquire refuses, and changes nothing.
pub acquire_exhausted :
    (fasthttp_dial : Str → Result Conn) (now : ℕ) (e : Option Error) (addr : Str) (p : PoolState)
    (max : ℕ)
    → Holds max max addr p
    → acquire_upstream_connection fasthttp_dial now e addr p ≡ (p, err err_dial_timeout)
unfolding dial_new
acquire_exhausted fasthttp_dial now e addr p max v =
    elim (unsnoc-cases (p.upstream_pool addr).free) [
      | inl (empty, nothing) ↦
          let all : (p.upstream_pool addr).count ≡ pos max =
            v.counted ∙ ap pos (rw nothing (omega arith)) in
          let reached : leb_ℤ (int32 p.settings.max_upstream_connections_per_host)
                (p.upstream_pool addr).count
              ≡ true =
            rw (v.is_limit, int32_small max v.fits, all) (ground arith) in
          acquire_empty fasthttp_dial now e addr p empty ∙ rw (reached, dial_new) refl
      | inr (rest, last, split, whole) ↦
          let one_idle : length (p.upstream_pool addr).free ≡ length rest + 1 =
            ap length whole ∙ length-append rest (last ∷ []) in
          absurd (omega (arith, v.bounded, one_idle))
    ]
