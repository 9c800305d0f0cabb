-- ===== src/Pool/Conservation.antt =====
-- The count of a pool is the number of its connections, idle or leased, and stays within the limit.
use native.Mathlib.Nat.{add-zero}
use fasthttpproxy.Common.{
  ℕ, suc, ◌+◌, ◌-◌, ◌≤◌, ◌<◌, ◌^◌, false, Bool-cases, inl, inr, Option, none, some, List, [], ◌∷◌,
  ◌++◌, ◌≡◌, refl, ap, ◌∙◌, arith, length, length-append, unsnoc-cases,
}
use fasthttpproxy.Common.Int.{
  ℤ, pos, negsuc, ◌+ℤ◌, int32, leb_ℤ, ltb_ℤ, int32_inc, int32_dec, int32_small,
}
use fasthttpproxy.Common.Text.{Str}
use fasthttpproxy.Common.Result.{Error, Result, ok, err}
use fasthttpproxy.Common.Net.{Conn}
use fasthttpproxy.Pool.State.{PoolState, ConnPool, IdleConn, update_self, store}
use fasthttpproxy.Pool.Dial.{dial}
use fasthttpproxy.Pool.Upstream.{
  add_count, close, dialed, dial_new, count_drop, drop_idle, acquire_upstream_connection,
  release_upstream_connection, close_and_drop_upstream_connection,
}

-- Under the limit `max`, the pool of an address counts its idle connections and `n` leased ones.
pub record Counts (max n : ℕ) (limit : ℤ) (cp : ConnPool) : Type 0 where
  pub is_limit : limit ≡ pos max
  pub fits : max < 2 ^ 31
  pub counted : cp.count ≡ pos (length cp.free + n)
  pub bounded : length cp.free + n ≤ max

abbrev pub Holds : ℕ → ℕ → Str → PoolState → Type 0
Holds max n addr p =
    Counts max n p.settings.max_upstream_connections_per_host (p.upstream_pool addr)

abbrev pub leases : Result Conn → ℕ
leases (ok c) = 1
leases (err e) = 0

raise-Counts :
    {max n : ℕ} {limit : ℤ} {cp : ConnPool}
    → Counts max n limit cp
    → suc (length cp.free + n) ≤ max
    → Counts max (n + 1) limit (record cp { count = int32 (cp.count +ℤ pos 1) })
raise-Counts {n} {cp} v room = record {
  is_limit = v.is_limit;
  fits = v.fits;
  counted = rw (v.counted, int32_inc (length cp.free + n) (omega arith)) (ap pos (omega arith));
  bounded = omega arith;
}

lower-Counts :
    {max n : ℕ} {limit : ℤ} {cp : ConnPool}
    → Counts max (n + 1) limit cp
    → Counts max n limit (record cp { count = int32 (cp.count +ℤ negsuc 0) })
lower-Counts {n} {cp} v =
    let e : cp.count ≡ pos (suc (length cp.free + n)) = v.counted ∙ ap pos (omega arith) in
    record {
      is_limit = v.is_limit;
      fits = v.fits;
      counted = rw (e, int32_dec (length cp.free + n) (omega arith)) refl;
      bounded = omega arith;
    }

add_count-raise :
    (p : PoolState) (addr : Str) {max n : ℕ}
    → Holds max n addr p
    → suc (length (p.upstream_pool addr).free + n) ≤ max
    → Holds max (n + 1) addr (add_count p addr (pos 1))
unfolding add_count
add_count-raise p addr v room = rw update_self (raise-Counts v room)

add_count-lower :
    (p : PoolState) (addr : Str) {max n : ℕ}
    → Holds max (n + 1) addr p
    → Holds max n addr (add_count p addr (negsuc 0))
unfolding add_count
add_count-lower p addr v = rw update_self (lower-Counts v)

dialed-Holds :
    (p : PoolState) (addr : Str) (r : Result Conn) {max n : ℕ}
    → Holds max n addr p
    → suc (length (p.upstream_pool addr).free + n) ≤ max
    → Holds max (n + leases (dialed p addr r).1) addr (dialed p addr r).0
unfolding dialed
dialed-Holds p addr (ok c) v room = add_count-raise p addr v room
dialed-Holds p addr (err e) {n} v room =
    let raised = add_count-lower (add_count p addr (pos 1)) addr (add_count-raise p addr v room) in
    rw (add-zero n) raised

-- The test of dialNew leaves room for one more connection.
room_left :
    {max n : ℕ} {limit : ℤ} {cp : ConnPool}
    → Counts max n limit cp
    → leb_ℤ (int32 limit) cp.count ≡ false
    → suc (length cp.free + n) ≤ max
room_left {max} {n} {cp} v h =
    let h' : leb_ℤ (int32 (pos max)) cp.count ≡ false = rw v.is_limit at h in
    let h'' : leb_ℤ (pos max) (pos (length cp.free + n)) ≡ false =
      rw (int32_small max v.fits, v.counted) at h' in
    ground arith

dial_new-Holds :
    (fasthttp_dial : Str → Result Conn) (p : PoolState) (addr : Str) {max n : ℕ}
    → Holds max n addr p
    → let r = dial_new fasthttp_dial p addr in Holds max (n + leases r.1) addr r.0
unfolding dial_new
dial_new-Holds fasthttp_dial p addr {n} v =
    let test =
      leb_ℤ (int32 p.settings.max_upstream_connections_per_host) (p.upstream_pool addr).count in
    elim (Bool-cases test) [
      | inl full ↦ rw (full, add-zero n) v
      | inr room ↦ rw room (dialed-Holds p addr (dial fasthttp_dial p addr) v (room_left v room))
    ]

close-Holds :
    (p : PoolState) (c : Conn) (e : Option Error) (addr : Str) {max n : ℕ}
    → Holds max n addr p
    → Holds max n addr (close p c e)
unfolding close
close-Holds p c none addr v = v
close-Holds p c (some e) addr v = v

pub drop_idle-Holds :
    (p : PoolState) (addr : Str) (c : Conn) (e : Option Error) {max n : ℕ}
    → Holds max (n + 1) addr p
    → Holds max n addr (drop_idle p addr c e)
unfolding drop_idle
drop_idle-Holds p addr c e v =
    add_count-lower (close (count_drop p) c e) addr (close-Holds (count_drop p) c e addr v)

-- Taking the last idle connection leases it.
pub pop-Counts :
    {max n : ℕ} {limit : ℤ} {cp : ConnPool} (rest : List IdleConn) (last : IdleConn)
    → cp.free ≡ rest ++ last ∷ []
    → Counts max n limit cp
    → Counts max (n + 1) limit (record cp { free = rest })
pop-Counts {n} {cp} rest last e v =
    let len : length cp.free ≡ suc (length rest) =
      ap length e ∙ length-append rest (last ∷ []) ∙ omega arith in
    record {
      is_limit = v.is_limit;
      fits = v.fits;
      counted = v.counted ∙ ap pos (omega arith);
      bounded = omega arith;
    }

pub acquire-Holds :
    (fasthttp_dial : Str → Result Conn) (now : ℕ) (e : Option Error) (addr : Str) (p : PoolState)
    {max n : ℕ}
    → Holds max n addr p
    → let r = acquire_upstream_connection fasthttp_dial now e addr p in
      Holds max (n + leases r.1) addr r.0
unfolding acquire_upstream_connection
acquire-Holds fasthttp_dial now e addr p {n} v = elim (unsnoc-cases (p.upstream_pool addr).free) [
  | inl (empty, _) ↦ rw (empty, acquire_upstream_connection) (dial_new-Holds fasthttp_dial p addr v)
  | inr (rest, last, split, whole) ↦
      let popped = store p addr (record (p.upstream_pool addr) { free = rest }) in
      let v' : Holds _ (n + 1) addr popped = rw update_self (pop-Counts rest last whole v) in
      rw (split, acquire_upstream_connection)
        (elim (Bool-cases (ltb_ℤ p.settings.idle_timeout (pos (now - last.returned_at)))) [
          | inl stale ↦ rw stale (
              dial_new-Holds fasthttp_dial (drop_idle popped addr last.conn e) addr
                (drop_idle-Holds popped addr last.conn e v'))
          | inr fresh ↦ rw fresh v'
        ])
]

push-Counts :
    {max n : ℕ} {limit : ℤ} {cp : ConnPool} (last : IdleConn)
    → Counts max (n + 1) limit cp
    → Counts max n limit (record cp { free = cp.free ++ last ∷ [] })
push-Counts {n} {cp} last v =
    let len : length (cp.free ++ last ∷ []) ≡ suc (length cp.free) =
      length-append cp.free (last ∷ []) ∙ omega arith in
    record {
      is_limit = v.is_limit;
      fits = v.fits;
      counted = v.counted ∙ ap pos (omega arith);
      bounded = omega arith;
    }

-- While a connection is leased the free list is not full.
pub not_full :
    {max : ℕ} (n : ℕ) {limit : ℤ} {cp : ConnPool}
    → Counts max (n + 1) limit cp
    → leb_ℤ limit (pos (length cp.free)) ≡ false
not_full n v = rw v.is_limit (ground arith)

pub release-Holds :
    (now : ℕ) (e : Option Error) (addr : Str) (c : Conn) (p : PoolState) {max n : ℕ}
    → Holds max (n + 1) addr p
    → Holds max n addr (release_upstream_connection now e addr c p)
unfolding release_upstream_connection
release-Holds now e addr c p {n} v =
    rw (not_full n v, update_self) (push-Counts (record { conn = c; returned_at = now }) v)

pub drop-Holds :
    (e : Option Error) (addr : Str) (c : Conn) (p : PoolState) {max n : ℕ}
    → Holds max (n + 1) addr p
    → Holds max n addr (close_and_drop_upstream_connection e addr c p)
unfolding close_and_drop_upstream_connection
drop-Holds e addr c p v =
    close-Holds (add_count p addr (negsuc 0)) c e addr (add_count-lower p addr v)
