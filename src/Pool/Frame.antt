-- ===== src/Pool/Frame.antt =====
-- What a call of the pool leaves alone: the settings, and the pools of all other addresses.
use fasthttpproxy.Common.{
  ℕ, ◌-◌, Bool-cases, Option-cases, inl, inr, Option, none, some, ◌≡◌, ◌≢◌, refl, ◌∙◌, length,
  unsnoc,
}
use fasthttpproxy.Common.Int.{ℤ, pos, negsuc, leb_ℤ, ltb_ℤ, int32}
use fasthttpproxy.Common.Text.{Str}
use fasthttpproxy.Common.Result.{Error, Result, ok, err}
use fasthttpproxy.Common.Net.{Conn}
use fasthttpproxy.Pool.State.{PoolState, ConnPool, update_ne, store}
use fasthttpproxy.Pool.Dial.{dial}
use fasthttpproxy.Pool.Upstream.{
  add_count, close, dialed, dial_new, count_drop, drop_idle, acquire_upstream_connection,
  release_upstream_connection, close_and_drop_upstream_connection,
}

-- A call at one address leaves the pools of the others, and the settings, as they were.
pub record Frame (addr : Str) (p q : PoolState) : Type 0 where
  pub same_settings : q.settings ≡ p.settings
  pub same_pools : (b : Str) → addr ≢ b → q.upstream_pool b ≡ p.upstream_pool b

add_count-Frame : (p : PoolState) (addr : Str) (d : ℤ) → Frame addr p (add_count p addr d)
unfolding add_count
add_count-Frame p addr d = record {
  same_settings = refl;
  same_pools = λ b h. update_ne _ addr _ b h;
}

pub Frame-trans :
    {addr : Str} {p q r : PoolState} → Frame addr p q → Frame addr q r → Frame addr p r
Frame-trans f g = record {
  same_settings = g.same_settings ∙ f.same_settings;
  same_pools = λ b h. g.same_pools b h ∙ f.same_pools b h;
}

pub Frame-refl : (addr : Str) (p : PoolState) → Frame addr p p
Frame-refl addr p = record { same_settings = refl; same_pools = λ b h. refl }

close-Frame :
    (p : PoolState) (addr : Str) (c : Conn) (e : Option Error) → Frame addr p (close p c e)
unfolding close
close-Frame p addr c none = record { same_settings = refl; same_pools = λ b h. refl }
close-Frame p addr c (some e) = record { same_settings = refl; same_pools = λ b h. refl }

dialed-Frame : (p : PoolState) (addr : Str) (r : Result Conn) → Frame addr p (dialed p addr r).0
unfolding dialed
dialed-Frame p addr (ok c) = add_count-Frame p addr (pos 1)
dialed-Frame p addr (err e) =
    Frame-trans (add_count-Frame p addr (pos 1))
      (add_count-Frame (add_count p addr (pos 1)) addr (negsuc 0))

dial_new-Frame :
    (fasthttp_dial : Str → Result Conn) (p : PoolState) (addr : Str)
    → Frame addr p (dial_new fasthttp_dial p addr).0
unfolding dial_new
dial_new-Frame fasthttp_dial p addr =
    elim (Bool-cases
      (leb_ℤ (int32 p.settings.max_upstream_connections_per_host) (p.upstream_pool addr).count)) [
        | inl full ↦ rw full (Frame-refl addr p)
        | inr room ↦ rw room (dialed-Frame p addr (dial fasthttp_dial p addr))
      ]

store-Frame : (p : PoolState) (addr : Str) (cp : ConnPool) → Frame addr p (store p addr cp)
store-Frame p addr cp = record { same_settings = refl; same_pools = λ b h. update_ne _ addr _ b h }

drop_idle-Frame :
    (p : PoolState) (addr : Str) (c : Conn) (e : Option Error) → Frame addr p (drop_idle p addr c e)
unfolding drop_idle
drop_idle-Frame p addr c e = Frame-trans counted (
    Frame-trans (close-Frame (count_drop p) addr c e)
      (add_count-Frame (close (count_drop p) c e) addr (negsuc 0)))
  where
    counted : Frame addr p (count_drop p)
    counted = record { same_settings = refl; same_pools = λ b h. refl }

-- Acquiring leaves the settings, and the pools of all other addresses, as they were.
pub acquire-Frame :
    (fasthttp_dial : Str → Result Conn) (now : ℕ) (e : Option Error) (addr : Str) (p : PoolState)
    → Frame addr p (acquire_upstream_connection fasthttp_dial now e addr p).0
unfolding acquire_upstream_connection
acquire-Frame fasthttp_dial now e addr p =
    elim (Option-cases (unsnoc (p.upstream_pool addr).free)) [
      | inl empty ↦ rw (empty, acquire_upstream_connection) (dial_new-Frame fasthttp_dial p addr)
      | inr ((rest, last), split) ↦
          let popped = store p addr (record (p.upstream_pool addr) { free = rest }) in
          let f = store-Frame p addr (record (p.upstream_pool addr) { free = rest }) in
          let dropped = drop_idle popped addr last.conn e in
          rw (split, acquire_upstream_connection)
            (elim (Bool-cases (ltb_ℤ p.settings.idle_timeout (pos (now - last.returned_at)))) [
              | inl stale ↦ rw stale (
                  Frame-trans f (
                    Frame-trans (drop_idle-Frame popped addr last.conn e)
                      (dial_new-Frame fasthttp_dial dropped addr)))
              | inr fresh ↦ rw fresh f
            ])
    ]

pub drop-Frame :
    (e : Option Error) (addr : Str) (c : Conn) (p : PoolState)
    → Frame addr p (close_and_drop_upstream_connection e addr c p)
unfolding close_and_drop_upstream_connection
drop-Frame e addr c p =
    Frame-trans (add_count-Frame p addr (negsuc 0))
      (close-Frame (add_count p addr (negsuc 0)) addr c e)

pub release-Frame :
    (now : ℕ) (e : Option Error) (addr : Str) (c : Conn) (p : PoolState)
    → Frame addr p (release_upstream_connection now e addr c p)
unfolding release_upstream_connection
release-Frame now e addr c p =
    elim (Bool-cases (
      leb_ℤ p.settings.max_upstream_connections_per_host
        (pos (length (p.upstream_pool addr).free)))) [
          | inl full ↦ rw full (
              Frame-trans (add_count-Frame p addr (negsuc 0))
                (close-Frame (add_count p addr (negsuc 0)) addr c e))
          | inr room ↦ rw room (store-Frame p addr _)
        ]
