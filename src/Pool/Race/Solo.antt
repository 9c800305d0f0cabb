-- ===== src/Pool/Race/Solo.antt =====
-- A call that no other goroutine interrupts: the steps are those of the functions of upstream_pool.go.
use fasthttpproxy.Common.{
  ℕ, ◌-◌, Bool-cases, Option, none, some, ◌≡◌, refl, sym, ap, ◌∙◌, subst, inl, inr, unsnoc-cases,
  length,
}
use fasthttpproxy.Common.Int.{ℤ, pos, negsuc, int32, leb_ℤ, ltb_ℤ}
use fasthttpproxy.Common.Text.{Str}
use fasthttpproxy.Common.Result.{Error, Result, ok, err}
use fasthttpproxy.Common.Net.{Conn}
use fasthttpproxy.Pool.State.{PoolState, Settings, update_self, store}
use fasthttpproxy.Pool.Dial.{dial}
use fasthttpproxy.Pool.Branches.{dial-drop_idle}
use fasthttpproxy.Pool.Upstream.{
  add_count, close, count_drop, drop_idle, dialed, dial_new, acquire_upstream_connection,
  release_upstream_connection, close_and_drop_upstream_connection,
}
use fasthttpproxy.Pool.Race.{
  Shared, Pc, outside, popped, testing, tested, holding, pop, find_none, take_idle, expire, uncount,
  refuse, pass, raise, connect, fail, lower, put_back, overflow, drop, shut, add, close_conn,
}
use fasthttpproxy.Pool.Race.Calls.{
  shared_of, Call, acquiring, releasing, dropping, Run, first, step, outcome,
}

shared_of-add :
    (p : PoolState) (addr : Str) (delta : ℤ)
    → shared_of addr (add_count p addr delta) ≡ add delta (shared_of addr p)
unfolding add_count
shared_of-add p addr delta = rw update_self refl

shared_of-close :
    (p : PoolState) (addr : Str) (c : Conn) (e : Option Error)
    → shared_of addr (close p c e) ≡ close_conn c (shared_of addr p)
unfolding close
shared_of-close p addr c none = refl
shared_of-close p addr c (some e) = refl

settings-close : (p : PoolState) (c : Conn) (e : Option Error) → (close p c e).settings ≡ p.settings
unfolding close
settings-close p c none = refl
settings-close p c (some e) = refl

along :
    {k : Call} {settings : Settings} {m m₁ m₂ : Shared} {q p : Pc}
    → m₂ ≡ m₁
    → Run k settings m q m₁ p
    → Run k settings m q m₂ p
along {k} {settings} {m} {q = q} {p = p} e run = subst (λ x. Run k settings m q x p) (sym e) run

module _ (addr : Str) (now : ℕ) {settings : Settings} {m : Shared} {q : Pc} where
  dialed-Run :
      (p : PoolState) (r : Result Conn)
      → Run (acquiring now r) settings m q (shared_of addr p) tested
      → Run
          (acquiring now r)
          settings
          m
          q
          (shared_of addr (dialed p addr r).0)
          (outcome (dialed p addr r).1)
  unfolding dialed
  dialed-Run p (ok c) run =
      along (shared_of-add p addr (pos 1))
        (step (step run raise (now, ok c, refl)) (connect tt) (now, refl))
  dialed-Run p (err e) run =
      let raised = add_count p addr (pos 1) in
      along
        (shared_of-add raised addr (negsuc 0) ∙ ap (add (negsuc 0)) (shared_of-add p addr (pos 1)))
        (step (step (step run raise (now, err e, refl)) fail (now, e, refl)) lower (now, e, refl))

  dial_new-Run :
      (fasthttp_dial : Str → Result Conn) (p : PoolState) (r : Result Conn)
      → p.settings ≡ settings
      → dial fasthttp_dial p addr ≡ r
      → Run (acquiring now r) settings m q (shared_of addr p) testing
      → let x = dial_new fasthttp_dial p addr in
        Run (acquiring now r) settings m q (shared_of addr x.0) (outcome x.1)
  unfolding dial_new
  dial_new-Run fasthttp_dial p r same given run =
      elim (Bool-cases
        (leb_ℤ (int32 p.settings.max_upstream_connections_per_host) (p.upstream_pool addr).count)) [
          | inl full ↦ rw full (step run (refuse (rw same at full)) (now, r, refl))
          | inr room ↦
              rw (room, given) (dialed-Run p r (step run (pass (rw same at room)) (now, r, refl)))
        ]

acquire-Run :
    (fasthttp_dial : Str → Result Conn) (now : ℕ) (e : Option Error) (addr : Str) (p : PoolState)
    → let x = acquire_upstream_connection fasthttp_dial now e addr p in
      Run
        (acquiring now (dial fasthttp_dial p addr))
        p.settings
        (shared_of addr p)
        outside
        (shared_of addr x.0)
        (outcome x.1)
unfolding acquire_upstream_connection drop_idle
acquire-Run fasthttp_dial now e addr p = elim (unsnoc-cases (p.upstream_pool addr).free) [
  | inl (empty, _) ↦
      rw (empty, acquire_upstream_connection)
        (dial_new-Run addr now fasthttp_dial p r refl refl (first (find_none empty) (now, r, refl)))
  | inr (rest, last, split, _) ↦
      let q = store p addr (record (p.upstream_pool addr) { free = rest }) in
      let took : Run (acquiring now r) p.settings (shared_of addr p) outside (shared_of addr q)
          (popped last) =
        along (rw update_self refl) (first (pop split) (now, r, refl)) in
      rw (split, acquire_upstream_connection)
        (elim (Bool-cases (ltb_ℤ p.settings.idle_timeout (pos (now - last.returned_at)))) [
          | inl old ↦
              let closed = close (count_drop q) last.conn e in
              let dropped =
                shared_of-add closed addr (negsuc 0)
                ∙ ap (add (negsuc 0)) (shared_of-close (count_drop q) addr last.conn e) in
              rw old (
                dial_new-Run addr now fasthttp_dial (drop_idle q addr last.conn e) r
                  (settings-close (count_drop q) last.conn e)
                  (dial-drop_idle fasthttp_dial p addr rest last.conn e)
                  (along dropped
                    (step (step took (expire now old) (r, refl)) uncount (now, r, refl))))
          | inr fresh ↦ rw fresh (step took (take_idle now fresh) (r, refl))
        ])
]
  where
    r : Result Conn
    r = dial fasthttp_dial p addr

release-Run :
    (now : ℕ) (e : Option Error) (addr : Str) (c : Conn) (p : PoolState)
    → Run
        (releasing now)
        p.settings
        (shared_of addr p)
        (holding c)
        (shared_of addr (release_upstream_connection now e addr c p))
        outside
unfolding release_upstream_connection
release-Run now e addr c p =
    elim (Bool-cases (
      leb_ℤ p.settings.max_upstream_connections_per_host
        (pos (length (p.upstream_pool addr).free)))) [
          | inl full ↦ rw full (
              along
                (shared_of-close (add_count p addr (negsuc 0)) addr c e
                  ∙ ap (close_conn c) (shared_of-add p addr (negsuc 0)))
                (step (first (overflow full) (now, refl)) shut (inl (now, refl))))
          | inr room ↦ rw room (along (rw update_self refl) (first (put_back now room) refl))
        ]

drop-Run :
    (e : Option Error) (addr : Str) (c : Conn) (p : PoolState)
    → Run dropping p.settings
        (shared_of addr p)
        (holding c)
        (shared_of addr (close_and_drop_upstream_connection e addr c p))
        outside
unfolding close_and_drop_upstream_connection
drop-Run e addr c p =
    along
      (shared_of-close (add_count p addr (negsuc 0)) addr c e
        ∙ ap (close_conn c) (shared_of-add p addr (negsuc 0)))
      (step (first drop refl) shut (inr refl))

-- A call that nothing interrupts is a run of one or more of its own steps, at its own time, on the
-- pool of its address and on the connections that are closed. Acquire goes from outside to the
-- connection that it returns, or to outside with its error, where a dialed connection or a failed dial
-- is what dialing the address gives. Release goes from the connection to outside, by putting it back
-- or, where the pool is full, by lowering the count and closing it, and CloseAndDrop by the latter.
pub calls-Run :
    (fasthttp_dial : Str → Result Conn) (now : ℕ) (e : Option Error) (addr : Str) (c : Conn)
    (p : PoolState)
    → let x = acquire_upstream_connection fasthttp_dial now e addr p in
      let released = release_upstream_connection now e addr c p in
      let dropped = close_and_drop_upstream_connection e addr c p in
      Run
        (acquiring now (dial fasthttp_dial p addr))
        p.settings
        (shared_of addr p)
        outside
        (shared_of addr x.0)
        (outcome x.1)
      × Run
          (releasing now)
          p.settings
          (shared_of addr p)
          (holding c)
          (shared_of addr released)
          outside
      × Run dropping p.settings (shared_of addr p) (holding c) (shared_of addr dropped) outside
calls-Run fasthttp_dial now e addr c p =
    (acquire-Run fasthttp_dial now e addr p, release-Run now e addr c p, drop-Run e addr c p)
