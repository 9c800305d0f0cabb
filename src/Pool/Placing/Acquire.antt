-- ===== src/Pool/Placing/Acquire.antt =====
-- Acquire keeps every connection at one place, if dials give connections that are not in use.
use fasthttpproxy.Common.{
  ℕ, All-init, ◌-◌, ◌≢◌, if_both, Bool-cases, Option, List, [], ◌∷◌, ◌++◌, ◌≡◌, refl, sym, ap, ◌∙◌,
  subst, inl, inr, arith, unsnoc-cases,
}
use fasthttpproxy.Common.Int.{pos, negsuc, int32, leb_ℤ, ltb_ℤ}
use fasthttpproxy.Common.Text.{Str, str_eq, str_eq_iff}
use fasthttpproxy.Common.Result.{Error, Result, ok, err}
use fasthttpproxy.Common.Net.{Conn}
use fasthttpproxy.Pool.State.{PoolState, IdleConn, update, update_self, update_ne}
use fasthttpproxy.Pool.Dial.{dial}
use fasthttpproxy.Pool.Upstream.{
  add_count, close, count_drop, drop_idle, dialed, dial_new, acquire_upstream_connection,
}
use fasthttpproxy.Pool.Branches.{
  popped, acquire_empty, acquire_fresh, acquire_stale, dial-drop_idle,
}
use fasthttpproxy.Pool.Untouched.{Untouched}
use fasthttpproxy.Pool.Custody.{Custody, Ready}
use fasthttpproxy.Pool.Places.{Apart, take_new, close_new, take_last}
use fasthttpproxy.Pool.Places.Listing.{from_middle, to_middle}
use fasthttpproxy.Pool.Placing.{
  idle_ids, free_of, closed_of, Placed, IsUnused, free_of-store, free_of-add, closed_of-add,
  free_of-close, closed_of-close, idle_ids-snoc, along, drop-Placed, release-Placed, pop-Placed,
}

-- After Acquire: with one connection more, or none.
abbrev After : List ℕ → PoolState × Result Conn → Type 0
After own (p, ok c) = Placed (c.id ∷ own) p
After own (p, err e) = Placed own p

-- A dial gives a connection that nobody has and that was never closed.
abbrev pub DialsNew : List ℕ → (Str → Result Conn) → PoolState → Type 0
DialsNew own fasthttp_dial p =
    (addr : Str) (c : Conn) → dial fasthttp_dial p addr ≡ ok c → IsUnused own p c.id

dialed-After :
    {own : List ℕ} (addr : Str) (p : PoolState) (r : Result Conn)
    → Placed own p
    → ((c : Conn) → r ≡ ok c → IsUnused own p c.id)
    → After own (dialed p addr r)
unfolding dialed
dialed-After addr p (ok c) v new =
    along (free_of-add p addr (pos 1)) (closed_of-add p addr (pos 1)) (take_new c.id v (new c refl))
dialed-After addr p (err e) v new =
    let q = add_count p addr (pos 1) in
    along (free_of-add q addr (negsuc 0) ∙ free_of-add p addr (pos 1))
      (closed_of-add q addr (negsuc 0) ∙ closed_of-add p addr (pos 1)) v

dial_new-After :
    {own : List ℕ} (fasthttp_dial : Str → Result Conn) (addr : Str) (p : PoolState)
    → Placed own p
    → ((c : Conn) → dial fasthttp_dial p addr ≡ ok c → IsUnused own p c.id)
    → After own (dial_new fasthttp_dial p addr)
unfolding dial_new
dial_new-After {own} fasthttp_dial addr p v new =
    if_both (After own)
      (leb_ℤ (int32 p.settings.max_upstream_connections_per_host) (p.upstream_pool addr).count) _ _
      v (dialed-After addr p (dial fasthttp_dial p addr) v new)

module _ (addr : Str) (p : PoolState) (rest : List IdleConn) (last : IdleConn)
    (e : Option Error) where
  abbrev dropped_last : PoolState
  dropped_last = drop_idle (popped p addr rest) addr last.conn e

  free_of-dropped : free_of dropped_last ≡ update (free_of p) addr (idle_ids rest)
  unfolding drop_idle
  free_of-dropped =
      free_of-add (close (count_drop (popped p addr rest)) last.conn e) addr (negsuc 0)
      ∙ free_of-close (count_drop (popped p addr rest)) last.conn e
      ∙ free_of-store p addr _

  closed_of-dropped : closed_of dropped_last ≡ last.conn.id ∷ closed_of p
  unfolding drop_idle
  closed_of-dropped =
      closed_of-add (close (count_drop (popped p addr rest)) last.conn e) addr (negsuc 0)
      ∙ closed_of-close (count_drop (popped p addr rest)) last.conn e

  ids_whole :
      (p.upstream_pool addr).free ≡ rest ++ last ∷ []
      → free_of p addr ≡ idle_ids rest ++ last.conn.id ∷ []
  ids_whole whole = ap idle_ids whole ∙ idle_ids-snoc rest last

  module _ {own : List ℕ} (whole : (p.upstream_pool addr).free ≡ rest ++ last ∷ []) where
    dropped-Placed : Placed own p → Placed own dropped_last
    dropped-Placed v =
        let (there, new) = take_last last.conn.id addr (idle_ids rest) (ids_whole whole) v in
        along free_of-dropped closed_of-dropped (close_new last.conn.id there new)

    -- What was unused is so after the last idle connection was closed.
    dropped-IsUnused : (i : ℕ) → IsUnused own p i → IsUnused own dropped_last i
    dropped-IsUnused i n =
        let both =
          All-init (λ j. j ≢ i) (idle_ids rest) last.conn.id
            (subst (Apart i) (ids_whole whole) (n.not_idle addr)) in
        rw (free_of-dropped, closed_of-dropped)
          (record {
            not_idle = λ a. elim (Bool-cases (str_eq addr a)) [
              | inl same ↦
                  let eq : addr ≡ a = (str_eq_iff addr a).0 same in
                  subst (λ b. Apart i (update (free_of p) addr (idle_ids rest) b)) eq
                    (rw update_self both.0)
              | inr other ↦
                  let ne : addr ≢ a = λ eq. ground (arith, str_eq_iff addr a) in
                  rw (update_ne (free_of p) addr (idle_ids rest) a ne) (n.not_idle a)
            ];
            not_taken = n.not_taken;
            not_closed = (both.1, n.not_closed);
          })

acquire-After :
    {own : List ℕ} (fasthttp_dial : Str → Result Conn) (now : ℕ) (e : Option Error) (addr : Str)
    (p : PoolState)
    → Placed own p
    → DialsNew own fasthttp_dial p
    → After own (acquire_upstream_connection fasthttp_dial now e addr p)
acquire-After {own} fasthttp_dial now e addr p v new =
    elim (unsnoc-cases (p.upstream_pool addr).free) [
      | inl (empty, _) ↦
          rw (acquire_empty fasthttp_dial now e addr p empty)
            (dial_new-After fasthttp_dial addr p v (new addr))
      | inr (rest, last, split, whole) ↦
          elim (Bool-cases (ltb_ℤ p.settings.idle_timeout (pos (now - last.returned_at)))) [
            | inl old ↦ rw (acquire_stale fasthttp_dial now e addr p split old) (
                dial_new-After fasthttp_dial addr _ (dropped-Placed addr p rest last e whole v)
                  (λ c got. dropped-IsUnused addr p rest last e whole c.id (
                    new addr c (sym (dial-drop_idle fasthttp_dial p addr rest last.conn e) ∙ got))))
            | inr young ↦
                let (there, unused) = pop-Placed addr p rest last whole v in
                rw (acquire_fresh fasthttp_dial now e addr p split young)
                  (take_new last.conn.id there unused)
          ]
    ]

pub Untouched-Placed :
    {own : List ℕ} {p q : PoolState} → Untouched p q → Placed own p → Placed own q
Untouched-Placed u v = rw (u.same_pools, u.same_closed) v

-- The connection of the client is listed between those that others have taken.
abbrev pub placing : List ℕ → List ℕ → Custody
placing is js = record {
  Idle = Placed (is ++ js);
  Taken = λ addr c. Placed (is ++ c.id ∷ js);
  idle_same = λ u v. Untouched-Placed u v;
  taken_same = λ u v. Untouched-Placed u v;
  released = λ now e {addr} {c} {p} v. release-Placed now e addr c p (from_middle is c.id js v);
  dropped = λ e {addr} {c} {p} v. drop-Placed e addr c p (from_middle is c.id js v);
}

pub placing-Ready :
    (is js : List ℕ) (fasthttp_dial : Str → Result Conn) (p : PoolState)
    → Placed (is ++ js) p
    → DialsNew (is ++ js) fasthttp_dial p
    → Ready (placing is js) fasthttp_dial p
placing-Ready is js fasthttp_dial p v new = record {
  idle = v;
  acquired = λ now e addr c got.
      let r = acquire_upstream_connection fasthttp_dial now e addr p in
      to_middle is c.id js (
        subst (λ x. After (is ++ js) (r.0, x)) got
          (acquire-After fasthttp_dial now e addr p v new));
  refused = λ now e addr f got.
      let r = acquire_upstream_connection fasthttp_dial now e addr p in
      subst (λ x. After (is ++ js) (r.0, x)) got (acquire-After fasthttp_dial now e addr p v new);
}
