-- ===== src/Pool/Placing.antt =====
-- The custody of connections by their places: every connection is idle at one address, taken by one
-- client, or closed, and is closed at most once.
pub mod Acquire
use fasthttpproxy.Common.{
  ℕ, ◌-◌, ◌≢◌, if_both, Bool-cases, Option, none, some, List, [], ◌∷◌, ◌++◌, ◌≡◌, refl, sym, ap,
  ◌∙◌, subst, fun_ext, map, inl, inr, arith, length, unsnoc-cases,
}
use fasthttpproxy.Common.Int.{ℤ, pos, negsuc, int32, leb_ℤ, ltb_ℤ}
use fasthttpproxy.Common.Text.{Str, str_eq, str_eq_iff}
use fasthttpproxy.Common.Result.{Error, Result, Result-cases, ok, err, err_dial_timeout}
use fasthttpproxy.Common.Net.{Conn}
use fasthttpproxy.Pool.State.{PoolState, ConnPool, IdleConn, update, update_self, update_ne, store}
use fasthttpproxy.Pool.Dial.{dial}
use fasthttpproxy.Pool.Upstream.{
  add_count, close, count_drop, drop_idle, dialed, dial_new, acquire_upstream_connection,
  release_upstream_connection, close_and_drop_upstream_connection,
}
use fasthttpproxy.Pool.Branches.{
  popped, acquire_empty, acquire_fresh, acquire_stale, dial-drop_idle,
}
use fasthttpproxy.Pool.Untouched.{Untouched}
use fasthttpproxy.Pool.Custody.{Custody, Ready}
use fasthttpproxy.Pool.Places.{Absent, Tracked, take_new, close_new, put_new, let_go, take_last}

abbrev pub idle_ids : List IdleConn → List ℕ
idle_ids = map (λ x. x.conn.id)

-- The idle connections of each address, and those that were closed.
abbrev pub free_of : PoolState → Str → List ℕ
free_of p a = idle_ids (p.upstream_pool a).free

abbrev pub closed_of : PoolState → List ℕ
closed_of p = map (λ c. c.id) p.closed

-- The connections of the pools, those that `own` lists, and those that were closed.
abbrev pub Placed : List ℕ → PoolState → Type 0
Placed own p = Tracked (free_of p) own (closed_of p)

-- Nobody has it, and it was never closed.
abbrev pub IsUnused : List ℕ → PoolState → ℕ → Type 0
IsUnused own p = Absent (free_of p) own (closed_of p)

pub free_of-store :
    (p : PoolState) (a : Str) (cp : ConnPool)
    → free_of (store p a cp) ≡ update (free_of p) a (idle_ids cp.free)
unfolding update
free_of-store p a cp = fun_ext (λ b. ground arith)

pub free_of-add : (p : PoolState) (a : Str) (d : ℤ) → free_of (add_count p a d) ≡ free_of p
unfolding add_count update
free_of-add p a d = fun_ext (λ b. elim (Bool-cases (str_eq a b)) [
  | inl same ↦ rw same (ap (λ c. idle_ids (p.upstream_pool c).free) ((str_eq_iff a b).0 same))
  | inr other ↦ rw other refl
])

pub closed_of-add : (p : PoolState) (a : Str) (d : ℤ) → closed_of (add_count p a d) ≡ closed_of p
unfolding add_count
closed_of-add p a d = refl

pub free_of-close :
    (p : PoolState) (c : Conn) (e : Option Error) → free_of (close p c e) ≡ free_of p
unfolding close
free_of-close p c none = refl
free_of-close p c (some e) = refl

pub closed_of-close :
    (p : PoolState) (c : Conn) (e : Option Error) → closed_of (close p c e) ≡ c.id ∷ closed_of p
unfolding close
closed_of-close p c none = refl
closed_of-close p c (some e) = refl

pub idle_ids-snoc :
    (xs : List IdleConn) (x : IdleConn) → idle_ids (xs ++ x ∷ []) ≡ idle_ids xs ++ x.conn.id ∷ []
idle_ids-snoc [] x = refl
idle_ids-snoc (y ∷ xs) x = ap (λ l. y.conn.id ∷ l) (idle_ids-snoc xs x)

pub along :
    {own closed closed' : List ℕ} {free free' : Str → List ℕ}
    → free' ≡ free
    → closed' ≡ closed
    → Tracked free own closed
    → Tracked free' own closed'
along {own} {closed} {closed'} {free} {free'} e f v =
    subst (λ g. Tracked g own closed') (sym e) (subst (Tracked free own) (sym f) v)

-- The count of a pool is changed, and its connection closed.
close-Placed :
    {own : List ℕ} (e : Option Error) (addr : Str) (d : ℤ) (c : Conn) (p : PoolState)
    → Placed own p × IsUnused own p c.id
    → Placed own (close (add_count p addr d) c e)
close-Placed e addr d c p (v, new) =
    along (free_of-close (add_count p addr d) c e ∙ free_of-add p addr d)
      (closed_of-close (add_count p addr d) c e ∙ ap (λ l. c.id ∷ l) (closed_of-add p addr d))
      (close_new c.id v new)

pub drop-Placed :
    {own : List ℕ} (e : Option Error) (addr : Str) (c : Conn) (p : PoolState)
    → Placed (c.id ∷ own) p
    → Placed own (close_and_drop_upstream_connection e addr c p)
unfolding close_and_drop_upstream_connection
drop-Placed e addr c p v = close-Placed e addr (negsuc 0) c p (let_go c.id v)

pub release-Placed :
    {own : List ℕ} (now : ℕ) (e : Option Error) (addr : Str) (c : Conn) (p : PoolState)
    → Placed (c.id ∷ own) p
    → Placed own (release_upstream_connection now e addr c p)
unfolding release_upstream_connection
release-Placed now e addr c p v =
    let free = (p.upstream_pool addr).free in
    let (there, new) = let_go c.id v in
    elim (Bool-cases (leb_ℤ p.settings.max_upstream_connections_per_host (pos (length free)))) [
      | inl full ↦ rw full (close-Placed e addr (negsuc 0) c p (there, new))
      | inr room ↦ rw room (
          along
            (free_of-store p addr _
              ∙ ap (update (free_of p) addr)
                  (idle_ids-snoc free (record { conn = c; returned_at = now })))
            refl (put_new c.id addr there new))
    ]

-- The pools without the last idle connection of an address.
pub pop-Placed :
    {own : List ℕ} (addr : Str) (p : PoolState) (rest : List IdleConn) (last : IdleConn)
    → (p.upstream_pool addr).free ≡ rest ++ last ∷ []
    → Placed own p
    → Placed own (popped p addr rest) × IsUnused own (popped p addr rest) last.conn.id
pop-Placed {own} addr p rest last whole v =
    subst (λ f. Tracked f own (closed_of p) × Absent f own (closed_of p) last.conn.id)
      (sym (free_of-store p addr _))
      (take_last last.conn.id addr (idle_ids rest) (ap idle_ids whole ∙ idle_ids-snoc rest last) v)
