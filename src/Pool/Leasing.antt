-- ===== src/Pool/Leasing.antt =====
-- The custody of connections by their number: at each address, so many are leased.
use native.Mathlib.Nat.{add-zero}
use fasthttpproxy.Common.{
  ℕ, ◌+◌, Bool-cases, ◌≡◌, ◌≢◌, sym, ap, ◌∙◌, subst, if◌then◌else◌, inl, inr, arith,
}
use fasthttpproxy.Common.Text.{Str, str_eq, str_eq_iff, str_eq_refl}
use fasthttpproxy.Common.Result.{Result}
use fasthttpproxy.Common.Net.{Conn}
use fasthttpproxy.Pool.State.{PoolState}
use fasthttpproxy.Pool.Upstream.{acquire_upstream_connection}
use fasthttpproxy.Pool.Conservation.{Holds, leases}
use fasthttpproxy.Pool.Untouched.{
  Lease, Untouched-Holds, Untouched-Lease, acquire-Lease, release-Lease, drop-Lease,
}
use fasthttpproxy.Pool.Custody.{Custody, Ready}

-- What `k` connections leased at `addr` are at the address `a`.
abbrev pub at : Str → ℕ → Str → ℕ
at addr k a = if str_eq addr a then k else 0

module _ (max : ℕ) (n : Str → ℕ) where
  -- A lease at one address beside others, and the same at every address.
  pub gather :
      (addr : Str) (k : ℕ) (p : PoolState)
      → ((a : Str) → Holds max (n a + at addr k a) a p)
      → Lease max n addr k p
  gather addr k p v = record {
    here =
        subst (λ t. Holds max (n addr + (if t then k else 0)) addr p) (str_eq_refl addr) (v addr);
    elsewhere = λ b ne.
        let other : at addr k b ≡ 0 = ground (arith, str_eq_iff addr b) in
        subst (λ j. Holds max j b p) (ap (λ j. n b + j) other ∙ add-zero (n b)) (v b);
  }

  pub spread :
      (addr : Str) (k : ℕ) (p : PoolState)
      → Lease max n addr k p
      → (a : Str) → Holds max (n a + at addr k a) a p
  spread addr k p v a = elim (Bool-cases (str_eq addr a)) [
    | inl same ↦
        let e : addr ≡ a = (str_eq_iff addr a).0 same in
        rw same (subst (λ b. Holds max (n b + k) b p) e v.here)
    | inr other ↦
        let ne : addr ≢ a = λ e. ground (arith, str_eq_iff addr a) in
        rw other (subst (λ j. Holds max j a p) (sym (add-zero (n a))) (v.elsewhere a ne))
  ]

  pub all_idle :
      (addr : Str) (p : PoolState) → Lease max n addr 0 p → (a : Str) → Holds max (n a) a p
  all_idle addr p v a = subst (λ j. Holds max j a p) (ground arith) (spread addr 0 p v a)

  pub none_leased :
      (addr : Str) (p : PoolState) → ((a : Str) → Holds max (n a) a p) → Lease max n addr 0 p
  none_leased addr p v = record {
    here = subst (λ j. Holds max j addr p) (sym (add-zero (n addr))) (v addr);
    elsewhere = λ b ne. v b;
  }

  -- Beside the `n` that others have, one more is leased while a connection is taken.
  abbrev pub leasing : Custody
  leasing = record {
    Idle = λ p. (a : Str) → Holds max (n a) a p;
    Taken = λ addr c p. Lease max n addr 1 p;
    idle_same = λ u v a. Untouched-Holds max (n a) a u (v a);
    taken_same = λ u v. Untouched-Lease u v;
    released = λ now e {addr} {c} {p} v. all_idle addr _ (release-Lease now e addr c p n v);
    dropped = λ e {addr} {c} {p} v. all_idle addr _ (drop-Lease e addr c p n v);
  }

  pub leasing-Ready :
      (fasthttp_dial : Str → Result Conn) (p : PoolState)
      → ((a : Str) → Holds max (n a) a p)
      → Ready leasing fasthttp_dial p
  leasing-Ready fasthttp_dial p v = record {
    idle = v;
    acquired = λ now e addr c got.
        let r = acquire_upstream_connection fasthttp_dial now e addr p in
        subst (λ y. Lease max n addr (leases y) r.0) got
          (acquire-Lease fasthttp_dial now e addr p n v);
    refused = λ now e addr f got.
        let r = acquire_upstream_connection fasthttp_dial now e addr p in
        all_idle addr r.0 (
          subst (λ y. Lease max n addr (leases y) r.0) got
            (acquire-Lease fasthttp_dial now e addr p n v));
  }
