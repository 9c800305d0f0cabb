-- ===== src/Readers/Held.antt =====
-- What a PoolReader with a Content-Length keeps: where it stands, and who holds its connection.
use fasthttpproxy.Common.{ℕ, ◌-◌, ◌≤◌, ◌<◌, Bool, true, false, ◌≡◌, refl, ◌⊎◌, inl, inr, arith}
use fasthttpproxy.Common.Int.{pos}
use fasthttpproxy.Pool.State.{PoolState}
use fasthttpproxy.Readers.PoolReader.{PoolReader, Call, hand_back, release_if}

-- The connection, its address and the callback are those of `pr₀`.
pub record Same {S : Type 0} (a b : PoolReader S) : Type 0 where
  pub same_addr : b.upstream_addr ≡ a.upstream_addr
  pub same_connection : b.connection ≡ a.connection
  pub same_done : b.on_done ≡ a.on_done

-- Either the connection has not been given back and the pools are as in `p`, or it was given back to
-- its pool in one call, and that is all that happened to the pools.
pub record Held {S : Type 0} (a : PoolReader S) (p : PoolState) (b : PoolReader S) (q : PoolState)
    : Type 0 where
  pub same : Same a b
  pub once :
      ((b.returned ≡ false) × (q ≡ p)) ⊎ ((b.returned ≡ true) × (c : Call) × (q ≡ hand_back c a p))

-- Where a reader of `n` bytes stands that began as `a` with the pools `p` and has read `total`
-- bytes. A connection that was not given back has bytes to come.
pub record Progress {S : Type 0} (n : ℕ) (a : PoolReader S) (p : PoolState) (total : ℕ)
    (b : PoolReader S) (q : PoolState) : Type 0 where
  pub within : total ≤ n
  pub left : b.remain ≡ pos (n - total)
  pub held : Held a p b q
  pub missing : b.returned ≡ false → total < n

module _ {S : Type 0} where
  release_if-now :
      (c : Call) (b : PoolReader S) (q : PoolState)
      → b.returned ≡ false
      → release_if true c (b, q) ≡ (record b { returned = true }, hand_back c b q)
  unfolding release_if
  release_if-now c b q h = ground arith

  release_if-again :
      (test : Bool) (c : Call) (b : PoolReader S) (q : PoolState)
      → b.returned ≡ true
      → release_if test c (b, q) ≡ (b, q)
  unfolding release_if
  release_if-again test c b q h = ground arith

  pub release_if-Held :
      (test : Bool) (c : Call) (a b : PoolReader S) (p q : PoolState)
      → Held a p b q
      → let r = release_if test c (b, q) in Held a p r.0 r.1
  unfolding release_if
  release_if-Held false c a b p q h = h
  release_if-Held true c a b p q h = elim h.once [
    | inl (kept, e) ↦
        let given : hand_back c b q ≡ hand_back c a p =
          rw (e, h.same.same_addr, h.same.same_connection, h.same.same_done) refl in
        rw (release_if-now c b q kept) (record {
          same = record {
            same_addr = h.same.same_addr;
            same_connection = h.same.same_connection;
            same_done = h.same.same_done;
          };
          once = inr (refl, c, given);
        })
    | inr (gone, _, _) ↦ rw (release_if-again true c b q gone) h
  ]

  pub release_if-returned :
      (test : Bool) (c : Call) (b : PoolReader S) (q : PoolState)
      → ((test ≡ true) ⊎ (b.returned ≡ true))
      → (release_if test c (b, q)).0.returned ≡ true
  unfolding release_if
  release_if-returned test c b q h = ground arith

  pub release_if-remain :
      (test : Bool) (c : Call) (x : PoolReader S × PoolState)
      → (release_if test c x).0.remain ≡ x.0.remain
  unfolding release_if
  release_if-remain test c x = ground arith

  pub release_if-reader :
      (test : Bool) (c : Call) (x : PoolReader S × PoolState)
      → (release_if test c x).0.reader ≡ x.0.reader
  unfolding release_if
  release_if-reader test c (pr, p) = ground arith
