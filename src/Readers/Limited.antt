-- ===== src/Readers/Limited.antt =====
-- A PoolReader over an answer with a Content-Length: how much it reads, and when its connection goes
-- back to the pool.
use native.Mathlib.Nat.{add-zero, le_trans}
use fasthttpproxy.Common.{
  ℕ, suc, ◌+◌, ◌-◌, ◌≤◌, ◌<◌, true, false, Bool-cases, Option, some, List, [], ◌∷◌, ◌++◌, leb, ◌≡◌,
  refl, ap, subst, ◌∙◌, inl, inr, arith, length, length-append,
}
use fasthttpproxy.Common.Int.{ℤ, pos, ◌-ℤ◌, leb_ℤ}
use fasthttpproxy.Common.Text.{Str}
use fasthttpproxy.Common.Result.{Error, eof}
use fasthttpproxy.Common.Net.{Conn, Reader}
use fasthttpproxy.Pool.State.{PoolState}
use fasthttpproxy.Readers.PoolReader.{
  PoolReader, Call, hand_back, is_some, release_if, limited_buffer, after_read, new_pool_reader,
  read_with_limit, read, read_all,
}
use fasthttpproxy.Readers.Held.{
  Held, Progress, release_if-Held, release_if-returned, release_if-remain,
}

pub pos_sub : (a b : ℕ) → b ≤ a → pos a -ℤ pos b ≡ pos (a - b)
unfolding ◌-ℤ◌
pos_sub a b h = ground arith

pub leb_le : (a b : ℕ) → leb a b ≡ true → a ≤ b
leb_le a b h = ground arith

module _ {S : Type 0} (src : Reader S) where
  after_read-Progress :
      (n total : ℕ) (c : Call) (a b : PoolReader S) (p q : PoolState) (bytes : List ℕ)
      (e : Option Error) (s : S)
      → Progress n a p total b q
      → length bytes ≤ n - total
      → let r = after_read src c b q ((bytes, e), s) in
        Progress n a p (total + length bytes) r.1 r.2 × ((is_some e ≡ true) → r.1.returned ≡ true)
  unfolding after_read
  after_read-Progress n total c a b p q bytes e s v fits = (
    record {
      within = omega arith;
      left = release_if-remain (is_some e) c r₁ ∙ release_if-remain _ c _ ∙ left;
      held =
          release_if-Held (is_some e) c a r₁.0 p r₁.1
            (release_if-Held (leb_ℤ now_left (pos 0)) c a b' p q h);
      missing = λ kept. still_missing kept;
    },
    λ failed. release_if-returned (is_some e) c r₁.0 r₁.1 (inl failed),
  )
    where
      now_left : ℤ
      now_left = b.remain -ℤ pos (length bytes)

      left : now_left ≡ pos (n - (total + length bytes))
      left = rw v.left (pos_sub (n - total) (length bytes) fits ∙ ap pos (omega arith))

      b' : PoolReader S
      b' = record b { reader = s; remain = now_left }

      h : Held a p b' q
      h = record {
        same = record {
          same_addr = v.held.same.same_addr;
          same_connection = v.held.same.same_connection;
          same_done = v.held.same.same_done;
        };
        once = v.held.once;
      }

      r₁ : PoolReader S × PoolState
      r₁ = release_if (leb_ℤ now_left (pos 0)) c (b', q)

      still_missing : (release_if (is_some e) c r₁).0.returned ≡ false → total + length bytes < n
      still_missing kept = elim (Bool-cases (leb n (total + length bytes))) [
        | inr small ↦ ground arith
        | inl reached ↦
            let at_limit : leb_ℤ now_left (pos 0) ≡ true = rw left (ground arith) in
            let back = release_if-returned (leb_ℤ now_left (pos 0)) c b' q (inl at_limit) in
            cc (release_if-returned (is_some e) c r₁.0 r₁.1 (inr back))
      ]

  pub read_exhausted :
      (c : Call) (b : PoolReader S) (q : PoolState)
      → b.remain ≡ pos 0
      → read src c b q ≡ (([], some eof), b, q)
  unfolding read read_with_limit
  read_exhausted c b q h = ground arith

  pub read_some :
      (c : Call) (b : PoolReader S) (q : PoolState) (m : ℕ)
      → b.remain ≡ pos (suc m)
      → read src c b q ≡ after_read src c b q (src.read (limited_buffer c b) b.reader)
  unfolding read read_with_limit
  read_some c b q m h = ground arith

  -- One Read. An error, EOF included, is reported only when the connection has been given back.
  pub read-Progress :
      (n total : ℕ) (c : Call) (a b : PoolReader S) (p q : PoolState)
      → Progress n a p total b q
      → let r = read src c b q in
        Progress n a p (total + length r.0.0) r.1 r.2
        × ((is_some r.0.1 ≡ true) → r.1.returned ≡ true)
  unfolding after_read
  read-Progress n total c a b p q v = elim (Bool-cases (leb n total)) [
    | inl all ↦
        let none_left : b.remain ≡ pos 0 = v.left ∙ ap pos (ground arith) in
        rw (read_exhausted c b q none_left) (
          record {
            within = omega arith;
            left = v.left ∙ ap pos (omega arith);
            held = v.held;
            missing = λ k. omega (arith, v.missing k);
          },
          λ _. gave_back all,
        )
    | inr more ↦
        let some_left : n - total ≡ suc (n - total - 1) = ground arith in
        rw (read_some c b q (n - total - 1) (v.left ∙ ap pos some_left)) (
          after_read-Progress n total c a b p q _ _ _ v
            (le_trans (src.read_fits (limited_buffer c b) b.reader) (rw v.left (ground arith))))
  ]
    where
      gave_back : leb n total ≡ true → b.returned ≡ true
      gave_back all = elim v.held.once [
        | inl (kept, _) ↦ absurd (omega (arith, v.missing kept, leb_le n total all))
        | inr (gone, _, _) ↦ gone
      ]

  pub read_all-Progress :
      (n total : ℕ) (cs : List Call) (a b : PoolReader S) (p q : PoolState)
      → Progress n a p total b q
      → let r = read_all src cs b q in Progress n a p (total + length r.0) r.1 r.2
  unfolding read_all
  read_all-Progress n total [] a b p q v = rw add-zero v
  read_all-Progress n total (c ∷ cs) a b p q v =
      let r = read src c b q in
      let rest =
        read_all-Progress n (total + length r.0.0) cs a r.1 p r.2
          (read-Progress n total c a b p q v).0 in
      let e : total + length (r.0.0 ++ (read_all src cs r.1 r.2).0)
          ≡ total + length r.0.0 + length (read_all src cs r.1 r.2).0 =
        omega (arith, length-append r.0.0 (read_all src cs r.1 r.2).0) in
      rw e rest

  pub new_reader-Progress :
      (n : ℕ) (s : S) (addr : Str) (conn : Conn) (cleanup : Option (PoolState → PoolState))
      (p : PoolState)
      → 0 < n
      → let a = new_pool_reader s addr conn (pos n) cleanup in Progress n a p 0 a p
  unfolding new_pool_reader
  new_reader-Progress n s addr conn cleanup p some_bytes = record {
    within = omega arith;
    left = ap pos (omega arith);
    held = record {
      same = record { same_addr = refl; same_connection = refl; same_done = refl };
      once = inl (refl, refl);
    };
    missing = λ _. some_bytes;
  }

  -- Any reads of an answer with a Content-Length of `n` bytes, at least one, by a new PoolReader. No
  -- more than `n` bytes are read, and `remain` is what is left of them. The connection was given back
  -- to its pool at most once, by Release with the callback after it, and nothing else happened to the
  -- pools; once all `n` bytes are read it was given back.
  pub read_all-limited :
      (n : ℕ) (cs : List Call) (s : S) (addr : Str) (conn : Conn)
      (cleanup : Option (PoolState → PoolState)) (p : PoolState)
      → 0 < n
      → let a = new_pool_reader s addr conn (pos n) cleanup in
        let r = read_all src cs a p in Progress n a p (length r.0) r.1 r.2
  read_all-limited n cs s addr conn cleanup p some_bytes =
      let a = new_pool_reader s addr conn (pos n) cleanup in
      subst (λ t. Progress n a p t (read_all src cs a p).1 (read_all src cs a p).2) (omega arith)
        (read_all-Progress n 0 cs a a p p (new_reader-Progress n s addr conn cleanup p some_bytes))

  read_all-exhausted :
      (cs : List Call) (b : PoolReader S) (q : PoolState)
      → b.remain ≡ pos 0
      → read_all src cs b q ≡ ([], b, q)
  unfolding read_all
  read_all-exhausted [] b q h = refl
  read_all-exhausted (c ∷ cs) b q h =
      ground (arith, read_exhausted c b q h, read_all-exhausted cs b q h)

  -- With a Content-Length of 0 no sequence of reads gives a byte or touches the pools: the connection
  -- is neither released nor closed, and the callback is not called.
  pub read_all-empty :
      (cs : List Call) (s : S) (addr : Str) (conn : Conn) (cleanup : Option (PoolState → PoolState))
      (p : PoolState)
      → let a = new_pool_reader s addr conn (pos 0) cleanup in read_all src cs a p ≡ ([], a, p)
  unfolding new_pool_reader
  read_all-empty cs s addr conn cleanup p =
      read_all-exhausted cs (new_pool_reader s addr conn (pos 0) cleanup) p refl

  -- A read that fails before the limit, by EOF or otherwise, gives the connection to Release.
  pub failed_read_releases :
      (c : Call) (b : PoolReader S) (p : PoolState) (m : ℕ) (bytes : List ℕ) (e : Error) (s : S)
      → b.remain ≡ pos (suc m)
      → b.returned ≡ false
      → src.read (limited_buffer c b) b.reader ≡ ((bytes, some e), s)
      → ((read src c b p).0 ≡ (bytes, some e))
        × ((read src c b p).1.returned ≡ true)
        × ((read src c b p).2 ≡ hand_back c b p)
  unfolding after_read
  failed_read_releases c b p m bytes e s more kept failed =
      ground (arith, read_some c b p m more, failed)
