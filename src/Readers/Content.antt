-- ===== src/Readers/Content.antt =====
-- What a client reads through a PoolReader: the bytes of the upstream, in order.
use fasthttpproxy.Common.{
  ℕ, suc, ◌+◌, ◌-◌, ◌≤◌, ◌<◌, leb, true, Bool-cases, if_both, Option, List, [], ◌∷◌, ◌++◌, ◌&&◌,
  ◌≡◌, refl, sym, ap, ◌∙◌, inl, inr, All, arith, length, length-append, append_assoc,
}
use fasthttpproxy.Common.Int.{pos, leb_ℤ}
use fasthttpproxy.Common.Text.{Str}
use fasthttpproxy.Common.Net.{Conn, Reader, Reading}
use fasthttpproxy.Pool.State.{PoolState}
use fasthttpproxy.Readers.PoolReader.{
  PoolReader, Call, is_some, hand_back, limited_buffer, after_read, after_read_until_eof,
  read_with_limit, read_until_eof, new_pool_reader, read, read_all,
}
use fasthttpproxy.Readers.Held.{Progress, release_if-reader}
use fasthttpproxy.Readers.Limited.{
  read_some, read-Progress, leb_le, read_all-Progress, read_all-limited, new_reader-Progress,
}

-- The bytes that a source has still to give.
pub record Content {S : Type 0} (src : Reader S) : Type 0 where
  pub rest : S → List ℕ
  pub gives : (k : ℕ) (s : S) → (src.read k s).0.0 ++ rest (src.read k s).1 ≡ rest s

module _ {S : Type 0} (src : Reader S) where
  after_read-reader :
      (c : Call) (b : PoolReader S) (q : PoolState) (x : Reading × S)
      → (after_read src c b q x).1.reader ≡ x.1
  unfolding after_read
  after_read-reader c b q x = release_if-reader (is_some x.0.1) c _ ∙ release_if-reader _ c _

  after_eof-reader :
      (c : Call) (b : PoolReader S) (q : PoolState) (x : Reading × S)
      → ((after_read_until_eof src c b q x).0 ≡ x.0)
        × ((after_read_until_eof src c b q x).1.reader ≡ x.1)
  unfolding after_read_until_eof
  after_eof-reader c b q ((bytes, e), s) = ground arith

  module _ (d : Content src) where
    -- The bytes that a read has given are the next of the source.
    abbrev Onward : PoolReader S → Reading × PoolReader S × PoolState → Type 0
    Onward b r = r.0.0 ++ d.rest r.1.reader ≡ d.rest b.reader

    after_read-Onward :
        (k : ℕ) (c : Call) (b : PoolReader S) (q : PoolState)
        → Onward b (after_read src c b q (src.read k b.reader))
    unfolding after_read
    after_read-Onward k c b q =
        let x = src.read k b.reader in
        ap (λ s. x.0.0 ++ d.rest s) (after_read-reader c b q x) ∙ d.gives k b.reader

    after_eof-Onward :
        (c : Call) (b : PoolReader S) (q : PoolState)
        → Onward b (after_read_until_eof src c b q (src.read c.buffer b.reader))
    after_eof-Onward c b q =
        let x = src.read c.buffer b.reader in
        let (same, next) = after_eof-reader c b q x in
        (λ i. (same i).0 ++ d.rest (next i)) ∙ d.gives c.buffer b.reader

    read-Onward : (c : Call) (b : PoolReader S) (q : PoolState) → Onward b (read src c b q)
    unfolding read read_with_limit read_until_eof
    read-Onward c b q =
        if_both (Onward b) (leb_ℤ (pos 0) b.remain) _ _
          (if_both (Onward b) (leb_ℤ b.remain (pos 0) && leb_ℤ (pos 0) b.remain) _ _ refl
            (after_read-Onward (limited_buffer c b) c b q))
          (after_eof-Onward c b q)

    -- Whatever the buffers, and whether or not there is a Content-Length: the bytes that the client
    -- reads, followed by those that the source has still to give, are those that it had to give at
    -- first. None is lost, repeated or out of order.
    pub read_all-content :
        (cs : List Call) (b : PoolReader S) (q : PoolState)
        → let r = read_all src cs b q in r.0 ++ d.rest r.1.reader ≡ d.rest b.reader
    unfolding read_all
    read_all-content [] b q = refl
    read_all-content (c ∷ cs) b q =
        let r = read src c b q in
        append_assoc r.0.0 (read_all src cs r.1 r.2).0 _
        ∙ ap (λ l. r.0.0 ++ l) (read_all-content cs r.1 r.2)
        ∙ read-Onward c b q

    -- While it has bytes to give and the buffer has room, a read gives some.
    abbrev pub Eager : Type 0
    Eager = (k : ℕ) (s : S) → 0 < k → 0 < length (d.rest s) → 0 < length (src.read k s).0.0

    read-some :
        (c : Call) (b : PoolReader S) (q : PoolState) (m : ℕ)
        → Eager
        → b.remain ≡ pos (suc m)
        → 0 < c.buffer
        → 0 < length (d.rest b.reader)
        → 0 < length (read src c b q).0.0
    unfolding after_read
    read-some c b q m eager more room some_left =
        let room' : 0 < limited_buffer c b = rw more (ground arith) in
        rw (read_some src c b q m more) (eager (limited_buffer c b) b.reader room' some_left)

    reads_in_full :
        (n total : ℕ) (cs : List Call) (a b : PoolReader S) (p q : PoolState)
        → Eager
        → Progress n a p total b q
        → n - total ≤ length (d.rest b.reader)
        → All (λ c. 0 < c.buffer) cs
        → n - total ≤ length cs
        → total + length (read_all src cs b q).0 ≡ n
    unfolding read_all
    reads_in_full n total [] a b p q eager v there room enough = omega (arith, v.within)
    reads_in_full n total (c ∷ cs) a b p q eager v there room enough =
        let r = read src c b q in
        let v' = (read-Progress src n total c a b p q v).0 in
        let split : length (r.0.0 ++ (read_all src cs r.1 r.2).0)
            ≡ length r.0.0 + length (read_all src cs r.1 r.2).0 =
          length-append r.0.0 (read_all src cs r.1 r.2).0 in
        elim (Bool-cases (leb n total)) [
          | inl all ↦ omega (
            arith,
            split,
            leb_le n total all,
            (read_all-Progress src n (total + length r.0.0) cs a r.1 p r.2 v').within,
          )
          | inr more ↦
              let some_left : n - total ≡ suc (n - total - 1) = ground arith in
              let gave =
                read-some c b q (n - total - 1) eager (v.left ∙ ap pos some_left) room.0
                  (omega (arith, some_left, there)) in
              let onward : length r.0.0 + length (d.rest r.1.reader) ≡ length (d.rest b.reader) =
                sym (length-append r.0.0 (d.rest r.1.reader)) ∙ ap length (read-Onward c b q) in
              omega (
                arith,
                split,
                reads_in_full n (total + length r.0.0) cs a r.1 p r.2 eager v'
                    (omega (arith, gave, onward, there)) room.1 (omega (arith, gave, enough)),
              )
        ]

    -- An answer with a Content-Length of `n` bytes, at least one, whose upstream has as many to give
    -- and gives some at each read: a client that reads `n` times or more, with room in its buffers,
    -- gets the first `n` bytes of the upstream, in their order, and the connection was given back to
    -- its pool by one Release.
    pub read_all_complete :
        (n : ℕ) (cs : List Call) (s : S) (addr : Str) (conn : Conn)
        (cleanup : Option (PoolState → PoolState)) (p : PoolState)
        → Eager
        → 0 < n
        → n ≤ length (d.rest s)
        → All (λ c. 0 < c.buffer) cs
        → n ≤ length cs
        → let a = new_pool_reader s addr conn (pos n) cleanup in
          let r = read_all src cs a p in
          (r.0 ++ d.rest r.1.reader ≡ d.rest s)
          × (length r.0 ≡ n)
          × (r.1.returned ≡ true)
          × (c : Call) × (r.2 ≡ hand_back c a p)
    unfolding new_pool_reader
    read_all_complete n cs s addr conn cleanup p eager some_bytes there room enough =
        let a = new_pool_reader s addr conn (pos n) cleanup in
        let v = read_all-limited src n cs s addr conn cleanup p some_bytes in
        let fresh = new_reader-Progress src n s addr conn cleanup p some_bytes in
        let all : length (read_all src cs a p).0 ≡ n =
          omega
            (arith, reads_in_full n 0 cs a a p p eager fresh (omega arith) room (omega arith)) in
        let back : ((read_all src cs a p).1.returned ≡ true)
            × (c : Call) × ((read_all src cs a p).2 ≡ hand_back c a p) =
          elim v.held.once [
            | inl (kept, _) ↦ absurd (omega (arith, v.missing kept, all))
            | inr x ↦ x
          ] in
        (read_all-content cs a p, all, back.0, back.1, back.2)
