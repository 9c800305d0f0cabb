-- ===== src/Readers/Owing.antt =====
-- Whether the connection of an answer is still taken, whatever is read of the answer.
use fasthttpproxy.Common.{
  Bool, true, false, Bool-cases, if_both, ◌&&◌, not, some, List, [], ◌∷◌, ◌≡◌, inl, inr, length,
  arith,
}
use fasthttpproxy.Common.Int.{pos, ◌-ℤ◌, leb_ℤ}
use fasthttpproxy.Common.Text.{Str}
use fasthttpproxy.Common.Net.{Conn, Reader, Reading}
use fasthttpproxy.Pool.State.{PoolState}
use fasthttpproxy.Pool.Buffers.{release_bufio_reader}
use fasthttpproxy.Pool.Untouched.{release_reader-Untouched}
use fasthttpproxy.Pool.Custody.{Custody}
use fasthttpproxy.Readers.PoolReader.{
  PoolReader, Call, is_some, hand_back, shut_down, release_if, after_read, read_with_limit,
  after_read_until_eof, read_until_eof, read, read_all, limited_buffer,
}

module _ (K : Custody) where
  open K use {Idle, Taken, idle_same, released, dropped}

  -- The custody of a connection that was returned, or not.
  abbrev pub Held : Bool → Str → Conn → PoolState → Type 0
  Held true addr c q = Idle q
  Held false addr c q = Taken addr c q

module _ (K : Custody) (addr : Str) (c₀ : Conn) {S : Type 0} where
  open K use {Idle, Taken, idle_same, released, dropped}

  -- A reader of the connection `c₀` of `addr` that releases its bufio.Reader when it is done, and the
  -- pools: the connection is taken until the reader has returned it.
  pub record Owes (b : PoolReader S) (q : PoolState) : Type 0 where
    pub same_addr : b.upstream_addr ≡ addr
    pub same_conn : b.connection ≡ c₀
    pub same_done : b.on_done ≡ some release_bufio_reader
    pub held : Held K b.returned addr c₀ q

  hand_back-Idle :
      (c : Call) (b : PoolReader S) (q : PoolState)
      → Owes b q
      → b.returned ≡ false
      → Idle (hand_back c b q)
  hand_back-Idle c b q v open_yet =
      let taken : Taken addr c₀ q = rw open_yet at v.held in
      rw (v.same_done, v.same_addr, v.same_conn)
        (idle_same (release_reader-Untouched _) (released c.now c.close_error taken))

  shut_down-Idle :
      (c : Call) (b : PoolReader S) (q : PoolState)
      → Owes b q
      → b.returned ≡ false
      → Idle (shut_down c b q)
  shut_down-Idle c b q v open_yet =
      let taken : Taken addr c₀ q = rw open_yet at v.held in
      rw (v.same_done, v.same_addr, v.same_conn)
        (idle_same (release_reader-Untouched _) (dropped c.close_error taken))

  release_if-Owes :
      (test : Bool) (c : Call) (x : PoolReader S × PoolState)
      → Owes x.0 x.1
      → let r = release_if test c x in Owes r.0 r.1
  unfolding release_if
  release_if-Owes test c (b, q) v = elim (Bool-cases (test && not b.returned)) [
    | inr kept ↦ rw kept v
    | inl due ↦ rw due (record {
      same_addr = v.same_addr;
      same_conn = v.same_conn;
      same_done = v.same_done;
      held = hand_back-Idle c b q v (ground arith);
    })
  ]

  module _ (src : Reader S) where
    after_read-Owes :
        (c : Call) (b : PoolReader S) (q : PoolState) (x : Reading × S)
        → Owes b q
        → let r = after_read src c b q x in Owes r.1 r.2
    unfolding after_read
    after_read-Owes c b q ((bytes, e), s) v =
        let left = b.remain -ℤ pos (length bytes) in
        let first =
          release_if-Owes (leb_ℤ left (pos 0)) c (record b { reader = s; remain = left }, q)
            (record {
              same_addr = v.same_addr;
              same_conn = v.same_conn;
              same_done = v.same_done;
              held = v.held;
            }) in
        release_if-Owes (is_some e) c _ first

    after_eof-Owes :
        (c : Call) (b : PoolReader S) (q : PoolState) (x : Reading × S)
        → Owes b q
        → let r = after_read_until_eof src c b q x in Owes r.1 r.2
    unfolding after_read_until_eof
    after_eof-Owes c b q ((bytes, e), s) v = elim (Bool-cases (not b.returned && is_some e)) [
      | inr goes_on ↦ rw goes_on (record {
        same_addr = v.same_addr;
        same_conn = v.same_conn;
        same_done = v.same_done;
        held = v.held;
      })
      | inl ended ↦ rw ended (record {
        same_addr = v.same_addr;
        same_conn = v.same_conn;
        same_done = v.same_done;
        held = shut_down-Idle c b q v (ground arith);
      })
    ]

    limit-Owes :
        (c : Call) (b : PoolReader S) (q : PoolState)
        → Owes b q
        → let r = read_with_limit src c b q in Owes r.1 r.2
    unfolding read_with_limit
    limit-Owes c b q v =
        if_both (λ r. Owes r.1 r.2) (leb_ℤ b.remain (pos 0) && leb_ℤ (pos 0) b.remain) _
          (after_read src c b q (src.read (limited_buffer c b) b.reader)) v
          (after_read-Owes c b q _ v)

    pub read-Owes :
        (c : Call) (b : PoolReader S) (q : PoolState)
        → Owes b q
        → let r = read src c b q in Owes r.1 r.2
    unfolding read read_until_eof
    read-Owes c b q v =
        if_both (λ r. Owes r.1 r.2) (leb_ℤ (pos 0) b.remain) (read_with_limit src c b q) _
          (limit-Owes c b q v) (after_eof-Owes c b q _ v)

    -- Whatever is read of the answer, and however the reads end.
    pub read_all-Owes :
        (cs : List Call) (b : PoolReader S) (q : PoolState)
        → Owes b q
        → let r = read_all src cs b q in Owes r.1 r.2
    unfolding read_all
    read_all-Owes [] b q v = v
    read_all-Owes (c ∷ cs) b q v =
        let r = read src c b q in read_all-Owes cs r.1 r.2 (read-Owes c b q v)
