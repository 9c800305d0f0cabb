-- ===== src/Readers/PoolReader.antt =====
-- internal/readers/pool_reader.go. A reader of the upstream's answer that gives the connection back
-- to its pool, or closes it, when the answer is read.
use fasthttpproxy.Common.{
  ℕ, Bool, true, false, not, ◌&&◌, Option, none, some, List, [], ◌∷◌, ◌++◌, if◌then◌else◌, length,
}
use fasthttpproxy.Common.Int.{ℤ, pos, ◌-ℤ◌, ltb_ℤ, leb_ℤ, pos_part}
use fasthttpproxy.Common.Text.{Str}
use fasthttpproxy.Common.Result.{Error, eof}
use fasthttpproxy.Common.Net.{Conn, Reader, Reading}
use fasthttpproxy.Pool.State.{PoolState}
use fasthttpproxy.Pool.Upstream.{release_upstream_connection, close_and_drop_upstream_connection}

-- `reader` is the state of the wrapped io.Reader; `on_done` acts on the state of the pools.
pub record PoolReader (S : Type 0) : Type 0 where
  pub reader : S
  pub upstream_addr : Str
  pub connection : Conn
  pub returned : Bool
  pub remain : ℤ
  pub on_done : Option (PoolState → PoolState)

-- The environment of one Read: the length of the buffer, the time, and what Close returns.
pub record Call : Type 0 where
  pub buffer : ℕ
  pub now : ℕ
  pub close_error : Option Error

-- NewPoolReader
unfoldable pub new_pool_reader :
    {S : Type 0} → S → Str → Conn → ℤ → Option (PoolState → PoolState) → PoolReader S
new_pool_reader r addr conn remain cleanup = record {
  reader = r;
  upstream_addr = addr;
  connection = conn;
  returned = false;
  remain = remain;
  on_done = cleanup;
}

-- `if pr.onDone != nil { pr.onDone() }`
abbrev pub done : Option (PoolState → PoolState) → PoolState → PoolState
done none p = p
done (some f) p = f p

-- `err != nil`
abbrev pub is_some {ℓ} : {A : Type ℓ} → Option A → Bool
is_some none = false
is_some (some a) = true

module _ {S : Type 0} where
  -- The connection goes back to the pool as a live one.
  abbrev pub hand_back : Call → PoolReader S → PoolState → PoolState
  hand_back c pr p =
      done pr.on_done
        (release_upstream_connection c.now c.close_error pr.upstream_addr pr.connection p)

  -- The connection is closed.
  abbrev pub shut_down : Call → PoolReader S → PoolState → PoolState
  shut_down c pr p =
      done pr.on_done
        (close_and_drop_upstream_connection c.close_error pr.upstream_addr pr.connection p)

  -- `if … && !pr.returned { pr.returned = true; pool.ReleaseUpstreamConnection(…); … }`
  unfoldable pub release_if : Bool → Call → PoolReader S × PoolState → PoolReader S × PoolState
  release_if test c (pr, p) =
      if test && not pr.returned then (record pr { returned = true }, hand_back c pr p) else (pr, p)

  -- The length of `p` after `if int64(len(p)) > pr.remain { p = p[:pr.remain] }`
  abbrev pub limited_buffer : Call → PoolReader S → ℕ
  limited_buffer c pr = if ltb_ℤ pr.remain (pos c.buffer) then pos_part pr.remain else c.buffer

module _ {S : Type 0} (src : Reader S) where
  -- readWithLimit, from the call of the wrapped reader on: its reading and its next state are given.
  unfoldable pub after_read :
      Call → PoolReader S → PoolState → Reading × S → Reading × PoolReader S × PoolState
  unfolding release_if
  after_read c pr p ((bytes, e), s) =
      let left = pr.remain -ℤ pos (length bytes) in
      let pr' = record pr { reader = s; remain = left } in
      let at_limit = release_if (leb_ℤ left (pos 0)) c (pr', p) in
      let on_error = release_if (is_some e) c at_limit in ((bytes, e), on_error.0, on_error.1)

  -- readWithLimit
  unfoldable pub read_with_limit :
      Call → PoolReader S → PoolState → Reading × PoolReader S × PoolState
  unfolding after_read
  read_with_limit c pr p =
      if leb_ℤ pr.remain (pos 0) && leb_ℤ (pos 0) pr.remain
      then (([], some eof), pr, p)
      else after_read c pr p (src.read (limited_buffer c pr) pr.reader)

  -- readUntilEOF, from the call of the wrapped reader on
  unfoldable pub after_read_until_eof :
      Call → PoolReader S → PoolState → Reading × S → Reading × PoolReader S × PoolState
  after_read_until_eof c pr p ((bytes, e), s) =
      let pr' = record pr { reader = s } in
      if not pr.returned && is_some e
      then ((bytes, e), record pr' { returned = true }, shut_down c pr p)
      else ((bytes, e), pr', p)

  -- readUntilEOF
  unfoldable pub read_until_eof :
      Call → PoolReader S → PoolState → Reading × PoolReader S × PoolState
  unfolding after_read_until_eof
  read_until_eof c pr p = after_read_until_eof c pr p (src.read c.buffer pr.reader)

  -- (*PoolReader).Read
  unfoldable pub read : Call → PoolReader S → PoolState → Reading × PoolReader S × PoolState
  unfolding read_with_limit read_until_eof
  read c pr p = if leb_ℤ (pos 0) pr.remain then read_with_limit c pr p else read_until_eof c pr p

  -- A client's calls of Read: the bytes that they gave, in order, and the states after them.
  unfoldable pub read_all : List Call → PoolReader S → PoolState → List ℕ × PoolReader S × PoolState
  unfolding read
  read_all [] pr p = ([], pr, p)
  read_all (c ∷ cs) pr p =
      let (reading, pr', p') = read c pr p in
      let (bytes, pr'', p'') = read_all cs pr' p' in (reading.0 ++ bytes, pr'', p'')
