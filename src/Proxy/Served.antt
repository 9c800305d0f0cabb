-- ===== src/Proxy/Served.antt =====
-- A request from its start to the last byte of the answer that the client reads: handle(), and then
-- the reads of the stream that it has left.
use fasthttpproxy.Common.{
  ℕ, zero, suc, ◌<◌, Bool, true, false, Bool-cases, Option, none, some, List, [], ◌≡◌, refl, sym,
  ap, ◌∙◌, subst, ◌⊎◌, inl, inr, arith, length,
}
use fasthttpproxy.Common.Int.{ℤ, pos, negsuc}
use fasthttpproxy.Common.Text.{Str}
use fasthttpproxy.Common.Result.{ok}
use fasthttpproxy.Common.Net.{Conn, Reader}
use fasthttpproxy.Pool.State.{PoolState}
use fasthttpproxy.Pool.Buffers.{Buffered, release_bufio_reader}
use fasthttpproxy.Pool.Conservation.{Holds}
use fasthttpproxy.Pool.Untouched.{Lease}
use fasthttpproxy.Pool.Leasing.{none_leased, all_idle, leasing}
use fasthttpproxy.Readers.PoolReader.{PoolReader, Call, read_all, new_pool_reader}
use fasthttpproxy.Readers.TimedReader.{TimedReader, timed, new_timed_reader}
use fasthttpproxy.Readers.Held.{Progress}
use fasthttpproxy.Readers.Limited.{read_all-limited}
use fasthttpproxy.Readers.Owing.{Held, Owes, read_all-Owes}
use fasthttpproxy.Proxy.Fasthttp.{Fasthttp}
use fasthttpproxy.Proxy.State.{Handler, Request, Env}
use fasthttpproxy.Proxy.Handler.{handle}
use fasthttpproxy.Proxy.Termination.{Ends}
use fasthttpproxy.Proxy.Lease.{streaming, handle-Settled}
use fasthttpproxy.Proxy.Answer.{IsAnswer, handle-IsAnswer}

-- The connections that a reader owes: its own, until it has returned it.
abbrev pub owed : Bool → ℕ
owed true = 0
owed false = 1

pub Held-Lease :
    (max : ℕ) (n : Str → ℕ) (returned : Bool) (addr : Str) (c : Conn) (p : PoolState)
    → Held (leasing max n) returned addr c p
    → Lease max n addr (owed returned) p
Held-Lease max n true addr c p v = none_leased max n addr p v
Held-Lease max n false addr c p v = v

pub Lease-Held :
    (max : ℕ) (n : Str → ℕ) (returned : Bool) (addr : Str) (c : Conn) (p : PoolState)
    → Lease max n addr (owed returned) p
    → Held (leasing max n) returned addr c p
Lease-Held max n true addr c p v = all_idle max n addr p v
Lease-Held max n false addr c p v = v

-- The connections that the stream of a handler owes.
abbrev pub owed_by : Option (PoolReader (TimedReader Buffered)) → ℕ
owed_by none = 0
owed_by (some pr) = owed pr.returned

module _ (F : Fasthttp) {S W : Type 0} (src : Reader S) (env : Env F.Header W)
    (low : Reader Buffered) (now : ℕ) where
  -- The reads of the client, from the stream if there is one: the bytes, and the handler after them.
  unfoldable pub read_stream :
      List Call → Option (PoolReader (TimedReader Buffered)) → Handler F → List ℕ × Handler F
  read_stream cs none h = ([], h)
  read_stream cs (some pr) h =
      let (bytes, pr', p) = read_all (timed low now) cs pr h.pool in
      (bytes, record h { pool = p; body_stream = some pr' })

  -- The request as a whole; `none` where handle() has not returned within the fuel.
  unfoldable pub serve : Request S → List Call → Handler F → Option (List ℕ × Handler F)
  unfolding read_stream
  serve req cs h = elim (handle F src env req h) [
    | none ↦ none
    | some h' ↦ some (read_stream cs h'.body_stream h')
  ]

  -- The header of the answer, and that its length is 0 or unknown, or more than the bytes read.
  abbrev pub Unread : List ℕ → Type 0
  Unread bytes =
      (header : F.Header) × (env.response_header ≡ ok header)
      × ((F.content_length header ≡ pos 0)
          ⊎ ((m : ℕ) × (F.content_length header ≡ negsuc m))
          ⊎ ((m : ℕ) × (F.content_length header ≡ pos m) × (length bytes < m)))

  unread :
      (cs : List Call) (h : Handler F) (pr : PoolReader (TimedReader Buffered))
      → IsAnswer F src env h.upstream_address (some pr)
      → let r = read_all (timed low now) cs pr h.pool in (r.1.returned ≡ true) ⊎ Unread r.0
  unread cs h pr (c, reader, header, got, e) = by_length (F.content_length header) refl
    where
      r : List ℕ × PoolReader (TimedReader Buffered) × PoolState
      r = read_all (timed low now) cs pr h.pool

      by_length : (l : ℤ) → F.content_length header ≡ l → (r.1.returned ≡ true) ⊎ Unread r.0
      by_length (pos zero) len = inr (header, got, inl len)
      by_length (negsuc m) len = inr (header, got, inr (inl (m, len)))
      by_length (pos (suc m)) len =
          let new =
            new_pool_reader (new_timed_reader reader c) h.upstream_address c (pos (suc m))
              (some release_bufio_reader) in
          let same : pr ≡ new = e ∙ rw len refl in
          let v : Progress (suc m) new h.pool (length r.0) r.1 r.2 =
            subst
              (λ a.
                let x = read_all (timed low now) cs a h.pool in
                Progress (suc m) new h.pool (length x.0) x.1 x.2)
              (sym same)
              (read_all-limited (timed low now) (suc m) cs (new_timed_reader reader c)
                h.upstream_address c (some release_bufio_reader) h.pool (omega arith)) in
          elim (Bool-cases r.1.returned) [
            | inl back ↦ inl back
            | inr out ↦ inr (header, got, inr (inr (suc m, len, v.missing out)))
          ]

  module _ (max : ℕ) (n : Str → ℕ) where
    -- What is leased once the client has stopped reading, and why.
    abbrev pub Served : List ℕ × Handler F → Type 0
    Served (bytes, h) =
        Lease max n h.upstream_address (owed_by h.body_stream) h.pool
        × ((owed_by h.body_stream ≡ 0) ⊎ Unread bytes)

    read_stream-Served :
        (cs : List Call) (o : Option (PoolReader (TimedReader Buffered))) (h : Handler F)
        → h.body_stream ≡ o
        → IsAnswer F src env h.upstream_address o
        → Lease max n h.upstream_address (streaming F o) h.pool
        → Served (read_stream cs o h)
    unfolding read_stream new_pool_reader
    read_stream-Served cs none h e a v = (
      subst (λ o. Lease max n h.upstream_address (owed_by o) h.pool) (sym e) v,
      inl (ap owed_by e),
    )
    read_stream-Served cs (some pr) h e (c, reader, header, got, new) v =
        let start : Owes (leasing max n) h.upstream_address c pr h.pool =
          rw new (record { same_addr = refl; same_conn = refl; same_done = refl; held = v }) in
        let through =
          read_all-Owes (leasing max n) h.upstream_address c (timed low now) cs pr h.pool start in
        let r = read_all (timed low now) cs pr h.pool in
        (
          Held-Lease max n r.1.returned h.upstream_address c r.2 through.held,
          elim (unread cs h pr (c, reader, header, got, new)) [
            | inl back ↦ inl (ap owed back)
            | inr left ↦ inr left
          ],
        )

    -- A request, and any reads of its answer by the client: with `n a` connections leased at each
    -- address `a`, counted within the limit, and a body that, if streamed, ends within the fuel, the
    -- request is handled to an end. After the reads, one connection more is leased at its upstream
    -- while the stream has not returned it, and none more once it has or where nothing is streamed.
    -- It is not returned only where the length of the answer is 0 or unknown, or not all of it was
    -- read: a request whose answer has a positive length and is read in full leaves no lease behind.
    pub serve-Served :
        (req : Request S) (cs : List Call) (h : Handler F)
        → Ends F src env req.body
        → h.body_stream ≡ none
        → ((a : Str) → Holds max (n a) a h.pool)
        → (r : List ℕ × Handler F) × (serve req cs h ≡ some r) × Served r
    unfolding serve
    serve-Served req cs h ends idle v =
        let (h', e, settled) = handle-Settled F src env max n req h ends idle v in
        (
          read_stream cs h'.body_stream h',
          rw (e, serve) refl,
          read_stream-Served cs h'.body_stream h' refl (handle-IsAnswer F src env req h h' idle e)
              settled,
        )
