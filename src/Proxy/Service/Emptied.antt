-- ===== src/Proxy/Service/Emptied.antt =====
-- Answers with a Content-Length of 0, which never return their connection.
use fasthttpproxy.Common.{
  ℕ, zero, suc, ◌+◌, ◌≤◌, Bool, none, some, List, [], ◌∷◌, All, All-map, ◌≡◌, ◌≢◌, refl, sym, ap,
  ◌∙◌, subst, arith,
}
use mathlib.Core.Option.{some_inj}
use fasthttpproxy.Common.Int.{ℤ, pos, negsuc}
use fasthttpproxy.Common.Text.{Str}
use fasthttpproxy.Common.Net.{Reader}
use fasthttpproxy.Pool.State.{PoolState}
use fasthttpproxy.Pool.Buffers.{Buffered}
use fasthttpproxy.Pool.Leasing.{at}
use fasthttpproxy.Readers.PoolReader.{Call, read}
use fasthttpproxy.Readers.Limited.{read_exhausted}
use fasthttpproxy.Readers.TimedReader.{TimedReader, timed}
use fasthttpproxy.Proxy.Fasthttp.{Fasthttp, StatusLaws}
use fasthttpproxy.Proxy.State.{Handler, Request, Env}
use fasthttpproxy.Proxy.Handler.{handle}
use fasthttpproxy.Proxy.Served.{owed}
use fasthttpproxy.Proxy.Concurrent.Choice.{IntnFits}
use fasthttpproxy.Proxy.Service.{
  Stream, Service, Event, arrive, reads, read_at, enter, leave, occur, occur_all,
}
use fasthttpproxy.Proxy.Service.Leases.{open_at, Sound, occur-Sound}
use fasthttpproxy.Proxy.Service.Starved.{Blocked, refusal, turned_away}

-- What an answer with no bytes left still holds.
unfoldable pub stuck_with : ℤ → Bool → ℕ
stuck_with (pos zero) returned = owed returned
stuck_with (pos (suc n)) returned = 0
stuck_with (negsuc n) returned = 0

-- The answers from the address that have nothing left to read, and hold their connection.
unfoldable pub empty_at : Str → List Stream → ℕ
empty_at a [] = 0
empty_at a (b ∷ bs) = at b.upstream_addr (stuck_with b.remain b.returned) a + empty_at a bs

stuck_with-owed : (n : ℤ) (returned : Bool) → stuck_with n returned ≤ owed returned
unfolding stuck_with
stuck_with-owed (pos zero) returned = omega arith
stuck_with-owed (pos (suc n)) returned = omega arith
stuck_with-owed (negsuc n) returned = omega arith

pub empty_at-open_at : (a : Str) (bs : List Stream) → empty_at a bs ≤ open_at a bs
unfolding empty_at open_at
empty_at-open_at a [] = omega arith
empty_at-open_at a (b ∷ bs) =
    ground (arith, stuck_with-owed b.remain b.returned, empty_at-open_at a bs)

-- A Read of an answer does not free what it holds with nothing left.
read-stuck :
    (src : Reader (TimedReader Buffered)) (c : Call) (b : Stream) (p : PoolState) (n : ℤ)
    → b.remain ≡ n
    → (a : Str)
    → at b.upstream_addr (stuck_with n b.returned) a
      ≤ (let b' = (read src c b p).1 in at b'.upstream_addr (stuck_with b'.remain b'.returned) a)
unfolding stuck_with
read-stuck src c b p (pos zero) e a = rw (read_exhausted src c b p e, e) (omega arith)
read-stuck src c b p (pos (suc n)) e a = ground arith
read-stuck src c b p (negsuc n) e a = ground arith

pub read_at-stuck :
    (src : Reader (TimedReader Buffered)) (c : Call) (i : ℕ) (bs : List Stream) (p : PoolState)
    (a : Str)
    → empty_at a bs ≤ empty_at a (read_at src c i bs p).0
unfolding empty_at read_at
read_at-stuck src c i [] p a = omega arith
read_at-stuck src c zero (b ∷ bs) p a = omega (arith, read-stuck src c b p b.remain refl a)
read_at-stuck src c (suc i) (b ∷ bs) p a = omega (arith, read_at-stuck src c i bs p a)

module _ (max : ℕ) where
  -- For each listed upstream, as many answers with nothing left to read hold a connection as the limit
  -- allows.
  pub record Spent (s : Service) : Type 0 where
    pub sound : Sound max s
    pub some_listed : s.upstreams.keys ≢ []
    pub all_empty : All (λ k. empty_at k.address s.streams ≡ max) s.upstreams.keys

  empty-full :
      (s : Service)
      → Sound max s
      → (a : Str) → max ≤ empty_at a s.streams
      → open_at a s.streams ≡ max
  empty-full s v a all = omega (arith, (v.holds a).bounded, empty_at-open_at a s.streams, all)

  Spent-Blocked : (s : Service) → Spent s → Blocked max s
  Spent-Blocked s v = record {
    sound = v.sound;
    some_listed = v.some_listed;
    full =
        All-map (λ k e. empty-full s v.sound k.address (omega (arith, e))) s.upstreams.keys
          v.all_empty;
  }

  -- No answer is freed, and the upstreams are the same.
  Spent-step :
      (s s' : Service)
      → Sound max s'
      → s'.upstreams ≡ s.upstreams
      → ((a : Str) → empty_at a s.streams ≤ empty_at a s'.streams)
      → Spent s
      → Spent s'
  Spent-step s s' sound same grows v = record {
    sound = sound;
    some_listed = λ e. v.some_listed (ap (λ u. u.keys) (sym same) ∙ e);
    all_empty =
        subst (λ u. All (λ k. empty_at k.address s'.streams ≡ max) u.keys) (sym same)
          (All-map
            (λ k e.
              let full = empty-full s' sound k.address (omega (arith, e, grows k.address)) in
              omega (arith, e, full, grows k.address, empty_at-open_at k.address s'.streams))
            s.upstreams.keys v.all_empty);
  }

  -- rand.Intn gives a number below its argument.
  abbrev pub Lawful : (F : Fasthttp) {S W : Type 0} → Event F S W → Type 0
  Lawful F (arrive env req r) = IntnFits env.intn
  Lawful F (reads low now i c) = Unit

  module _ (F : Fasthttp) (laws : StatusLaws F) {S W : Type 0} (src : Reader S) where
    occur-Spent :
        (x : Event F S W) (s : Service)
        → Lawful F x
        → Spent s
        → (s' : Service) × (occur F src x s ≡ some s') × Spent s'
    unfolding occur
    occur-Spent (arrive env req r) s law v =
        let (k, e) = turned_away F laws max src env req r s law (Spent-Blocked s v) in
        (
          leave F s.streams (refusal F r s k),
          rw (e, occur) refl,
          Spent-step s (leave F s.streams (refusal F r s k))
              (record { finishes = v.sound.finishes; holds = v.sound.holds }) refl
              (λ a. omega arith) v,
        )
    occur-Spent (reads low now i c) s law v =
        let (s', e, sound) = occur-Sound max F {W = W} src (reads low now i c) s tt v.sound in
        let r = read_at (timed low now) c i s.streams s.pool in
        let same : record s { pool = r.1; streams = r.0 } ≡ s' = (some_inj).0 e in
        (
          s',
          e,
          Spent-step s s' sound (ap (λ t. t.upstreams) (sym same))
              (λ a.
                subst (λ t. empty_at a s.streams ≤ empty_at a t.streams) same
                  (read_at-stuck (timed low now) c i s.streams s.pool a))
              v,
        )

    occur_all-Spent :
        (xs : List (Event F S W)) (s : Service)
        → All (Lawful F) xs
        → Spent s
        → (s' : Service) × (occur_all F src xs s ≡ some s') × Spent s'
    unfolding occur_all
    occur_all-Spent [] s laws' v = (s, refl, v)
    occur_all-Spent (x ∷ xs) s laws' v =
        let (s₁, e, v₁) = occur-Spent x s laws'.0 v in
        let (s', e', v') = occur_all-Spent xs s₁ laws'.1 v₁ in (s', rw (e, occur_all) e', v')

    -- Once as many answers from each listed upstream as the limit allows have nothing left to read and
    -- have not returned their connection, like answers with a Content-Length of 0, the service never
    -- recovers: whatever requests come and whatever reads of any answers follow, each event returns,
    -- and the next request is handled to an end with status 502 and no stream.
    pub never_recovers :
        (xs : List (Event F S W)) (env : Env F.Header W) (req : Request S) (r : F.Response)
        (s : Service)
        → All (Lawful F) xs
        → IntnFits env.intn
        → Spent s
        → (s' : Service) × (occur_all F src xs s ≡ some s')
          × (h : Handler F) × (handle F src env req (enter F r s') ≡ some h)
          × (F.status_code h.response ≡ 502)
          × (h.body_stream ≡ none)
    never_recovers xs env req r s all law v =
        let (s', e, v') = occur_all-Spent xs s all v in
        let (k, e') = turned_away F laws max src env req r s' law (Spent-Blocked s' v') in
        (s', e, refusal F r s' k, e', laws.status_code-error _ 502 r, refl)
