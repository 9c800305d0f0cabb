-- ===== src/Proxy/Service/Places.antt =====
-- Which connection is where while many requests are served.
use fasthttpproxy.Common.{
  ℕ, zero, suc, Bool, true, false, Option, Option-cases, none, some, List, [], ◌∷◌, ◌++◌,
  append-nil, append_assoc, ◌≡◌, refl, sym, subst, inl, inr, arith, All, All-snoc,
}
use fasthttpproxy.Common.Text.{Str}
use fasthttpproxy.Common.Net.{Conn, Reader}
use fasthttpproxy.Pool.State.{PoolState}
use fasthttpproxy.Pool.Buffers.{Buffered}
use fasthttpproxy.Pool.Placing.{Placed}
use fasthttpproxy.Pool.Placing.Acquire.{DialsNew, placing, placing-Ready}
use fasthttpproxy.Readers.PoolReader.{Call, read, new_pool_reader}
use fasthttpproxy.Readers.TimedReader.{TimedReader, timed}
use fasthttpproxy.Readers.Owing.{Held, Owes, read-Owes}
use fasthttpproxy.Upstream.Upstreams.{Upstreams}
use fasthttpproxy.Proxy.Fasthttp.{Fasthttp}
use fasthttpproxy.Proxy.State.{Env}
use fasthttpproxy.Proxy.Handler.{handle}
use fasthttpproxy.Proxy.Custody.{Kept, handle-Kept}
use fasthttpproxy.Proxy.Answer.{IsAnswer, handle-IsAnswer}
use fasthttpproxy.Proxy.Service.{
  Stream, Service, Event, arrive, reads, read_at, opened, enter, leave, occur,
}
use fasthttpproxy.Proxy.Service.Leases.{Releases}

abbrev pub unless : Bool → ℕ → List ℕ → List ℕ
unless true i is = is
unless false i is = i ∷ is

-- The connections that answers have not returned.
unfoldable pub open_ids : List Stream → List ℕ
open_ids [] = []
open_ids (b ∷ bs) = unless b.returned b.connection.id (open_ids bs)

open_ids-snoc :
    (bs : List Stream) (b : Stream)
    → b.returned ≡ false
    → open_ids (bs ++ b ∷ []) ≡ open_ids bs ++ b.connection.id ∷ []
unfolding open_ids
open_ids-snoc [] b out = rw out refl
open_ids-snoc (x ∷ bs) b out = rw (open_ids-snoc bs b out) (past x.returned)
  where
    past :
        (r : Bool)
        → unless r x.connection.id (open_ids bs ++ b.connection.id ∷ [])
          ≡ unless r x.connection.id (open_ids bs) ++ b.connection.id ∷ []
    past true = refl
    past false = refl

pub Held-unless :
    (is js : List ℕ) (returned : Bool) (addr : Str) (c : Conn) (p : PoolState)
    → Held (placing is js) returned addr c p
    → Placed (is ++ unless returned c.id js) p
Held-unless is js true addr c p v = v
Held-unless is js false addr c p v = v

pub unless-Held :
    (is js : List ℕ) (returned : Bool) (addr : Str) (c : Conn) (p : PoolState)
    → Placed (is ++ unless returned c.id js) p
    → Held (placing is js) returned addr c p
unless-Held is js true addr c p v = v
unless-Held is js false addr c p v = v

-- The answers that were begun, after answers that have taken `is`.
record After (is : List ℕ) (bs : List Stream) (p : PoolState) : Type 0 where
  finishes : All Releases bs
  placed : Placed (is ++ open_ids bs) p

read_first-After :
    (src : Reader (TimedReader Buffered)) (c : Call) (is : List ℕ) (b : Stream) (bs : List Stream)
    (p : PoolState)
    → After is (b ∷ bs) p
    → let r = read src c b p in After is (r.1 ∷ bs) r.2
unfolding open_ids
read_first-After src c is b bs p v =
    let K = placing is (open_ids bs) in
    let r = read src c b p in
    let o : Owes K b.upstream_addr b.connection r.1 r.2 =
      read-Owes K b.upstream_addr b.connection src c b p (record {
        same_addr = refl;
        same_conn = refl;
        same_done = v.finishes.0;
        held = unless-Held is (open_ids bs) b.returned b.upstream_addr b.connection p v.placed;
      }) in
    record {
      finishes = (o.same_done, v.finishes.1);
      placed =
          rw o.same_conn
            (Held-unless is (open_ids bs) r.1.returned b.upstream_addr b.connection r.2 o.held);
    }

-- What the answers before have taken, and the next one.
before : List ℕ → Stream → List ℕ
before is b = is ++ unless b.returned b.connection.id []

before-open :
    (is : List ℕ) (r : Bool) (i : ℕ) (js : List ℕ)
    → (is ++ unless r i []) ++ js ≡ is ++ unless r i js
before-open is true i js = append_assoc is [] js
before-open is false i js = append_assoc is (i ∷ []) js

read_at-After :
    (src : Reader (TimedReader Buffered)) (c : Call) (i : ℕ) (is : List ℕ) (bs : List Stream)
    (p : PoolState)
    → After is bs p
    → let r = read_at src c i bs p in After is r.0 r.1
unfolding read_at open_ids before
read_at-After src c i is [] p v = v
read_at-After src c zero is (b ∷ bs) p v = read_first-After src c is b bs p v
read_at-After src c (suc i) is (b ∷ bs) p v =
    let r = read_at src c i bs p in
    let move = before-open is b.returned b.connection.id in
    let rest : After (before is b) r.0 r.1 = read_at-After src c i (before is b) bs p (record {
      finishes = v.finishes.1;
      placed = subst (λ l. Placed l p) (sym (move (open_ids bs))) v.placed;
    }) in
    record {
      finishes = (v.finishes.0, rest.finishes);
      placed = subst (λ l. Placed l r.1) (move (open_ids r.0)) rest.placed;
    }

-- Every connection is idle at one address, with one answer that has not returned it, or closed; none
-- is at two of these places or twice at one; and none was closed twice.
pub record Unshared (s : Service) : Type 0 where
  pub finishes : All Releases s.streams
  pub placed : Placed (open_ids s.streams) s.pool

-- The dials of a request give connections that were never used.
abbrev pub NewDials : (F : Fasthttp) {S W : Type 0} → Event F S W → Service → Type 0
NewDials F (arrive env req r) s = DialsNew (open_ids s.streams) env.fasthttp_dial s.pool
NewDials F (reads low now i c) s = Unit

-- What can come of a service.
pub data Becomes (F : Fasthttp) {S : Type 0} (W : Type 0) (src : Reader S) (s : Service)
    : Service → Type 0 where
  start : Becomes F W src s s
  event :
      {s₁ s₂ : Service} (x : Event F S W)
      → Becomes F W src s s₁
      → NewDials F x s₁
      → occur F src x s₁ ≡ some s₂
      → Becomes F W src s s₂

module _ (F : Fasthttp) {S W : Type 0} (src : Reader S) where
  leave-Unshared :
      (env : Env F.Header W) (addr : Str) (o : Option Stream) (bs : List Stream) (p : PoolState)
      (u : Upstreams)
      → IsAnswer F src env addr o
      → All Releases bs
      → Kept F src env (placing (open_ids bs) []) addr o p
      → Unshared (record { pool = p; upstreams = u; streams = opened o bs })
  unfolding new_pool_reader
  leave-Unshared env addr none bs p u a rest v = record {
    finishes = rest;
    placed = subst (λ l. Placed l p) (append-nil (open_ids bs)) v;
  }
  leave-Unshared env addr (some b) bs p u (c, reader, header, got, new) rest v = record {
    finishes = All-snoc Releases bs b rest (rw new refl);
    placed = rw (open_ids-snoc bs b (rw new refl)) v;
  }

  occur-Unshared :
      (x : Event F S W) (s s' : Service)
      → NewDials F x s
      → Unshared s
      → occur F src x s ≡ some s'
      → Unshared s'
  unfolding occur
  occur-Unshared (arrive env req r) s s' new v e =
      let h = enter F r s in
      let K = placing (open_ids s.streams) [] in
      let nil = sym (append-nil (open_ids s.streams)) in
      elim (Option-cases (handle F src env req h)) [
        | inl stuck ↦ cc
        | inr (h', done) ↦
            let through =
              handle-Kept F src env K req h h' refl
                (placing-Ready (open_ids s.streams) [] env.fasthttp_dial s.pool
                  (subst (λ l. Placed l s.pool) nil v.placed)
                  (subst (λ l. DialsNew l env.fasthttp_dial s.pool) nil new))
                done in
            let same : leave F s.streams h' ≡ s' = ground arith in
            subst Unshared same (
              leave-Unshared env h'.upstream_address h'.body_stream s.streams h'.pool h'.upstreams
                (handle-IsAnswer F src env req h h' refl done) v.finishes through)
      ]
  occur-Unshared (reads low now i c) s s' new v e =
      let r =
        read_at-After (timed low now) c i [] s.streams s.pool
          (record { finishes = v.finishes; placed = v.placed }) in
      subst (λ o. Unsharing o) e (record { finishes = r.finishes; placed = r.placed })
    where
      Unsharing : Option Service → Type 0
      Unsharing none = Unit
      Unsharing (some t) = Unshared t

  -- From a service in which every connection is idle at one address, with one answer that has not
  -- returned it, or closed, and none is closed twice: whatever requests come, each with dials that give
  -- connections never used before, and however the reads of their answers follow each other, the service
  -- stays so. No two answers that have yet to return their connections share one, and such a connection
  -- is neither idle nor closed.
  pub Becomes-Unshared : {s s' : Service} → Becomes F W src s s' → Unshared s → Unshared s'
  Becomes-Unshared start v = v
  Becomes-Unshared (event {s₁} {s₂} x b new e) v =
      occur-Unshared x s₁ s₂ new (Becomes-Unshared b v) e
