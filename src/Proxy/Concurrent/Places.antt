-- ===== src/Proxy/Concurrent/Places.antt =====
-- Which connection is where while requests are handled at the same time.
use fasthttpproxy.Common.{ℕ, Bool, true, false, ◌<◌, List, [], ◌∷◌, ◌++◌, ◌≡◌, refl, sym, subst}
use fasthttpproxy.Common.Threads.{assign, gathered, Split, split}
use fasthttpproxy.Common.Text.{Str}
use fasthttpproxy.Common.Result.{Result}
use fasthttpproxy.Common.Net.{Conn, Reader}
use fasthttpproxy.Pool.State.{PoolState}
use fasthttpproxy.Pool.Custody.{Custody}
use fasthttpproxy.Pool.Placing.{Placed}
use fasthttpproxy.Pool.Placing.Acquire.{DialsNew, placing, placing-Ready}
use fasthttpproxy.Readers.TimedReader.{timed}
use fasthttpproxy.Proxy.Service.Places.{unless, Held-unless, unless-Held}
use fasthttpproxy.Proxy.Fasthttp.{Fasthttp}
use fasthttpproxy.Proxy.Concurrent.{
  Shared, Phase, resolving, acquiring, heading, sending, reading, copying, dropping, streaming,
  ended, Task, System, Step, calls, reads, Runs, start, next,
}
use fasthttpproxy.Proxy.Concurrent.Custody.{Carries, Prepared, advance-Carries, reads-Carries}
use fasthttpproxy.Proxy.Concurrent.Answers.{Fits, Fits-assign}

-- `unless` before the connections of others.
unless-append : (r : Bool) (i : ℕ) (js : List ℕ) → unless r i [] ++ js ≡ unless r i js
unless-append true i js = refl
unless-append false i js = refl

module _ (F : Fasthttp) {S : Type 0} where
  -- The connection that a goroutine has acquired and not given back.
  abbrev pub having_ids : Phase F S → List ℕ
  having_ids (resolving req) = []
  having_ids (acquiring b) = []
  having_ids ended = []
  having_ids (streaming b) = unless b.returned b.connection.id []
  having_ids (heading c b) = c.id ∷ []
  having_ids (sending c b) = c.id ∷ []
  having_ids (reading c) = c.id ∷ []
  having_ids (copying c header reader) = c.id ∷ []
  having_ids (dropping c) = c.id ∷ []

  module _ (is js : List ℕ) (addr : Str) (q : PoolState) where
    Carries-of :
        (p : Phase F S)
        → Fits F p addr
        → Placed (is ++ (having_ids p ++ js)) q
        → Carries F (placing is js) p addr q
    Carries-of (resolving req) f v = v
    Carries-of (acquiring b) f v = v
    Carries-of ended f v = v
    Carries-of (heading c b) f v = v
    Carries-of (sending c b) f v = v
    Carries-of (reading c) f v = v
    Carries-of (copying c header reader) f v = v
    Carries-of (dropping c) f v = v
    Carries-of (streaming b) f v = record {
      same_addr = f.0;
      same_conn = refl;
      same_done = f.1;
      held =
          unless-Held is js b.returned addr b.connection q
            (subst (λ l. Placed (is ++ l) q) (unless-append b.returned b.connection.id js) v);
    }

    of-Carries :
        (p : Phase F S)
        → Carries F (placing is js) p addr q
        → Fits F p addr × Placed (is ++ (having_ids p ++ js)) q
    of-Carries (resolving req) v = (tt, v)
    of-Carries (acquiring b) v = (tt, v)
    of-Carries ended v = (tt, v)
    of-Carries (heading c b) v = (tt, v)
    of-Carries (sending c b) v = (tt, v)
    of-Carries (reading c) v = (tt, v)
    of-Carries (copying c header reader) v = (tt, v)
    of-Carries (dropping c) v = (tt, v)
    of-Carries (streaming b) v = (
      (v.same_addr, v.same_done),
      subst (λ l. Placed (is ++ l) q) (sym (unless-append b.returned b.connection.id js))
          (Held-unless is js b.returned addr b.connection q v.held),
    )

  -- The dials of Acquire give connections that nobody has and that were never closed.
  abbrev pub DialsFor : Phase F S → List ℕ → (Str → Result Conn) → PoolState → Type 0
  DialsFor (acquiring b) own fasthttp_dial q = DialsNew own fasthttp_dial q
  DialsFor _ own fasthttp_dial q = Unit

  prepared :
      (is js : List ℕ) (fasthttp_dial : Str → Result Conn) (addr : Str) (q : PoolState)
      (p : Phase F S)
      → DialsFor p (is ++ (having_ids p ++ js)) fasthttp_dial q
      → Carries F (placing is js) p addr q
      → Prepared F (placing is js) p fasthttp_dial q
  prepared is js fasthttp_dial addr q (acquiring b) new v =
      placing-Ready is js fasthttp_dial q v new
  prepared is js fasthttp_dial addr q (resolving req) new v = tt
  prepared is js fasthttp_dial addr q ended new v = tt
  prepared is js fasthttp_dial addr q (heading c b) new v = tt
  prepared is js fasthttp_dial addr q (sending c b) new v = tt
  prepared is js fasthttp_dial addr q (reading c) new v = tt
  prepared is js fasthttp_dial addr q (copying c header reader) new v = tt
  prepared is js fasthttp_dial addr q (dropping c) new v = tt
  prepared is js fasthttp_dial addr q (streaming b) new v = tt

module _ (F : Fasthttp) {S W : Type 0} where
  abbrev pub ids_of : Task F S W → List ℕ
  ids_of t = having_ids F t.phase

  -- Every connection is idle at one address, with one goroutine that has acquired it and not given it
  -- back, or closed; none is at two of these places or twice at one; and none was closed twice.
  pub record Unshared (n : ℕ) (s : System F S W) : Type 0 where
    pub fits : (i : ℕ) → Fits F (s.task i).phase (s.task i).address
    pub placed : Placed (gathered ids_of n s.task) s.shared.pool

  -- The dials of the next call give new connections.
  abbrev pub MayDial : ℕ → System F S W → ℕ → Type 0
  MayDial n s i =
      DialsFor F (s.task i).phase (gathered ids_of n s.task) (s.task i).env.fasthttp_dial
        s.shared.pool

  module _ (n i : ℕ) (lt : i < n) (s : System F S W) where
    others : Split ids_of n s.task i
    others = split ids_of n s.task i lt

    places : Custody
    places = placing others.before others.after

    mine : Unshared n s → Carries F places (s.task i).phase (s.task i).address s.shared.pool
    unfolding places
    mine v =
        Carries-of F others.before others.after (s.task i).address s.shared.pool (s.task i).phase
          (v.fits i) (subst (λ l. Placed l s.shared.pool) others.same v.placed)

    -- The goroutine has made a step, and has its connection.
    settle :
        (m : Shared) (t : Task F S W)
        → Unshared n s
        → Carries F places t.phase t.address m.pool
        → Unshared n (record { shared = m; task = assign s.task i t })
    unfolding places
    settle m t v w =
        let (fits, held) = of-Carries F others.before others.after t.address m.pool t.phase w in
        record {
          fits = Fits-assign F s.task i t fits v.fits;
          placed = subst (λ l. Placed l m.pool) (sym (others.changed t)) held;
        }

  module _ (src : Reader S) {n : ℕ} where
    Step-Unshared :
        {s u : System F S W} → Step F src (MayDial n) n s u → Unshared n s → Unshared n u
    unfolding places
    Step-Unshared {s} (calls i {m} {t} lt may e) v =
        let w = mine n i lt s v in
        let o = others n i lt s in
        let new =
          subst (λ l. DialsFor F (s.task i).phase l (s.task i).env.fasthttp_dial s.shared.pool)
            o.same may in
        settle n i lt s m t v (
          advance-Carries F (places n i lt s) src s.shared (s.task i)
            (prepared F o.before o.after (s.task i).env.fasthttp_dial (s.task i).address
              s.shared.pool (s.task i).phase new w)
            w e)
    Step-Unshared {s} (reads i low now c {m} {t} lt e) v = settle n i lt s m t v (
        reads-Carries F (places n i lt s) (timed low now) c s.shared m (s.task i) t
          (mine n i lt s v) e)

    -- However the calls of handle() and the reads of answers of `n` goroutines follow each other, with
    -- dials that give connections never used before: from a system in which every connection is idle at
    -- one address, with one goroutine that has acquired it and not given it back, or closed, and none is
    -- closed twice, the system stays so. No two requests have a connection at the same time, and none
    -- has one that is idle or closed.
    pub Runs-Unshared :
        {s u : System F S W} → Runs F src (MayDial n) n s u → Unshared n s → Unshared n u
    Runs-Unshared start v = v
    Runs-Unshared (next r st) v = Step-Unshared st (Runs-Unshared r v)
