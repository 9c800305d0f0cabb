-- ===== src/Proxy/Service/Lifetime.antt =====
-- How many answers with a Content-Length of 0 the service can give.
use fasthttpproxy.Common.{
  ℕ, zero, suc, ◌+◌, ◌≤◌, false, Option, none, some, List, [], ◌∷◌, ◌++◌, All, ◌≡◌, refl, sym, ap,
  ◌∙◌, subst, arith,
}
use mathlib.Core.Option.{some_inj}
use fasthttpproxy.Common.Int.{ℤ, pos, negsuc}
use fasthttpproxy.Common.Text.{Str}
use fasthttpproxy.Common.Net.{Reader}
use fasthttpproxy.Pool.Leasing.{at}
use fasthttpproxy.Readers.PoolReader.{new_pool_reader}
use fasthttpproxy.Readers.TimedReader.{timed}
use fasthttpproxy.Proxy.Fasthttp.{Fasthttp}
use fasthttpproxy.Proxy.State.{Env}
use fasthttpproxy.Proxy.Handler.{handle}
use fasthttpproxy.Proxy.Answer.{IsAnswer, handle-IsAnswer}
use fasthttpproxy.Proxy.Termination.{handle-Returns}
use fasthttpproxy.Proxy.Service.{
  Stream, Service, Event, arrive, reads, read_at, opened, enter, leave, occur, occur_all,
}
use fasthttpproxy.Proxy.Service.Leases.{Bounded, Sound, occur-Sound, occur_all-Sound}
use fasthttpproxy.Proxy.Service.Emptied.{stuck_with, empty_at, empty_at-open_at, read_at-stuck}

-- Whether the length is 0, as a number.
unfoldable pub blank : ℤ → ℕ
blank (pos zero) = 1
blank (pos (suc n)) = 0
blank (negsuc n) = 0

-- Whether an answer from the address was begun, and has a Content-Length of 0.
abbrev pub given : Str → Option Stream → ℕ
given a none = 0
given a (some b) = at b.upstream_addr (blank b.remain) a

stuck_with-blank : (n : ℤ) → stuck_with n false ≡ blank n
unfolding stuck_with blank
stuck_with-blank (pos zero) = refl
stuck_with-blank (pos (suc n)) = refl
stuck_with-blank (negsuc n) = refl

empty_at-snoc :
    (a : Str) (bs : List Stream) (b : Stream)
    → empty_at a (bs ++ b ∷ [])
      ≡ empty_at a bs + at b.upstream_addr (stuck_with b.remain b.returned) a
unfolding empty_at
empty_at-snoc a [] b = omega arith
empty_at-snoc a (x ∷ bs) b = omega (arith, empty_at-snoc a bs b)

module _ (F : Fasthttp) {S W : Type 0} (src : Reader S) where
  -- The answers of length 0 from the address that begin in the course of these events.
  unfoldable pub empties : Str → List (Event F S W) → Service → ℕ
  unfolding blank occur
  empties a [] s = 0
  empties a (arrive env req r ∷ xs) s = elim (handle F src env req (enter F r s)) [
    | none ↦ 0
    | some h ↦ given a h.body_stream + empties a xs (leave F s.streams h)
  ]
  empties a (reads low now i c ∷ xs) s =
      let (bs, p) = read_at (timed low now) c i s.streams s.pool in
      empties a xs (record s { pool = p; streams = bs })

  opened-empty :
      (env : Env F.Header W) (addr : Str) (o : Option Stream) (bs : List Stream)
      → IsAnswer F src env addr o
      → (a : Str) → given a o + empty_at a bs ≤ empty_at a (opened o bs)
  unfolding new_pool_reader
  opened-empty env addr none bs v a = omega arith
  opened-empty env addr (some b) bs (c, reader, header, got, new) a =
      let fresh : b.returned ≡ false = rw new refl in
      let same : stuck_with b.remain b.returned ≡ blank b.remain =
        ap (stuck_with b.remain) fresh ∙ stuck_with-blank b.remain in
      let weight = ap (λ k. at b.upstream_addr k a) same in
      omega (arith, empty_at-snoc a bs b, weight)

  module _ (max : ℕ) where
    occurred :
        (x : Event F S W) (s : Service) {t : Service}
        → Bounded F src x
        → Sound max s
        → occur F src x s ≡ some t
        → Sound max t
    occurred x s ends v h =
        let (s', e, v') = occur-Sound max F src x s ends v in
        subst (Sound max) ((some_inj).0 (sym e ∙ h)) v'

    count_empties :
        (xs : List (Event F S W)) (s : Service) (a : Str)
        → All (Bounded F src) xs
        → Sound max s
        → empties a xs s + empty_at a s.streams ≤ max
    unfolding empties occur
    count_empties [] s a ends v = omega (arith, (v.holds a).bounded, empty_at-open_at a s.streams)
    count_empties (arrive env req r ∷ xs) s a ends v =
        let (h, e) = handle-Returns F src env req (enter F r s) ends.0 in
        let t = leave F s.streams h in
        let happened : occur F src (arrive env req r) s ≡ some t = rw (e, occur) refl in
        let rest = count_empties xs t a ends.1 (occurred (arrive env req r) s ends.0 v happened) in
        let answer = handle-IsAnswer F src env req (enter F r s) h refl e in
        let begun = opened-empty env h.upstream_address h.body_stream s.streams answer a in
        rw (e, empties) (omega (arith, rest, begun))
    count_empties (reads low now i c ∷ xs) s a ends v =
        let r = read_at (timed low now) c i s.streams s.pool in
        let t = record s { pool = r.1; streams = r.0 } in
        let rest = count_empties xs t a ends.1 (occurred (reads low now i c) s tt v refl) in
        omega (arith, rest, read_at-stuck (timed low now) c i s.streams s.pool a)

    -- Of a service that handles requests one after the other, so that no two of them acquire
    -- connections at the same time, and in which each connection that is leased at an address is one
    -- that an answer from there has not returned, counted within the limit. Whatever requests come, with
    -- bodies that end within the fuel, and however the reads of their answers come between them, all of
    -- this returns, and in the whole of it no more answers with a Content-Length of 0 begin from an
    -- address than the limit of connections, not even one after another that their clients read to the
    -- end. Those that already stood open, with nothing left to read, count among them.
    pub empties-le_max :
        (xs : List (Event F S W)) (s : Service) (a : Str)
        → All (Bounded F src) xs
        → Sound max s
        → (s' : Service) × (occur_all F src xs s ≡ some s')
          × (empties a xs s + empty_at a s.streams ≤ max)
    empties-le_max xs s a ends v =
        let (s', e, v') = occur_all-Sound max F src xs s ends v in
        (s', e, count_empties xs s a ends v)
