-- ===== src/Pool/Race/Exclusive.antt =====
-- Who has which connection while goroutines interleave.
use fasthttpproxy.Common.{
  ℕ, Bool-cases, some, none, List, [], ◌∷◌, ◌++◌, ◌≡◌, ◌≢◌, refl, sym, ap, ◌∙◌, ◌⊎◌, inl, inr,
  arith, All, All-snoc, All-init, All-map, All-both, unsnoc, unsnoc-cases, ◌==◌,
}
use fasthttpproxy.Common.Threads.{assign}
use fasthttpproxy.Common.Net.{Conn}
use fasthttpproxy.Pool.State.{IdleConn, Settings}
use fasthttpproxy.Pool.Race.{
  Shared, Pc, outside, popped, stale, holding, closing, Move, pop, take_idle, expire, connect,
  put_back, overflow, drop, shut, own, Apart, System, IsNew, goes, Reach, here, next,
}

-- No connection is idle twice.
abbrev pub Distinct : List IdleConn → Type 0
Distinct [] = Unit
Distinct (x ∷ xs) = Apart x.conn xs × Distinct xs

Distinct-snoc :
    (xs : List IdleConn) (y : IdleConn) → Distinct xs → Apart y.conn xs → Distinct (xs ++ y ∷ [])
Distinct-snoc [] y d h = (tt, tt)
Distinct-snoc (x ∷ xs) y d h =
    (All-snoc (λ z. z.conn ≢ x.conn) xs y d.0 (λ e. h.0 (sym e)), Distinct-snoc xs y d.1 h.1)

Distinct-init :
    (xs : List IdleConn) (y : IdleConn) → Distinct (xs ++ y ∷ []) → Distinct xs × Apart y.conn xs
Distinct-init [] y d = (tt, tt)
Distinct-init (x ∷ xs) y d =
    let (apart, ne) = All-init (λ z. z.conn ≢ x.conn) xs y d.0 in
    let (rest, last) = Distinct-init xs y d.1 in ((apart, rest), (λ e. ne (sym e), last))

whole :
    (xs : List IdleConn) {rest : List IdleConn} {last : IdleConn}
    → unsnoc xs ≡ some (rest, last)
    → xs ≡ rest ++ last ∷ []
whole xs {rest} {last} h = elim (unsnoc-cases xs) [
  | inl (empty, _) ↦ cc
  | inr (ys, y, split, e) ↦
      let p : (ys ≡ rest) × (y ≡ last) = ground arith in e ∙ rw p.0 (rw p.1 refl)
]

-- Every connection is in one place: idle, with one goroutine, or closed.
pub record Exclusive (free : List IdleConn) (closed : List Conn) (pc : ℕ → Pc) : Type 0 where
  pub distinct : Distinct free
  pub apart : (i : ℕ) (c : Conn) → own (pc i) ≡ some c → Apart c free
  pub unique : (i j : ℕ) (c : Conn) → own (pc i) ≡ some c → own (pc j) ≡ some c → i ≡ j
  pub open_idle : All (λ d. Apart d free) closed
  pub open_owned : (i : ℕ) (c : Conn) → own (pc i) ≡ some c → All (λ d. d ≢ c) closed

module _ (pc : ℕ → Pc) (i : ℕ) (p' : Pc) where
  own-assign :
      (j : ℕ) (c : Conn)
      → own (assign pc i p' j) ≡ some c
      → ((i ≡ j) × (own p' ≡ some c)) ⊎ ((i ≢ j) × (own (pc j) ≡ some c))
  unfolding assign
  own-assign j c h = elim (Bool-cases (i == j)) [
    | inl same ↦ inl (ground arith, rw same at h)
    | inr other ↦ inr ((λ e. ground arith), rw other at h)
  ]

  -- What is needed of a step of goroutine `i` to `p'`: of its own connection, and of the others'.
  settle :
      {free₀ free : List IdleConn} {closed₀ closed : List Conn}
      → Exclusive free₀ closed₀ pc
      → Distinct free
      → All (λ d. Apart d free) closed
      → ((c : Conn)
          → own p' ≡ some c
          → Apart c free × All (λ d. d ≢ c) closed × ((j : ℕ) → i ≢ j → own (pc j) ≢ some c))
      → ((j : ℕ) (c : Conn) → i ≢ j → own (pc j) ≡ some c → Apart c free × All (λ d. d ≢ c) closed)
      → Exclusive free closed (assign pc i p')
  settle {free = free} {closed = closed} v distinct open_idle mine others = record {
    distinct = distinct;
    apart = λ j c h. (free_of j c h).0;
    unique = λ j k c h h'. one j k c (own-assign j c h) (own-assign k c h');
    open_idle = open_idle;
    open_owned = λ j c h. (free_of j c h).1;
  }
    where
      free_of :
          (j : ℕ) (c : Conn)
          → own (assign pc i p' j) ≡ some c
          → Apart c free × All (λ d. d ≢ c) closed
      free_of j c h = elim (own-assign j c h) [
        | inl (same, e) ↦ let m = mine c e in (m.0, m.1)
        | inr (ne, e) ↦ others j c ne e
      ]

      one :
          (j k : ℕ) (c : Conn)
          → ((i ≡ j) × (own p' ≡ some c)) ⊎ ((i ≢ j) × (own (pc j) ≡ some c))
          → ((i ≡ k) × (own p' ≡ some c)) ⊎ ((i ≢ k) × (own (pc k) ≡ some c))
          → j ≡ k
      one j k c (inl (a, e)) (inl (b, f)) = sym a ∙ b
      one j k c (inl (a, e)) (inr (b, f)) = absurd ((mine c e).2 k b f)
      one j k c (inr (a, e)) (inl (b, f)) = absurd ((mine c f).2 j a e)
      one j k c (inr (a, e)) (inr (b, f)) = v.unique j k c e f

module _ {free : List IdleConn} {closed : List Conn} {pc : ℕ → Pc} (v : Exclusive free closed pc)
    (i : ℕ) where
  -- The goroutine keeps what it has, or leaves it to nobody.
  stay :
      (p' : Pc)
      → ((c : Conn) → own p' ≡ some c → own (pc i) ≡ some c)
      → Exclusive free closed (assign pc i p')
  stay p' less =
      settle pc i p' v v.distinct v.open_idle
        (λ c h. (
          v.apart i c (less c h),
          v.open_owned i c (less c h),
          λ j ne h'. ne (v.unique i j c (less c h) h'),
        ))
        (λ j c ne h. (v.apart j c h, v.open_owned j c h))

  -- It takes the last idle connection.
  take :
      (rest : List IdleConn) (last : IdleConn)
      → free ≡ rest ++ last ∷ []
      → Exclusive rest closed (assign pc i (popped last))
  take rest last e =
      let whole_apart : (c : Conn) → Apart c free → Apart c rest × (last.conn ≢ c) =
        λ c h. All-init (λ x. x.conn ≢ c) rest last (rw e at h) in
      let (distinct, gone) = Distinct-init rest last (rw e at v.distinct) in
      let open_last = All-map whole_apart closed v.open_idle in
      settle pc i (popped last) v distinct (All-map (λ c h. h.0) closed open_last)
        (λ c h.
          let same : last.conn ≡ c = cc in
          (
            rw same at gone,
            All-map (λ d h' e'. h'.1 (same ∙ sym e')) closed open_last,
            λ j ne h'. (whole_apart c (v.apart j c h')).1 same,
          ))
        (λ j c ne h. ((whole_apart c (v.apart j c h)).0, v.open_owned j c h))

  -- It puts its connection back.
  give :
      (last : IdleConn)
      → own (pc i) ≡ some last.conn
      → Exclusive (free ++ last ∷ []) closed (assign pc i outside)
  give last mine =
      settle pc i outside v (Distinct-snoc free last v.distinct (v.apart i last.conn mine))
        (All-map (λ d h. All-snoc (λ x. x.conn ≢ d) free last h.0 (λ e. h.1 (sym e))) closed
          (All-both (λ d. Apart d free) (λ d. d ≢ last.conn) closed v.open_idle
            (v.open_owned i last.conn mine)))
        (λ c h. cc)
        (λ j c ne h. (
          All-snoc (λ x. x.conn ≢ c) free last (v.apart j c h)
              (λ e. ne (v.unique i j c (mine ∙ ap some e) h)),
          v.open_owned j c h,
        ))

  -- It closes its connection.
  shut_own :
      (p' : Pc) (c : Conn)
      → own (pc i) ≡ some c
      → own p' ≡ none
      → Exclusive free (c ∷ closed) (assign pc i p')
  shut_own p' c mine nothing =
      settle pc i p' v v.distinct (v.apart i c mine, v.open_idle) (λ d h. cc)
        (λ j d ne h.
          (v.apart j d h, ((λ e. ne (v.unique i j d (mine ∙ ap some e) h)), v.open_owned j d h)))

  -- It gets a new connection.
  get :
      (c : Conn)
      → Apart c free
      → ((j : ℕ) → own (pc j) ≢ some c)
      → All (λ d. d ≢ c) closed
      → Exclusive free closed (assign pc i (holding c))
  get c apart unowned open_conn =
      settle pc i (holding c) v v.distinct v.open_idle
        (λ d h.
          let e : c ≡ d = cc in
          (rw e at apart, rw e at open_conn, λ j ne h'. unowned j (h' ∙ ap some (sym e))))
        (λ j d ne h. (v.apart j d h, v.open_owned j d h))

Move-Exclusive :
    {settings : Settings} {s : System} (i : ℕ) {m' : Shared} {p p' : Pc}
    → Move (IsNew s) settings s.shared p m' p'
    → s.pc i ≡ p
    → Exclusive s.shared.pool.free s.shared.closed s.pc
    → Exclusive m'.pool.free m'.closed (assign s.pc i p')
Move-Exclusive {s = s} i (pop {rest} {last} h) e v = take v i rest last (whole s.shared.pool.free h)
Move-Exclusive i (take_idle {last} now h) e v = stay v i (holding last.conn) (λ c q. ap own e ∙ q)
Move-Exclusive i (expire {last} now h) e v = shut_own v i stale last.conn (ap own e) refl
Move-Exclusive i (connect {c} new) e v = get v i c new.not_idle new.not_owned new.not_closed
Move-Exclusive i (put_back {c} now h) e v =
    give v i (record { conn = c; returned_at = now }) (ap own e)
Move-Exclusive i (overflow {c} h) e v = stay v i (closing c) (λ d q. ap own e ∙ q)
Move-Exclusive i (drop {c}) e v = stay v i (closing c) (λ d q. ap own e ∙ q)
Move-Exclusive i (shut {c}) e v = shut_own v i outside c (ap own e) refl
Move-Exclusive i {p' = p'} mv e v = stay v i p' (λ c q. cc)

-- However goroutines interleave, with dials that give new connections: no connection is idle twice,
-- or idle and with a goroutine, or with two goroutines; and none that was closed is idle or with a
-- goroutine.
pub Reach-Exclusive :
    {n : ℕ} {settings : Settings} {s : System}
    → Reach n settings s
    → Exclusive s.shared.pool.free s.shared.closed s.pc
Reach-Exclusive here = record {
  distinct = tt;
  apart = λ i c h. cc;
  unique = λ i j c h h'. cc;
  open_idle = tt;
  open_owned = λ i c h. cc;
}
Reach-Exclusive (next r (goes i lt mv)) = Move-Exclusive i mv refl (Reach-Exclusive r)
