-- ===== src/Pool/Places.antt =====
-- Where each connection is: idle at one address, taken, or closed. Connections are named by their ids.
pub mod Listing
use fasthttpproxy.Common.{
  ℕ, Bool-cases, List, [], ◌∷◌, ◌++◌, ◌≡◌, ◌≢◌, sym, ◌∙◌, subst, inl, inr, arith, All, All-snoc,
  All-init,
}
use fasthttpproxy.Common.Threads.{assign, assign_self, assign_ne}
use fasthttpproxy.Common.Text.{Str, str_eq, str_eq_iff}
use fasthttpproxy.Pool.State.{update, update_self, update_ne}

pub data Place : Type 0 where
  idle_at : Str → Place
  taken : Place
  gone : Place

abbrev pub Apart : ℕ → List ℕ → Type 0
Apart i = All (λ j. j ≢ i)

abbrev pub Once : List ℕ → Type 0
Once [] = Unit
Once (i ∷ is) = Apart i is × Once is

-- All of the list are at the place, none of them twice.
pub record Row (home : ℕ → Place) (at : Place) (is : List ℕ) : Type 0 where
  pub here : All (λ i. home i ≡ at) is
  pub once : Once is

module _ (home : ℕ → Place) (at : Place) where
  here-assign :
      (i : ℕ) (to : Place) (is : List ℕ)
      → Apart i is
      → All (λ j. home j ≡ at) is
      → All (λ j. assign home i to j ≡ at) is
  here-assign i to [] h v = tt
  here-assign i to (j ∷ is) h v =
      (assign_ne home i j to (λ e. h.0 (sym e)) ∙ v.0, here-assign i to is h.1 v.1)

  elsewhere : (i : ℕ) (is : List ℕ) → home i ≢ at → All (λ j. home j ≡ at) is → Apart i is
  elsewhere i [] ne v = tt
  elsewhere i (j ∷ is) ne v = ((λ e. ne (subst (λ k. home k ≡ at) e v.0)), elsewhere i is ne v.1)

module _ {home : ℕ → Place} {at : Place} where
  Row-assign :
      (i : ℕ) (to : Place) {is : List ℕ}
      → Apart i is
      → Row home at is
      → Row (assign home i to) at is
  Row-assign i to {is} h v = record { here = here-assign home at i to is h v.here; once = v.once }

  Row-tail : {i : ℕ} {is : List ℕ} → Row home at (i ∷ is) → Row home at is
  Row-tail v = record { here = v.here.1; once = v.once.1 }

  Row-Apart : (i : ℕ) {is : List ℕ} → home i ≢ at → Row home at is → Apart i is
  Row-Apart i {is} ne v = elsewhere home at i is ne v.here

Row-cons :
    {home : ℕ → Place} {to : Place} (i : ℕ) {is : List ℕ}
    → Apart i is
    → Row home to is
    → Row (assign home i to) to (i ∷ is)
Row-cons {home} {to} i h v =
    let rest = Row-assign i to h v in
    record { here = (assign_self home i to, rest.here); once = (h, rest.once) }

Once-snoc : (is : List ℕ) (i : ℕ) → Once is → Apart i is → Once (is ++ i ∷ [])
Once-snoc [] i h k = (tt, tt)
Once-snoc (j ∷ is) i h k =
    (All-snoc (λ x. x ≢ j) is i h.0 (λ e. k.0 (sym e)), Once-snoc is i h.1 k.1)

Once-init : (is : List ℕ) (i : ℕ) → Once (is ++ i ∷ []) → Once is × Apart i is
Once-init [] i h = (tt, tt)
Once-init (j ∷ is) i h =
    let (apart, ne) = All-init (λ x. x ≢ j) is i h.0 in
    let (rest, last) = Once-init is i h.1 in ((apart, rest), (λ e. ne (sym e), last))

Row-snoc :
    {home : ℕ → Place} {to : Place} (i : ℕ) (is : List ℕ)
    → Apart i is
    → Row home to is
    → Row (assign home i to) to (is ++ i ∷ [])
Row-snoc {home} {to} i is h v =
    let rest = Row-assign i to h v in
    record {
      here = All-snoc (λ j. assign home i to j ≡ to) is i rest.here (assign_self home i to);
      once = Once-snoc is i rest.once h;
    }

-- Every connection that is idle, taken or closed is at one place, once.
pub record Rows (home : ℕ → Place) (free : Str → List ℕ) (own closed : List ℕ) : Type 0 where
  pub idle : (a : Str) → Row home (idle_at a) (free a)
  pub held : Row home taken own
  pub shut : Row home gone closed

-- A connection that is nowhere.
pub record Absent (free : Str → List ℕ) (own closed : List ℕ) (i : ℕ) : Type 0 where
  pub not_idle : (a : Str) → Apart i (free a)
  pub not_taken : Apart i own
  pub not_closed : Apart i closed

-- No connection is at two places, or twice at one.
abbrev pub Tracked : (Str → List ℕ) → List ℕ → List ℕ → Type 0
Tracked free own closed = (home : ℕ → Place) × Rows home free own closed

module _ {free : Str → List ℕ} {own closed : List ℕ} (i : ℕ) where
  -- A connection that is nowhere is taken, is closed, or is put among the idle ones.
  pub take_new : Tracked free own closed → Absent free own closed i → Tracked free (i ∷ own) closed
  take_new (home, v) n = (
    assign home i taken,
    record {
      idle = λ a. Row-assign i taken (n.not_idle a) (v.idle a);
      held = Row-cons i n.not_taken v.held;
      shut = Row-assign i taken n.not_closed v.shut;
    },
  )

  pub close_new : Tracked free own closed → Absent free own closed i → Tracked free own (i ∷ closed)
  close_new (home, v) n = (
    assign home i gone,
    record {
      idle = λ a. Row-assign i gone (n.not_idle a) (v.idle a);
      held = Row-assign i gone n.not_taken v.held;
      shut = Row-cons i n.not_closed v.shut;
    },
  )

  pub put_new :
      (a : Str)
      → Tracked free own closed
      → Absent free own closed i
      → Tracked (update free a (free a ++ i ∷ [])) own closed
  put_new a (home, v) n = (
    assign home i (idle_at a),
    record {
      idle = λ b. elim (Bool-cases (str_eq a b)) [
        | inl same ↦
            let e : a ≡ b = (str_eq_iff a b).0 same in
            subst
              (λ c.
                Row (assign home i (idle_at a)) (idle_at c) (update free a (free a ++ i ∷ []) c))
              e (rw update_self (Row-snoc i (free a) (n.not_idle a) (v.idle a)))
        | inr other ↦
            rw (update_ne free a (free a ++ i ∷ []) b (λ e. ground (arith, str_eq_iff a b)))
              (Row-assign i (idle_at a) (n.not_idle b) (v.idle b))
      ];
      held = Row-assign i (idle_at a) n.not_taken v.held;
      shut = Row-assign i (idle_at a) n.not_closed v.shut;
    },
  )

  -- One that is taken is then nowhere else; and so is the last of the idle ones of an address.
  pub let_go : Tracked free (i ∷ own) closed → Tracked free own closed × Absent free own closed i
  let_go (home, v) =
      let there : home i ≡ taken = v.held.here.0 in
      (
        (home, record { idle = v.idle; held = Row-tail v.held; shut = v.shut }),
        record {
          not_idle = λ a. Row-Apart i (λ e. cc) (v.idle a);
          not_taken = v.held.once.0;
          not_closed = Row-Apart i (λ e. cc) v.shut;
        },
      )

  pub take_last :
      (a : Str) (rest : List ℕ)
      → free a ≡ rest ++ i ∷ []
      → Tracked free own closed
      → Tracked (update free a rest) own closed × Absent (update free a rest) own closed i
  take_last a rest e (home, v) =
      let whole : Row home (idle_at a) (rest ++ i ∷ []) =
        subst (Row home (idle_at a)) e (v.idle a) in
      let (here, there) = All-init (λ j. home j ≡ idle_at a) rest i whole.here in
      let (once, apart) = Once-init rest i whole.once in
      let at_once : (b : Str)
          → Row home (idle_at b) (update free a rest b) × Apart i (update free a rest b) =
        λ b. elim (Bool-cases (str_eq a b)) [
          | inl same ↦
              let e : a ≡ b = (str_eq_iff a b).0 same in
              subst
                (λ c. Row home (idle_at c) (update free a rest c) × Apart i (update free a rest c))
                e (rw update_self (record { here = here; once = once }, apart))
          | inr other ↦
              let ne : a ≢ b = λ e. ground (arith, str_eq_iff a b) in
              rw (update_ne free a rest b ne) (v.idle b, Row-Apart i (λ e. ground arith) (v.idle b))
        ] in
      (
        (home, record { idle = λ b. (at_once b).0; held = v.held; shut = v.shut }),
        record {
          not_idle = λ b. (at_once b).1;
          not_taken = Row-Apart i (λ e. cc) v.held;
          not_closed = Row-Apart i (λ e. cc) v.shut;
        },
      )
