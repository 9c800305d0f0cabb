-- ===== src/Config/Listing.antt =====
-- What parseUpstreams makes of the text of the flag.
use fasthttpproxy.Common.{
  suc, ◌==◌, Bool, true, false, ◌&&◌, Bool-cases, none, some, List, [], ◌∷◌, ◌++◌, if◌then◌else◌,
  ◌≡◌, refl, sym, ap, ◌∙◌, inl, inr, arith, length, All, append_assoc, append-nil, map, not,
}
use fasthttpproxy.Common.Text.{Str, has_prefix}
use fasthttpproxy.Config.Prefix.{prefix_http}
use fasthttpproxy.Config.Addresses.{
  comma, trim_space, split, has_scheme, addr_append, add_all, parse_upstreams,
}

-- The address that is listed for a part of the text.
abbrev normal : Str → Str
normal raw = let addr = trim_space raw in if has_scheme addr then addr else prefix_http ++ addr

some_inj : {a b : List Str} → some a ≡ some b → a ≡ b
some_inj h = cc

has_scheme-normal : (raw : Str) → has_scheme (normal raw) ≡ true
unfolding has_prefix
has_scheme-normal raw = elim (Bool-cases (has_scheme (trim_space raw))) [
  | inl known ↦ rw known known
  | inr unknown ↦ rw unknown refl
]

module _ (valid : Str → Bool) where
  addr_append-normal :
      (ups : List Str) (raw : Str)
      → addr_append valid ups raw
        ≡ (if valid (normal raw) then some (ups ++ normal raw ∷ []) else none)
  unfolding addr_append
  addr_append-normal ups raw = elim (Bool-cases (has_scheme (trim_space raw))) [
    | inl known ↦ rw known refl
    | inr unknown ↦ rw unknown refl
  ]

  addr_append-valid :
      (ups : List Str) (raw : Str)
      → valid (normal raw) ≡ true
      → addr_append valid ups raw ≡ some (ups ++ normal raw ∷ [])
  addr_append-valid ups raw h = addr_append-normal ups raw ∙ rw h refl

  addr_append-exit :
      (ups : List Str) (raw : Str) → valid (normal raw) ≡ false → addr_append valid ups raw ≡ none
  addr_append-exit ups raw h = addr_append-normal ups raw ∙ rw h refl

  -- Whether all parts give valid addresses.
  abbrev all_valid : List Str → Bool
  all_valid [] = true
  all_valid (a ∷ parts) = valid (normal a) && all_valid parts

  add_all-normal :
      (parts ups : List Str)
      → add_all valid parts ups ≡ (if all_valid parts then some (ups ++ map normal parts) else none)
  unfolding add_all
  add_all-normal [] ups = rw append-nil refl
  add_all-normal (a ∷ parts) ups = elim (Bool-cases (valid (normal a))) [
    | inl fine ↦
        rw (addr_append-valid ups a fine, fine, add_all)
          (add_all-normal parts (ups ++ normal a ∷ [])
            ∙ ap (λ l. if all_valid parts then some l else none)
                (append_assoc ups (normal a ∷ []) (map normal parts)))
    | inr broken ↦ rw (addr_append-exit ups a broken, broken, add_all) refl
  ]

  All-normal : (parts : List Str) → All (λ a. has_scheme a ≡ true) (map normal parts)
  All-normal [] = tt
  All-normal (a ∷ parts) = (has_scheme-normal a, All-normal parts)

  length-normal : (parts : List Str) → length (map normal parts) ≡ length parts
  length-normal [] = refl
  length-normal (a ∷ parts) = ap suc (length-normal parts)

  -- Whatever the text of the flag is: if the process does not exit, every listed upstream starts with
  -- http:// or https://, and there is one for each part of the text between commas, empty parts too.
  pub parse_upstreams-scheme :
      (raw : Str) (out : List Str)
      → parse_upstreams valid raw [] ≡ some out
      → All (λ a. has_scheme a ≡ true) out × (length out ≡ length (split raw))
  unfolding parse_upstreams
  parse_upstreams-scheme raw out h = elim (Bool-cases (all_valid (split raw))) [
    | inl fine ↦
        let e : map normal (split raw) ≡ out =
          some_inj (rw fine at (sym (add_all-normal (split raw) []) ∙ h)) in
        rw (← e) (All-normal (split raw), length-normal (split raw))
    | inr broken ↦ cc (rw broken at (sym (add_all-normal (split raw) []) ∙ h))
  ]

-- The rest of a list of addresses, each behind a comma.
pub joined_tail : List Str → Str
joined_tail [] = []
joined_tail (x ∷ xs) = comma ∷ x ++ joined_tail xs

abbrev no_comma : Str → Bool
no_comma [] = true
no_comma (c ∷ s) = not (c == comma) && no_comma s

-- An address as a user writes it: with a scheme, no comma, and no space at its ends.
pub record Clean (valid : Str → Bool) (a : Str) : Type 0 where
  pub known : has_scheme a ≡ true
  pub single : no_comma a ≡ true
  pub trimmed : trim_space a ≡ a
  pub parses : valid a ≡ true

split-plain :
    (x r : Str) (first : Str) (rest : List Str)
    → no_comma x ≡ true
    → split r ≡ first ∷ rest
    → split (x ++ r) ≡ (x ++ first) ∷ rest
unfolding split
split-plain [] r first rest h e = e
split-plain (d ∷ x) r first rest h e = ground (arith, split-plain x r first rest, e)

split-joined_tail :
    (valid : Str → Bool) (xs : List Str) → All (Clean valid) xs → split (joined_tail xs) ≡ [] ∷ xs
unfolding split joined_tail
split-joined_tail valid [] h = refl
split-joined_tail valid (x ∷ xs) h =
    ap (λ l. [] ∷ l)
      (split-plain x (joined_tail xs) [] xs h.0.single (split-joined_tail valid xs h.1)
        ∙ ap (λ y. y ∷ xs) (append-nil x))

normal-Clean : {valid : Str → Bool} (a : Str) → Clean valid a → normal a ≡ a
normal-Clean a h = let e : has_scheme (trim_space a) ≡ true = rw h.trimmed h.known in rw e h.trimmed

normal-All :
    (valid : Str → Bool) (xs : List Str)
    → All (Clean valid) xs
    → (map normal xs ≡ xs) × (all_valid valid xs ≡ true)
normal-All valid [] h = (refl, refl)
normal-All valid (x ∷ xs) h =
    let (e, f) = normal-All valid xs h.1 in
    let own = normal-Clean x h.0 in
    let ok_here : valid (normal x) ≡ true = ap valid own ∙ h.0.parses in
    ((λ i. own i ∷ e i), rw ok_here f)

-- A list of at least one address, each with a scheme, without commas, without spaces at its ends and
-- taken by url.Parse, is read back from its text with a comma between each two.
pub parse_upstreams-joined :
    (valid : Str → Bool) (x : Str) (xs : List Str)
    → All (Clean valid) (x ∷ xs)
    → parse_upstreams valid (x ++ joined_tail xs) [] ≡ some (x ∷ xs)
unfolding parse_upstreams
parse_upstreams-joined valid x xs h =
    let e : split (x ++ joined_tail xs) ≡ x ∷ xs =
      split-plain x (joined_tail xs) [] xs h.0.single (split-joined_tail valid xs h.1)
      ∙ ap (λ y. y ∷ xs) (append-nil x) in
    let (same, fine) = normal-All valid (x ∷ xs) h in
    rw e (add_all-normal valid (x ∷ xs) [] ∙ rw fine (ap some same))
