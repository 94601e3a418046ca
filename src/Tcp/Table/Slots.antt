-- ===== src/Tcp/Table/Slots.antt =====
-- The table of src/net/tcp.rs as a function from handles to endpoints.
use mathlib.Core.Option.{some-injective}
use rustos.Prelude.{
  ℕ, zero, suc, ◌≡◌, ◌≢◌, refl, sym, ap, subst, ◌∙◌, List, [], ◌∷◌, Option, none, some, Bool, true,
  false, ◌==◌, ==_iff, ==_false_iff, ==-refl, if◌then◌else◌, Bool-cases, ◌⊎◌, inl, inr, arith,
}
use rustos.Tcp.Endpoint.{TcpEndpoint}
use rustos.Tcp.Table.{at, first_free, put, find}

at-first_free : (slots : List (Option TcpEndpoint)) → at slots (first_free slots) ≡ none
unfolding at first_free
at-first_free [] = refl
at-first_free (none ∷ slots) = refl
at-first_free (some ep ∷ slots) = at-first_free slots

-- A handle that a write can reach: one in the table, or the next.
at-put_first :
    (slots : List (Option TcpEndpoint)) (ep : TcpEndpoint) (h : ℕ)
    → at (put slots (first_free slots) ep) h
      ≡ (if first_free slots == h then some ep else at slots h)
unfolding at first_free put
at-put_first [] ep zero = refl
at-put_first [] ep (suc h) = ground arith
at-put_first (none ∷ slots) ep zero = refl
at-put_first (none ∷ slots) ep (suc h) = ground arith
at-put_first (some e ∷ slots) ep zero = ground arith
at-put_first (some e ∷ slots) ep (suc h) = ground (arith, at-put_first slots ep h)

-- A new endpoint goes where there was none.
pub first_free_ne :
    (slots : List (Option TcpEndpoint)) (h : ℕ) (e : TcpEndpoint)
    → at slots h ≡ some e
    → ¬ (first_free slots ≡ h)
first_free_ne slots h e there same =
    let gone : none ≡ some e = sym (at-first_free slots) ∙ ap (at slots) same ∙ there in cc

pub at-put_first_kept :
    (slots : List (Option TcpEndpoint)) (ep : TcpEndpoint) (h : ℕ) (e : TcpEndpoint)
    → at slots h ≡ some e
    → at (put slots (first_free slots) ep) h ≡ some e
at-put_first_kept slots ep h e there =
    at-put_first slots ep h
    ∙ rw ((==_false_iff (first_free slots) h).1 (first_free_ne slots h e there)) there

pub at-put_first_new :
    (slots : List (Option TcpEndpoint)) (ep : TcpEndpoint)
    → at (put slots (first_free slots) ep) (first_free slots) ≡ some ep
at-put_first_new slots ep =
    at-put_first slots ep (first_free slots) ∙ rw (==-refl (first_free slots)) refl

pub at-put :
    (slots : List (Option TcpEndpoint)) (i : ℕ) (old ep : TcpEndpoint) (h : ℕ)
    → at slots i ≡ some old
    → at (put slots i ep) h ≡ (if i == h then some ep else at slots h)
unfolding at put
at-put [] i old ep h there = cc
at-put (slot ∷ slots) zero old ep zero there = refl
at-put (slot ∷ slots) zero old ep (suc h) there = ground arith
at-put (slot ∷ slots) (suc i) old ep zero there = ground arith
at-put (slot ∷ slots) (suc i) old ep (suc h) there = ground (arith, at-put slots i old ep h there)

pub at-put_kept :
    (slots : List (Option TcpEndpoint)) (i : ℕ) (old ep : TcpEndpoint) (h : ℕ) (e : TcpEndpoint)
    → at slots i ≡ some old
    → ¬ (i ≡ h)
    → at slots h ≡ some e
    → at (put slots i ep) h ≡ some e
at-put_kept slots i old ep h e here ne there =
    at-put slots i old ep h here ∙ rw ((==_false_iff i h).1 ne) there

pub at-put_new :
    (slots : List (Option TcpEndpoint)) (i : ℕ) (old ep : TcpEndpoint)
    → at slots i ≡ some old
    → at (put slots i ep) i ≡ some ep
at-put_new slots i old ep here = at-put slots i old ep i here ∙ rw (==-refl i) refl

zero_ne_suc : {i : ℕ} → 0 ≢ suc i
zero_ne_suc e = absurd (omega arith)

module _ (test : TcpEndpoint → Bool) where
  -- No endpoint passes the test.
  abbrev pub Nowhere : List (Option TcpEndpoint) → Type 0
  Nowhere slots = (h : ℕ) (ep : TcpEndpoint) → at slots h ≡ some ep → test ep ≡ false

  -- The endpoint at a handle is the only one that passes.
  abbrev pub OnlyAt : List (Option TcpEndpoint) → ℕ → Type 0
  OnlyAt slots i = (h : ℕ) (ep : TcpEndpoint) → h ≢ i → at slots h ≡ some ep → test ep ≡ false

  pub find-none : (slots : List (Option TcpEndpoint)) → Nowhere slots → find test slots ≡ none
  unfolding find at
  find-none [] miss = refl
  find-none (none ∷ slots) miss = rw (find-none slots (λ h ep e. miss (suc h) ep e)) refl
  find-none (some ep ∷ slots) miss =
      rw (miss 0 ep refl, find-none slots (λ h ep' e. miss (suc h) ep' e)) refl

  pub find-some :
      (slots : List (Option TcpEndpoint)) (i : ℕ) (ep : TcpEndpoint)
      → at slots i ≡ some ep
      → test ep ≡ true
      → OnlyAt slots i
      → find test slots ≡ some i
  unfolding find at
  find-some [] i ep there passes only = cc
  find-some (none ∷ slots) zero ep there passes only = cc
  find-some (some e ∷ slots) zero ep there passes only =
      rw (subst (λ x. test x ≡ true) (sym (some-injective _ _ there)) passes) refl
  find-some (none ∷ slots) (suc i) ep there passes only =
      rw (find-some slots i ep there passes (λ h e ne. only (suc h) e (λ q. ne (omega arith)))) refl
  find-some (some e ∷ slots) (suc i) ep there passes only =
      let rest =
        find-some slots i ep there passes (λ h e' ne. only (suc h) e' (λ q. ne (omega arith))) in
      rw (only 0 e zero_ne_suc refl, rest) refl

  -- An endpoint replaced by one that the test does not tell from it.
  pub OnlyAt-put :
      (slots : List (Option TcpEndpoint)) (i k : ℕ) (old ep : TcpEndpoint)
      → at slots i ≡ some old
      → test ep ≡ test old
      → OnlyAt slots k
      → OnlyAt (put slots i ep) k
  OnlyAt-put slots i k old ep there same only h e ne found = elim (Bool-cases (i == h)) [
    | inl q ↦
        let here : i ≡ h = (==_iff i h).0 q in
        let it : some ep ≡ some e = sym (at-put slots i old ep h there ∙ rw q refl) ∙ found in
        subst (λ x. test x ≡ false) (some-injective _ _ it)
          (same ∙ only h old ne (subst (λ k. at slots k ≡ some old) here there))
    | inr q ↦ only h e ne (sym (at-put slots i old ep h there ∙ rw q refl) ∙ found)
  ]

  -- A new endpoint that fails the test.
  pub find-put_first :
      (slots : List (Option TcpEndpoint)) (ep : TcpEndpoint)
      → test ep ≡ false
      → find test (put slots (first_free slots) ep) ≡ find test slots
  unfolding find put first_free
  find-put_first [] ep fails = rw fails refl
  find-put_first (none ∷ slots) ep fails = rw fails refl
  find-put_first (some e ∷ slots) ep fails = rw (find-put_first slots ep fails) refl

  module _ (slots : List (Option TcpEndpoint)) (ep : TcpEndpoint) where
    -- What stands at a handle after a new endpoint was put into the table.
    from_put :
        (h : ℕ) (e : TcpEndpoint)
        → at (put slots (first_free slots) ep) h ≡ some e
        → ((first_free slots ≡ h) × (e ≡ ep)) ⊎ (at slots h ≡ some e)
    from_put h e found = elim (Bool-cases (first_free slots == h)) [
      | inl q ↦ inl (
        (==_iff _ h).0 q,
        sym (some-injective _ _ (sym (at-put_first slots ep h ∙ rw q refl) ∙ found)),
      )
      | inr q ↦ inr (sym (at-put_first slots ep h ∙ rw q refl) ∙ found)
    ]

    pub OnlyAt-put_first :
        Nowhere slots → OnlyAt (put slots (first_free slots) ep) (first_free slots)
    OnlyAt-put_first miss h e ne found = elim (from_put h e found) [
      | inl (q, same) ↦ absurd (ne (sym q))
      | inr old ↦ miss h e old
    ]

    pub Nowhere-put_first :
        Nowhere slots → test ep ≡ false → Nowhere (put slots (first_free slots) ep)
    Nowhere-put_first miss fails h e found = elim (from_put h e found) [
      | inl (q, same) ↦ subst (λ x. test x ≡ false) (sym same) fails
      | inr old ↦ miss h e old
    ]

    pub OnlyAt-put_first_other :
        (k : ℕ) → OnlyAt slots k → test ep ≡ false → OnlyAt (put slots (first_free slots) ep) k
    OnlyAt-put_first_other k only fails h e ne found = elim (from_put h e found) [
      | inl (q, same) ↦ subst (λ x. test x ≡ false) (sym same) fails
      | inr old ↦ only h e ne old
    ]
