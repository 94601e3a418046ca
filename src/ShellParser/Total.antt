-- ===== src/ShellParser/Total.antt =====
-- Every run of the parser ends, with no panic, on tokens that end with `eof`.
use rustos.Prelude.{
  ℕ, zero, suc, ◌+◌, ◌*◌, ◌<◌, ◌≡◌, refl, subst, ap, true, ◌&&◌, [], ◌∷◌, arith, length,
}
use rustos.ShellParser.Syntax.{
  Text, Token, Tokens, Else, kw_if, kw_then, kw_elif, kw_else, kw_fi, kw_while, kw_do, kw_done,
  kw_for, kw_in, if_then, while_do, for_in, no_branches, branch, no_else, else_do,
}
use rustos.ShellParser.Tokenizer.{tokenize, tokens_from, outside}
use rustos.ShellParser.Outcome.{
  while_expected_do, while_expected_done, for_expected_in, for_expected_do, for_expected_done,
  if_expected_then, elif_expected_then, Ensures, holds, Ensures-bind, Ensures-weaken, Ensures-if,
}
use rustos.ShellParser.Parser.{
  is_sep, elif_branch, else_branch, fi_branch, parse_list, parse_more, parse_item, parse_if,
  parse_branches, parse_while, parse_for, parse_program, parse,
}
use rustos.ShellParser.Canonical.{is_item, is_body, are_items, are_branches, is_else}
use rustos.ShellParser.Ended.{
  Ended, Left, Gives, bump-Left, bump-Ended, skip_sep-Left, expect-Left, take_words-Left,
  parse_simple-Gives, past_keyword, collect-is_body, sep-ne-eof, name_of-Left, more_after,
  at_branch-Ensures, tokens_from-Ended,
}

-- One induction on the fuel: each call leaves fewer tokens, so the fuel stays above its bound.
mutual
  unfolding parse_list is_item

  parse_list-Gives :
      (f : ℕ) (ts : Tokens)
      → Ended ts
      → 4 * length ts + 2 < f
      → Gives is_body (length ts) (parse_list f ts)
  parse_list-Gives zero ts e h = absurd (omega arith)
  parse_list-Gives (suc f) ts e h =
      Ensures-bind (parse_item-Gives f ts e (omega arith)) λ (c, rest) l.
        Ensures-bind (parse_more-Gives f rest l.1.0 (omega (arith, l.1.1))) λ (cs, rest') l'.
          holds (collect-is_body c cs l.0 l'.0, (l'.1.0, omega (arith, l.1.1, l'.1.1)))

  parse_more-Gives :
      (f : ℕ) (ts : Tokens)
      → Ended ts
      → 4 * length ts < f
      → Gives are_items (suc (length ts)) (parse_more f ts)
  parse_more-Gives zero ts e h = absurd (omega arith)
  parse_more-Gives (suc f) [] e h = elim e [ ]
  parse_more-Gives (suc f) (t ∷ ts) e h =
      Ensures-if (is_sep t)
        (λ s. Ensures-bind (bump-Left t ts (sep-ne-eof t s) e) λ (u, rest) l.
          more_after f rest (suc (suc (length ts))) l.0 (omega (arith, l.1))
            (parse_item-Gives f rest l.0 (omega (arith, l.1)))
            (λ r l'. parse_more-Gives f r l'.0 (omega (arith, l.1, l'.1))))
        (λ s. holds (refl, (e, omega arith)))

  parse_item-Gives :
      (f : ℕ) (ts : Tokens)
      → Ended ts
      → 4 * length ts + 1 < f
      → Gives is_item (length ts) (parse_item f ts)
  parse_item-Gives zero ts e h = absurd (omega arith)
  parse_item-Gives (suc f) [] e h = elim e [ ]
  parse_item-Gives (suc f) (kw_if ∷ ts) e h = parse_if-Gives f ts e (omega arith)
  parse_item-Gives (suc f) (kw_while ∷ ts) e h = parse_while-Gives f ts e (omega arith)
  parse_item-Gives (suc f) (kw_for ∷ ts) e h = parse_for-Gives f ts e (omega arith)
  parse_item-Gives (suc f) (t ∷ ts) e h = parse_simple-Gives (t ∷ ts) e

  parse_if-Gives :
      (f : ℕ) (ts : Tokens)
      → Ended (kw_if ∷ ts)
      → 4 * length (kw_if ∷ ts) < f
      → Gives is_item (length (kw_if ∷ ts)) (parse_if f (kw_if ∷ ts))
  parse_if-Gives zero ts e h = absurd (omega arith)
  parse_if-Gives (suc f) ts e h = Ensures-bind (bump-Left kw_if ts (λ p. cc) e) λ (u, a) la.
      Ensures-bind (parse_list-Gives f a la.0 (omega (arith, la.1))) λ (c, b) lb.
        past_keyword kw_then if_expected_then b _ lb.1.0 λ d ld.
          Ensures-bind (parse_list-Gives f d ld.0 (omega (arith, la.1, lb.1.1, ld.1)))
            λ (body, g) lg.
              Ensures-bind
                (parse_branches-Gives f no_else g refl lg.1.0
                  (omega (arith, la.1, lb.1.1, ld.1, lg.1.1)))
                λ ((bs, last), i) li. holds {a = (if_then (branch c body bs) last, i)} (
                  rw (lb.0, lg.0) (li.0),
                  (li.1.0, omega (arith, la.1, lb.1.1, ld.1, lg.1.1, li.1.1)),
                )

  parse_branches-Gives :
      (f : ℕ) (otherwise : Else) (ts : Tokens)
      → is_else otherwise ≡ true
      → Ended ts
      → 4 * length ts < f
      → Gives
          (λ (bs, last). are_branches bs && is_else last)
          (suc (length ts))
          (parse_branches f otherwise ts)
  parse_branches-Gives zero otherwise ts o e h = absurd (omega arith)
  parse_branches-Gives (suc f) otherwise ts o e h = Ensures-bind (skip_sep-Left ts e) λ (u, a) la.
      at_branch-Ensures (elif_branch (parse_list f) (parse_branches f otherwise))
        (else_branch (parse_list f) (parse_branches f)) (fi_branch otherwise) a la.0
        (λ us p. Ensures-bind (bump-Left kw_elif us (λ q. cc) (subst Ended p la.0)) λ (v, b) lb.
          let n : length a ≡ suc (length us) = ap length p in
          Ensures-bind (parse_list-Gives f b lb.0 (omega (arith, la.1, lb.1, n))) λ (c, d) ld.
            past_keyword kw_then elif_expected_then d _ ld.1.0 λ g lg.
              Ensures-bind (parse_list-Gives f g lg.0 (omega (arith, la.1, lb.1, n, ld.1.1, lg.1)))
                λ (body, i) li.
                  Ensures-bind
                    (parse_branches-Gives f otherwise i o li.1.0
                      (omega (arith, la.1, lb.1, n, ld.1.1, lg.1, li.1.1)))
                    λ ((bs, last), j) lj. holds {a = ((branch c body bs, last), j)} (
                      rw (ld.0, li.0) lj.0,
                      (lj.1.0, omega (arith, la.1, lb.1, n, ld.1.1, lg.1, li.1.1, lj.1.1)),
                    ))
        (λ us p. Ensures-bind (bump-Left kw_else us (λ q. cc) (subst Ended p la.0)) λ (v, b) lb.
          let n : length a ≡ suc (length us) = ap length p in
          Ensures-bind (skip_sep-Left b lb.0) λ (w, d) ld.
            Ensures-bind (parse_list-Gives f d ld.0 (omega (arith, la.1, lb.1, n, ld.1)))
              λ (body, g) lg.
                Ensures-weaken
                  (parse_branches-Gives f (else_do body) g lg.0 lg.1.0
                    (omega (arith, la.1, lb.1, n, ld.1, lg.1.1)))
                  λ r lr. (lr.0, (lr.1.0, omega (arith, la.1, lb.1, n, ld.1, lg.1.1, lr.1.1))))
        (λ us p. Ensures-bind (bump-Left kw_fi us (λ q. cc) (subst Ended p la.0)) λ (v, b) lb.
          holds {a = ((no_branches, otherwise), b)}
            (o, (lb.0, omega (arith, la.1, lb.1, ap (length {A = Token}) p))))

  parse_while-Gives :
      (f : ℕ) (ts : Tokens)
      → Ended (kw_while ∷ ts)
      → 4 * length (kw_while ∷ ts) < f
      → Gives is_item (length (kw_while ∷ ts)) (parse_while f (kw_while ∷ ts))
  parse_while-Gives zero ts e h = absurd (omega arith)
  parse_while-Gives (suc f) ts e h = Ensures-bind (bump-Left kw_while ts (λ p. cc) e) λ (u, a) la.
      Ensures-bind (parse_list-Gives f a la.0 (omega (arith, la.1))) λ (c, b) lb.
        past_keyword kw_do while_expected_do b _ lb.1.0 λ d ld.
          Ensures-bind (parse_list-Gives f d ld.0 (omega (arith, la.1, lb.1.1, ld.1)))
            λ (body, g) lg. Ensures-bind (skip_sep-Left g lg.1.0) λ (v, i) li.
              Ensures-bind (expect-Left kw_done while_expected_done i li.0) λ (w, j) lj.
                holds {a = (while_do c body, j)}
                  (rw (lb.0, lg.0), (lj.0, omega (arith, la.1, lb.1.1, ld.1, lg.1.1, li.1, lj.1)))

  parse_for-Gives :
      (f : ℕ) (ts : Tokens)
      → Ended (kw_for ∷ ts)
      → 4 * length (kw_for ∷ ts) < f
      → Gives is_item (length (kw_for ∷ ts)) (parse_for f (kw_for ∷ ts))
  parse_for-Gives zero ts e h = absurd (omega arith)
  parse_for-Gives (suc f) ts e h = Ensures-bind (bump-Left kw_for ts (λ p. cc) e) λ (u, a) la.
      Ensures-bind (bump-Ended a la.0) λ (t, b) lb.
        Ensures-bind (name_of-Left t b lb.0) λ (name, c) lc.
          Ensures-bind (expect-Left kw_in for_expected_in c lc.0) λ (v, d) ld.
            Ensures-bind (take_words-Left d ld.0) λ (ws, g) lg.
              past_keyword kw_do for_expected_do g _ lg.0 λ i li.
                Ensures-bind
                  (parse_list-Gives f i li.0 (omega (arith, la.1, lb.1, lc.1, ld.1, lg.1, li.1)))
                  λ (body, j) lj. Ensures-bind (skip_sep-Left j lj.1.0) λ (w, k) lk.
                    Ensures-bind (expect-Left kw_done for_expected_done k lk.0) λ (x, m) lm.
                      holds {a = (for_in name ws body, m)} (
                        lj.0,
                        (
                          lm.0,
                          omega (arith, la.1, lb.1, lc.1, ld.1, lg.1, li.1, lj.1.1, lk.1, lm.1),
                        ),
                      )

parse_program-Ensures :
    (f : ℕ) (ts : Tokens)
    → Ended ts
    → 4 * length ts + 2 < f
    → Ensures (λ c. is_body c ≡ true) (parse_program f ts)
unfolding parse_program
parse_program-Ensures f ts e h =
    Ensures-bind
      (Ensures-bind {Q = λ (c, rest). (is_body c ≡ true) × Left (suc (length ts)) rest}
        (skip_sep-Left ts e)
        λ (u, a) la.
          Ensures-weaken (parse_list-Gives f a la.0 (omega (arith, la.1)))
            λ (c, rest) l. (l.0, (l.1.0, omega (arith, la.1, l.1.1))))
      λ (c, rest) l. holds l.0

-- On every text the parser ends within the fuel that `parse` gives it, indexes no token out of
-- range, and gives either an error or a command tree that is canonical: no command without words,
-- no sequence of fewer than two commands or directly inside another one, no `if` without a branch.
pub parse-Ensures : (input : Text) → Ensures (λ c. is_body c ≡ true) (parse input)
unfolding parse tokenize
parse-Ensures input =
    parse_program-Ensures _ (tokens_from outside [] input) (tokens_from-Ended outside [] input)
      (omega arith)
