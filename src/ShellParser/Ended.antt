-- ===== src/ShellParser/Ended.antt =====
-- Tokens that end with `eof`: what the steps of the parser leave of them, and that the tokenizer
-- gives such tokens.
use rustos.Prelude.{
  ℕ, suc, ◌+◌, ◌≤◌, ◌<◌, ◌≡◌, ◌≢◌, refl, Bool, true, ◌||◌, ◌==◌, List, [], ◌∷◌, ◌++◌, arith, length,
  Bool-cases, inl, inr,
}
use rustos.ShellParser.Syntax.{
  Text, Token, Tokens, Cmd, Cmds, word, semi, newline, kw_elif, kw_else, kw_fi, eof, simple,
  sequence, if_then, while_do, for_in, no_cmds, one_more, no_branches, branch, same,
}
use rustos.ShellParser.Tokenizer.{
  tokens_from, flush_word, Place, space, tab, semicolon, line_feed, quote, apostrophe, outside,
  within,
}
use rustos.ShellParser.Outcome
use rustos.ShellParser.Outcome.{
  while_expected_do, while_expected_done, for_expected_in, for_expected_do, for_expected_done,
  if_expected_then, elif_expected_then, if_expected_branch, Outcome, ok, err, ParseError, Ensures,
  holds, refused, Ensures-bind, Ensures-weaken, Ensures-if, Ensures-panic, Ensures-out_of_fuel,
  Ensures-ok,
}
use rustos.ShellParser.Parser.{
  advance, bump, is_sep, skip_sep, expect, take_words, simple_of, parse_simple, name_of,
  is_terminator, at_branch, at_terminator, collect, parse_more, parse_item,
}
use rustos.ShellParser.Canonical.{is_item, is_body, are_items}

abbrev pub Ended : Tokens → Type 0
Ended [] = ⊥
Ended (t ∷ []) = t ≡ eof
Ended (t ∷ u ∷ ts) = Ended (u ∷ ts)

-- Tokens that end with `eof` and are fewer than `n`.
abbrev pub Left : ℕ → Tokens → Type 0
Left n ts = Ended ts × (length ts < n)

advance-Left :
    (t : Token) (ts : Tokens) → Ended (t ∷ ts) → Left (suc (suc (length ts))) (advance t ts)
unfolding advance
advance-Left t [] e = (e, omega arith)
advance-Left t (u ∷ us) e = (e, omega arith)

-- A token other than `eof` is not the last one.
pub bump-Left :
    (t : Token) (ts : Tokens)
    → t ≢ eof
    → Ended (t ∷ ts)
    → Ensures (λ (u, rest). Left (suc (length ts)) rest) (bump (t ∷ ts))
unfolding bump
bump-Left t [] ne e = absurd (ne e)
bump-Left t (u ∷ us) ne e = holds (e, omega arith)

pub bump-Ended :
    (ts : Tokens) → Ended ts → Ensures (λ (u, rest). Left (suc (length ts)) rest) (bump ts)
unfolding bump
bump-Ended [] e = elim e [ ]
bump-Ended (t ∷ ts) e = holds (advance-Left t ts e)

pub skip_sep-Left :
    (ts : Tokens) → Ended ts → Ensures (λ (u, rest). Left (suc (length ts)) rest) (skip_sep ts)
unfolding skip_sep
skip_sep-Left [] e = elim e [ ]
skip_sep-Left (t ∷ []) e = rw e (holds (refl, omega arith))
skip_sep-Left (t ∷ u ∷ ts) e =
    Ensures-if (is_sep t)
      (λ s. Ensures-weaken (skip_sep-Left (u ∷ ts) e) λ (v, rest) l. (l.0, omega (arith, l.1)))
      (λ s. holds (e, omega arith))

pub expect-Left :
    (k : Token) (m : ParseError) (ts : Tokens)
    → Ended ts
    → Ensures (λ (u, rest). Left (suc (length ts)) rest) (expect k m ts)
unfolding expect
expect-Left k m [] e = elim e [ ]
expect-Left k m (u ∷ ts) e = Ensures-if (same u k) (λ s. holds (advance-Left u ts e)) (λ s. refused)

-- The words that were taken count too.
pub take_words-Left :
    (ts : Tokens)
    → Ended ts
    → Ensures (λ (ws, rest). Ended rest × (length ws + length rest ≤ length ts)) (take_words ts)
unfolding take_words
take_words-Left [] e = elim e [ ]
take_words-Left (word w ∷ []) e = cc
take_words-Left (word w ∷ u ∷ ts) e =
    Ensures-bind (take_words-Left (u ∷ ts) e) λ (ws, rest) l. holds (l.0, omega (arith, l.1))
take_words-Left (t ∷ ts) e = holds (e, omega arith)

-- The value satisfies `P`, and tokens that end with `eof`, fewer than `n`, are left.
abbrev pub Gives : {A : Type 0} → (A → Bool) → ℕ → Outcome (A × Tokens) → Type 0
Gives p n r = Ensures (λ (a, rest). (p a ≡ true) × Left n rest) r

pub parse_simple-Gives : (ts : Tokens) → Ended ts → Gives is_item (length ts) (parse_simple ts)
unfolding parse_simple is_item
parse_simple-Gives ts e =
    Ensures-bind (take_words-Left ts e) (λ (ws, rest) l. simple_of_taken ws rest l)
  where
    simple_of_taken :
        (ws : List Text) (rest : Tokens)
        → Ended rest × (length ws + length rest ≤ length ts)
        → Gives is_item (length ts) (simple_of ws rest)
    simple_of_taken [] rest l = refused
    simple_of_taken (w ∷ ws) rest l = holds (refl, (l.0, omega (arith, l.1)))

-- `skip_sep`, a keyword, and `skip_sep` again: none of them adds a token.
pub past_keyword :
    {A : Type 0} {P : A → Type 0} (k : Token) (m : ParseError) (ts : Tokens)
    (g : Tokens → Outcome A)
    → Ended ts
    → ((rest : Tokens) → Left (suc (length ts)) rest → Ensures P (g rest))
    → Ensures P (
        Outcome.bind
          (skip_sep ts)
          λ (u, a). Outcome.bind (expect k m a) λ (v, b). Outcome.bind (skip_sep b) λ (w, c). g c)
past_keyword k m ts g e h = Ensures-bind (skip_sep-Left ts e) λ (u, a) la.
    Ensures-bind (expect-Left k m a la.0) λ (v, b) lb.
      Ensures-bind (skip_sep-Left b lb.0) λ (w, c) lc. h c (lc.0, omega (arith, la.1, lb.1, lc.1))

pub collect-is_body :
    (c : Cmd) (cs : Cmds) → is_item c ≡ true → are_items cs ≡ true → is_body (collect c cs) ≡ true
unfolding is_item
collect-is_body c (one_more d ds) h hs = ground (arith, hs)
collect-is_body (simple (w ∷ ws)) no_cmds h hs = refl
collect-is_body (if_then (branch a b bs) o) no_cmds h hs = h
collect-is_body (while_do a b) no_cmds h hs = h
collect-is_body (for_in v ws b) no_cmds h hs = h
collect-is_body (simple []) no_cmds h hs = h
collect-is_body (sequence cs) no_cmds h hs = cc
collect-is_body (if_then no_branches o) no_cmds h hs = h

pub sep-ne-eof : (t : Token) → is_sep t ≡ true → t ≢ eof
sep-ne-eof semi s e = cc
sep-ne-eof newline s e = cc
sep-ne-eof _ s e = cc

pub name_of-Left :
    (t : Token) (ts : Tokens)
    → Ended ts
    → Ensures (λ (s, rest). Left (suc (length ts)) rest) (name_of t ts)
unfolding name_of
name_of-Left (word w) ts e = holds (e, omega arith)
name_of-Left _ ts e = refused

-- What follows a separator in `parse_more`, with the two calls that it may make.
pub more_after :
    (f : ℕ) (ts : Tokens) (n : ℕ)
    → Ended ts
    → length ts < n
    → Gives is_item (length ts) (parse_item f ts)
    → ((rest : Tokens)
        → Left (length ts) rest
        → Gives are_items (suc (length rest)) (parse_more f rest))
    → Gives are_items n (
        at_terminator
          (λ rest. ok (no_cmds, rest))
          (λ rest.
            Outcome.bind
              (parse_item f rest)
              λ (c, a). Outcome.bind (parse_more f a) λ (cs, b). ok (one_more c cs, b))
          ts)
unfolding at_terminator is_item
more_after f [] n e m item more = elim e [ ]
more_after f (t ∷ ts) n e m item more =
    Ensures-if (is_terminator t) (λ s. holds (refl, (e, m)))
      (λ s. Ensures-bind item λ (c, rest) l.
        Ensures-bind (more rest l.1)
          λ (cs, rest') l'. holds (rw (l.0, l'.0), (l'.1.0, omega (arith, l.1.1, l'.1.1))))

pub at_branch-Ensures :
    {A : Type 0} {P : A × Tokens → Type 0} (p q r : Tokens → Outcome (A × Tokens)) (ts : Tokens)
    → Ended ts
    → ((us : Tokens) → ts ≡ kw_elif ∷ us → Ensures P (p (kw_elif ∷ us)))
    → ((us : Tokens) → ts ≡ kw_else ∷ us → Ensures P (q (kw_else ∷ us)))
    → ((us : Tokens) → ts ≡ kw_fi ∷ us → Ensures P (r (kw_fi ∷ us)))
    → Ensures P (at_branch p q r ts)
unfolding at_branch
at_branch-Ensures p q r [] e hp hq hr = elim e [ ]
at_branch-Ensures p q r (kw_elif ∷ us) e hp hq hr = hp us refl
at_branch-Ensures p q r (kw_else ∷ us) e hp hq hr = hq us refl
at_branch-Ensures p q r (kw_fi ∷ us) e hp hq hr = hr us refl
at_branch-Ensures p q r (t ∷ us) e hp hq hr = refused

-- Whatever the tokenizer makes of a text ends with `eof`.
flush_word-Ended : (buf : Text) (ts : Tokens) → Ended ts → Ended (flush_word buf ts)
unfolding flush_word
flush_word-Ended [] ts e = e
flush_word-Ended (c ∷ buf) [] e = elim e [ ]
flush_word-Ended (c ∷ buf) (t ∷ ts) e = e

push-Ended : (t : Token) (ts : Tokens) → Ended ts → Ended (t ∷ ts)
push-Ended t [] e = elim e [ ]
push-Ended t (u ∷ ts) e = e

pub tokens_from-Ended : (place : Place) (buf input : Text) → Ended (tokens_from place buf input)
unfolding tokens_from
tokens_from-Ended outside buf [] = flush_word-Ended buf (eof ∷ []) refl
tokens_from-Ended (within q) buf [] = flush_word-Ended buf (eof ∷ []) refl
tokens_from-Ended outside buf (c ∷ cs) =
    let fresh : Ended (tokens_from outside [] cs) = tokens_from-Ended outside [] cs in
    elim (Bool-cases ((c == space) || (c == tab))) [
      | inl a ↦ rw a (flush_word-Ended buf (tokens_from outside [] cs) fresh)
      | inr a ↦ elim (Bool-cases (c == semicolon)) [
        | inl b ↦
            rw (a, b)
              (flush_word-Ended buf (semi ∷ tokens_from outside [] cs)
                (push-Ended semi (tokens_from outside [] cs) fresh))
        | inr b ↦ elim (Bool-cases (c == line_feed)) [
          | inl d ↦
              rw (a, b, d)
                (flush_word-Ended buf (newline ∷ tokens_from outside [] cs)
                  (push-Ended newline (tokens_from outside [] cs) fresh))
          | inr d ↦ elim (Bool-cases ((c == quote) || (c == apostrophe))) [
            | inl q ↦ rw (a, b, d, q) (tokens_from-Ended (within c) buf cs)
            | inr q ↦ rw (a, b, d, q) (tokens_from-Ended outside (buf ++ c ∷ []) cs)
          ]
        ]
      ]
    ]
tokens_from-Ended (within q) buf (c ∷ cs) = elim (Bool-cases (c == q)) [
  | inl e ↦ rw e (tokens_from-Ended outside buf cs)
  | inr e ↦ rw e (tokens_from-Ended (within q) (buf ++ c ∷ []) cs)
]
