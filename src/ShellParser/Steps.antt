-- ===== src/ShellParser/Steps.antt =====
-- The steps of the parser on tokens as `Print` gives them, one for each kind of command.
use rustos.Prelude.{
  ℕ, suc, ◌≡◌, refl, Bool, true, false, List, [], ◌∷◌, arith, not, Bool-cases, inl, inr,
}
use rustos.ShellParser.Syntax.{
  Text, Token, Tokens, Cmd, Cmds, Branches, Else, word, semi, kw_if, kw_then, kw_elif, kw_else,
  kw_fi, kw_while, kw_do, kw_done, kw_for, kw_in, simple, if_then, while_do, for_in, no_cmds,
  one_more, no_branches, branch, no_else, else_do,
}
use rustos.ShellParser.Outcome.{ok}
use rustos.ShellParser.Parser.{
  advance, is_sep, skip_sep, take_words, parse_simple, is_terminator, collect, parse_list,
  parse_more, parse_item, parse_branches, parse_program,
}
use rustos.ShellParser.Print.{
  words, emit, emit_rest, emit_branches, emit_else, begins, ends, is_word,
}

-- Tokens in front of which a command ends.
abbrev pub parts : Tokens → Bool
parts [] = false
parts (t ∷ ts) = not (is_word t)

advance-begins : (t : Token) (ts : Tokens) → begins ts ≡ true → advance t ts ≡ ts
unfolding advance
advance-begins t [] h = cc
advance-begins t (u ∷ us) h = refl

skip_sep-token : (t : Token) (ts : Tokens) → is_sep t ≡ false → skip_sep (t ∷ ts) ≡ ok (tt, t ∷ ts)
unfolding skip_sep
skip_sep-token t [] h = rw h
skip_sep-token t (u ∷ us) h = rw h

advance-words :
    (t : Token) (ws : List Text) (u : Token) (us : Tokens)
    → advance t (words ws (u ∷ us)) ≡ words ws (u ∷ us)
unfolding advance
advance-words t [] u us = refl
advance-words t (w ∷ ws) u us = refl

skip_sep-semi :
    (t : Token) (ts : Tokens) → is_sep t ≡ false → skip_sep (semi ∷ t ∷ ts) ≡ ok (tt, t ∷ ts)
unfolding skip_sep
skip_sep-semi t ts h = skip_sep-token t ts h

pub skip_sep-begins : (ts : Tokens) → begins ts ≡ true → skip_sep ts ≡ ok (tt, ts)
skip_sep-begins [] h = cc
skip_sep-begins (t ∷ ts) h = skip_sep-token t ts (ground (arith, h))

take_words-token :
    (t : Token) (ts : Tokens) → is_word t ≡ false → take_words (t ∷ ts) ≡ ok ([], t ∷ ts)
unfolding take_words
take_words-token (word w) ts h = cc
take_words-token _ ts h = refl

take_words-words :
    (ws : List Text) (t : Token) (ts : Tokens)
    → is_word t ≡ false
    → take_words (words ws (t ∷ ts)) ≡ ok (ws, t ∷ ts)
unfolding take_words
take_words-words [] t ts h = take_words-token t ts h
take_words-words (w ∷ []) t ts h = rw (take_words-token t ts h)
take_words-words (w ∷ x ∷ ws) t ts h = rw (take_words-words (x ∷ ws) t ts h)

parse_simple-words :
    (w : Text) (ws : List Text) (t : Token) (ts : Tokens)
    → is_word t ≡ false
    → parse_simple (words (w ∷ ws) (t ∷ ts)) ≡ ok (simple (w ∷ ws), t ∷ ts)
unfolding parse_simple
parse_simple-words w ws t ts h = rw (take_words-words (w ∷ ws) t ts h)

pub emit_rest-parts : (cs : Cmds) (ts : Tokens) → parts (emit_rest cs (semi ∷ ts)) ≡ true
unfolding emit
emit_rest-parts no_cmds ts = refl
emit_rest-parts (one_more c cs) ts = refl

-- The tokens of the branches after the first one, of `else` and of `fi`.
pub branches-ends :
    (bs : Branches) (last : Else) (ts : Tokens)
    → ends (emit_branches kw_elif bs (emit_else last (kw_fi ∷ ts))) ≡ true
unfolding emit
branches-ends no_branches no_else ts = refl
branches-ends no_branches (else_do b) ts = refl
branches-ends (branch a b bs) last ts = refl

pub more_read :
    (f : ℕ) (ts us : Tokens) (c : Cmd) (cs : Cmds) (rest : Tokens)
    → begins ts ≡ true
    → parse_item f ts ≡ ok (c, us)
    → parse_more f us ≡ ok (cs, rest)
    → parse_more (suc f) (semi ∷ ts) ≡ ok (one_more c cs, rest)
unfolding parse_more
more_read f [] us c cs rest b p q = cc
more_read f (t ∷ ts) us c cs rest b p q = elim (Bool-cases (is_terminator t)) [
  | inl e ↦ absurd (ground (arith, b, e))
  | inr e ↦ rw (e, p, q)
]

pub no_more_read :
    (f : ℕ) (ts : Tokens) → ends ts ≡ true → parse_more (suc f) (semi ∷ ts) ≡ ok (no_cmds, ts)
unfolding parse_more
no_more_read f [] h = cc
no_more_read f (t ∷ ts) h = rw h

pub list_read :
    (f : ℕ) (ts us : Tokens) (c : Cmd) (cs : Cmds) (rest : Tokens)
    → parse_item f ts ≡ ok (c, us)
    → parse_more f us ≡ ok (cs, rest)
    → parse_list (suc f) ts ≡ ok (collect c cs, rest)
unfolding parse_list
list_read f ts us c cs rest p q = rw (p, q)

pub while_read :
    (f : ℕ) (a b : Cmd) (ts us rest : Tokens)
    → parts rest ≡ true
    → begins ts ≡ true
    → begins us ≡ true
    → parse_list f ts ≡ ok (a, kw_do ∷ us)
    → parse_list f us ≡ ok (b, kw_done ∷ rest)
    → parse_item (suc (suc f)) (kw_while ∷ ts) ≡ ok (while_do a b, rest)
unfolding parse_list
while_read f a b ts us [] h hts hus p q = cc
while_read f a b ts us (t ∷ rest) h hts hus p q = rw (
  advance-begins kw_while ts hts,
  p,
  skip_sep-token kw_do us refl,
  advance-begins kw_do us hus,
  skip_sep-begins us hus,
  q,
)

pub for_read :
    (f : ℕ) (v : Text) (ws : List Text) (b : Cmd) (us rest : Tokens)
    → parts rest ≡ true
    → begins us ≡ true
    → parse_list f us ≡ ok (b, kw_done ∷ rest)
    → parse_item (suc (suc f)) (kw_for ∷ word v ∷ kw_in ∷ words ws (semi ∷ kw_do ∷ us))
      ≡ ok (for_in v ws b, rest)
unfolding parse_list
for_read f v ws b us [] h hus q = cc
for_read f v ws b us (t ∷ rest) h hus q = rw (
  advance-words kw_in ws semi (kw_do ∷ us),
  take_words-words ws semi (kw_do ∷ us) refl,
  skip_sep-semi kw_do us refl,
  advance-begins kw_do us hus,
  skip_sep-begins us hus,
  q,
)

pub if_read :
    (f : ℕ) (a b : Cmd) (bs : Branches) (o : Else) (ts us vs rest : Tokens)
    → begins ts ≡ true
    → begins us ≡ true
    → parse_list f ts ≡ ok (a, kw_then ∷ us)
    → parse_list f us ≡ ok (b, vs)
    → parse_branches f no_else vs ≡ ok ((bs, o), rest)
    → parse_item (suc (suc f)) (kw_if ∷ ts) ≡ ok (if_then (branch a b bs) o, rest)
unfolding parse_list
if_read f a b bs o ts us vs rest hts hus p q r = rw (
  advance-begins kw_if ts hts,
  p,
  skip_sep-token kw_then us refl,
  advance-begins kw_then us hus,
  skip_sep-begins us hus,
  q,
  r,
)

pub elif_read :
    (f : ℕ) (a b : Cmd) (bs : Branches) (o : Else) (ts us vs rest : Tokens)
    → begins ts ≡ true
    → begins us ≡ true
    → parse_list f ts ≡ ok (a, kw_then ∷ us)
    → parse_list f us ≡ ok (b, vs)
    → parse_branches f no_else vs ≡ ok ((bs, o), rest)
    → parse_branches (suc f) no_else (kw_elif ∷ ts) ≡ ok ((branch a b bs, o), rest)
unfolding parse_list
elif_read f a b bs o ts us vs rest hts hus p q r = rw (
  skip_sep-token kw_elif ts refl,
  advance-begins kw_elif ts hts,
  p,
  skip_sep-token kw_then us refl,
  advance-begins kw_then us hus,
  skip_sep-begins us hus,
  q,
  r,
)

pub fi_read :
    (f : ℕ) (o : Else) (ts : Tokens)
    → parts ts ≡ true
    → parse_branches (suc f) o (kw_fi ∷ ts) ≡ ok ((no_branches, o), ts)
unfolding parse_list
fi_read f o [] h = cc
fi_read f o (t ∷ ts) h = refl

pub else_read :
    (f : ℕ) (b : Cmd) (ts us : Tokens)
    → parts us ≡ true
    → begins ts ≡ true
    → parse_list (suc f) ts ≡ ok (b, kw_fi ∷ us)
    → parse_branches (suc (suc f)) no_else (kw_else ∷ ts) ≡ ok ((no_branches, else_do b), us)
unfolding parse_list
else_read f b ts us h hts p = rw (
  skip_sep-token kw_else ts refl,
  advance-begins kw_else ts hts,
  skip_sep-begins ts hts,
  p,
  fi_read f (else_do b) us h,
)

pub simple_read :
    (f : ℕ) (w : Text) (ws : List Text) (ts : Tokens)
    → parts ts ≡ true
    → parse_item (suc f) (words (w ∷ ws) ts) ≡ ok (simple (w ∷ ws), ts)
unfolding parse_list
simple_read f w ws [] h = cc
simple_read f w ws (t ∷ ts) h = parse_simple-words w ws t ts (ground (arith, h))

-- A program of one command in front of a token that is no word and no separator: the command is
-- what the parser gives, and it reads neither that token nor anything after it.
parse_program-words :
    (f : ℕ) (w : Text) (ws : List Text) (t : Token) (ts : Tokens)
    → is_word t ≡ false
    → is_sep t ≡ false
    → parse_program (suc (suc f)) (words (w ∷ ws) (t ∷ ts)) ≡ ok (simple (w ∷ ws))
unfolding parse_program
parse_program-words f w ws t ts h s =
    rw (skip_sep-begins (words (w ∷ ws) (t ∷ ts)) refl, simple_read f w ws (t ∷ ts) (rw h refl), s)
