-- ===== src/ShellParser/Print.antt =====
-- Command trees as the tokens of a program that the parser reads as that tree. Each function puts
-- its tokens in front of those that are given.
use rustos.Prelude.{
  ◌≤◌, ◌≡◌, refl, Bool, true, false, List, [], ◌∷◌, arith, length, not, ◌&&◌, if◌then◌else◌,
}
use rustos.ShellParser.Syntax.{
  Text, Token, Tokens, Cmd, Cmds, Branches, Else, word, semi, kw_if, kw_then, kw_elif, kw_else,
  kw_fi, kw_while, kw_do, kw_done, kw_for, kw_in, eof, simple, sequence, if_then, while_do, for_in,
  no_cmds, one_more, no_branches, branch, no_else, else_do,
}
use rustos.ShellParser.Parser.{is_sep, is_terminator}
use rustos.ShellParser.Canonical.{is_item, is_body}

abbrev pub words : List Text → Tokens → Tokens
words [] ts = ts
words (w ∷ ws) ts = word w ∷ words ws ts

unfoldable mutual
  pub emit : Cmd → Tokens → Tokens
  emit (simple ws) ts = words ws ts
  emit (sequence no_cmds) ts = ts
  emit (sequence (one_more c cs)) ts = emit c (emit_rest cs ts)
  emit (if_then bs otherwise) ts = emit_branches kw_if bs (emit_else otherwise (kw_fi ∷ ts))
  emit (while_do condition body) ts =
      kw_while ∷ emit condition (semi ∷ kw_do ∷ emit body (semi ∷ kw_done ∷ ts))
  emit (for_in variable items body) ts =
      kw_for ∷ word variable ∷ kw_in ∷ words items (semi ∷ kw_do ∷ emit body (semi ∷ kw_done ∷ ts))

  pub emit_rest : Cmds → Tokens → Tokens
  emit_rest no_cmds ts = ts
  emit_rest (one_more c cs) ts = semi ∷ emit c (emit_rest cs ts)

  -- The first branch stands behind `if`, and each other one behind `elif`.
  pub emit_branches : Token → Branches → Tokens → Tokens
  emit_branches keyword no_branches ts = ts
  emit_branches keyword (branch condition body bs) ts =
      keyword ∷ emit condition (semi ∷ kw_then ∷ emit body (semi ∷ emit_branches kw_elif bs ts))

  pub emit_else : Else → Tokens → Tokens
  emit_else no_else ts = ts
  emit_else (else_do body) ts = kw_else ∷ emit body (semi ∷ ts)

-- The tokens of a program.
unfoldable pub emit_program : Cmd → Tokens
unfolding emit
emit_program c = emit c (semi ∷ eof ∷ [])

-- Tokens that begin with a command, and tokens that end one.
abbrev pub begins : Tokens → Bool
begins [] = false
begins (t ∷ ts) = if is_sep t then false else not (is_terminator t)

abbrev pub ends : Tokens → Bool
ends [] = false
ends (t ∷ ts) = is_terminator t

abbrev pub is_word : Token → Bool
is_word (word w) = true
is_word _ = false

pub item-begins : (c : Cmd) (ts : Tokens) → is_item c ≡ true → begins (emit c ts) ≡ true
unfolding is_item emit
item-begins (simple []) ts h = cc
item-begins (simple (w ∷ ws)) ts h = refl
item-begins (sequence cs) ts h = cc
item-begins (if_then no_branches o) ts h = cc
item-begins (if_then (branch a b bs) o) ts h = refl
item-begins (while_do a b) ts h = refl
item-begins (for_in v ws b) ts h = refl

pub and_left : (a b : Bool) → a && b ≡ true → a ≡ true
and_left true b h = refl
and_left false b h = h

pub and_right : (a b : Bool) → a && b ≡ true → b ≡ true
and_right true b h = h
and_right false b h = cc

pub body-begins : (c : Cmd) (ts : Tokens) → is_body c ≡ true → begins (emit c ts) ≡ true
unfolding is_item emit
body-begins (simple []) ts h = cc
body-begins (simple (w ∷ ws)) ts h = refl
body-begins (sequence no_cmds) ts h = cc
body-begins (sequence (one_more c no_cmds)) ts h = cc
body-begins (sequence (one_more c (one_more d cs))) ts h =
    item-begins c (emit_rest (one_more d cs) ts) (and_left (is_item c) _ h)
body-begins (if_then no_branches o) ts h = cc
body-begins (if_then (branch a b bs) o) ts h = refl
body-begins (while_do a b) ts h = refl
body-begins (for_in v ws b) ts h = refl

pub words-length : (ws : List Text) (ts : Tokens) → length ts ≤ length (words ws ts)
words-length [] ts = omega arith
words-length (w ∷ ws) ts = omega (arith, words-length ws ts)

mutual
  unfolding emit

  pub emit-length : (c : Cmd) (ts : Tokens) → length ts ≤ length (emit c ts)
  emit-length (simple ws) ts = words-length ws ts
  emit-length (sequence no_cmds) ts = omega arith
  emit-length (sequence (one_more c cs)) ts =
      omega (arith, emit-length c (emit_rest cs ts), emit_rest-length cs ts)
  emit-length (if_then bs o) ts = omega (
    arith,
    emit_branches-length kw_if bs (emit_else o (kw_fi ∷ ts)),
    emit_else-length o (kw_fi ∷ ts),
  )
  emit-length (while_do a b) ts = omega (
    arith,
    emit-length a (semi ∷ kw_do ∷ emit b (semi ∷ kw_done ∷ ts)),
    emit-length b (semi ∷ kw_done ∷ ts),
  )
  emit-length (for_in v ws b) ts = omega (
    arith,
    words-length ws (semi ∷ kw_do ∷ emit b (semi ∷ kw_done ∷ ts)),
    emit-length b (semi ∷ kw_done ∷ ts),
  )

  emit_rest-length : (cs : Cmds) (ts : Tokens) → length ts ≤ length (emit_rest cs ts)
  emit_rest-length no_cmds ts = omega arith
  emit_rest-length (one_more c cs) ts =
      omega (arith, emit-length c (emit_rest cs ts), emit_rest-length cs ts)

  emit_branches-length :
      (keyword : Token) (bs : Branches) (ts : Tokens)
      → length ts ≤ length (emit_branches keyword bs ts)
  emit_branches-length keyword no_branches ts = omega arith
  emit_branches-length keyword (branch a b bs) ts = omega (
    arith,
    emit-length a (semi ∷ kw_then ∷ emit b (semi ∷ emit_branches kw_elif bs ts)),
    emit-length b (semi ∷ emit_branches kw_elif bs ts),
    emit_branches-length kw_elif bs ts,
  )

  emit_else-length : (o : Else) (ts : Tokens) → length ts ≤ length (emit_else o ts)
  emit_else-length no_else ts = omega arith
  emit_else-length (else_do b) ts = omega (arith, emit-length b (semi ∷ ts))
