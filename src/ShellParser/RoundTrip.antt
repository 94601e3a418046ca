-- ===== src/ShellParser/RoundTrip.antt =====
-- The parser reads the tokens of a command tree as that tree.
use rustos.Prelude.{
  ℕ, zero, suc, ◌+◌, ◌*◌, ◌<◌, ◌≡◌, refl, true, false, List, [], ◌∷◌, arith, length, subst,
}
use rustos.ShellParser.Syntax.{
  Text, Tokens, Cmd, Cmds, Branches, Else, semi, kw_then, kw_elif, kw_fi, kw_do, kw_done, eof,
  simple, sequence, if_then, while_do, for_in, no_cmds, one_more, no_branches, branch, no_else,
  else_do,
}
use rustos.ShellParser.Outcome.{ok}
use rustos.ShellParser.Parser.{
  collect, parse_list, parse_more, parse_item, parse_branches, parse_program, fuel_for,
}
use rustos.ShellParser.Canonical.{is_item, is_body, are_items, are_branches, is_else}
use rustos.ShellParser.Print.{
  emit, emit_rest, emit_branches, emit_else, emit_program, ends, item-begins, body-begins, and_left,
  and_right, words-length, emit-length,
}
use rustos.ShellParser.Steps.{
  parts, skip_sep-begins, emit_rest-parts, branches-ends, more_read, no_more_read, list_read,
  while_read, for_read, if_read, elif_read, fi_read, else_read, simple_read,
}

-- The bounds are those under which every run of the parser ends.
abbrev ReadsItem : Cmd → Type 0
ReadsItem c =
    (f : ℕ) (ts : Tokens)
    → is_item c ≡ true
    → parts ts ≡ true
    → 4 * length (emit c ts) + 1 < f
    → parse_item f (emit c ts) ≡ ok (c, ts)

abbrev ReadsBody : Cmd → Type 0
ReadsBody c =
    (f : ℕ) (ts : Tokens)
    → is_body c ≡ true
    → ends ts ≡ true
    → 4 * length (emit c (semi ∷ ts)) + 2 < f
    → parse_list f (emit c (semi ∷ ts)) ≡ ok (c, ts)

abbrev ReadsRest : Cmds → Type 0
ReadsRest cs =
    (f : ℕ) (ts : Tokens)
    → are_items cs ≡ true
    → ends ts ≡ true
    → 4 * length (emit_rest cs (semi ∷ ts)) < f
    → parse_more f (emit_rest cs (semi ∷ ts)) ≡ ok (cs, ts)

abbrev ReadsBranches : Branches → Type 0
ReadsBranches bs =
    (o : Else) (f : ℕ) (ts : Tokens)
    → parts ts ≡ true
    → are_branches bs ≡ true
    → is_else o ≡ true
    → ((y : Cmd) → o ≡ else_do y → ReadsBody y)
    → 4 * length (emit_branches kw_elif bs (emit_else o (kw_fi ∷ ts))) < f
    → parse_branches f no_else (emit_branches kw_elif bs (emit_else o (kw_fi ∷ ts)))
      ≡ ok ((bs, o), ts)

-- A command alone is a list.
one_item :
    (c : Cmd)
    → (collect c no_cmds ≡ c)
    → (is_body c ≡ true → is_item c ≡ true)
    → ReadsItem c
    → ReadsBody c
one_item c e i r zero ts h p b = absurd (omega arith)
one_item c e i r (suc zero) ts h p b = absurd (omega arith)
one_item c e i r (suc (suc f)) ts h p b =
    list_read (suc f) (emit c (semi ∷ ts)) (semi ∷ ts) c no_cmds ts
      (r (suc f) (semi ∷ ts) (i h) refl (omega (arith, b))) (no_more_read f ts p)

simple-Reads : (ws : List Text) → ReadsItem (simple ws)
unfolding emit is_item
simple-Reads ws zero ts h p b = absurd (omega arith)
simple-Reads [] (suc f) ts h p b = cc
simple-Reads (w ∷ ws) (suc f) ts h p b = simple_read f w ws ts p

while_do-Reads : (x y : Cmd) → ReadsBody x → ReadsBody y → ReadsItem (while_do x y)
unfolding emit is_item
while_do-Reads x y rx ry zero ts h p b = absurd (omega arith)
while_do-Reads x y rx ry (suc zero) ts h p b = absurd (omega arith)
while_do-Reads x y rx ry (suc (suc f)) ts h p b =
    let us = emit y (semi ∷ kw_done ∷ ts) in
    let hx = and_left (is_body x) _ h in
    let hy = and_right (is_body x) _ h in
    while_read f x y (emit x (semi ∷ kw_do ∷ us)) us ts p (body-begins x _ hx) (body-begins y _ hy)
      (rx f (kw_do ∷ us) hx refl (omega (arith, b)))
      (ry f (kw_done ∷ ts) hy refl (omega (arith, b, emit-length x (semi ∷ kw_do ∷ us))))

for_in-Reads : (v : Text) (ws : List Text) (y : Cmd) → ReadsBody y → ReadsItem (for_in v ws y)
unfolding emit is_item
for_in-Reads v ws y ry zero ts h p b = absurd (omega arith)
for_in-Reads v ws y ry (suc zero) ts h p b = absurd (omega arith)
for_in-Reads v ws y ry (suc (suc f)) ts h p b =
    let us = emit y (semi ∷ kw_done ∷ ts) in
    for_read f v ws y us ts p (body-begins y _ h)
      (ry f (kw_done ∷ ts) h refl (omega (arith, b, words-length ws (semi ∷ kw_do ∷ us))))

if_then-Reads :
    (x y : Cmd) (bs : Branches) (o : Else)
    → ReadsBody x
    → ReadsBody y
    → ReadsBranches bs
    → ((z : Cmd) → o ≡ else_do z → ReadsBody z)
    → ReadsItem (if_then (branch x y bs) o)
unfolding emit is_item
if_then-Reads x y bs o rx ry rbs ro zero ts h p b = absurd (omega arith)
if_then-Reads x y bs o rx ry rbs ro (suc zero) ts h p b = absurd (omega arith)
if_then-Reads x y bs o rx ry rbs ro (suc (suc f)) ts h p b =
    let rest = emit_branches kw_elif bs (emit_else o (kw_fi ∷ ts)) in
    let hx = and_left (is_body x) _ h in
    let hy = and_left (is_body y) _ (and_right (is_body x) _ h) in
    let ho = and_right (is_body y) _ (and_right (is_body x) _ h) in
    let l1 = emit-length x (semi ∷ kw_then ∷ emit y (semi ∷ rest)) in
    let l2 = emit-length y (semi ∷ rest) in
    if_read f x y bs o (emit x (semi ∷ kw_then ∷ emit y (semi ∷ rest))) (emit y (semi ∷ rest)) rest
      ts (body-begins x _ hx) (body-begins y _ hy)
      (rx f (kw_then ∷ emit y (semi ∷ rest)) hx refl (omega (arith, b)))
      (ry f rest hy (branches-ends bs o ts) (omega (arith, b, l1)))
      (rbs o f ts p (and_left (are_branches bs) _ ho) (and_right (are_branches bs) _ ho) ro
        (omega (arith, b, l1, l2)))

branch-Reads :
    (x y : Cmd) (bs : Branches)
    → ReadsBody x
    → ReadsBody y
    → ReadsBranches bs
    → ReadsBranches (branch x y bs)
unfolding emit is_item
branch-Reads x y bs rx ry rbs o zero ts p h ho ro b = absurd (omega arith)
branch-Reads x y bs rx ry rbs o (suc f) ts p h ho ro b =
    let rest = emit_branches kw_elif bs (emit_else o (kw_fi ∷ ts)) in
    let hx = and_left (is_body x) _ h in
    let hy = and_left (is_body y) _ (and_right (is_body x) _ h) in
    let l1 = emit-length x (semi ∷ kw_then ∷ emit y (semi ∷ rest)) in
    elif_read f x y bs o (emit x (semi ∷ kw_then ∷ emit y (semi ∷ rest))) (emit y (semi ∷ rest))
      rest ts (body-begins x _ hx) (body-begins y _ hy)
      (rx f (kw_then ∷ emit y (semi ∷ rest)) hx refl (omega (arith, b)))
      (ry f rest hy (branches-ends bs o ts) (omega (arith, b, l1)))
      (rbs o f ts p (and_right (is_body y) _ (and_right (is_body x) _ h)) ho ro
        (omega (arith, b, l1, emit-length y (semi ∷ rest))))

no_branches-Reads : ReadsBranches no_branches
unfolding emit is_item
no_branches-Reads o zero ts p h ho ro b = absurd (omega arith)
no_branches-Reads no_else (suc f) ts p h ho ro b = fi_read f no_else ts p
no_branches-Reads (else_do y) (suc zero) ts p h ho ro b = absurd (omega arith)
no_branches-Reads (else_do y) (suc (suc f)) ts p h ho ro b =
    else_read f y (emit y (semi ∷ kw_fi ∷ ts)) ts p (body-begins y _ ho)
      (ro y refl (suc f) (kw_fi ∷ ts) ho refl (omega (arith, b)))

one_more-Reads : (c : Cmd) (cs : Cmds) → ReadsItem c → ReadsRest cs → ReadsRest (one_more c cs)
unfolding emit is_item
one_more-Reads c cs rc rcs zero ts h p b = absurd (omega arith)
one_more-Reads c cs rc rcs (suc f) ts h p b =
    let us = emit_rest cs (semi ∷ ts) in
    let hc = and_left (is_item c) _ h in
    more_read f (emit c us) us c cs ts (item-begins c us hc)
      (rc f us hc (emit_rest-parts cs ts) (omega (arith, b)))
      (rcs f ts (and_right (is_item c) _ h) p (omega (arith, b, emit-length c us)))

no_cmds-Reads : ReadsRest no_cmds
unfolding emit is_item
no_cmds-Reads zero ts h p b = absurd (omega arith)
no_cmds-Reads (suc f) ts h p b = no_more_read f ts p

sequence-Reads :
    (c d : Cmd) (cs : Cmds)
    → ReadsItem c
    → ReadsRest (one_more d cs)
    → ReadsBody (sequence (one_more c (one_more d cs)))
unfolding emit is_item
sequence-Reads c d cs rc rcs zero ts h p b = absurd (omega arith)
sequence-Reads c d cs rc rcs (suc f) ts h p b =
    let us = emit d (emit_rest cs (semi ∷ ts)) in
    list_read f (emit c (semi ∷ us)) (semi ∷ us) c (one_more d cs) ts
      (rc f (semi ∷ us) (and_left (is_item c) _ h) refl (omega (arith, b)))
      (rcs f ts (and_right (is_item c) _ h) p (omega (arith, b, emit-length c (semi ∷ us))))

not_item : (c : Cmd) → is_item c ≡ false → ReadsItem c
not_item c e f ts h p b = cc

not_body : (c : Cmd) → is_body c ≡ false → ReadsBody c
not_body c e f ts h p b = cc

simple_body : (ws : List Text) → ReadsBody (simple ws)
unfolding is_item
simple_body [] = not_body (simple []) refl
simple_body (w ∷ ws) = one_item (simple (w ∷ ws)) refl (λ h. h) (simple-Reads (w ∷ ws))

mutual
  unfolding is_item

  item_read : (c : Cmd) → ReadsItem c
  item_read (simple ws) = simple-Reads ws
  item_read (sequence cs) = not_item (sequence cs) refl
  item_read (if_then no_branches o) = not_item (if_then no_branches o) refl
  item_read (if_then (branch x y bs) o) =
      if_then-Reads x y bs o (body_read x) (body_read y) (branches_read bs) (last_read o)
  item_read (while_do x y) = while_do-Reads x y (body_read x) (body_read y)
  item_read (for_in v ws y) = for_in-Reads v ws y (body_read y)

  body_read : (c : Cmd) → ReadsBody c
  body_read (simple ws) = simple_body ws
  body_read (sequence no_cmds) = not_body (sequence no_cmds) refl
  body_read (sequence (one_more c no_cmds)) = not_body (sequence (one_more c no_cmds)) refl
  body_read (sequence (one_more c (one_more d cs))) =
      sequence-Reads c d cs (item_read c) (one_more-Reads d cs (item_read d) (rest_read cs))
  body_read (if_then no_branches o) = not_body (if_then no_branches o) refl
  body_read (if_then (branch x y bs) o) =
      one_item (if_then (branch x y bs) o) refl (λ h. h)
        (if_then-Reads x y bs o (body_read x) (body_read y) (branches_read bs) (last_read o))
  body_read (while_do x y) =
      one_item (while_do x y) refl (λ h. h) (while_do-Reads x y (body_read x) (body_read y))
  body_read (for_in v ws y) =
      one_item (for_in v ws y) refl (λ h. h) (for_in-Reads v ws y (body_read y))

  rest_read : (cs : Cmds) → ReadsRest cs
  rest_read no_cmds = no_cmds-Reads
  rest_read (one_more c cs) = one_more-Reads c cs (item_read c) (rest_read cs)

  branches_read : (bs : Branches) → ReadsBranches bs
  branches_read no_branches = no_branches-Reads
  branches_read (branch x y bs) = branch-Reads x y bs (body_read x) (body_read y) (branches_read bs)

  last_read : (o : Else) (z : Cmd) → o ≡ else_do z → ReadsBody z
  last_read no_else z e = cc
  last_read (else_do y) z e = subst ReadsBody (cc) (body_read y)

-- The parser reads the tokens of a canonical command tree as that tree.
pub parse_program-emit_program :
    (c : Cmd) → is_body c ≡ true → parse_program (fuel_for (emit_program c)) (emit_program c) ≡ ok c
unfolding parse_program emit_program
parse_program-emit_program c h = rw (
  skip_sep-begins (emit c (semi ∷ eof ∷ [])) (body-begins c _ h),
  body_read c (fuel_for (emit c (semi ∷ eof ∷ []))) (eof ∷ []) h refl (omega arith),
)
