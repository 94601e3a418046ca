-- ===== src/ShellParser/Parser.antt =====
-- src/shell_parser.rs, `Parser`. The tokens from `pos` on stand for the two fields.
use rustos.Prelude.{ℕ, zero, suc, ◌+◌, ◌*◌, Bool, true, false, List, [], ◌∷◌, if◌then◌else◌, length}
use rustos.ShellParser.Syntax.{
  Text, Token, Tokens, Cmd, Cmds, Branches, Else, word, semi, newline, kw_if, kw_then, kw_elif,
  kw_else, kw_fi, kw_while, kw_do, kw_done, kw_for, kw_in, eof, simple, sequence, if_then, while_do,
  for_in, no_cmds, one_more, no_branches, branch, no_else, else_do, same,
}
use rustos.ShellParser.Tokenizer.{tokenize}
use rustos.ShellParser.Outcome
use rustos.ShellParser.Outcome.{
  Outcome, ok, err, panic, out_of_fuel, ParseError, expected_command, if_expected_then,
  elif_expected_then, if_expected_branch, while_expected_do, while_expected_done, for_expected_name,
  for_expected_in, for_expected_do, for_expected_done,
}

abbrev pub Parser {ℓ} : Type ℓ → Type ℓ
Parser A = Tokens → Outcome (A × Tokens)

abbrev pure {ℓ} : {A : Type ℓ} → A → Parser A
pure a ts = ok (a, ts)

abbrev fail {ℓ} : {A : Type ℓ} → ParseError → Parser A
fail e ts = err e

module _ {ℓ κ} {A : Type ℓ} {B : Type κ} where
  infixl 1 ◌>>=◌ ◌>>◌
  abbrev pub ◌>>=◌ : Parser A → (A → Parser B) → Parser B
  step >>= next = λ ts. Outcome.bind (step ts) λ r. next r.0 r.1

  abbrev ◌>>◌ : Parser A → Parser B → Parser B
  step >> next = λ ts. Outcome.bind (step ts) λ r. next r.1

-- The tokens after `pos` is increased, unless it stands at the last token `t`.
unfoldable pub advance : Token → Tokens → Tokens
advance t [] = t ∷ []
advance t (u ∷ us) = u ∷ us

unfoldable pub bump : Parser Token
unfolding advance
bump [] = panic
bump (t ∷ ts) = ok (t, advance t ts)

abbrev pub is_sep : Token → Bool
is_sep semi = true
is_sep newline = true
is_sep _ = false

-- At a separator that is the last token the loop would not end.
unfoldable pub skip_sep : Parser (Unit {0})
skip_sep [] = panic
skip_sep (t ∷ []) = if is_sep t then out_of_fuel else ok (tt, t ∷ [])
skip_sep (t ∷ u ∷ ts) =
    let rest = skip_sep (u ∷ ts) in if is_sep t then rest else ok (tt, t ∷ u ∷ ts)

-- `if !self.eat(t) { return Err(e) }`
unfoldable pub expect : Token → ParseError → Parser (Unit {0})
unfolding advance same
expect t e [] = panic
expect t e (u ∷ ts) = if same u t then ok (tt, advance u ts) else err e

-- `while let Token::Word(w) = self.peek().clone() { words.push(w); self.bump(); }`
unfoldable pub take_words : Parser (List Text)
take_words [] = panic
take_words (word w ∷ []) = out_of_fuel
take_words (word w ∷ u ∷ ts) = Outcome.bind (take_words (u ∷ ts)) λ (ws, rest). ok (w ∷ ws, rest)
take_words (t ∷ ts) = ok ([], t ∷ ts)

pub simple_of : List Text → Parser Cmd
simple_of [] = fail expected_command
simple_of (w ∷ ws) = pure (simple (w ∷ ws))

unfoldable pub parse_simple : Parser Cmd
unfolding take_words simple_of
parse_simple = do words ← take_words; simple_of words

-- `match self.bump() { Token::Word(w) => w, _ => return Err(…) }`
unfoldable pub name_of : Token → Parser Text
name_of (word w) = pure w
name_of _ = fail for_expected_name

-- A trailing separator before one of these ends a list.
abbrev pub is_terminator : Token → Bool
is_terminator eof = true
is_terminator kw_fi = true
is_terminator kw_done = true
is_terminator kw_else = true
is_terminator kw_elif = true
is_terminator kw_then = true
is_terminator kw_do = true
is_terminator _ = false

-- The branches of the code on the token ahead.
at_item {ℓ} : {A : Type ℓ} → Parser A → Parser A → Parser A → Parser A → Parser A
at_item if_ while_ for_ other [] = panic
at_item if_ while_ for_ other (kw_if ∷ ts) = if_ (kw_if ∷ ts)
at_item if_ while_ for_ other (kw_while ∷ ts) = while_ (kw_while ∷ ts)
at_item if_ while_ for_ other (kw_for ∷ ts) = for_ (kw_for ∷ ts)
at_item if_ while_ for_ other (t ∷ ts) = other (t ∷ ts)

unfoldable pub at_branch {ℓ} : {A : Type ℓ} → Parser A → Parser A → Parser A → Parser A
at_branch elif_ else_ fi_ [] = panic
at_branch elif_ else_ fi_ (kw_elif ∷ ts) = elif_ (kw_elif ∷ ts)
at_branch elif_ else_ fi_ (kw_else ∷ ts) = else_ (kw_else ∷ ts)
at_branch elif_ else_ fi_ (kw_fi ∷ ts) = fi_ (kw_fi ∷ ts)
at_branch elif_ else_ fi_ (t ∷ ts) = err if_expected_branch

at_sep {ℓ} : {A : Type ℓ} → Parser A → Parser A → Parser A
at_sep more done [] = panic
at_sep more done (t ∷ ts) = if is_sep t then more (t ∷ ts) else done (t ∷ ts)

unfoldable pub at_terminator {ℓ} : {A : Type ℓ} → Parser A → Parser A → Parser A
at_terminator done more [] = panic
at_terminator done more (t ∷ ts) = if is_terminator t then done (t ∷ ts) else more (t ∷ ts)

-- `if items.len() == 1 { items.pop().unwrap() } else { Cmd::Sequence(items) }`
abbrev pub collect : Cmd → Cmds → Cmd
collect c no_cmds = c
collect c (one_more d ds) = sequence (one_more c (one_more d ds))

-- The three branches of the loop of `parse_if`, over the parser of lists and the loop itself.
abbrev pub elif_branch : Parser Cmd → Parser (Branches × Else) → Parser (Branches × Else)
elif_branch list loop = do
  bump
  condition ← list
  skip_sep
  expect kw_then elif_expected_then
  skip_sep
  body ← list
  (branches, last) ← loop
  pure (branch condition body branches, last)

abbrev pub else_branch : Parser Cmd → (Else → Parser (Branches × Else)) → Parser (Branches × Else)
else_branch list loop = do bump; skip_sep; body ← list; loop (else_do body)

abbrev pub fi_branch : Else → Parser (Branches × Else)
fi_branch otherwise = do bump; pure (no_branches, otherwise)

-- Each call of one of these functions costs a unit of fuel.
unfoldable mutual
  unfolding bump skip_sep expect parse_simple name_of at_item at_branch at_sep at_terminator

  pub parse_list : ℕ → Parser Cmd
  parse_list zero = λ ts. out_of_fuel
  parse_list (suc f) = do item ← parse_item f; items ← parse_more f; pure (collect item items)

  -- The loop of `parse_list`.
  pub parse_more : ℕ → Parser Cmds
  parse_more zero = λ ts. out_of_fuel
  parse_more (suc f) =
      at_sep
        (do
          bump
          at_terminator (pure no_cmds)
              (do item ← parse_item f; items ← parse_more f; pure (one_more item items)))
        (pure no_cmds)

  pub parse_item : ℕ → Parser Cmd
  parse_item zero = λ ts. out_of_fuel
  parse_item (suc f) = at_item (parse_if f) (parse_while f) (parse_for f) parse_simple

  pub parse_if : ℕ → Parser Cmd
  parse_if zero = λ ts. out_of_fuel
  parse_if (suc f) = do
    bump
    condition ← parse_list f
    skip_sep
    expect kw_then if_expected_then
    skip_sep
    body ← parse_list f
    (branches, otherwise) ← parse_branches f no_else
    pure (if_then (branch condition body branches) otherwise)

  -- The loop of `parse_if`, with the `else` part so far.
  pub parse_branches : ℕ → Else → Parser (Branches × Else)
  parse_branches zero otherwise = λ ts. out_of_fuel
  parse_branches (suc f) otherwise = do
    skip_sep
    at_branch (elif_branch (parse_list f) (parse_branches f otherwise))
        (else_branch (parse_list f) (parse_branches f)) (fi_branch otherwise)

  pub parse_while : ℕ → Parser Cmd
  parse_while zero = λ ts. out_of_fuel
  parse_while (suc f) = do
    bump
    condition ← parse_list f
    skip_sep
    expect kw_do while_expected_do
    skip_sep
    body ← parse_list f
    skip_sep
    expect kw_done while_expected_done
    pure (while_do condition body)

  pub parse_for : ℕ → Parser Cmd
  parse_for zero = λ ts. out_of_fuel
  parse_for (suc f) = do
    bump
    ahead ← bump
    variable ← name_of ahead
    expect kw_in for_expected_in
    items ← take_words
    skip_sep
    expect kw_do for_expected_do
    skip_sep
    body ← parse_list f
    skip_sep
    expect kw_done for_expected_done
    pure (for_in variable items body)

-- The tokens that are left when `parse_program` returns stay unread.
unfoldable pub parse_program : ℕ → Tokens → Outcome Cmd
unfolding skip_sep parse_list
parse_program fuel ts = Outcome.bind ((skip_sep >> parse_list fuel) ts) λ (cmd, unread). ok cmd

abbrev pub fuel_for : Tokens → ℕ
fuel_for ts = 4 * length ts + 3

unfoldable pub parse : Text → Outcome Cmd
unfolding tokenize parse_program
parse input = parse_program (fuel_for (tokenize input)) (tokenize input)
