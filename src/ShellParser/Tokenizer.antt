-- ===== src/ShellParser/Tokenizer.antt =====
-- src/shell_parser.rs, `tokenize` and `join_simple`.
use rustos.Prelude.{ℕ, Bool, false, ◌||◌, List, [], ◌∷◌, ◌++◌, ◌==◌, if◌then◌else◌}
use rustos.ShellParser.Syntax.{
  Text, Token, Tokens, word, semi, newline, kw_if, kw_then, kw_elif, kw_else, kw_fi, kw_while,
  kw_do, kw_done, kw_for, kw_in, eof, same_text,
}

abbrev pub quote : ℕ
quote = 34

abbrev pub apostrophe : ℕ
apostrophe = 39

abbrev pub space : ℕ
space = 32

abbrev pub tab : ℕ
tab = 9

abbrev pub line_feed : ℕ
line_feed = 10

abbrev pub semicolon : ℕ
semicolon = 59

-- The keywords, in the order of the `match` of `flush_word`.
unfoldable pub keywords : List (Text × Token)
keywords =
    (b'i' ∷ b'f' ∷ [], kw_if)
    ∷ (b't' ∷ b'h' ∷ b'e' ∷ b'n' ∷ [], kw_then)
    ∷ (b'e' ∷ b'l' ∷ b'i' ∷ b'f' ∷ [], kw_elif)
    ∷ (b'e' ∷ b'l' ∷ b's' ∷ b'e' ∷ [], kw_else)
    ∷ (b'f' ∷ b'i' ∷ [], kw_fi)
    ∷ (b'w' ∷ b'h' ∷ b'i' ∷ b'l' ∷ b'e' ∷ [], kw_while)
    ∷ (b'd' ∷ b'o' ∷ [], kw_do)
    ∷ (b'd' ∷ b'o' ∷ b'n' ∷ b'e' ∷ [], kw_done)
    ∷ (b'f' ∷ b'o' ∷ b'r' ∷ [], kw_for)
    ∷ (b'i' ∷ b'n' ∷ [], kw_in)
    ∷ []

unfoldable pub token_of : List (Text × Token) → Text → Token
unfolding same_text
token_of [] s = word s
token_of ((name, t) ∷ rest) s = if same_text name s then t else token_of rest s

-- `flush_word`: the token of the buffer, if it holds anything, in front of what follows.
unfoldable pub flush_word : Text → Tokens → Tokens
unfolding keywords token_of
flush_word [] out = out
flush_word (c ∷ buf) out = token_of keywords (c ∷ buf) ∷ out

-- Where the loop stands: between quotes, in the inner loop, up to the closing one; or outside.
pub data Place : Type 0 where
  outside : Place
  within : ℕ → Place

-- The loops over the characters that are left, with the buffer. The tokens that the source pushes
-- onto `out` stand in front of those of the rest.
unfoldable pub tokens_from : Place → Text → Text → Tokens
unfolding flush_word
tokens_from place buf [] = flush_word buf (eof ∷ [])
tokens_from outside buf (c ∷ cs) =
    let fresh = tokens_from outside [] cs in
    let quoted = tokens_from (within c) buf cs in
    let longer = tokens_from outside (buf ++ c ∷ []) cs in
    if (c == space) || (c == tab)
    then flush_word buf fresh
    else if c == semicolon
    then flush_word buf (semi ∷ fresh)
    else if c == line_feed
    then flush_word buf (newline ∷ fresh)
    else if (c == quote) || (c == apostrophe)
    then quoted
    else longer
tokens_from (within q) buf (c ∷ cs) =
    let left = tokens_from outside buf cs in
    let longer = tokens_from (within q) (buf ++ c ∷ []) cs in if c == q then left else longer

unfoldable pub tokenize : Text → Tokens
unfolding tokens_from
tokenize input = tokens_from outside [] input

unfoldable pub contains : Text → ℕ → Bool
contains [] c = false
contains (d ∷ s) c = (d == c) || contains s c

-- One word of `join_simple`, in quotes if it holds a space or a tab.
unfoldable pub requote : Text → Text
unfolding contains
requote w = if contains w space || contains w tab then quote ∷ (w ++ quote ∷ []) else w

-- The words after the first one, each behind a space.
unfoldable pub join_rest : List Text → Text
unfolding requote
join_rest [] = []
join_rest (w ∷ ws) = space ∷ (requote w ++ join_rest ws)

unfoldable pub join_simple : List Text → Text
unfolding join_rest
join_simple [] = []
join_simple (w ∷ ws) = requote w ++ join_rest ws
