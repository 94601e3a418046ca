-- ===== src/ShellParser/Join.antt =====
-- The words that `join_simple` puts into one text are those that `tokenize` finds in it.
use rustos.Prelude.{
  ℕ, ◌≡◌, refl, Bool, true, false, not, ◌||◌, List, [], ◌∷◌, ◌++◌, ◌==◌, if◌then◌else◌, Bool-cases,
  inl, inr,
}
use mathlib.Core.List.{append_assoc, append-nil}
use rustos.ShellParser.Syntax.{Text, Tokens, word, eof}
use rustos.ShellParser.Tokenizer.{
  keywords, token_of, flush_word, outside, within, tokens_from, tokenize, contains, requote,
  join_rest, join_simple, quote, apostrophe, space, tab, line_feed, semicolon,
}
use rustos.ShellParser.Print.{words}

-- A character that stands for itself outside quotes.
abbrev is_plain : ℕ → Bool
is_plain c =
    if (c == space) || (c == tab)
    then false
    else if c == semicolon
    then false
    else if c == line_feed
    then false
    else not ((c == quote) || (c == apostrophe))

abbrev all_plain : Text → Bool
all_plain [] = true
all_plain (c ∷ s) = if is_plain c then all_plain s else false

-- A word in quotes may hold any character but the quote.
unfoldable pub readable : Text → Bool
unfolding contains
readable w = if contains w space || contains w tab then not (contains w quote) else all_plain w

-- A word that `join_simple` does not change: not empty, no keyword, and readable.
abbrev IsWord : Text → Type 0
IsWord [] = ⊥
IsWord (c ∷ s) = (readable (c ∷ s) ≡ true) × (token_of keywords (c ∷ s) ≡ word (c ∷ s))

abbrev AreWords : List Text → Type 0
AreWords [] = Unit {0}
AreWords (w ∷ ws) = IsWord w × AreWords ws

plain_char :
    (c : ℕ) (buf cs : Text)
    → is_plain c ≡ true
    → tokens_from outside buf (c ∷ cs) ≡ tokens_from outside (buf ++ c ∷ []) cs
unfolding tokens_from
plain_char c buf cs h = elim (Bool-cases ((c == space) || (c == tab))) [
  | inl a ↦ absurd (cc)
  | inr a ↦ elim (Bool-cases (c == semicolon)) [
    | inl b ↦ absurd (cc)
    | inr b ↦ elim (Bool-cases (c == line_feed)) [
      | inl d ↦ absurd (cc)
      | inr d ↦ elim (Bool-cases ((c == quote) || (c == apostrophe))) [
        | inl e ↦ absurd (cc)
        | inr e ↦ rw (a, b, d, e)
      ]
    ]
  ]
]

if_true : (b : Bool) {x : Bool} → (if b then x else false) ≡ true → (b ≡ true) × (x ≡ true)
if_true true h = (refl, h)
if_true false h = cc

or_false : (a b : Bool) → a || b ≡ false → (a ≡ false) × (b ≡ false)
or_false true b h = cc
or_false false b h = (refl, h)

tokens_from-plain :
    (w buf rest : Text)
    → all_plain w ≡ true
    → tokens_from outside buf (w ++ rest) ≡ tokens_from outside (buf ++ w) rest
tokens_from-plain [] buf rest h = rw (append-nil buf)
tokens_from-plain (c ∷ w) buf rest h =
    let p : (is_plain c ≡ true) × (all_plain w ≡ true) = if_true (is_plain c) h in
    rw (
      plain_char c buf (w ++ rest) p.0,
      tokens_from-plain w (buf ++ c ∷ []) rest p.1,
      append_assoc buf (c ∷ []) w,
    )

tokens_from-quoted :
    (w buf rest : Text)
    → contains w quote ≡ false
    → tokens_from (within quote) buf (w ++ quote ∷ rest) ≡ tokens_from outside (buf ++ w) rest
unfolding tokens_from contains
tokens_from-quoted [] buf rest h = rw (append-nil buf)
tokens_from-quoted (c ∷ w) buf rest h =
    let p : (c == quote ≡ false) × (contains w quote ≡ false) =
      or_false (c == quote) (contains w quote) h in
    rw (p.0, tokens_from-quoted w (buf ++ c ∷ []) rest p.1, append_assoc buf (c ∷ []) w)

quoted_word :
    (w rest : Text)
    → contains w quote ≡ false
    → tokens_from outside [] (quote ∷ ((w ++ quote ∷ []) ++ rest)) ≡ tokens_from outside w rest
unfolding tokens_from
quoted_word w rest h = rw (append_assoc w (quote ∷ []) rest, tokens_from-quoted w [] rest h)

if_not : (b q p : Bool) → (if b then not q else p) ≡ true → b ≡ true → q ≡ false
if_not true true p h e = cc
if_not true false p h e = refl
if_not false q p h e = cc

if_plain : (b q p : Bool) → (if b then q else p) ≡ true → b ≡ false → p ≡ true
if_plain true q p h e = cc
if_plain false q p h e = h

tokens_from-requote :
    (w rest : Text)
    → readable w ≡ true
    → tokens_from outside [] (requote w ++ rest) ≡ tokens_from outside w rest
unfolding readable requote
tokens_from-requote w rest h =
    let spaced = contains w space || contains w tab in
    elim (Bool-cases spaced) [
      | inl e ↦ rw e (quoted_word w rest (if_not spaced (contains w quote) (all_plain w) h e))
      | inr e ↦
          rw e (
            tokens_from-plain w [] rest
              (if_plain spaced (not (contains w quote)) (all_plain w) h e))
    ]

IsWord-readable : (w : Text) → IsWord w → readable w ≡ true
IsWord-readable [] h = elim h [ ]
IsWord-readable (c ∷ w) h = h.0

flush_word-IsWord : (w : Text) (ts : Tokens) → IsWord w → flush_word w ts ≡ word w ∷ ts
unfolding flush_word
flush_word-IsWord [] ts h = elim h [ ]
flush_word-IsWord (c ∷ w) ts h = rw h.1

tokens_from-join_rest :
    (w : Text) (ws : List Text)
    → IsWord w
    → AreWords ws
    → tokens_from outside w (join_rest ws) ≡ words (w ∷ ws) (eof ∷ [])
unfolding tokens_from join_rest
tokens_from-join_rest w [] h hs = flush_word-IsWord w (eof ∷ []) h
tokens_from-join_rest w (v ∷ ws) h hs = rw (
  flush_word-IsWord w (tokens_from outside [] (requote v ++ join_rest ws)) h,
  tokens_from-requote v (join_rest ws) (IsWord-readable v hs.0),
  tokens_from-join_rest v ws hs.0 hs.1,
)

-- The tokens of the text that `join_simple` makes of words are these words and `eof`, if no word
-- is empty or a keyword, a word with a space or a tab in it holds no quote, and any other word
-- neither a quote, an apostrophe, a semicolon nor a line feed.
pub tokenize-join_simple :
    (ws : List Text) → AreWords ws → tokenize (join_simple ws) ≡ words ws (eof ∷ [])
unfolding tokenize join_simple
tokenize-join_simple [] hs = refl
tokenize-join_simple (w ∷ ws) hs = rw (
  tokens_from-requote w (join_rest ws) (IsWord-readable w hs.0),
  tokens_from-join_rest w ws hs.0 hs.1,
)
