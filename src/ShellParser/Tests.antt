-- ===== src/ShellParser/Tests.antt =====
-- Runs of the tokenizer and the parser at concrete inputs.
use rustos.Prelude.{◌≡◌, refl, List, [], ◌∷◌, true}
use rustos.ShellParser.Syntax.{
  Text, Cmd, word, eof, simple, if_then, while_do, branch, no_branches, else_do,
}
use rustos.ShellParser.Tokenizer.{tokenize, join_simple, keywords, token_of}
use rustos.ShellParser.Outcome.{ok, Ensures}
use rustos.ShellParser.Parser.{parse, parse_program, fuel_for}
use rustos.ShellParser.Canonical.{is_body}
use rustos.ShellParser.Print.{emit_program, words}
use rustos.ShellParser.Total.{parse-Ensures}
use rustos.ShellParser.RoundTrip.{parse_program-emit_program}
use rustos.ShellParser.Join.{tokenize-join_simple, readable}

-- if a;then b;else c;fi
parse_if_else :
    parse (
      b'i' ∷ b'f' ∷ b' ' ∷ b'a' ∷ b';' ∷ b't' ∷ b'h' ∷ b'e' ∷ b'n' ∷ b' ' ∷ b'b' ∷ b';' ∷ b'e'
      ∷ b'l' ∷ b's' ∷ b'e' ∷ b' ' ∷ b'c' ∷ b';' ∷ b'f' ∷ b'i' ∷ [])
    ≡ ok (
        if_then
          (branch (simple ((b'a' ∷ []) ∷ [])) (simple ((b'b' ∷ []) ∷ [])) no_branches)
          (else_do (simple ((b'c' ∷ []) ∷ []))))
unfolding parse
parse_if_else = refl

-- "a b"c 'd'
tokenize_quoted :
    tokenize (b'"' ∷ b'a' ∷ b' ' ∷ b'b' ∷ b'"' ∷ b'c' ∷ b' ' ∷ 39 ∷ b'd' ∷ 39 ∷ [])
    ≡ word (b'a' ∷ b' ' ∷ b'b' ∷ b'c' ∷ []) ∷ word (b'd' ∷ []) ∷ eof ∷ []
unfolding tokenize
tokenize_quoted = refl

-- while a;do b;done
abbrev loop : Cmd
loop = while_do (simple ((b'a' ∷ []) ∷ [])) (simple ((b'b' ∷ []) ∷ []))

parse_program-emit_program_example :
    parse_program (fuel_for (emit_program loop)) (emit_program loop) ≡ ok loop
unfolding is_body
parse_program-emit_program_example = parse_program-emit_program loop refl

-- echo 'a b'
abbrev two_words : List Text
two_words = (b'e' ∷ b'c' ∷ []) ∷ (b'a' ∷ b' ' ∷ b'b' ∷ []) ∷ []

tokenize-join_simple_example : tokenize (join_simple two_words) ≡ words two_words (eof ∷ [])
unfolding readable token_of keywords
tokenize-join_simple_example = tokenize-join_simple two_words ((refl, refl), ((refl, refl), tt))

parse-Ensures_example : Ensures (λ c. is_body c ≡ true) (parse (b'a' ∷ b' ' ∷ b'f' ∷ b'i' ∷ []))
parse-Ensures_example = parse-Ensures (b'a' ∷ b' ' ∷ b'f' ∷ b'i' ∷ [])
