-- ===== src/ShellParser/Syntax.antt =====
-- src/shell_parser.rs, `Token` and `Cmd`. A text is a list of characters, given by their codes.
use rustos.Prelude.{ℕ, Bool, true, false, ◌&&◌, List, [], ◌∷◌, ◌==◌}

abbrev pub Text : Type 0
Text = List ℕ

pub data Token : Type 0 where
  word : Text → Token
  semi newline kw_if kw_then kw_elif kw_else kw_fi kw_while kw_do kw_done kw_for kw_in eof : Token

abbrev pub Tokens : Type 0
Tokens = List Token

-- The vectors of `Sequence` and of the branches, and the option of `else_branch`, are types of
-- their own.
mutual
  pub data Cmd : Type 0 where
    simple : List Text → Cmd
    sequence : Cmds → Cmd
    if_then : Branches → Else → Cmd
    while_do : Cmd → Cmd → Cmd
    for_in : Text → List Text → Cmd → Cmd

  pub data Cmds : Type 0 where
    no_cmds : Cmds
    one_more : Cmd → Cmds → Cmds

  pub data Branches : Type 0 where
    no_branches : Branches
    branch : Cmd → Cmd → Branches → Branches

  pub data Else : Type 0 where
    no_else : Else
    else_do : Cmd → Else

unfoldable pub same_text : Text → Text → Bool
same_text [] [] = true
same_text (a ∷ s) (b ∷ t) = (a == b) && same_text s t
same_text _ _ = false

-- The equality of tokens that `derive` gives.
unfoldable pub same : Token → Token → Bool
unfolding same_text
same (word s) (word t) = same_text s t
same semi semi = true
same newline newline = true
same kw_if kw_if = true
same kw_then kw_then = true
same kw_elif kw_elif = true
same kw_else kw_else = true
same kw_fi kw_fi = true
same kw_while kw_while = true
same kw_do kw_do = true
same kw_done kw_done = true
same kw_for kw_for = true
same kw_in kw_in = true
same eof eof = true
same _ _ = false
