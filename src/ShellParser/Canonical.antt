-- ===== src/ShellParser/Canonical.antt =====
-- The command trees that a parser can build: no command without words, no sequence of fewer than
-- two commands or inside another one, and no `if` without a branch.
use rustos.Prelude.{Bool, true, false, ◌&&◌, [], ◌∷◌}
use rustos.ShellParser.Syntax.{
  Cmd, Cmds, Branches, Else, simple, sequence, if_then, while_do, for_in, no_cmds, one_more,
  no_branches, branch, no_else, else_do,
}

unfoldable mutual
  -- What `parse_item` can build.
  pub is_item : Cmd → Bool
  is_item (simple []) = false
  is_item (simple (w ∷ ws)) = true
  is_item (sequence cs) = false
  is_item (if_then no_branches otherwise) = false
  is_item (if_then (branch condition body bs) otherwise) =
      is_body condition && (is_body body && (are_branches bs && is_else otherwise))
  is_item (while_do condition body) = is_body condition && is_body body
  is_item (for_in variable items body) = is_body body

  -- What `parse_list` can build.
  pub is_body : Cmd → Bool
  is_body (simple []) = false
  is_body (simple (w ∷ ws)) = true
  is_body (sequence (one_more c (one_more d cs))) = is_item c && (is_item d && are_items cs)
  is_body (sequence _) = false
  is_body (if_then no_branches otherwise) = false
  is_body (if_then (branch condition body bs) otherwise) =
      is_body condition && (is_body body && (are_branches bs && is_else otherwise))
  is_body (while_do condition body) = is_body condition && is_body body
  is_body (for_in variable items body) = is_body body

  pub are_items : Cmds → Bool
  are_items no_cmds = true
  are_items (one_more c cs) = is_item c && are_items cs

  pub are_branches : Branches → Bool
  are_branches no_branches = true
  are_branches (branch condition body bs) = is_body condition && (is_body body && are_branches bs)

  pub is_else : Else → Bool
  is_else no_else = true
  is_else (else_do body) = is_body body
