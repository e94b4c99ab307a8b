-- ===== src/PluginCli/Diff/Replay.antt =====
-- packages/plugin-cli/src/plan.ts: the difference of two files holds both of them.
use appspine_packages.Base.{
  suc, ◌≡◌, refl, Bool, true, false, not, List, [], ◌∷◌, map, arith, select, ℕ, Text, same→eq,
}
use appspine_packages.PluginCli.Diff.{add_line, remove_line, DiffOp, op, walk, diff_lines}

abbrev pub is_added : DiffOp → Bool
is_added o = elim o.kind [ add_line ↦ true | _ ↦ false ]

abbrev pub is_removed : DiffOp → Bool
is_removed o = elim o.kind [ remove_line ↦ true | _ ↦ false ]

-- The lines without a plus sign, and those without a minus sign.
unfoldable pub old_lines : List DiffOp → List Text
old_lines ops = map (λ o. o.line) (select (λ o. not (is_added o)) ops)

unfoldable pub new_lines : List DiffOp → List Text
new_lines ops = map (λ o. o.line) (select (λ o. not (is_removed o)) ops)

old_lines-added : (after : List Text) → old_lines (map (op add_line) after) ≡ []
unfolding old_lines
old_lines-added [] = refl
old_lines-added (line ∷ after) = old_lines-added after

new_lines-removed : (before : List Text) → new_lines (map (op remove_line) before) ≡ []
unfolding new_lines
new_lines-removed [] = refl
new_lines-removed (line ∷ before) = new_lines-removed before

old_lines-removed : (before : List Text) → old_lines (map (op remove_line) before) ≡ before
unfolding old_lines
old_lines-removed [] = refl
old_lines-removed (line ∷ before) = ground (arith, old_lines-removed before)

new_lines-added : (after : List Text) → new_lines (map (op add_line) after) ≡ after
unfolding new_lines
new_lines-added [] = refl
new_lines-added (line ∷ after) = ground (arith, new_lines-added after)

walk-old :
    (table : List (List ℕ)) (row column : ℕ) (before after : List Text)
    → old_lines (walk table row column before after) ≡ before
unfolding walk old_lines
walk-old table row column [] after = old_lines-added after
walk-old table row column (line ∷ before) [] = old_lines-removed (line ∷ before)
walk-old table row column (line ∷ before) (other ∷ after) = ground (
  arith,
  walk-old table (suc row) (suc column) before after,
  walk-old table (suc row) column before (other ∷ after),
  walk-old table row (suc column) (line ∷ before) after,
)

walk-new :
    (table : List (List ℕ)) (row column : ℕ) (before after : List Text)
    → new_lines (walk table row column before after) ≡ after
unfolding walk new_lines
walk-new table row column [] after = new_lines-added after
walk-new table row column (line ∷ before) [] = new_lines-removed (line ∷ before)
walk-new table row column (line ∷ before) (other ∷ after) = ground (
  arith,
  same→eq line other,
  walk-new table (suc row) (suc column) before after,
  walk-new table (suc row) column before (other ∷ after),
  walk-new table row (suc column) (line ∷ before) after,
)

-- The difference of two files holds both: its unchanged and removed lines are the old file, its
-- unchanged and added lines the new one.
pub diff_lines_replay :
    (before after : List Text)
    → (old_lines (diff_lines before after) ≡ before) × (new_lines (diff_lines before after) ≡ after)
unfolding diff_lines
diff_lines_replay before after = (walk-old _ 0 0 before after, walk-new _ 0 0 before after)
