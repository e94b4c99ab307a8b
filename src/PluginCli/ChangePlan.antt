-- ===== src/PluginCli/ChangePlan.antt =====
-- packages/plugin-cli/src/plan.ts: change plans, how they are shown and how they are applied.
pub mod Faithful
use appspine_packages.Base.{
  ℕ, zero, suc, ◌+◌, ◌-◌, Bool, true, false, ◌&&◌, not, Option, none, some, List, [], ◌∷◌, ◌++◌,
  map, flat_map, if◌then◌else◌, leb, ltb, ◌==◌, any, is_empty, select, length, Text, text, same,
  split_on, join, Dict, put,
}
use appspine_packages.PluginApi.Diagnostics.{PluginDiagnostic}
use appspine_packages.PluginCli.Diff.{DiffOp, OpKind, is_same, diff_lines}

pub record FileChange : Type 0 where
  pub file : Text
  pub before : Option Text
  pub after : Text

pub record ChangePlan : Type 0 where
  pub summary : Text
  pub changes : List FileChange
  pub diagnostics : List PluginDiagnostic

-- `change.before !== change.after`
unfoldable pub differs : FileChange → Bool
differs change = elim change.before [ none ↦ true | some old ↦ not (same old change.after) ]

-- `applyPlan`, on the files below the App's root: the list of the files written, and the files.
unfoldable pub apply_plan : List FileChange → Dict Text → List Text × Dict Text
apply_plan [] files = ([], files)
apply_plan (change ∷ rest) files =
    let (written, left) = apply_plan rest (put change.file change.after files) in
    let skipped = apply_plan rest files in
    if differs change then (change.file ∷ written, left) else skipped

-- The indices of the operations that change a line.
unfoldable pub interesting : ℕ → List DiffOp → List ℕ
interesting index [] = []
interesting index (op ∷ ops) =
    let rest = interesting (suc index) ops in if is_same op then rest else index ∷ rest

-- The loop over `offset`, from `-context` on: `steps` of them are left, and `at` is
-- `index + offset + context`.
offsets : ℕ → ℕ → ℕ → ℕ → List ℕ
offsets context total at zero = []
offsets context total at (suc steps) =
    let rest = offsets context total (suc at) steps in
    if leb context at && ltb (at - context) total then (at - context) ∷ rest else rest

unfoldable pub keep_from : ℕ → List DiffOp → List ℕ
unfolding offsets
keep_from context ops =
    flat_map (λ index. offsets context (length ops) index (context + context + 1))
      (interesting 0 ops)

sign : OpKind → Text
sign OpKind.same_line = text " "
sign OpKind.add_line = text "+"
sign OpKind.remove_line = text "-"

-- The loop that prints the operations that are kept; no `previous` is `-1` in the source.
print_ops : List ℕ → Option ℕ → ℕ → List DiffOp → List Text
print_ops keep previous index [] = []
print_ops keep previous index (op ∷ ops) =
    let skipped = print_ops keep previous (suc index) ops in
    let printed = (sign op.kind ++ op.line) ∷ print_ops keep (some index) (suc index) ops in
    if any (λ at. at == index) keep
    then (elim previous [
      | none ↦ printed
      | some last ↦ if ltb (last + 1) index then text "@@" ∷ printed else printed
    ])
    else skipped

abbrev newline : ℕ
newline = 10

unfoldable pub lines_before : FileChange → List Text
lines_before change = elim change.before [ none ↦ [] | some old ↦ split_on newline old ]

unfoldable pub lines_after : FileChange → List Text
lines_after change = split_on newline change.after

-- The text of a difference: none if no operation is interesting.
unfoldable pub print_diff : Text → List ℕ → List Text → Text
print_diff file [] printed = []
print_diff file (_ ∷ _) printed =
    join (newline ∷ []) ((text "--- a/" ++ file) ∷ (text "+++ b/" ++ file) ∷ printed)

-- `renderDiff`
unfoldable pub render_diff : FileChange → ℕ → Text
unfolding sign print_ops
render_diff change context =
    let ops = diff_lines (lines_before change) (lines_after change) in
    print_diff change.file (interesting 0 ops) (print_ops (keep_from context ops) none 0 ops)

unfoldable pub sections : List FileChange → List Text
sections changes =
    select (λ section. not (is_empty section))
      (map (λ change. render_diff change 3) (select differs changes))

unfoldable pub render_plan : ChangePlan → Text
render_plan plan =
    let shown = sections plan.changes in
    if is_empty shown then text "no changes" else join (newline ∷ []) shown
