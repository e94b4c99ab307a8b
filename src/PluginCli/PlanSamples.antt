-- ===== src/PluginCli/PlanSamples.antt =====
-- A plan of two changes, one of which changes nothing.
use appspine_packages.Base.{
  ◌≤◌, ◌≡◌, refl, true, false, Distinct, Option, none, some, List, [], ◌∷◌, select, length, Text,
  text, same, split_on, join, say, includes, get, Dict, String,
}
use appspine_packages.PluginCli.Lockfile.{PluginLockfile}
use appspine_packages.PluginCli.Diff.{lcs_row, lcs_table, walk, diff_lines}
use appspine_packages.PluginCli.Diff.Replay.{old_lines, new_lines, diff_lines_replay}
use appspine_packages.PluginCli.Diff.Minimal.{is_subsequence, kept_lines, diff_lines_minimal}
use appspine_packages.PluginCli.ChangePlan.{
  FileChange, ChangePlan, differs, apply_plan, interesting, keep_from, print_diff, lines_before,
  lines_after, sections, render_diff, render_plan,
}
use appspine_packages.PluginCli.ChangePlan.Faithful.{shows, files_of, Fresh, Holds, apply_plan_lem}

abbrev old_file : List Text
old_file = text "a" ∷ text "b" ∷ text "c" ∷ []

abbrev new_file : List Text
new_file = text "b" ∷ text "x" ∷ text "c" ∷ []

abbrev both_have : List Text
both_have = text "b" ∷ text "c" ∷ []

diff_lines_replay_example :
    (old_lines (diff_lines old_file new_file) ≡ old_file)
    × (new_lines (diff_lines old_file new_file) ≡ new_file)
diff_lines_replay_example = diff_lines_replay old_file new_file

in_old : is_subsequence both_have old_file ≡ true
unfolding is_subsequence same text
in_old = refl

in_new : is_subsequence both_have new_file ≡ true
unfolding is_subsequence same text
in_new = refl

kept_test : kept_lines (diff_lines old_file new_file) ≡ both_have
unfolding kept_lines diff_lines lcs_table lcs_row walk same text
kept_test = refl

diff_lines_minimal_example :
    (is_subsequence (kept_lines (diff_lines old_file new_file)) old_file ≡ true)
    × (is_subsequence (kept_lines (diff_lines old_file new_file)) new_file ≡ true)
    × (2 ≤ length (kept_lines (diff_lines old_file new_file)))
diff_lines_minimal_example = diff_lines_minimal old_file new_file both_have in_old in_new

abbrev change : String → Option Text → String → FileChange
change file before after = record { file = text file; before = before; after = text after }

abbrev changes : List FileChange
changes = change "a.json" (some (text "1")) "2" ∷ change "b.json" (some (text "3")) "3" ∷ []

abbrev files : Dict Text
files = (text "a.json", text "1") ∷ (text "b.json", text "3") ∷ []

abbrev plan : ChangePlan
plan = record { summary = text "one file"; changes = changes; diagnostics = [] }

abbrev lf : Text
lf = 10 ∷ []

render_plan_test :
    render_plan plan
    ≡ say (text "--- a/a.json" ∷ lf ∷ text "+++ b/a.json" ∷ lf ∷ text "-1" ∷ lf ∷ text "+2" ∷ [])
unfolding render_plan sections differs render_diff print_diff interesting keep_from lines_before
    lines_after diff_lines lcs_table lcs_row walk same text split_on join say
render_plan_test = refl

fresh : Fresh files changes
unfolding get same text
fresh = (refl, (refl, tt))

different : Distinct (files_of changes)
unfolding includes same text
different = (refl, (refl, tt))

elsewhere : includes (files_of changes) (text "c.json") ≡ false
unfolding includes same text
elsewhere = refl

apply_plan_lem_example :
    ((apply_plan changes files).0 ≡ files_of (select shows changes))
    × (length (sections changes) ≡ length (apply_plan changes files).0)
    × Holds changes (apply_plan changes files).1
    × (get (text "c.json") (apply_plan changes files).1 ≡ get (text "c.json") files)
apply_plan_lem_example = apply_plan_lem changes files (text "c.json") different fresh elsewhere

abbrev locked : PluginLockfile
locked = record {
  resolution_digest = text "sha256:00";
  packages =
      record {
        name = text "mail";
        version = text "1.0.0";
        manifest_digest = text "sha256:01";
        schema_digest = none;
      }
      ∷ [];
  artifacts = [];
}
