-- ===== src/PluginCli/ChangePlan/Faithful.antt =====
-- packages/plugin-cli/src/plan.ts: a plan is applied as it is shown.
use appspine_packages.Base.{
  ℕ, suc, ◌≡◌, refl, sym, ap, subst, ◌∙◌, inl, inr, Bool, true, false, not, some, List, [], ◌∷◌,
  map, arith, if◌then◌else◌, all, All, is_empty, select, length, Text, text, same, same_refl,
  same→eq, same_comm, split_on, join, join-split_on, split_on-is_empty, Dict, get, put, get-put,
  includes, Distinct, Bool-cases, Option-cases,
}
use appspine_packages.PluginCli.Diff.{DiffOp, is_same, walk, diff_lines}
use appspine_packages.PluginCli.Diff.Replay.{old_lines, new_lines, diff_lines_replay}
use appspine_packages.PluginCli.ChangePlan.{
  FileChange, differs, apply_plan, interesting, lines_before, lines_after, render_diff, print_diff,
  sections,
}

interesting-all : (n : ℕ) (ops : List DiffOp) → is_empty (interesting n ops) ≡ all is_same ops
unfolding interesting
interesting-all n [] = refl
interesting-all n (op ∷ ops) = ground (arith, interesting-all (suc n) ops)

-- If no line changes, the old file is the new one.
all_same-lines : (ops : List DiffOp) → all is_same ops ≡ true → old_lines ops ≡ new_lines ops
unfolding old_lines new_lines
all_same-lines [] h = refl
all_same-lines (op ∷ ops) h = ground (arith, all_same-lines ops)

all_same-walk :
    (table : List (List ℕ)) (row column : ℕ) (lines : List Text)
    → all is_same (walk table row column lines lines) ≡ true
unfolding walk
all_same-walk table row column [] = refl
all_same-walk table row column (line ∷ lines) =
    ground (arith, same_refl line, all_same-walk table (suc row) (suc column) lines)

print_diff-is_empty :
    (file : Text) (indices : List ℕ) (printed : List Text)
    → is_empty (print_diff file indices printed) ≡ is_empty indices
unfolding print_diff join text
print_diff-is_empty file [] printed = refl
print_diff-is_empty file (_ ∷ _) printed = refl

render_diff-is_empty :
    (change : FileChange) (context : ℕ)
    → is_empty (render_diff change context)
      ≡ all is_same (diff_lines (lines_before change) (lines_after change))
unfolding render_diff
render_diff-is_empty change context =
    print_diff-is_empty _ _ _
    ∙ interesting-all 0 (diff_lines (lines_before change) (lines_after change))

diff_lines-all_same :
    (before after : List Text) → all is_same (diff_lines before after) ≡ true → before ≡ after
diff_lines-all_same before after h =
    let (old, new) = diff_lines_replay before after in
    sym old ∙ (all_same-lines (diff_lines before after) h ∙ new)

all_same_refl : (lines : List Text) → all is_same (diff_lines lines lines) ≡ true
unfolding diff_lines
all_same_refl lines = all_same-walk _ 0 0 lines

none_same : (t : Text) → all is_same (diff_lines [] (split_on 10 t)) ≡ false
none_same t = elim (Bool-cases (all is_same (diff_lines [] (split_on 10 t)))) [
  | inr e ↦ e
  | inl e ↦ cc (ap is_empty (diff_lines-all_same [] (split_on 10 t) e), split_on-is_empty 10 t)
]

texts_agree :
    (old t : Text) → all is_same (diff_lines (split_on 10 old) (split_on 10 t)) ≡ same old t
texts_agree old t = elim (Bool-cases (same old t)) [
  | inl e ↦ rw (e, same→eq old t e) (all_same_refl (split_on 10 t))
  | inr e ↦ elim (Bool-cases (all is_same (diff_lines (split_on 10 old) (split_on 10 t)))) [
    | inr f ↦ rw (e, f) refl
    | inl f ↦
        let eq =
          sym (join-split_on 10 old)
          ∙ (ap (join (10 ∷ [])) (diff_lines-all_same (split_on 10 old) (split_on 10 t) f)
              ∙ join-split_on 10 t) in
        cc (ap (λ u. same u t) eq, same_refl t)
  ]
]

not-not : (b : Bool) → not (not b) ≡ b
not-not true = refl
not-not false = refl

all_same-differs :
    (change : FileChange)
    → all is_same (diff_lines (lines_before change) (lines_after change)) ≡ not (differs change)
unfolding differs lines_before lines_after
all_same-differs change = elim (Option-cases change.before) [
  | inl e ↦ rw e (none_same change.after)
  | inr (old, e) ↦ rw e (texts_agree old change.after ∙ sym (not-not _))
]

-- A change shows a difference exactly if there is one.
shows-differs :
    (context : ℕ) (change : FileChange)
    → not (is_empty (render_diff change context)) ≡ differs change
shows-differs context change =
    ap not (render_diff-is_empty change context ∙ all_same-differs change) ∙ not-not _

abbrev pub shows : FileChange → Bool
shows change = not (is_empty (render_diff change 3))

abbrev pub files_of : List FileChange → List Text
files_of changes = map (λ change. change.file) changes

written-shows :
    (changes : List FileChange) (files : Dict Text)
    → (apply_plan changes files).0 ≡ files_of (select shows changes)
unfolding apply_plan
written-shows [] files = refl
written-shows (change ∷ rest) files = ground (
  arith,
  shows-differs 3 change,
  written-shows rest files,
  written-shows rest (put change.file change.after files),
)

length-sections :
    (changes : List FileChange) (files : Dict Text)
    → length (sections changes) ≡ length (apply_plan changes files).0
unfolding sections apply_plan
length-sections [] files = refl
length-sections (change ∷ rest) files = ground (
  arith,
  shows-differs 3 change,
  length-sections rest files,
  length-sections rest (put change.file change.after files),
)

apply_plan-others :
    (changes : List FileChange) (files : Dict Text) (file : Text)
    → includes (files_of changes) file ≡ false
    → get file (apply_plan changes files).1 ≡ get file files
unfolding apply_plan includes
apply_plan-others [] files file h = refl
apply_plan-others (change ∷ rest) files file h = ground (
  arith,
  apply_plan-others rest files file,
  apply_plan-others rest (put change.file change.after files) file,
  get-put change.file file change.after files,
)

unchanged : (change : FileChange) → differs change ≡ false → change.before ≡ some change.after
unfolding differs
unchanged change h = elim (Option-cases change.before) [
  | inl e ↦ cc (rw e at h)
  | inr (old, e) ↦ e ∙ ap some (same→eq old change.after (sym (not-not _) ∙ ap not (rw e at h)))
]

-- The changes start from what the files hold.
abbrev pub Fresh : Dict Text → List FileChange → Type 0
Fresh files changes = All (λ change. get change.file files ≡ change.before) changes

Fresh-put :
    (file t : Text) (files : Dict Text) (rest : List FileChange)
    → includes (files_of rest) file ≡ false
    → Fresh files rest
    → Fresh (put file t files) rest
unfolding includes
Fresh-put file t files [] h fresh = tt
Fresh-put file t files (change ∷ rest) h (here, fresh) = (
  ground (arith, get-put file change.file t files, same_comm file change.file),
  Fresh-put file t files rest (ground arith) fresh,
)

-- The files after the first change.
step : FileChange → Dict Text → Dict Text
step change files = if differs change then put change.file change.after files else files

step-eq :
    (change : FileChange) (rest : List FileChange) (files : Dict Text)
    → (apply_plan (change ∷ rest) files).1 ≡ (apply_plan rest (step change files)).1
unfolding apply_plan step
step-eq change rest files = ground arith

get-step :
    (change : FileChange) (files : Dict Text)
    → get change.file files ≡ change.before
    → get change.file (step change files) ≡ some change.after
unfolding step
get-step change files here = ground (
  arith,
  unchanged change,
  get-put change.file change.file change.after files,
  same_refl change.file,
)

Fresh-step :
    (change : FileChange) (files : Dict Text) (rest : List FileChange)
    → includes (files_of rest) change.file ≡ false
    → Fresh files rest
    → Fresh (step change files) rest
unfolding step
Fresh-step change files rest new fresh = elim (Bool-cases (differs change)) [
  | inl e ↦ rw e (Fresh-put change.file change.after files rest new fresh)
  | inr e ↦ rw e fresh
]

-- Every file of the plan holds its new text.
abbrev pub Holds : List FileChange → Dict Text → Type 0
Holds changes files = All (λ change. get change.file files ≡ some change.after) changes

apply_plan-Holds :
    (changes : List FileChange) (files : Dict Text)
    → Distinct (files_of changes)
    → Fresh files changes
    → Holds changes (apply_plan changes files).1
apply_plan-Holds [] files d fresh = tt
apply_plan-Holds (change ∷ rest) files (new, d) (here, fresh) =
    let next = step change files in
    subst (Holds (change ∷ rest)) (sym (step-eq change rest files)) (
      apply_plan-others rest next change.file new ∙ get-step change files here,
      apply_plan-Holds rest next d (Fresh-step change files rest new fresh),
    )

-- A plan does what it shows. Its changes are for different files, each from what the file holds. The
-- files written are, in order, those of the changes whose difference prints something, and the plan
-- is shown with one section for each of them; afterwards every file of the plan holds its new text,
-- and a file that the plan does not name is as before.
pub apply_plan_lem :
    (changes : List FileChange) (files : Dict Text) (other : Text)
    → Distinct (files_of changes)
    → Fresh files changes
    → includes (files_of changes) other ≡ false
    → ((apply_plan changes files).0 ≡ files_of (select shows changes))
      × (length (sections changes) ≡ length (apply_plan changes files).0)
      × Holds changes (apply_plan changes files).1
      × (get other (apply_plan changes files).1 ≡ get other files)
apply_plan_lem changes files other d fresh h = (
  written-shows changes files,
  length-sections changes files,
  apply_plan-Holds changes files d fresh,
  apply_plan-others changes files other h,
)
