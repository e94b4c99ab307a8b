-- ===== src/PluginCli/Diff/Minimal.antt =====
-- packages/plugin-cli/src/plan.ts: the table of `diffLines` holds the lengths of the longest common
-- subsequences, and the walk keeps as many lines.
use appspine_packages.Base.{
  ℕ, suc, ◌+◌, ◌≤◌, max, ◌≡◌, refl, ap, ◌∙◌, Bool, true, false, List, [], ◌∷◌, map, arith,
  if◌then◌else◌, length, select, Text, same, same→eq, same_refl,
}
use appspine_packages.PluginCli.Diff.{
  DiffOp, add_line, remove_line, op, is_same, first_of, behind, first_row, drop, lcs_row, lcs_table,
  cell, walk, diff_lines,
}

-- Leaving out lines of the second list leaves the first.
unfoldable pub is_subsequence : List Text → List Text → Bool
is_subsequence [] ys = true
is_subsequence (x ∷ xs) [] = false
is_subsequence (x ∷ xs) (y ∷ ys) =
    let here = is_subsequence xs ys in
    let later = is_subsequence (x ∷ xs) ys in if same x y then here else later

-- The lines that a difference keeps.
unfoldable pub kept_lines : List DiffOp → List Text
kept_lines ops = map (λ o. o.line) (select is_same ops)

-- What a cell of the table should hold.
lcs : List Text → List Text → ℕ
lcs [] after = 0
lcs (line ∷ before) [] = 0
lcs (line ∷ before) (other ∷ after) =
    let both = lcs before after in
    let skip = lcs before (other ∷ after) in
    let wait = lcs (line ∷ before) after in if same line other then both + 1 else max skip wait

is_subsequence-behind :
    (x : Text) (xs ys : List Text) → is_subsequence (x ∷ xs) ys ≡ true → is_subsequence xs ys ≡ true
unfolding is_subsequence
is_subsequence-behind x [] ys h = refl
is_subsequence-behind x (z ∷ xs) [] h = cc
is_subsequence-behind x (z ∷ xs) (y ∷ ys) h =
    ground (arith, is_subsequence-behind x (z ∷ xs) ys, is_subsequence-behind z xs ys)

lcs-best :
    (s before after : List Text)
    → is_subsequence s before ≡ true
    → is_subsequence s after ≡ true
    → length s ≤ lcs before after
unfolding is_subsequence lcs
lcs-best [] before after h k = omega arith
lcs-best (x ∷ s) [] after h k = cc
lcs-best (x ∷ s) (line ∷ before) [] h k = cc
lcs-best (x ∷ s) (line ∷ before) (other ∷ after) h k = ground (
  arith,
  same→eq x line,
  same→eq x other,
  same_refl line,
  is_subsequence-behind x s before,
  is_subsequence-behind x s after,
  lcs-best s before after,
  lcs-best (x ∷ s) before (other ∷ after),
  lcs-best (x ∷ s) (line ∷ before) after,
)

-- A row of the table: the values for all suffixes of `after`.
values : List Text → List Text → List ℕ
values before [] = 0 ∷ []
values before (other ∷ after) = lcs before (other ∷ after) ∷ values before after

first-values : (before after : List Text) → first_of (values before after) ≡ lcs before after
unfolding values lcs
first-values [] [] = refl
first-values (line ∷ before) [] = refl
first-values before (other ∷ after) = refl

lcs_row-values :
    (line : Text) (before after : List Text)
    → lcs_row line after (values before after) ≡ values (line ∷ before) after
unfolding lcs_row values lcs
lcs_row-values line before [] = refl
lcs_row-values line before (other ∷ after) = ground (
  arith,
  lcs_row-values line before after,
  first-values before after,
  first-values (line ∷ before) after,
)

zeros-values : (after : List Text) → (0 ∷ map (λ line. 0) after) ≡ values [] after
unfolding values lcs
zeros-values [] = refl
zeros-values (other ∷ after) = ap (λ row. 0 ∷ row) (zeros-values after)

lcs_table-values :
    (before after : List Text) → first_row (lcs_table before after) ≡ values before after
unfolding lcs_table
lcs_table-values [] after = zeros-values after
lcs_table-values (line ∷ before) after =
    ap (lcs_row line after) (lcs_table-values before after) ∙ lcs_row-values line before after

-- The part of the table from `row` and `column` on is the one of the lines that are left.
record IsAt (table : List (List ℕ)) (full : List Text) (row column : ℕ) (before after : List Text)
    : Type 0 where
  rows : drop row table ≡ lcs_table before full
  columns : (lines : List Text) → drop column (values lines full) ≡ values lines after

IsAt-cell :
    {table : List (List ℕ)} {full : List Text} {row column : ℕ} {before after : List Text}
    → IsAt table full row column before after
    → cell table row column ≡ lcs before after
IsAt-cell {column = column} {before} {after} at_here =
    ap (λ t. first_of (drop column (first_row t))) at_here.rows
    ∙ (ap (λ r. first_of (drop column r)) (lcs_table-values before _)
        ∙ (ap first_of (at_here.columns before) ∙ first-values before after))

IsAt-down :
    {table : List (List ℕ)} {full : List Text} {row column : ℕ} {line : Text}
    {before after : List Text}
    → IsAt table full row column (line ∷ before) after
    → IsAt table full (suc row) column before after
unfolding lcs_table
IsAt-down at_here = record { rows = ap behind at_here.rows; columns = at_here.columns }

IsAt-right :
    {table : List (List ℕ)} {full : List Text} {row column : ℕ} {other : Text}
    {before after : List Text}
    → IsAt table full row column before (other ∷ after)
    → IsAt table full row (suc column) before after
unfolding values
IsAt-right at_here = record {
  rows = at_here.rows;
  columns = λ lines. ap behind (at_here.columns lines);
}

kept_lines-added : (after : List Text) → kept_lines (map (op add_line) after) ≡ []
unfolding kept_lines
kept_lines-added [] = refl
kept_lines-added (line ∷ after) = kept_lines-added after

kept_lines-removed : (before : List Text) → kept_lines (map (op remove_line) before) ≡ []
unfolding kept_lines
kept_lines-removed [] = refl
kept_lines-removed (line ∷ before) = kept_lines-removed before

length-walk :
    (table : List (List ℕ)) (full : List Text) (row column : ℕ) (before after : List Text)
    → IsAt table full row column before after
    → length (kept_lines (walk table row column before after)) ≡ lcs before after
unfolding walk kept_lines lcs
length-walk table full row column [] after at_here = ap length (kept_lines-added after)
length-walk table full row column (line ∷ before) [] at_here =
    ap length (kept_lines-removed (line ∷ before))
length-walk table full row column (line ∷ before) (other ∷ after) at_here =
    let down = IsAt-down at_here in
    let right = IsAt-right at_here in
    ground (
      arith,
      IsAt-cell down,
      IsAt-cell right,
      length-walk table full (suc row) (suc column) before after (IsAt-down right),
      length-walk table full (suc row) column before (other ∷ after) down,
      length-walk table full row (suc column) (line ∷ before) after right,
    )

is_subsequence-later :
    (s ys : List Text) (y : Text) → is_subsequence s ys ≡ true → is_subsequence s (y ∷ ys) ≡ true
unfolding is_subsequence
is_subsequence-later [] ys y h = refl
is_subsequence-later (x ∷ s) ys y h = ground (arith, is_subsequence-behind x s ys)

empty_subsequence : (ys : List Text) → is_subsequence [] ys ≡ true
unfolding is_subsequence
empty_subsequence ys = refl

walk-old_subsequence :
    (table : List (List ℕ)) (row column : ℕ) (before after : List Text)
    → is_subsequence (kept_lines (walk table row column before after)) before ≡ true
unfolding walk kept_lines is_subsequence
walk-old_subsequence table row column [] after = rw (kept_lines-added after) refl
walk-old_subsequence table row column (line ∷ before) [] =
    rw (kept_lines-removed (line ∷ before)) refl
walk-old_subsequence table row column (line ∷ before) (other ∷ after) = ground (
  arith,
  same_refl line,
  walk-old_subsequence table (suc row) (suc column) before after,
  is_subsequence-later (kept_lines (walk table (suc row) column before (other ∷ after))) before line
      (walk-old_subsequence table (suc row) column before (other ∷ after)),
  walk-old_subsequence table row (suc column) (line ∷ before) after,
)

walk-new_subsequence :
    (table : List (List ℕ)) (row column : ℕ) (before after : List Text)
    → is_subsequence (kept_lines (walk table row column before after)) after ≡ true
unfolding walk kept_lines is_subsequence
walk-new_subsequence table row column [] after = rw (kept_lines-added after) refl
walk-new_subsequence table row column (line ∷ before) [] =
    rw (kept_lines-removed (line ∷ before)) refl
walk-new_subsequence table row column (line ∷ before) (other ∷ after) = ground (
  arith,
  walk-new_subsequence table (suc row) (suc column) before after,
  walk-new_subsequence table (suc row) column before (other ∷ after),
  is_subsequence-later (kept_lines (walk table row (suc column) (line ∷ before) after)) after other
      (walk-new_subsequence table row (suc column) (line ∷ before) after),
)

-- The lines that the difference keeps are a common subsequence of both files, and no common
-- subsequence is longer.
pub diff_lines_minimal :
    (before after s : List Text)
    → is_subsequence s before ≡ true
    → is_subsequence s after ≡ true
    → (is_subsequence (kept_lines (diff_lines before after)) before ≡ true)
      × (is_subsequence (kept_lines (diff_lines before after)) after ≡ true)
      × (length s ≤ length (kept_lines (diff_lines before after)))
unfolding diff_lines
diff_lines_minimal before after s h k =
    let table = lcs_table before after in
    (
      walk-old_subsequence table 0 0 before after,
      walk-new_subsequence table 0 0 before after,
      rw
          (length-walk table after 0 0 before after
            (record { rows = refl; columns = λ lines. refl }))
          (lcs-best s before after h k),
    )
