-- ===== src/PluginCli/Diff.antt =====
-- packages/plugin-cli/src/plan.ts: `diffLines`, the line-based difference of two files.
pub mod Replay
pub mod Minimal
use appspine_packages.Base.{
  ℕ, zero, suc, ◌+◌, max, Bool, true, false, not, List, [], ◌∷◌, map, flat_map, if◌then◌else◌, leb,
  length, select, Text, same,
}

pub data OpKind : Type 0 where
  same_line add_line remove_line : OpKind

pub record DiffOp : Type 0 where
  pub kind : OpKind
  pub line : Text

abbrev pub is_same : DiffOp → Bool
is_same op = elim op.kind [ same_line ↦ true | _ ↦ false ]

-- `list[0]` and `list.slice(1)` of a row of numbers; a row is never read past its end.
abbrev pub first_of : List ℕ → ℕ
first_of [] = 0
first_of (n ∷ row) = n

abbrev pub behind {ℓ} : {A : Type ℓ} → List A → List A
behind [] = []
behind (n ∷ row) = row

abbrev pub first_row : List (List ℕ) → List ℕ
first_row [] = []
first_row (row ∷ rows) = row

-- The inner loop for one line of `before`, from the last column to the first: `below` is
-- `lcs[row + 1]`.
unfoldable pub lcs_row : Text → List Text → List ℕ → List ℕ
lcs_row line [] below = 0 ∷ []
lcs_row line (other ∷ after) below =
    let rest = lcs_row line after (behind below) in
    (if same line other then first_of (behind below) + 1 else max (first_of below) (first_of rest))
    ∷ rest

-- The outer loop, from the last row to the first.
unfoldable pub lcs_table : List Text → List Text → List (List ℕ)
lcs_table [] after = (0 ∷ map (λ line. 0) after) ∷ []
lcs_table (line ∷ before) after =
    let below = lcs_table before after in lcs_row line after (first_row below) ∷ below

abbrev pub drop {ℓ} : {A : Type ℓ} → ℕ → List A → List A
drop zero xs = xs
drop (suc n) xs = behind (drop n xs)

-- `lcs[row][column]`
abbrev pub cell : List (List ℕ) → ℕ → ℕ → ℕ
cell table row column = first_of (drop column (first_row (drop row table)))

abbrev pub op : OpKind → Text → DiffOp
op kind line = record { kind = kind; line = line }

-- The three loops that read the table; `before` and `after` are the lines from `row` and from
-- `column` on.
unfoldable pub walk : List (List ℕ) → ℕ → ℕ → List Text → List Text → List DiffOp
walk table row column [] after = map (op add_line) after
walk table row column (line ∷ before) [] = map (op remove_line) (line ∷ before)
walk table row column (line ∷ before) (other ∷ after) = elim (same line other) [
  | true ↦ op same_line line ∷ walk table (suc row) (suc column) before after
  | false ↦ elim (leb (cell table row (suc column)) (cell table (suc row) column)) [
    | true ↦ op remove_line line ∷ walk table (suc row) column before (other ∷ after)
    | false ↦ op add_line other ∷ walk table row (suc column) (line ∷ before) after
  ]
]

unfoldable pub diff_lines : List Text → List Text → List DiffOp
unfolding lcs_table lcs_row walk
diff_lines before after = walk (lcs_table before after) 0 0 before after
