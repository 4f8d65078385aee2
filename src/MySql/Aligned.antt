-- ===== src/MySql/Aligned.antt =====
-- How the lines of a printed result stand under each other.
use amsserver.MySql.Table.{field, row_line, name_line, column_widths, rule, column_width}
use amsserver.Base.{
  refl, ◌≡◌, ◌∷◌, [], some, List, ℕ, Bytes, Option, length, ◌≤◌, ◌<◌, arith, ◌+◌, length-append,
  replicate, ◌-◌, length-replicate, none,
}

-- Each cell has a text that is no longer than its column is wide.
abbrev pub Fits : List ℕ → List (Option Bytes) → Type 0
Fits [] [] = Unit {0}
Fits (w ∷ widths) (some t ∷ cells) = (length t ≤ w) × Fits widths cells
Fits _ _ = ⊥

-- The names and the cells of the first row are texts of fewer than 256 bytes.
abbrev pub AreShort : List Bytes → List (Option Bytes) → Type 0
AreShort [] [] = Unit {0}
AreShort (n ∷ names) (some t ∷ cells) = (length n < 256) × (length t < 256) × AreShort names cells
AreShort _ _ = ⊥

length-field :
    (width : ℕ) (t : Bytes) → length t ≤ width → length (field width (length t) t) ≡ width + 3
unfolding field
length-field width t h = ground (
  arith,
  length-append t (b' ' ∷ replicate (width - length t) b' '),
  length-replicate {A = ℕ} (width - length t) b' ',
)

length-row_line :
    (widths : List ℕ) (cells : List (Option Bytes))
    → Fits widths cells
    → length (row_line widths cells) ≡ length (rule widths)
unfolding row_line rule
length-row_line [] [] f = refl
length-row_line [] (_ ∷ cells) f = absurd f
length-row_line (_ ∷ _) [] f = absurd f
length-row_line (_ ∷ _) (none ∷ cells) f = absurd f
length-row_line (w ∷ widths) (some t ∷ cells) (h, f) = ground (
  arith,
  length-field w t h,
  length-append (field w (length t) t) (row_line widths cells),
  length-append (replicate w b'-') (b'-' ∷ rule widths),
  length-replicate {A = ℕ} w b'-',
  length-row_line widths cells f,
)

name-column_width :
    (n t : Bytes) → length n < 256 → length t < 256 → length n ≤ column_width n (some t)
unfolding column_width
name-column_width n t hn ht = ground arith

length-name_line :
    (names : List Bytes) (cells : List (Option Bytes))
    → AreShort names cells
    → length (name_line (column_widths names cells) names)
      ≡ length (rule (column_widths names cells))
unfolding name_line rule column_widths
length-name_line [] [] s = refl
length-name_line [] (_ ∷ cells) s = absurd s
length-name_line (_ ∷ _) [] s = absurd s
length-name_line (_ ∷ _) (none ∷ cells) s = absurd s
length-name_line (n ∷ names) (some t ∷ cells) (hn, ht, s) = ground (
  arith,
  length-field (column_width n (some t)) n (name-column_width n t hn ht),
  length-append (field (column_width n (some t)) (length n) n)
      (name_line (column_widths names cells) names),
  length-append (replicate (column_width n (some t)) b'-')
      (b'-' ∷ rule (column_widths names cells)),
  length-replicate {A = ℕ} (column_width n (some t)) b'-',
  length-name_line names cells s,
)

first_row-Fits :
    (names : List Bytes) (cells : List (Option Bytes))
    → AreShort names cells
    → Fits (column_widths names cells) cells
unfolding column_widths column_width
first_row-Fits [] [] s = tt
first_row-Fits [] (_ ∷ cells) s = absurd s
first_row-Fits (_ ∷ _) [] s = absurd s
first_row-Fits (_ ∷ _) (none ∷ cells) s = absurd s
first_row-Fits (n ∷ names) (some t ∷ cells) (hn, ht, s) =
    (ground arith, first_row-Fits names cells s)

-- The line of the names, the first row, and each row whose texts are no longer than the columns are
-- wide have the length of the rule between them, if the names and the texts of the first row have
-- fewer than 256 bytes and no cell is NULL.
pub lines-Aligned :
    (names : List Bytes) (first later : List (Option Bytes))
    → AreShort names first
    → Fits (column_widths names first) later
    → (length (name_line (column_widths names first) names)
        ≡ length (rule (column_widths names first)))
      × (length (row_line (column_widths names first) first)
          ≡ length (rule (column_widths names first)))
      × (length (row_line (column_widths names first) later)
          ≡ length (rule (column_widths names first)))
lines-Aligned names first later s f = (
  length-name_line names first s,
  length-row_line (column_widths names first) first (first_row-Fits names first s),
  length-row_line (column_widths names first) later f,
)
