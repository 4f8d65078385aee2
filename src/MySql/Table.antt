-- ===== src/MySql/Table.antt =====
-- `ShowQueryDetails`: a result as a table of text. The widths come from the names and the first
-- row.
use amsserver.Base.{
  ◌∷◌, [], none, some, done, crash, ℕ, Option, Bytes, List, ◌%◌, codes, length, if◌then◌else◌, ◌++◌,
  Outcome, ltb, replicate, ◌-◌, overrun, take,
}
use amsserver.MySql.Client.{ResultSet}

-- `columnlen` and `fd` have this many elements.
abbrev pub column_limit : ℕ
column_limit = 20

abbrev pub to_uchar : ℕ → ℕ
to_uchar n = n % 256

-- What printf shows for a cell, and what mysql_fetch_lengths gives for it.
unfoldable pub cell_text : Option Bytes → Bytes
cell_text none = codes "(null)"
cell_text (some t) = t

unfoldable pub cell_length : Option Bytes → ℕ
cell_length none = 0
cell_length (some t) = length t

-- One element of `columnlen`, for a name and a cell of the first row.
unfoldable pub column_width : Bytes → Option Bytes → ℕ
unfolding cell_length
column_width name cell =
    if ltb (to_uchar (cell_length cell)) (length name)
    then to_uchar (length name)
    else to_uchar (cell_length cell)

-- A row of a result has a cell for each name.
unfoldable pub column_widths : List Bytes → List (Option Bytes) → List ℕ
unfolding column_width
column_widths [] cells = []
column_widths (n ∷ names) [] = column_width n none ∷ column_widths names []
column_widths (n ∷ names) (c ∷ cells) = column_width n c ∷ column_widths names cells

unfoldable pub rule : List ℕ → Bytes
rule [] = codes "+\n"
rule (w ∷ widths) = codes "+-" ++ (replicate w b'-' ++ b'-' ∷ rule widths)

-- `| %s ` and blanks up to the width.
unfoldable pub field : ℕ → ℕ → Bytes → Bytes
field width size text = codes "| " ++ (text ++ b' ' ∷ replicate (width - size) b' ')

unfoldable pub name_line : List ℕ → List Bytes → Bytes
unfolding field
name_line (w ∷ widths) (n ∷ names) = field w (length n) n ++ name_line widths names
name_line _ _ = codes "|\n"

unfoldable pub row_line : List ℕ → List (Option Bytes) → Bytes
unfolding field cell_text cell_length
row_line (w ∷ widths) (c ∷ cells) = field w (cell_length c) (cell_text c) ++ row_line widths cells
row_line _ _ = codes "|\n"

unfoldable pub row_lines : List ℕ → List (List (Option Bytes)) → Bytes
unfolding rule row_line
row_lines widths [] = rule widths ++ codes "\n"
row_lines widths (r ∷ rows) = rule widths ++ (row_line widths r ++ row_lines widths rows)

unfoldable pub show_rows : List Bytes → List (List (Option Bytes)) → Outcome Bytes
unfolding row_lines rule name_line column_widths
show_rows names [] = done (codes "\n")
show_rows names (r ∷ rows) =
    if ltb column_limit (to_uchar (length names))
    then crash overrun
    else done (
        codes "\n"
        ++ (rule (column_widths names r)
            ++ (name_line (column_widths names r) names
                ++ row_lines (column_widths names r) (r ∷ rows))))

-- What is printed. From 256 columns on the count wraps, and fewer columns are shown.
unfoldable pub show_query_details : ℕ → ResultSet → Outcome Bytes
unfolding show_rows
show_query_details level result =
    if ltb level 1
    then done []
    else show_rows (take (to_uchar (length result.names)) result.names) result.rows
