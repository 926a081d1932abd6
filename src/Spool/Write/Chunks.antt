-- ===== src/Spool/Write/Chunks.antt =====
-- How `_write_projected` divides its rows: into groups of one target, and those into requests.
use mathlib.Core.List.{append_assoc, append-nil}
use azure_mysql_monitoring.Prelude.{
  if◌then◌else◌, Bool-cases, length, take, drop, All, ℕ, zero, suc, ◌-◌, ◌≤◌, ◌<◌, String, ◌≡◌,
  refl, sym, ap, ◌∙◌, inl, inr, List, [], ◌∷◌, ◌++◌, arith, ◌==◌, eq_iff,
}
use azure_mysql_monitoring.Plan.Document.{Value}
use azure_mysql_monitoring.Prelude.Dict.{Dict, lookup, get_or, lookup-insert}
use azure_mysql_monitoring.Spool.Codec.{Row}
use azure_mysql_monitoring.Spool.Write.{identity, group_rows, chunks, append_row, chunk_rounds}

-- The rows of a target, in order.
abbrev pub rows_of : (Value → String) → String → List Row → List Row
rows_of text_of name [] = []
rows_of text_of name (row ∷ rows) =
    if identity text_of row == name
    then row ∷ rows_of text_of name rows
    else rows_of text_of name rows

abbrev pub concat : List (List Row) → List Row
concat [] = []
concat (part ∷ parts) = part ++ concat parts

take-drop : (n : ℕ) (rows : List Row) → take n rows ++ drop n rows ≡ rows
take-drop zero rows = refl
take-drop (suc n) [] = refl
take-drop (suc n) (row ∷ rows) = ap (λ r. row ∷ r) (take-drop n rows)

length-drop : (n : ℕ) (rows : List Row) → length (drop n rows) ≡ length rows - n
length-drop zero rows = omega arith
length-drop (suc n) [] = omega arith
length-drop (suc n) (row ∷ rows) = omega (arith, length-drop n rows)

length-take : (n : ℕ) (rows : List Row) → length (take n rows) ≤ n
length-take zero rows = omega arith
length-take (suc n) [] = omega arith
length-take (suc n) (row ∷ rows) = omega (arith, length-take n rows)

module _ (n : ℕ) (positive : 0 < n) where
  chunk_rounds_lem :
      (fuel : ℕ) (rows : List Row)
      → length rows ≤ fuel
      → (concat (chunk_rounds fuel n rows) ≡ rows)
        × All (λ part. (0 < length part) × (length part ≤ n)) (chunk_rounds fuel n rows)
  unfolding chunk_rounds
  chunk_rounds_lem zero [] h = (refl, tt)
  chunk_rounds_lem zero (row ∷ rows) h = absurd (omega (arith, h))
  chunk_rounds_lem (suc fuel) [] h = (refl, tt)
  chunk_rounds_lem (suc fuel) (row ∷ rows) h =
      let rest = drop n (row ∷ rows) in
      let (whole, sized) =
        chunk_rounds_lem fuel rest (omega (arith, h, positive, length-drop n (row ∷ rows))) in
      (
        rw whole (take-drop n (row ∷ rows)),
        ((nonempty_take n positive, length-take n (row ∷ rows)), sized),
      )
    where
      nonempty_take : (m : ℕ) → 0 < m → 0 < length (take m (row ∷ rows))
      nonempty_take zero p = absurd (omega (arith, p))
      nonempty_take (suc m) p = omega arith

  -- The requests hold all rows in order, none of them empty and none longer than the limit.
  pub chunks_lem :
      (rows : List Row)
      → (concat (chunks n rows) ≡ rows)
        × All (λ part. (0 < length part) × (length part ≤ n)) (chunks n rows)
  unfolding chunks
  chunks_lem rows = chunk_rounds_lem (length rows) rows (omega arith)

append_row_lookup :
    (name other : String) (row : Row) (groups : Dict (List Row))
    → get_or other (append_row name row groups) []
      ≡ (if name == other then get_or other groups [] ++ (row ∷ []) else get_or other groups [])
unfolding append_row
append_row_lookup name other row groups = ground (
  arith,
  lookup-insert name other (get_or name groups [] ++ (row ∷ [])) groups,
  eq_iff name other,
)

group_rows_from :
    (text_of : Value → String) (name : String) (rows : List Row) (groups : Dict (List Row))
    → get_or name (group_rows text_of groups rows) []
      ≡ get_or name groups [] ++ rows_of text_of name rows
unfolding group_rows
group_rows_from text_of name [] groups = sym (append-nil (get_or name groups []))
group_rows_from text_of name (row ∷ rows) groups =
    group_rows_from text_of name rows (append_row (identity text_of row) row groups)
    ∙ (elim (Bool-cases (identity text_of row == name)) [
      | inl same ↦
          rw (append_row_lookup (identity text_of row) name row groups)
            (rw same (append_assoc (get_or name groups []) (row ∷ []) (rows_of text_of name rows)))
      | inr other ↦ rw (append_row_lookup (identity text_of row) name row groups) (rw other refl)
    ])

-- The group of a target holds the rows of that target, all of them and in their order.
pub group_rows_lem :
    (text_of : Value → String) (name : String) (rows : List Row)
    → get_or name (group_rows text_of [] rows) [] ≡ rows_of text_of name rows
unfolding lookup
group_rows_lem text_of name rows = group_rows_from text_of name rows []
