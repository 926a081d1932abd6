-- ===== src/Spool/Codec.antt =====
-- mysql-internal/collector/sinks/spool.py: a segment's text, one line for each row. A row is what
-- `json.dumps` takes, and `Codec` is what the json module does with it.
use mathlib.Core.List.{append_assoc, append-nil}
use azure_mysql_monitoring.Prelude.{
  if◌then◌else◌, ℕ, ◌+◌, String, ◌≡◌, Bool, not, ◌&&◌, ◌||◌, Option, none, some, List, [], ◌∷◌,
  ◌++◌, arith, ◌==◌, eq_refl, refl,
}
use azure_mysql_monitoring.Plan.Document.{Value}
use azure_mysql_monitoring.Plan.Group.{mapping}
use azure_mysql_monitoring.Prelude.Dict.{Dict}
use azure_mysql_monitoring.Prelude.Text.{is_blank}

abbrev pub Row : Type 0
Row = Dict Value

-- A line, decoded: `none` for a row that is no object.
pub record Entry : Type 0 where
  pub table : String
  pub mapping : String
  pub row : Option Row

pub record Codec (Line : Type 0) : Type 0 where
  -- the line of `{"table": table, "mapping": mapping, "row": row}`
  pub dumps : String → String → Row → Line
  -- `none` where `json.loads` raises, or a key is missing
  pub loads : Line → Option Entry
  -- the bytes of the line, its end included
  pub size : Line → ℕ

-- `if table and (record_table != table or record_mapping != mapping)`
mixes : String → String → Entry → Bool
mixes table mapping entry =
    not (is_blank table) && (not (entry.table == table) || not (entry.mapping == mapping))

abbrev nonempty : String × String × List Row → Option (String × String × List Row)
nonempty (table, mapping, []) = none
nonempty (table, mapping, row ∷ rows) = some (table, mapping, row ∷ rows)

module _ {Line : Type 0} (codec : Codec Line) where
  unfoldable pub encode : String → String → List Row → List Line
  encode table mapping [] = []
  encode table mapping (row ∷ rows) = codec.dumps table mapping row ∷ encode table mapping rows

  -- `sum(len(line.encode("utf-8")) for line in encoded)`
  unfoldable pub bytes : List Line → ℕ
  bytes [] = 0
  bytes (line ∷ lines) = codec.size line + bytes lines

  -- The loop over the lines, with what it has read.
  read_lines : String → String → List Row → List Line → Option (String × String × List Row)
  unfolding mixes
  read_lines table mapping rows [] = some (table, mapping, rows)
  read_lines table mapping rows (line ∷ lines) = elim (codec.loads line) [
    | none ↦ none
    | some entry ↦ elim entry.row [
      | none ↦ none
      | some row ↦
          let rest = read_lines entry.table entry.mapping (rows ++ (row ∷ [])) lines in
          if mixes table mapping entry then none else rest
    ]
  ]

  -- `_read_segment`: `none` is an exception.
  unfoldable pub read_segment : List Line → Option (String × String × List Row)
  unfolding read_lines
  read_segment lines = elim (read_lines "" "" [] lines) [ none ↦ none | some read ↦ nonempty read ]

  -- The json module gives back what it was given.
  pub record IsFaithful : Type 0 where
    pub loads-dumps :
        (table mapping : String) (row : Row)
        → codec.loads (codec.dumps table mapping row)
          ≡ some (record { table = table; mapping = mapping; row = some row })

  module _ (faithful : IsFaithful) where
    read_lines-encode :
        (table mapping : String) (done rows : List Row)
        → read_lines table mapping done (encode table mapping rows)
          ≡ some (table, mapping, done ++ rows)
    unfolding read_lines encode mixes
    read_lines-encode table mapping done [] = rw append-nil refl
    read_lines-encode table mapping done (row ∷ rows) =
        rw (faithful.loads-dumps table mapping row) (
          rw (eq_refl table, eq_refl mapping)
            (rw (read_lines-encode table mapping (done ++ (row ∷ [])) rows)
              (ground (arith, append_assoc done (row ∷ []) rows))))

    -- A segment that was written whole reads back: the same table, mapping and rows.
    pub read_segment-encode :
        (table mapping : String) (row : Row) (rows : List Row)
        → read_segment (encode table mapping (row ∷ rows)) ≡ some (table, mapping, row ∷ rows)
    unfolding read_segment read_lines encode mixes
    read_segment-encode table mapping row rows =
        rw (faithful.loads-dumps table mapping row)
          (rw (read_lines-encode table mapping (row ∷ []) rows) refl)
