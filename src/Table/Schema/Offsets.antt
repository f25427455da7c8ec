-- ===== src/Table/Schema/Offsets.antt =====
-- `compile_schema` of table/mod.rs: where it places the columns, and when it succeeds.
use rs_redbase.Prelude.{
  ◌≢◌, Returns, ℕ, ◌+◌, ◌≤◌, ◌<◌, ◌≡◌, refl, false, ap, List, [], ◌∷◌, arith, map, Result, ok, some,
}
use rs_redbase.Prelude.Text.{Text, contains}
use rs_redbase.Prelude.Bytes.{eq_bytes→eq}
use rs_redbase.Table.Types.{fixed_len, ColumnSchema, TableSchema, TableError}
use rs_redbase.Table.Schema.{
  LayoutColumn, SchemaLayout, find_column, column, validate_identifier, compile_columns,
  compile_schema,
}

-- Each column starts where the one before it ends, and the last ends at `size`.
abbrev pub IsPacked : ℕ → List LayoutColumn → ℕ → Type 0
IsPacked at [] size = at ≡ size
IsPacked at (c ∷ cs) size =
    (c.offset ≡ at)
    × (0 < fixed_len c.column_type)
    × IsPacked (at + fixed_len c.column_type) cs size

-- The schema column that a layout column stands for.
abbrev pub declared : LayoutColumn → ColumnSchema
declared c = record { name = c.name; column_type = c.column_type }

-- No name occurs in `seen` or twice.
abbrev pub IsDistinct : List Text → List ColumnSchema → Type 0
IsDistinct seen [] = Unit
IsDistinct seen (c ∷ cs) = (contains seen c.name ≡ false) × IsDistinct (c.name ∷ seen) cs

abbrev pub AreNamed : List ColumnSchema → Type 0
AreNamed [] = Unit
AreNamed (c ∷ cs) = (validate_identifier c.name ≡ ok tt) × AreNamed cs

pub record Compiled (seen : List Text) (at : ℕ) (cs : List ColumnSchema)
    (columns : List LayoutColumn) (size : ℕ) : Type 0 where
  pub packed : IsPacked at columns size
  pub same : map declared columns ≡ cs
  pub distinct : IsDistinct seen cs
  pub named : AreNamed cs
  pub small : size < 18446744073709551616

abbrev columns_of : Result TableError (List LayoutColumn × ℕ) → List LayoutColumn
columns_of (ok (columns, size)) = columns
columns_of _ = []

abbrev size_of : Result TableError (List LayoutColumn × ℕ) → ℕ
size_of (ok (columns, size)) = size
size_of _ = 0

abbrev place : ColumnSchema → ℕ → LayoutColumn
place c at = record { name = c.name; column_type = c.column_type; offset = at }

-- What one round of the loop has checked when the whole loop succeeds.
record Round (c : ColumnSchema) (cs : List ColumnSchema) (at : ℕ) (seen : List Text) : Type 0 where
  valid : validate_identifier c.name ≡ ok tt
  fresh : contains seen c.name ≡ false
  solid : 0 < fixed_len c.column_type
  room : at + fixed_len c.column_type < 18446744073709551616

round :
    (c : ColumnSchema) (cs : List ColumnSchema) (at : ℕ) (seen : List Text)
    {columns : List LayoutColumn} {size : ℕ}
    → compile_columns (c ∷ cs) at seen ≡ ok (columns, size)
    → Round c cs at seen
unfolding compile_columns
round c cs at seen h = record {
  valid = ground arith;
  fresh = ground arith;
  solid = ground arith;
  room = ground arith;
}

round_rest :
    (c : ColumnSchema) (cs : List ColumnSchema) (at : ℕ) (seen : List Text)
    {columns : List LayoutColumn} {size : ℕ}
    → compile_columns (c ∷ cs) at seen ≡ ok (columns, size)
    → (rest : List LayoutColumn) × (compile_columns cs
          (at + fixed_len c.column_type)
          (c.name ∷ seen)
        ≡ ok (rest, size))
      × (columns ≡ place c at ∷ rest)
unfolding compile_columns
round_rest c cs at seen h = ground arith

Compiled-place :
    (c : ColumnSchema) (cs : List ColumnSchema) (at : ℕ) (seen : List Text)
    {rest : List LayoutColumn} {size : ℕ}
    → Round c cs at seen
    → Compiled (c.name ∷ seen) (at + fixed_len c.column_type) cs rest size
    → Compiled seen at (c ∷ cs) (place c at ∷ rest) size
Compiled-place c cs at seen r later = record {
  packed = (refl, r.solid, later.packed);
  same = ap (λ t. c ∷ t) later.same;
  distinct = (r.fresh, later.distinct);
  named = (r.valid, later.named);
  small = later.small;
}

compile_columns-Compiled :
    (cs : List ColumnSchema) (at : ℕ) (seen : List Text) {columns : List LayoutColumn} {size : ℕ}
    → at < 18446744073709551616
    → compile_columns cs at seen ≡ ok (columns, size)
    → Compiled seen at cs columns size
unfolding compile_columns
compile_columns-Compiled [] at seen lt h =
    let columns_nil = ap columns_of h in
    let size_at = ap size_of h in
    rw (← columns_nil, ← size_at)
      (record { packed = refl; same = refl; distinct = tt; named = tt; small = lt })
compile_columns-Compiled (c ∷ cs) at seen lt h =
    let r = round c cs at seen h in
    let (rest, run, e) = round_rest c cs at seen h in
    rw e (
      Compiled-place c cs at seen r
        (compile_columns-Compiled cs (at + fixed_len c.column_type) (c.name ∷ seen) r.room run))

-- What a compiled layout is, for the schema that it was compiled from.
pub record LayoutOf (schema : TableSchema) (layout : SchemaLayout) : Type 0 where
  pub named : validate_identifier schema.name ≡ ok tt
  pub filled : schema.columns ≢ []
  pub columns : Compiled [] 0 schema.columns layout.columns layout.record_size

columns_run :
    (schema : TableSchema) (layout : SchemaLayout)
    → compile_schema schema ≡ ok layout
    → compile_columns schema.columns 0 [] ≡ ok (layout.columns, layout.record_size)
unfolding compile_schema
columns_run schema layout h = ground arith

-- A schema that compiles has a valid name and at least one column, its columns have valid and
-- distinct names and positive lengths, and the layout holds them in order, packed from offset 0
-- to the record size, which fits in 64 bits.
pub compile_schema-LayoutOf :
    (schema : TableSchema) (layout : SchemaLayout)
    → compile_schema schema ≡ ok layout
    → LayoutOf schema layout
unfolding compile_schema
compile_schema-LayoutOf schema layout h = record {
  named = ground arith;
  filled = ground arith;
  columns =
      compile_columns-Compiled schema.columns 0 [] (omega arith) (columns_run schema layout h);
}

abbrev total_len : List ColumnSchema → ℕ
total_len [] = 0
total_len (c ∷ cs) = fixed_len c.column_type + total_len cs

abbrev AreSolid : List ColumnSchema → Type 0
AreSolid [] = Unit
AreSolid (c ∷ cs) = (0 < fixed_len c.column_type) × AreSolid cs

compile_columns_total :
    (cs : List ColumnSchema) (at : ℕ) (seen : List Text)
    → AreNamed cs
    → IsDistinct seen cs
    → AreSolid cs
    → at + total_len cs < 18446744073709551616
    → (columns : List LayoutColumn) × (compile_columns cs at seen ≡ ok (columns, at + total_len cs))
unfolding compile_columns
compile_columns_total [] at seen named distinct solid small = ([], ground arith)
compile_columns_total (c ∷ cs) at seen named distinct solid small =
    let (rest, run) =
      compile_columns_total cs (at + fixed_len c.column_type) (c.name ∷ seen) named.1 distinct.1
        solid.1 (omega arith) in
    (place c at ∷ rest, rw (named.0, distinct.0) (ground arith))

-- Those conditions are also enough: such a schema compiles, to a record as long as its columns.
pub compile_schema_total :
    (schema : TableSchema)
    → validate_identifier schema.name ≡ ok tt
    → schema.columns ≢ []
    → AreNamed schema.columns
    → IsDistinct [] schema.columns
    → AreSolid schema.columns
    → total_len schema.columns < 18446744073709551616
    → Returns (compile_schema schema) (λ layout. layout.record_size ≡ total_len schema.columns)
unfolding compile_schema
compile_schema_total schema name filled named distinct solid small =
    let (columns, run) =
      compile_columns_total schema.columns 0 [] named distinct solid (omega arith) in
    (record { columns = columns; record_size = total_len schema.columns }, ground arith, refl)

pub packed-le : (cs : List LayoutColumn) (at size : ℕ) → IsPacked at cs size → at ≤ size
packed-le [] at size h = omega arith
packed-le (c ∷ cs) at size h = omega (arith, packed-le cs (at + fixed_len c.column_type) size h.2)

-- A column that was found: it has the name, it is not empty, and it lies before `size`.
abbrev pub FoundAt : ℕ → Text → LayoutColumn → Type 0
FoundAt size name c =
    (c.name ≡ name) × (0 < fixed_len c.column_type) × (c.offset + fixed_len c.column_type ≤ size)

find_column-FoundAt :
    (cs : List LayoutColumn) (at size : ℕ) (name : Text) (c : LayoutColumn)
    → IsPacked at cs size
    → find_column cs name ≡ some c
    → FoundAt size name c
unfolding find_column
find_column-FoundAt [] at size name c packed h = cc
find_column-FoundAt (x ∷ cs) at size name c packed h = ground (
  arith,
  eq_bytes→eq x.name name,
  packed-le cs (at + fixed_len x.column_type) size packed.2,
  find_column-FoundAt cs (at + fixed_len x.column_type) size name c packed.2,
)

-- A column that a compiled layout finds by name lies within the record.
pub column-FoundAt :
    (schema : TableSchema) (layout : SchemaLayout) (name : Text) (c : LayoutColumn)
    → compile_schema schema ≡ ok layout
    → column layout name ≡ ok c
    → FoundAt layout.record_size name c
unfolding column
column-FoundAt schema layout name c compiled h =
    find_column-FoundAt layout.columns 0 layout.record_size name c
      (compile_schema-LayoutOf schema layout compiled).columns.packed (ground arith)
