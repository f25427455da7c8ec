-- ===== src/Table/Compile/Eval.antt =====
-- What an expression says of a row's values, and where their bytes lie.
use mathlib.Core.List.{append_assoc}
use rs_redbase.Prelude.{
  ℕ, ◌+◌, ◌<◌, ◌≡◌, sym, ◌∙◌, ap, Bool, true, false, not, ◌&&◌, ◌||◌, List, [], ◌∷◌, ◌++◌, Option,
  none, some, arith, length, take, drop, take_exact, drop_exact, length-append, if◌then◌else◌,
  Bool-cases, inl, inr,
}
use rs_redbase.Prelude.Int.{ℤ, of_u32, of_u32-to_u32, to_u32, to_u32-lt, IsI32}
use rs_redbase.Prelude.Bytes.{Bytes, eq_bytes, u32_to_le_bytes, i32_to_le_bytes}
use rs_redbase.Prelude.Text.{Text}
use rs_redbase.Record.Types.{ScanCompOp, compare_ordering}
use rs_redbase.Record.Meaning.{word}
use rs_redbase.Table.Types.{Value, Expr, Exprs, fixed_len, compare_values}
use rs_redbase.Table.Schema.{LayoutColumn, find_column}
use rs_redbase.Table.Schema.Offsets.{IsPacked}
use rs_redbase.Table.Codec.Encoded.{cell, cells, length-cell}
use rs_redbase.Table.Codec.RoundTrip.{IsStorable, AreStorable, EndsNonzero, check_of_IsStorable}
use rs_redbase.Table.Compile.{ends_in_nul}

-- The value of the named column in a row.
unfoldable pub value_at : List LayoutColumn → List Value → Text → Option Value
value_at (c ∷ cs) (v ∷ vs) name = if eq_bytes c.name name then some v else value_at cs vs name
value_at _ _ name = none

abbrev pub says : Option Value → ScanCompOp → Option Value → Bool
says (some v) op (some w) = compare_ordering (compare_values v w) op
says _ op _ = false

-- What an expression says of a row.
unfoldable mutual
  pub eval : List LayoutColumn → List Value → Expr → Bool
  eval cs vs (Expr.cmp_value name op value) = says (value_at cs vs name) op (some value)
  eval cs vs (Expr.cmp_columns lhs op rhs) = says (value_at cs vs lhs) op (value_at cs vs rhs)
  eval cs vs (Expr.and es) = eval_all cs vs es
  eval cs vs (Expr.or es) = eval_any cs vs es
  eval cs vs (Expr.not e) = not (eval cs vs e)

  pub eval_all : List LayoutColumn → List Value → Exprs → Bool
  eval_all cs vs Exprs.nil = true
  eval_all cs vs (Exprs.cons e es) = eval cs vs e && eval_all cs vs es

  pub eval_any : List LayoutColumn → List Value → Exprs → Bool
  eval_any cs vs Exprs.nil = false
  eval_any cs vs (Exprs.cons e es) = eval cs vs e || eval_any cs vs es

-- The stored cell of a column that was found.
pub record CellAt (cs : List LayoutColumn) (vs : List Value) (row : Bytes) (name : Text)
    (c : LayoutColumn) : Type 0 where
  pub value : Value
  pub held : value_at cs vs name ≡ some value
  pub storable : IsStorable c.column_type value
  pub bytes : take (fixed_len c.column_type) (drop c.offset row) ≡ cell c.column_type value

pub read_exactly :
    (before field rest : Bytes) (offset len : ℕ)
    → offset ≡ length before
    → length field ≡ len
    → take len (drop offset (before ++ (field ++ rest))) ≡ field
read_exactly before field rest offset len at wide =
    rw (at, drop_exact before (field ++ rest), ← wide) (take_exact field rest)

pub find_column-CellAt :
    (cs : List LayoutColumn) (vs : List Value) (before : Bytes) (at size : ℕ) (name : Text)
    (c : LayoutColumn)
    → IsPacked at cs size
    → at ≡ length before
    → AreStorable cs vs
    → find_column cs name ≡ some c
    → CellAt cs vs (before ++ cells cs vs) name c
unfolding find_column value_at
find_column-CellAt [] vs before at size name c packed h s found = cc
find_column-CellAt (x ∷ cs) [] before at size name c packed h s found = absurd s
find_column-CellAt (x ∷ cs) (v ∷ vs) before at size name c packed h s found =
    let field = cell x.column_type v in
    let wide = length-cell x x.column_type v (check_of_IsStorable x x.column_type v s.0) in
    elim (Bool-cases (eq_bytes x.name name)) [
      | inl here ↦
          let same : x ≡ c = ground arith in
          rw (← same) (record {
            value = v;
            held = rw here;
            storable = s.0;
            bytes =
                read_exactly before field (cells cs vs) x.offset (fixed_len x.column_type)
                  (packed.0 ∙ h) wide;
          })
      | inr later ↦
          let found' : find_column cs name ≡ some c = ground arith in
          let next : at + fixed_len x.column_type ≡ length (before ++ field) =
            omega (arith, length-append before field) in
          let there =
            find_column-CellAt cs vs (before ++ field) (at + fixed_len x.column_type) size name c
              packed.2 next s.1 found' in
          record {
            value = there.value;
            held = rw later there.held;
            storable = there.storable;
            bytes =
                ap (λ b. take (fixed_len c.column_type) (drop c.offset b))
                  (sym (append_assoc before field (cells cs vs)))
                ∙ there.bytes;
          }
    ]

pub word-u32 : (w : ℕ) → w < 4294967296 → word (u32_to_le_bytes w) ≡ w
unfolding u32_to_le_bytes
word-u32 w h = omega arith

pub plain_ends : (t : Bytes) → ends_in_nul t ≡ false → EndsNonzero t
plain_ends [] h = tt
plain_ends (b ∷ []) h = ground arith
plain_ends (b ∷ c ∷ bs) h = plain_ends (c ∷ bs) h

-- Reading a cell back as a scan value.
pub read_number : (n : ℤ) → IsI32 n → of_u32 (word (i32_to_le_bytes n)) ≡ n
unfolding i32_to_le_bytes
read_number n h = rw (word-u32 (to_u32 n) (to_u32-lt n h)) (of_u32-to_u32 n h)
