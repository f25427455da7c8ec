-- ===== src/Prelude/Text.antt =====
-- A Rust `String` as its UTF-8 bytes, and `String::from_utf8`'s test.
use rs_redbase.Prelude.{
  ℕ, zero, suc, Bool, true, false, ◌&&◌, Option, none, some, List, [], ◌∷◌, ltb, leb, if◌then◌else◌,
}
use rs_redbase.Prelude.Bytes.{Bytes, eq_bytes}

abbrev pub Text : Type 0
Text = List ℕ

-- `seen.contains(name)` over the names seen so far.
unfoldable pub contains : List Text → Text → Bool
contains [] name = false
contains (t ∷ ts) name = if eq_bytes t name then true else contains ts name

-- Between characters, or before the next of some continuation bytes, which lies in a range.
pub data Utf8State : Type 0 where
  start : Utf8State
  tail : ℕ → ℕ → ℕ → Utf8State

-- The bytes that a first byte asks for, by the table of well-formed sequences.
lead : ℕ → Option Utf8State
lead b =
    if ltb b 0x80
    then some Utf8State.start
    else if ltb b 0xC2
    then none
    else if ltb b 0xE0
    then some (Utf8State.tail 0 0x80 0xBF)
    else if ltb b 0xE1
    then some (Utf8State.tail 1 0xA0 0xBF)
    else if ltb b 0xED
    then some (Utf8State.tail 1 0x80 0xBF)
    else if ltb b 0xEE
    then some (Utf8State.tail 1 0x80 0x9F)
    else if ltb b 0xF0
    then some (Utf8State.tail 1 0x80 0xBF)
    else if ltb b 0xF1
    then some (Utf8State.tail 2 0x90 0xBF)
    else if ltb b 0xF4
    then some (Utf8State.tail 2 0x80 0xBF)
    else if ltb b 0xF5
    then some (Utf8State.tail 2 0x80 0x8F)
    else none

continue_with : ℕ → Utf8State
continue_with zero = Utf8State.start
continue_with (suc n) = Utf8State.tail n 0x80 0xBF

utf8_step : Utf8State → ℕ → Option Utf8State
utf8_step Utf8State.start b = lead b
utf8_step (Utf8State.tail n lo hi) b = if leb lo b && leb b hi then some (continue_with n) else none

utf8_run : Utf8State → Bytes → Bool
utf8_run Utf8State.start [] = true
utf8_run (Utf8State.tail n lo hi) [] = false
utf8_run s (b ∷ bs) = elim (utf8_step s b) [ none ↦ false | some s' ↦ utf8_run s' bs ]

unfoldable pub is_utf8 : Bytes → Bool
unfolding lead continue_with utf8_step utf8_run
is_utf8 bytes = utf8_run Utf8State.start bytes
