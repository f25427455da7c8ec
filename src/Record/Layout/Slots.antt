-- ===== src/Record/Layout/Slots.antt =====
-- `compute_slots_per_page` and `record_range` of storage/record: how much fits in a page, and where.
use native.Mathlib.Nat.{le-div_iff_mul-le, suc-mul, mul-le-mul_right, mul-le-mul_left}
use rs_redbase.Prelude.{
  ℕ, zero, suc, ◌+◌, ◌*◌, ◌/◌, ◌≤◌, ◌<◌, ◌≡◌, ◌⊎◌, inl, inr, refl, ok_injective, Bool-cases, true,
  false, ltb, leb, le→leb, ◌==◌, ok, err, Returns, arith, sym, ◌∙◌,
}
use rs_redbase.Record.Types.{record_too_large}
use rs_redbase.Record.Layout.{
  page_data_size, bitmap_bytes, used_bytes, fit_slots, compute_slots_per_page, record_range,
}

-- So many records, the header of 12 bytes and the bitmap, of a bit for each, fit in the 4092 bytes of
-- a page.
abbrev pub Fits : ℕ → ℕ → Type 0
Fits record_size slots = 12 + (slots + 7) / 8 + slots * record_size ≤ 4092

-- The most slots up to a bound that fit, and at least one.
abbrev pub IsMost : ℕ → ℕ → ℕ → Type 0
IsMost record_size bound slots =
    (0 < slots) × Fits record_size slots × ((m : ℕ) → m ≤ bound → Fits record_size m → m ≤ slots)

-- None but zero slots fit.
abbrev pub NoneFits : ℕ → ℕ → Type 0
NoneFits record_size bound = (m : ℕ) → m ≤ bound → Fits record_size m → m ≡ 0

le_suc-cases : (m n : ℕ) → m ≤ suc n → (m ≤ n) ⊎ (m ≡ suc n)
le_suc-cases m n h = ground arith

-- A bound at which the records do not fit can be lowered.
lower :
    (record_size bound slots : ℕ)
    → leb (used_bytes (suc bound) record_size) page_data_size ≡ false
    → (m : ℕ) → m ≤ suc bound
    → Fits record_size m
    → m ≤ bound
lower record_size bound slots wide m le fits = elim (le_suc-cases m bound le) [
  | inl below ↦ below
  | inr same ↦
      let fits' : Fits record_size (suc bound) = rw (← same) fits in
      absurd (
        let e = le→leb (used_bytes (suc bound) record_size) page_data_size fits' in
        let no : true ≡ false = sym e ∙ wide in cc)
]

fit_slots-cases :
    (bound record_size : ℕ)
    → Returns (fit_slots bound record_size) (IsMost record_size bound)
      ⊎ ((fit_slots bound record_size ≡ err (record_too_large record_size))
          × NoneFits record_size bound)
unfolding fit_slots
fit_slots-cases zero record_size = inr (refl, λ m le _. omega arith)
fit_slots-cases (suc bound) record_size =
    elim (Bool-cases (leb (used_bytes (suc bound) record_size) page_data_size)) [
      | inl fits ↦
          inl (suc bound, rw (fit_slots, fits) refl, (omega arith, ground arith, λ m le _. le))
      | inr wide ↦ elim (fit_slots-cases bound record_size) [
        | inl (slots, run, (one, room, most)) ↦ inl (
          slots,
          rw (fit_slots, wide) run,
          (one, room, λ m le fits. most m (lower record_size bound slots wide m le fits) fits),
        )
        | inr (run, none_fits) ↦ inr (
          rw (fit_slots, wide) run,
          λ m le fits. none_fits m (lower record_size bound 0 wide m le fits) fits,
        )
      ]
    ]

-- Whatever fits is under the first guess.
guess :
    (record_size m : ℕ) → 0 < record_size → Fits record_size m → m ≤ page_data_size / record_size
guess record_size m some_size fits =
    (le-div_iff_mul-le {x = m} {y = page_data_size} some_size).1 (omega arith)

-- For records of some bytes, `compute_slots_per_page` returns the greatest number of slots that fit
-- in the 4092 bytes of a page with its header of 12 bytes and a bitmap of a bit for each slot, at
-- least one, or fails as too large when not one fits.
pub compute_slots_per_page-most :
    (record_size : ℕ)
    → 0 < record_size
    → Returns
        (compute_slots_per_page record_size)
        (λ slots. (0 < slots) × Fits record_size slots × ((m : ℕ) → Fits record_size m → m ≤ slots))
      ⊎ ((compute_slots_per_page record_size ≡ err (record_too_large record_size))
          × ((m : ℕ) → Fits record_size m → m ≡ 0))
unfolding compute_slots_per_page
compute_slots_per_page-most record_size some_size =
    let nonzero : record_size == 0 ≡ false = ground arith in
    elim (fit_slots-cases (page_data_size / record_size) record_size) [
      | inl (slots, run, (one, room, most)) ↦ inl (
        slots,
        rw nonzero run,
        (one, room, λ m fits. most m (guess record_size m some_size fits) fits),
      )
      | inr (run, none_fits) ↦
          inr (rw nonzero run, λ m fits. none_fits m (guess record_size m some_size fits) fits)
    ]

-- Slots under the number computed: in the page, after the bitmap, and one after another.
pub slots-Fits :
    (record_size slots : ℕ) → compute_slots_per_page record_size ≡ ok slots → Fits record_size slots
unfolding compute_slots_per_page
slots-Fits record_size slots h = elim (fit_slots-cases (page_data_size / record_size) record_size) [
  | inl (slots', run, (one, room, most)) ↦ ground (arith)
  | inr (run, none_fits) ↦ ground arith
]

pub span :
    (record_size slots i : ℕ) → i < slots → i * record_size + record_size ≤ slots * record_size
span record_size slots i h =
    omega (arith, suc-mul i record_size, mul-le-mul_right {m = suc i} {n = slots} record_size h)

pub in_page :
    (record_size slots i : ℕ)
    → i < slots
    → 12 + bitmap_bytes slots + i * record_size + record_size ≤ page_data_size
    → record_range slots record_size i
      ≡ ok (
        12 + bitmap_bytes slots + i * record_size,
        12 + bitmap_bytes slots + i * record_size + record_size,
      )
unfolding record_range
in_page record_size slots i lt room =
    let end = 12 + bitmap_bytes slots + i * record_size + record_size in
    let inside : leb slots i ≡ false = ground arith in
    let short : ltb page_data_size end ≡ false = ground arith in rw (inside, short) refl

-- Where the records of a page lie: every slot has its range, as long as a record, after the header
-- and the bitmap and within the page; and the ranges of two slots do not overlap.
pub record_range-disjoint :
    (record_size slots i j : ℕ)
    → compute_slots_per_page record_size ≡ ok slots
    → i < j
    → j < slots
    → (s s' : ℕ) × (record_range slots record_size i ≡ ok (s, s + record_size))
      × (record_range slots record_size j ≡ ok (s', s' + record_size))
      × (12 + bitmap_bytes slots ≤ s)
      × (s + record_size ≤ s')
      × (s' + record_size ≤ page_data_size)
unfolding record_range
record_range-disjoint record_size slots i j h lt lt' =
    let room = slots-Fits record_size slots h in
    let at = λ (k : ℕ). 12 + bitmap_bytes slots + k * record_size in
    let last = span record_size slots j lt' in
    let before = span record_size j i lt in
    (
      at i,
      at j,
      in_page record_size slots i (omega arith) (omega arith),
      in_page record_size slots j lt' (omega arith),
      omega arith,
      omega arith,
      omega arith,
    )

-- The record size and the number of slots are small.
pub slots_small :
    (record_size slots : ℕ)
    → 0 < record_size
    → compute_slots_per_page record_size ≡ ok slots
    → (0 < slots) × (record_size ≤ 4080) × (slots ≤ 4080)
slots_small record_size slots some_size h =
    elim (compute_slots_per_page-most record_size some_size) [
      | inl (slots', run, (one, room, most)) ↦
          let e : slots' ≡ slots = ok_injective (sym run ∙ h) in
          rw (← e) (
            one,
            omega (arith, mul-le-mul_right {m = 1} {n = slots'} record_size one),
            omega (arith, mul-le-mul_left {m = 1} {n = record_size} slots' some_size),
          )
      | inr (run, none_fits) ↦
          let no : ok slots ≡ err (record_too_large record_size) = sym h ∙ run in cc
    ]
