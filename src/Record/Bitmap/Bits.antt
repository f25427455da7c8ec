-- ===== src/Record/Bitmap/Bits.antt =====
-- `set_slot_free`, `slot_is_free` and `find_first_free_slot` of storage/record, bit by bit.
use rs_redbase.Prelude.{
  ℕ, zero, suc, ◌+◌, ◌*◌, ◌/◌, ◌%◌, ◌<◌, ◌≤◌, Bool-cases, ◌≡◌, ◌≢◌, ◌⊎◌, inl, inr, refl, sym, ◌∙◌,
  ap, Bool, true, false, Option, none, some, get_elem?, set, get_elem?-set_self, get_elem?-set_ne,
  get_elem?_of_lt, length, length-set, ◌==◌, ok, Returns, arith,
}
use rs_redbase.Prelude.Bytes.{Bytes}
use rs_redbase.Record.Types.{RecordError}
use rs_redbase.Record.Bitmap.{
  test_bit, with_bit, without_bit, put_bit, slot_is_free, set_slot_free, find_free_from,
  find_first_free_slot,
}

test_bit-with_bit : (b k : ℕ) → test_bit (with_bit b k) k ≡ true
unfolding test_bit with_bit
test_bit-with_bit b zero = ground arith
test_bit-with_bit b (suc k) =
    let half : (b % 2 + 2 * with_bit (b / 2) k) / 2 ≡ with_bit (b / 2) k = omega arith in
    rw half (test_bit-with_bit (b / 2) k)

test_bit-without_bit : (b k : ℕ) → test_bit (without_bit b k) k ≡ false
unfolding test_bit without_bit
test_bit-without_bit b zero = ground arith
test_bit-without_bit b (suc k) =
    let half : (b % 2 + 2 * without_bit (b / 2) k) / 2 ≡ without_bit (b / 2) k = omega arith in
    rw half (test_bit-without_bit (b / 2) k)

test_bit-put_bit_self : (value : Bool) (b k : ℕ) → test_bit (put_bit value b k) k ≡ value
test_bit-put_bit_self true b k = test_bit-with_bit b k
test_bit-put_bit_self false b k = test_bit-without_bit b k

test_bit-put_bit_ne :
    (value : Bool) (b j k : ℕ) → j ≢ k → test_bit (put_bit value b j) k ≡ test_bit b k
unfolding test_bit with_bit without_bit
test_bit-put_bit_ne value b zero zero ne = absurd (ne refl)
test_bit-put_bit_ne true b zero (suc k) ne =
    ap (λ c. test_bit c k) (let e : (b / 2 * 2 + 1) / 2 ≡ b / 2 = omega arith in e)
test_bit-put_bit_ne false b zero (suc k) ne =
    ap (λ c. test_bit c k) (let e : b / 2 * 2 / 2 ≡ b / 2 = omega arith in e)
test_bit-put_bit_ne true b (suc j) zero ne =
    ap (λ c. c == 1) (let e : (b % 2 + 2 * with_bit (b / 2) j) % 2 ≡ b % 2 = omega arith in e)
test_bit-put_bit_ne false b (suc j) zero ne =
    ap (λ c. c == 1) (let e : (b % 2 + 2 * without_bit (b / 2) j) % 2 ≡ b % 2 = omega arith in e)
test_bit-put_bit_ne true b (suc j) (suc k) ne =
    ap (λ c. test_bit c k)
      (let e : (b % 2 + 2 * with_bit (b / 2) j) / 2 ≡ with_bit (b / 2) j = omega arith in e)
    ∙ test_bit-put_bit_ne true (b / 2) j k (λ e. ne (ap suc e))
test_bit-put_bit_ne false b (suc j) (suc k) ne =
    ap (λ c. test_bit c k)
      (let e : (b % 2 + 2 * without_bit (b / 2) j) / 2 ≡ without_bit (b / 2) j = omega arith in e)
    ∙ test_bit-put_bit_ne false (b / 2) j k (λ e. ne (ap suc e))

-- Two slots are in different bytes, or at different bits of one.
apart-cases : (i j : ℕ) → i ≢ j → (i / 8 ≢ j / 8) ⊎ ((i / 8 ≡ j / 8) × (i % 8 ≢ j % 8))
apart-cases i j ne = ground arith

reads :
    {E : Type 0} (bitmap : Bytes) (i b : ℕ)
    → get_elem? bitmap (i / 8) ≡ some b
    → slot_is_free {E = E} bitmap i ≡ ok (test_bit b (i % 8))
unfolding slot_is_free
reads bitmap i b h = rw h refl

other_byte :
    {E : Type 0} (bitmap : Bytes) (i j b : ℕ)
    → i / 8 ≢ j / 8
    → slot_is_free {E = E} (set bitmap (i / 8) b) j ≡ slot_is_free bitmap j
unfolding slot_is_free
other_byte bitmap i j b ne = rw (get_elem?-set_ne bitmap b ne) refl

-- Setting a slot whose byte is in the bitmap never panics and keeps the bitmap's length; the slot
-- then reads as set, and every other slot reads as before.
pub set_slot_free-reads :
    {E : Type 0} (bitmap : Bytes) (i : ℕ) (value : Bool)
    → i / 8 < length bitmap
    → Returns (set_slot_free {E = E} bitmap i value) (λ bitmap'.
      (length bitmap' ≡ length bitmap)
      × (slot_is_free {E = E} bitmap' i ≡ ok value)
      × ((j : ℕ) → j ≢ i → slot_is_free {E = E} bitmap' j ≡ slot_is_free {E = E} bitmap j))
unfolding set_slot_free
set_slot_free-reads {E} bitmap i value h =
    let (b, at) = get_elem?_of_lt bitmap (i / 8) h in
    let b' = put_bit value b (i % 8) in
    let bitmap' = set bitmap (i / 8) b' in
    let self = get_elem?-set_self bitmap (i / 8) b' h in
    (
      bitmap',
      rw at refl,
      (
        length-set bitmap (i / 8) b',
        reads bitmap' i b' self ∙ ap ok (test_bit-put_bit_self value b (i % 8)),
        λ j ne. elim (apart-cases i j (λ e. ne (sym e))) [
          | inl other ↦ other_byte bitmap i j b' other
          | inr (same, bit) ↦
              reads bitmap' j b' (rw (← same) self)
              ∙ ap ok (test_bit-put_bit_ne value b (i % 8) (j % 8) bit)
              ∙ sym (reads bitmap j b (rw (← same) at))
        ],
      ),
    )

abbrev pub IsFree : Bytes → ℕ → Bool → Type 0
IsFree bitmap i value = slot_is_free {E = RecordError} bitmap i ≡ ok value

-- What a search over slots finds: the first that is free, or none when none is.
abbrev pub FoundFrom : Bytes → ℕ → ℕ → Option ℕ → Type 0
FoundFrom bitmap start n none = (j : ℕ) → start ≤ j → j < start + n → IsFree bitmap j false
FoundFrom bitmap start n (some i) =
    (i < start + n) × IsFree bitmap i true × ((j : ℕ) → start ≤ j → j < i → IsFree bitmap j false)

start-cases : (start j : ℕ) → start ≤ j → (j ≡ start) ⊎ (suc start ≤ j)
start-cases start j h = ground arith

extend :
    (bitmap : Bytes) (start n : ℕ) (found : Option ℕ)
    → IsFree bitmap start false
    → start < start + suc n
    → FoundFrom bitmap (suc start) n found
    → FoundFrom bitmap start (suc n) found
extend bitmap start n none used lt h = λ j le lt'. elim (start-cases start j le) [
  | inl here ↦ rw here used
  | inr above ↦ h j above (omega arith)
]
extend bitmap start n (some i) used lt h = (
  omega arith,
  h.1,
  λ j le lt'. elim (start-cases start j le) [
    | inl here ↦ rw here used
    | inr above ↦ h.2 j above lt'
  ],
)

find_free_from-FoundFrom :
    (bitmap : Bytes) (start n : ℕ)
    → start + n ≤ 8 * length bitmap
    → Returns (find_free_from {E = RecordError} bitmap start n) (FoundFrom bitmap start n)
unfolding find_free_from
find_free_from-FoundFrom bitmap start zero h = (none, refl, λ j le lt. absurd (omega arith))
find_free_from-FoundFrom bitmap start (suc n) h =
    let (b, at) = get_elem?_of_lt bitmap (start / 8) (omega arith) in
    let run = reads {E = RecordError} bitmap start b at in
    elim (Bool-cases (test_bit b (start % 8))) [
      | inl free ↦ (
        some start,
        rw (run, free) refl,
        (omega arith, run ∙ ap ok free, λ j le lt. absurd (omega arith)),
      )
      | inr used ↦
          let (found, run', post) = find_free_from-FoundFrom bitmap (suc start) n (omega arith) in
          (
            found,
            rw (run, used) run',
            extend bitmap start n found (run ∙ ap ok used) (omega arith) post,
          )
    ]

-- `find_first_free_slot` on a bitmap with a bit for every slot never panics, and returns the
-- lowest slot that is free, or none when none is.
pub find_first_free_slot-first :
    (bitmap : Bytes) (num_slots : ℕ)
    → num_slots ≤ 8 * length bitmap
    → Returns
        (find_first_free_slot {E = RecordError} bitmap num_slots)
        (FoundFrom bitmap 0 num_slots)
unfolding find_first_free_slot
find_first_free_slot-first bitmap num_slots h =
    find_free_from-FoundFrom bitmap 0 num_slots (omega arith)
