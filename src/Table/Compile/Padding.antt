-- ===== src/Table/Compile/Padding.antt =====
-- Text padded with NUL bytes to a column's length, and its order.
use rs_redbase.Prelude.{
  ℕ, zero, suc, ◌-◌, ◌≤◌, ◌≡◌, ◌∙◌, ap, [], ◌∷◌, ◌++◌, arith, Ordering, length,
}
use rs_redbase.Prelude.Bytes.{
  Bytes, compare_bytes, compare_bytes_refl, compare_bytes_flip, reverse_ordering,
}
use rs_redbase.Table.Codec.Encoded.{zeros}
use rs_redbase.Table.Codec.RoundTrip.{EndsNonzero}

abbrev pub padded : ℕ → Bytes → Bytes
padded n text = text ++ zeros (n - length text)

blank_before :
    (n b : ℕ) (bs : Bytes)
    → EndsNonzero (b ∷ bs)
    → suc (length bs) ≤ n
    → compare_bytes (zeros n) (padded n (b ∷ bs)) ≡ Ordering.lt
unfolding compare_bytes
blank_before zero b bs h fits = absurd (omega arith)
blank_before (suc n) b [] h fits = ground arith
blank_before (suc n) b (c ∷ bs) h fits =
    let e : suc n - suc (suc (length bs)) ≡ n - suc (length bs) = omega arith in
    rw e (ground (arith, blank_before n c bs h (omega arith)))

ends_tail : (x : ℕ) (xs : Bytes) → EndsNonzero (x ∷ xs) → EndsNonzero xs
ends_tail x [] h = tt
ends_tail x (y ∷ xs) h = h

pub compare_bytes-padded :
    (n : ℕ) (a b : Bytes)
    → EndsNonzero a
    → EndsNonzero b
    → length a ≤ n
    → length b ≤ n
    → compare_bytes (padded n a) (padded n b) ≡ compare_bytes a b
unfolding compare_bytes
compare_bytes-padded n [] [] ha hb la lb = compare_bytes_refl (padded n [])
compare_bytes-padded n [] (y ∷ b) ha hb la lb =
    let e : n - 0 ≡ n = omega arith in rw e (blank_before n y b hb lb)
compare_bytes-padded n (x ∷ a) [] ha hb la lb =
    let e : n - 0 ≡ n = omega arith in
    rw e (
      compare_bytes_flip (zeros n) (padded n (x ∷ a))
      ∙ ap reverse_ordering (blank_before n x a ha la))
compare_bytes-padded zero (x ∷ a) (y ∷ b) ha hb la lb = absurd (omega arith)
compare_bytes-padded (suc n) (x ∷ a) (y ∷ b) ha hb la lb =
    let ea : suc n - suc (length a) ≡ n - length a = omega arith in
    let eb : suc n - suc (length b) ≡ n - length b = omega arith in
    let rest =
      compare_bytes-padded n a b (ends_tail x a ha) (ends_tail y b hb) (omega arith)
        (omega arith) in
    rw (ea, eb, rest)
