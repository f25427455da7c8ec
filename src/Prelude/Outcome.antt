-- ===== src/Prelude/Outcome.antt =====
-- The result of a fallible Rust function: `Ok`, `Err`, or a panic of an `expect`, an index or a
-- slice. A panic is a value, so that its absence is a theorem.
use mathlib.Core.Path.{◌≡◌, refl, ap}
use mathlib.Core.Option.{Option, none, some}
use mathlib.Core.Bool.{Bool, true, false}
use rs_redbase.Prelude.Tests.{if◌then◌else◌}

pub data Result {ℓ} (E : Type 0) (A : Type ℓ) : Type ℓ where
  ok : A → Result E A
  err : E → Result E A
  panicked : Result E A

infixl 5 ◌>>=◌ ◌>>◌
-- The `?` operator.
abbrev pub ◌>>=◌ {ℓ κ} :
    {E : Type 0} {A : Type ℓ} {B : Type κ} → Result E A → (A → Result E B) → Result E B
ok a >>= f = f a
err e >>= f = err e
panicked >>= f = panicked

abbrev pub ◌>>◌ {ℓ} : {E : Type 0} {B : Type ℓ} → Result E (Unit {0}) → Result E B → Result E B
m >> k = m >>= λ _. k

-- `?` across two error types, by `From`.
abbrev pub map_err {ℓ} : {E F : Type 0} {A : Type ℓ} → (E → F) → Result E A → Result F A
map_err f (ok a) = ok a
map_err f (err e) = err (f e)
map_err f panicked = panicked

-- `Option::ok_or`.
abbrev pub ok_or {ℓ} : {E : Type 0} {A : Type ℓ} → Option A → E → Result E A
ok_or none e = err e
ok_or (some a) e = ok a

-- `Option::expect`, and an index that is in range or panics.
abbrev pub expect {ℓ} : {E : Type 0} {A : Type ℓ} → Option A → Result E A
expect none = panicked
expect (some a) = ok a

-- The call succeeds, with a value for which `Post` holds.
abbrev pub Returns {ℓ κ} : {E : Type 0} {X : Type ℓ} → Result E X → (X → Type κ) → Type (ℓ ⊔ κ)
Returns {X} outcome Post = (x : X) × (outcome ≡ ok x) × Post x

-- A chain that succeeded: its first step returned some value, and the rest succeeded from it.
pub bind_succeeds {ℓ κ} :
    {E : Type 0} {X : Type ℓ} {Y : Type κ} (first : Result E X) (next : X → Result E Y) {y : Y}
    → (first >>= next) ≡ ok y
    → (x : X) × (first ≡ ok x) × (next x ≡ ok y)
bind_succeeds (ok x) next run = (x, refl, run)
bind_succeeds (err problem) next run = cc
bind_succeeds panicked next run = cc

-- Both parts of a sequence that passed have passed.
pub first_passed :
    {E : Type 0} (m n : Result E (Unit {0})) → (m >> n) ≡ ok tt → (m ≡ ok tt) × (n ≡ ok tt)
first_passed (ok u) n h = (refl, h)
first_passed (err e) n h = cc
first_passed panicked n h = cc

-- A step that a check guards, and what follows it: the checks gather in front.
pub bind_checked {ℓ κ} :
    {E : Type 0} {A : Type ℓ} {B : Type κ} (m n : Result E (Unit {0})) (r : Result E A)
    (f : A → Result E B) (a : A) (b : B)
    → r ≡ (m >>= λ _. ok a)
    → (m ≡ ok tt → f a ≡ (n >>= λ _. ok b))
    → (r >>= f) ≡ ((m >> n) >>= λ _. ok b)
bind_checked (ok u) n r f a b e h = rw e (h refl)
bind_checked (err x) n r f a b e h = rw e
bind_checked panicked n r f a b e h = rw e

abbrev value_or {ℓ} : {E : Type 0} {A : Type ℓ} → A → Result E A → A
value_or d (ok a) = a
value_or d _ = d

pub ok_injective {ℓ} :
    {E : Type 0} {A : Type ℓ} {a b : A} → ◌≡◌ {A = Result E A} (ok a) (ok b) → a ≡ b
ok_injective {a} h = ap (value_or a) h

-- An early return that was not taken.
pub guard_passed {ℓ} :
    {E : Type 0} {X : Type ℓ} (refused : Bool) (problem : E) (next : Result E X) {y : X}
    → (if refused then err problem else next) ≡ ok y
    → (refused ≡ false) × (next ≡ ok y)
guard_passed true problem next run = cc
guard_passed false problem next run = (refl, run)
