-- ===== src/Prelude/Call.antt =====
-- A call that may change a state and fail: `&mut self` with a `Result`. What was written before an
-- error stays written, so the state comes back with the error too.
use mathlib.Core.Path.{◌≡◌, ap, ◌∙◌}
use mathlib.Core.Bool.{Bool}
use rs_redbase.Prelude.Tests.{if◌then◌else◌}
use rs_redbase.Prelude.Outcome.{Result, ok, err, panicked}

abbrev pub Call : Type 0 → Type 0 → Type 0 → Type 0
Call S E A = S → S × Result E A

abbrev pub resume : {S E A B : Type 0} → (A → Call S E B) → S → Result E A → S × Result E B
resume f s (ok a) = f a s
resume f s (err e) = (s, err e)
resume f s panicked = (s, panicked)

infixl 5 ◌>>=◌ ◌>>◌
abbrev pub ◌>>=◌ : {S E A B : Type 0} → Call S E A → (A → Call S E B) → Call S E B
◌>>=◌ m f s = let (s', r) = m s in resume f s' r

abbrev pub ◌>>◌ : {S E B : Type 0} → Call S E (Unit {0}) → Call S E B → Call S E B
m >> k = m >>= λ _. k

abbrev pub pure : {S E A : Type 0} → A → Call S E A
pure a s = (s, ok a)

-- A computation that only reads the state.
abbrev pub reads : {S E A : Type 0} → (S → Result E A) → Call S E A
reads f s = (s, f s)

abbrev pub gets : {S E A : Type 0} → (S → A) → Call S E A
gets f s = (s, ok (f s))

abbrev pub modify : {S E : Type 0} → (S → S) → Call S E (Unit {0})
modify f s = (f s, ok tt)

abbrev pub fail_if : {S E : Type 0} → Bool → E → Call S E (Unit {0})
fail_if refused problem s = (s, if refused then err problem else ok tt)

-- The call succeeds, with a value and a state for which `Post` holds.
abbrev pub Runs : {S E A : Type 0} → Call S E A → S → (A → S → Type 0) → Type 0
Runs {S} {A} m s Post = (a : A) × (s' : S) × (m s ≡ (s', ok a)) × Post a s'

-- A chain whose first step ran: the rest goes on from the value and the state it left.
pub after_run :
    {S E A B : Type 0} (m : Call S E A) (f : A → Call S E B) (s : S) {a : A} {s' : S}
    → m s ≡ (s', ok a)
    → (m >>= f) s ≡ f a s'
after_run m f s e = ap (λ p. resume f p.0 p.1) e

pub Runs-bind :
    {S E A B : Type 0} (m : Call S E A) (f : A → Call S E B) (s : S) {Mid : A → S → Type 0}
    {Post : B → S → Type 0}
    → Runs m s Mid
    → ((a : A) (s' : S) → Mid a s' → Runs (f a) s' Post)
    → Runs (m >>= f) s Post
Runs-bind m f s (a, s1, run, mid) rest =
    let (b, s2, run2, post) = rest a s1 mid in (b, s2, after_run m f s run ∙ run2, post)
