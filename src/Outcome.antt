-- ===== src/Outcome.antt =====
-- The outcome of an operation, and a state monad over it. An `async fn` on `&mut s` is an
-- `Action` on the value of `s`, and `?` is `>>=`: what was done before an error stays done.
use iperf3_rust.Common.{◌≡◌, refl, Bool, true, false}

-- `panic` is a failed `assert!`, `expect` or `unwrap`. `hang` says that a loop has used up the
-- rounds given to it, or that the program waits for ever.
pub data Result (E A : Type 0) : Type 0 where
  ok : A → Result E A
  err : E → Result E A
  panic hang : Result E A

abbrev pub map_err : {E F A : Type 0} → (E → F) → Result E A → Result F A
map_err f (ok a) = ok a
map_err f (err e) = err (f e)
map_err f panic = panic
map_err f hang = hang

abbrev pub Action : Type 0 → Type 0 → Type 0 → Type 0
Action E S A = S → Result E A × S

abbrev pub continue_with : {E S A B : Type 0} → Result E A × S → (A → Action E S B) → Result E B × S
continue_with (ok a, s) f = f a s
continue_with (err e, s) f = (err e, s)
continue_with (panic, s) f = (panic, s)
continue_with (hang, s) f = (hang, s)

infixl 5 ◌>>=◌ ◌>>◌
abbrev pub ◌>>=◌ : {E S A B : Type 0} → Action E S A → (A → Action E S B) → Action E S B
◌>>=◌ m f s = continue_with (m s) f

abbrev pub ◌>>◌ : {E S B : Type 0} → Action E S (Unit {0}) → Action E S B → Action E S B
m >> k = m >>= λ _. k

abbrev pub pure : {E S A : Type 0} → A → Action E S A
pure a s = (ok a, s)

abbrev pub throw : {E S A : Type 0} → E → Action E S A
throw e s = (err e, s)

abbrev pub assert : {E S : Type 0} → Bool → Action E S (Unit {0})
assert true s = (ok tt, s)
assert false s = (panic, s)

abbrev pub with_error : {E F S A : Type 0} → (E → F) → Result E A × S → Result F A × S
with_error f (r, s) = (map_err f r, s)

abbrev pub mapping_error : {E F S A : Type 0} → (E → F) → Action E S A → Action F S A
mapping_error f m s = with_error f (m s)

-- A success of two steps is a success of the first, and the second goes on from there.
pub continue_with-eq-ok :
    {E S A B : Type 0} (p : Result E A × S) (f : A → Action E S B) {b : B}
    → (continue_with p f).0 ≡ ok b
    → (a : A) × (p.0 ≡ ok a) × (continue_with p f ≡ f a p.1)
continue_with-eq-ok (ok a, s) f h = (a, refl, refl)
continue_with-eq-ok (err e, s) f h = cc
continue_with-eq-ok (panic, s) f h = cc
continue_with-eq-ok (hang, s) f h = cc
