-- ===== src/Common/Step.antt =====
-- Actions on a state that may fail: C functions that return an error code, or jump to a label for
-- failures. What a failed action has done to the state stays done.
use mathlib.Core.Path.{◌≡◌, refl}
use mathlib.Core.Bool.{Bool, true, false}
use windoge_os.Common.Tests.{if◌then◌else◌}

-- `failed` is the failure; `stuck` stands for a loop whose fuel ran out.
pub data Outcome (A : Type 0) : Type 0 where
  done : A → Outcome A
  failed stuck : Outcome A

abbrev pub Step : Type 0 → Type 0 → Type 0
Step S A = S → Outcome A × S

abbrev pub next : {S A B : Type 0} → Outcome A × S → (A → Step S B) → Outcome B × S
next (done a, s) f = f a s
next (failed, s) f = (failed, s)
next (stuck, s) f = (stuck, s)

infixl 5 ◌>>=◌ ◌>>◌
abbrev pub ◌>>=◌ : {S A B : Type 0} → Step S A → (A → Step S B) → Step S B
◌>>=◌ m f s = next (m s) f

abbrev pub ◌>>◌ : {S A B : Type 0} → Step S A → Step S B → Step S B
◌>>◌ m k s = next (m s) (λ _. k)

abbrev pub pure : {S A : Type 0} → A → Step S A
pure a s = (done a, s)

abbrev pub fail : {S A : Type 0} → Step S A
fail s = (failed, s)

abbrev pub out_of_fuel : {S A : Type 0} → Step S A
out_of_fuel s = (stuck, s)

abbrev pub get : {S : Type 0} → Step S S
get s = (done s, s)

abbrev pub put : {S : Type 0} → S → Step S (Unit {0})
put s _ = (done tt, s)

-- `if (test) return -1;`
abbrev pub reject_if : {S : Type 0} → Bool → Step S (Unit {0})
reject_if test s = if test then (failed, s) else (done tt, s)

-- The action ends: with `P` of its value and state, or it fails with `F` of the state.
pub data Ensures {S A : Type 0} (P : A → S → Type 0) (F : S → Type 0) : Outcome A × S → Type 0 where
  holds : {a : A} {s : S} → P a s → Ensures P F (done a, s)
  rejected : {s : S} → F s → Ensures P F (failed, s)

module _ {S A B : Type 0} {P : A → S → Type 0} {Q : B → S → Type 0} {F : S → Type 0} where
  pub Ensures-next :
      {r : Outcome A × S} {f : A → Step S B}
      → Ensures P F r
      → ((a : A) (s : S) → P a s → Ensures Q F (f a s))
      → Ensures Q F (next r f)
  Ensures-next (holds {a} {s} h) k = k a s h
  Ensures-next (rejected h) k = rejected h

module _ {S A : Type 0} {P P' : A → S → Type 0} {F : S → Type 0} where
  pub Ensures-weaken :
      {r : Outcome A × S} → Ensures P F r → ((a : A) (s : S) → P a s → P' a s) → Ensures P' F r
  Ensures-weaken (holds {a} {s} h) k = holds (k a s h)
  Ensures-weaken (rejected h) k = rejected h

module _ {S A : Type 0} {P : A → S → Type 0} {F : S → Type 0} where
  pub Ensures-if :
      (b : Bool) {x y : Outcome A × S}
      → (b ≡ true → Ensures P F x)
      → (b ≡ false → Ensures P F y)
      → Ensures P F (if b then x else y)
  Ensures-if true hx hy = hx refl
  Ensures-if false hx hy = hy refl

-- What holds of an outcome that is known.
pub Ensures-done :
    {S A : Type 0} {P : A → S → Type 0} {F : S → Type 0} {a : A} {s : S}
    → Ensures P F (done a, s)
    → P a s
Ensures-done (holds h) = h

-- Other failures.
pub Ensures-fails :
    {S A : Type 0} {P : A → S → Type 0} {F F' : S → Type 0} {r : Outcome A × S}
    → Ensures P F r
    → ((s : S) → F s → F' s)
    → Ensures P F' r
Ensures-fails (holds h) k = holds h
Ensures-fails (rejected {s} h) k = rejected (k s h)

-- Two facts on one action.
pub Ensures-both :
    {S A : Type 0} {P Q : A → S → Type 0} {F : S → Type 0} {r : Outcome A × S}
    → Ensures P F r
    → Ensures Q F r
    → Ensures (λ a s. P a s × Q a s) F r
Ensures-both (holds h) q = holds (h, Ensures-done q)
Ensures-both (rejected h) q = rejected h

module _ {S A : Type 0} {P : A → S → Type 0} {F : S → Type 0} where
  -- A test that rejects, and what comes behind it.
  pub Ensures-reject :
      (b : Bool) (k : Unit {0} → Step S A) {s : S}
      → F s
      → (b ≡ false → Ensures P F (k tt s))
      → Ensures P F (next (reject_if b s) k)
  Ensures-reject true k left go = rejected left
  Ensures-reject false k left go = go refl

  -- One of two actions.
  pub Ensures-choice :
      (b : Bool) (m n : Step S A) {s : S}
      → (b ≡ true → Ensures P F (m s))
      → (b ≡ false → Ensures P F (n s))
      → Ensures P F ((if b then m else n) s)
  Ensures-choice true m n hm hn = hm refl
  Ensures-choice false m n hm hn = hn refl
