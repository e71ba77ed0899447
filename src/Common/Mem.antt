-- ===== src/Common/Mem.antt =====
-- Byte memory as a function of the address, for code that writes through pointers and may alias.
use Prim.Native.Nat.{ℕ, suc, ◌+◌, ◌<◌, ◌≤◌}
use mathlib.Core.Path.{◌≡◌}
use mathlib.Core.Logic.{◌≢◌}
use mathlib.Core.List.{List, [], ◌∷◌}
use native.Mathlib.Omega.{arith}
use windoge_os.Common.Tests.{◌==◌, if◌then◌else◌}
use windoge_os.Common.Lists.{length}

abbrev pub Mem : Type 0
Mem = ℕ → ℕ

-- `m[p] = v`
abbrev pub write : Mem → ℕ → ℕ → Mem
write m p v q = if p == q then v else m q

-- `*s` for a pointer into a text: past its bytes stands the terminator.
abbrev pub chr : List ℕ → ℕ
chr [] = 0
chr (c ∷ s) = c

abbrev pub next : List ℕ → List ℕ
next [] = []
next (c ∷ s) = s

-- A text has no terminator inside.
abbrev pub IsText : List ℕ → Type 0
IsText [] = Unit
IsText (c ∷ s) = (c ≢ 0) × IsText s

-- The memory holds the text `s` with its terminator from `p` on.
abbrev pub Holds : Mem → ℕ → List ℕ → Type 0
Holds m p [] = m p ≡ 0
Holds m p (c ∷ s) = (m p ≡ c) × (c ≢ 0) × Holds m (suc p) s

pub Holds-IsText : (m : Mem) (p : ℕ) (s : List ℕ) → Holds m p s → IsText s
Holds-IsText m p [] h = tt
Holds-IsText m p (c ∷ s) h = (h.1, Holds-IsText m (suc p) s h.2)

-- What is held depends on the addresses of the text alone.
pub Holds-frame :
    (m m' : Mem) (p : ℕ) (s : List ℕ)
    → ((q : ℕ) → p ≤ q → q < p + length s + 1 → m' q ≡ m q)
    → Holds m p s
    → Holds m' p s
Holds-frame m m' p [] same h = ground (arith, same p (omega arith) (omega arith))
Holds-frame m m' p (c ∷ s) same h = (
  ground (arith, same p (omega arith) (omega arith)),
  h.1,
  Holds-frame m m' (suc p) s (λ q a b. same q (omega arith) (omega arith)) h.2,
)
