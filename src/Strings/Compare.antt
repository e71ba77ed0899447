-- ===== src/Strings/Compare.antt =====
-- helper/string/string.c: what the comparing functions decide about texts.
use windoge_os.Common.{
  ℕ, zero, suc, ◌≡◌, refl, ◌↔◌, arith, some, List, [], ◌∷◌, ◌++◌, length, take, ap, ◌∙◌, sym,
}
use windoge_os.Common.Int.{pos, sub_ℕ}
use windoge_os.Common.Mem.{IsText}
use windoge_os.Strings.Read.{str_strlen, str_strcmp, str_strncmp, str_startswith}

pub str_strlen-length : (s : List ℕ) → IsText s → str_strlen (some s) ≡ length s
unfolding str_strlen
str_strlen-length [] h = refl
str_strlen-length (c ∷ s) h = ground (arith, str_strlen-length s h.1, h.0)

-- The differences of two bytes vanish only where the bytes are equal.
sub-zero : (a b : ℕ) → sub_ℕ a b ≡ pos 0 → a ≡ b
sub-zero a b h = ground arith

sub_refl : (a : ℕ) → sub_ℕ a a ≡ pos 0
sub_refl a = ground arith

strcmp_sound : (s t : List ℕ) → IsText s → IsText t → str_strcmp s t ≡ pos 0 → s ≡ t
unfolding str_strcmp
strcmp_sound [] [] hs ht e = refl
strcmp_sound [] (d ∷ t) hs ht e = ground (arith, ht.0)
strcmp_sound (c ∷ s) [] hs ht e = ground (arith, hs.0)
strcmp_sound (c ∷ s) (d ∷ t) hs ht e = ground (arith, hs.0, strcmp_sound s t hs.1 ht.1)

strcmp_complete : (s : List ℕ) → IsText s → str_strcmp s s ≡ pos 0
unfolding str_strcmp
strcmp_complete [] hs = refl
strcmp_complete (c ∷ s) hs = ground (arith, hs.0, strcmp_complete s hs.1)

-- `str_strcmp` returns 0 on exactly the equal texts.
pub str_strcmp_iff : (s t : List ℕ) → IsText s → IsText t → (str_strcmp s t ≡ pos 0) ↔ (s ≡ t)
str_strcmp_iff s t hs ht =
    (strcmp_sound s t hs ht, λ e. ap (str_strcmp s) (sym e) ∙ strcmp_complete s hs)

strncmp_sound :
    (n : ℕ) (s t : List ℕ) → IsText s → IsText t → str_strncmp s t n ≡ pos 0 → take n s ≡ take n t
unfolding str_strncmp
strncmp_sound zero s t hs ht e = refl
strncmp_sound (suc n) [] [] hs ht e = refl
strncmp_sound (suc n) [] (d ∷ t) hs ht e = ground (arith, ht.0)
strncmp_sound (suc n) (c ∷ s) [] hs ht e = ground (arith, hs.0)
strncmp_sound (suc n) (c ∷ s) (d ∷ t) hs ht e = ground (arith, hs.0, strncmp_sound n s t hs.1 ht.1)

strncmp_complete :
    (n : ℕ) (s t : List ℕ) → IsText s → IsText t → take n s ≡ take n t → str_strncmp s t n ≡ pos 0
unfolding str_strncmp
strncmp_complete zero s t hs ht e = refl
strncmp_complete (suc n) [] [] hs ht e = refl
strncmp_complete (suc n) [] (d ∷ t) hs ht e = cc
strncmp_complete (suc n) (c ∷ s) [] hs ht e = cc
strncmp_complete (suc n) (c ∷ s) (d ∷ t) hs ht e =
    ground (arith, hs.0, strncmp_complete n s t hs.1 ht.1)

-- `str_strncmp` returns 0 exactly when the texts agree in their first `n` bytes, a text that is
-- shorter counting with its end.
pub str_strncmp_iff :
    (s t : List ℕ) (n : ℕ)
    → IsText s
    → IsText t
    → (str_strncmp s t n ≡ pos 0) ↔ (take n s ≡ take n t)
str_strncmp_iff s t n hs ht = (strncmp_sound n s t hs ht, strncmp_complete n s t hs ht)

startswith_sound :
    (s p : List ℕ) → IsText p → str_startswith s p ≡ 1 → (rest : List ℕ) × (s ≡ p ++ rest)
unfolding str_startswith
startswith_sound s [] hp e = (s, refl)
startswith_sound [] (d ∷ p) hp e = absurd (ground (arith, hp.0))
startswith_sound (c ∷ s) (d ∷ p) hp e =
    let (rest, r) = startswith_sound s p hp.1 (ground (arith, hp.0)) in (rest, ground (arith, hp.0))

startswith_complete : (p rest : List ℕ) → IsText p → str_startswith (p ++ rest) p ≡ 1
unfolding str_startswith
startswith_complete [] rest hp = refl
startswith_complete (c ∷ p) rest hp = ground (arith, hp.0, startswith_complete p rest hp.1)

-- `str_startswith` returns 1 exactly when the text is the prefix followed by something.
pub str_startswith_iff :
    (s p : List ℕ) → IsText p → (str_startswith s p ≡ 1) ↔ ((rest : List ℕ) × (s ≡ p ++ rest))
str_startswith_iff s p hp = (
  startswith_sound s p hp,
  λ (rest, e). ap (λ x. str_startswith x p) e ∙ startswith_complete p rest hp,
)

-- The three comparisons decide equality, equality of the first `n` bytes, and being a prefix.
pub comparisons_iff :
    (s t : List ℕ) (n : ℕ)
    → IsText s
    → IsText t
    → ((str_strcmp s t ≡ pos 0) ↔ (s ≡ t))
      × ((str_strncmp s t n ≡ pos 0) ↔ (take n s ≡ take n t))
      × ((str_startswith s t ≡ 1) ↔ ((rest : List ℕ) × (s ≡ t ++ rest)))
comparisons_iff s t n hs ht =
    (str_strcmp_iff s t hs ht, str_strncmp_iff s t n hs ht, str_startswith_iff s t ht)
