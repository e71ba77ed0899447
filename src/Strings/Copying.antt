-- ===== src/Strings/Copying.antt =====
-- helper/string/string.c: what the copying functions leave in the memory.
use windoge_os.Common.{
  ℕ, zero, suc, ◌+◌, ◌-◌, ◌≤◌, ◌<◌, ◌≡◌, refl, ◌≢◌, ◌⊎◌, inl, inr, arith, true, false, some, List,
  [], ◌∷◌, ◌++◌, leb, ◌==◌, length, take, replicate, Bool-cases, ◌∙◌, sym, ap,
}
use mathlib.Core.Path.{subst}
use windoge_os.Common.Mem.{Mem, write, IsText, Holds}
use windoge_os.Strings.Write.{str_strcpy, str_strncpy, find_end, str_strcat, pad_rest, str_pad}

strcpy-outside :
    (s : List ℕ) (m : Mem) (d q : ℕ) → (q < d) ⊎ (d + length s < q) → str_strcpy s m d q ≡ m q
unfolding str_strcpy
strcpy-outside [] m d q h = ground arith
strcpy-outside (c ∷ s) m d q h =
    strcpy-outside s (write m d c) (suc d) q (omega arith) ∙ ground arith

strcpy-Holds : (s : List ℕ) (m : Mem) (d : ℕ) → IsText s → Holds (str_strcpy s m d) d s
unfolding str_strcpy
strcpy-Holds [] m d t = ground arith
strcpy-Holds (c ∷ s) m d t = (
  strcpy-outside s (write m d c) (suc d) d (omega arith) ∙ ground arith,
  t.0,
  strcpy-Holds s (write m d c) (suc d) t.1,
)

-- `str_strncpy` of a text succeeds exactly when the text and its terminator fit the capacity. Then the
-- target holds the text and no byte outside the capacity has changed; else nothing has changed.
pub strncpy_lem :
    (m : Mem) (d capacity : ℕ) (s : List ℕ)
    → IsText s
    → let (done, m') = str_strncpy (some d) (some s) capacity m in
      ((done ≡ true)
        × (length s < capacity)
        × Holds m' d s
        × ((q : ℕ) → (q < d) ⊎ (d + capacity ≤ q) → m' q ≡ m q))
      ⊎ ((done ≡ false) × (capacity ≤ length s) × (m' ≡ m))
unfolding str_strncpy
strncpy_lem m d capacity s t = elim (Bool-cases (capacity == 0)) [
  | inl none_left ↦ rw (none_left, str_strncpy) (inr (refl, ground arith, refl))
  | inr some_left ↦ elim (Bool-cases (leb capacity (length s))) [
    | inl long ↦ rw (some_left, long, str_strncpy) (inr (refl, ground arith, refl))
    | inr fits ↦
        rw (some_left, fits, str_strncpy)
          (inl (
            refl,
            ground arith,
            strcpy-Holds s m d t,
            λ q out. strcpy-outside s m d q (ground arith),
          ))
  ]
]

pub find_end-Holds :
    (a : List ℕ) (fuel : ℕ) (m : Mem) (p : ℕ)
    → length a < fuel
    → Holds m p a
    → find_end fuel m p ≡ some (p + length a)
unfolding find_end
find_end-Holds a zero m p lt h = absurd (omega arith)
find_end-Holds [] (suc fuel) m p lt h = ground (arith, h)
find_end-Holds (c ∷ a) (suc fuel) m p lt h =
    let n : (m p == 0) ≡ false = ground (arith, h.0, h.1) in
    rw n (
      find_end-Holds a fuel m (suc p) (omega arith) h.2
      ∙ ap (λ x. some x) {x = suc p + length a} (omega arith))

-- A text in front of another one, where the first text's bytes have not changed.
Holds-append :
    (a b : List ℕ) (m m' : Mem) (p : ℕ)
    → ((q : ℕ) → p ≤ q → q < p + length a → m' q ≡ m q)
    → Holds m p a
    → Holds m' (p + length a) b
    → Holds m' p (a ++ b)
Holds-append [] b m m' p same ha hb = subst (λ x. Holds m' x b) (the_sum p) hb
  where
    the_sum : (p : ℕ) → p + 0 ≡ p
    the_sum p = omega arith
Holds-append (c ∷ a) b m m' p same ha hb = (
  same p (omega arith) (omega arith) ∙ ha.0,
  ha.1,
  Holds-append a b m m' (suc p) (λ q lo hi. same q (omega arith) (omega arith)) ha.2
      (subst (λ x. Holds m' x b) (moved p (length a)) hb),
)
  where
    moved : (p n : ℕ) → p + suc n ≡ suc p + n
    moved p n = omega arith

-- `str_strcat` behind a text in memory makes the memory hold the one text after the other, and no
-- other byte changes; it returns if the fuel is more than the length of the first text.
pub strcat_lem :
    (fuel d : ℕ) (a b : List ℕ) (m : Mem)
    → length a < fuel
    → IsText b
    → Holds m d a
    → (m' : Mem) × (str_strcat fuel d b m ≡ some m')
      × Holds m' d (a ++ b)
      × ((q : ℕ) → (q < d + length a) ⊎ (d + length a + length b < q) → m' q ≡ m q)
unfolding str_strcat
strcat_lem fuel d a b m lt t h = (
  str_strcpy b m (d + length a),
  rw (find_end-Holds a fuel m d lt h, str_strcat) refl,
  Holds-append a b m (str_strcpy b m (d + length a)) d
      (λ q lo hi. strcpy-outside b m (d + length a) q (inl hi)) h
      (strcpy-Holds b m (d + length a) t),
  strcpy-outside b m (d + length a),
)

pad_rest-outside : (n c : ℕ) (m : Mem) (d q : ℕ) → (q < d) ⊎ (d + n < q) → pad_rest n c m d q ≡ m q
unfolding pad_rest
pad_rest-outside zero c m d q h = ground arith
pad_rest-outside (suc n) c m d q h =
    pad_rest-outside n c (write m d c) (suc d) q (omega arith) ∙ ground arith

pad_rest-Holds : (n c : ℕ) (m : Mem) (d : ℕ) → c ≢ 0 → Holds (pad_rest n c m d) d (replicate n c)
unfolding pad_rest
pad_rest-Holds zero c m d nz = ground arith
pad_rest-Holds (suc n) c m d nz = (
  pad_rest-outside n c (write m d c) (suc d) d (omega arith) ∙ ground arith,
  nz,
  pad_rest-Holds n c (write m d c) (suc d) nz,
)

pad-outside :
    (s : List ℕ) (n c : ℕ) (m : Mem) (d q : ℕ) → (q < d) ⊎ (d + n < q) → str_pad s n c m d q ≡ m q
unfolding str_pad
pad-outside s zero c m d q h = ground arith
pad-outside [] (suc n) c m d q h = pad_rest-outside (suc n) c m d q h
pad-outside (e ∷ s) (suc n) c m d q h =
    pad-outside s n c (write m d e) (suc d) q (omega arith) ∙ ground arith

-- With the number of pad characters given by an equation.
pad-Holds_as :
    (s : List ℕ) (n k c : ℕ) (m : Mem) (d : ℕ)
    → IsText s
    → c ≢ 0
    → k ≡ n - length s
    → Holds (str_pad s n c m d) d (take n s ++ replicate k c)
unfolding str_pad
pad-Holds_as s zero zero c m d t nz e = ground arith
pad-Holds_as s zero (suc k) c m d t nz e = absurd (omega arith)
pad-Holds_as [] (suc n) k c m d t nz e =
    subst (λ x. Holds (pad_rest (suc n) c m d) d (replicate x c)) (sym (e ∙ whole n))
      (pad_rest-Holds (suc n) c m d nz)
  where
    whole : (n : ℕ) → suc n - 0 ≡ suc n
    whole n = omega arith
pad-Holds_as (b ∷ s) (suc n) k c m d t nz e = (
  pad-outside s n c (write m d b) (suc d) d (omega arith) ∙ ground arith,
  t.0,
  pad-Holds_as s n k c (write m d b) (suc d) t.1 nz (omega (arith, e)),
)

pad-Holds :
    (s : List ℕ) (n c : ℕ) (m : Mem) (d : ℕ)
    → IsText s
    → c ≢ 0
    → Holds (str_pad s n c m d) d (take n s ++ replicate (n - length s) c)
pad-Holds s n c m d t nz = pad-Holds_as s n (n - length s) c m d t nz refl

-- `str_pad` writes the text cut to the target length, or followed by the pad character up to that
-- length, and changes nothing but these bytes and the terminator. The pad character is not 0.
pub str_pad_lem :
    (s : List ℕ) (n c : ℕ) (m : Mem) (d : ℕ)
    → IsText s
    → c ≢ 0
    → Holds (str_pad s n c m d) d (take n s ++ replicate (n - length s) c)
      × ((q : ℕ) → (q < d) ⊎ (d + n < q) → str_pad s n c m d q ≡ m q)
str_pad_lem s n c m d t nz = (pad-Holds s n c m d t nz, pad-outside s n c m d)
