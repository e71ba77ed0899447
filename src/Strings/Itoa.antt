-- ===== src/Strings/Itoa.antt =====
-- helper/string/string.c: `str_itoa` prints an `int`, and `str_atoi` reads it back.
use windoge_os.Common.{
  ℕ, zero, suc, ◌+◌, ◌-◌, ◌/◌, ◌%◌, ◌≤◌, ◌<◌, ◌≡◌, refl, inl, inr, arith, true, false, List, [],
  ◌∷◌, ◌++◌, ◌==◌, length, length-append, ◌∙◌, sym, ap, Bool-cases,
}
use windoge_os.Common.Int.{ℤ, pos, negsuc, pos_part, sub_ℕ, ◌+ℤ◌}
use windoge_os.Common.Mem.{Mem, write, Holds, IsText}
use windoge_os.Strings.Read.{int_max, str_atoi}
use windoge_os.Strings.Parse.{str_atoi-value}
use windoge_os.Strings.Format.{
  put_digits, swap_loop, tdiv10, trem10, neg_ℤ, put_int_digits, itoa_finish, str_itoa,
}
use windoge_os.Strings.Reverse.{
  poke, digits_of, put_digits-poke, rev_append, rev_append-append, length-rev_append,
}
use windoge_os.Strings.Print.{
  IsDecimal, AllDigits-digits_of, AllDigits-IsText, digits_of-IsDecimal, digits_of_pos,
  zero-IsDecimal, reverse_in_place,
}
use windoge_os.Strings.Decimal.{suc-ne-zero}

minus_suc : (k : ℕ) → sub_ℕ 0 (suc k) ≡ negsuc k
minus_suc k = ground arith

minus_digit : (r : ℕ) → pos_part (neg_ℤ (sub_ℕ 0 r) +ℤ pos b'0') ≡ r + b'0'
unfolding neg_ℤ ◌+ℤ◌
minus_digit r = ground arith

plus_digit : (r : ℕ) → pos_part (pos r +ℤ pos b'0') ≡ r + b'0'
unfolding ◌+ℤ◌
plus_digit r = ground arith

trem10-negsuc : (k : ℕ) → trem10 (negsuc k) ≡ sub_ℕ 0 (suc k % 10)
unfolding trem10
trem10-negsuc k = refl

tdiv10-negsuc : (k : ℕ) → tdiv10 (negsuc k) ≡ sub_ℕ 0 (suc k / 10)
unfolding tdiv10
tdiv10-negsuc k = refl

trem10-pos : (n : ℕ) → trem10 (pos n) ≡ pos (n % 10)
unfolding trem10
trem10-pos n = refl

tdiv10-pos : (n : ℕ) → tdiv10 (pos n) ≡ pos (n / 10)
unfolding tdiv10
tdiv10-pos n = refl

-- On either sign the loop stores the digits of the magnitude.
put_int-minus : (f k i : ℕ) (m : Mem) → put_int_digits f true (sub_ℕ 0 k) i m ≡ put_digits f k i m
unfolding put_int_digits put_digits
put_int-minus zero k i m = refl
put_int-minus (suc f) zero i m = refl
put_int-minus (suc f) (suc k) i m =
    rw (minus_suc k, put_int_digits, suc-ne-zero k, trem10-negsuc, tdiv10-negsuc, minus_digit)
      (put_int-minus f (suc k / 10) (suc i) (write m i (suc k % 10 + b'0')))

put_int-plus : (f k i : ℕ) (m : Mem) → put_int_digits f false (pos k) i m ≡ put_digits f k i m
unfolding put_int_digits put_digits
put_int-plus zero k i m = refl
put_int-plus (suc f) k i m = elim (Bool-cases (k == 0)) [
  | inl e ↦ rw (e, put_int_digits, put_digits)
  | inr e ↦
      rw (e, put_int_digits, put_digits, trem10-pos, tdiv10-pos, plus_digit)
        (put_int-plus f (k / 10) (suc i) (write m i (k % 10 + b'0')))
]

pub poke-append :
    (l k : List ℕ) (m : Mem) (i : ℕ) → poke m i (l ++ k) ≡ poke (poke m i l) (i + length l) k
unfolding poke
poke-append [] k m i = ap (λ j. poke m j k) {x = i} {y = i + 0} (omega arith)
poke-append (c ∷ l) k m i =
    poke-append l k (write m i c) (suc i)
    ∙ ap (λ j. poke (poke (write m i c) (suc i) l) j k) {x = suc i + length l} (omega arith)

-- What `str_itoa` leaves for a negative number: a minus sign, then the digits.
IsText-snoc : (l : List ℕ) → IsText l → IsText (l ++ (b'-' ∷ []))
IsText-snoc [] h = (omega arith, tt)
IsText-snoc (c ∷ l) h = (h.0, IsText-snoc l h.1)

-- The text of an `int`: a decimal text, behind a minus sign if the number is negative.
abbrev pub IsIntText : List ℕ → ℤ → Type 0
IsIntText s (pos v) = IsDecimal s v 10
IsIntText s (negsuc k) = (t : List ℕ) × (s ≡ b'-' ∷ t) × IsDecimal t (suc k) 10

-- The magnitudes of a 32-bit `int`.
abbrev pub IsInt : ℤ → Type 0
IsInt (pos v) = v ≤ int_max
IsInt (negsuc k) = k ≤ int_max

put_int-negsuc :
    (f k i : ℕ) (m : Mem) → put_int_digits f true (negsuc k) i m ≡ put_digits f (suc k) i m
put_int-negsuc f k i m =
    ap (λ z. put_int_digits f true z i m) (sym (minus_suc k)) ∙ put_int-minus f (suc k) i m

-- A list stored at the start of the memory, terminated and reversed in place.
abbrev reversed : Mem → List ℕ → Mem
reversed m l = swap_loop (length l) 0 (length l - 1) (write (poke m 0 l) (length l) 0)

str_itoa-pos : (v : ℕ) (m : Mem) → str_itoa (pos (suc v)) m ≡ reversed m (digits_of 10 (suc v))
unfolding str_itoa itoa_finish
str_itoa-pos v m =
    rw (suc-ne-zero v, put_int-plus, put_digits-poke)
      (ap (λ j. swap_loop j 0 (j - 1) (write (poke m 0 (digits_of 10 (suc v))) j 0))
        {x = 0 + length (digits_of 10 (suc v))} {y = length (digits_of 10 (suc v))} (omega arith))

str_itoa-negsuc :
    (k : ℕ) (m : Mem) → str_itoa (negsuc k) m ≡ reversed m (digits_of 10 (suc k) ++ (b'-' ∷ []))
unfolding str_itoa itoa_finish
str_itoa-negsuc k m =
    rw (put_int-negsuc, put_digits-poke)
      (ap (λ j. swap_loop j 0 (j - 1) (write (write (poke m 0 l) (0 + length l) b'-') j 0))
          {x = suc (0 + length l)} {y = length (l ++ (b'-' ∷ []))}
          (omega (arith, length-append l (b'-' ∷ [])))
        ∙ ap
            (λ x.
              swap_loop (length (l ++ (b'-' ∷ []))) 0 (length (l ++ (b'-' ∷ [])) - 1)
                (write x (length (l ++ (b'-' ∷ []))) 0))
            (sym (poke-append l (b'-' ∷ []) m 0 ∙ unfold poke in refl)))
  where
    l : List ℕ
    l = digits_of 10 (suc k)

-- What `str_itoa` leaves: the text of the number, terminated, and nothing behind it.
pub record PrintedInt (before after : Mem) (n : ℤ) : Type 0 where
  pub text : List ℕ
  pub spells : IsIntText text n
  pub holds : Holds after 0 text
  pub frame : (q : ℕ) → length text < q → after q ≡ before q

-- For every 32-bit `int` the memory holds its text: the decimal text of the magnitude, behind a
-- minus sign if the number is negative; nothing is written behind the terminator.
pub str_itoa-PrintedInt : (n : ℤ) (m : Mem) → IsInt n → PrintedInt m (str_itoa n m) n
str_itoa-PrintedInt (pos zero) m h =
    unfold str_itoa in
    record {
      text = b'0' ∷ [];
      spells = zero-IsDecimal 9;
      holds = (refl, omega arith, refl);
      frame = λ q k. ground arith;
    }
str_itoa-PrintedInt (pos (suc v)) m h = rw (str_itoa-pos v m) (record {
  text = rev_append l [];
  spells = digits_of-IsDecimal 10 (suc v) (omega arith) (omega arith);
  holds = done.0;
  frame = λ q k. done.1 q (omega (arith, length-rev_append l []));
})
  where
    l : List ℕ
    l = digits_of 10 (suc v)

    done :
        Holds (reversed m l) 0 (rev_append l []) × ((q : ℕ) → length l < q → reversed m l q ≡ m q)
    done =
        reverse_in_place m l (AllDigits-IsText l (AllDigits-digits_of 10 (suc v)))
          (digits_of_pos 10 (suc v) (omega arith) (omega arith))
str_itoa-PrintedInt (negsuc k) m h = rw (str_itoa-negsuc k m) (record {
  text = rev_append l [];
  spells = (
    rev_append (digits_of 10 (suc k)) [],
    rev_append-append (digits_of 10 (suc k)) (b'-' ∷ []) [] ∙ unfold rev_append in refl,
    digits_of-IsDecimal 10 (suc k) (omega arith) (omega arith),
  );
  holds = done.0;
  frame = λ q j. done.1 q (omega (arith, length-rev_append l []));
})
  where
    l : List ℕ
    l = digits_of 10 (suc k) ++ (b'-' ∷ [])

    done :
        Holds (reversed m l) 0 (rev_append l []) × ((q : ℕ) → length l < q → reversed m l q ≡ m q)
    done =
        reverse_in_place m l
          (IsText-snoc (digits_of 10 (suc k))
            (AllDigits-IsText (digits_of 10 (suc k)) (AllDigits-digits_of 10 (suc k))))
          (omega (arith, length-append (digits_of 10 (suc k)) (b'-' ∷ [])))

read_digits :
    (s : List ℕ) (v : ℕ) → v ≤ int_max → IsDecimal s v 10 → 0 < length s → str_atoi s ≡ pos v
read_digits [] v h d p = absurd (omega arith)
read_digits (c ∷ s) v h d p = ground (arith, str_atoi-value (c ∷ s), d.spells, d.digits)

text_pos : (s : List ℕ) (v : ℕ) → IsDecimal s v 10 → 0 < length s
text_pos [] v d = elim d.canonical [ inl h ↦ absurd (omega arith) | inr e ↦ absurd (cc) ]
text_pos (c ∷ s) v d = omega arith

read_text : (s : List ℕ) (n : ℤ) → IsInt n → IsIntText s n → str_atoi s ≡ n
read_text s (pos v) h d = read_digits s v h d (text_pos s v d)
read_text s (negsuc k) h (t, e, d) = rw (e, str_atoi-value) (ground (arith, d.spells))

-- Reading back: `str_atoi` of what `str_itoa` prints is the number, for every 32-bit `int`.
pub str_atoi-str_itoa :
    (n : ℤ) (m : Mem) → IsInt n → (s : List ℕ) × Holds (str_itoa n m) 0 s × (str_atoi s ≡ n)
str_atoi-str_itoa n m h =
    let r : PrintedInt m (str_itoa n m) n = str_itoa-PrintedInt n m h in
    (r.text, r.holds, read_text r.text n h r.spells)
