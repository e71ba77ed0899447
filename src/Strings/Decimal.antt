-- ===== src/Strings/Decimal.antt =====
-- helper/string/string.c: `str_kutoa`, `str_u64toa`, `str_ltoa` and `u16_to_str` print decimal texts.
use windoge_os.Common.{
  ℕ, zero, suc, ◌+◌, ◌-◌, ◌^◌, ◌≤◌, ◌<◌, ◌≡◌, refl, arith, false, List, [], ◌==◌, length, get_or,
  ap,
}
use mathlib.Core.Path.{subst, sym}
use windoge_os.Common.Mem.{Mem, write, Holds}
use windoge_os.Strings.Read.{str_to_u16}
use windoge_os.Strings.Parse.{str_to_u16-value}
use windoge_os.Strings.Format.{
  put_digits, swap_loop, copy_back, str_kutoa, str_u64toa, str_ltoa, u16_to_str,
}
use windoge_os.Strings.Reverse.{
  poke, poke_inside, digits_of, put_digits-poke, copy_back_outside, copy_back_inside, rev_append,
  length-rev_append, Holds-reverse,
}
use windoge_os.Strings.Print.{
  Printed, AllDigits-digits_of, AllDigits-IsText, digits_of-IsDecimal, digits_of_pos, print_zero,
  reverse_in_place,
}

pub suc-ne-zero : (v : ℕ) → (suc v == 0) ≡ false
suc-ne-zero v = ground arith

-- The digits, terminated and reversed in place.
in_place-Printed :
    (m : Mem) (v : ℕ)
    → 0 < v
    → v < 2 ^ 64
    → let (m1, i) = put_digits 20 v 0 m in Printed m (swap_loop i 0 (i - 1) (write m1 i 0)) v 20
in_place-Printed m v p h = rw (put_digits-poke 20 v 0 m) (record {
  text = rev_append l [];
  decimal = digits_of-IsDecimal 20 v p (omega arith);
  holds = done.0;
  frame = λ q k. done.1 q (omega (arith, length-rev_append l []));
})
  where
    l : List ℕ
    l = digits_of 20 v

    done :
        let after =
          swap_loop (0 + length l) 0 (0 + length l - 1) (write (poke m 0 l) (0 + length l) 0) in
        Holds after 0 (rev_append l []) × ((q : ℕ) → length l < q → after q ≡ m q)
    done =
        subst
          (λ k.
            let after = swap_loop k 0 (k - 1) (write (poke m 0 l) k 0) in
            Holds after 0 (rev_append l []) × ((q : ℕ) → length l < q → after q ≡ m q))
          (omega arith)
          (reverse_in_place m l (AllDigits-IsText l (AllDigits-digits_of 20 v))
            (digits_of_pos 20 v p (omega arith)))

-- The digits, copied backwards from a scratch array.
copied-Printed :
    (f : ℕ) (temp m : Mem) (v : ℕ)
    → 0 < v
    → v < 10 ^ f
    → let (temp1, i) = put_digits f v 0 temp in Printed m (write (copy_back i 0 temp1 m) i 0) v f
copied-Printed f temp m v p h = rw (put_digits-poke f v 0 temp) (record {
  text = rev_append l [];
  decimal = digits_of-IsDecimal f v p h;
  holds = Holds-reverse l [] after 0 (AllDigits-IsText l (AllDigits-digits_of f v)) inside end;
  frame = outside;
})
  where
    l : List ℕ
    l = digits_of f v

    stored : Mem
    stored = poke temp 0 l

    after : Mem
    after = write (copy_back (0 + length l) 0 stored m) (0 + length l) 0

    inside : (j : ℕ) → j < length l → after (0 + j) ≡ get_or l (length l - 1 - j) 0
    inside j k = ground (
      arith,
      copy_back_inside (0 + length l) 0 stored m j,
      poke_inside l temp 0 (length l - 1 - j),
      ap stored {x = 0 + length l - 1 - j} {y = 0 + (length l - 1 - j)} (omega arith),
    )

    end : after (0 + length l) ≡ 0
    end = ground arith

    outside : (q : ℕ) → length (rev_append l []) < q → after q ≡ m q
    outside q k =
        ground (arith, length-rev_append l [], copy_back_outside (0 + length l) 0 stored m q)

-- `str_kutoa` leaves the decimal text of any 64-bit number: digits, no leading zero, the right
-- value, a terminator behind at most 20 bytes, and nothing written beyond.
str_kutoa-Printed : (v : ℕ) (m : Mem) → v < 2 ^ 64 → Printed m (str_kutoa v m) v 20
unfolding str_kutoa
str_kutoa-Printed zero m h = print_zero m 19
str_kutoa-Printed (suc v) m h = rw (suc-ne-zero v) (in_place-Printed m (suc v) (omega arith) h)

-- `str_u64toa` leaves exactly what `str_kutoa` leaves.
pub str_u64toa-eq-str_kutoa : (v : ℕ) (m : Mem) → str_u64toa v m ≡ str_kutoa v m
unfolding str_u64toa str_kutoa
str_u64toa-eq-str_kutoa v m = refl

-- `str_ltoa` leaves the decimal text of any 64-bit number, whatever its scratch array held.
str_ltoa-Printed : (temp : Mem) (v : ℕ) (m : Mem) → v < 2 ^ 64 → Printed m (str_ltoa temp v m) v 20
unfolding str_ltoa
str_ltoa-Printed temp zero m h = print_zero m 19
str_ltoa-Printed temp (suc v) m h =
    rw (suc-ne-zero v) (copied-Printed 20 temp m (suc v) (omega arith) (omega arith))

-- `str_kutoa`, `str_u64toa` and `str_ltoa` all leave the decimal text of any 64-bit number, whatever
-- the scratch array held: digits, no leading zero, the right value, a terminator behind at most 20
-- bytes, and nothing written beyond.
pub decimals-Printed :
    (temp : Mem) (v : ℕ) (m : Mem)
    → v < 2 ^ 64
    → Printed m (str_kutoa v m) v 20
      × Printed m (str_u64toa v m) v 20
      × Printed m (str_ltoa temp v m) v 20
decimals-Printed temp v m h = (
  str_kutoa-Printed v m h,
  subst (λ x. Printed m x v 20) (sym (str_u64toa-eq-str_kutoa v m)) (str_kutoa-Printed v m h),
  str_ltoa-Printed temp v m h,
)

pub u16_to_str-Printed :
    (buf : Mem) (v : ℕ) (m : Mem) → v < 2 ^ 16 → Printed m (u16_to_str buf v m) v 5
unfolding u16_to_str
u16_to_str-Printed buf zero m h = print_zero m 4
u16_to_str-Printed buf (suc v) m h =
    rw (suc-ne-zero v) (copied-Printed 5 buf m (suc v) (omega arith) (omega arith))

-- What `u16_to_str` prints, `str_to_u16` reads back: for every 16-bit number the memory holds a
-- text of at most five bytes that parses to the number.
pub str_to_u16-u16_to_str :
    (buf : Mem) (v : ℕ) (m : Mem)
    → v < 2 ^ 16
    → (s : List ℕ) × Holds (u16_to_str buf v m) 0 s × (str_to_u16 s ≡ v) × (length s ≤ 5)
str_to_u16-u16_to_str buf v m h =
    let r : Printed m (u16_to_str buf v m) v 5 = u16_to_str-Printed buf v m h in
    (r.text, r.holds, omega (arith, str_to_u16-value r.text, r.decimal.spells), r.decimal.short)
