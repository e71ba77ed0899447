-- ===== src/Elf/Vector.antt =====
-- helper/core/execute/arguments.h: the argument area is not left.
use windoge_os.Common.{
  ℕ, suc, ◌+◌, ◌-◌, ◌*◌, ◌/◌, ◌%◌, ◌^◌, ◌≤◌, ◌<◌, ◌≡◌, refl, ◌∙◌, Bool, false, ◌||◌, Option, none,
  some, List, [], ◌∷◌, ltb, ◌==◌, length, length-take, take, arith, Bool-cases, inl, inr, ◌⊎◌,
}
use windoge_os.Common.Mem.{Mem, write}
use windoge_os.Elf.Arguments.{
  argument_length, put_bytes, quad, put_texts, put_vector, place_vector, prepare_user_arguments,
}

-- Two memories agree outside of some bytes.
abbrev pub SameOutside : ℕ → ℕ → Mem → Mem → Type 0
SameOutside lo hi m m' = (q : ℕ) → (q < lo) ⊎ (hi ≤ q) → m' q ≡ m q

narrow : (lo hi lo' hi' q : ℕ) → lo ≤ lo' → hi' ≤ hi → (q < lo) ⊎ (hi ≤ q) → (q < lo') ⊎ (hi' ≤ q)
narrow lo hi lo' hi' q a b (inl h) = inl (omega arith)
narrow lo hi lo' hi' q a b (inr h) = inr (omega arith)

put_bytes-SameOutside :
    (bytes : List ℕ) (m : Mem) (p : ℕ) → SameOutside p (p + length bytes) m (put_bytes m p bytes)
unfolding put_bytes
put_bytes-SameOutside [] m p q out = refl
put_bytes-SameOutside (b ∷ bytes) m p q out =
    let other : (p == q) ≡ false = not_here out in
    put_bytes-SameOutside bytes (write m p b) (suc p) q (
      narrow p (p + suc (length bytes)) (suc p) (suc p + length bytes) q (omega arith) (omega arith)
        out)
    ∙ rw other refl
  where
    not_here : (q < p) ⊎ (p + suc (length bytes) ≤ q) → (p == q) ≡ false
    not_here (inl h) = ground arith
    not_here (inr h) = ground arith

put_vector-SameOutside :
    (addresses : List ℕ) (m : Mem) (p : ℕ)
    → SameOutside p (p + (length addresses + 1) * 8) m (put_vector p addresses m)
unfolding put_vector
put_vector-SameOutside [] m p q out =
    put_bytes-SameOutside (quad 0) m p q
      (narrow p (p + 8) p (p + 8) q (omega arith) (omega arith) out)
put_vector-SameOutside (a ∷ addresses) m p q out =
    put_vector-SameOutside addresses (put_bytes m p (quad a)) (p + 8) q (
      narrow p (p + (suc (length addresses) + 1) * 8) (p + 8) (p + 8 + (length addresses + 1) * 8) q
        (omega arith) (omega arith) out)
    ∙ put_bytes-SameOutside (quad a) m p q (
        narrow p (p + (suc (length addresses) + 1) * 8) p (p + 8) q (omega arith) (omega arith) out)

-- There is an address for each text, and the texts end behind the cursor.
abbrev Counted : ℕ → ℕ → Option (List ℕ × ℕ) → Type 0
Counted cursor count none = Unit
Counted cursor count (some (addresses, last)) = (length addresses ≡ count) × (cursor ≤ last)

Counted-more :
    (a cursor cursor' count : ℕ) (o : Option (List ℕ × ℕ))
    → cursor ≤ cursor'
    → Counted cursor' count o
    → Counted cursor
        (suc count)
        (elim o [ none ↦ none | some (addresses, last) ↦ some (a ∷ addresses, last) ])
Counted-more a cursor cursor' count none le h = tt
Counted-more a cursor cursor' count (some (addresses, last)) le h =
    (omega (arith, h.0), omega (arith, h.1))

put_texts-Stored :
    (argv : List (Option (List ℕ))) (stack base area cursor : ℕ) (m : Mem)
    → Counted cursor (length argv) (put_texts stack base area argv cursor m).0
      × SameOutside stack (stack + area) m (put_texts stack base area argv cursor m).1
unfolding put_texts
put_texts-Stored [] stack base area cursor m = ((refl, omega arith), λ q out. refl)
put_texts-Stored (none ∷ argv) stack base area cursor m = (tt, λ q out. refl)
put_texts-Stored (some text ∷ argv) stack base area cursor m =
    let rest = put_texts-Stored argv stack base area (cursor + (n + 1)) m1 in
    elim (Bool-cases ((n == 256) || ltb area cursor || ltb (area - cursor) (n + 1))) [
      | inl bad ↦ rw bad (tt, λ q out. refl)
      | inr good ↦ rw good (
        Counted-more ((base + cursor) % 2 ^ 64) cursor (cursor + (n + 1)) (length argv) _
            (omega arith) rest.0,
        λ q out.
            rest.1 q out
            ∙ (rw (end_apart (room good) q out) refl)
            ∙ put_bytes-SameOutside (take n text) m (stack + cursor) q (front (room good) q out),
      )
    ]
  where
    n : ℕ
    n = argument_length 256 text 0

    m1 : Mem
    m1 = write (put_bytes m (stack + cursor) (take n text)) (stack + cursor + n) 0

    room :
        ((n == 256) || ltb area cursor || ltb (area - cursor) (n + 1)) ≡ false
        → cursor + n + 1 ≤ area
    room good = omega (arith, fits (n == 256) area cursor (n + 1) good)
      where
        fits : (b : Bool) (a c k : ℕ) → (b || ltb a c || ltb (a - c) k) ≡ false → c + k ≤ a
        fits b a c k e = ground (arith, e)

    end_apart :
        cursor + n + 1 ≤ area
        → (q : ℕ) → (q < stack) ⊎ (stack + area ≤ q)
        → (stack + cursor + n == q) ≡ false
    end_apart le q (inl h) = ground arith
    end_apart le q (inr h) = ground arith

    front :
        cursor + n + 1 ≤ area
        → (q : ℕ) → (q < stack) ⊎ (stack + area ≤ q)
        → (q < stack + cursor) ⊎ (stack + cursor + length (take n text) ≤ q)
    front le q out =
        narrow stack (stack + area) (stack + cursor) (stack + cursor + length (take n text)) q
          (omega arith) (omega (arith, length-take n text)) out

-- Where the vector stands: behind the texts, eight bytes an entry, within the area.
abbrev pub VectorIn : ℕ → ℕ → ℕ → Option ℕ → Type 0
VectorIn base area count none = Unit
VectorIn base area count (some p) =
    (base ≤ p) × ((p - base) % 8 ≡ 0) × (p + (count + 1) * 8 ≤ base + area)

place_vector-SameOutside :
    (stack base area argc : ℕ) (m : Mem) (texts : Option (List ℕ × ℕ) × Mem)
    → Counted 0 argc texts.0
    → SameOutside stack (stack + area) m texts.1
    → VectorIn base area argc (place_vector stack base area argc texts).0
      × SameOutside stack (stack + area) m (place_vector stack base area argc texts).1
unfolding place_vector
place_vector-SameOutside stack base area argc m (none, m1) count same = (tt, same)
place_vector-SameOutside stack base area argc m (some (addresses, last), m1) count same =
    elim (Bool-cases (ltb area cursor || ltb (area - cursor) ((argc + 1) * 8))) [
      | inl full ↦ rw full (tt, same)
      | inr free ↦
          let fits : cursor + (argc + 1) * 8 ≤ area = room area cursor ((argc + 1) * 8) free in
          rw free (
            (omega arith, omega arith, omega (arith, fits)),
            λ q out.
                put_vector-SameOutside addresses m1 (stack + cursor) q (
                  narrow stack (stack + area) (stack + cursor)
                    (stack + cursor + (length addresses + 1) * 8) q (omega arith)
                    (omega (arith, fits, count.0)) out)
                ∙ same q out,
          )
    ]
  where
    cursor : ℕ
    cursor = (last + 7) / 8 * 8

    room : (a c k : ℕ) → (ltb a c || ltb (a - c) k) ≡ false → c + k ≤ a
    room a c k e = ground (arith, e)

-- `prepare_user_arguments` writes only to the argument area, also when it fails; when it succeeds, the
-- vector with its zero behind lies in the area, at a multiple of eight from its start.
pub prepare_arguments-SameOutside :
    (stack base area : ℕ) (argv : List (Option (List ℕ))) (m : Mem)
    → let (vector, m') = prepare_user_arguments stack base area argv m in
      VectorIn base area (length argv) vector × SameOutside stack (stack + area) m m'
unfolding prepare_user_arguments
prepare_arguments-SameOutside stack base area argv m = elim (Bool-cases (ltb 32 (length argv))) [
  | inl many ↦ rw many (tt, λ q out. refl)
  | inr few ↦ rw few (
      place_vector-SameOutside stack base area (length argv) m (put_texts stack base area argv 0 m)
        (put_texts-Stored argv stack base area 0 m).0 (put_texts-Stored argv stack base area 0 m).1)
]
