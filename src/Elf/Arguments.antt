-- ===== src/Elf/Arguments.antt =====
-- helper/core/execute/arguments.h: the argument texts and the argument vector on the user stack.
use windoge_os.Common.{
  ℕ, zero, suc, ◌+◌, ◌-◌, ◌*◌, ◌/◌, ◌%◌, ◌^◌, ◌||◌, Option, none, some, List, [], ◌∷◌, ltb, ◌==◌,
  if◌then◌else◌, length, take, get_or,
}
use windoge_os.Common.Mem.{Mem, write}

-- `while (length < 256 && argv[i][length] != '\0')`, by the rounds left.
unfoldable pub argument_length : ℕ → List ℕ → ℕ → ℕ
argument_length zero text n = n
argument_length (suc rounds) text n =
    let rest : ℕ = argument_length rounds text (suc n) in if get_or text n 0 == 0 then n else rest

-- Bytes from an address on.
unfoldable pub put_bytes : Mem → ℕ → List ℕ → Mem
put_bytes m p [] = m
put_bytes m p (b ∷ bytes) = put_bytes (write m p b) (suc p) bytes

abbrev pub quad : ℕ → List ℕ
quad v =
    (v % 256)
    ∷ (v / 2 ^ 8 % 256)
    ∷ (v / 2 ^ 16 % 256)
    ∷ (v / 2 ^ 24 % 256)
    ∷ (v / 2 ^ 32 % 256)
    ∷ (v / 2 ^ 40 % 256)
    ∷ (v / 2 ^ 48 % 256)
    ∷ (v / 2 ^ 56 % 256)
    ∷ []

-- The first loop: the texts one behind the other; their addresses, if none is missing, too long or
-- without room.
unfoldable pub put_texts : ℕ → ℕ → ℕ → List (Option (List ℕ)) → ℕ → Mem → Option (List ℕ × ℕ) × Mem
put_texts stack base area [] cursor m = (some ([], cursor), m)
put_texts stack base area (none ∷ argv) cursor m = (none, m)
put_texts stack base area (some text ∷ argv) cursor m =
    let n : ℕ = argument_length 256 text 0 in
    let m1 : Mem = write (put_bytes m (stack + cursor) (take n text)) (stack + cursor + n) 0 in
    let (rest, m2) = put_texts stack base area argv (cursor + (n + 1)) m1 in
    if (n == 256) || ltb area cursor || ltb (area - cursor) (n + 1) then (none, m) else (
      elim rest [
        | none ↦ none
        | some (addresses, last) ↦ some (((base + cursor) % 2 ^ 64) ∷ addresses, last)
      ],
      m2,
    )

-- `vector[i] = argument_addresses[i]`, and the zero behind.
unfoldable pub put_vector : ℕ → List ℕ → Mem → Mem
put_vector p [] m = put_bytes m p (quad 0)
put_vector p (a ∷ addresses) m = put_vector (p + 8) addresses (put_bytes m p (quad a))

-- The vector behind the texts, at a multiple of eight.
unfoldable pub place_vector : ℕ → ℕ → ℕ → ℕ → Option (List ℕ × ℕ) × Mem → Option ℕ × Mem
place_vector stack base area argc (none, m) = (none, m)
place_vector stack base area argc (some (addresses, last), m) =
    let cursor : ℕ = (last + 7) / 8 * 8 in
    if ltb area cursor || ltb (area - cursor) ((argc + 1) * 8)
    then (none, m)
    else (some (base + cursor), put_vector (stack + cursor) addresses m)

-- `argv` holds `argc` entries; more than 32 are rejected. The result is `*user_argv`.
unfoldable pub prepare_user_arguments : ℕ → ℕ → ℕ → List (Option (List ℕ)) → Mem → Option ℕ × Mem
prepare_user_arguments stack base area argv m =
    if ltb 32 (length argv)
    then (none, m)
    else place_vector stack base area (length argv) (put_texts stack base area argv 0 m)
