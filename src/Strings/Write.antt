-- ===== src/Strings/Write.antt =====
-- helper/string/string.c: the functions that copy a text to memory. The source is a text that the
-- target does not overlap.
use windoge_os.Common.{
  ℕ, zero, suc, ◌+◌, ◌-◌, Bool, true, false, ◌||◌, Option, none, some, List, [], ◌∷◌, leb, ◌==◌,
  if◌then◌else◌, length,
}
use windoge_os.Common.Mem.{Mem, write}

-- `while ((*dest++ = *src++));`
unfoldable pub str_strcpy : List ℕ → Mem → ℕ → Mem
str_strcpy [] m dest = write m dest 0
str_strcpy (c ∷ src) m dest = str_strcpy src (write m dest c) (suc dest)

-- True is the result 0; `none` is a null pointer.
unfoldable pub str_strncpy : Option ℕ → Option (List ℕ) → ℕ → Mem → Bool × Mem
str_strncpy none source capacity m = (false, m)
str_strncpy (some dest) none capacity m = (false, m)
str_strncpy (some dest) (some source) capacity m =
    if capacity == 0
    then (false, m)
    else if leb capacity (length source)
    then (false, m)
    else (true, str_strcpy source m dest)

-- `while (*ptr != '\0') ptr++;` with fuel.
unfoldable pub find_end : ℕ → Mem → ℕ → Option ℕ
find_end zero m ptr = none
find_end (suc f) m ptr =
    let rest : Option ℕ = find_end f m (suc ptr) in if m ptr == 0 then some ptr else rest

unfoldable pub str_strcat : ℕ → ℕ → List ℕ → Mem → Option Mem
str_strcat fuel dest src m = elim (find_end fuel m dest) [
  | none ↦ none
  | some ptr ↦ some (str_strcpy src m ptr)
]

-- The first loop: the room left, the text and the pointer; then the rest is padded.
unfoldable pub pad_rest : ℕ → ℕ → Mem → ℕ → Mem
pad_rest zero pad_char m dest = write m dest 0
pad_rest (suc n) pad_char m dest = pad_rest n pad_char (write m dest pad_char) (suc dest)

unfoldable pub str_pad : List ℕ → ℕ → ℕ → Mem → ℕ → Mem
str_pad src zero pad_char m dest = write m dest 0
str_pad [] (suc n) pad_char m dest = pad_rest (suc n) pad_char m dest
str_pad (c ∷ src) (suc n) pad_char m dest = str_pad src n pad_char (write m dest c) (suc dest)

abbrev pub is_space : ℕ → Bool
is_space c = (c == 13) || (c == 10) || (c == b' ') || (c == 9)

-- `while (len > 0 && blank(str[len - 1])) str[--len] = '\0';`
unfoldable pub clean_loop : ℕ → Mem → ℕ → Mem
clean_loop zero m str = m
clean_loop (suc len) m str =
    let rest : Mem = clean_loop len (write m (str + len) 0) str in
    if is_space (m (str + len)) then rest else m

unfoldable pub clean_input_string : ℕ → Option ℕ → Mem → Option Mem
clean_input_string fuel none m = some m
clean_input_string fuel (some str) m = elim (find_end fuel m str) [
  | none ↦ none
  | some ptr ↦ some (clean_loop (ptr - str) m str)
]
