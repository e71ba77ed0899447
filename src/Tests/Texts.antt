-- ===== src/Tests/Texts.antt =====
-- helper/string/string.c: the theorems on writing at the text "ab" with blanks behind it.
use windoge_os.Common.{
  ℕ, ◌<◌, ◌≤◌, ◌≡◌, refl, ◌⊎◌, arith, true, false, some, List, [], ◌∷◌, ◌++◌, get_or,
}
use windoge_os.Common.Mem.{Mem, IsText, Holds}
use windoge_os.Strings.Write.{str_strncpy, str_strcat, clean_input_string}
use windoge_os.Strings.Copying.{strncpy_lem, strcat_lem}
use windoge_os.Strings.Clean.{Trimmed, clean_input_string_lem}

-- "ab", a space and a line feed
abbrev typed : List ℕ
typed = b'a' ∷ b'b' ∷ b' ' ∷ 10 ∷ []

abbrev typed_memory : Mem
typed_memory q = get_or typed q 0

abbrev ok : List ℕ
ok = b'o' ∷ b'k' ∷ []

typed_memory-Holds : Holds typed_memory 0 typed
typed_memory-Holds =
    (refl, omega arith, (refl, omega arith, (refl, omega arith, (refl, omega arith, refl))))

ok-IsText : IsText ok
ok-IsText = (omega arith, (omega arith, tt))

strncpy_lem_example :
    let (done, m') = str_strncpy (some 10) (some ok) 3 typed_memory in
    ((done ≡ true)
      × (2 < 3)
      × Holds m' 10 ok
      × ((q : ℕ) → (q < 10) ⊎ (13 ≤ q) → m' q ≡ typed_memory q))
    ⊎ ((done ≡ false) × (3 ≤ 2) × (m' ≡ typed_memory))
strncpy_lem_example = strncpy_lem typed_memory 10 3 ok ok-IsText

strcat_lem_example :
    (m' : Mem) × (str_strcat 5 0 ok typed_memory ≡ some m')
    × Holds m' 0 (typed ++ ok)
    × ((q : ℕ) → (q < 4) ⊎ (6 < q) → m' q ≡ typed_memory q)
strcat_lem_example = strcat_lem 5 0 typed ok typed_memory (omega arith) ok-IsText typed_memory-Holds

clean_input_string_lem_example :
    (m' : Mem) × (clean_input_string 5 (some 0) typed_memory ≡ some m')
    × Trimmed 4 0 typed_memory m'
clean_input_string_lem_example =
    clean_input_string_lem 5 0 typed typed_memory (omega arith) typed_memory-Holds
