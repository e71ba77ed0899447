-- ===== src/Access.antt =====
-- helper/core/hfs.c: `system_can_access_path`, the check on the folders of the system and of other
-- users. A path is the list of its bytes; `none` is a null pointer.
pub mod Policy
pub mod Verdict
use windoge_os.Common.{
  ℕ, zero, suc, ◌+◌, Bool, true, false, not, ◌&&◌, ◌||◌, Option, none, some, List, [], ◌∷◌, leb,
  ltb, ◌==◌, if◌then◌else◌, drop,
}
use windoge_os.Common.Int.{ℤ, pos, negsuc}
use windoge_os.Common.Mem.{chr, next}
use windoge_os.Strings.Read.{str_strcmp, str_strncmp}

abbrev pub is_zero : ℤ → Bool
is_zero (pos n) = n == 0
is_zero (negsuc n) = false

abbrev pub admin : List ℕ
admin = b'a' ∷ b'd' ∷ b'm' ∷ b'i' ∷ b'n' ∷ []

abbrev pub system_folder : List ℕ
system_folder = b's' ∷ b'y' ∷ b's' ∷ b't' ∷ b'e' ∷ b'm' ∷ []

abbrev pub users_folder : List ℕ
users_folder = b'u' ∷ b's' ∷ b'e' ∷ b'r' ∷ b's' ∷ b'/' ∷ []

abbrev pub is_letter : ℕ → Bool
is_letter c = (leb b'A' c && leb c b'Z') || (leb b'a' c && leb c b'z')

-- `if (p is a letter and a colon) p += 2;`
unfoldable pub skip_drive : List ℕ → List ℕ
skip_drive p = if is_letter (chr p) && (chr (next p) == b':') then next (next p) else p

-- `while (p[0] == '/') p++;`
unfoldable pub skip_slashes : List ℕ → List ℕ
skip_slashes [] = []
skip_slashes (c ∷ p) = let rest : List ℕ = skip_slashes p in if c == b'/' then rest else c ∷ p

unfoldable pub strip : List ℕ → List ℕ
unfolding skip_drive skip_slashes
strip p = skip_slashes (skip_drive p)

-- `target_folder`: the room left in the array, and the text behind "users/".
unfoldable pub folder_of : ℕ → List ℕ → List ℕ
folder_of zero s = []
folder_of (suc n) [] = []
folder_of (suc n) (c ∷ s) = if (c == 0) || (c == b'/') then [] else c ∷ folder_of n s

unfoldable pub in_system : List ℕ → Bool
in_system p =
    is_zero (str_strncmp p system_folder 6) && ((chr (drop 6 p) == b'/') || (chr (drop 6 p) == 0))

unfoldable pub is_foreign : List ℕ → List ℕ → Bool
is_foreign username p =
    let folder : List ℕ = folder_of 63 (drop 6 p) in
    is_zero (str_strncmp p users_folder 6)
    && (not (chr folder == 0) && not (is_zero (str_strcmp folder username)))

unfoldable pub system_can_access_path : Option (List ℕ) → Option (List ℕ) → ℕ
system_can_access_path none target = 0
system_can_access_path (some username) none = 0
system_can_access_path (some username) (some target) =
    if is_zero (str_strcmp username admin)
    then 1
    else if in_system (strip target)
    then 0
    else if is_foreign username (strip target)
    then 0
    else 1
