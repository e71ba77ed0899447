-- ===== src/Vfs/Path.antt =====
-- helper/drivers/filesystem/vfs.c: `fs_sanitize_path` and `fs_split_path`. `old` is what the caller's
-- buffer held: `str_strncpy` copies nothing where the text does not fit.
use windoge_os.Common.{
  ℕ, zero, suc, ◌+◌, ◌-◌, Bool, false, ◌&&◌, ◌||◌, Option, none, some, List, [], ◌∷◌, ltb, leb,
  ◌==◌, if◌then◌else◌, length, take, drop, get_or,
}

-- `str_strncpy(destination, source, capacity)` on texts: the copy, or nothing done.
unfoldable pub copy_or : List ℕ → List ℕ → ℕ → List ℕ
copy_or old source capacity = if leb capacity (length source) then old else source

-- `while (*in == ' ') in++;`
unfoldable pub skip_spaces : List ℕ → List ℕ
skip_spaces [] = []
skip_spaces (c ∷ s) = let rest : List ℕ = skip_spaces s in if c == b' ' then rest else c ∷ s

abbrev pub is_blank : ℕ → Bool
is_blank c = (c == 10) || (c == 13) || (c == b' ')

-- `while (len > 0 && blank(out[len - 1])) out[--len] = '\0';` gives the new length.
unfoldable pub trim_blanks : ℕ → List ℕ → ℕ
trim_blanks zero s = 0
trim_blanks (suc len) s =
    let rest : ℕ = trim_blanks len s in if is_blank (get_or s len 0) then rest else suc len

-- `while (len > 1 && out[len - 1] == '/') out[--len] = '\0';`
unfoldable pub trim_slashes : ℕ → List ℕ → ℕ
trim_slashes zero s = 0
trim_slashes (suc len) s =
    let rest : ℕ = trim_slashes len s in
    if ltb 1 (suc len) && (get_or s len 0 == b'/') then rest else suc len

unfoldable pub fs_sanitize_path : List ℕ → List ℕ → ℕ → List ℕ
fs_sanitize_path s old size =
    let copied : List ℕ = copy_or old (skip_spaces s) (size - 1) in
    let out : List ℕ = take (size - 1) copied in
    take (trim_slashes (trim_blanks (length out) out) out) out

-- `for (i = len - 1; i >= 0; i--) if (clean[i] == '/') { last_slash = i; break; }`
unfoldable pub last_slash : ℕ → List ℕ → Option ℕ
last_slash zero s = none
last_slash (suc i) s =
    let rest : Option ℕ = last_slash i s in if get_or s i 0 == b'/' then some i else rest

-- The name's buffer, 256 bytes, holds `old` before.
unfoldable pub copy_name : List ℕ → List ℕ → List ℕ
copy_name old s = take 255 (copy_or old s 255)

abbrev pub root : List ℕ
root = b'/' ∷ []

abbrev pub is_root : List ℕ → Bool
is_root [] = false
is_root (c ∷ []) = c == b'/'
is_root (c ∷ d ∷ s) = false

-- The parent and the file name at the last slash.
unfoldable pub split_at : List ℕ → List ℕ → Option ℕ → Option (List ℕ × List ℕ)
split_at clean old none = some ([], copy_name old clean)
split_at clean old (some i) =
    if i == 0
    then some (root, copy_name old (drop (i + 1) clean))
    else if leb 256 i
    then none
    else some (take i clean, copy_name old (drop (i + 1) clean))

-- `old` is what the name's buffer held.
unfoldable pub split_clean : List ℕ → List ℕ → Option (List ℕ × List ℕ)
split_clean [] old = none
split_clean (c ∷ s) old =
    if is_root (c ∷ s)
    then some (root, b'.' ∷ [])
    else split_at (c ∷ s) old (last_slash (length (c ∷ s)) (c ∷ s))

-- `junk` is what the local buffer held.
unfoldable pub fs_split_path : List ℕ → List ℕ → List ℕ → Option (List ℕ × List ℕ)
fs_split_path [] junk old = none
fs_split_path (c ∷ path) junk old = split_clean (fs_sanitize_path (c ∷ path) junk 256) old
