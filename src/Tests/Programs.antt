-- ===== src/Tests/Programs.antt =====
-- helper/core/execute: the theorems at a small program, over a machine that notes the pages it maps.
use windoge_os.Common.{
  ℕ, suc, ◌+◌, ◌*◌, ◌^◌, ◌%◌, ◌≤◌, ◌≡◌, refl, true, Option, some, List, [], ◌∷◌, ◌++◌, length, take,
  drop, arith,
}
use windoge_os.Common.Int.{pos}
use windoge_os.Common.Step.{Ensures}
use windoge_os.Elf.Machine.{Machine}
use windoge_os.Elf.Load.{
  Loading, system_load_elf_args, load_image, read_exact, read_phdrs, map_segments, map_segment,
  add_region, count_pages, map_pages, add_page, fill_page, find_abi, map_stack, put_arguments,
}
use windoge_os.Elf.Image.{
  bad_header, bad_table, bad_bounds, bad_alignment, overlaps, holds_entry, bit_and,
}
use windoge_os.Elf.Notes.{elf_uses_linux_abi, notes_of}
use windoge_os.Elf.Kept.{Guarded}
use windoge_os.Elf.Arguments.{
  prepare_user_arguments, argument_length, place_vector, put_bytes, put_texts, put_vector,
}
use windoge_os.Elf.Vector.{VectorIn, SameOutside, prepare_arguments-SameOutside}
use windoge_os.Elf.Safe.{Sound, load_elf-Sound}

-- One segment of 200 bytes at 4096, which holds the file's 120 bytes; the entry is behind the headers.
abbrev program : List ℕ
program =
    (127 ∷ b'E' ∷ b'L' ∷ b'F' ∷ 2 ∷ 1 ∷ 1 ∷ 0 ∷ 0 ∷ 0 ∷ 0 ∷ 0 ∷ 0 ∷ 0 ∷ 0 ∷ 0 ∷ [])
    ++ (2 ∷ 0 ∷ 62 ∷ 0 ∷ 1 ∷ 0 ∷ 0 ∷ 0 ∷ 120 ∷ 16 ∷ 0 ∷ 0 ∷ 0 ∷ 0 ∷ 0 ∷ 0 ∷ [])
    ++ (64 ∷ 0 ∷ 0 ∷ 0 ∷ 0 ∷ 0 ∷ 0 ∷ 0 ∷ 0 ∷ 0 ∷ 0 ∷ 0 ∷ 0 ∷ 0 ∷ 0 ∷ 0 ∷ [])
    ++ (0 ∷ 0 ∷ 0 ∷ 0 ∷ 64 ∷ 0 ∷ 56 ∷ 0 ∷ 1 ∷ 0 ∷ 0 ∷ 0 ∷ 0 ∷ 0 ∷ 0 ∷ 0 ∷ [])
    ++ (1 ∷ 0 ∷ 0 ∷ 0 ∷ 5 ∷ 0 ∷ 0 ∷ 0 ∷ 0 ∷ 0 ∷ 0 ∷ 0 ∷ 0 ∷ 0 ∷ 0 ∷ 0 ∷ [])
    ++ (0 ∷ 16 ∷ 0 ∷ 0 ∷ 0 ∷ 0 ∷ 0 ∷ 0 ∷ 0 ∷ 16 ∷ 0 ∷ 0 ∷ 0 ∷ 0 ∷ 0 ∷ 0 ∷ [])
    ++ (120 ∷ 0 ∷ 0 ∷ 0 ∷ 0 ∷ 0 ∷ 0 ∷ 0 ∷ 200 ∷ 0 ∷ 0 ∷ 0 ∷ 0 ∷ 0 ∷ 0 ∷ 0 ∷ [])
    ++ (1 ∷ 0 ∷ 0 ∷ 0 ∷ 0 ∷ 0 ∷ 0 ∷ 0 ∷ [])

-- The state is the list of the addresses that are mapped.
abbrev noting : Machine (List ℕ)
noting = record {
  hhdm = some 0;
  exists_file = λ p w. (true, w);
  read_raw_at = λ p offset n w.
      ((pos (length (take n (drop offset program))), take n (drop offset program)), w);
  alloc_zeroed_page = λ w. (4096 * suc (length w), w);
  map_user_page = λ vaddr phys w. vaddr ∷ w;
  memory = λ w q. 0;
  put_memory = λ m w. w;
}

-- All of them are whole pages of user memory.
abbrev AllUser : List ℕ → Type 0
AllUser [] = Unit
AllUser (v ∷ w) = (v % 4096 ≡ 0) × (4096 ≤ v) × (v + 4096 ≤ 2 ^ 47) × AllUser w

noting-Guarded : Guarded noting (b'a' ∷ []) 120 AllUser
noting-Guarded = record {
  exists_keeps = λ w i. i;
  read_keeps = λ offset n w fits i. i;
  alloc_keeps = λ w i. i;
  map_keeps = λ vaddr phys w whole lo hi i. (whole, lo, hi, i);
  memory_keeps = λ m w i. i;
}

abbrev run : Loading (List ℕ)
run = (system_load_elf_args noting (some (b'a' ∷ [])) 120 (some (b'x' ∷ []) ∷ []) [] []).1

load_elf-Sound_example :
    Ensures
      (λ image s. Sound image s × AllUser s.world)
      (λ s. AllUser s.world)
      (system_load_elf_args noting (some (b'a' ∷ [])) 120 (some (b'x' ∷ []) ∷ []) [] [])
load_elf-Sound_example =
    load_elf-Sound noting 120 AllUser (omega arith) (b'a' ∷ []) (some (b'x' ∷ []) ∷ []) []
      noting-Guarded tt

nine_pages : length run.world ≡ 9
unfolding system_load_elf_args load_image read_exact bad_header bad_table read_phdrs map_segments
    map_segment bad_bounds bad_alignment add_region count_pages overlaps map_pages add_page
    fill_page holds_entry argument_length place_vector prepare_user_arguments put_bytes put_texts
    put_vector bit_and find_abi map_stack put_arguments elf_uses_linux_abi notes_of
nine_pages = refl

-- "ls" and "-a"
abbrev words : List (Option (List ℕ))
words = some (b'l' ∷ b's' ∷ []) ∷ some (b'-' ∷ b'a' ∷ []) ∷ []

prepare_arguments-SameOutside_example :
    VectorIn 8192 100 2 (prepare_user_arguments 1000 8192 100 words (λ q. 0)).0
    × SameOutside 1000 1100 (λ q. 0) (prepare_user_arguments 1000 8192 100 words (λ q. 0)).1
prepare_arguments-SameOutside_example = prepare_arguments-SameOutside 1000 8192 100 words (λ q. 0)

vector_at : (prepare_user_arguments 1000 8192 100 words (λ q. 0)).0 ≡ some 8200
unfolding prepare_user_arguments place_vector put_texts argument_length
vector_at = refl
