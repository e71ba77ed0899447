-- ===== src/Lz4/Sequence.antt =====
-- The bytes of the archive format, and what the writing functions of kernel/kutil/lz4_pack.c add to a
-- buffer that has room for them.
use windoge_os.Common.{
  ℕ, zero, suc, ◌+◌, ◌-◌, ◌*◌, ◌/◌, ◌%◌, ◌^◌, ◌≤◌, ◌<◌, ◌≡◌, refl, sym, ap, ◌∙◌, true, false, List,
  [], ◌∷◌, ◌++◌, ltb, leb, ◌==◌, if◌then◌else◌, length, length-append, take, drop, replicate,
  append_assoc, append-nil, arith, Bool-cases, inl, inr,
}
use windoge_os.Common.Step.{Outcome, done, Step, next}
use windoge_os.Lz4.Files.{Files}
use windoge_os.Common.Pieces.{take_all, drop_all}
use windoge_os.Lz4.Write.{
  Writer, less, when_full, write_loop, lz4_write, length_loop, lz4_write_length, write_match, when,
  lz4_write_sequence,
}

-- A length that goes on behind its half of the token: 255 as often as it fits, and the rest.
abbrev pub extension : ℕ → List ℕ
extension n = replicate (n / 255) 255 ++ (n % 255 ∷ [])

abbrev pub extension_if : ℕ → List ℕ
extension_if n = if leb 15 n then extension (n - 15) else []

abbrev pub token_of : ℕ → ℕ → ℕ
token_of lits encoded = less lits 15 * 16 + less encoded 15

-- A sequence with a match; the last sequence of a block has none.
abbrev pub match_bytes : ℕ → ℕ → List ℕ
match_bytes match_length offset =
    (offset % 256) ∷ (offset / 256 % 256) ∷ extension_if (match_length - 4)

abbrev pub sequence_bytes : List ℕ → ℕ → ℕ → List ℕ
sequence_bytes literals match_length offset =
    token_of (length literals) (match_length - 4)
    ∷ (extension_if (length literals) ++ (literals ++ match_bytes match_length offset))

abbrev pub last_bytes : List ℕ → List ℕ
last_bytes literals = token_of (length literals) 0 ∷ (extension_if (length literals) ++ literals)

abbrev pub push : {W : Type 0} → Writer W → List ℕ → Writer W
push w bytes = record w { bytes = w.bytes ++ bytes }

pub push-push : {W : Type 0} (w : Writer W) (a b : List ℕ) → push (push w a) b ≡ push w (a ++ b)
push-push w a b = ap (λ x. record w { bytes = x }) (append_assoc w.bytes a b)

module _ {W : Type 0} (fs : Files W) where
  abbrev HasRoom : Writer W → List ℕ → Type 0
  HasRoom w bytes = length w.bytes + length bytes < w.capacity

  pub write_room :
      (bytes : List ℕ) (w : Writer W)
      → HasRoom w bytes
      → lz4_write fs bytes w ≡ (done tt, push w bytes)
  unfolding lz4_write write_loop when_full
  write_room [] w h = ap (λ x. (done tt, record w { bytes = x })) (sym (append-nil w.bytes))
  write_room (b ∷ bytes) w h =
      let all : less (suc (length bytes)) (w.capacity - length w.bytes) ≡ suc (length bytes) =
        ground arith in
      let front : take (length bytes) bytes ≡ bytes = take_all (length bytes) bytes (omega arith) in
      let back : drop (length bytes) bytes ≡ [] = drop_all (length bytes) bytes (omega arith) in
      let free : (length (w.bytes ++ (b ∷ bytes)) == w.capacity) ≡ false =
        ground (arith, length-append w.bytes (b ∷ bytes)) in
      rw (all, front, back, free) refl

  length_loop-room :
      (k f r : ℕ) (w : Writer W)
      → k < f
      → r < 255
      → HasRoom w (replicate k 255 ++ (r ∷ []))
      → length_loop fs f (255 * k + r) w ≡ (done tt, push w (replicate k 255 ++ (r ∷ [])))
  unfolding length_loop
  length_loop-room k zero r w lt hr room = absurd (omega arith)
  length_loop-room zero (suc f) r w lt hr room =
      let small : leb 255 (255 * 0 + r) ≡ false = ground arith in
      let same : 255 * 0 + r ≡ r = omega arith in rw (small, same) (write_room (r ∷ []) w room)
  length_loop-room (suc k) (suc f) r w lt hr room =
      let large : leb 255 (255 * suc k + r) ≡ true = ground arith in
      let less_one : 255 * suc k + r - 255 ≡ 255 * k + r = omega arith in
      let one = write_room (255 ∷ []) w (omega (arith, room)) in
      rw (large, less_one, one)
        (length_loop-room k f r (push w (255 ∷ [])) (omega arith) hr
            (omega (arith, room, length-append w.bytes (255 ∷ [])))
          ∙ ap (λ x. (done tt, x)) (push-push w (255 ∷ []) (replicate k 255 ++ (r ∷ []))))

  write_length-room :
      (n : ℕ) (w : Writer W)
      → HasRoom w (extension n)
      → lz4_write_length fs n w ≡ (done tt, push w (extension n))
  unfolding lz4_write_length
  write_length-room n w room =
      ap (λ m. length_loop fs (suc n) m w) {x = n} {y = 255 * (n / 255) + n % 255} (omega arith)
      ∙ length_loop-room (n / 255) (suc n) (n % 255) w (omega arith) (omega arith) room

  -- One action behind another.
  pub run_then :
      (w : Writer W) (a b : List ℕ) (k : Step (Writer W) (Unit {0}))
      {r : Outcome (Unit {0}) × Writer W}
      → r ≡ (done tt, push w a)
      → k (push w a) ≡ (done tt, push (push w a) b)
      → next r (λ _. k) ≡ (done tt, push w (a ++ b))
  run_then w a b k e1 e2 = rw e1 (e2 ∙ ap (λ x. (done tt, x)) (push-push w a b))

  when_length-room :
      (n : ℕ) (w : Writer W)
      → HasRoom w (extension_if n)
      → when fs (leb 15 n) (lz4_write_length fs (n - 15)) w ≡ (done tt, push w (extension_if n))
  when_length-room n w room = elim (Bool-cases (leb 15 n)) [
    | inl long ↦ rw long (write_length-room (n - 15) w (rw long at room))
    | inr short ↦ rw short (ap (λ x. (done tt, record w { bytes = x })) (sym (append-nil w.bytes)))
  ]

  room_left : (w : Writer W) (a b : List ℕ) → HasRoom w (a ++ b) → HasRoom w a
  room_left w a b h = omega (arith, h, length-append a b)

  room_right : (w : Writer W) (a b : List ℕ) → HasRoom w (a ++ b) → HasRoom (push w a) b
  room_right w a b h = omega (arith, h, length-append a b, length-append w.bytes a)

  write_match-room :
      (match_length offset : ℕ) (w : Writer W)
      → HasRoom w (match_bytes match_length offset)
      → write_match fs (match_length - 4) offset w
        ≡ (done tt, push w (match_bytes match_length offset))
  unfolding write_match
  write_match-room match_length offset w room =
      let two : List ℕ = (offset % 256) ∷ (offset / 256 % 256) ∷ [] in
      run_then w two (extension_if (match_length - 4)) _
        (write_room two w (room_left w two (extension_if (match_length - 4)) room))
        (when_length-room (match_length - 4) (push w two)
          (room_right w two (extension_if (match_length - 4)) room))

  -- A sequence with a match, in a buffer with room.
  pub write_sequence-room :
      (literals : List ℕ) (match_length offset : ℕ) (w : Writer W)
      → 4 ≤ match_length
      → match_length < 2 ^ 32
      → HasRoom w (sequence_bytes literals match_length offset)
      → lz4_write_sequence fs literals match_length offset w
        ≡ (done tt, push w (sequence_bytes literals match_length offset))
  unfolding lz4_write_sequence
  write_sequence-room literals match_length offset w ge lt room =
      let some_match : ltb 0 match_length ≡ true = ground arith in
      let not_zero : (match_length == 0) ≡ false = ground arith in
      let encoded : (match_length + 2 ^ 32 - 4) % 2 ^ 32 ≡ match_length - 4 = omega arith in
      let token : List ℕ = token_of (length literals) (match_length - 4) ∷ [] in
      let ext : List ℕ = extension_if (length literals) in
      let behind : List ℕ = match_bytes match_length offset in
      let room1 = room_right w token (ext ++ (literals ++ behind)) room in
      let room2 = room_right (push w token) ext (literals ++ behind) room1 in
      let room3 = room_right (push (push w token) ext) literals behind room2 in
      rw (some_match, not_zero, encoded)
        (run_then w token (ext ++ (literals ++ behind)) _
          (write_room token w (room_left w token (ext ++ (literals ++ behind)) room))
          (run_then (push w token) ext (literals ++ behind) _
            (when_length-room (length literals) (push w token)
              (room_left (push w token) ext (literals ++ behind) room1))
            (run_then (push (push w token) ext) literals behind _
              (write_room literals (push (push w token) ext)
                (room_left (push (push w token) ext) literals behind room2))
              (write_match-room match_length offset (push (push (push w token) ext) literals)
                room3))))

  -- The last sequence of a block.
  pub write_last-room :
      (literals : List ℕ) (w : Writer W)
      → HasRoom w (last_bytes literals)
      → lz4_write_sequence fs literals 0 0 w ≡ (done tt, push w (last_bytes literals))
  unfolding lz4_write_sequence
  write_last-room literals w room =
      let token : List ℕ = token_of (length literals) 0 ∷ [] in
      let ext : List ℕ = extension_if (length literals) in
      let room1 = room_right w token (ext ++ literals) room in
      let room2 = room_right (push w token) ext literals room1 in
      run_then w token (ext ++ literals) _
        (write_room token w (room_left w token (ext ++ literals) room))
        (run_then (push w token) ext literals _
          (when_length-room (length literals) (push w token)
            (room_left (push w token) ext literals room1))
          (rw (write_room literals (push (push w token) ext) room2) refl))
