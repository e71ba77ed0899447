-- ===== src/Lz4/Ring.antt =====
-- kernel/kutil/lz4_pack.c: numbers and lists of the unpacker: tests, the halves of a token, and the
-- ring of the last bytes.
use windoge_os.Common.{
  ℕ, zero, suc, ◌+◌, ◌-◌, ◌/◌, ◌%◌, ◌^◌, ◌≤◌, ◌<◌, ◌≡◌, ◌≢◌, refl, ap, ◌∙◌, true, false, ◌||◌, List,
  [], ◌∷◌, ◌++◌, ltb, ◌==◌, length, length-append, length-take, take, drop, get_or, arith,
}
use windoge_os.Common.Pieces.{get_or-take, get_or-append_right}
use windoge_os.Lz4.Write.{less}
use windoge_os.Lz4.Encode.{byte_at}
use windoge_os.Lz4.Sequence.{token_of}
use windoge_os.Lz4.Blocks.{part}

-- What has been produced of a file when the block has been unpacked up to a place.
abbrev pub so_far : List ℕ → List ℕ → ℕ → List ℕ
so_far before block a = before ++ take a block

pub take-suc :
    (n : ℕ) (s : List ℕ) → n < length s → take n s ++ (get_or s n 0 ∷ []) ≡ take (suc n) s
take-suc zero [] h = absurd (omega arith)
take-suc zero (c ∷ s) h = refl
take-suc (suc n) [] h = absurd (omega arith)
take-suc (suc n) (c ∷ s) h = ap (λ x. c ∷ x) (take-suc n s (omega arith))

pub take-part : (a i : ℕ) (s : List ℕ) → a ≤ i → i ≤ length s → take a s ++ part s a i ≡ take i s
take-part zero i s h le = ap (λ n. take n s) {x = i - 0} {y = i} (omega arith)
take-part (suc a) zero s h le = absurd (omega arith)
take-part (suc a) (suc i) [] h le = absurd (omega arith)
take-part (suc a) (suc i) (c ∷ s) h le =
    ap (λ x. c ∷ x)
      (ap (λ n. take a s ++ take n (drop a s)) {x = suc i - suc a} {y = i - a} (omega arith)
        ∙ take-part a i s (omega arith) (omega arith))

pub not_ltb : (a b : ℕ) → b ≤ a → ltb a b ≡ false
not_ltb a b h = ground arith

pub equal : (a b : ℕ) → a ≡ b → (a == b) ≡ true
equal a b h = ground arith

pub not_equal : (a b : ℕ) → a ≢ b → (a == b) ≡ false
not_equal a b h = ground arith

pub good_offset :
    (off q : ℕ) → 0 < off → off ≤ 4096 → off ≤ q → ((off == 0) || ltb 4096 off || ltb q off) ≡ false
good_offset off q h near inside = ground arith

pub token_halves : (a b : ℕ) → (token_of a b / 16 ≡ less a 15) × (token_of a b % 16 ≡ less b 15)
token_halves a b = (omega (arith, half a, half b), omega (arith, half a, half b))
  where
    half : (n : ℕ) → less n 15 ≤ 15
    half n = ground arith

-- The last bytes produced, read through the ring.
pub ring_at :
    (before block : List ℕ) (i k off : ℕ) (history : ℕ → ℕ) (produced : ℕ)
    → i + k < length block
    → length before + length block < 2 ^ 32
    → produced ≡ length (so_far before block (i + k))
    → ((j : ℕ)
        → j < length (so_far before block (i + k))
        → length (so_far before block (i + k)) ≤ j + 4096
        → history (j % 4096) ≡ get_or (so_far before block (i + k)) j 0)
    → 0 < off
    → off ≤ i
    → off ≤ 4096
    → history ((produced + 2 ^ 32 - off) % 2 ^ 32 % 4096) ≡ byte_at block (i - off + k)
ring_at before block i k off history produced lt small en ring back inside near =
    let n : ℕ = length (so_far before block (i + k)) in
    let n_is : n ≡ length before + (i + k) =
      omega (arith, length-append before (take (i + k) block), length-take (i + k) block) in
    let j : ℕ = length before + (i - off + k) in
    ap (λ m. history (m % 4096)) {x = (produced + 2 ^ 32 - off) % 2 ^ 32} {y = j} (omega arith)
    ∙ ring j (omega arith) (omega arith)
    ∙ get_or-append_right before (take (i + k) block) (i - off + k)
    ∙ get_or-take (i + k) block (i - off + k) (omega arith)
