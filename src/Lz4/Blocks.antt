-- ===== src/Lz4/Blocks.antt =====
-- kernel/kutil/lz4_pack.c: what `lz4_compress_block` writes for a block of up to 4096 bytes.
use windoge_os.Common.{
  ℕ, zero, suc, ◌+◌, ◌-◌, ◌≤◌, ◌<◌, ◌≡◌, refl, ap, ◌∙◌, true, Option, none, some, List, ◌++◌, leb,
  length, take, drop, arith, Bool-cases, inl, inr,
}
use native.Mathlib.Decide.{ℕ_discrete}
use windoge_os.Lz4.Encode.{
  byte_at, lz4_hash, HashTable, put_hash, same_byte, is_match, extend_match, hash_positions,
}
use windoge_os.Lz4.Sequence.{sequence_bytes, last_bytes}

-- Where the match of a sequence may stand: the bytes repeat those `offset` earlier.
pub record IsCopy (source : List ℕ) (index match_length offset : ℕ) : Type 0 where
  pub at_least : 4 ≤ match_length
  pub leaves : index + match_length + 5 ≤ length source
  pub back : 0 < offset
  pub inside : offset ≤ index
  pub near : offset ≤ 4096
  pub repeats :
      (k : ℕ) → k < match_length → byte_at source (index - offset + k) ≡ byte_at source (index + k)

abbrev pub part : List ℕ → ℕ → ℕ → List ℕ
part source a i = take (i - a) (drop a source)

-- The bytes spell the block from a place on: literals to the end, or literals, a match, and the rest.
pub data Spells (source : List ℕ) : ℕ → List ℕ → Type 0 where
  ends :
      {a : ℕ} {bytes : List ℕ}
      → a < length source
      → bytes ≡ last_bytes (part source a (length source))
      → Spells source a bytes
  goes_on :
      {a : ℕ} {bytes : List ℕ} (i match_length offset : ℕ) (rest : List ℕ)
      → a ≤ i
      → IsCopy source i match_length offset
      → Spells source (i + match_length) rest
      → bytes ≡ sequence_bytes (part source a i) match_length offset ++ rest
      → Spells source a bytes

-- The match found grows while the bytes agree.
pub extend-repeats :
    (n : ℕ) (source : List ℕ) (c i ml : ℕ)
    → ((k : ℕ) → k < ml → byte_at source (c + k) ≡ byte_at source (i + k))
    → (ml ≤ extend_match n source c i ml)
      × (extend_match n source c i ml ≤ ml + n)
      × ((k : ℕ)
          → k < extend_match n source c i ml
          → byte_at source (c + k) ≡ byte_at source (i + k))
unfolding extend_match
extend-repeats zero source c i ml h = (omega arith, omega arith, h)
extend-repeats (suc n) source c i ml h = elim (Bool-cases (same_byte source (c + ml) (i + ml))) [
  | inl same ↦
      let (lo, hi, all) = extend-repeats n source c i (suc ml) (λ k lt. elim (ℕ_discrete k ml) [
        | yes e ↦
            ground
              (arith, same, ap (λ j. byte_at source (c + j)) e, ap (λ j. byte_at source (i + j)) e)
        | no ne ↦ h k (omega arith)
      ]) in
      rw same (omega arith, omega arith, all)
  | inr other ↦ rw other (omega arith, omega arith, h)
]

-- All positions of a hash table lie below a bound.
abbrev pub Below : HashTable → ℕ → Type 0
Below table n = (h c : ℕ) → table h ≡ some c → c < n

pub put_hash-Below :
    (table : HashTable) (h p n : ℕ) → Below table n → p < n → Below (put_hash table h p) n
put_hash-Below table h p n b lt k c e = ground (arith, b k c)

pub Below-mono : (table : HashTable) (m n : ℕ) → m ≤ n → Below table m → Below table n
Below-mono table m n le b h c e = omega (arith, b h c e)

pub hash_positions-Below :
    (n : ℕ) (source : List ℕ) (p : ℕ) (table : HashTable) (bound : ℕ)
    → p + n ≤ bound
    → Below table bound
    → Below (hash_positions n source p table) bound
unfolding hash_positions
hash_positions-Below zero source p table bound le b = b
hash_positions-Below (suc n) source p table bound le b =
    elim (Bool-cases (leb p (length source - 4))) [
      | inl more ↦ rw more (
          hash_positions-Below n source (suc p) (put_hash table (lz4_hash source p) p) bound
            (omega arith) (put_hash-Below table (lz4_hash source p) p bound b (omega arith)))
      | inr stop ↦ rw stop b
    ]

pub is_match-some :
    (source : List ℕ) (i : ℕ) (o : Option ℕ) → is_match source i o ≡ true → (c : ℕ) × (o ≡ some c)
unfolding is_match
is_match-some source i none h = absurd (cc)
is_match-some source i (some c) h = (c, refl)

-- An accepted candidate has the same four bytes.
pub is_match-four :
    (source : List ℕ) (i c : ℕ)
    → is_match source i (some c) ≡ true
    → (i - c ≤ 4096) × ((k : ℕ) → k < 4 → byte_at source (c + k) ≡ byte_at source (i + k))
unfolding is_match
is_match-four source i c h = (ground arith, four)
  where
    four : (k : ℕ) → k < 4 → byte_at source (c + k) ≡ byte_at source (i + k)
    four zero lt =
        let e : byte_at source c ≡ byte_at source i = ground arith in
        ap (λ k. byte_at source k) {x = c + 0} {y = c} (omega arith)
        ∙ e
        ∙ ap (λ k. byte_at source k) {x = i} {y = i + 0} (omega arith)
    four (suc zero) lt = ground arith
    four (suc (suc zero)) lt = ground arith
    four (suc (suc (suc zero))) lt = ground arith
    four (suc (suc (suc (suc k)))) lt = absurd (omega arith)
