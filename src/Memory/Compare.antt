-- ===== src/Memory/Compare.antt =====
-- helper/string/memory.c: what the sign of `memcmp` says.
use windoge_os.Common.{
  ℕ, zero, suc, ◌+◌, ◌≤◌, ◌<◌, ◌≡◌, refl, ◌⊎◌, inl, inr, arith, Bool-cases, ◌==◌,
}
use windoge_os.Common.Int.{ℤ, pos, negsuc}
use windoge_os.Common.Mem.{Mem}
use windoge_os.Memory.{compare_from, memcmp}

-- The first place where two ranges differ, with the order of the bytes there.
pub record FirstDiff (m : Mem) (s1 s2 i n : ℕ) (r : ℤ) : Type 0 where
  pub at : ℕ
  pub from : i ≤ at
  pub within : at < i + n
  pub before : (j : ℕ) → i ≤ j → j < at → m (s1 + j) ≡ m (s2 + j)
  pub verdict :
      (r ≡ negsuc 0) × (m (s1 + at) < m (s2 + at)) ⊎ (r ≡ pos 1) × (m (s2 + at) < m (s1 + at))

compare_from_lem :
    (n i : ℕ) (m : Mem) (s1 s2 : ℕ)
    → (compare_from n i m s1 s2 ≡ pos 0) × ((j : ℕ) → i ≤ j → j < i + n → m (s1 + j) ≡ m (s2 + j))
      ⊎ FirstDiff m s1 s2 i n (compare_from n i m s1 s2)
unfolding compare_from
compare_from_lem zero i m s1 s2 = inl (refl, λ j lo hi. absurd (omega arith))
compare_from_lem (suc n) i m s1 s2 = elim (Bool-cases (m (s1 + i) == m (s2 + i))) [
  | inl e ↦
      rw (e, compare_from)
        (elim (compare_from_lem n (suc i) m s1 s2) [
          | inl (z, same) ↦ inl (z, λ j lo hi. ground (arith, same j))
          | inr d ↦ inr (record {
            at = d.at;
            from = omega (arith, d.from);
            within = omega (arith, d.within);
            before = λ j lo hi. ground (arith, d.before j);
            verdict = d.verdict;
          })
        ])
  | inr e ↦
      rw (e, compare_from)
        (inr (record {
          at = i;
          from = omega arith;
          within = omega arith;
          before = λ j lo hi. absurd (omega arith);
          verdict = ground arith;
        }))
]

-- `memcmp` returns 0 exactly when all bytes agree up to `n`; else it returns -1 or 1, as the first
-- range has the smaller or the larger byte at the first place where the two differ.
pub memcmp_lem :
    (m : Mem) (s1 s2 n : ℕ)
    → (memcmp m s1 s2 n ≡ pos 0) × ((j : ℕ) → 0 ≤ j → j < 0 + n → m (s1 + j) ≡ m (s2 + j))
      ⊎ FirstDiff m s1 s2 0 n (memcmp m s1 s2 n)
unfolding memcmp
memcmp_lem m s1 s2 n = compare_from_lem n 0 m s1 s2
