-- ===== src/Strings/Clean.antt =====
-- helper/string/string.c: `clean_input_string` cuts the blanks at the end of a text.
use windoge_os.Common.{
  ℕ, zero, suc, ◌+◌, ◌-◌, ◌≤◌, ◌<◌, ◌≡◌, refl, ◌⊎◌, inl, inr, arith, true, false, some, List,
  length, Bool-cases, ◌∙◌, ap,
}
use native.Mathlib.Decide.{ℕ_discrete}
use windoge_os.Common.Mem.{Mem, write, Holds}
use windoge_os.Strings.Write.{is_space, clean_loop, clean_input_string}
use windoge_os.Strings.Copying.{find_end-Holds}

-- Of `len` bytes the first `kept` stay, and the others are blanks that have become 0; the last byte
-- that stays is no blank; no other byte of the memory changes.
pub record Trimmed (len str : ℕ) (m m' : Mem) : Type 0 where
  pub kept : ℕ
  pub within : kept ≤ len
  pub blanks : (j : ℕ) → kept ≤ j → j < len → is_space (m (str + j)) ≡ true
  pub last : (j : ℕ) → suc j ≡ kept → is_space (m (str + j)) ≡ false
  pub cut : (j : ℕ) → kept ≤ j → j < len → m' (str + j) ≡ 0
  pub others : (q : ℕ) → (q < str + kept) ⊎ (str + len ≤ q) → m' q ≡ m q

more :
    (len str : ℕ) (m m' : Mem)
    → is_space (m (str + len)) ≡ true
    → Trimmed len str (write m (str + len) 0) m'
    → Trimmed (suc len) str m m'
more len str m m' sp t = record {
  kept = t.kept;
  within = omega (arith, t.within);
  blanks = λ j lo hi. elim (ℕ_discrete j len) [
    | yes e ↦ ap (λ k. is_space (m (str + k))) e ∙ sp
    | no ne ↦ ap is_space (same j (omega arith)) ∙ t.blanks j lo (omega arith)
  ];
  last = λ j e. ap is_space (same j (omega (arith, t.within))) ∙ t.last j e;
  cut = λ j lo hi. elim (ℕ_discrete j len) [
    | yes e ↦ t.others (str + j) (inr (omega arith)) ∙ ground arith
    | no ne ↦ t.cut j lo (omega arith)
  ];
  others = λ q out. t.others q (omega (arith, t.within)) ∙ ground (arith, t.within);
}
  where
    same : (j : ℕ) → j < len → m (str + j) ≡ write m (str + len) 0 (str + j)
    same j lt = ground arith

clean_loop-Trimmed : (len str : ℕ) (m : Mem) → Trimmed len str m (clean_loop len m str)
unfolding clean_loop
clean_loop-Trimmed zero str m = record {
  kept = 0;
  within = omega arith;
  blanks = λ j lo hi. absurd (omega arith);
  last = λ j e. absurd (omega arith);
  cut = λ j lo hi. absurd (omega arith);
  others = λ q out. refl;
}
clean_loop-Trimmed (suc len) str m = elim (Bool-cases (is_space (m (str + len)))) [
  | inl sp ↦ rw sp (more len str m _ sp (clean_loop-Trimmed len str (write m (str + len) 0)))
  | inr stays ↦ rw stays (record {
    kept = suc len;
    within = omega arith;
    blanks = λ j lo hi. absurd (omega arith);
    last = λ j e. ap (λ k. is_space (m (str + k))) {x = j} {y = len} (omega arith) ∙ stays;
    cut = λ j lo hi. absurd (omega arith);
    others = λ q out. refl;
  })
]

-- `clean_input_string` of a text in memory cuts exactly the carriage returns, line feeds, spaces and
-- tabs behind the last other byte and changes nothing else; it returns if the fuel is more than the
-- length of the text.
pub clean_input_string_lem :
    (fuel str : ℕ) (s : List ℕ) (m : Mem)
    → length s < fuel
    → Holds m str s
    → (m' : Mem) × (clean_input_string fuel (some str) m ≡ some m') × Trimmed (length s) str m m'
unfolding clean_input_string
clean_input_string_lem fuel str s m lt h = (
  clean_loop (length s) m str,
  rw (find_end-Holds s fuel m str lt h, clean_input_string)
      (ap (λ k. some (clean_loop k m str)) {x = str + length s - str} (omega arith)),
  clean_loop-Trimmed (length s) str m,
)
