-- ===== src/Access/Verdict.antt =====
-- helper/core/hfs.c: what `system_can_access_path` answers, and a way round it.
use windoge_os.Common.{
  ℕ, ◌≡◌, refl, ◌≢◌, ◌↔◌, ◌⊎◌, inl, inr, arith, Bool, true, false, some, List, if◌then◌else◌,
  Bool-cases,
}
use windoge_os.Common.Mem.{IsText}
use windoge_os.Strings.Read.{str_strcmp}
use windoge_os.Strings.Compare.{str_strcmp_iff}
use windoge_os.Access.{is_zero, admin, strip, in_system, is_foreign, system_can_access_path}
use windoge_os.Access.Policy.{
  InSystem, InForeignHome, is_zero_iff, IsText-strip, in_system_sound, in_system_complete,
  is_foreign_sound, is_foreign_complete,
}

-- Two tests that each decide a statement decide the refusal.
verdict :
    {A B : Type 0} (a b : Bool)
    → ((a ≡ true) ↔ A)
    → ((b ≡ true) ↔ B)
    → let answer : ℕ = if a then 0 else if b then 0 else 1 in
      ((answer ≡ 0) ↔ (A ⊎ B)) × ((answer ≡ 0) ⊎ (answer ≡ 1))
verdict true b ea eb = ((λ e. inl (ea.0 refl), λ e. refl), inl refl)
verdict false true ea eb = ((λ e. inr (eb.0 refl), λ e. refl), inl refl)
verdict false false ea eb = (
  (
    (λ e. absurd (omega arith)),
    λ d. elim d [ inl x ↦ absurd (cc (ea.1 x)) | inr y ↦ absurd (cc (eb.1 y)) ],
  ),
  inr refl,
)

-- For a user other than "admin", access is refused exactly when the path, without its drive and its
-- leading slashes, is the system's folder, lies in it, or belongs to another user's home, homes
-- being told apart by the first 63 bytes of their names; in all other cases it is granted.
pub can_access_path_iff :
    (user path : List ℕ)
    → IsText user
    → IsText path
    → user ≢ admin
    → ((system_can_access_path (some user) (some path) ≡ 0)
        ↔ (InSystem (strip path) ⊎ InForeignHome user (strip path)))
      × ((system_can_access_path (some user) (some path) ≡ 0)
          ⊎ (system_can_access_path (some user) (some path) ≡ 1))
unfolding system_can_access_path
can_access_path_iff user path hu hp other = elim (Bool-cases (is_zero (str_strcmp user admin))) [
  | inl e ↦ absurd (
      other (
        (str_strcmp_iff user admin hu (ground arith)).0
          ((is_zero_iff (str_strcmp user admin)).0 e)))
  | inr e ↦ rw e (
      verdict (in_system (strip path)) (is_foreign user (strip path))
        (in_system_sound (strip path) hs, in_system_complete (strip path) hs)
        (is_foreign_sound user (strip path) hu hs, is_foreign_complete user (strip path) hu hs))
]
  where
    hs : IsText (strip path)
    hs = IsText-strip path hp
