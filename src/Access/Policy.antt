-- ===== src/Access/Policy.antt =====
-- helper/core/hfs.c: who may open what, described by the parts of the path.
use windoge_os.Common.{
  ℕ, zero, suc, ◌≡◌, refl, ◌≢◌, ◌↔◌, ◌⊎◌, inl, inr, arith, Bool, true, false, not, ◌&&◌, ◌||◌, List,
  [], ◌∷◌, ◌++◌, ◌==◌, if◌then◌else◌, drop, take, take-append-drop, ◌∙◌, sym, ap, Bool-cases,
}
use mathlib.Core.Path.{subst}
use windoge_os.Common.Int.{ℤ, pos}
use windoge_os.Common.Mem.{chr, IsText}
use windoge_os.Strings.Read.{str_strcmp, str_strncmp}
use windoge_os.Strings.Compare.{str_strcmp_iff, str_strncmp_iff}
use windoge_os.Access.{
  is_zero, system_folder, users_folder, skip_drive, skip_slashes, strip, folder_of, in_system,
  is_foreign,
}

-- The path is the folder of the system, or lies in it.
abbrev pub InSystem : List ℕ → Type 0
InSystem p = (t : List ℕ) × (p ≡ system_folder ++ t) × ((t ≡ []) ⊎ ((u : List ℕ) × (t ≡ b'/' ∷ u)))

abbrev pub NoSlash : List ℕ → Type 0
NoSlash [] = Unit
NoSlash (c ∷ s) = (c ≢ b'/') × NoSlash s

-- A folder's name ends with the path or at a slash.
abbrev pub Ends : List ℕ → Type 0
Ends t = (t ≡ []) ⊎ ((u : List ℕ) × (t ≡ b'/' ∷ u))

-- The path lies in a home, or is one, whose name differs from the user's in what the code compares:
-- its first 63 bytes.
abbrev pub InForeignHome : List ℕ → List ℕ → Type 0
InForeignHome user p =
    (name : List ℕ) × (rest : List ℕ) × (p ≡ users_folder ++ (name ++ rest))
    × NoSlash name
    × (name ≢ [])
    × Ends rest
    × (take 63 name ≢ user)

pub is_zero_iff : (z : ℤ) → (is_zero z ≡ true) ↔ (z ≡ pos 0)
is_zero_iff z = ground arith

IsText-drop : (n : ℕ) (s : List ℕ) → IsText s → IsText (drop n s)
IsText-drop zero s h = h
IsText-drop (suc n) [] h = tt
IsText-drop (suc n) (c ∷ s) h = IsText-drop n s h.1

IsText-skip_slashes : (s : List ℕ) → IsText s → IsText (skip_slashes s)
unfolding skip_slashes
IsText-skip_slashes [] h = tt
IsText-skip_slashes (c ∷ s) h = elim (Bool-cases (c == b'/')) [
  | inl e ↦ rw (e, skip_slashes) (IsText-skip_slashes s h.1)
  | inr e ↦ rw (e, skip_slashes) h
]

IsText-if : (b : Bool) (s t : List ℕ) → IsText s → IsText t → IsText (if b then s else t)
IsText-if true s t h k = h
IsText-if false s t h k = k

IsText-skip_drive : (s : List ℕ) → IsText s → IsText (skip_drive s)
unfolding skip_drive
IsText-skip_drive [] h = tt
IsText-skip_drive (c ∷ []) h = IsText-if _ [] (c ∷ []) tt h
IsText-skip_drive (c ∷ d ∷ s) h = IsText-if _ s (c ∷ d ∷ s) h.1.1 h

pub IsText-strip : (s : List ℕ) → IsText s → IsText (strip s)
unfolding strip
IsText-strip s h = IsText-skip_slashes (skip_drive s) (IsText-skip_drive s h)

pub in_system_sound : (p : List ℕ) → IsText p → in_system p ≡ true → InSystem p
unfolding in_system
in_system_sound p h e = (
  drop 6 p,
  sym (take-append-drop 6 p)
      ∙ ap (λ x. x ++ drop 6 p)
          ((str_strncmp_iff p system_folder 6 h (ground arith)).0
            ((is_zero_iff (str_strncmp p system_folder 6)).0 (ground (arith, e)))),
  ending (drop 6 p) (IsText-drop 6 p h) (ground (arith, e)),
)
  where
    ending : (t : List ℕ) → IsText t → ((chr t == b'/') || (chr t == 0)) ≡ true → Ends t
    ending [] h e = inl refl
    ending (c ∷ t) h e = inr (t, ground (arith, h.0, e))

pub in_system_complete : (p : List ℕ) → IsText p → InSystem p → in_system p ≡ true
unfolding in_system
in_system_complete p h (t, e, end) =
    rw
      (
        e,
        (is_zero_iff (str_strncmp (system_folder ++ t) system_folder 6)).1 (
            (str_strncmp_iff (system_folder ++ t) system_folder 6 (subst IsText e h)
                (ground arith)).1
              refl),
      )
      (ending t end)
  where
    ending : (t : List ℕ) → Ends t → ((chr t == b'/') || (chr t == 0)) ≡ true
    ending t (inl e) = rw e
    ending t (inr (u, e)) = rw e

-- The name in front of the next slash.
split_name :
    (t : List ℕ) → (name : List ℕ) × (rest : List ℕ) × (t ≡ name ++ rest) × NoSlash name × Ends rest
split_name [] = ([], [], refl, tt, inl refl)
split_name (c ∷ t) = elim (Bool-cases (c == b'/')) [
  | inl e ↦ ([], c ∷ t, refl, tt, inr (t, ground (arith, e)))
  | inr e ↦
      let (name, rest, at, plain, end) = split_name t in
      (c ∷ name, rest, ap (λ x. c ∷ x) at, (ground (arith, e), plain), end)
]

folder_of-append :
    (n : ℕ) (name rest : List ℕ)
    → IsText name
    → NoSlash name
    → Ends rest
    → folder_of n (name ++ rest) ≡ take n name
unfolding folder_of
folder_of-append zero name rest h p e = refl
folder_of-append (suc n) [] [] h p e = refl
folder_of-append (suc n) [] (c ∷ rest) h p (inl e) = absurd (cc)
folder_of-append (suc n) [] (c ∷ rest) h p (inr (u, e)) = ground arith
folder_of-append (suc n) (c ∷ name) rest h p e =
    ground (arith, h.0, p.0, folder_of-append n name rest h.1 p.1 e)

IsText-append : (s t : List ℕ) → IsText (s ++ t) → IsText s
IsText-append [] t h = tt
IsText-append (c ∷ s) t h = (h.0, IsText-append s t h.1)

IsText-take : (n : ℕ) (s : List ℕ) → IsText s → IsText (take n s)
IsText-take zero s h = tt
IsText-take (suc n) [] h = tt
IsText-take (suc n) (c ∷ s) h = (h.0, IsText-take n s h.1)

chr_nil : (s : List ℕ) → IsText s → (chr s ≡ 0) ↔ (s ≡ [])
chr_nil [] h = (λ e. refl, λ e. refl)
chr_nil (c ∷ s) h = (λ e. absurd (h.0 e), λ e. cc)

chr-take : (n : ℕ) (s : List ℕ) → chr (take (suc n) s) ≡ chr s
chr-take n [] = refl
chr-take n (c ∷ s) = refl

-- On a path "users/" with a name behind it, the test compares the name with the user's.
is_foreign-home :
    (user name rest : List ℕ)
    → IsText (users_folder ++ (name ++ rest))
    → NoSlash name
    → Ends rest
    → is_foreign user (users_folder ++ (name ++ rest))
      ≡ (not (chr name == 0) && not (is_zero (str_strcmp (take 63 name) user)))
unfolding is_foreign
is_foreign-home user name rest hp plain end = rw (
  (is_zero_iff (str_strncmp (users_folder ++ (name ++ rest)) users_folder 6)).1
      ((str_strncmp_iff (users_folder ++ (name ++ rest)) users_folder 6 hp (ground arith)).1 refl),
  folder_of-append 63 name rest (IsText-append name rest hp.1.1.1.1.1.1) plain end,
  chr-take 62 name,
)

differs_iff :
    (user name : List ℕ)
    → IsText user
    → IsText name
    → ((not (chr name == 0) && not (is_zero (str_strcmp (take 63 name) user))) ≡ true)
      ↔ ((name ≢ []) × (take 63 name ≢ user))
differs_iff user name hu hn = (there, back)
  where
    same : (str_strcmp (take 63 name) user ≡ pos 0) ↔ (take 63 name ≡ user)
    same = str_strcmp_iff (take 63 name) user (IsText-take 63 name hn) hu

    there :
        (not (chr name == 0) && not (is_zero (str_strcmp (take 63 name) user))) ≡ true
        → (name ≢ []) × (take 63 name ≢ user)
    there e = ((λ z. ground (arith, e, (chr_nil name hn).1 z)), λ q. ground (arith, e, same.1 q))

    back :
        (name ≢ []) × (take 63 name ≢ user)
        → (not (chr name == 0) && not (is_zero (str_strcmp (take 63 name) user))) ≡ true
    back (ne, other) = elim (Bool-cases (chr name == 0)) [
      | inl z ↦ absurd (ne ((chr_nil name hn).0 (ground (arith, z))))
      | inr z ↦ elim (Bool-cases (is_zero (str_strcmp (take 63 name) user))) [
        | inl q ↦ absurd (other (same.0 ((is_zero_iff (str_strcmp (take 63 name) user)).0 q)))
        | inr q ↦ rw (z, q)
      ]
    ]

pub is_foreign_complete :
    (user p : List ℕ) → IsText user → IsText p → InForeignHome user p → is_foreign user p ≡ true
is_foreign_complete user p hu hp (name, rest, at, plain, ne, end, other) =
    let hp' : IsText (users_folder ++ (name ++ rest)) = subst IsText at hp in
    ap (is_foreign user) at
    ∙ is_foreign-home user name rest hp' plain end
    ∙ (differs_iff user name hu (IsText-append name rest hp'.1.1.1.1.1.1)).1 (ne, other)

pub is_foreign_sound :
    (user p : List ℕ) → IsText user → IsText p → is_foreign user p ≡ true → InForeignHome user p
is_foreign_sound user p hu hp e =
    let (name, rest, at, plain, end) = split_name (drop 6 p) in
    let whole : p ≡ users_folder ++ (name ++ rest) =
      sym (take-append-drop 6 p)
      ∙ ap (λ x. x ++ drop 6 p)
          ((str_strncmp_iff p users_folder 6 hp (ground arith)).0 (
            (is_zero_iff (str_strncmp p users_folder 6)).0
              (unfold is_foreign in ground (arith, e))))
      ∙ ap (λ x. users_folder ++ x) at in
    let hp' : IsText (users_folder ++ (name ++ rest)) = subst IsText whole hp in
    let (ne, other) =
      (differs_iff user name hu (IsText-append name rest hp'.1.1.1.1.1.1)).0 (
        sym (is_foreign-home user name rest hp' plain end)
        ∙ ap (is_foreign user) (sym whole)
        ∙ e) in
    (name, rest, whole, plain, ne, end, other)
