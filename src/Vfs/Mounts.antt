-- ===== src/Vfs/Mounts.antt =====
-- The choice of the mountpoint of a path: `_get_superblock` of linux/fs/vfs.py.
use slowfs.Prelude.{
  Bool-cases, length, ℕ, ◌≤◌, ◌≡◌, refl, ◌⊎◌, inl, inr, true, false, List, [], ◌∷◌, arith,
}
use slowfs.Directory.Entry.{Text}
use slowfs.Vfs.Paths.{starts_with, text_le, insert_desc, sort_desc}

-- The order of texts is total and transitive.
text_le_total : (a b : Text) → text_le a b ≡ false → text_le b a ≡ true
unfolding text_le
text_le_total [] b h = cc
text_le_total (a ∷ as') [] h = refl
text_le_total (a ∷ as') (b ∷ bs) h = ground (arith, text_le_total as' bs)

text_le_trans : (a b c : Text) → text_le a b ≡ true → text_le b c ≡ true → text_le a c ≡ true
unfolding text_le
text_le_trans [] b c h k = refl
text_le_trans (a ∷ as') [] c h k = cc
text_le_trans (a ∷ as') (b ∷ bs) [] h k = cc
text_le_trans (a ∷ as') (b ∷ bs) (c ∷ cs) h k = ground (arith, text_le_trans as' bs cs)

abbrev pub AllBelow : Text → List (Text × ℕ) → Type 0
AllBelow t [] = Unit
AllBelow t (e ∷ rest) = (text_le e.0 t ≡ true) × AllBelow t rest

abbrev pub IsDescending : List (Text × ℕ) → Type 0
IsDescending [] = Unit
IsDescending (e ∷ rest) = AllBelow e.0 rest × IsDescending rest

AllBelow-trans :
    (s t : Text) (rest : List (Text × ℕ)) → text_le s t ≡ true → AllBelow s rest → AllBelow t rest
AllBelow-trans s t [] le below = tt
AllBelow-trans s t (e ∷ rest) le below =
    (text_le_trans e.0 s t below.0 le, AllBelow-trans s t rest le below.1)

AllBelow-insert_desc :
    (t : Text) (e : Text × ℕ) (rest : List (Text × ℕ))
    → text_le e.0 t ≡ true
    → AllBelow t rest
    → AllBelow t (insert_desc e rest)
unfolding insert_desc
AllBelow-insert_desc t e [] le below = (le, tt)
AllBelow-insert_desc t e (f ∷ rest) le below = elim (Bool-cases (text_le f.0 e.0)) [
  | inl first ↦ rw first (le, below)
  | inr later ↦ rw later (below.0, AllBelow-insert_desc t e rest le below.1)
]

insert_desc-IsDescending :
    (e : Text × ℕ) (rest : List (Text × ℕ)) → IsDescending rest → IsDescending (insert_desc e rest)
unfolding insert_desc
insert_desc-IsDescending e [] desc = (tt, tt)
insert_desc-IsDescending e (f ∷ rest) desc = elim (Bool-cases (text_le f.0 e.0)) [
  | inl first ↦ rw first ((first, AllBelow-trans f.0 e.0 rest first desc.0), desc)
  | inr later ↦ rw later (
    AllBelow-insert_desc f.0 e rest (text_le_total f.0 e.0 later) desc.0,
    insert_desc-IsDescending e rest desc.1,
  )
]

pub sort_desc-IsDescending : (mounts : List (Text × ℕ)) → IsDescending (sort_desc mounts)
unfolding sort_desc
sort_desc-IsDescending [] = tt
sort_desc-IsDescending (e ∷ rest) =
    insert_desc-IsDescending e (sort_desc rest) (sort_desc-IsDescending rest)

-- An entry of the table of mountpoints.
abbrev pub IsMounted : Text × ℕ → List (Text × ℕ) → Type 0
IsMounted x [] = ⊥
IsMounted x (e ∷ rest) = (e ≡ x) ⊎ IsMounted x rest

-- No mountpoint that is a prefix of the path is longer than `m`.
abbrev pub IsLongest : Text → Text → List (Text × ℕ) → Type 0
IsLongest pathname m [] = Unit
IsLongest pathname m (e ∷ rest) =
    (starts_with pathname e.0 ≡ true → length e.0 ≤ length m) × IsLongest pathname m rest

-- No mountpoint is a prefix of the path.
abbrev pub IsNowhere : Text → List (Text × ℕ) → Type 0
IsNowhere pathname [] = Unit
IsNowhere pathname (e ∷ rest) = (starts_with pathname e.0 ≡ false) × IsNowhere pathname rest

-- Sorting keeps the entries.
IsMounted-insert_desc :
    (x e : Text × ℕ) (rest : List (Text × ℕ))
    → IsMounted x (insert_desc e rest)
    → (e ≡ x) ⊎ IsMounted x rest
unfolding insert_desc
IsMounted-insert_desc x e [] h = h
IsMounted-insert_desc x e (f ∷ rest) h = elim (Bool-cases (text_le f.0 e.0)) [
  | inl first ↦ rw first at h
  | inr later ↦ elim (rw later at h) [
    | inl here ↦ inr (inl here)
    | inr there ↦ elim (IsMounted-insert_desc x e rest there) [
      | inl here ↦ inl here
      | inr below ↦ inr (inr below)
    ]
  ]
]

pub IsMounted-sort_desc :
    (x : Text × ℕ) (mounts : List (Text × ℕ)) → IsMounted x (sort_desc mounts) → IsMounted x mounts
unfolding sort_desc
IsMounted-sort_desc x [] h = h
IsMounted-sort_desc x (e ∷ rest) h = elim (IsMounted-insert_desc x e (sort_desc rest) h) [
  | inl here ↦ inl here
  | inr there ↦ inr (IsMounted-sort_desc x rest there)
]

IsLongest-insert_desc :
    (pathname m : Text) (e : Text × ℕ) (rest : List (Text × ℕ))
    → IsLongest pathname m (insert_desc e rest)
    → IsLongest pathname m (e ∷ rest)
unfolding insert_desc
IsLongest-insert_desc pathname m e [] h = h
IsLongest-insert_desc pathname m e (f ∷ rest) h = elim (Bool-cases (text_le f.0 e.0)) [
  | inl first ↦ rw first at h
  | inr later ↦
      let split : IsLongest pathname m (f ∷ insert_desc e rest) = rw later at h in
      let below = IsLongest-insert_desc pathname m e rest split.1 in (below.0, (split.0, below.1))
]

pub IsLongest-sort_desc :
    (pathname m : Text) (mounts : List (Text × ℕ))
    → IsLongest pathname m (sort_desc mounts)
    → IsLongest pathname m mounts
unfolding sort_desc
IsLongest-sort_desc pathname m [] h = h
IsLongest-sort_desc pathname m (e ∷ rest) h =
    let split = IsLongest-insert_desc pathname m e (sort_desc rest) h in
    (split.0, IsLongest-sort_desc pathname m rest split.1)

IsNowhere-insert_desc :
    (pathname : Text) (e : Text × ℕ) (rest : List (Text × ℕ))
    → IsNowhere pathname (insert_desc e rest)
    → IsNowhere pathname (e ∷ rest)
unfolding insert_desc
IsNowhere-insert_desc pathname e [] h = h
IsNowhere-insert_desc pathname e (f ∷ rest) h = elim (Bool-cases (text_le f.0 e.0)) [
  | inl first ↦ rw first at h
  | inr later ↦
      let split : IsNowhere pathname (f ∷ insert_desc e rest) = rw later at h in
      let below = IsNowhere-insert_desc pathname e rest split.1 in (below.0, (split.0, below.1))
]

pub IsNowhere-sort_desc :
    (pathname : Text) (mounts : List (Text × ℕ))
    → IsNowhere pathname (sort_desc mounts)
    → IsNowhere pathname mounts
unfolding sort_desc
IsNowhere-sort_desc pathname [] h = h
IsNowhere-sort_desc pathname (e ∷ rest) h =
    let split = IsNowhere-insert_desc pathname e (sort_desc rest) h in
    (split.0, IsNowhere-sort_desc pathname rest split.1)
