-- ===== src/Vfs/Choice.antt =====
-- The superblock of a path: `_get_superblock` of linux/fs/vfs.py.
use slowfs.Prelude.{
  if◌then◌else◌, Bool-cases, length, drop, ℕ, ◌≤◌, ◌≡◌, refl, ◌⊎◌, inl, inr, true, List, [], ◌∷◌,
  arith,
}
use slowfs.Exec.{value_error, Result, ok, raised}
use slowfs.Block.Device.{bytes_eq}
use slowfs.Directory.Entry.{Text, slash}
use slowfs.Vfs.State.{Kernel}
use slowfs.Vfs.Paths.{starts_with, text_le, sort_desc, or_slash, first_prefix, get_superblock}
use slowfs.Vfs.Mounts.{
  AllBelow, IsDescending, sort_desc-IsDescending, IsMounted, IsLongest, IsNowhere,
  IsMounted-sort_desc, IsLongest-sort_desc, IsNowhere-sort_desc,
}

-- Of two prefixes of a path, the one that is not above the other is not the longer one.
shorter_prefix :
    (pathname m n : Text)
    → starts_with pathname m ≡ true
    → starts_with pathname n ≡ true
    → text_le n m ≡ true
    → length n ≤ length m
unfolding starts_with text_le
shorter_prefix pathname m [] h k le = omega arith
shorter_prefix pathname [] (n ∷ ns) h k le = cc
shorter_prefix [] (m ∷ ms) (n ∷ ns) h k le = cc
shorter_prefix (p ∷ ps) (m ∷ ms) (n ∷ ns) h k le = ground (arith, shorter_prefix ps ms ns)

AllBelow-IsLongest :
    (pathname m : Text) (rest : List (Text × ℕ))
    → starts_with pathname m ≡ true
    → AllBelow m rest
    → IsLongest pathname m rest
AllBelow-IsLongest pathname m [] h below = tt
AllBelow-IsLongest pathname m (e ∷ rest) h below =
    (λ k. shorter_prefix pathname m e.0 h k below.0, AllBelow-IsLongest pathname m rest h below.1)

-- The path below a mountpoint.
abbrev pub below_mount : Text → Text → Text
below_mount pathname m =
    if bytes_eq m (slash ∷ []) then pathname else or_slash (drop (length m) pathname)

-- A mountpoint of the table that is a prefix of the path, and no longer one is.
pub record IsChosen (pathname : Text) (mounts : List (Text × ℕ)) (result : Result (ℕ × Text))
    : Type 0 where
  pub mountpoint : Text
  pub ref : ℕ
  pub ran : result ≡ ok (ref, below_mount pathname mountpoint)
  pub mounted : IsMounted (mountpoint, ref) mounts
  pub is_prefix : starts_with pathname mountpoint ≡ true
  pub longest : IsLongest pathname mountpoint mounts

first_prefix_lem :
    (pathname : Text) (mounts : List (Text × ℕ))
    → IsDescending mounts
    → IsChosen pathname mounts (first_prefix pathname mounts)
      ⊎ ((first_prefix pathname mounts ≡ raised value_error) × IsNowhere pathname mounts)
unfolding first_prefix
first_prefix_lem pathname [] desc = inr (refl, tt)
first_prefix_lem pathname ((m, ref) ∷ rest) desc = elim (Bool-cases (starts_with pathname m)) [
  | inl here ↦ inl (record {
    mountpoint = m;
    ref = ref;
    ran = rw here;
    mounted = inl refl;
    is_prefix = here;
    longest = (λ h. omega arith, AllBelow-IsLongest pathname m rest here desc.0);
  })
  | inr other ↦ elim (first_prefix_lem pathname rest desc.1) [
    | inl c ↦ inl (record {
      mountpoint = c.mountpoint;
      ref = c.ref;
      ran = rw other c.ran;
      mounted = inr c.mounted;
      is_prefix = c.is_prefix;
      longest = (λ h. cc, c.longest);
    })
    | inr (ran, nowhere) ↦ inr (rw other ran, (other, nowhere))
  ]
]

-- The superblock of a path is the one whose mountpoint is the longest that is a prefix of the path,
-- and the path below it goes with it; ValueError exactly where no mountpoint is a prefix. The kernel
-- stays as it is.
pub get_superblock_lem :
    (pathname : Text) (k : Kernel)
    → ((get_superblock pathname k).1 ≡ k)
      × (IsChosen pathname k.sblocks (get_superblock pathname k).0
          ⊎ (((get_superblock pathname k).0 ≡ raised value_error) × IsNowhere pathname k.sblocks))
unfolding get_superblock
get_superblock_lem pathname k = (
  refl,
  elim (first_prefix_lem pathname (sort_desc k.sblocks) (sort_desc-IsDescending k.sblocks)) [
    | inl c ↦ inl (record {
      mountpoint = c.mountpoint;
      ref = c.ref;
      ran = c.ran;
      mounted = IsMounted-sort_desc (c.mountpoint, c.ref) k.sblocks c.mounted;
      is_prefix = c.is_prefix;
      longest = IsLongest-sort_desc pathname c.mountpoint k.sblocks c.longest;
    })
    | inr (ran, nowhere) ↦ inr (ran, IsNowhere-sort_desc pathname k.sblocks nowhere)
  ],
)
