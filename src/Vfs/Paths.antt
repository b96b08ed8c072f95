-- ===== src/Vfs/Paths.antt =====
-- Mountpoints: `_get_superblock` of linux/fs/vfs.py, and os.path.basename.
use slowfs.Prelude.{
  ltb, ◌==◌, if◌then◌else◌, length, drop, ℕ, Bool, true, false, ◌&&◌, Option, none, some, List, [],
  ◌∷◌,
}
use slowfs.Exec.{value_error, Result, ok, raised, Exec}
use slowfs.Block.Device.{bytes_eq}
use slowfs.Directory.Entry.{Text, slash, contains}
use slowfs.Vfs.State.{Kernel}

-- text.startswith(prefix)
unfoldable pub starts_with : Text → Text → Bool
starts_with text [] = true
starts_with [] (p ∷ ps) = false
starts_with (c ∷ cs) (p ∷ ps) = c == p && starts_with cs ps

-- a ≤ b in the order of texts.
unfoldable pub text_le : Text → Text → Bool
text_le [] b = true
text_le (a ∷ as') [] = false
text_le (a ∷ as') (b ∷ bs) = if ltb a b then true else if a == b then text_le as' bs else false

-- sorted(d, reverse=True): the keys, of which no two are the same, in descending order.
unfoldable pub insert_desc : Text × ℕ → List (Text × ℕ) → List (Text × ℕ)
insert_desc e [] = e ∷ []
insert_desc e (f ∷ rest) = if text_le f.0 e.0 then e ∷ f ∷ rest else f ∷ insert_desc e rest

unfoldable pub sort_desc : List (Text × ℕ) → List (Text × ℕ)
unfolding insert_desc
sort_desc [] = []
sort_desc (e ∷ rest) = insert_desc e (sort_desc rest)

-- text.removeprefix(prefix) where the prefix is there, and `or "/"`.
unfoldable pub or_slash : Text → Text
or_slash [] = slash ∷ []
or_slash (c ∷ cs) = c ∷ cs

unfoldable pub first_prefix : Text → List (Text × ℕ) → Result (ℕ × Text)
unfolding starts_with or_slash
first_prefix pathname [] = raised value_error
first_prefix pathname ((mountpoint, ref) ∷ rest) =
    if starts_with pathname mountpoint
    then ok (
      ref,
      if bytes_eq mountpoint (slash ∷ [])
          then pathname
          else or_slash (drop (length mountpoint) pathname),
    )
    else first_prefix pathname rest

-- The superblock object of a path, and the path below its mountpoint.
unfoldable pub get_superblock : Text → Exec Kernel (ℕ × Text)
unfolding first_prefix sort_desc
get_superblock pathname k = (first_prefix pathname (sort_desc k.sblocks), k)

-- os.path.basename: what stands behind the last slash.
unfoldable pub basename : Text → Text
basename [] = []
basename (c ∷ cs) =
    let below = basename cs in
    if contains slash cs then below else if c == slash then cs else c ∷ cs

-- text.endswith("/")
unfoldable pub ends_with_slash : Text → Bool
ends_with_slash [] = false
ends_with_slash (c ∷ []) = c == slash
ends_with_slash (c ∷ d ∷ cs) = ends_with_slash (d ∷ cs)

unfoldable pub find_mount : Text → List (Text × ℕ) → Option ℕ
find_mount mountpoint [] = none
find_mount mountpoint ((m, ref) ∷ rest) =
    if bytes_eq m mountpoint then some ref else find_mount mountpoint rest

unfoldable pub remove_mount : Text → List (Text × ℕ) → List (Text × ℕ)
remove_mount mountpoint [] = []
remove_mount mountpoint (e ∷ rest) =
    if bytes_eq e.0 mountpoint then rest else e ∷ remove_mount mountpoint rest
