-- ===== src/Super/State.antt =====
-- The state of a superblock: the disk below it, its zones and bitmaps, and the inode objects that
-- it and the open files share. An object is its place in `heap`, and a reference to it that place;
-- `inodes` is the dict from inode numbers to objects, and `root` refers to an object too.
use slowfs.Prelude.{
  ◌==◌, if◌then◌else◌, length, set, get_or, ℕ, ◌≡◌, refl, Option, none, some, List, [], ◌∷◌, ◌++◌,
  arith,
}
use slowfs.Exec.{ok, Exec}
use slowfs.Block.Device.{Disk}
use slowfs.Block.Driver.{Block}
use slowfs.Bitmap.{BitMap}
use slowfs.Inode.Object.{Inode, new_inode}

pub record SuperBlock : Type 0 where
  pub disk : Disk
  pub blocks : List Block
  pub izone : List Block
  pub dzone : List Block
  pub imap : BitMap
  pub dmap : BitMap
  pub heap : List Inode
  pub inodes : List (ℕ × ℕ)
  pub root : ℕ

abbrev pub fs_type : ℕ
fs_type = 137

-- A method of the disk, or of a bitmap, of the superblock.
abbrev pub on_disk : {A : Type 0} → Exec Disk A → Exec SuperBlock A
on_disk m sb = let (r, disk) = m sb.disk in (r, record sb { disk = disk })

abbrev pub on_imap : {A : Type 0} → Exec BitMap A → Exec SuperBlock A
on_imap m sb = let (r, bm) = m sb.imap in (r, record sb { imap = bm })

abbrev pub on_dmap : {A : Type 0} → Exec BitMap A → Exec SuperBlock A
on_dmap m sb = let (r, bm) = m sb.dmap in (r, record sb { dmap = bm })

-- The object of a reference. Every reference that the program holds is to an object.
abbrev pub inode_at : SuperBlock → ℕ → Inode
inode_at sb ref = get_or sb.heap ref (new_inode 0)

abbrev pub put_inode : ℕ → Inode → Exec SuperBlock (Unit {0})
put_inode ref inode sb = (ok tt, record sb { heap = set sb.heap ref inode })

-- A new object, and the reference to it.
abbrev pub new_object : Inode → Exec SuperBlock ℕ
new_object inode sb = (ok (length sb.heap), record sb { heap = sb.heap ++ inode ∷ [] })

-- d.get(k) and d[k] = v. A new key goes behind the others.
unfoldable pub dict_get : ℕ → List (ℕ × ℕ) → Option ℕ
dict_get k [] = none
dict_get k ((j, v) ∷ d) = if j == k then some v else dict_get k d

unfoldable pub dict_set : ℕ → ℕ → List (ℕ × ℕ) → List (ℕ × ℕ)
dict_set k v [] = (k, v) ∷ []
dict_set k v ((j, w) ∷ d) = if j == k then (j, v) ∷ d else (j, w) ∷ dict_set k v d

abbrev pub cache : ℕ → ℕ → Exec SuperBlock (Unit {0})
cache ino ref sb = (ok tt, record sb { inodes = dict_set ino ref sb.inodes })

pub dict_get-set :
    (k j v : ℕ) (d : List (ℕ × ℕ))
    → dict_get j (dict_set k v d) ≡ (if k == j then some v else dict_get j d)
unfolding dict_get dict_set
dict_get-set k j v [] = refl
dict_get-set k j v ((i, w) ∷ d) = ground (arith, dict_get-set k j v d)
