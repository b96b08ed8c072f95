-- ===== src/Directory/EntryBytes.antt =====
-- The 32 bytes of a directory entry, between `add_dir_entry` and `_deserialize_dir_content` of
-- linux/fs/inode.py.
use slowfs.Prelude.{
  lt→ltb, length-append, length-take, take_all, take-append_at, length, take, ℕ, ◌-◌, ◌^◌, ◌≤◌, ◌<◌,
  ◌≡◌, refl, true, ◌∷◌, ◌++◌, arith,
}
use slowfs.Exec.{ok}
use slowfs.Bytes.{Bytes, zeros, length-zeros}
use slowfs.Struct.{be32, pack_u8, pack_text}
use slowfs.Struct.Laws.{of_be32_lem, pack_u32-lt}
use slowfs.Inode.Layout.{max_fname_len, dir_layout_size}
use slowfs.Directory.Entry.{Text, is_valid_path_component, pack_entry, unpack_entry}

pub valid_length : (name : Text) → is_valid_path_component name ≡ true → length name ≤ max_fname_len
unfolding is_valid_path_component
valid_length name valid = ground arith

length-pack_text :
    (name : Text)
    → length name ≤ max_fname_len
    → length (pack_text max_fname_len name) ≡ max_fname_len
unfolding pack_text
length-pack_text name short = omega (
  arith,
  length-append (take max_fname_len name) (zeros (max_fname_len - length name)),
  length-take max_fname_len name,
  length-zeros (max_fname_len - length name),
)

take-pack_text :
    (name : Text)
    → length name ≤ max_fname_len
    → take (length name) (pack_text max_fname_len name) ≡ name
unfolding pack_text
take-pack_text name short =
    rw (take_all max_fname_len name short)
      (take-append_at name (zeros (max_fname_len - length name)) (length name) refl)

-- The bytes of an entry.
pub entry_bytes : ℕ → Text → Bytes
entry_bytes ino name = be32 ino ++ (length name ∷ pack_text max_fname_len name)

pack_entry-ok :
    (ino : ℕ) (name : Text)
    → ino < 2 ^ 32
    → length name ≤ max_fname_len
    → pack_entry ino name ≡ ok (entry_bytes ino name)
unfolding pack_entry entry_bytes pack_u8
pack_entry-ok ino name small short =
    rw (pack_u32-lt ino small, lt→ltb (length name) 256 (omega arith))

unpack_entry-entry_bytes :
    (ino : ℕ) (name : Text)
    → ino < 2 ^ 32
    → length name ≤ max_fname_len
    → unpack_entry (entry_bytes ino name) ≡ ok (ino, name)
unfolding unpack_entry entry_bytes be32
unpack_entry-entry_bytes ino name small short =
    rw (length-pack_text name short, of_be32_lem ino small, take-pack_text name short)

length-entry_bytes :
    (ino : ℕ) (name : Text)
    → length name ≤ max_fname_len
    → length (entry_bytes ino name) ≡ dir_layout_size
unfolding entry_bytes be32
length-entry_bytes ino name short = omega (arith, length-pack_text name short)

-- An entry of an inode number of 32 bits under a name that is a valid path component packs to 32 bytes,
-- and these unpack to the number and the name.
pub unpack_entry-pack_entry :
    (ino : ℕ) (name : Text)
    → ino < 2 ^ 32
    → is_valid_path_component name ≡ true
    → (bs : Bytes) × (pack_entry ino name ≡ ok bs)
      × (length bs ≡ dir_layout_size)
      × (unpack_entry bs ≡ ok (ino, name))
unpack_entry-pack_entry ino name small valid =
    let short = valid_length name valid in
    (
      entry_bytes ino name,
      pack_entry-ok ino name small short,
      length-entry_bytes ino name short,
      unpack_entry-entry_bytes ino name small short,
    )
