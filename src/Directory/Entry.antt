-- ===== src/Directory/Entry.antt =====
-- Path components, and the entries of a directory's blocks. A text is the list of its code points.
use slowfs.Prelude.{
  ltb, leb, ◌==◌, if◌then◌else◌, length, take, ℕ, ◌+◌, Bool, true, false, ◌&&◌, ◌||◌, not, List, [],
  ◌∷◌,
}
use slowfs.Exec.{struct_error, Result, ok, raised, Exec, lift, ◌>>=◌}
use slowfs.Bytes.{Bytes}
use slowfs.Block.Device.{Disk}
use slowfs.Block.Driver.{Block, get_slice, from_to}
use slowfs.Struct.{of_be32, pack_u32, pack_u8, pack_join, pack_text}
use slowfs.Inode.Layout.{max_fname_len, dir_layout_size}

abbrev pub Text : Type 0
Text = List ℕ

abbrev pub slash : ℕ
slash = 47

unfoldable pub all_ascii : Text → Bool
all_ascii [] = true
all_ascii (c ∷ cs) = ltb c 128 && all_ascii cs

-- `c in text` for a character.
unfoldable pub contains : ℕ → Text → Bool
contains c [] = false
contains c (d ∷ cs) = c == d || contains c cs

-- _is_valid_path_component(name)
unfoldable pub is_valid_path_component : Text → Bool
unfolding all_ascii contains
is_valid_path_component name =
    all_ascii name && leb (length name) max_fname_len && not (contains slash name)

unfoldable pub all_valid : List Text → Bool
unfolding is_valid_path_component
all_valid [] = true
all_valid (c ∷ cs) = is_valid_path_component c && all_valid cs

-- text.split("/"): the text up to the first slash, and the parts behind it.
split_add : ℕ → List Text → List Text
split_add c [] = (c ∷ []) ∷ []
split_add c (part ∷ parts) = (c ∷ part) ∷ parts

unfoldable pub split : Text → List Text
unfolding split_add
split [] = [] ∷ []
split (c ∷ cs) = if c == slash then [] ∷ split cs else split_add c (split cs)

-- struct.pack(_DIR_LAYOUT, ino, len(name), name)
unfoldable pub pack_entry : ℕ → Text → Result Bytes
pack_entry ino name =
    pack_join (pack_u32 ino) (pack_join (pack_u8 (length name)) (ok (pack_text max_fname_len name)))

-- struct.unpack(_DIR_LAYOUT, bs), with the name cut off at its length.
unfoldable pub unpack_entry : Bytes → Result (ℕ × Text)
unpack_entry (a ∷ b ∷ c ∷ d ∷ name_len ∷ name) =
    if length name == max_fname_len
    then ok (of_be32 a b c d, take name_len name)
    else raised struct_error
unpack_entry _ = raised struct_error

-- _deserialize_dir_content(block): the entry that the generator yields at an offset.
unfoldable pub read_entry : Block → ℕ → Exec Disk (ℕ × Text)
read_entry block offset = do
  bs ← get_slice block (from_to offset (offset + dir_layout_size))
  lift (unpack_entry bs)
