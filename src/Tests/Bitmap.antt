-- ===== src/Tests/Bitmap.antt =====
-- A map of two bytes, with which the theorems on the bitmaps of linux/fs/super.py are applied.
use slowfs.Prelude.{pos, ◌≡◌, refl, true, false, [], ◌∷◌, arith}
use slowfs.Exec.{assertion_error, ok, raised}
use slowfs.Bitmap.{BitMap, test_bit, next_free, alloc, free, iterate}
use slowfs.Bitmap.Bits.{has, AllBytes}
use slowfs.Bitmap.Alloc.{IsUpdate, alloc_lem, free_lem, alloc-alloc}
use slowfs.Bitmap.NextFree.{IsLeastFree, next_free_lem}
use slowfs.Bitmap.Iterate.{select, iterate_lem}

-- The numbers 0 to 8 and 11.
abbrev small_map : BitMap
small_map = record { size = 2; content = 255 ∷ 9 ∷ [] }

bytes_of_map : AllBytes small_map.content
bytes_of_map = (omega arith, (omega arith, tt))

alloc_lem_example :
    ((alloc (pos 9) small_map).0 ≡ ok tt) × IsUpdate small_map 9 true (alloc (pos 9) small_map).1
unfolding test_bit
alloc_lem_example = alloc_lem small_map 9 bytes_of_map (omega arith) refl

alloc-alloc_example :
    let once = (alloc (pos 9) small_map).1 in
    (alloc (pos 9) once ≡ (raised assertion_error, once)) × (has once 9 ≡ true)
alloc-alloc_example = alloc-alloc small_map 9 bytes_of_map (omega arith)

free_lem_example :
    ((free (pos 11) small_map).0 ≡ ok tt) × IsUpdate small_map 11 false (free (pos 11) small_map).1
free_lem_example = free_lem small_map 11 bytes_of_map (omega arith)

next_free_lem_example : IsLeastFree small_map (pos 9)
unfolding next_free test_bit
next_free_lem_example = next_free_lem small_map

iterate_lem_example : iterate small_map ≡ select (has small_map) 16 0
iterate_lem_example = iterate_lem small_map
