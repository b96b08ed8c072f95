-- ===== src/Tests/OpenFile.antt =====
-- An open file with two data blocks, with which the theorems on linux/fs/file.py are applied.
use slowfs.Prelude.{
  get_elem?, pos, negsuc, ℕ, zero, suc, ◌+◌, ◌*◌, ◌%◌, ◌<◌, ◌≡◌, refl, sym, ap, ◌⊎◌, some,
  some-injective, [], ◌∷◌, arith,
}
use slowfs.Exec.{ok, ◌>>◌}
use slowfs.Bytes.{Bytes, zeros, read_at}
use slowfs.Block.Driver.{Block}
use slowfs.Block.Lists.{Blocks}
use slowfs.Bitmap.{test_bit}
use slowfs.Inode.Layout.{is_dir}
use slowfs.Errno.{enospc, minus}
use slowfs.OpenFile.{Opened, inode_of_file, seek, got, read_loop, read, write_file}
use slowfs.OpenFile.View.{view}
use slowfs.OpenFile.Loop.{read_loop_rounds}
use slowfs.OpenFile.Reads.{read_lem}
use slowfs.OpenFile.Negative.{seek-read_negative}
use slowfs.OpenFile.RoundTrip.{write_seek_read}
use slowfs.OpenFile.Sound.{IsSound}
use slowfs.OpenFile.Growth.{Grown, LacksRoom, NoRoom, grow_lem}
use slowfs.OpenFile.Total.{Stored, Unstored, write_file_lem}
use slowfs.OpenFile.ReadBack.{write_file_read_lem}

abbrev opened_file : ℕ → ℕ → Opened
opened_file flags off = record {
  sb = record {
    disk = record { num_sectors = 56; storage = λ i. i % 251 };
    blocks = [];
    izone = record { sector_id = 24 } ∷ [];
    dzone = record { sector_id = 32 } ∷ record { sector_id = 40 } ∷ record { sector_id = 48 } ∷ [];
    imap = record { size = 1; content = 15 ∷ [] };
    dmap = record { size = 1; content = 3 ∷ [] };
    heap =
        record {
          i_ino = 3;
          i_mode = 33188;
          i_size = 5000;
          num_f_in_dir = 0;
          p_ino = pos 1;
          blocks = (pos 1, record { sector_id = 40 }) ∷ (pos 0, record { sector_id = 32 }) ∷ [];
        }
        ∷ [];
    inodes = [];
    root = 0;
  };
  file = record { inode = 0; offset = pos off; flags = flags };
}

abbrev blocks_of_file : Blocks
blocks_of_file = (inode_of_file (opened_file 0 0)).blocks

read_lem_example : read (pos 10) (opened_file 0 4090) ≡ (
  ok (got (read_at (view (opened_file 0 0).sb.disk blocks_of_file) 4090 10)),
  opened_file 0 4100,
)
unfolding is_dir
read_lem_example =
    read_lem (opened_file 0 4090) 4090 10 refl refl refl (omega arith) (omega arith)
      (omega arith, (omega arith, tt))

read_loop_rounds_example :
    read_loop 20 blocks_of_file 10 0 (zeros 10) (opened_file 0 4090)
    ≡ read_loop 10 blocks_of_file 10 0 (zeros 10) (opened_file 0 4090)
read_loop_rounds_example =
    read_loop_rounds 20 10 blocks_of_file 10 0 (zeros 10) (opened_file 0 4090) (omega arith)
      (omega arith)

abbrev ten_bytes : Bytes
ten_bytes = 1 ∷ 2 ∷ 3 ∷ 4 ∷ 5 ∷ 6 ∷ 7 ∷ 8 ∷ 9 ∷ 10 ∷ []

zone_at :
    (i : ℕ) {block : Block}
    → get_elem? (opened_file 0 0).sb.dzone i ≡ some block
    → (block.sector_id ≡ 32 + 8 * i) × (i < 3)
zone_at zero e = (ap (λ (b : Block). b.sector_id) (sym (some-injective _ _ e)), omega arith)
zone_at (suc zero) e = (ap (λ (b : Block). b.sector_id) (sym (some-injective _ _ e)), omega arith)
zone_at (suc (suc zero)) e =
    (ap (λ (b : Block). b.sector_id) (sym (some-injective _ _ e)), omega arith)
zone_at (suc (suc (suc i))) e = cc

opened_file-IsSound : (flags off : ℕ) → IsSound (opened_file flags off)
unfolding test_bit
opened_file-IsSound flags off = record {
  in_heap = omega arith;
  file = record {
    map_bytes = (omega arith, tt);
    zone_on = λ i block e. let h = zone_at i e in omega arith;
    zone_apart = λ a b x y ne ex ey. let h = zone_at a ex in let k = zone_at b ey in omega arith;
    zone_small = omega arith;
    slot = record { block = record { sector_id = 24 }; there = refl; on = omega arith };
    slot_apart = λ i block e. let h = zone_at i e in omega arith;
    ino = omega arith;
    mode = omega arith;
    num = omega arith;
    parent = 1;
    parent_lem = refl;
    parent_lt = omega arith;
    count = omega arith;
    held = ((1, refl, refl, refl, refl), ((0, refl, refl, refl, refl), tt));
    holds = omega arith;
  };
}

-- Ten bytes at the end of a file of 5000 bytes that is open for appending.
write_file_lem_example :
    Stored (opened_file 1025 4090) 5000 ten_bytes (write_file ten_bytes (opened_file 1025 4090))
    ⊎ ((5000 < 5010)
        × Unstored (opened_file 1025 4090) 5000 10 (write_file ten_bytes (opened_file 1025 4090)))
unfolding is_dir
write_file_lem_example =
    write_file_lem (opened_file 1025 4090) 4090 ten_bytes refl refl (opened_file-IsSound 1025 4090)
      refl (omega arith)

grow_lem_example : Grown (opened_file 1 0) 1 ⊎ NoRoom (opened_file 1 0) 1
unfolding is_dir
grow_lem_example = grow_lem (opened_file 1 0) 1 (opened_file-IsSound 1 0) refl (omega arith)

-- Ten bytes from 4100 bytes before the end of the blocks on, which lie in both blocks.
seek-read_negative_example :
    (◌>>◌ (seek (negsuc 4099)) (read (pos 10)) (opened_file 0 0)).0
    ≡ ok (got (read_at (view (opened_file 0 0).sb.disk blocks_of_file) 4092 10))
unfolding is_dir
seek-read_negative_example =
    seek-read_negative (opened_file 0 0) 4099 10 refl refl (omega arith, (omega arith, tt))
      (omega arith) (omega arith)

-- Ten bytes from offset 4995 of a file of 5000 bytes on.
write_file_read_lem_example :
    ((write_seek_read ten_bytes (pos 4995) (pos 10) (opened_file 2 4995)).0 ≡ ok (got ten_bytes))
    ⊎ ((5000 < 5005)
        × LacksRoom (opened_file 2 4995) 1
        × ((write_file ten_bytes (opened_file 2 4995)).0 ≡ ok (minus enospc)))
unfolding is_dir
write_file_read_lem_example =
    write_file_read_lem (opened_file 2 4995) 4995 ten_bytes refl refl refl
      (opened_file-IsSound 2 4995) refl (omega arith)
