-- ===== src/Sane/FileWrites.antt =====
-- `File.write` of linux/fs/file.py, over the superblock of its inode.
use slowfs.Prelude.{
  leb, if◌then◌else◌, length, ℤ, pos, negsuc, ◌-ℤ◌, ltb_ℤ, py_get, floor_div, floor_mod, add_ℕ, ℕ,
  zero, suc, ◌+◌, ◌-◌, min, bit_or, refl, not,
}
use slowfs.Exec.{index_error, pure}
use slowfs.Exec.Kept.{Step, Kept, Kept-pure, Kept-or_raise, Kept-if, Kept-bind, Kept-step}
use slowfs.Bytes.{Bytes, slice}
use slowfs.Block.Sizes.{block_size}
use slowfs.Inode.Layout.{is_dir}
use slowfs.Inode.Object.{Inode}
use slowfs.Errno.{o_wronly, o_rdwr, o_append, has_flag}
use slowfs.OpenFile.{
  Opened, set_offset, inode_of_file, write_loop, rounds_from, max_size, reserve, finish_write,
  write_bytes, after_reserve, write_file,
}
use slowfs.Sane.Disk.{disk_steps}
use slowfs.Sane.Super.{super_steps}
use slowfs.Sane.Objects.{with_object, Step-put}
use slowfs.Sane.Store.{on_disk-write, write_inode-Kept}
use slowfs.Sane.Directory.{grow-Kept}
use slowfs.Sane.File.{
  file_steps, IsOpen, file_self, IsOpen-Step, Kept-on_super, with_offset, Step-offset,
}

write_loop-Kept :
    (buf : Bytes) (rounds : ℕ) (i : ℤ) (offset ptr : ℕ) (o : Opened)
    → IsOpen o
    → Kept o (write_loop buf rounds i offset ptr o) (λ _ _. Unit)
unfolding write_loop
write_loop-Kept buf zero i offset ptr o op = Kept-pure (file_self op) tt
write_loop-Kept buf (suc rounds) i offset ptr o op =
    let to_write : ℕ = min (block_size - offset) (length buf - ptr) in
    Kept-bind (Kept-or_raise (py_get (inode_of_file o).blocks i) index_error (file_self op))
      (λ entry t st _.
        let open_t = IsOpen-Step st op in
        Kept-bind
          (Kept-on_super
            (on_disk-write entry.1 offset (slice ptr (ptr + to_write) buf) open_t.sane))
          (λ _ u su _.
            let open_u = IsOpen-Step su open_t in
            let next : ℤ = add_ℕ u.file.offset to_write in
            let sv = Step-offset next open_u in
            let open_v = IsOpen-Step sv open_u in
            Kept-step sv (
              Kept-if (leb (length buf) (ptr + to_write)) _ _ (λ _. Kept-pure (file_self open_v) tt)
                (λ _.
                  write_loop-Kept buf rounds (add_ℕ i 1) 0 (ptr + to_write) (with_offset u next)
                    open_v))))

reserve-Kept :
    {o : Opened} (n : ℕ) (avail : ℤ) → IsOpen o → Kept o (reserve n avail o) (λ _ _. Unit)
unfolding reserve
reserve-Kept {o} n avail op =
    Kept-if (ltb_ℤ avail (pos n)) _ _ (λ _. Kept-on_super (grow-Kept o.file.inode _ op.sane))
      (λ _. Kept-pure (file_self op) tt)

finish_write-Kept :
    {o : Opened} (buf : Bytes) → IsOpen o → Kept o (finish_write buf o) (λ _ _. Unit)
unfolding finish_write
finish_write-Kept {o} buf op =
    let ref : ℕ = o.file.inode in
    let self : Inode = inode_of_file o in
    let changed : Inode = record self { i_size = max_size self.i_size o.file.offset } in
    let put = Step-put ref changed refl (op.sane.in_zone ref) op.sane in
    let t : Opened = record o { sb = with_object o.sb ref changed } in
    let st : Step o t = record { super = put; same_inode = refl } in
    Kept-step st (
      Kept-bind (Kept-on_super (write_inode-Kept (inode_of_file t) put.sane))
        (λ _ u su _. Kept-pure (file_self (IsOpen-Step su (IsOpen-Step st op))) tt))

write_bytes-Kept : {o : Opened} (buf : Bytes) → IsOpen o → Kept o (write_bytes buf o) (λ _ _. Unit)
unfolding write_bytes
write_bytes-Kept {o} buf op =
    let b : ℤ = floor_div o.file.offset block_size in
    Kept-bind
      (write_loop-Kept buf (rounds_from b (length (inode_of_file o).blocks)) b
        (floor_mod o.file.offset block_size) 0 o op)
      (λ _ t st _. finish_write-Kept buf (IsOpen-Step st op))

after_reserve-Kept :
    {o : Opened} (err : ℤ) (buf : Bytes) → IsOpen o → Kept o (after_reserve err buf o) (λ _ _. Unit)
unfolding after_reserve
after_reserve-Kept (pos zero) buf op = write_bytes-Kept buf op
after_reserve-Kept (pos (suc n)) buf op = Kept-pure (file_self op) tt
after_reserve-Kept (negsuc n) buf op = Kept-pure (file_self op) tt

-- `if self.flags & os.O_APPEND`
to_end-Kept :
    {o : Opened}
    → IsOpen o
    → Kept o
        ((if has_flag o.file.flags o_append
            then set_offset (pos (inode_of_file o).i_size)
            else pure tt)
          o)
        (λ _ _. Unit)
to_end-Kept {o} op =
    Kept-if (has_flag o.file.flags o_append) (set_offset (pos (inode_of_file o).i_size)) (pure tt)
      (λ _. record { step = Step-offset (pos (inode_of_file o).i_size) op; returned = λ a e. tt })
      (λ _. Kept-pure (file_self op) tt)

pub write_file-Kept :
    {o : Opened} (buf : Bytes) → IsOpen o → Kept o (write_file buf o) (λ _ _. Unit)
unfolding write_file
write_file-Kept {o} buf op =
    let inode : Inode = inode_of_file o in
    Kept-if (is_dir inode.i_mode) _ _ (λ _. Kept-pure (file_self op) tt)
      (λ _.
        Kept-if (not (has_flag o.file.flags (bit_or o_wronly o_rdwr))) _ _
          (λ _. Kept-pure (file_self op) tt)
          (λ _. Kept-bind (to_end-Kept op) (λ _ t st _.
            let open_t = IsOpen-Step st op in
            Kept-bind (reserve-Kept (length buf) (pos inode.i_size -ℤ t.file.offset) open_t)
              (λ err u su _. after_reserve-Kept err buf (IsOpen-Step su open_t)))))
