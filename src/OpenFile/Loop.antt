-- ===== src/OpenFile/Loop.antt =====
-- The `while` loop of File.read (linux/fs/file.py): how many rounds it makes.
use slowfs.Prelude.{
  Option-cases, ℤ, pos, negsuc, py_get, floor_div, floor_mod, add_ℕ, ℕ, zero, suc, ◌+◌, ◌-◌, ◌≤◌,
  ◌<◌, min, ◌≡◌, refl, inl, inr, List, arith,
}
use slowfs.Exec.{Result, Exec, ◌>>◌, resume_cong}
use slowfs.Bytes.{Bytes, set_slice}
use slowfs.Block.Sizes.{block_size}
use slowfs.Block.Driver.{Block, get_slice, from_to}
use slowfs.Super.State.{on_disk}
use slowfs.OpenFile.{Opened, on_super, set_offset, read_loop}

floor_mod_bound : (x : ℤ) (d : ℕ) → 0 < d → floor_mod x d < d
floor_mod_bound (pos n) d lt = omega arith
floor_mod_bound (negsuc n) d lt = omega arith

-- read()'s loop ends by its own condition: given at least as many rounds as there are bytes left to
-- read, its run, with the state and each exception, does not depend on how many rounds there are.
pub read_loop_rounds :
    (r s : ℕ) (blocks : List (ℤ × Block)) (to_read ptr_buf : ℕ) (buf : Bytes) (o : Opened)
    → to_read ≤ r
    → to_read ≤ s
    → read_loop r blocks to_read ptr_buf buf o ≡ read_loop s blocks to_read ptr_buf buf o
unfolding read_loop
read_loop_rounds zero zero blocks to_read ptr_buf buf o hr hs = refl
read_loop_rounds zero (suc s) blocks zero ptr_buf buf o hr hs = refl
read_loop_rounds (suc r) zero blocks zero ptr_buf buf o hr hs = refl
read_loop_rounds (suc r) (suc s) blocks zero ptr_buf buf o hr hs = refl
read_loop_rounds zero (suc s) blocks (suc left) ptr_buf buf o hr hs = absurd (omega arith)
read_loop_rounds (suc r) zero blocks (suc left) ptr_buf buf o hr hs = absurd (omega arith)
read_loop_rounds (suc r) (suc s) blocks (suc left) ptr_buf buf o hr hs =
    let offset : ℤ = o.file.offset in
    let small = floor_mod_bound offset block_size (omega arith) in
    let b_offset : ℕ = floor_mod offset block_size in
    let size : ℕ = min (block_size - b_offset) (suc left) in
    let next : ℕ → Bytes → Exec Opened Bytes = (λ fuel part. do
      set_offset (add_ℕ offset size)
      read_loop fuel blocks (suc left - size) (ptr_buf + size)
          (set_slice ptr_buf (ptr_buf + size) part buf)) in
    elim (Option-cases (py_get blocks (floor_div offset block_size))) [
      | inl e ↦ rw e refl
      | inr (entry, e) ↦
          let part : Result Bytes × Opened =
            on_super (on_disk (get_slice entry.1 (from_to b_offset (b_offset + size)))) o in
          rw e (
            resume_cong part.0 (next r) (next s) part.1 (λ bs.
              read_loop_rounds r s blocks (suc left - size) (ptr_buf + size) _ _ (omega arith)
                (omega arith)))
    ]
