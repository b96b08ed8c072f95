-- ===== src/Vfs/Slots.antt =====
-- The open file table of a process, as the system calls of linux/fs/vfs.py use it.
use slowfs.Prelude.{
  lt→ltb, get_elem?-set_self, length, get_elem?, set, ℤ, pos, negsuc, ℕ, zero, suc, ◌-◌, ◌<◌, ◌≡◌,
  refl, ap, ◌∙◌, Option, none, some, List, [], ◌∷◌, arith,
}
use slowfs.Exec.{Result, ok, raised, pure, resume}
use slowfs.Bytes.{Bytes}
use slowfs.Bitmap.{free}
use slowfs.Errno.{ebadf, minus}
use slowfs.Super.Held.{get_elem?-bound}
use slowfs.OpenFile.{failed}
use slowfs.Vfs.State.{Entry, Call}
use slowfs.Vfs.Calls.{free_slot, close, write_call, read_call, seek_call}

-- All slots below a number hold open files.
abbrev pub AllOpen : List (Option Entry) → ℕ → Type 0
AllOpen oft n = (k : ℕ) → k < n → (entry : Entry) × (get_elem? oft k ≡ some (some entry))

-- The least slot that is free, or that none is.
abbrev pub IsLeastSlot : List (Option Entry) → Option ℕ → Type 0
IsLeastSlot oft (some fd) = (get_elem? oft fd ≡ some none) × AllOpen oft fd
IsLeastSlot oft none = AllOpen oft (length oft)

AllOpen-cons :
    (entry : Entry) (oft : List (Option Entry)) (n : ℕ)
    → AllOpen oft n
    → AllOpen (some entry ∷ oft) (suc n)
AllOpen-cons entry oft n all zero lt = (entry, refl)
AllOpen-cons entry oft n all (suc k) lt = all k (omega arith)

-- A descriptor for a new file is the least slot that is free, and there is none exactly where all slots hold
-- open files.
pub free_slot_lem : (oft : List (Option Entry)) → IsLeastSlot oft (free_slot oft)
unfolding free_slot
free_slot_lem [] = λ k lt. absurd (omega arith)
free_slot_lem (none ∷ oft) = (refl, λ k lt. absurd (omega arith))
free_slot_lem (some entry ∷ oft) = next (free_slot oft) (free_slot_lem oft)
  where
    next :
        (r : Option ℕ)
        → IsLeastSlot oft r
        → IsLeastSlot (some entry ∷ oft) (elim r [ some fd ↦ some (suc fd) | none ↦ none ])
    next (some fd) (here, all) = (here, AllOpen-cons entry oft fd all)
    next none all = AllOpen-cons entry oft (length oft) all

-- close(), write(), read() and seek() on a descriptor of a slot that is free return EBADF and change nothing.
pub closed_slot :
    (c : Call) (fd : ℕ) (buf : Bytes) (count offset : ℤ)
    → get_elem? c.oft fd ≡ some none
    → (close (pos fd) c ≡ (ok (minus ebadf), c))
      × (write_call (pos fd) buf c ≡ (ok (minus ebadf), c))
      × (read_call (pos fd) count c ≡ (ok (failed (minus ebadf)), c))
      × (seek_call (pos fd) offset c ≡ (ok (minus ebadf), c))
unfolding close write_call read_call seek_call
closed_slot c fd buf count offset free = (rw free, rw free, rw free, rw free)

resume-pure :
    {A : Type 0} (r : Result A) (c : Call) → (resume r (λ _. pure {S = Call} (pos 0)) c).1 ≡ c
resume-pure (ok a) c = refl
resume-pure (raised e) c = refl

-- close() of a descriptor frees its slot and no other, also where it raises.
pub close-slot :
    (c : Call) (fd : ℕ) (entry : Entry)
    → get_elem? c.oft fd ≡ some (some entry)
    → (close (pos fd) c).1.oft ≡ set c.oft fd none
unfolding close
close-slot c fd entry used = rw used (ap (λ (t : Call). t.oft) (resume-pure _ _))

-- After close() of a descriptor that was in use, whatever close() returned, the four calls on it,
-- another close() too, return EBADF and change nothing.
pub close-closed_slot :
    (c : Call) (fd : ℕ) (entry : Entry) (buf : Bytes) (count offset : ℤ)
    → get_elem? c.oft fd ≡ some (some entry)
    → let c' = (close (pos fd) c).1 in
      (close (pos fd) c' ≡ (ok (minus ebadf), c'))
      × (write_call (pos fd) buf c' ≡ (ok (minus ebadf), c'))
      × (read_call (pos fd) count c' ≡ (ok (failed (minus ebadf)), c'))
      × (seek_call (pos fd) offset c' ≡ (ok (minus ebadf), c'))
close-closed_slot c fd entry buf count offset used =
    let c' = (close (pos fd) c).1 in
    let gone : get_elem? c'.oft fd ≡ some none =
      ap (λ (oft : List (Option Entry)). get_elem? oft fd) (close-slot c fd entry used)
      ∙ get_elem?-set_self c.oft fd none (get_elem?-bound c.oft fd used) in
    closed_slot c' fd buf count offset gone

-- A negative descriptor that is not below minus the table's length is EBADF for close() only:
-- write(), read() and seek() take the slot that it counts from the end of the table.
pub negative_fd :
    (c : Call) (n : ℕ) (buf : Bytes) (count offset : ℤ)
    → n < length c.oft
    → let fd = pos (length c.oft - suc n) in
      (close (negsuc n) c ≡ (ok (minus ebadf), c))
      × (write_call (negsuc n) buf c ≡ write_call fd buf c)
      × (read_call (negsuc n) count c ≡ read_call fd count c)
      × (seek_call (negsuc n) offset c ≡ seek_call fd offset c)
unfolding close write_call read_call seek_call
negative_fd c n buf count offset lt =
    let inside = lt→ltb n (length c.oft) lt in (refl, rw inside, rw inside, rw inside)
