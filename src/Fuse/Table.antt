-- ===== src/Fuse/Table.antt =====
-- The open file table of the server of examples/fuse_slowfs.py, which opens and closes a file in each
-- operation.
use slowfs.Prelude.{
  get_elem?, set, ℤ, pos, negsuc, pos_part, ℕ, ◌≡◌, refl, sym, ap, ◌∙◌, subst, ◌⊎◌, inl, inr, none,
  some,
}
use slowfs.Exec.{Exn, Result, ok, raised, Exec, resume, ok-injective}
use slowfs.Bitmap.{free}
use slowfs.Errno.{ebadf, minus}
use slowfs.Directory.Entry.{Text}
use slowfs.OpenFile.{seek, Reply, got, failed, read}
use slowfs.Vfs.State.{Entry, Call}
use slowfs.Vfs.Calls.{free_slot, open_file, close, read_call, seek_call}
use slowfs.Vfs.Table.{IsFailure, open_file_lem}
use slowfs.Vfs.Holds.{Holds, was_free, Holds-get, Holds-file, Holds-close}
use slowfs.Fuse.Server.{open_mode, read_then_close, read_opened, read_path}

-- The table is what it was, or the slot of a file that was opened stays taken behind a bad answer.
abbrev pub Outcome : {A : Type 0} → (Result A → Type 0) → Call → Result A × Call → Type 0
Outcome Bad c p =
    (p.1.oft ≡ c.oft) ⊎ ((fd : ℕ) × (free_slot c.oft ≡ some fd) × Holds c fd p.1 × Bad p.0)

-- The rest of an operation, with the table as it was.
pub resumed-kept :
    {X B : Type 0} (c : Call) (r : Result X) (f : X → Exec Call B) (t : Call)
    → t.oft ≡ c.oft
    → ((x : X) → (f x t).1.oft ≡ c.oft)
    → (resume r f t).1.oft ≡ c.oft
resumed-kept c (ok x) f t same next = next x
resumed-kept c (raised e) f t same next = same

module _ {A : Type 0} (Bad : Result A → Type 0) (c : Call)
    (raises : (e : Exn) → Bad (raised e)) where
  -- The rest of an operation, with the file open.
  pub resume-Holds :
      {X : Type 0} (fd : ℕ) (r : Result X) (f : X → Exec Call A) (t : Call)
      → free_slot c.oft ≡ some fd
      → Holds c fd t
      → ((x : X) → Outcome Bad c (f x t))
      → Outcome Bad c (resume r f t)
  resume-Holds fd (ok x) f t free h next = next x
  resume-Holds fd (raised e) f t free h next = inr (fd, free, h, raises e)

-- What open() refused: the operation returns at once.
pub resume-refused :
    {A : Type 0} (Bad : Result A → Type 0) (c : Call) (r : Result ℤ) (f : ℤ → Exec Call A)
    (t : Call)
    → IsFailure r
    → t.oft ≡ c.oft
    → ((n : ℕ) → (f (negsuc n) t).1 ≡ t)
    → Outcome Bad c (resume r f t)
resume-refused Bad c (ok (pos n)) f t failure same next = absurd failure
resume-refused Bad c (ok (negsuc n)) f t failure same next =
    inl (ap (λ (u : Call). u.oft) (next n) ∙ same)
resume-refused Bad c (raised e) f t failure same next = inl same

-- No bytes were read.
abbrev pub NoBytes : Result Reply → Type 0
NoBytes (ok (got bs)) = ⊥
NoBytes (ok (failed err)) = Unit
NoBytes (raised e) = Unit

read_then_close-Outcome :
    (c : Call) (fd : ℕ) (size err : ℤ) (t : Call)
    → free_slot c.oft ≡ some fd
    → Holds c fd t
    → Outcome NoBytes c (read_then_close fd size err t)
unfolding read_then_close read_call
read_then_close-Outcome c fd size (negsuc n) t free h = inr (fd, free, h, tt)
read_then_close-Outcome c fd size (pos at) t free h =
    let u : Call = (read_call (pos fd) size t).1 in
    let h' = Holds-file c fd free (failed (minus ebadf)) (read size) h in
    resume-Holds NoBytes c (λ e. tt) fd (read_call (pos fd) size t).0 _ u free h'
      (λ ans. inl (
        resumed-kept c (close (pos fd) u).0 _ (close (pos fd) u).1 (Holds-close c fd free h')
          (λ _. Holds-close c fd free h')))

read_opened-Outcome :
    (c : Call) (fd : ℕ) (size offset : ℤ) (t : Call)
    → free_slot c.oft ≡ some fd
    → Holds c fd t
    → Outcome NoBytes c (read_opened size offset (pos fd) t)
unfolding read_opened seek_call
read_opened-Outcome c fd size offset t free h =
    let u : Call = (seek_call (pos fd) offset t).1 in
    let h' = Holds-file c fd free (minus ebadf) (seek offset) h in
    resume-Holds NoBytes c (λ e. tt) fd (seek_call (pos fd) offset t).0 _ u free h'
      (λ err. read_then_close-Outcome c fd size err u free h')

-- The server's read() leaves the open file table as it was, or returns no bytes: then a descriptor that was
-- free, the least one, may stay taken.
pub read_path_lem :
    (path : Text) (size offset : ℤ) (c : Call) → Outcome NoBytes c (read_path path size offset c)
unfolding read_path read_opened
read_path_lem path size offset c =
    let p = open_file path 0 open_mode c in
    elim (open_file_lem path 0 open_mode c) [
      | inl (fd, entry, _, ran, least, filled) ↦ rw ran (
          read_opened-Outcome c fd size offset p.1 least
            (record { entry = entry; filled = filled }))
      | inr (same, failure) ↦
          resume-refused NoBytes c p.0 (read_opened size offset) p.1 failure same (λ n. refl)
    ]

-- Where open() gives the server's read() a descriptor and seek() refuses the offset, read() returns the error of seek(),
-- and the descriptor, which was free, stays taken by the file.
pub read_path-seek_error :
    (path : Text) (size offset : ℤ) (c : Call) (fd n : ℕ)
    → let opened = open_file path 0 open_mode c in
      opened.0 ≡ ok (pos fd)
      → (seek_call (pos fd) offset (open_file path 0 open_mode c).1).0 ≡ ok (negsuc n)
      → ((read_path path size offset c).0 ≡ ok (failed (negsuc n)))
        × (get_elem? c.oft fd ≡ some none)
        × (entry : Entry) × (get_elem? (read_path path size offset c).1.oft fd ≡ some (some entry))
unfolding read_path read_opened read_then_close seek_call
read_path-seek_error path size offset c fd n opened refused =
    let p = open_file path 0 open_mode c in
    elim (open_file_lem path 0 open_mode c) [
      | inl (fd', entry, _, ran, least, filled) ↦
          let same : fd' ≡ fd = ap pos_part (ok-injective (sym ran ∙ opened)) in
          let free' : free_slot c.oft ≡ some fd = least ∙ ap some same in
          let h : Holds c fd p.1 = record {
            entry = entry;
            filled = filled ∙ ap (λ (k : ℕ). set c.oft k (some entry)) same;
          } in
          let h' = Holds-file c fd free' (minus ebadf) (seek offset) h in
          (
            rw (opened, refused) refl,
            was_free c fd free',
            h'.entry,
            rw (opened, refused) (Holds-get c fd free' h'),
          )
      | inr (same, failure) ↦ absurd (subst IsFailure opened failure)
    ]
