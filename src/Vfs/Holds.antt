-- ===== src/Vfs/Holds.antt =====
-- A slot of the open file table that holds a file, from open() to close() of linux/fs/vfs.py.
-- The slot of a number that was free holds a file now, and no other slot has changed.
use slowfs.Prelude.{
  ◌==◌, ==_iff, Bool-cases, le_or_lt, get_elem?-set_self, get_elem?-set_ne, set-set, set-get_elem?,
  get_elem?, set, pos, pos_part, ℕ, ◌<◌, ◌≡◌, sym, ap, ◌∙◌, subst, ◌⊎◌, inl, inr, Option, none,
  some, some-injective, List, arith,
}
use slowfs.Exec.{ok, Exec, ok-injective}
use slowfs.Super.Held.{get_elem?-bound}
use slowfs.Directory.Entry.{Text}
use slowfs.OpenFile.{Opened}
use slowfs.Vfs.State.{Entry, Call, super_at, on_file}
use slowfs.Vfs.Calls.{free_slot, open_file, with_fd, close}
use slowfs.Vfs.Slots.{IsLeastSlot, free_slot_lem, close-slot}
use slowfs.Vfs.Table.{IsFailure, open_file_lem}

pub record Holds (c : Call) (fd : ℕ) (t : Call) : Type 0 where
  pub entry : Entry
  pub filled : t.oft ≡ set c.oft fd (some entry)

module _ (c : Call) (fd : ℕ) (free : free_slot c.oft ≡ some fd) where
  pub was_free : get_elem? c.oft fd ≡ some none
  was_free = let least = subst (λ o. IsLeastSlot c.oft o) free (free_slot_lem c.oft) in least.0

  pub Holds-get : {t : Call} (h : Holds c fd t) → get_elem? t.oft fd ≡ some (some h.entry)
  Holds-get h =
      ap (λ (oft : List (Option Entry)). get_elem? oft fd) h.filled
      ∙ get_elem?-set_self c.oft fd (some h.entry) (get_elem?-bound c.oft fd was_free)

  -- A method of the file in the slot.
  pub Holds-file :
      {A : Type 0} {t : Call} (bad : A) (m : Exec Opened A)
      → Holds c fd t
      → Holds c fd (with_fd (pos fd) bad (λ slot entry. on_file slot entry m) t).1
  unfolding with_fd
  Holds-file {A} {t} bad m h =
      let used = Holds-get h in
      let o : Opened = record { sb = super_at t.kernel h.entry.super; file = h.entry.file } in
      let moved : Entry = record h.entry { file = (m o).1.file } in
      let same = ap (λ (oft : List (Option Entry)). set oft fd (some moved)) h.filled in
      let twice = set-set c.oft fd (some h.entry) (some moved) in
      record { entry = moved; filled = rw used (same ∙ twice) }

  -- close() frees the slot, and the table is what it was.
  pub Holds-close : {t : Call} → Holds c fd t → (close (pos fd) t).1.oft ≡ c.oft
  Holds-close {t} h =
      close-slot t fd h.entry (Holds-get h)
      ∙ ap (λ (oft : List (Option Entry)). set oft fd none) h.filled
      ∙ set-set c.oft fd (some h.entry) none
      ∙ set-get_elem? c.oft fd none was_free

-- After close() of a descriptor that was in use, whatever close() returned, an open() of the process
-- that returns a descriptor returns this one, or a lesser one whose slot was free before close().
pub close-open_file :
    (c : Call) (fd n : ℕ) (entry : Entry) (pathname : Text) (flags mode : ℕ)
    → get_elem? c.oft fd ≡ some (some entry)
    → (open_file pathname flags mode (close (pos fd) c).1).0 ≡ ok (pos n)
    → (n ≡ fd) ⊎ ((n < fd) × (get_elem? c.oft n ≡ some none))
close-open_file c fd n entry pathname flags mode used opened =
    let c' = (close (pos fd) c).1 in
    let closed = close-slot c fd entry used in
    elim (open_file_lem pathname flags mode c') [
      | inl (m, entry', _, ran, least, filled) ↦
          let same : m ≡ n = ap pos_part (ok-injective (sym ran ∙ opened)) in
          let free_now : free_slot c'.oft ≡ some n = least ∙ ap some same in
          let (here, below) = subst (λ o. IsLeastSlot c'.oft o) free_now (free_slot_lem c'.oft) in
          let gone : get_elem? c'.oft fd ≡ some none =
            ap (λ (oft : List (Option Entry)). get_elem? oft fd) closed
            ∙ get_elem?-set_self c.oft fd none (get_elem?-bound c.oft fd used) in
          elim (le_or_lt n fd) [
            | inl le ↦ elim (Bool-cases (fd == n)) [
              | inl e ↦ inl (sym ((==_iff fd n).0 e))
              | inr ne ↦ inr (
                ground arith,
                sym (get_elem?-set_ne c.oft fd n none (ground arith))
                    ∙ sym (ap (λ (oft : List (Option Entry)). get_elem? oft n) closed)
                    ∙ here,
              )
            ]
            | inr beyond ↦
                let (other, there) = below fd beyond in
                let no_way : some none ≡ some (some other) = sym gone ∙ there in
                absurd (taken_free other no_way)
          ]
      | inr (same, failure) ↦ absurd (subst IsFailure opened failure)
    ]
  where
    taken_free : (e : Entry) → some none ≡ some (some e) → ⊥
    taken_free e h = let inside : none ≡ some e = some-injective _ _ h in cc
