-- ===== src/Vfs/Table.antt =====
-- What the system calls of linux/fs/vfs.py do to the open file table of the process that makes them.
use slowfs.Prelude.{
  if◌then◌else◌, Bool-cases, set, ℤ, pos, negsuc, ℕ, zero, suc, ◌≡◌, refl, sym, ap, ◌∙◌, subst, ◌⊎◌,
  inl, inr, Bool, true, false, ◌&&◌, not, Option, none, some,
}
use slowfs.Exec.{Exn, Result, ok, raised, Exec, pure, resume, ◌>>=◌, Result-cases}
use slowfs.Exec.Kept.{Steps, Kept, Kept-pure, Kept-if, Kept-bind}
use slowfs.Bitmap.{free}
use slowfs.Inode.Layout.{is_dir, is_reg}
use slowfs.Errno.{o_creat, o_excl, has_flag}
use slowfs.Super.State.{SuperBlock, inode_at}
use slowfs.Super.Store.{alloc_inode}
use slowfs.Directory.Entry.{Text}
use slowfs.Directory.Grow.{add_dir_entry}
use slowfs.Directory.Lookup.{lookup}
use slowfs.Directory.Make.{create}
use slowfs.OpenFile.{new_file}
use slowfs.Vfs.State.{Kernel, Entry, Call, super_at, on_super_ref, on_kernel}
use slowfs.Vfs.Paths.{get_superblock, basename, ends_with_slash}
use slowfs.Vfs.Calls.{
  free_slot, link_new, resolve, open_inode, truncate, truncates, install, finish_open, open_file,
}

-- A call that changed the kernel, but not the table, before it goes on.
module _ (R : Result ℤ × Call → Type 0) (c : Call)
    (fails : (e : Exn) (k : Kernel) → R (raised e, record c { kernel = k })) where
  pub after_kernel :
      {A : Type 0} (m : Exec Kernel A) (f : A → Exec Call ℤ)
      → ((a : A) (k : Kernel) → m c.kernel ≡ (ok a, k) → R (f a (record c { kernel = k })))
      → R ((on_kernel m >>= f) c)
  after_kernel {A} m f next = elim (Result-cases (m c.kernel).0) [
    | inl (a, e) ↦
        subst (λ r. R (resume r f (record c { kernel = (m c.kernel).1 }))) (sym e)
          (next a (m c.kernel).1 (ap (λ (r : Result A). (r, (m c.kernel).1)) e))
    | inr (x, e) ↦
        subst (λ r. R (resume r f (record c { kernel = (m c.kernel).1 }))) (sym e)
          (fails x (m c.kernel).1)
  ]

-- A negative number, or an exception.
abbrev pub IsFailure : Result ℤ → Type 0
IsFailure (ok (pos n)) = ⊥
IsFailure (ok (negsuc n)) = Unit
IsFailure (raised e) = Unit

-- The object that open() opens below a mountpoint: the one that the look-up finds, or, where the flags
-- ask for it and only the last component is missing, the new object behind the look-up.
abbrev pub IsObject : Text → ℕ → SuperBlock → ℕ → Type 0
IsObject below flags sb ref =
    ((n : ℕ) × ((lookup below sb).0 ≡ ok (pos n, ref)))
    ⊎ ((parent : ℕ) × ((lookup below sb).0 ≡ ok (negsuc 0, parent))
        × (has_flag flags o_creat ≡ true)
        × ((alloc_inode (lookup below sb).1).0 ≡ ok (some ref)))

-- An entry of the open file table for a path: over the superblock of its mountpoint, a file at
-- offset 0 with the flags, on the object of the path.
pub record IsOpened (pathname : Text) (flags : ℕ) (c : Call) (entry : Entry) : Type 0 where
  pub below : Text
  pub kernel : Kernel
  pub chosen : get_superblock pathname c.kernel ≡ (ok (entry.super, below), kernel)
  pub object : IsObject below flags (super_at kernel entry.super) entry.file.inode
  pub at_start : entry.file.offset ≡ pos 0
  pub same_flags : entry.file.flags ≡ flags

-- open() put a file, of which P holds, into the least free slot and returned it, or it left the table as
-- it was and failed.
abbrev pub Opens : (Entry → Type 0) → Call → Result ℤ × Call → Type 0
Opens P c p =
    ((fd : ℕ) × (entry : Entry) × P entry
      × (p.0 ≡ ok (pos fd))
      × (free_slot c.oft ≡ some fd)
      × (p.1.oft ≡ set c.oft fd (some entry)))
    ⊎ ((p.1.oft ≡ c.oft) × IsFailure p.0)

-- Only what an action returns counts here.
instance abbrev any_steps : Steps SuperBlock
any_steps = record { IsStep = λ s t. Unit; step_trans = λ st tu. tt }

what_ran :
    {A : Type 0} {s : SuperBlock} {run : Result A × SuperBlock}
    → Kept s run (λ a t. run ≡ (ok a, t))
what_ran {A} {run} = record { step = tt; returned = λ a e. ap (λ (r : Result A). (r, run.1)) e }

not-false : (b : Bool) → not b ≡ false → b ≡ true
not-false true e = refl
not-false false e = cc

-- What open_inode() returns is an object with a property, or the negated number of an error.
abbrev IsOutcome : (ℕ → Type 0) → ℤ ⊎ ℕ → SuperBlock → Type 0
IsOutcome R (inl (pos n)) sb = ⊥
IsOutcome R (inl (negsuc n)) sb = Unit
IsOutcome R (inr ref) sb = R ref

link_new-IsOutcome :
    (R : ℕ → Type 0) (pathname : Text) (mode parent : ℕ) (new : Option ℕ) (sb : SuperBlock)
    → ((ref : ℕ) → new ≡ some ref → R ref)
    → Kept sb (link_new pathname mode parent new sb) (IsOutcome R)
unfolding link_new
link_new-IsOutcome R pathname mode parent none sb good = Kept-pure tt tt
link_new-IsOutcome R pathname mode parent (some ref) sb good =
    Kept-bind {run = create ref (some parent) mode sb} what_ran (λ _ t st _.
      Kept-bind {run = add_dir_entry parent (basename pathname) (inode_at t ref).i_ino t} what_ran
        (λ _ u su _. Kept-pure tt (good ref refl)))

resolve-IsOutcome :
    (R : ℕ → Type 0) (pathname : Text) (flags mode ref : ℕ) (status : ℤ) (sb : SuperBlock)
    → ((n : ℕ) → status ≡ pos n → R ref)
    → (status ≡ negsuc 0
        → has_flag flags o_creat ≡ true
        → (new : ℕ) → (alloc_inode sb).0 ≡ ok (some new)
        → R new)
    → Kept sb (resolve pathname flags mode ref status sb) (IsOutcome R)
unfolding resolve
resolve-IsOutcome R pathname flags mode ref (pos zero) sb found made =
    Kept-if (has_flag flags o_creat && has_flag flags o_excl) _ _ (λ _. Kept-pure tt tt)
      (λ _. Kept-pure tt (found 0 refl))
resolve-IsOutcome R pathname flags mode ref (pos (suc n)) sb found made =
    Kept-pure tt (found (suc n) refl)
resolve-IsOutcome R pathname flags mode ref (negsuc zero) sb found made =
    Kept-if (not (has_flag flags o_creat)) _ _ (λ _. Kept-pure tt tt)
      (λ creates. Kept-bind {run = alloc_inode sb} what_ran (λ new t st ran.
        link_new-IsOutcome R pathname mode ref new t (λ r e.
          made refl (not-false (has_flag flags o_creat) creates) r (
            ap (λ (x : Result (Option ℕ) × SuperBlock). x.0) ran ∙ ap (λ (x : Option ℕ). ok x) e))))
resolve-IsOutcome R pathname flags mode ref (negsuc (suc zero)) sb found made = Kept-pure tt tt
resolve-IsOutcome R pathname flags mode ref (negsuc (suc (suc n))) sb found made = Kept-pure tt tt

open_inode-IsOutcome :
    (below : Text) (flags mode : ℕ) (sb : SuperBlock)
    → Kept sb (open_inode below flags mode sb) (IsOutcome (IsObject below flags sb))
unfolding open_inode
open_inode-IsOutcome below flags mode sb =
    Kept-bind {run = lookup below sb} what_ran (λ found t st ran.
      resolve-IsOutcome (IsObject below flags sb) below flags mode found.1 found.0 t
        (λ n e. inl (
          n,
          ap (λ (x : Result (ℤ × ℕ) × SuperBlock). x.0) ran ∙ ap (λ (z : ℤ). ok (z, found.1)) e,
        ))
        (λ e creates new made. inr (
          found.1,
          ap (λ (x : Result (ℤ × ℕ) × SuperBlock). x.0) ran ∙ ap (λ (z : ℤ). ok (z, found.1)) e,
          creates,
          ap (λ (x : Result (ℤ × ℕ) × SuperBlock). (alloc_inode x.1).0) ran ∙ made,
        )))

module _ (P : Entry → Type 0) (flags mode super : ℕ) where
  install-Opens :
      (ref : ℕ) (slot : Option ℕ) (c : Call)
      → free_slot c.oft ≡ slot
      → P (record { super = super; file = record { inode = ref; offset = pos 0; flags = flags } })
      → Opens P c (install flags mode super ref slot c)
  unfolding install new_file
  install-Opens ref none c free good = inr (refl, tt)
  install-Opens ref (some fd) c free good =
      after_kernel (λ p. Opens P c p) c (λ e k. inr (refl, tt))
        (on_super_ref super (if truncates flags mode then truncate ref else pure tt)) _
        (λ _ k _.
          inl (fd, record { super = super; file = new_file ref flags }, good, refl, free, refl))

  finish_open-Opens :
      (opened : ℤ ⊎ ℕ) (sb : SuperBlock) (c : Call)
      → IsOutcome
          (λ ref. P (record {
            super = super;
            file = record { inode = ref; offset = pos 0; flags = flags };
          }))
          opened
          sb
      → Opens P c (finish_open flags mode super opened c)
  unfolding finish_open
  finish_open-Opens (inl (pos n)) sb c h = absurd h
  finish_open-Opens (inl (negsuc n)) sb c h = inr (refl, tt)
  finish_open-Opens (inr ref) sb c h = install-Opens ref (free_slot c.oft) c refl h

IsOutcome-map :
    {P Q : ℕ → Type 0} (opened : ℤ ⊎ ℕ) (s t : SuperBlock)
    → ((ref : ℕ) → P ref → Q ref)
    → IsOutcome P opened s
    → IsOutcome Q opened t
IsOutcome-map (inl (pos n)) s t f h = h
IsOutcome-map (inl (negsuc n)) s t f h = h
IsOutcome-map (inr ref) s t f h = f ref h

-- open() returns the least free descriptor of the process, and in its slot, the only one that has
-- changed, stands a file at offset 0 with the flags, over the superblock that get_superblock()
-- chooses for the path: on the object that the look-up of the rest of the path finds there, or,
-- where the flags have O_CREAT and only the last component is missing, on the new inode object
-- that alloc_inode() then gives. Or open() leaves the table as it was and returns the negated
-- number of an error, or raises.
pub open_file_lem :
    (pathname : Text) (flags mode : ℕ) (c : Call)
    → Opens (IsOpened pathname flags c) c (open_file pathname flags mode c)
unfolding open_file
open_file_lem pathname flags mode c = elim (Bool-cases (is_dir mode && has_flag flags o_creat)) [
  | inl e ↦ rw e (inr (refl, tt))
  | inr e ↦ elim (Bool-cases (is_reg mode && ends_with_slash pathname)) [
    | inl f ↦ rw (e, f) (inr (refl, tt))
    | inr f ↦
        rw (e, f)
          (after_kernel (λ p. Opens P c p) c (λ x k. inr (refl, tt)) (get_superblock pathname) _
            (λ r k chosen.
              let super : ℕ = r.0 in
              let sb : SuperBlock = super_at k super in
              let run = open_inode r.1 flags mode sb in
              after_kernel (λ p. Opens P c p) (record c { kernel = k }) (λ x l. inr (refl, tt))
                (on_super_ref super (open_inode r.1 flags mode)) _
                (λ opened l g.
                  finish_open-Opens P flags mode super opened run.1 (record c { kernel = l })
                    (IsOutcome-map opened run.1 run.1
                      (λ ref object. record {
                        below = r.1;
                        kernel = k;
                        chosen = chosen;
                        object = object;
                        at_start = refl;
                        same_flags = refl;
                      })
                      ((open_inode-IsOutcome r.1 flags mode sb).returned opened
                        (ap (λ (x : Result (ℤ ⊎ ℕ) × Kernel). x.0) g))))))
  ]
]
  where
    P : Entry → Type 0
    P = IsOpened pathname flags c
