-- ===== src/Sane/Calls.antt =====
-- The system calls of linux/fs/vfs.py with the open file table of the process that makes them.
use slowfs.Prelude.{
  ltb, Bool-cases, length-set, length, get_elem?, set, ℤ, pos, negsuc, py_get, ℕ, zero, suc, ◌-◌,
  ◌<◌, ◌≡◌, refl, sym, ap, ◌∙◌, subst, inl, inr, Option, none, some, some-injective, List, [], ◌∷◌,
  arith,
}
use slowfs.Exec.{index_error, Result, Exec, pure}
use slowfs.Exec.Kept.{Steps, Step, Kept, Kept-pure, Kept-or_raise, Kept-bind}
use slowfs.Bytes.{Bytes}
use slowfs.Errno.{ebadf, minus}
use slowfs.OpenFile.{Opened, seek, read, write_file}
use slowfs.Vfs.State.{Kernel, Entry, Call, super_at, put_super, on_file}
use slowfs.Vfs.Calls.{slot_of, with_fd, write_call, read_call, seek_call}
use slowfs.Sane.Disk.{disk_steps}
use slowfs.Sane.Super.{super_steps, HasObject}
use slowfs.Sane.File.{file_steps, IsOpen, seek-Kept, read-Kept}
use slowfs.Sane.FileWrites.{write_file-Kept}
use slowfs.Sane.Kernel.{IsWhole, kernel_steps, kernel_self, Step-after}

-- The inode of an open file is an object of its superblock.
pub record IsLive (k : Kernel) (entry : Entry) : Type 0 where
  pub in_supers : entry.super < length k.supers
  pub has : HasObject (super_at k entry.super) entry.file.inode

abbrev pub AllLive : Kernel → List (Option Entry) → Type 0
AllLive k [] = Unit
AllLive k (none ∷ oft) = AllLive k oft
AllLive k (some entry ∷ oft) = IsLive k entry × AllLive k oft

IsLive-Step : {k t : Kernel} (entry : Entry) → Step k t → IsLive k entry → IsLive t entry
IsLive-Step entry st live =
    let lt = live.in_supers in
    let has = live.has in
    let more = st.more_supers in
    let kept = st.objects entry.super lt in record { in_supers = omega arith; has = omega arith }

pub AllLive-Step :
    {k t : Kernel} (oft : List (Option Entry)) → Step k t → AllLive k oft → AllLive t oft
AllLive-Step [] st h = tt
AllLive-Step (none ∷ oft) st h = AllLive-Step oft st h
AllLive-Step (some entry ∷ oft) st h = (IsLive-Step entry st h.0, AllLive-Step oft st h.1)

AllLive-free :
    (k : Kernel) (oft : List (Option Entry)) (slot : ℕ)
    → AllLive k oft
    → AllLive k (set oft slot none)
AllLive-free k [] slot h = tt
AllLive-free k (none ∷ oft) zero h = h
AllLive-free k (some entry ∷ oft) zero h = h.1
AllLive-free k (none ∷ oft) (suc slot) h = AllLive-free k oft slot h
AllLive-free k (some entry ∷ oft) (suc slot) h = (h.0, AllLive-free k oft slot h.1)

pub AllLive-set :
    (k : Kernel) (oft : List (Option Entry)) (slot : ℕ) (entry : Entry)
    → IsLive k entry
    → AllLive k oft
    → AllLive k (set oft slot (some entry))
AllLive-set k [] slot entry live h = tt
AllLive-set k (none ∷ oft) zero entry live h = (live, h)
AllLive-set k (some x ∷ oft) zero entry live h = (live, h.1)
AllLive-set k (none ∷ oft) (suc slot) entry live h = AllLive-set k oft slot entry live h
AllLive-set k (some x ∷ oft) (suc slot) entry live h = (h.0, AllLive-set k oft slot entry live h.1)

AllLive-get :
    (k : Kernel) (oft : List (Option Entry)) (slot : ℕ) {entry : Entry}
    → AllLive k oft
    → get_elem? oft slot ≡ some (some entry)
    → IsLive k entry
AllLive-get k [] slot h e = cc
AllLive-get k (none ∷ oft) zero h e = cc
AllLive-get k (some x ∷ oft) zero h e =
    subst (λ (y : Entry). IsLive k y) (some-injective _ _ (some-injective _ _ e)) h.0
AllLive-get k (none ∷ oft) (suc slot) h e = AllLive-get k oft slot h e
AllLive-get k (some x ∷ oft) (suc slot) h e = AllLive-get k oft slot h.1 e

pub record IsRunning (c : Call) : Type 0 where
  pub whole : IsWhole c.kernel
  pub live : AllLive c.kernel c.oft

pub record CallStep (s t : Call) : Type 0 where
  pub kernel : Step s.kernel t.kernel
  pub same_slots : length t.oft ≡ length s.oft
  pub running : IsRunning t

instance abbrev pub call_steps : Steps Call
call_steps = record {
  IsStep = CallStep;
  step_trans = λ {s} {t} {u} st tu. record {
    kernel = kernel_steps.step_trans st.kernel tu.kernel;
    same_slots = tu.same_slots ∙ st.same_slots;
    running = tu.running;
  };
}

pub call_self : {c : Call} → IsRunning c → Step c c
call_self run = record { kernel = kernel_self run.whole; same_slots = refl; running = run }

-- A run of the kernel.
pub Kept-kernel :
    {A : Type 0} {c : Call} {Q : A → Kernel → Type 0} {run : Result A × Kernel}
    → IsRunning c
    → Kept c.kernel run Q
    → Kept c (run.0, record c { kernel = run.1 }) (λ a t. Q a t.kernel)
Kept-kernel {c} running km = record {
  step = record {
    kernel = km.step;
    same_slots = refl;
    running = record { whole = km.step.whole; live = AllLive-Step c.oft km.step running.live };
  };
  returned = km.returned;
}

-- The table with another slot.
abbrev pub with_entry : Call → ℕ → Option Entry → Call
with_entry c slot o = record c { oft = set c.oft slot o }

pub Step-free : {c : Call} (slot : ℕ) → IsRunning c → Step c (with_entry c slot none)
Step-free {c} slot run = record {
  kernel = kernel_self run.whole;
  same_slots = length-set c.oft slot none;
  running = record { whole = run.whole; live = AllLive-free c.kernel c.oft slot run.live };
}

pub Step-install :
    {c : Call} (slot : ℕ) (entry : Entry)
    → IsLive c.kernel entry
    → IsRunning c
    → Step c (with_entry c slot (some entry))
Step-install {c} slot entry live run = record {
  kernel = kernel_self run.whole;
  same_slots = length-set c.oft slot (some entry);
  running = record {
    whole = run.whole;
    live = AllLive-set c.kernel c.oft slot entry live run.live;
  };
}

-- A method of an open file.
on_file-Kept :
    {A : Type 0} {c : Call} (slot : ℕ) (entry : Entry) (m : Exec Opened A)
    → ((o : Opened) → IsOpen o → Kept o (m o) (λ _ _. Unit))
    → IsLive c.kernel entry
    → IsRunning c
    → Kept c (on_file slot entry m c) (λ _ _. Unit)
on_file-Kept {A} {c} slot entry m keeps live run =
    let super : ℕ = entry.super in
    let o : Opened = record { sb = super_at c.kernel super; file = entry.file } in
    let over = (run.whole.served super live.in_supers).over in
    let km = keeps o (record { sane = over.sane; has = live.has }) in
    let t : Opened = (m o).1 in
    let st = Step-after c.kernel super t.sb run.whole live.in_supers km.step.super in
    let moved : Entry = record entry { file = t.file } in
    let old = IsLive-Step entry st live in
    let live' : IsLive (put_super c.kernel super t.sb) moved = record {
      in_supers = old.in_supers;
      has =
          subst (λ (ref : ℕ). HasObject (super_at (put_super c.kernel super t.sb) super) ref)
            (sym km.step.same_inode) old.has;
    } in
    record {
      step = record {
        kernel = st;
        same_slots = length-set c.oft slot (some moved);
        running = record {
          whole = st.whole;
          live =
              AllLive-set (put_super c.kernel super t.sb) c.oft slot moved live'
                (AllLive-Step c.oft st run.live);
        };
      };
      returned = λ a e. tt;
    }

-- A call on a file descriptor, which may count from the end of the table.
py_get-IsLive :
    (k : Kernel) (oft : List (Option Entry)) (fd : ℤ) {entry : Entry}
    → AllLive k oft
    → py_get oft fd ≡ some (some entry)
    → IsLive k entry
py_get-IsLive k oft (pos n) h e = AllLive-get k oft n h e
py_get-IsLive k oft (negsuc n) h e = elim (Bool-cases (ltb n (length oft))) [
  | inl inside ↦ AllLive-get k oft (length oft - suc n) h (rw inside at e)
  | inr outside ↦ let no : none ≡ some (some _) = rw outside at e in cc
]

found-Kept :
    {A : Type 0} {c : Call} (found : Option Entry) (slot : ℕ) (bad : A)
    (run : ℕ → Entry → Exec Call A)
    → ((entry : Entry) → found ≡ some entry → Kept c (run slot entry c) (λ _ _. Unit))
    → IsRunning c
    → Kept c
        ((elim found as (λ _. Exec Call A) [ none ↦ pure bad | some entry ↦ run slot entry ]) c)
        (λ _ _. Unit)
found-Kept none slot bad run next running = Kept-pure (call_self running) tt
found-Kept (some entry) slot bad run next running = next entry refl

pub with_fd-Kept :
    {A : Type 0} {c : Call} (fd : ℤ) (bad : A) (run : ℕ → Entry → Exec Call A)
    → ((slot : ℕ) (entry : Entry) (t : Call)
        → IsRunning t
        → IsLive t.kernel entry
        → Kept t (run slot entry t) (λ _ _. Unit))
    → IsRunning c
    → Kept c (with_fd fd bad run c) (λ _ _. Unit)
unfolding with_fd
with_fd-Kept {c} fd bad run next running =
    Kept-bind (Kept-or_raise (py_get c.oft fd) index_error (call_self running)) (λ found t st e.
      found-Kept found (slot_of c.oft fd) bad run
        (λ entry here. next (slot_of c.oft fd) entry t st.running (
          IsLive-Step entry st.kernel
            (py_get-IsLive c.kernel c.oft fd running.live (e ∙ ap some here))))
        st.running)

pub write_call-Kept :
    {c : Call} (fd : ℤ) (buf : Bytes) → IsRunning c → Kept c (write_call fd buf c) (λ _ _. Unit)
unfolding write_call
write_call-Kept fd buf = with_fd-Kept fd (minus ebadf) _ (λ slot entry t running live.
    on_file-Kept slot entry (write_file buf) (λ o. write_file-Kept buf) live running)

pub read_call-Kept :
    {c : Call} (fd : ℤ) (count : ℤ) → IsRunning c → Kept c (read_call fd count c) (λ _ _. Unit)
unfolding read_call
read_call-Kept fd count = with_fd-Kept fd _ _ (λ slot entry t running live.
    on_file-Kept slot entry (read count) (λ o. read-Kept count) live running)

pub seek_call-Kept :
    {c : Call} (fd : ℤ) (offset : ℤ) → IsRunning c → Kept c (seek_call fd offset c) (λ _ _. Unit)
unfolding seek_call
seek_call-Kept fd offset = with_fd-Kept fd _ _ (λ slot entry t running live.
    on_file-Kept slot entry (seek offset) (λ o. seek-Kept offset) live running)
