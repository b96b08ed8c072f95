-- ===== src/Sane/Reachable.antt =====
-- Sequences of system calls (linux/sched.py): what holds in each state that they lead to.
use slowfs.Prelude.{
  length, set, get_or, replicate, ℕ, zero, suc, ◌<◌, ◌≡◌, refl, ◌∙◌, Option, List, [], ◌∷◌, arith,
}
use slowfs.Exec.{Result, pure, resume}
use slowfs.Exec.Kept.{Step, Kept, Kept-pure, Kept-bind}
use slowfs.Block.Device.{Disk}
use slowfs.Super.State.{inode_at}
use slowfs.Vfs.State.{Kernel, Entry, Call, super_at}
use slowfs.Vfs.Calls.{sysfs}
use slowfs.Process.{
  rlimit_nofile, new_process, new_kernel, Machine, Syscall, sys_open, sys_close, sys_write,
  sys_read, sys_seek, sys_mkdir, sys_mount, sys_umount, sys_sysfs, Return, num, bytes, syscall,
  run_call,
}
use slowfs.Sane.Disk.{disk_steps}
use slowfs.Sane.Super.{super_steps}
use slowfs.Sane.File.{file_steps}
use slowfs.Sane.Kernel.{disk_of, IsWhole, kernel_steps}
use slowfs.Sane.Mounts.{mount-Kept, umount-Kept, mkdir_call-Kept}
use slowfs.Sane.Calls.{
  AllLive, AllLive-Step, IsRunning, call_steps, call_self, Kept-kernel, write_call-Kept,
  read_call-Kept, seek_call-Kept,
}
use slowfs.Sane.Opens.{close-Kept, open_file-Kept}
use slowfs.Sane.Layout.{AllData, IsOver-AllData}

-- A disk that is passed to mount() is one of the disks there are.
abbrev pub IsArgument : Syscall → Kernel → Type 0
IsArgument (sys_mount device target) k = device < length k.disks
IsArgument _ k = Unit

-- A return value made of what the call returned.
returning-Kept :
    {A : Type 0} {c : Call} {run : Result A × Call} (f : A → Return)
    → Kept c run (λ _ _. Unit)
    → Kept c (resume run.0 (λ a. pure (f a)) run.1) (λ _ _. Unit)
returning-Kept f km = Kept-bind km (λ a t st _. Kept-pure (call_self st.running) tt)

syscall-Kept :
    {c : Call} (call : Syscall)
    → IsArgument call c.kernel
    → IsRunning c
    → Kept c (syscall call c) (λ _ _. Unit)
unfolding syscall sysfs
syscall-Kept (sys_open pathname flags mode) arg run =
    returning-Kept num (open_file-Kept pathname flags mode run)
syscall-Kept (sys_close fd) arg run = returning-Kept num (close-Kept fd run)
syscall-Kept (sys_write fd buf) arg run = returning-Kept num (write_call-Kept fd buf run)
syscall-Kept (sys_read fd count) arg run = returning-Kept bytes (read_call-Kept fd count run)
syscall-Kept (sys_seek fd offset) arg run = returning-Kept num (seek_call-Kept fd offset run)
syscall-Kept (sys_mkdir pathname mode) arg run =
    returning-Kept num (Kept-kernel run (mkdir_call-Kept pathname mode run.whole))
syscall-Kept (sys_mount device target) arg run =
    returning-Kept num (Kept-kernel run (mount-Kept device target arg run.whole))
syscall-Kept (sys_umount mountpoint) arg run =
    returning-Kept num (Kept-kernel run (umount-Kept mountpoint run.whole))
syscall-Kept sys_sysfs arg run = Kept-pure (call_self run) tt

-- A process's table has all its slots, and its files are open on objects that there are.
abbrev pub AllProcs : Kernel → List (List (Option Entry)) → Type 0
AllProcs k [] = Unit
AllProcs k (oft ∷ procs) = ((length oft ≡ rlimit_nofile) × AllLive k oft) × AllProcs k procs

-- A well-formed state of the machine.
pub record IsWellFormed (m : Machine) : Type 0 where
  pub whole : IsWhole m.kernel
  pub procs : AllProcs m.kernel m.procs

AllProcs-Step :
    {k t : Kernel} (procs : List (List (Option Entry)))
    → Step k t
    → AllProcs k procs
    → AllProcs t procs
AllProcs-Step [] st h = tt
AllProcs-Step (oft ∷ procs) st h = ((h.0.0, AllLive-Step oft st h.0.1), AllProcs-Step procs st h.1)

AllProcs-set :
    (k : Kernel) (procs : List (List (Option Entry))) (p : ℕ) (oft : List (Option Entry))
    → length oft ≡ rlimit_nofile
    → AllLive k oft
    → AllProcs k procs
    → AllProcs k (set procs p oft)
AllProcs-set k [] p oft len live h = tt
AllProcs-set k (x ∷ procs) zero oft len live h = ((len, live), h.1)
AllProcs-set k (x ∷ procs) (suc p) oft len live h = (h.0, AllProcs-set k procs p oft len live h.1)

AllProcs-get :
    (k : Kernel) (procs : List (List (Option Entry))) (p : ℕ)
    → p < length procs
    → AllProcs k procs
    → (length (get_or procs p []) ≡ rlimit_nofile) × AllLive k (get_or procs p [])
AllProcs-get k [] p lt h = absurd (omega arith)
AllProcs-get k (oft ∷ procs) zero lt h = h.0
AllProcs-get k (oft ∷ procs) (suc p) lt h = AllProcs-get k procs p (omega arith) h.1

-- A call of a process keeps the machine well formed.
run_call-IsWellFormed :
    (p : ℕ) (call : Syscall) (m : Machine)
    → p < length m.procs
    → IsArgument call m.kernel
    → IsWellFormed m
    → IsWellFormed (run_call p call m).1
unfolding run_call
run_call-IsWellFormed p call m lt arg sound =
    let own = AllProcs-get m.kernel m.procs p lt sound.procs in
    let c : Call = record { kernel = m.kernel; oft = get_or m.procs p [] } in
    let km = syscall-Kept {c = c} call arg (record { whole = sound.whole; live = own.1 }) in
    let t : Call = (syscall call c).1 in
    record {
      whole = km.step.running.whole;
      procs =
          AllProcs-set t.kernel m.procs p t.oft (km.step.same_slots ∙ own.0) km.step.running.live
            (AllProcs-Step m.procs km.step.kernel sound.procs);
    }

-- The states that calls lead to, from the one in which nothing is mounted and no file is open.
pub data Reachable (disks : List Disk) (procs : ℕ) : Machine → Type 0 where
  booted :
      Reachable disks procs
        (record { kernel = new_kernel disks; procs = replicate procs new_process })
  called :
      {m : Machine} (p : ℕ) (call : Syscall)
      → Reachable disks procs m
      → p < length m.procs
      → IsArgument call m.kernel
      → Reachable disks procs (run_call p call m).1

new_process-AllLive : (k : Kernel) → (length new_process ≡ rlimit_nofile) × AllLive k new_process
unfolding new_process replicate
new_process-AllLive k = (refl, tt)

AllProcs-new : (k : Kernel) (n : ℕ) → AllProcs k (replicate n new_process)
unfolding replicate
AllProcs-new k zero = tt
AllProcs-new k (suc n) = (new_process-AllLive k, AllProcs-new k n)

-- Each state that system calls lead to is well formed, also behind calls that failed or raised, and with
-- several processes and disks: each mountpoint leads to a superblock object on a disk there is,
-- with the layout of that disk, each number of its inodes leads to an object of that number, its
-- root is an object, and each process has its seven slots with files that are open on objects of
-- the superblock they were opened from.
pub Reachable-IsWellFormed :
    (disks : List Disk) (procs : ℕ) (m : Machine) → Reachable disks procs m → IsWellFormed m
unfolding new_kernel
Reachable-IsWellFormed disks procs _ booted = record {
  whole = record { served = λ ref lt. absurd (omega arith); mounted = tt };
  procs = AllProcs-new (new_kernel disks) procs;
}
Reachable-IsWellFormed disks procs _ (called {m} p call before lt arg) =
    run_call-IsWellFormed p call m lt arg (Reachable-IsWellFormed disks procs m before)

-- In each state that system calls lead to, every data block of every inode object lies on the disk of its
-- superblock object, behind the blocks of the superblock, the bitmaps and the inode zone.
pub Reachable-AllData :
    (disks : List Disk) (procs : ℕ) (m : Machine) (super ref : ℕ)
    → Reachable disks procs m
    → super < length m.kernel.supers
    → AllData (disk_of m.kernel super) (inode_at (super_at m.kernel super) ref).blocks
Reachable-AllData disks procs m super ref reach lt =
    let sound = Reachable-IsWellFormed disks procs m reach in
    IsOver-AllData (disk_of m.kernel super) (super_at m.kernel super) ref
      (sound.whole.served super lt).over
