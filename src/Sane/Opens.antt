-- ===== src/Sane/Opens.antt =====
-- close() and open() of linux/fs/vfs.py.
use slowfs.Prelude.{length, ℤ, pos, negsuc, ℕ, ◌<◌, ◌⊎◌, inl, inr, ◌&&◌, Option, none, some, arith}
use slowfs.Exec.{pure}
use slowfs.Exec.Kept.{Kept, Kept-pure, Kept-if, Kept-bind, Kept-step}
use slowfs.Bitmap.Bits.{has}
use slowfs.Inode.Layout.{is_dir, is_reg}
use slowfs.Errno.{ebadf, minus, o_creat, has_flag}
use slowfs.Super.State.{SuperBlock, inode_at}
use slowfs.Directory.Entry.{Text}
use slowfs.OpenFile.{new_file}
use slowfs.Vfs.State.{Kernel, Entry, Call, super_at}
use slowfs.Vfs.Paths.{ends_with_slash}
use slowfs.Vfs.Calls.{
  free_slot, truncate, truncates, install, finish_open, open_file, close_slot, close,
}
use slowfs.Sane.Disk.{disk_steps}
use slowfs.Sane.Super.{super_steps, super_self, HasObject}
use slowfs.Sane.Store.{write_inode-Kept}
use slowfs.Sane.File.{file_steps}
use slowfs.Sane.Paths.{OpensObject, open_inode-Kept, truncate-Kept}
use slowfs.Sane.Kernel.{kernel_steps, Kept-super}
use slowfs.Sane.Mounts.{get_superblock-Kept}
use slowfs.Sane.Calls.{
  IsLive, IsRunning, call_steps, call_self, Kept-kernel, with_entry, Step-free, Step-install,
  with_fd-Kept,
}

close_slot-Kept :
    {c : Call} (slot : ℕ) (entry : Entry)
    → IsRunning c
    → IsLive c.kernel entry
    → Kept c (close_slot slot entry c) (λ _ _. Unit)
unfolding close_slot
close_slot-Kept {c} slot entry running live =
    let st = Step-free slot running in
    let t : Call = with_entry c slot none in
    let over = (running.whole.served entry.super live.in_supers).over in
    Kept-step st (
      Kept-bind
        (Kept-kernel st.running (
          Kept-super entry.super running.whole live.in_supers (
            write_inode-Kept (inode_at (super_at c.kernel entry.super) entry.file.inode)
              over.sane)))
        (λ _ u su _. Kept-pure (call_self su.running) tt))

pub close-Kept : {c : Call} (fd : ℤ) → IsRunning c → Kept c (close fd c) (λ _ _. Unit)
unfolding close
close-Kept (negsuc n) running = Kept-pure (call_self running) tt
close-Kept (pos fd) running =
    with_fd-Kept (pos fd) (minus ebadf) close_slot
      (λ slot entry t run live. close_slot-Kept slot entry run live) running

new_file-IsLive :
    (k : Kernel) (super ref flags : ℕ)
    → super < length k.supers
    → HasObject (super_at k super) ref
    → IsLive k (record { super = super; file = new_file ref flags })
unfolding new_file
new_file-IsLive k super ref flags lt has = record { in_supers = lt; has = has }

install-Kept :
    {c : Call} (flags mode super ref : ℕ) (slot : Option ℕ)
    → super < length c.kernel.supers
    → HasObject (super_at c.kernel super) ref
    → IsRunning c
    → Kept c (install flags mode super ref slot c) (λ _ _. Unit)
unfolding install
install-Kept flags mode super ref none lt has running = Kept-pure (call_self running) tt
install-Kept {c} flags mode super ref (some fd) lt has running =
    let over = (running.whole.served super lt).over in
    let sb : SuperBlock = super_at c.kernel super in
    Kept-bind
      (Kept-kernel running (
        Kept-super super running.whole lt (
          Kept-if (truncates flags mode) (truncate ref) (pure tt)
            (λ _. truncate-Kept ref has over.sane) (λ _. Kept-pure (super_self over.sane) tt))))
      (λ _ t st _.
        let more = st.kernel.more_supers in
        let kept = st.kernel.objects super lt in
        let put =
          Step-install fd (record { super = super; file = new_file ref flags })
            (new_file-IsLive t.kernel super ref flags (omega arith) (omega arith)) st.running in
        Kept-step put (Kept-pure (call_self put.running) tt))

finish_open-Kept :
    {c : Call} (flags mode super : ℕ) (opened : ℤ ⊎ ℕ)
    → super < length c.kernel.supers
    → OpensObject opened (super_at c.kernel super)
    → IsRunning c
    → Kept c (finish_open flags mode super opened c) (λ _ _. Unit)
unfolding finish_open
finish_open-Kept flags mode super (inl err) lt has running = Kept-pure (call_self running) tt
finish_open-Kept {c} flags mode super (inr ref) lt has running =
    install-Kept flags mode super ref (free_slot c.oft) lt has running

pub open_file-Kept :
    {c : Call} (pathname : Text) (flags mode : ℕ)
    → IsRunning c
    → Kept c (open_file pathname flags mode c) (λ _ _. Unit)
unfolding open_file
open_file-Kept {c} pathname flags mode running =
    Kept-if (is_dir mode && has_flag flags o_creat) _ _ (λ _. Kept-pure (call_self running) tt)
      (λ _.
        Kept-if (is_reg mode && ends_with_slash pathname) _ _
          (λ _. Kept-pure (call_self running) tt)
          (λ _.
            Kept-bind (Kept-kernel running (get_superblock-Kept pathname running.whole))
              (λ r t st lt.
                let over = (st.running.whole.served r.0 lt).over in
                Kept-bind
                  (Kept-kernel st.running (
                    Kept-super r.0 st.running.whole lt
                      (open_inode-Kept r.1 flags mode over.rooted over.sane)))
                  (λ opened u su here.
                    let more = su.kernel.more_supers in
                    finish_open-Kept flags mode r.0 opened (omega arith) here su.running))))
