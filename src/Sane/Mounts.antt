-- ===== src/Sane/Mounts.antt =====
-- The system calls of linux/fs/vfs.py that work on the kernel: the mountpoints, and mkdir().
use slowfs.Prelude.{
  Bool-cases, le_or_lt, length-append, length-set, length, set, get_or, ℕ, zero, suc, ◌≤◌, ◌<◌, ◌≡◌,
  refl, sym, ◌∙◌, subst, inl, inr, false, some, some-injective, List, [], ◌∷◌, ◌++◌, arith,
}
use slowfs.Exec.{value_error, ok, raised, ok-injective}
use slowfs.Exec.Kept.{Step, Kept, Kept-or_raise, Kept-any, Kept-raise_if, Kept-bind, Kept-step}
use slowfs.Block.Device.{bytes_eq, Disk}
use slowfs.Super.State.{SuperBlock}
use slowfs.Directory.Entry.{Text}
use slowfs.Mount.{new_super}
use slowfs.Vfs.State.{Mounted, Kernel, no_disk, no_super, super_at, on_device}
use slowfs.Vfs.Paths.{get_superblock, find_mount, remove_mount}
use slowfs.Vfs.Mounts.{IsMounted}
use slowfs.Vfs.Choice.{below_mount, get_superblock_lem}
use slowfs.Vfs.Calls.{sysfs, add_super, is_mounted, mount, umount, mkdir_call}
use slowfs.Sane.Disk.{disk_steps}
use slowfs.Sane.Super.{super_steps}
use slowfs.Sane.Store.{sync_fs-Kept}
use slowfs.Sane.Mount.{IsOver, new_super-Kept}
use slowfs.Sane.File.{file_steps}
use slowfs.Sane.Paths.{make_directory-Kept}
use slowfs.Sane.Kernel.{
  IsServed, AllMounted, IsWhole, kernel_steps, kernel_self, sizes-set, IsOver-size, other-IsServed,
  Kept-super,
}

Step-disk :
    {k : Kernel} (device : ℕ) (disk : Disk)
    → IsWhole k
    → disk.num_sectors ≡ (get_or k.disks device no_disk).num_sectors
    → Step k (record k { disks = set k.disks device disk })
unfolding super_at
Step-disk {k} device disk whole same = record {
  more_supers = omega arith;
  same_disks = length-set k.disks device disk;
  objects = λ ref lt. omega arith;
  whole = record {
    served = λ ref lt.
        other-IsServed ref refl (length-set k.disks device disk)
          (λ e. sizes-set k.disks device disk e same) (whole.served ref lt);
    mounted = whole.mounted;
  };
}

-- A superblock object that is over the disk of a device, whatever disk it has worked on.
abbrev IsFor : ℕ → SuperBlock → Kernel → Type 0
IsFor device sb k =
    let disk = get_or k.disks device no_disk in IsOver disk (record sb { disk = disk })

on_device-Kept :
    {k : Kernel} (device : ℕ)
    → IsWhole k
    → Kept k (on_device device (new_super false) k) (IsFor device)
on_device-Kept {k} device whole =
    let disk : Disk = get_or k.disks device no_disk in
    let made = new_super-Kept false disk in
    let after : Disk = (new_super false disk).1 in
    record {
      step = Step-disk device after whole made.step;
      returned = λ sb e.
          IsOver-size sb disk (get_or (set k.disks device after) device no_disk)
            (sizes-set k.disks device after device made.step) (made.returned sb e);
    }

AllMounted-more :
    (n m : ℕ) (mounts : List (Text × ℕ)) → n ≤ m → AllMounted n mounts → AllMounted m mounts
AllMounted-more n m [] le h = tt
AllMounted-more n m (e ∷ mounts) le h = (omega arith, AllMounted-more n m mounts le h.1)

AllMounted-append :
    (n ref : ℕ) (m : Text) (mounts : List (Text × ℕ))
    → ref < n
    → AllMounted n mounts
    → AllMounted n (mounts ++ (m, ref) ∷ [])
AllMounted-append n ref m [] lt h = (lt, tt)
AllMounted-append n ref m (e ∷ mounts) lt h = (h.0, AllMounted-append n ref m mounts lt h.1)

AllMounted-remove :
    (n : ℕ) (m : Text) (mounts : List (Text × ℕ))
    → AllMounted n mounts
    → AllMounted n (remove_mount m mounts)
unfolding remove_mount
AllMounted-remove n m [] h = tt
AllMounted-remove n m (e ∷ mounts) h = elim (Bool-cases (bytes_eq e.0 m)) [
  | inl same ↦ rw same h.1
  | inr other ↦ rw other (h.0, AllMounted-remove n m mounts h.1)
]

find_mount-lt :
    (n : ℕ) (m : Text) (mounts : List (Text × ℕ)) (ref : ℕ)
    → AllMounted n mounts
    → find_mount m mounts ≡ some ref
    → ref < n
unfolding find_mount
find_mount-lt n m [] ref h e = cc
find_mount-lt n m (x ∷ mounts) ref h e = elim (Bool-cases (bytes_eq x.0 m)) [
  | inl same ↦
      let here : some x.1 ≡ some ref = rw same at e in
      subst (λ (r : ℕ). r < n) (some-injective _ _ here) h.0
  | inr other ↦ find_mount-lt n m mounts ref h.1 (rw other at e)
]

IsMounted-lt :
    (n : ℕ) (x : Text × ℕ) (mounts : List (Text × ℕ))
    → AllMounted n mounts
    → IsMounted x mounts
    → x.1 < n
IsMounted-lt n x [] h there = absurd there
IsMounted-lt n x (e ∷ mounts) h (inl here) = subst (λ (y : Text × ℕ). y.1 < n) here h.0
IsMounted-lt n x (e ∷ mounts) h (inr there) = IsMounted-lt n x mounts h.1 there

get_or-end : {A : Type 0} (xs : List A) (x d : A) → get_or (xs ++ x ∷ []) (length xs) d ≡ x
get_or-end [] x d = refl
get_or-end (y ∷ xs) x d = get_or-end xs x d

get_or-front :
    {A : Type 0} (xs : List A) (x d : A) (i : ℕ)
    → i < length xs
    → get_or (xs ++ x ∷ []) i d ≡ get_or xs i d
get_or-front [] x d i h = absurd (omega arith)
get_or-front (y ∷ xs) x d zero h = refl
get_or-front (y ∷ xs) x d (suc i) h = get_or-front xs x d i (omega arith)

add_super-Kept :
    {k : Kernel} (m : Text) (device : ℕ) (sb : SuperBlock)
    → device < length k.disks
    → IsFor device sb k
    → IsWhole k
    → Kept k (add_super m device sb k) (λ _ _. Unit)
unfolding add_super super_at
add_super-Kept {k} m device sb plugged over whole =
    let x : Mounted = record { device = device; sb = sb } in
    let supers : List Mounted = k.supers ++ x ∷ [] in
    let t : Kernel = record k {
      supers = supers;
      sblocks = k.sblocks ++ (m, length k.supers) ∷ [];
    } in
    let len = length-append k.supers (x ∷ []) in
    let served : (ref : ℕ) → ref < length supers → IsServed t ref = λ ref lt.
      elim (le_or_lt (length k.supers) ref) [
        | inl new ↦
            let same : length k.supers ≡ ref = omega (arith, len) in
            let parts =
              subst
                (λ (y : Mounted).
                  (y.device < length k.disks)
                  × IsOver (get_or k.disks y.device no_disk)
                      (record y.sb { disk = get_or k.disks y.device no_disk }))
                (sym (get_or-end k.supers x no_super)) (plugged, over) in
            subst (λ (r : ℕ). IsServed t r) same (record { plugged = parts.0; over = parts.1 })
        | inr old ↦
            other-IsServed ref (get_or-front k.supers x no_super ref old) refl (λ e. refl)
              (whole.served ref old)
      ] in
    record {
      step = record {
        more_supers = omega (arith, len);
        same_disks = refl;
        objects = λ ref lt.
            subst
              (λ (y : Mounted). length (get_or k.supers ref no_super).sb.heap ≤ length y.sb.heap)
              (sym (get_or-front k.supers x no_super ref lt)) (omega arith);
        whole = record {
          served = served;
          mounted =
              AllMounted-append (length supers) (length k.supers) m k.sblocks (omega (arith, len)) (
                AllMounted-more (length k.supers) (length supers) k.sblocks (omega (arith, len))
                  whole.mounted);
        };
      };
      returned = λ a e. tt;
    }

pub mount-Kept :
    {k : Kernel} (device : ℕ) (mountpoint : Text)
    → device < length k.disks
    → IsWhole k
    → Kept k (mount device mountpoint k) (λ _ _. Unit)
unfolding mount sysfs
mount-Kept {k} device mountpoint plugged whole =
    Kept-bind
      (Kept-raise_if (is_mounted (find_mount mountpoint k.sblocks)) value_error (kernel_self whole))
      (λ _ t st _. Kept-bind (on_device-Kept device st.whole) (λ sb u su over.
        let a = st.same_disks in
        let b = su.same_disks in add_super-Kept mountpoint device sb (omega arith) over su.whole))

Step-removed :
    {k : Kernel} (mountpoint : Text)
    → IsWhole k
    → Step k (record k { sblocks = remove_mount mountpoint k.sblocks })
unfolding super_at
Step-removed {k} mountpoint whole = record {
  more_supers = omega arith;
  same_disks = refl;
  objects = λ ref lt. omega arith;
  whole = record {
    served = λ ref lt. other-IsServed ref refl refl (λ e. refl) (whole.served ref lt);
    mounted = AllMounted-remove (length k.supers) mountpoint k.sblocks whole.mounted;
  };
}

pub umount-Kept :
    {k : Kernel} (mountpoint : Text) → IsWhole k → Kept k (umount mountpoint k) (λ _ _. Unit)
unfolding umount sysfs super_at
umount-Kept {k} mountpoint whole =
    Kept-bind (Kept-or_raise (find_mount mountpoint k.sblocks) value_error (kernel_self whole))
      (λ ref t st found.
        let gone = Step-removed mountpoint st.whole in
        let old = find_mount-lt (length k.supers) mountpoint k.sblocks ref whole.mounted found in
        let more = st.more_supers in
        let lt : ref < length t.supers = omega arith in
        Kept-step gone (
          Kept-super ref gone.whole lt
            (Kept-any (sync_fs-Kept (gone.whole.served ref lt).over.sane))))

pub get_superblock-Kept :
    {k : Kernel} (pathname : Text)
    → IsWhole k
    → Kept k (get_superblock pathname k) (λ r t. r.0 < length t.supers)
unfolding get_superblock
get_superblock-Kept {k} pathname whole = record {
  step = kernel_self whole;
  returned = λ r e. elim (get_superblock_lem pathname k).1 [
    | inl c ↦
        let same : (c.ref, below_mount pathname c.mountpoint) ≡ r = ok-injective (sym c.ran ∙ e) in
        subst (λ (q : ℕ × Text). q.0 < length k.supers) same
          (IsMounted-lt (length k.supers) (c.mountpoint, c.ref) k.sblocks whole.mounted c.mounted)
    | inr (ran, nowhere) ↦ let no : raised value_error ≡ ok r = sym ran ∙ e in cc
  ];
}

pub mkdir_call-Kept :
    {k : Kernel} (pathname : Text) (mode : ℕ)
    → IsWhole k
    → Kept k (mkdir_call pathname mode k) (λ _ _. Unit)
unfolding mkdir_call
mkdir_call-Kept pathname mode whole = Kept-bind (get_superblock-Kept pathname whole) (λ r t st lt.
    let over = (st.whole.served r.0 lt).over in
    Kept-super r.0 st.whole lt (make_directory-Kept r.1 mode over.rooted over.sane))
