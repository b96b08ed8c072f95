-- ===== src/Vfs/State.antt =====
-- The state of the kernel: the disks, the superblock objects and the table of mountpoints; and the
-- open file table of the process that makes a call. A superblock object keeps a reference to its
-- disk, which other superblocks may share.
use slowfs.Prelude.{set, get_or, ℕ, Option, some, List}
use slowfs.Exec.{Exec}
use slowfs.Block.Device.{Disk}
use slowfs.Super.State.{SuperBlock}
use slowfs.Directory.Entry.{Text}
use slowfs.Mount.{blank}
use slowfs.OpenFile.{File, Opened}

pub record Mounted : Type 0 where
  pub device : ℕ
  pub sb : SuperBlock

pub record Kernel : Type 0 where
  pub disks : List Disk
  pub supers : List Mounted
  pub sblocks : List (Text × ℕ)

-- An open file: `File` with the superblock object that its inode points to.
pub record Entry : Type 0 where
  pub super : ℕ
  pub file : File

pub record Call : Type 0 where
  pub kernel : Kernel
  pub oft : List (Option Entry)

-- A disk that nobody has made. Every reference that the program holds is to an object.
abbrev pub no_disk : Disk
no_disk = record { num_sectors = 0; storage = λ _. 0 }

abbrev pub no_super : Mounted
no_super = record { device = 0; sb = blank no_disk }

-- A superblock object with its disk as it is now.
unfoldable pub super_at : Kernel → ℕ → SuperBlock
super_at k ref =
    let mounted = get_or k.supers ref no_super in
    record mounted.sb { disk = get_or k.disks mounted.device no_disk }

unfoldable pub put_super : Kernel → ℕ → SuperBlock → Kernel
put_super k ref sb =
    let device = (get_or k.supers ref no_super).device in
    record k {
      disks = set k.disks device sb.disk;
      supers = set k.supers ref (record { device = device; sb = sb });
    }

-- A method of a superblock object, of a disk, of an open file.
abbrev pub on_super_ref : {A : Type 0} → ℕ → Exec SuperBlock A → Exec Kernel A
on_super_ref ref m k = let (r, sb) = m (super_at k ref) in (r, put_super k ref sb)

abbrev pub on_device : {A : Type 0} → ℕ → Exec Disk A → Exec Kernel A
on_device ref m k =
    let (r, disk) = m (get_or k.disks ref no_disk) in (r, record k { disks = set k.disks ref disk })

abbrev pub on_kernel : {A : Type 0} → Exec Kernel A → Exec Call A
on_kernel m c = let (r, k) = m c.kernel in (r, record c { kernel = k })

abbrev pub on_file : {A : Type 0} → ℕ → Entry → Exec Opened A → Exec Call A
on_file slot entry m c =
    let (r, o) = m (record { sb = super_at c.kernel entry.super; file = entry.file }) in
    (
      r,
      record {
        kernel = put_super c.kernel entry.super o.sb;
        oft = set c.oft slot (some (record entry { file = o.file }));
      },
    )
