-- ===== src/Sane/Kernel.antt =====
-- The kernel (linux/fs/vfs.py): its disks, its superblock objects, and the table of mountpoints.
use slowfs.Prelude.{
  ◌==◌, ==_iff, Bool-cases, length-set, get_or-set_self, get_or-set_ne, length, set, get_or, ℕ,
  zero, suc, ◌≤◌, ◌<◌, ◌≡◌, refl, sym, ap, ◌∙◌, subst, ◌≢◌, inl, inr, List, [], ◌∷◌, arith,
}
use slowfs.Exec.{Result}
use slowfs.Exec.Kept.{Steps, Step, Kept}
use slowfs.Block.Device.{Disk}
use slowfs.Super.State.{SuperBlock}
use slowfs.Directory.Entry.{Text}
use slowfs.Mount.{blank}
use slowfs.Vfs.State.{Mounted, Kernel, no_disk, no_super, super_at, put_super}
use slowfs.Sane.Disk.{disk_steps}
use slowfs.Sane.Super.{super_steps, Step-length, HasObject-Step}
use slowfs.Sane.Mount.{IsOver}
use slowfs.Sane.File.{file_steps}

abbrev pub device_of : Kernel → ℕ → ℕ
device_of k ref = (get_or k.supers ref no_super).device

abbrev pub disk_of : Kernel → ℕ → Disk
disk_of k ref = get_or k.disks (device_of k ref) no_disk

-- A superblock object has a disk, and is well formed over it.
pub record IsServed (k : Kernel) (ref : ℕ) : Type 0 where
  pub plugged : device_of k ref < length k.disks
  pub over : IsOver (disk_of k ref) (super_at k ref)

-- Each mountpoint leads to a superblock object.
abbrev pub AllMounted : ℕ → List (Text × ℕ) → Type 0
AllMounted n [] = Unit
AllMounted n (e ∷ mounts) = (e.1 < n) × AllMounted n mounts

pub record IsWhole (k : Kernel) : Type 0 where
  pub served : (ref : ℕ) → ref < length k.supers → IsServed k ref
  pub mounted : AllMounted (length k.supers) k.sblocks

-- No superblock object is lost, and none loses an inode object.
pub record KernelStep (s t : Kernel) : Type 0 where
  pub more_supers : length s.supers ≤ length t.supers
  pub same_disks : length t.disks ≡ length s.disks
  pub objects :
      (ref : ℕ)
      → ref < length s.supers
      → length (super_at s ref).heap ≤ length (super_at t ref).heap
  pub whole : IsWhole t

instance abbrev pub kernel_steps : Steps Kernel
kernel_steps = record {
  IsStep = KernelStep;
  step_trans = λ {s} {t} {u} st tu. record {
    more_supers = let a = st.more_supers in let b = tu.more_supers in omega arith;
    same_disks = tu.same_disks ∙ st.same_disks;
    objects = λ ref lt.
        let a = st.objects ref lt in
        let more = st.more_supers in let b = tu.objects ref (omega arith) in omega arith;
    whole = tu.whole;
  };
}

pub kernel_self : {k : Kernel} → IsWhole k → Step k k
unfolding super_at
kernel_self whole = record {
  more_supers = omega arith;
  same_disks = refl;
  objects = λ ref lt. omega arith;
  whole = whole;
}

pub sizes-set :
    (disks : List Disk) (d : ℕ) (disk : Disk) (e : ℕ)
    → disk.num_sectors ≡ (get_or disks d no_disk).num_sectors
    → (get_or (set disks d disk) e no_disk).num_sectors ≡ (get_or disks e no_disk).num_sectors
sizes-set [] d disk e same = refl
sizes-set (x ∷ disks) zero disk zero same = same
sizes-set (x ∷ disks) zero disk (suc e) same = refl
sizes-set (x ∷ disks) (suc d) disk zero same = refl
sizes-set (x ∷ disks) (suc d) disk (suc e) same = sizes-set disks d disk e same

-- The layout depends on the size of the disk only.
pub IsOver-size :
    (sb : SuperBlock) (before after : Disk)
    → after.num_sectors ≡ before.num_sectors
    → IsOver before sb
    → IsOver after (record sb { disk = after })
unfolding blank
IsOver-size sb before after same over = record {
  sane = record {
    filed = over.sane.filed;
    root_ref = over.sane.root_ref;
    in_zone = over.sane.in_zone;
  };
  rooted = over.rooted;
  same_blocks = over.same_blocks ∙ ap (λ (n : ℕ). (sized n).blocks) (sym same);
  same_izone = over.same_izone ∙ ap (λ (n : ℕ). (sized n).izone) (sym same);
  same_dzone = over.same_dzone ∙ ap (λ (n : ℕ). (sized n).dzone) (sym same);
}
  where
    sized : ℕ → SuperBlock
    sized n = blank (record after { num_sectors = n })

-- A superblock object stays as it is on a disk that keeps its size.
pub other-IsServed :
    {k t : Kernel} (ref : ℕ)
    → get_or t.supers ref no_super ≡ get_or k.supers ref no_super
    → length t.disks ≡ length k.disks
    → ((e : ℕ) → (get_or t.disks e no_disk).num_sectors ≡ (get_or k.disks e no_disk).num_sectors)
    → IsServed k ref
    → IsServed t ref
unfolding super_at
other-IsServed {k} {t} ref same len sizes served =
    let there : Mounted = get_or k.supers ref no_super in
    let d : ℕ = there.device in
    let moved =
      IsOver-size (super_at k ref) (get_or k.disks d no_disk) (get_or t.disks d no_disk) (sizes d)
        served.over in
    let parts =
      subst
        (λ (m : Mounted).
          (m.device < length t.disks)
          × IsOver (get_or t.disks m.device no_disk)
              (record m.sb { disk = get_or t.disks m.device no_disk }))
        (sym same) (let h = served.plugged in omega (arith, len), moved) in
    record { plugged = parts.0; over = parts.1 }

pub put_super-at :
    (k : Kernel) (ref : ℕ) (sb : SuperBlock)
    → ref < length k.supers
    → device_of k ref < length k.disks
    → super_at (put_super k ref sb) ref ≡ sb
unfolding super_at put_super
put_super-at k ref sb lt plugged =
    let x : Mounted = record { device = device_of k ref; sb = sb } in
    let here = get_or-set_self k.supers ref x no_super lt in
    let disk = get_or-set_self k.disks (device_of k ref) sb.disk no_disk plugged in
    rw here (rw disk refl)

-- A superblock object stays well formed over its disk.
IsOver-Step : {s t : SuperBlock} → IsOver s.disk s → Step s t → IsOver t.disk t
unfolding blank
IsOver-Step {s} {t} over st = record {
  sane = st.sane;
  rooted =
      let root = st.sane.root_ref in let has = HasObject-Step s.root st over.rooted in omega arith;
  same_blocks =
      st.same_blocks ∙ over.same_blocks ∙ ap (λ (n : ℕ). (sized n).blocks) (sym st.same_size);
  same_izone = st.same_izone ∙ over.same_izone ∙ ap (λ (n : ℕ). (sized n).izone) (sym st.same_size);
  same_dzone = st.same_dzone ∙ over.same_dzone ∙ ap (λ (n : ℕ). (sized n).dzone) (sym st.same_size);
}
  where
    sized : ℕ → SuperBlock
    sized n = blank (record t.disk { num_sectors = n })

-- The kernel with a superblock object as a method has left it.
module _ (k : Kernel) (ref : ℕ) (sb : SuperBlock) (whole : IsWhole k) (lt : ref < length k.supers)
    (st : Step (super_at k ref) sb) where
  at_ref : super_at (put_super k ref sb) ref ≡ sb
  at_ref = put_super-at k ref sb lt (whole.served ref lt).plugged

  at_other :
      (r : ℕ) → ref ≢ r → get_or (put_super k ref sb).supers r no_super ≡ get_or k.supers r no_super
  unfolding put_super
  at_other r ne =
      get_or-set_ne k.supers ref r (record { device = device_of k ref; sb = sb }) no_super ne

  after-objects :
      (r : ℕ)
      → r < length k.supers
      → length (super_at k r).heap ≤ length (super_at (put_super k ref sb) r).heap
  unfolding super_at
  after-objects r small = elim (Bool-cases (ref == r)) [
    | inl e ↦
        let same : ref ≡ r = (==_iff ref r).0 e in
        subst
          (λ (q : ℕ). length (super_at k q).heap ≤ length (super_at (put_super k ref sb) q).heap)
          same
          (subst (λ (x : SuperBlock). length (super_at k ref).heap ≤ length x.heap) (sym at_ref)
            (Step-length st))
    | inr e ↦
        let other = at_other r (λ h. let yes = (==_iff ref r).1 h in cc) in
        subst (λ (m : Mounted). length (super_at k r).heap ≤ length m.sb.heap) (sym other)
          (omega arith)
  ]

  after-served_ref : IsServed (put_super k ref sb) ref
  unfolding put_super super_at
  after-served_ref =
      let d : ℕ = device_of k ref in
      let x : Mounted = record { device = d; sb = sb } in
      let here = get_or-set_self k.supers ref x no_super lt in
      let plugged = (whole.served ref lt).plugged in
      record {
        plugged =
            subst (λ (m : Mounted). m.device < length (set k.disks d sb.disk)) (sym here)
              (omega (arith, length-set k.disks d sb.disk));
        over =
            subst (λ (t : SuperBlock). IsOver t.disk t) (sym at_ref)
              (IsOver-Step {s = super_at k ref} {t = sb} (whole.served ref lt).over st);
      }

  after-IsServed : (r : ℕ) → r < length k.supers → IsServed (put_super k ref sb) r
  unfolding put_super super_at
  after-IsServed r small = elim (Bool-cases (ref == r)) [
    | inl e ↦
        let same : ref ≡ r = (==_iff ref r).0 e in
        subst (λ (q : ℕ). IsServed (put_super k ref sb) q) same after-served_ref
    | inr e ↦
        let ne : ref ≢ r = λ h. let yes = (==_iff ref r).1 h in cc in
        other-IsServed r (at_other r ne) (length-set k.disks (device_of k ref) sb.disk)
          (λ q. sizes-set k.disks (device_of k ref) sb.disk q st.same_size) (whole.served r small)
  ]

  pub Step-after : Step k (put_super k ref sb)
  unfolding put_super
  Step-after =
      let x : Mounted = record { device = device_of k ref; sb = sb } in
      let len = length-set k.supers ref x in
      record {
        more_supers = omega (arith, len);
        same_disks = length-set k.disks (device_of k ref) sb.disk;
        objects = after-objects;
        whole = record {
          served = λ r small. after-IsServed r (omega (arith, len));
          mounted = subst (λ (n : ℕ). AllMounted n k.sblocks) (sym len) whole.mounted;
        };
      }

-- A run of a method of a superblock object.
pub Kept-super :
    {A : Type 0} {k : Kernel} {Q : A → SuperBlock → Type 0} {run : Result A × SuperBlock} (ref : ℕ)
    → IsWhole k
    → ref < length k.supers
    → Kept (super_at k ref) run Q
    → Kept k (run.0, put_super k ref run.1) (λ a t. Q a (super_at t ref))
Kept-super {k} {Q} {run} ref whole lt km = record {
  step = Step-after k ref run.1 whole lt km.step;
  returned = λ a e.
      subst (λ (sb : SuperBlock). Q a sb) (sym (at_ref k ref run.1 whole lt km.step))
        (km.returned a e);
}
