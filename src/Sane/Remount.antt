-- ===== src/Sane/Remount.antt =====
-- A mount of a disk that `sync_fs` has stored a superblock on (linux/fs/super.py): what the new
-- superblock object has in memory.
-- What the disk has in the slot of a number.
use slowfs.Prelude.{
  ◌==◌, ==_iff, Bool-cases, length, get_elem?, get_or, ℕ, zero, suc, ◌*◌, ◌<◌, ◌≡◌, refl, sym, ◌∙◌,
  subst, inl, inr, true, some, some-injective, List, [], ◌∷◌, ◌++◌,
}
use slowfs.Exec.{ok}
use slowfs.Bytes.{read_at}
use slowfs.Block.Device.{Disk}
use slowfs.Block.Driver.{Block}
use slowfs.Inode.Layout.{inode_size, inodes_per_block}
use slowfs.Inode.Object.{Inode, from_bytes}
use slowfs.Super.State.{SuperBlock, dict_get, dict_set, dict_get-set}
use slowfs.Super.Filed.{slot_at, IsLaid, read_inode_from_disk-laid}
use slowfs.Mount.{load_inodes}

abbrev pub IsStored : List Block → Disk → ℕ → Inode → Type 0
IsStored dzone disk ino inode =
    from_bytes dzone (read_at disk.storage (slot_at ino) inode_size) ≡ ok inode

-- The slots of the numbers hold inodes of these numbers.
abbrev pub AllReadable : List Block → List Block → Disk → List ℕ → Type 0
AllReadable izone dzone disk [] = Unit
AllReadable izone dzone disk (n ∷ ns) =
    (n < length izone * inodes_per_block)
    × ((inode : Inode) × IsStored dzone disk n inode × (inode.i_ino ≡ n))
    × AllReadable izone dzone disk ns

-- A number leads to an object that is as the disk has it.
abbrev pub IsLoaded : List Block → Disk → List Inode → List (ℕ × ℕ) → ℕ → Type 0
IsLoaded dzone disk heap d ino =
    (ref : ℕ) × (inode : Inode) × (dict_get ino d ≡ some ref)
    × (get_elem? heap ref ≡ some inode)
    × IsStored dzone disk ino inode

module _ {A : Type 0} where
  pub get_elem?-append_end : (xs : List A) (x : A) → get_elem? (xs ++ x ∷ []) (length xs) ≡ some x
  get_elem?-append_end [] x = refl
  get_elem?-append_end (y ∷ xs) x = get_elem?-append_end xs x

  get_elem?-append_some :
      (xs ys : List A) (i : ℕ) {a : A} → get_elem? xs i ≡ some a → get_elem? (xs ++ ys) i ≡ some a
  get_elem?-append_some [] ys i e = cc
  get_elem?-append_some (x ∷ xs) ys zero e = e
  get_elem?-append_some (x ∷ xs) ys (suc i) e = get_elem?-append_some xs ys i e

  pub get_or-some :
      (xs : List A) (i : ℕ) (d : A) {a : A} → get_elem? xs i ≡ some a → get_or xs i d ≡ a
  get_or-some [] i d e = cc
  get_or-some (x ∷ xs) zero d e = some-injective _ _ e
  get_or-some (x ∷ xs) (suc i) d e = get_or-some xs i d e

  -- What holds of the head and of all in the tail.
  get_elem?-all :
      (Q : A → Type 0) (x : A) (xs : List A)
      → Q x
      → ((i : ℕ) (a : A) → get_elem? xs i ≡ some a → Q a)
      → (i : ℕ) (a : A) → get_elem? (x ∷ xs) i ≡ some a
      → Q a
  get_elem?-all Q x xs here later zero a e = subst Q (some-injective _ _ e) here
  get_elem?-all Q x xs here later (suc i) a e = later i a e

module _ (dzone : List Block) (disk : Disk) where
  -- A new object under the number that its inode has on the disk.
  pub IsLoaded-new :
      (heap : List Inode) (d : List (ℕ × ℕ)) (n : ℕ) (inode : Inode)
      → IsStored dzone disk n inode
      → IsLoaded dzone disk (heap ++ inode ∷ []) (dict_set n (length heap) d) n
  IsLoaded-new heap d n inode stored =
      let same : n == n ≡ true = (==_iff n n).1 refl in
      (
        length heap,
        inode,
        dict_get-set n n (length heap) d ∙ rw same refl,
        get_elem?-append_end heap inode,
        stored,
      )

  pub IsLoaded-old :
      (heap : List Inode) (d : List (ℕ × ℕ)) (n : ℕ) (inode : Inode) (ino : ℕ)
      → IsStored dzone disk n inode
      → IsLoaded dzone disk heap d ino
      → IsLoaded dzone disk (heap ++ inode ∷ []) (dict_set n (length heap) d) ino
  IsLoaded-old heap d n inode ino stored (ref, old, found, there, same) =
      elim (Bool-cases (n == ino)) [
        | inl e ↦
            let at : ino ≡ n = sym ((==_iff n ino).0 e) in
            rw at (IsLoaded-new heap d n inode stored)
        | inr e ↦ (
          ref,
          old,
          dict_get-set n ino (length heap) d ∙ rw e found,
          get_elem?-append_some heap (inode ∷ []) ref there,
          same,
        )
      ]

-- The run of the loop over the numbers of the bitmap.
pub record Loaded (s : SuperBlock) (ns : List ℕ) : Type 0 where
  pub heap : List Inode
  pub inodes : List (ℕ × ℕ)
  pub ran : load_inodes ns s ≡ (ok tt, record s { heap = heap; inodes = inodes })
  pub kept :
      (ino : ℕ)
      → IsLoaded s.dzone s.disk s.heap s.inodes ino
      → IsLoaded s.dzone s.disk heap inodes ino
  pub new : (i ino : ℕ) → get_elem? ns i ≡ some ino → IsLoaded s.dzone s.disk heap inodes ino

pub load_inodes-Loaded :
    (ns : List ℕ) (s : SuperBlock) → IsLaid s → AllReadable s.izone s.dzone s.disk ns → Loaded s ns
unfolding load_inodes
load_inodes-Loaded [] s laid all = record {
  heap = s.heap;
  inodes = s.inodes;
  ran = refl;
  kept = λ ino h. h;
  new = λ i ino e. cc;
}
load_inodes-Loaded (n ∷ ns) s laid (lt, (inode, stored, own), all) =
    let read = read_inode_from_disk-laid s n laid lt in
    let t : SuperBlock = record s {
      heap = s.heap ++ inode ∷ [];
      inodes = dict_set inode.i_ino (length s.heap) s.inodes;
    } in
    let rest = load_inodes-Loaded ns t laid all in
    let under : (ino k : ℕ)
        → n ≡ k
        → IsLoaded s.dzone s.disk t.heap (dict_set n (length s.heap) s.inodes) ino
        → IsLoaded s.dzone s.disk t.heap (dict_set k (length s.heap) s.inodes) ino =
      λ ino k e.
        subst (λ (k : ℕ). IsLoaded s.dzone s.disk t.heap (dict_set k (length s.heap) s.inodes) ino)
          e in
    let here =
      under n inode.i_ino (sym own) (IsLoaded-new s.dzone s.disk s.heap s.inodes n inode stored) in
    record {
      heap = rest.heap;
      inodes = rest.inodes;
      ran = rw (read, stored) rest.ran;
      kept = λ ino h. rest.kept ino (
          under ino inode.i_ino (sym own)
            (IsLoaded-old s.dzone s.disk s.heap s.inodes n inode ino stored h));
      new =
          get_elem?-all (IsLoaded s.dzone s.disk rest.heap rest.inodes) n ns (rest.kept n here)
            rest.new;
    }
