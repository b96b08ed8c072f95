-- ===== src/Fuse/Names.antt =====
-- What readdir() of examples/fuse_slowfs.py yields for a directory: the names of its entries.
use slowfs.Prelude.{
  length-set, get_or-set_self, length, get_elem?, set, take, drop, ℤ, ℕ, zero, suc, ◌+◌, ◌*◌, ◌<◌,
  ◌≡◌, refl, sym, ap, ◌∙◌, subst, inl, inr, true, some, List, [], ◌∷◌, ◌++◌, append_assoc,
  append-nil, arith,
}
use slowfs.Exec.{Result, ok, Exec}
use slowfs.Bytes.{read_at}
use slowfs.Block.Driver.{Block}
use slowfs.Block.Driver.Reads.{IsOn}
use slowfs.Block.Lists.{Blocks, AllOn}
use slowfs.Bitmap.{free}
use slowfs.Bitmap.Bits.{has}
use slowfs.Inode.Layout.{dir_layout_size}
use slowfs.Super.State.{SuperBlock, on_disk}
use slowfs.Directory.Entry.{Text, all_ascii, unpack_entry, read_entry}
use slowfs.Directory.Lookup.{entries_per_block}
use slowfs.OpenFile.{read}
use slowfs.OpenFile.View.{view}
use slowfs.Directory.Find.{
  HasEntries, IsFreeEntry, read_entry-view, IsEnd, HasEntries-drop, IsEnd-first, IsEnd-next,
}
use slowfs.Vfs.State.{Mounted, Kernel, no_super, super_at, put_super, on_super_ref, on_kernel}
use slowfs.Sane.Kernel.{device_of, put_super-at}
use slowfs.Fuse.Listing.{Yielding, on_call, yield_name, yield_block, yield_blocks}

-- A superblock object of the kernel, in range, is this one.
pub record IsAt (super : ℕ) (sb : SuperBlock) (y : Yielding) : Type 0 where
  pub in_supers : super < length y.call.kernel.supers
  pub plugged : device_of y.call.kernel super < length y.call.kernel.disks
  pub same : super_at y.call.kernel super ≡ sb

-- The outcome of a loop over entries.
pub record Listed (super : ℕ) (sb : SuperBlock) (y : Yielding) (names : List Text)
    (p : Result (Unit {0}) × Yielding) : Type 0 where
  pub ran : p.0 ≡ ok tt
  pub at : IsAt super sb p.1
  pub yielded : p.1.out ≡ y.out ++ names

abbrev pub read_from : {A : Type 0} → ℕ → Exec SuperBlock A → Exec Yielding A
read_from super m = on_call (on_kernel (on_super_ref super m))

-- A method that leaves the superblock object as another one.
pub read_from-IsAt :
    {A : Type 0} (super : ℕ) (sb sb' : SuperBlock) (m : Exec SuperBlock A) (a : A) (y : Yielding)
    → m sb ≡ (ok a, sb')
    → IsAt super sb y
    → ((read_from super m y).0 ≡ ok a) × IsAt super sb' (read_from super m y).1
unfolding put_super
read_from-IsAt super sb sb' m a y ran at =
    let k : Kernel = y.call.kernel in
    let run = ap m at.same ∙ ran in
    let after : SuperBlock = (m (super_at k super)).1 in
    let d : ℕ = device_of k super in
    let x : Mounted = record { device = d; sb = after } in
    let here = get_or-set_self k.supers super x no_super at.in_supers in
    (
      ap (λ (p : Result _ × SuperBlock). p.0) run,
      record {
        in_supers = let h = at.in_supers in omega (arith, length-set k.supers super x);
        plugged =
            let h = at.plugged in
            subst (λ (n : Mounted). n.device < length (set k.disks d after.disk)) (sym here)
              (omega (arith, length-set k.disks d after.disk));
        same =
            put_super-at k super after at.in_supers at.plugged
            ∙ ap (λ (p : Result _ × SuperBlock). p.1) run;
      },
    )

-- The names of entries, which the program wrote in ASCII.
abbrev pub names_of : List (ℕ × Text) → List Text
names_of [] = []
names_of (e ∷ es) = e.1 ∷ names_of es

abbrev pub AllAscii : List (ℕ × Text) → Type 0
AllAscii [] = Unit
AllAscii (e ∷ es) = (all_ascii e.1 ≡ true) × AllAscii es

-- The entry of a number in a block, read from the superblock's disk.
entry_at-view :
    (sb : SuperBlock) (blocks : Blocks) (b k : ℕ) (entry : ℤ × Block) (x : ℕ × Text)
    → get_elem? blocks b ≡ some entry
    → IsOn sb.disk entry.1
    → k < entries_per_block
    → unpack_entry (
        read_at
          (view sb.disk blocks)
          ((b * entries_per_block + k) * dir_layout_size)
          dir_layout_size)
      ≡ ok x
    → on_disk (read_entry entry.1 (k * dir_layout_size)) sb ≡ (ok x, sb)
entry_at-view sb blocks b k entry x there on small read =
    let run = read_entry-view sb.disk blocks b k entry there on small in rw (run, read) refl

yield_block_lem :
    (super : ℕ) (sb : SuperBlock) (blocks : Blocks) (b : ℕ) (entry : ℤ × Block)
    → get_elem? blocks b ≡ some entry
    → IsOn sb.disk entry.1
    → (rounds k : ℕ) (es : List (ℕ × Text)) (y : Yielding) → k + rounds ≡ entries_per_block
    → HasEntries (view sb.disk blocks) (b * entries_per_block + k) es
    → (length es < rounds
        → IsFreeEntry (view sb.disk blocks) (b * entries_per_block + k + length es))
    → AllAscii es
    → IsAt super sb y
    → Listed super sb y
        (names_of (take rounds es))
        (yield_block super entry.1 rounds (k * dir_layout_size) y)
unfolding yield_block yield_name
yield_block_lem super sb blocks b entry there on zero k es y e has end ascii at = record {
  ran = refl;
  at = at;
  yielded = sym (append-nil y.out);
}
yield_block_lem super sb blocks b entry there on (suc rounds) k [] y e has end ascii at =
    let (text, free) = end (omega arith) in
    let here : b * entries_per_block + k + 0 ≡ b * entries_per_block + k = omega arith in
    let free' = rw here at free in
    let m = on_disk (read_entry entry.1 (k * dir_layout_size)) in
    let run = entry_at-view sb blocks b k entry (0, text) there on (omega arith) free' in
    let step = read_from-IsAt super sb sb m (0, text) y run at in
    rw step.0 (record { ran = refl; at = step.1; yielded = sym (append-nil y.out) })
yield_block_lem super sb blocks b entry there on (suc rounds) k (x ∷ es) y e (first, used, has) end
      (plain, ascii) at =
    let m = on_disk (read_entry entry.1 (k * dir_layout_size)) in
    let run = entry_at-view sb blocks b k entry x there on (omega arith) first in
    let step = read_from-IsAt super sb sb m x y run at in
    let t : Yielding = (read_from super m y).1 in
    let u : Yielding = record t { out = t.out ++ x.1 ∷ [] } in
    let from : b * entries_per_block + k + 1 ≡ b * entries_per_block + (k + 1) = omega arith in
    let upto : b * entries_per_block + k + suc (length es)
        ≡ b * entries_per_block + (k + 1) + length es =
      omega arith in
    let next : k * dir_layout_size + dir_layout_size ≡ (k + 1) * dir_layout_size = omega arith in
    let at_u : IsAt super sb u = record {
      in_supers = step.1.in_supers;
      plugged = step.1.plugged;
      same = step.1.same;
    } in
    let rest =
      yield_block_lem super sb blocks b entry there on rounds (k + 1) es u (omega arith)
        (rw from at has) (λ lt. rw upto at (end (omega arith))) ascii at_u in
    rw step.0 (
      rw (used, plain, next)
        (record {
          ran = rest.ran;
          at = rest.at;
          yielded = rest.yielded ∙ append_assoc y.out (x.1 ∷ []) (names_of (take rounds es));
        }))

names_of-take-drop :
    (n : ℕ) (es : List (ℕ × Text)) → names_of (take n es) ++ names_of (drop n es) ≡ names_of es
names_of-take-drop zero es = refl
names_of-take-drop (suc n) [] = refl
names_of-take-drop (suc n) (e ∷ es) =
    ap (λ (names : List Text). e.1 ∷ names) (names_of-take-drop n es)

AllAscii-drop : (n : ℕ) (es : List (ℕ × Text)) → AllAscii es → AllAscii (drop n es)
AllAscii-drop zero es h = h
AllAscii-drop (suc n) [] h = h
AllAscii-drop (suc n) (e ∷ es) h = AllAscii-drop n es h.1

pub yield_blocks-suffix :
    (super : ℕ) (sb : SuperBlock) (blocks : Blocks) (b : ℕ) (left : Blocks) (es : List (ℕ × Text))
    (y : Yielding)
    → ((i : ℕ) → get_elem? left i ≡ get_elem? blocks (b + i))
    → AllOn sb.disk left
    → HasEntries (view sb.disk blocks) (b * entries_per_block) es
    → IsEnd (view sb.disk blocks) (b * entries_per_block) (length es) (length left)
    → AllAscii es
    → IsAt super sb y
    → Listed super sb y (names_of es) (yield_blocks super left y)
unfolding yield_blocks
yield_blocks-suffix super sb blocks b [] [] y place on has end ascii at = record {
  ran = refl;
  at = at;
  yielded = sym (append-nil y.out);
}
yield_blocks-suffix super sb blocks b [] (e ∷ es) y place on has (inl full) ascii at =
    absurd (omega arith)
yield_blocks-suffix super sb blocks b [] (e ∷ es) y place on has (inr (lo, hi, free)) ascii at =
    absurd (omega arith)
yield_blocks-suffix super sb blocks b (entry ∷ rest) es y place on has end ascii at =
    let f = view sb.disk blocks in
    let start : b * entries_per_block + 0 ≡ b * entries_per_block = omega arith in
    let here : b + 0 ≡ b = omega arith in
    let there : get_elem? blocks b ≡ some entry = rw here at (sym (place 0)) in
    let first =
      yield_block_lem super sb blocks b entry there on.0 entries_per_block 0 es y (omega arith)
        (rw start has)
        (λ lt. rw start (IsEnd-first f (b * entries_per_block) (length rest) es end lt)) ascii at in
    let next : b * entries_per_block + entries_per_block ≡ (b + 1) * entries_per_block =
      omega arith in
    let t : Yielding = (yield_block super entry.1 entries_per_block 0 y).1 in
    let more =
      yield_blocks-suffix super sb blocks (b + 1) rest (drop entries_per_block es) t shifted on.1
        (rw next at (HasEntries-drop f entries_per_block (b * entries_per_block) es has))
        (rw next at (IsEnd-next f (b * entries_per_block) (length rest) es end))
        (AllAscii-drop entries_per_block es ascii) first.at in
    rw first.ran (record {
      ran = more.ran;
      at = more.at;
      yielded =
          more.yielded
          ∙ ap (λ (out : List Text). out ++ names_of (drop entries_per_block es)) first.yielded
          ∙ append_assoc y.out (names_of (take entries_per_block es))
              (names_of (drop entries_per_block es))
          ∙ ap (λ (names : List Text). y.out ++ names) (names_of-take-drop entries_per_block es);
    })
  where
    shifted : (i : ℕ) → get_elem? rest i ≡ get_elem? blocks (b + 1 + i)
    shifted i = let same : b + suc i ≡ b + 1 + i = omega arith in rw same at (place (suc i))
