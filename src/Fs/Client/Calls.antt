-- ===== src/Fs/Client/Calls.antt =====
-- `fs_create` and `fs_write` on a disk that stands for a client's files.

use native.Mathlib.Decide.{ℕ_discrete}
use bit_computer.Common.{
  ==_iff, ==_ne, Bytes, ap, arith, dec_lt, length, ok, pos, refl, true, zeros, ℕ, ◌%◌, ◌+◌, ◌-◌,
  ◌/◌, ◌<◌, ◌∙◌, ◌≡◌, ◌≢◌, ◌≤◌,
}
use bit_computer.Fs.Bitmap.Search.{count_free-taken, taken}
use bit_computer.Fs.Client.{Files, after, allowed, call, create_op, expected, update, write_op}
use bit_computer.Fs.Client.Represents.{
  AnswersAs, Holds, Holds-update, Represents, Wrote-Represents, blocks_of_one, call_memory,
  super_blocks_congr,
}
use bit_computer.Fs.Create.{fs_create}
use bit_computer.Fs.Create.Scan.{fs_create-Created, fs_create-no_inode}
use bit_computer.Fs.Create.Success.{Created}
use bit_computer.Fs.Disk.{DiskApi}
use bit_computer.Fs.Layout.{block_num, block_size, inode_count, pointers_per_inode}
use bit_computer.Fs.State.{Bitmap, State, fs_read_block}
use bit_computer.Fs.Valid.View.{pointers, valids}
use bit_computer.Fs.Write.Sizes.{wanted_blocks-one}
use bit_computer.Fs.Write.Success.{fs_write-Wrote}

module _ {D : DiskApi} (s : State D) (bm : Bitmap) (fs : Files) (r : Represents s bm fs)
    (memory : call_memory ≤ s.heap) where
  -- After a call of `fs_create` that has found an inode and a block.
  module _ (s' : State D) (x e heap : ℕ) (here : x ≡ fs.count) (low : x < inode_count)
      (c : Created (record s { heap = heap }) bm x e s') where
    Holds-new : Holds D s'.disk fs.count (record { size = 0; byte = zeros })
    Holds-new =
        let hm : fs.count < inode_count = omega arith in
        record {
          in_use = λ h. ground (arith, c.valids_after fs.count hm);
          same_size = ground (arith, c.sizes_after fs.count hm);
          one_block = omega arith;
          single = λ l lo hl. ground (arith, c.pointers_after fs.count l hm hl);
          same_bytes = λ p h. absurd (omega arith);
        }

    Holds-old : (m : ℕ) → m < fs.count → Holds D s'.disk m (fs.file m)
    Holds-old m h =
        let old = r.holds m h in
        let hm : m < inode_count = omega arith in
        let same : (l : ℕ)
            → l < pointers_per_inode
            → pointers D s'.disk m l ≡ pointers D s.disk m l =
          λ l hl. ground (arith, c.pointers_after m l hm hl) in
        let a = r.consistent.allocated in
        record {
          in_use = λ e. old.in_use (ground (arith, c.valids_after m hm));
          same_size = ground (arith, c.sizes_after m hm, old.same_size);
          one_block = old.one_block;
          single = λ l lo hl. same l hl ∙ old.single l lo hl;
          same_bytes = λ p hp.
              let zero : p / block_size ≡ 0 = omega (arith, old.one_block) in
              let block = pointers D s.disk m (p / block_size) in
              let first : block ≢ 0 = rw zero (a.first m hm old.in_use) in
              ap (λ b. fs_read_block D s'.disk b (p % block_size))
                (same (p / block_size) (omega arith))
              ∙ c.rest block (p % block_size)
                  (a.in_range m (p / block_size) hm (omega arith) old.in_use) (omega arith)
                  (λ e.
                    omega (arith, a.in_data m (p / block_size) hm (omega arith) old.in_use first))
              ∙ old.same_bytes p hp;
        }

    Created-Represents : Represents s' (taken e bm) (record {
      count = fs.count + 1;
      file = update fs.count (record { size = 0; byte = zeros }) fs.file;
    })
    Created-Represents = record {
      consistent = c.consistent;
      labelled =
          super_blocks_congr _ _ (λ k hk. c.rest 0 k (omega arith) hk (omega arith)) ∙ r.labelled;
      bounded = omega arith;
      holds = λ m h.
          Holds-update D s'.disk fs.count _ fs.file Holds-new m
            (λ apart. Holds-old m (omega arith));
      unused = λ m lo hm. ground (arith, c.valids_after m hm, r.unused m (omega arith) hm);
      room = omega (arith, r.room, count_free-taken block_num e bm c.block.bounded c.block.free);
    }

  -- The lowest inode that is free is the next one.
  next_inode :
      (x : ℕ)
      → x < inode_count
      → valids D s.disk x ≡ 0
      → ((y : ℕ) → y < x → valids D s.disk y ≢ 0)
      → x ≡ fs.count
  next_inode x hx free before = elim (dec_lt x fs.count) [
    | yes below ↦ absurd ((r.holds x below).in_use free)
    | no above ↦ elim (dec_lt fs.count x) [
      | yes beyond ↦ absurd (before fs.count beyond (r.unused fs.count (omega arith) (omega arith)))
      | no same ↦ omega arith
    ]
  ]

  -- A new file, while an inode is left.
  fs_create-Represents :
      fs.count < inode_count
      → (s' : State D) × (bm' : Bitmap) × (fs_create s ≡ ok (pos fs.count, s'))
        × Represents s' bm' (record {
          count = fs.count + 1;
          file = update fs.count (record { size = 0; byte = zeros }) fs.file;
        })
        × (s'.heap ≡ s.heap)
  fs_create-Represents low =
      let (x, e, s', run, hx, free, before, c) =
        fs_create-Created s bm r.consistent (omega arith) fs.count low
          (r.unused fs.count (omega arith) low) (omega (arith, r.room)) in
      let here : x ≡ fs.count = next_inode x hx free before in
      (
        s',
        taken e bm,
        run ∙ ap (λ n. ok (pos n, s')) here,
        Created-Represents s' x e (s.heap - block_size) here hx c,
        omega (arith, c.heap),
      )

  pub create-AnswersAs : AnswersAs s fs create_op
  unfolding call expected after
  create-AnswersAs = elim (ℕ_discrete fs.count inode_count) [
    | yes full ↦
        let run =
          fs_create-no_inode s bm r.consistent (omega arith)
            (λ y h. (r.holds y (omega arith)).in_use) in
        (
          s,
          bm,
          rw (run, (==_iff fs.count inode_count).1 full) refl,
          rw ((==_iff fs.count inode_count).1 full) r,
          omega arith,
        )
    | no some_left ↦
        let (s', bm', run, r', heap) = fs_create-Represents (omega (arith, r.bounded)) in
        (
          s',
          bm',
          rw (run, ==_ne fs.count inode_count some_left) refl,
          rw (==_ne fs.count inode_count some_left) r',
          omega arith,
        )
  ]

  pub write-AnswersAs :
      (n : ℕ) (bytes : Bytes) (length offset : ℕ)
      → allowed (write_op n bytes length offset) fs ≡ true
      → AnswersAs s fs (write_op n bytes length offset)
  unfolding call expected after allowed
  write-AnswersAs n bytes length offset fine =
      let hn : n < fs.count = ground (arith, fine) in
      let near : offset ≤ (fs.file n).size = ground (arith, fine) in
      let inside : offset < block_size = ground (arith, fine) in
      let fits : offset + length ≤ block_size = ground (arith, fine) in
      let low : n < inode_count = omega (arith, r.bounded) in
      let one = wanted_blocks-one length offset inside (omega arith) fits in
      let had = blocks_of_one s bm fs r n low hn in
      let (s', bm', run, w) =
        fs_write-Wrote s bm r.consistent n low (r.holds n hn).in_use bytes length offset inside
          (omega arith) memory (omega (arith, one)) (omega (arith, one, had))
          (omega (arith, one, had)) in
      (
        s',
        bm',
        rw run refl,
        Wrote-Represents s bm fs r s' bm' n bytes length offset hn near inside fits w,
        w.heap_after,
      )
