-- ===== src/Fs/Create/Success.antt =====
-- `fs_create` where an inode and a block are free.
use bit_computer.Common.{
  ==_ne, Bytes, ap, arith, if◌then◌else◌, negsuc, ok, pos, refl, some, sym, ℕ, ◌+◌, ◌<◌, ◌==◌, ◌≡◌,
  ◌≢◌,
}
use bit_computer.Fs.Bitmap.Search.{
  IsLowestFree, NoneFree, find-free, find-none, mark_used_lem, taken,
}
use bit_computer.Fs.Create.{create_at, new_inode}
use bit_computer.Fs.Create.Inode.{direct-new_inode, size-new_inode, valid-new_inode}
use bit_computer.Fs.Disk.{DiskApi}
use bit_computer.Fs.Layout.{block_num, block_size, inode_count, pointers_per_inode}
use bit_computer.Fs.Read.{count_free}
use bit_computer.Fs.State.{Bitmap, State, fs_read_block}
use bit_computer.Fs.Valid.Table.{Allocated-congr, claim-Allocated, with_inode, with_valid}
use bit_computer.Fs.Valid.View.{
  IsValid, inode_block, inode_index, pointers, pointers-write, read-write_other, same_block, sizes,
  sizes-write, valids, valids-write,
}
use bit_computer.Fs.Write.{inode_block_num}

-- The outcome of `fs_create` for inode `x` and block `e`: the new inode is valid, empty and owns `e`;
-- every other inode, every other block and the heap are as before.
pub record Created {D : DiskApi} (s : State D) (bm : Bitmap) (x e : ℕ) (s' : State D) : Type 0 where
  pub consistent : IsValid s' (taken e bm)
  pub block : IsLowestFree bm 0 e
  pub valids_after :
      (n : ℕ) → n < inode_count → valids D s'.disk n ≡ with_valid x (valids D s.disk) n
  pub sizes_after :
      (n : ℕ) → n < inode_count → sizes D s'.disk n ≡ (if x == n then 0 else sizes D s.disk n)
  pub pointers_after :
      (n k : ℕ)
      → n < inode_count
      → k < pointers_per_inode
      → pointers D s'.disk n k ≡ with_inode x e (pointers D s.disk) n k
  pub rest :
      (c k : ℕ)
      → c < block_num
      → k < block_size
      → c ≢ inode_block_num x
      → fs_read_block D s'.disk c k ≡ fs_read_block D s.disk c k
  pub heap : s'.heap ≡ s.heap + block_size

-- The disk after the block with the new inode `x` has been written.
unfoldable created_disk : (D : DiskApi) → D.Disk → ℕ → ℕ → D.Disk
created_disk D d x e =
    D.disk_write d (inode_block_num x) (new_inode (inode_index x) e (inode_block D d x))

module _ (D : DiskApi) (d : D.Disk) (x e : ℕ) (hx : x < inode_count) (n : ℕ)
    (hn : n < inode_count) where
  abbrev new_block : Bytes
  new_block = new_inode (inode_index x) e (inode_block D d x)

  valids-created_disk : valids D (created_disk D d x e) n ≡ with_valid x (valids D d) n
  unfolding created_disk
  valids-created_disk = ground (
    arith,
    valids-write D d (inode_block_num x) new_block (omega arith) n hn,
    valid-new_inode (inode_index x) (inode_index n) e (inode_block D d x),
    same_block D d x n,
  )

  sizes-created_disk : sizes D (created_disk D d x e) n ≡ (if x == n then 0 else sizes D d n)
  unfolding created_disk
  sizes-created_disk = ground (
    arith,
    sizes-write D d (inode_block_num x) new_block (omega arith) n hn,
    size-new_inode (inode_index x) (inode_index n) e (inode_block D d x),
    same_block D d x n,
  )

  pointers-created_disk :
      (k : ℕ)
      → k < pointers_per_inode
      → e < block_num
      → pointers D (created_disk D d x e) n k ≡ with_inode x e (pointers D d) n k
  unfolding created_disk
  pointers-created_disk k hk he = ground (
    arith,
    pointers-write D d (inode_block_num x) new_block (omega arith) n hn k,
    direct-new_inode (inode_index x) (inode_index n) e (inode_block D d x) k,
    same_block D d x n,
  )

module _ {D : DiskApi} (s : State D) (bm : Bitmap) (v : IsValid s bm) (x : ℕ) (hx : x < inode_count)
    (unused : valids D s.disk x ≡ 0) where
  -- The state that `fs_create` leaves.
  created_state : ℕ → State D
  created_state e = record {
    heap = s.heap + block_size;
    disk = created_disk D s.disk x e;
    free_blocks = some (taken e bm);
    meta_data = s.meta_data;
  }

  created_state-Created : (e : ℕ) → IsLowestFree bm 0 e → Created s bm x e (created_state e)
  unfolding created_state
  created_state-Created e low = record {
    consistent = record {
      blocks = v.blocks;
      mounted = refl;
      allocated =
          Allocated-congr _ _ _ _ _
            (claim-Allocated _ _ _ v.allocated e low.free low.bounded x hx unused)
            (valids-created_disk D s.disk x e hx)
            (λ n k hn hk. pointers-created_disk D s.disk x e hx n hn k hk low.bounded);
    };
    block = low;
    valids_after = valids-created_disk D s.disk x e hx;
    sizes_after = sizes-created_disk D s.disk x e hx;
    pointers_after = λ n k hn hk. pointers-created_disk D s.disk x e hx n hn k hk low.bounded;
    rest = λ c k hc hk ne.
        unfold created_disk in
        read-write_other D s.disk (inode_block_num x) _ (omega arith) c k hc hk (λ p. ne (sym p));
    heap = refl;
  }

  -- The body of the loop at the free inode `x`.
  pub create_at-Created :
      0 < count_free block_num bm
      → (e : ℕ) × (s' : State D) × (create_at s
            (inode_block_num x)
            (inode_index x)
            (inode_block D s.disk x)
          ≡ ok (pos x, s'))
        × Created s bm x e s'
  unfolding create_at created_state created_disk
  create_at-Created enough =
      let (e, run, low) = find-free s bm v.mounted v.blocks enough in
      let marked =
        mark_used_lem (record s { disk = created_disk D s.disk x e }) bm v.mounted e low.bounded in
      (
        e,
        created_state e,
        rw (run, ==_ne e 0 (omega (arith, v.allocated.low e low.free)), marked)
            (ap (λ n. ok (pos n, created_state e)) (omega arith)),
        created_state-Created e low,
      )

  -- With no free block the loop's body answers -1 and changes nothing.
  pub create_at_full :
      NoneFree bm 0
      → create_at s (inode_block_num x) (inode_index x) (inode_block D s.disk x) ≡ ok (negsuc 0, s)
  unfolding create_at
  create_at_full full = rw (find-none s bm v.mounted v.blocks full)
