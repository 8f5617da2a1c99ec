-- ===== src/Fs/Valid/Table.antt =====
-- Ownership of blocks: `v n` is the valid field of inode `n`, `d n k` its pointer `k`, and `bm` the
-- bitmap of free blocks.
use bit_computer.Common.{ap, arith, false, if◌then◌else◌, true, ℕ, ◌&&◌, ◌<◌, ◌==◌, ◌≡◌, ◌≢◌, ◌≤◌}
use bit_computer.Fs.Bitmap.Search.{taken}
use bit_computer.Fs.Layout.{block_num, first_data_block, inode_count, pointers_per_inode}
use bit_computer.Fs.State.{Bitmap}

pub record Allocated (v : ℕ → ℕ) (d : ℕ → ℕ → ℕ) (bm : Bitmap) : Type 0 where
  pub low : (b : ℕ) → bm b ≡ true → first_data_block ≤ b
  pub in_range : (n k : ℕ) → n < inode_count → k < pointers_per_inode → v n ≢ 0 → d n k < block_num
  pub used : (n k : ℕ) → n < inode_count → k < pointers_per_inode → v n ≢ 0 → bm (d n k) ≡ false
  pub in_data :
      (n k : ℕ)
      → n < inode_count
      → k < pointers_per_inode
      → v n ≢ 0
      → d n k ≢ 0
      → first_data_block ≤ d n k
  pub first : (n : ℕ) → n < inode_count → v n ≢ 0 → d n 0 ≢ 0
  pub closed :
      (n k l : ℕ)
      → n < inode_count
      → l < pointers_per_inode
      → v n ≢ 0
      → d n k ≡ 0
      → k < l
      → d n l ≡ 0
  pub distinct :
      (n k m l : ℕ)
      → n < inode_count
      → k < pointers_per_inode
      → m < inode_count
      → l < pointers_per_inode
      → v n ≢ 0
      → v m ≢ 0
      → d n k ≢ 0
      → d n k ≡ d m l
      → (n ≡ m) × (k ≡ l)

-- The pointers of inode `n` after pointer `k` is set to `e`.
abbrev with_pointer : ℕ → ℕ → ℕ → (ℕ → ℕ → ℕ) → ℕ → ℕ → ℕ
with_pointer n k e d m l = if (n == m) && (k == l) then e else d m l

-- The tables after inode `n` is claimed with the block `e`.
abbrev pub with_valid : ℕ → (ℕ → ℕ) → ℕ → ℕ
with_valid n v m = if n == m then 1 else v m

abbrev pub with_inode : ℕ → ℕ → (ℕ → ℕ → ℕ) → ℕ → ℕ → ℕ
with_inode n e d m l = if n == m then (if l == 0 then e else 0) else d m l

module _ (v : ℕ → ℕ) (d : ℕ → ℕ → ℕ) (bm : Bitmap) (a : Allocated v d bm) (e : ℕ)
    (free : bm e ≡ true) (below : e < block_num) where
  -- A free block belongs to no inode.
  pub free-ne-pointer : (n k : ℕ) → n < inode_count → k < pointers_per_inode → v n ≢ 0 → d n k ≢ e
  free-ne-pointer n k hn hk hv same = cc (a.used n k hn hk hv, ap bm same)

  -- Giving a free block to the next pointer of an inode keeps the ownership consistent.
  pub extend-Allocated :
      (n k : ℕ)
      → n < inode_count
      → k < pointers_per_inode
      → v n ≢ 0
      → ((l : ℕ) → l < k → d n l ≢ 0)
      → ((l : ℕ) → k ≤ l → l < pointers_per_inode → d n l ≡ 0)
      → Allocated v (with_pointer n k e d) (taken e bm)
  extend-Allocated n k hn hk hv before after = record {
    low = λ b h. ground (arith, a.low b);
    in_range = λ m l hm hl w. ground (arith, a.in_range m l hm hl w);
    used = λ m l hm hl w. ground (arith, a.used m l hm hl w);
    in_data = λ m l hm hl w p. ground (arith, a.in_data m l hm hl w, a.low e free);
    first = λ m hm w. ground (arith, a.first m hm w, a.low e free);
    closed = λ m i l hm hl w p q.
        ground (arith, a.closed m i l hm hl w, before i, after l, a.low e free);
    distinct = λ m i m' l hm hi hm' hl w w' p q. ground (
      arith,
      a.distinct m i m' l hm hi hm' hl w w',
      free-ne-pointer m i hm hi w,
      free-ne-pointer m' l hm' hl w',
    );
  }

  -- So does claiming an inode that was not valid.
  pub claim-Allocated :
      (n : ℕ)
      → n < inode_count
      → v n ≡ 0
      → Allocated (with_valid n v) (with_inode n e d) (taken e bm)
  claim-Allocated n hn hv = record {
    low = λ b h. ground (arith, a.low b);
    in_range = λ m l hm hl w. ground (arith, a.in_range m l hm hl);
    used = λ m l hm hl w. ground (arith, a.used m l hm hl, a.low 0);
    in_data = λ m l hm hl w p. ground (arith, a.in_data m l hm hl, a.low e free);
    first = λ m hm w. ground (arith, a.first m hm, a.low e free);
    closed = λ m i l hm hl w p q. ground (arith, a.closed m i l hm hl, a.low e free);
    distinct = λ m i m' l hm hi hm' hl w w' p q. ground (
      arith,
      a.distinct m i m' l hm hi hm' hl,
      free-ne-pointer m i hm hi,
      free-ne-pointer m' l hm' hl,
    );
  }

-- Tables that agree on the inodes of the disk are consistent together.
pub Allocated-congr :
    (v w : ℕ → ℕ) (d f : ℕ → ℕ → ℕ) (bm : Bitmap)
    → Allocated v d bm
    → ((n : ℕ) → n < inode_count → w n ≡ v n)
    → ((n k : ℕ) → n < inode_count → k < pointers_per_inode → f n k ≡ d n k)
    → Allocated w f bm
Allocated-congr v w d f bm a same_v same_d = record {
  low = a.low;
  in_range = λ m l hm hl x. ground (arith, a.in_range m l hm hl, same_v m hm, same_d m l hm hl);
  used = λ m l hm hl x. ground (arith, a.used m l hm hl, same_v m hm, same_d m l hm hl);
  in_data = λ m l hm hl x p. ground (arith, a.in_data m l hm hl, same_v m hm, same_d m l hm hl);
  first = λ m hm x. ground (arith, a.first m hm, same_v m hm, same_d m 0 hm (omega arith));
  closed = λ m i l hm hl x p q.
      ground
        (arith, a.closed m i l hm hl, same_v m hm, same_d m i hm (omega arith), same_d m l hm hl);
  distinct = λ m i m' l hm hi hm' hl x x' p q. ground (
    arith,
    a.distinct m i m' l hm hi hm' hl,
    same_v m hm,
    same_v m' hm',
    same_d m i hm hi,
    same_d m' l hm' hl,
  );
}
