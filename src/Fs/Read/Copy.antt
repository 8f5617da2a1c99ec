-- ===== src/Fs/Read/Copy.antt =====
-- The loops of `fs_read`.
use bit_computer.Common.{
  Bytes, arith, dec_lt, if◌then◌else◌, le→leb, ltb, lt→ltb, memcpy, ok, suc, zero, ℕ, ◌+◌, ◌-◌, ◌<◌,
  ◌^◌, ◌∙◌, ◌≡◌, ◌≤◌,
}
use bit_computer.Fs.Layout.{block_size}
use bit_computer.Fs.Read.{copy_block, copy_rounds}
use bit_computer.Fs.Write.{min_size, wrap}
use bit_computer.Fs.Write.Blocks.{min_size-small}
use Prim.Native.Nat.{min as least}

-- The bytes that a read of `remaining` bytes leaves: at most one block of them comes from the disk.
abbrev Copied : Bytes → ℕ → Bytes → Bytes → Type 0
Copied block remaining buf buf' =
    (k : ℕ) → buf' k ≡ (if ltb k (least block_size remaining) then block k else buf k)

next_small :
    (remaining : ℕ)
    → 0 < remaining
    → remaining < 2 ^ 15
    → min_size block_size remaining ≡ least block_size remaining
next_small remaining some_left small = min_size-small block_size remaining (omega arith) small

copy_block_lem :
    (block : Bytes) (count : ℕ) (buf : Bytes)
    → count ≤ block_size
    → copy_block block count buf ≡ ok (memcpy buf 0 block count)
unfolding copy_block
copy_block_lem block count buf h = rw (le→leb _ _ h)

copy_rounds-step :
    (n : ℕ) (block : Bytes) (remaining : ℕ) (buf : Bytes)
    → 0 < remaining
    → remaining < 2 ^ 15
    → copy_rounds (suc n) block remaining buf
      ≡ copy_rounds n block
          (remaining - least block_size remaining)
          (memcpy buf 0 block (least block_size remaining))
unfolding copy_rounds
copy_rounds-step n block remaining buf more small =
    let count = least block_size remaining in
    let next : wrap (remaining + 2 ^ 16 - count) ≡ remaining - count = omega arith in
    rw (lt→ltb _ _ more, copy_rounds)
      (rw (next_small remaining more small)
        (rw (copy_block_lem block count buf (omega arith)) (rw next)))

none_left_lem :
    (n : ℕ) (block : Bytes) (remaining : ℕ) (buf : Bytes)
    → remaining ≡ 0
    → copy_rounds n block remaining buf ≡ ok (buf, 0)
unfolding copy_rounds
none_left_lem zero block remaining buf e = rw e
none_left_lem (suc n) block remaining buf e = rw e

-- The inner loop ends with nothing left.
pub copy_rounds-Copied :
    (n : ℕ) (block : Bytes) (remaining : ℕ) (buf : Bytes)
    → remaining ≤ n
    → remaining < 2 ^ 15
    → (buf' : Bytes) × (copy_rounds n block remaining buf ≡ ok (buf', 0))
      × Copied block remaining buf buf'
copy_rounds-Copied zero block remaining buf enough small =
    let none_left : remaining ≡ 0 = omega arith in
    (buf, none_left_lem _ block remaining buf none_left, λ k. ground arith)
copy_rounds-Copied (suc n) block remaining buf enough small = elim (dec_lt 0 remaining) [
  | no over ↦
      let none_left : remaining ≡ 0 = omega arith in
      (buf, none_left_lem _ block remaining buf none_left, λ k. ground arith)
  | yes more ↦
      let count = least block_size remaining in
      let buf₁ = memcpy buf 0 block count in
      let (buf', run, c) =
        copy_rounds-Copied n block (remaining - count) buf₁ (omega arith) (omega arith) in
      (buf', copy_rounds-step n block remaining buf more small ∙ run, λ k. ground (arith, c k))
]
