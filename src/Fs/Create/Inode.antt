-- ===== src/Fs/Create/Inode.antt =====
-- The inode that `fs_create` writes.
use bit_computer.Common.{
  Bytes, ap, arith, if◌then◌else◌, leb, ltb, refl, suc, zero, ℕ, ◌&&◌, ◌+◌, ◌<◌, ◌==◌, ◌^◌, ◌∙◌,
  ◌≡◌, ◌≤◌,
}
use bit_computer.Fs.Create.{claim_inode, new_inode}
use bit_computer.Fs.Format.{zero_pointers}
use bit_computer.Fs.Layout.{
  direct, pointers_per_inode, set_direct, set_name, set_size, set_valid, size, valid,
}
use bit_computer.Fs.Layout.Fields.{
  direct-set_direct, direct-set_name, direct-set_size, direct-set_valid, size-set_direct,
  size-set_name, size-set_size, size-set_valid, valid-set_direct, valid-set_name, valid-set_size,
  valid-set_valid,
}

valid-zero_pointers :
    (n k j i : ℕ) (b : Bytes)
    → k + n ≤ pointers_per_inode
    → valid (zero_pointers n k j b) i ≡ valid b i
unfolding zero_pointers
valid-zero_pointers zero k j i b h = refl
valid-zero_pointers (suc n) k j i b h =
    valid-zero_pointers n (k + 1) j i (set_direct b j k 0) (omega arith)
    ∙ valid-set_direct b j i k 0 (omega arith)

size-zero_pointers :
    (n k j i : ℕ) (b : Bytes)
    → k + n ≤ pointers_per_inode
    → size (zero_pointers n k j b) i ≡ size b i
unfolding zero_pointers
size-zero_pointers zero k j i b h = refl
size-zero_pointers (suc n) k j i b h =
    size-zero_pointers n (k + 1) j i (set_direct b j k 0) (omega arith)
    ∙ size-set_direct b j i k 0 (omega arith)

direct-zero_pointers :
    (n k j i l : ℕ) (b : Bytes)
    → k + n ≤ pointers_per_inode
    → l < pointers_per_inode
    → direct (zero_pointers n k j b) i l
      ≡ (if (j == i) && (leb k l && ltb l (k + n)) then 0 else direct b i l)
unfolding zero_pointers
direct-zero_pointers zero k j i l b h hl = ground arith
direct-zero_pointers (suc n) k j i l b h hl = ground (
  arith,
  direct-zero_pointers n (k + 1) j i l (set_direct b j k 0),
  direct-set_direct b j i k 0 l,
)

-- The four characters that are written into the name touch no other field.
module _ (j i : ℕ) (b : Bytes) where
  abbrev root_named : Bytes
  root_named = set_name (set_name (set_name (set_name b j 0 b'r') j 1 b'o') j 2 b'o') j 3 b't'

  valid-root_named : valid root_named i ≡ valid b i
  valid-root_named =
      valid-set_name _ j i 3 _ (omega arith)
      ∙ valid-set_name _ j i 2 _ (omega arith)
      ∙ valid-set_name _ j i 1 _ (omega arith)
      ∙ valid-set_name b j i 0 _ (omega arith)

  size-root_named : size root_named i ≡ size b i
  size-root_named =
      size-set_name _ j i 3 _ (omega arith)
      ∙ size-set_name _ j i 2 _ (omega arith)
      ∙ size-set_name _ j i 1 _ (omega arith)
      ∙ size-set_name b j i 0 _ (omega arith)

  direct-root_named : (l : ℕ) → l < pointers_per_inode → direct root_named i l ≡ direct b i l
  direct-root_named l h =
      direct-set_name _ j i 3 _ l (omega arith) h
      ∙ direct-set_name _ j i 2 _ l (omega arith) h
      ∙ direct-set_name _ j i 1 _ l (omega arith) h
      ∙ direct-set_name b j i 0 _ l (omega arith) h

module _ (j i : ℕ) (b : Bytes) where
  valid-claim_inode : valid (claim_inode j b) i ≡ (if j == i then 1 else valid b i)
  unfolding claim_inode
  valid-claim_inode =
      valid-root_named j i (set_size (set_valid b j 1) j 0)
      ∙ valid-set_size (set_valid b j 1) j i 0
      ∙ valid-set_valid b j i 1 (omega arith)

  size-claim_inode : size (claim_inode j b) i ≡ (if j == i then 0 else size b i)
  unfolding claim_inode
  size-claim_inode =
      size-root_named j i (set_size (set_valid b j 1) j 0)
      ∙ size-set_size (set_valid b j 1) j i 0 (omega arith)
      ∙ ap (λ n. if j == i then 0 else n) (size-set_valid b j i 1)

  direct-claim_inode :
      (l : ℕ) → l < pointers_per_inode → direct (claim_inode j b) i l ≡ direct b i l
  unfolding claim_inode
  direct-claim_inode l h =
      direct-root_named j i (set_size (set_valid b j 1) j 0) l h
      ∙ direct-set_size (set_valid b j 1) j i 0 l h
      ∙ direct-set_valid b j i 1 l h

-- The fields of the inodes of the block that `fs_create` writes.
module _ (j i e : ℕ) (b : Bytes) where
  pub valid-new_inode : valid (new_inode j e b) i ≡ (if j == i then 1 else valid b i)
  unfolding new_inode
  valid-new_inode =
      valid-zero_pointers 4 1 j i (set_direct (claim_inode j b) j 0 e) (omega arith)
      ∙ valid-set_direct (claim_inode j b) j i 0 e (omega arith)
      ∙ valid-claim_inode j i b

  pub size-new_inode : size (new_inode j e b) i ≡ (if j == i then 0 else size b i)
  unfolding new_inode
  size-new_inode =
      size-zero_pointers 4 1 j i (set_direct (claim_inode j b) j 0 e) (omega arith)
      ∙ size-set_direct (claim_inode j b) j i 0 e (omega arith)
      ∙ size-claim_inode j i b

  pub direct-new_inode :
      (l : ℕ)
      → l < pointers_per_inode
      → e < 2 ^ 32
      → direct (new_inode j e b) i l ≡ (if j == i then (if l == 0 then e else 0) else direct b i l)
  unfolding new_inode
  direct-new_inode l h he = ground (
    arith,
    direct-zero_pointers 4 1 j i l (set_direct (claim_inode j b) j 0 e),
    direct-set_direct (claim_inode j b) j i 0 e l,
    direct-claim_inode j i b l,
  )
