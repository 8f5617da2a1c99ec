-- ===== src/Fs/Write/Blocks.antt =====
-- The loop of `fs_write` that writes the data blocks.
use Prim.Native.Nat.{min as least}
use bit_computer.Common.{
  ==_iff, Bool, Bool-cases, Bytes, ap, arith, dec_lt, if◌then◌else◌, inl, inr, leb, le→ltb, ltb,
  lt→ltb, memcpy, ok, refl, suc, sym, to_int-small, zero, ℕ, ◌%◌, ◌&&◌, ◌*◌, ◌+◌, ◌-◌, ◌/◌, ◌<◌,
  ◌==◌, ◌^◌, ◌∙◌, ◌≡◌, ◌≢◌, ◌≤◌,
}
use bit_computer.Fs.Disk.{DiskApi}
use bit_computer.Fs.Layout.{block_num, block_size, direct, pointers_per_inode}
use bit_computer.Fs.State.{State, fs_read_block, malloc}
use bit_computer.Fs.Valid.View.{read-write_other, read-write_same}
use bit_computer.Fs.Write.{fs_write_data_block, min_size, wrap, write_blocks, write_round}

-- On small values `min_size` is the minimum.
pub min_size-small : (a b : ℕ) → a < 2 ^ 15 → b < 2 ^ 15 → min_size a b ≡ least a b
unfolding min_size
min_size-small a b ha hb = rw (to_int-small a ha, to_int-small b hb) (ground arith)

module _ (c e at n k x y : ℕ) where
  abbrev in_window : Bool
  in_window = (c == e) && (leb at k && ltb k (at + n))

  window_hit : c ≡ e → at ≤ k → k < at + n → (if in_window then x else y) ≡ x
  window_hit p q r = ground arith

  window_miss : (c ≡ e → at ≤ k → k < at + n → ⊥) → (if in_window then x else y) ≡ y
  window_miss away = elim (Bool-cases in_window) [
    | inl hit ↦ absurd (away (ground arith) (ground arith) (ground arith))
    | inr miss ↦ rw miss
  ]

-- One block.
module _ {D : DiskApi} (s : State D) (c : ℕ) (bytes : Bytes) (n at : ℕ) where
  abbrev after_block : State D
  after_block = record s {
    heap = s.heap - block_size;
    disk = D.disk_write s.disk c (memcpy (fs_read_block D s.disk c) at bytes n);
  }

  fs_write_data_block_lem :
      at + n ≤ block_size
      → block_size ≤ s.heap
      → fs_write_data_block s c bytes n at ≡ ok after_block
  unfolding fs_write_data_block malloc
  fs_write_data_block_lem fits memory = ground arith

  after_block_read :
      (e k : ℕ)
      → c < block_num
      → e < block_num
      → k < block_size
      → fs_read_block D after_block.disk e k ≡ (
          if (c == e) && (leb at k && ltb k (at + n))
          then bytes (k - at)
          else fs_read_block D s.disk e k)
  after_block_read e k hc he hk = elim (Bool-cases (c == e)) [
    | inl same ↦
        let eq : c ≡ e = (==_iff c e).0 same in
        rw (← eq) (read-write_same D s.disk c _ hc k hk ∙ ground arith)
    | inr other ↦ read-write_other D s.disk c _ hc e k he hk (ground arith) ∙ ground arith
  ]

-- Where byte `x` of a write at `offset` belongs, in the blocks that the pointers of `b` name.
module _ (b : Bytes) (j offset : ℕ) where
  abbrev pub block_of : ℕ → ℕ
  block_of x = direct b j ((offset + x) / block_size)

  abbrev place_of : ℕ → ℕ
  place_of x = (offset + x) % block_size

-- A block and a place in it determine the byte.
place-injective :
    (offset x y : ℕ)
    → (offset + x) / block_size ≡ (offset + y) / block_size
    → (offset + x) % block_size ≡ (offset + y) % block_size
    → x ≡ y
place-injective offset x y p q = omega arith

-- The bytes from `from` on are on the disk, at their places, and nothing else on the disk has changed.
pub record BlocksWritten {D : DiskApi} (s : State D) (b : Bytes) (j : ℕ) (bytes : Bytes)
    (length : ℕ) (offset : ℕ) (from : ℕ) (s' : State D) : Type 0 where
  pub free_blocks : s'.free_blocks ≡ s.free_blocks
  pub meta_data : s'.meta_data ≡ s.meta_data
  pub written :
      (x : ℕ)
      → from ≤ x
      → x < length
      → fs_read_block D s'.disk (block_of b j offset x) (place_of b j offset x) ≡ bytes x
  pub rest :
      (c k : ℕ)
      → c < block_num
      → k < block_size
      → ((x : ℕ) → from ≤ x → x < length → c ≡ block_of b j offset x → k ≢ place_of b j offset x)
      → fs_read_block D s'.disk c k ≡ fs_read_block D s.disk c k

-- What the loop relies on: the write fits into the five blocks, and the pointers that it uses name
-- different blocks of the disk.
pub record IsTarget (b : Bytes) (j length offset : ℕ) : Type 0 where
  pub near : offset < block_size
  pub fits : offset + length ≤ pointers_per_inode * block_size
  pub on_disk : (l : ℕ) → l * block_size < offset + length → direct b j l < block_num
  pub apart :
      (l m : ℕ)
      → l * block_size < offset + length
      → m * block_size < offset + length
      → direct b j l ≡ direct b j m
      → l ≡ m

-- The loop's variables in round `i`, which starts at place `r` of its block.
pub record Aligned (length offset i r written remaining : ℕ) : Type 0 where
  pub place : offset + written ≡ i * block_size + r
  pub inside : r < block_size
  pub amount : remaining ≡ least (length - written) (block_size - r)

module _ {D : DiskApi} (b : Bytes) (j : ℕ) (bytes : Bytes) (length offset : ℕ)
    (t : IsTarget b j length offset) where
  -- A round in front of the others.
  step-BlocksWritten :
      (s : State D) (i r written remaining : ℕ)
      → written < length
      → Aligned length offset i r written remaining
      → (s' : State D)
      → BlocksWritten
          (after_block s (direct b j i) (λ k. bytes (written + k)) remaining r)
          b
          j
          bytes
          length
          offset
          (written + remaining)
          s'
      → BlocksWritten s b j bytes length offset written s'
  step-BlocksWritten s i r written remaining more a s' w = record {
    free_blocks = w.free_blocks;
    meta_data = w.meta_data;
    written = λ x lo hi. elim (dec_lt x (written + remaining)) [
      | no late ↦ w.written x (omega arith) hi
      | yes here ↦
          let k = place_of b j offset x in
          let block : (offset + x) / block_size ≡ i = omega (arith, a.place, a.inside, a.amount) in
          let spot : k ≡ r + (x - written) = omega (arith, a.place, a.inside, a.amount) in
          let c : ℕ = direct b j i in
          let hc : c < block_num = t.on_disk i (omega (arith, a.place, a.inside)) in
          rw block (
            w.rest c k hc (omega arith) (λ y lo' hi' same there. absurd (
              let found =
                t.apart i ((offset + y) / block_size) (omega (arith, a.place)) (omega arith) same in
              omega (arith, place-injective offset x y (block ∙ found) there)))
            ∙ after_block_read s c (λ z. bytes (written + z)) remaining r c k hc hc (omega arith)
            ∙ window_hit c c r remaining k _ _ refl (omega arith) (omega arith)
            ∙ ap bytes (omega arith))
    ];
    rest = λ c k hc hk away.
        w.rest c k hc hk (λ x lo hi. away x (omega arith) hi)
        ∙ after_block_read s (direct b j i) (λ z. bytes (written + z)) remaining r c k
            (t.on_disk i (omega (arith, a.place, a.inside))) hc hk
        ∙ window_miss (direct b j i) c r remaining k _ _ (λ same lo hi.
          let x = written + (k - r) in
          let block : (offset + x) / block_size ≡ i = omega (arith, a.place, a.inside, a.amount) in
          away x (omega arith) (omega (arith, a.amount)) (rw block (sym same))
            (omega (arith, a.place, a.inside, a.amount)));
  }

  done-BlocksWritten :
      (s : State D) (written : ℕ)
      → length ≤ written
      → BlocksWritten s b j bytes length offset written s
  done-BlocksWritten s written over = record {
    free_blocks = refl;
    meta_data = refl;
    written = λ x lo hi. absurd (omega arith);
    rest = λ c k hc hk away. refl;
  }

  -- One round of the loop.
  module _ (i r written remaining : ℕ) (s : State D) (more : written < length)
      (a : Aligned length offset i r written remaining) (memory : block_size ≤ s.heap) where
    write_round_lem :
        write_round b j bytes offset i written remaining s
        ≡ ok (after_block s (direct b j i) (λ k. bytes (written + k)) remaining r)
    unfolding write_round
    write_round_lem =
        let hi : i < pointers_per_inode = omega (arith, a.place, t.fits) in
        let hc : direct b j i < block_num = t.on_disk i (omega (arith, a.place, a.inside)) in
        let block : wrap (direct b j i) ≡ direct b j i = omega arith in
        let spot : wrap (offset + written) % block_size ≡ r =
          omega (arith, a.place, a.inside, t.fits) in
        rw (lt→ltb _ _ hi, block, spot)
          (fs_write_data_block_lem s (direct b j i) (λ k. bytes (written + k)) remaining r
            (omega (arith, a.amount, a.inside)) memory)

    next_written : wrap (written + remaining) ≡ written + remaining
    next_written = omega (arith, a.amount, t.fits)

    next_remaining :
        min_size (wrap (length + 2 ^ 16 - wrap (written + remaining))) block_size
        ≡ least (length - (written + remaining)) block_size
    next_remaining =
        min_size-small _ _ (omega (arith, a.amount, t.fits)) (omega arith)
        ∙ omega (arith, a.amount, t.fits)

    write_blocks-step :
        (n : ℕ)
        → write_blocks (suc n) b j length bytes offset i written remaining s
          ≡ write_blocks n b j length bytes offset
              (i + 1)
              (written + remaining)
              (least (length - (written + remaining)) block_size)
              (after_block s (direct b j i) (λ k. bytes (written + k)) remaining r)
    unfolding write_blocks
    write_blocks-step n =
        rw (lt→ltb written length more, write_blocks)
          (rw write_round_lem (rw next_remaining (rw next_written)))

  write_blocks_over :
      (n i written remaining : ℕ) (s : State D)
      → length ≤ written
      → write_blocks n b j length bytes offset i written remaining s ≡ ok s
  unfolding write_blocks
  write_blocks_over zero i written remaining s over = rw (le→ltb written length over)
  write_blocks_over (suc n) i written remaining s over =
      rw (le→ltb written length over, write_blocks)

  -- The loop ends within `length` rounds, without a fault, and writes what is left.
  pub write_blocks-BlocksWritten :
      (fuel i r written remaining : ℕ) (s : State D)
      → (written < length → Aligned length offset i r written remaining)
      → length ≤ written + fuel
      → block_size * (pointers_per_inode - i) ≤ s.heap
      → (s' : State D) × (write_blocks fuel b j length bytes offset i written remaining s ≡ ok s')
        × BlocksWritten s b j bytes length offset written s'
        × (s.heap ≤ s'.heap + block_size * (pointers_per_inode - i))
  write_blocks-BlocksWritten zero i r written remaining s aligned enough memory = (
    s,
    write_blocks_over _ i written remaining s (omega arith),
    done-BlocksWritten s written (omega arith),
    omega arith,
  )
  write_blocks-BlocksWritten (suc n) i r written remaining s aligned enough memory =
      elim (dec_lt written length) [
        | no over ↦ (
          s,
          write_blocks_over _ i written remaining s (omega arith),
          done-BlocksWritten s written (omega arith),
          omega arith,
        )
        | yes more ↦
            let a = aligned more in
            let s₁ = after_block s (direct b j i) (λ k. bytes (written + k)) remaining r in
            let (s', run, w, heap) =
              write_blocks-BlocksWritten n (i + 1) 0 (written + remaining)
                (least (length - (written + remaining)) block_size) s₁
                (λ h. record {
                  place = omega (arith, a.place, a.inside, a.amount);
                  inside = omega arith;
                  amount = omega arith;
                })
                (omega (arith, a.inside, a.amount)) (omega (arith, a.place, a.inside, t.fits)) in
            (
              s',
              write_blocks-step i r written remaining s more a
                    (omega (arith, a.place, a.inside, t.fits)) n
                  ∙ run,
              step-BlocksWritten s i r written remaining more a s' w,
              omega (arith, a.place, a.inside, t.fits),
            )
      ]
