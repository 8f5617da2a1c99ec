-- ===== src/Fuse.antt =====
-- shell_in_c/fs/src/fuse/fuse_binds.c: the file system as a directory with one file, for the host's kernel. The bindings are
-- compiled for the host, with `int` of 32 bits and `size_t` of 64, so they stand over an interface to the file system.
pub mod Reads
mod Witnesses
use bit_computer.Common.{
  Bool, Bytes, List, Option, Run, [], false, if◌then◌else◌, is_zero, ltb, negsuc, none, ok, pos,
  some, true, ℕ, ℤ, ◌%◌, ◌-◌, ◌==◌, ◌>>=◌, ◌^◌, ◌∷◌,
}
use bit_computer.Fs.Layout.{size}
use bit_computer.Fs.Write.{min}

-- The functions of fs.h that the bindings call. A store is the file system with its disk.
pub record FileApi : Type 1 where
  pub Store : Type 0
  pub mount : Store → Run (Bool × Store)
  pub stat : Store → ℕ → Run (ℤ × Store)
  pub read : Store → ℕ → Bytes → ℕ → ℕ → Run (ℤ × Bytes × Store)

-- What `getuid`, `getgid` and `time` give.
pub record Environment : Type 0 where
  pub uid : ℕ
  pub gid : ℕ
  pub time : ℕ

-- The fields of `struct stat` that are set.
pub record Attributes : Type 0 where
  pub st_uid : ℕ
  pub st_gid : ℕ
  pub st_atime : ℕ
  pub st_mtime : ℕ
  pub st_mode : ℕ
  pub st_nlink : ℕ
  pub st_size : ℕ

-- `S_IFDIR | 0755` and `S_IFREG | 0644`
abbrev directory_mode : ℕ
directory_mode = 0x41ed

abbrev pub file_mode : ℕ
file_mode = 0x81a4

-- `strcmp(path, "/") == 0`
unfoldable pub is_root : List ℕ → Bool
is_root [] = false
is_root (c ∷ []) = c == b'/'
is_root (c ∷ d ∷ cs) = false

-- A `size_t` as an `int`, and an `int` as a `size_t`.
unfoldable pub host_int : ℕ → ℤ
host_int x = let y = x % 2 ^ 32 in if ltb y (2 ^ 31) then pos y else negsuc (2 ^ 32 - 1 - y)

unfoldable pub host_size : ℤ → ℕ
host_size (pos n) = n
host_size (negsuc n) = 2 ^ 64 - 1 - n

module _ (A : FileApi) where
  -- `st` is what the caller passes, and what is left where a field is not set.
  unfoldable pub do_getattr :
      Environment → List ℕ → Attributes → A.Store → Run (ℤ × Attributes × A.Store)
  do_getattr h path st s =
      let owned = record st {
        st_uid = h.uid;
        st_gid = h.gid;
        st_atime = h.time;
        st_mtime = h.time;
      } in
      elim (is_root path) [
        | true ↦ ok (pos 0, record owned { st_mode = directory_mode; st_nlink = 2 }, s)
        | false ↦ do
          (stat_res, s') ← A.stat s 0
          elim stat_res [
            | negsuc _ ↦ ok (negsuc 0, owned, s')
            | pos size ↦
                ok (pos 0, record owned { st_mode = file_mode; st_nlink = 1; st_size = size }, s')
          ]
      ]

  -- The path and the offset are not looked at.
  unfoldable pub do_read : List ℕ → Bytes → ℕ → ℕ → A.Store → Run (ℤ × Bytes × A.Store)
  do_read path buffer size offset s = do
    (stat_res, s') ← A.stat s 0
    elim stat_res [
      | negsuc _ ↦ ok (negsuc 0, buffer, s')
      | pos n ↦ do
        let amount = min (pos n) (host_int size)
        (res, buffer', s'') ← A.read s' 0 buffer (host_size amount) 0
        ok ((if is_zero res then amount else res), buffer', s'')
    ]

  -- `main` up to `fuse_main`, with whether the two calls of `malloc` succeed and the flag `fs_mounted`. `none` is the
  -- result -1. The result of `fs_mount` is not looked at.
  unfoldable main_start : Bool → Bool → Bool → A.Store → Run (Option (Bool × A.Store))
  main_start disk_ok fs_ok true s = ok (some (true, s))
  main_start false fs_ok false s = ok none
  main_start true false false s = ok none
  main_start true true false s = do (_, s') ← A.mount s; ok (some (true, s'))

-- The names that `do_readdir` passes to `filler`, in this order. Its result is always 0.
unfoldable pub do_readdir : List ℕ → List (List ℕ)
do_readdir path =
    (b'.' ∷ [])
    ∷ (b'.' ∷ b'.' ∷ [])
    ∷ (if is_root path then (b'f' ∷ b'i' ∷ b'l' ∷ b'e' ∷ []) ∷ [] else [])
