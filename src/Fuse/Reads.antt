-- ===== src/Fuse/Reads.antt =====
-- `do_getattr` and `do_read` over any file system that serves the file with inode 0.
use Prim.Native.Nat.{min as least}
use bit_computer.Common.{Bytes, List, false, ok, pos, refl, ℕ, ◌<◌, ◌≡◌, ◌≤◌}
use bit_computer.Fs.Client.{Content}
use bit_computer.Fs.Layout.{size}
use bit_computer.Fs.Write.{min}
use bit_computer.Fuse.{Attributes, Environment, FileApi, do_getattr, file_mode, is_root}

-- The file `c` can be read as inode `n`: `stat` answers its size, and then a `read` of at most that many bytes, at any
-- offset, returns 0 and puts the first bytes of the file into the buffer.
pub record Serves (A : FileApi) (s : A.Store) (n : ℕ) (c : Content) : Type 0 where
  pub after_stat : A.Store
  pub stat_ok : A.stat s n ≡ ok (pos c.size, after_stat)
  pub read_ok :
      (buf : Bytes) (length offset : ℕ)
      → length ≤ c.size
      → (buf' : Bytes) × (s' : A.Store) × (A.read after_stat n buf length offset
          ≡ ok (pos 0, buf', s'))
        × ((k : ℕ) → k < length → buf' k ≡ c.byte k)

-- The attributes of the file.
abbrev regular_file : Environment → Content → Attributes
regular_file e c = record {
  st_uid = e.uid;
  st_gid = e.gid;
  st_atime = e.time;
  st_mtime = e.time;
  st_mode = file_mode;
  st_nlink = 1;
  st_size = c.size;
}

module _ (A : FileApi) (s : A.Store) (c : Content) (serves : Serves A s 0 c) where
  -- Every path but "/" is a regular file with the size of the file.
  do_getattr-Serves :
      (e : Environment) (path : List ℕ) (st : Attributes)
      → is_root path ≡ false
      → do_getattr A e path st s ≡ ok (pos 0, regular_file e c, serves.after_stat)
  unfolding do_getattr
  do_getattr-Serves e path st other = rw (do_getattr, other) (rw serves.stat_ok refl)
