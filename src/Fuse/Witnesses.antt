-- ===== src/Fuse/Witnesses.antt =====
-- The bindings over a file system with one file, and tests.

use bit_computer.Common.{List, [], from_list, length, ok, pos, refl, true, ℕ, ◌+◌, ◌∷◌, ◌≡◌}
use bit_computer.Fs.Client.{Content}
use bit_computer.Fuse.{FileApi, do_readdir, is_root}

abbrev some_path : List ℕ
some_path = b'/' ∷ b'x' ∷ []

-- A file system whose one file has the bytes 7, 8 and 9.
abbrev one_file : Content
one_file = record { size = 3; byte = from_list (7 ∷ 8 ∷ 9 ∷ []) }

abbrev one_file_api : FileApi
one_file_api = record {
  Store = ℕ;
  mount = λ s. ok (true, s);
  stat = λ s n. ok (pos 3, s + 1);
  read = λ s n buf length offset. ok (pos 0, one_file.byte, s + 1);
}

-- The file is listed under "/" alone.
readdir_root : length (do_readdir (b'/' ∷ [])) ≡ 3
unfolding do_readdir is_root length
readdir_root = refl

readdir_other : length (do_readdir (b'/' ∷ b'a' ∷ [])) ≡ 2
unfolding do_readdir is_root length
readdir_other = refl
