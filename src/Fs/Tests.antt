-- ===== src/Fs/Tests.antt =====
-- Runs of fs.c, and its theorems at small file systems.
use simple_os.Prelude.{
  ℕ, ◌+◌, ◌-◌, ◌<◌, has_bit, ◌≡◌, refl, ◌⊎◌, min, true, false, List, [], ◌∷◌, replicate, take,
  arith, Option, none, some, ok, ◌>>=◌, returned,
}
use simple_os.Fs.{
  Ramfs, is_file, no_block, max_blocks, taken, skip_blocks, read_loop, find_node, same_name,
  finddir_loop, ramfs_finddir, take_block, bytes_at, find_block, allocate_block, ramfs_read,
  ramfs_write, skip_write, write_loop, write_bytes, next_or_new,
}
use simple_os.Fs.Chain.{held}
use simple_os.Fs.Read.{FileAt, ramfs_read_lem}
use simple_os.Fs.Grow.{Full, allocate_block_lem}
use simple_os.Fs.Touched.{Touched, Saved}
use simple_os.Fs.File.{ramfs_write_lem, ramfs_read-ramfs_write}
use simple_os.Fs.Ready.{one_file, one_file-FileAt, one_dir, one_dir-HasRoom, one_dir-FreshInode}
use simple_os.Fs.Dir.{ramfs_finddir-ramfs_create_file}
use simple_os.Fs.Create.{
  hello_name, fs_init, readme_text, with_root, add_file, ramfs_create_file, create_file_at,
  new_node, add_to_parent, find_entry,
}

-- Node 1 is a file of five bytes, in block 3.
abbrev five_bytes : Ramfs
five_bytes = record one_file {
  nodes = λ i. record (one_file.nodes i) { size = 5; first_block = 3 };
  content = λ b i. 65 + i;
  next_block = λ b. no_block;
  free_blocks = 8 ∷ replicate 31 0;
}

five_bytes-FileAt : FileAt five_bytes 1 (3 ∷ [])
unfolding taken has_bit
five_bytes-FileAt = record {
  file = refl;
  chained = (refl, omega arith, refl, tt, refl);
  covered = omega arith;
}

ramfs_read_lem_example :
    ramfs_read five_bytes 1 2 100
    ≡ ok (some (bytes_at (min 100 (5 - 2)) 2 (held five_bytes.content (3 ∷ []))))
ramfs_read_lem_example = ramfs_read_lem five_bytes 1 (3 ∷ []) 2 100 five_bytes-FileAt (omega arith)

read_rest : ramfs_read five_bytes 1 2 100 ≡ ok (some (67 ∷ 68 ∷ 69 ∷ []))
unfolding ramfs_read skip_blocks read_loop bytes_at
read_rest = refl

ramfs_write_lem_example :
    (o : Option ℕ) × (q : Ramfs) × (ext : List ℕ) × (ramfs_write five_bytes 1 4 (1 ∷ 2 ∷ [])
      ≡ ok (o, q))
    × Touched five_bytes 1 (3 ∷ []) q ext
    × Saved five_bytes 1 (3 ∷ []) 4 (1 ∷ 2 ∷ []) o q ext
ramfs_write_lem_example =
    ramfs_write_lem five_bytes 1 (3 ∷ []) 4 (1 ∷ 2 ∷ []) refl (omega arith) five_bytes-FileAt

abbrev written : Option ℕ × Ramfs
written = returned (none, one_file) (ramfs_write one_file 1 510 (1 ∷ 2 ∷ 3 ∷ []))

write-one_file : ramfs_write one_file 1 510 (1 ∷ 2 ∷ 3 ∷ []) ≡ ok (some 3, written.1)
unfolding ramfs_write skip_write write_loop next_or_new allocate_block find_block taken has_bit
    write_bytes
write-one_file = refl

ramfs_read-ramfs_write_example : ramfs_read written.1 1 510 3 ≡ ok (some (take 3 (1 ∷ 2 ∷ 3 ∷ [])))
ramfs_read-ramfs_write_example =
    ramfs_read-ramfs_write one_file 1 [] 510 (1 ∷ 2 ∷ 3 ∷ []) 3 written.1 refl (omega arith)
      one_file-FileAt write-one_file

allocate_block_lem_example :
    ((allocate_block one_file ≡ (no_block, one_file)) × Full one_file)
    ⊎ ((i : ℕ) × (allocate_block one_file ≡ (i, take_block one_file i))
        × (i < max_blocks)
        × (taken one_file.free_blocks i ≡ false)
        × ((j : ℕ) → j < i → taken one_file.free_blocks j ≡ true))
allocate_block_lem_example = allocate_block_lem one_file

-- After `fs_init`, node 2 is readme.txt.
readme : (fs_init one_file >>= λ q. ramfs_read q 2 0 1000) ≡ ok (some readme_text)
unfolding fs_init with_root add_file ramfs_create_file create_file_at new_node add_to_parent
    find_entry find_node same_name finddir_loop ramfs_finddir ramfs_write skip_write write_loop
    next_or_new allocate_block find_block taken has_bit write_bytes ramfs_read skip_blocks read_loop
    bytes_at
readme = refl

ramfs_finddir-ramfs_create_file_example :
    (q : Ramfs) × (ramfs_create_file one_dir 0 hello_name ≡ ok (some 1, q))
    × (is_file (q.nodes 1).type ≡ true)
    × ((q.nodes 1).size ≡ 0)
    × ((q.nodes 1).first_block ≡ no_block)
    × (q.free_blocks ≡ one_dir.free_blocks)
    × (ramfs_finddir q 0 hello_name ≡ ok (some 1))
ramfs_finddir-ramfs_create_file_example =
    ramfs_finddir-ramfs_create_file one_dir 0 hello_name 0 1 0 one_dir-HasRoom one_dir-FreshInode
      (omega arith)
