-- ===== src/Fs/Create.antt =====
-- src/fs/fs.c: files and directories are created, and `fs_init`, which creates the first.
use simple_os.Prelude.{
  ℕ, zero, suc, ◌+◌, ◌*◌, ◌/◌, ◌%◌, ◌^◌, ◌==◌, leb, if◌then◌else◌, not, List, [], ◌∷◌, ◌++◌, length,
  Option, none, some, Run, ok, fault, ◌>>=◌, replicate,
}
use simple_os.Fs.{
  Ramfs, type_file, type_dir, put, set_node, is_dir, no_block, filename_max, max_files, max_blocks,
  block_size, dirent_size, max_entries, inode_at, inode_bytes, write_bytes, find_node,
  allocate_block, ramfs_finddir, ramfs_write,
}

-- The first entry of a directory that is free.
unfoldable pub find_entry : ℕ → (ℕ → ℕ) → ℕ → Option ℕ
find_entry zero d i = none
find_entry (suc n) d i =
    let rest = find_entry n d (i + 1) in if inode_at d i == 0 then some i else rest

-- `strcpy(entries[i].name, name); entries[i].inode = inode`.
abbrev pub write_entry : List ℕ → ℕ → ℕ → (ℕ → ℕ) → ℕ → ℕ
write_entry name inode i d =
    write_bytes (inode_bytes inode) (i * dirent_size + filename_max)
      (write_bytes (name ++ (0 ∷ [])) (i * dirent_size) d)

abbrev pub put_entry : Ramfs → ℕ → List ℕ → ℕ → Option ℕ → Ramfs
put_entry fs parent name inode none = fs
put_entry fs parent name inode (some i) =
    let n = fs.nodes parent in
    set_node
      (record fs {
        content =
            put fs.content n.first_block (write_entry name inode i (fs.content n.first_block));
      })
      parent (record n { size = (n.size + 1) % 2 ^ 32 })

-- "Add to parent directory" of both functions.
unfoldable pub add_to_parent : Ramfs → ℕ → List ℕ → ℕ → Run Ramfs
add_to_parent fs parent name inode =
    let block = (fs.nodes parent).first_block in
    if block == no_block
    then ok fs
    else if leb max_blocks block
    then fault
    else ok (put_entry fs parent name inode (find_entry max_entries (fs.content block) 0))

-- The node as both functions first set it up, at `node`. The name is written past the end of its array
-- where it is too long.
unfoldable pub new_node : Ramfs → ℕ → List ℕ → ℕ → ℕ → Run Ramfs
new_node fs node name type permissions =
    if leb filename_max (length name)
    then fault
    else ok (
        set_node (record fs { next_inode = (fs.next_inode + 1) % 2 ^ 32 }) node
          (record {
            name = name;
            type = type;
            size = 0;
            permissions = permissions;
            first_block = no_block;
            inode_num = fs.next_inode;
          }))

unfoldable pub create_file_at : Ramfs → ℕ → List ℕ → Option ℕ → Run (Option ℕ × Ramfs)
create_file_at fs parent name none = ok (none, fs)
create_file_at fs parent name (some node) = new_node fs node name type_file 6 >>= λ q.
    add_to_parent q parent name fs.next_inode >>= λ r. ok (some node, r)

unfoldable pub ramfs_create_file : Ramfs → ℕ → List ℕ → Run (Option ℕ × Ramfs)
ramfs_create_file fs parent name =
    if not (is_dir (fs.nodes parent).type)
    then ok (none, fs)
    else create_file_at fs parent name (find_node fs.nodes 0 max_files 0)

unfoldable pub create_dir_at : Ramfs → ℕ → List ℕ → Option ℕ → Run (Option ℕ × Ramfs)
create_dir_at fs parent name none = ok (none, fs)
create_dir_at fs parent name (some node) = new_node fs node name type_dir 7 >>= λ q.
    let (block, r) = allocate_block q in
    let with_block = set_node r node (record (r.nodes node) { first_block = block }) in
    if block == no_block
    then ok (none, set_node with_block node (record (with_block.nodes node) { inode_num = 0 }))
    else add_to_parent
        (record with_block {
          content = put r.content block (write_bytes (replicate block_size 0) 0 (r.content block));
        })
        parent name fs.next_inode
      >>= λ s. ok (some node, s)

unfoldable pub ramfs_create_dir : Ramfs → ℕ → List ℕ → Run (Option ℕ × Ramfs)
ramfs_create_dir fs parent name =
    if not (is_dir (fs.nodes parent).type)
    then ok (none, fs)
    else create_dir_at fs parent name (find_node fs.nodes 0 max_files 0)

-- "hello.txt", "readme.txt" and what they hold.
abbrev pub hello_name : List ℕ
hello_name = 104 ∷ 101 ∷ 108 ∷ 108 ∷ 111 ∷ 46 ∷ 116 ∷ 120 ∷ 116 ∷ []

abbrev pub hello_text : List ℕ
hello_text =
    72 ∷ 101 ∷ 108 ∷ 108 ∷ 111 ∷ 32 ∷ 102 ∷ 114 ∷ 111 ∷ 109 ∷ 32 ∷ 83 ∷ 105 ∷ 109 ∷ 112 ∷ 108 ∷ 101
    ∷ 79 ∷ 83 ∷ 32 ∷ 102 ∷ 105 ∷ 108 ∷ 101 ∷ 115 ∷ 121 ∷ 115 ∷ 116 ∷ 101 ∷ 109 ∷ 33 ∷ 10 ∷ []

abbrev pub readme_name : List ℕ
readme_name = 114 ∷ 101 ∷ 97 ∷ 100 ∷ 109 ∷ 101 ∷ 46 ∷ 116 ∷ 120 ∷ 116 ∷ []

abbrev pub readme_text : List ℕ
readme_text =
    84 ∷ 104 ∷ 105 ∷ 115 ∷ 32 ∷ 105 ∷ 115 ∷ 32 ∷ 97 ∷ 32 ∷ 115 ∷ 105 ∷ 109 ∷ 112 ∷ 108 ∷ 101 ∷ 32
    ∷ 82 ∷ 65 ∷ 77 ∷ 45 ∷ 98 ∷ 97 ∷ 115 ∷ 101 ∷ 100 ∷ 32 ∷ 102 ∷ 105 ∷ 108 ∷ 101 ∷ 115 ∷ 121 ∷ 115
    ∷ 116 ∷ 101 ∷ 109 ∷ 46 ∷ 10 ∷ 70 ∷ 105 ∷ 108 ∷ 101 ∷ 115 ∷ 32 ∷ 97 ∷ 114 ∷ 101 ∷ 32 ∷ 115 ∷ 116
    ∷ 111 ∷ 114 ∷ 101 ∷ 100 ∷ 32 ∷ 105 ∷ 110 ∷ 32 ∷ 109 ∷ 101 ∷ 109 ∷ 111 ∷ 114 ∷ 121 ∷ 46 ∷ 10 ∷ []

-- The root directory at node 0, as `fs_init` sets it up.
unfoldable pub with_root : Ramfs → Ramfs
with_root fs =
    let cleared = record fs {
      nodes = λ i. if leb max_files i then fs.nodes i else record (fs.nodes i) { inode_num = 0 };
      free_blocks = replicate (max_blocks / 32) 0;
      next_inode = 2;
    } in
    let (block, q) = allocate_block cleared in
    set_node q 0 (record {
      name = 47 ∷ [];
      type = type_dir;
      size = 0;
      permissions = 7;
      first_block = block;
      inode_num = 1;
    })

-- A file in the root with its text.
unfoldable pub add_file : Ramfs → List ℕ → List ℕ → Run Ramfs
add_file fs name text =
    let write : Ramfs → Option ℕ → Run Ramfs =
      λ q o. elim o [ none ↦ ok q | some node ↦ ramfs_write q node 0 text >>= λ (_, r). ok r ] in
    ramfs_create_file fs 0 name >>= λ (_, q). ramfs_finddir q 0 name >>= λ found. write q found

unfoldable pub fs_init : Ramfs → Run Ramfs
fs_init fs =
    add_file (with_root fs) hello_name hello_text >>= λ q. add_file q readme_name readme_text
