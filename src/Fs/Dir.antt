-- ===== src/Fs/Dir.antt =====
-- A file that `ramfs_create_file` has put into a directory is the one that `ramfs_finddir` finds there.
use simple_os.Prelude.{
  ℕ, zero, suc, ◌+◌, ◌-◌, ◌*◌, ◌%◌, ◌^◌, ◌≤◌, ◌<◌, ◌≡◌, ◌≢◌, refl, sym, ap, ◌∙◌, ◌⊎◌, inl, inr, leb,
  ◌==◌, not, ◌&&◌, true, false, List, [], ◌∷◌, ◌++◌, length, length-append, get_or, none, some,
  arith, Bool-cases, ok,
}
use simple_os.Fs.{
  Ramfs, Node, set_node, is_file, is_dir, no_block, type_file, filename_max, max_files, max_blocks,
  dirent_size, max_entries, inode_at, inode_bytes, same_name, find_node, finddir_loop,
  ramfs_finddir,
}
use simple_os.Fs.Create.{
  find_entry, write_entry, put_entry, add_to_parent, new_node, create_file_at, ramfs_create_file,
}
use simple_os.Fs.Patch.{write_bytes_out, write_bytes_in}

find_node_first :
    (nodes : ℕ → Node) (v n s k : ℕ)
    → s ≤ k
    → k < s + n
    → (nodes k).inode_num ≡ v
    → ((j : ℕ) → s ≤ j → j < k → (nodes j).inode_num ≢ v)
    → find_node nodes v n s ≡ some k
unfolding find_node
find_node_first nodes v zero s k a b e h = absurd (omega arith)
find_node_first nodes v (suc n) s k a b e h = elim (Bool-cases (s == k)) [
  | inl same ↦
      let at : s ≡ k = ground (arith, same) in
      let hit : ((nodes s).inode_num == v) ≡ true = rw at (ground (arith, e)) in rw hit (ap some at)
  | inr other ↦
      let miss : ((nodes s).inode_num == v) ≡ false = ground (arith, h s, other, a) in
      rw miss (
        find_node_first nodes v n (s + 1) k (ground (arith, other, a)) (omega arith) e
          (λ j c d. h j (omega arith) d))
]

find_entry_first :
    (d : ℕ → ℕ) (n s k : ℕ)
    → s ≤ k
    → k < s + n
    → inode_at d k ≡ 0
    → ((j : ℕ) → s ≤ j → j < k → inode_at d j ≢ 0)
    → find_entry n d s ≡ some k
unfolding find_entry
find_entry_first d zero s k a b e h = absurd (omega arith)
find_entry_first d (suc n) s k a b e h = elim (Bool-cases (s == k)) [
  | inl same ↦
      let at : s ≡ k = ground (arith, same) in
      let hit : (inode_at d s == 0) ≡ true = rw at (ground (arith, e)) in rw hit (ap some at)
  | inr other ↦
      let miss : (inode_at d s == 0) ≡ false = ground (arith, h s, other, a) in
      rw miss (
        find_entry_first d n (s + 1) k (ground (arith, other, a)) (omega arith) e
          (λ j c d. h j (omega arith) d))
]

same_name-copied :
    (cs : List ℕ) (off : ℕ) (d : ℕ → ℕ)
    → ((k : ℕ) → k ≤ length cs → d (off + k) ≡ get_or (cs ++ (0 ∷ [])) k 0)
    → same_name cs off d ≡ true
unfolding same_name
same_name-copied [] off d h =
    let e : d off ≡ 0 = ap d {y = off + 0} (omega arith) ∙ h 0 (omega arith) in rw e (ground arith)
same_name-copied (c ∷ cs) off d h =
    let e : d off ≡ c = ap d {y = off + 0} (omega arith) ∙ h 0 (omega arith) in
    let hit : (d off == c) ≡ true = ground (arith, e) in
    rw hit (
      same_name-copied cs (off + 1) d
        (λ k l. ap d {y = off + suc k} (omega arith) ∙ h (suc k) (omega arith)))

same_name-eq :
    (cs : List ℕ) (off : ℕ) (d e : ℕ → ℕ)
    → ((k : ℕ) → k ≤ length cs → d (off + k) ≡ e (off + k))
    → same_name cs off d ≡ same_name cs off e
unfolding same_name
same_name-eq [] off d e h =
    let same : d off ≡ e off =
      ap d {y = off + 0} (omega arith) ∙ h 0 (omega arith) ∙ ap e {x = off + 0} (omega arith) in
    rw same refl
same_name-eq (c ∷ cs) off d e h =
    let same : d off ≡ e off =
      ap d {y = off + 0} (omega arith) ∙ h 0 (omega arith) ∙ ap e {x = off + 0} (omega arith) in
    let rest = same_name-eq cs (off + 1) d e (λ k l.
      ap d {y = off + suc k} (omega arith)
      ∙ h (suc k) (omega arith)
      ∙ ap e {x = off + suc k} (omega arith)) in
    rw (same, rest) refl

-- The new entry among the others.
module _ (name : List ℕ) (v i : ℕ) (d : ℕ → ℕ) (short : length name < filename_max)
    (small : v < 2 ^ 32) where
  entry_beside :
      (a : ℕ)
      → (a < i * dirent_size) ⊎ (i * dirent_size + dirent_size ≤ a)
      → write_entry name v i d a ≡ d a
  entry_beside a h =
      let len = length-append name (0 ∷ []) in
      write_bytes_out (inode_bytes v) (i * 36 + 32) _ a (ground (arith, h))
      ∙ write_bytes_out (name ++ (0 ∷ [])) (i * 36) d a (ground (arith, h, len))

  inode_at-beside : (j : ℕ) → j ≢ i → inode_at (write_entry name v i d) j ≡ inode_at d j
  inode_at-beside j h =
      let b0 = entry_beside (j * 36 + 32) (ground (arith, h)) in
      let b1 = entry_beside (j * 36 + 32 + 1) (ground (arith, h)) in
      let b2 = entry_beside (j * 36 + 32 + 2) (ground (arith, h)) in
      let b3 = entry_beside (j * 36 + 32 + 3) (ground (arith, h)) in rw (b0, b1, b2, b3) refl

  byte_here :
      (k : ℕ)
      → k < 4
      → write_entry name v i d (i * dirent_size + filename_max + k) ≡ get_or (inode_bytes v) k 0
  byte_here k l =
      let at : i * 36 + 32 + k - (i * 36 + 32) ≡ k = omega arith in
      write_bytes_in (inode_bytes v) (i * 36 + 32) _ (i * 36 + 32 + k) (omega arith) (omega arith)
      ∙ ap (λ n. get_or (inode_bytes v) n 0) at

  inode_at-here : inode_at (write_entry name v i d) i ≡ v
  inode_at-here =
      let first : i * 36 + 32 + 0 ≡ i * 36 + 32 = omega arith in
      let b0 = ap (write_entry name v i d) (sym first) ∙ byte_here 0 (omega arith) in
      let b1 = byte_here 1 (omega arith) in
      let b2 = byte_here 2 (omega arith) in
      let b3 = byte_here 3 (omega arith) in rw (b0, b1, b2, b3) (omega arith)

  same_name-beside :
      (j : ℕ)
      → j ≢ i
      → same_name name (j * dirent_size) (write_entry name v i d)
        ≡ same_name name (j * dirent_size) d
  same_name-beside j h =
      same_name-eq name (j * 36) (write_entry name v i d) d
        (λ k l. entry_beside (j * 36 + k) (ground (arith, h, l, short)))

  same_name-here : same_name name (i * dirent_size) (write_entry name v i d) ≡ true
  same_name-here = same_name-copied name (i * 36) (write_entry name v i d) (λ k l.
      let at : i * 36 + k - i * 36 ≡ k = omega arith in
      write_bytes_out (inode_bytes v) (i * 36 + 32) _ (i * 36 + k) (inl (omega (arith, l, short)))
      ∙ write_bytes_in (name ++ (0 ∷ [])) (i * 36) d (i * 36 + k) (omega arith)
          (omega (arith, l, length-append name (0 ∷ [])))
      ∙ rw at refl)

-- The loop of `ramfs_finddir` comes to the first entry that is so named.
finddir_loop-first :
    (nodes : ℕ → Node) (name : List ℕ) (d : ℕ → ℕ) (v node n s k : ℕ)
    → s ≤ k
    → k < s + n
    → v ≢ 0
    → inode_at d k ≡ v
    → same_name name (k * dirent_size) d ≡ true
    → find_node nodes v max_files 0 ≡ some node
    → ((j : ℕ)
        → s ≤ j
        → j < k
        → (not (inode_at d j == 0) && same_name name (j * dirent_size) d) ≡ false)
    → finddir_loop nodes name n d s ≡ some node
unfolding finddir_loop
finddir_loop-first nodes name d v node zero s k a b nz e same f h = absurd (omega arith)
finddir_loop-first nodes name d v node (suc n) s k a b nz e same f h = elim (Bool-cases (s == k)) [
  | inl here ↦
      let at : s ≡ k = ground (arith, here) in
      let v_there : (v == 0) ≡ false = ground (arith, nz) in rw (at, e, v_there, same, f) refl
  | inr other ↦
      let miss = h s (omega arith) (ground (arith, other, a)) in
      rw miss (
        finddir_loop-first nodes name d v node n (s + 1) k (ground (arith, other, a)) (omega arith)
          nz e same f (λ j c l. h j (omega arith) l))
]

ramfs_finddir_at :
    (fs : Ramfs) (parent block : ℕ) (name : List ℕ)
    → is_dir (fs.nodes parent).type ≡ true
    → (fs.nodes parent).first_block ≡ block
    → block < max_blocks
    → ramfs_finddir fs parent name
      ≡ ok (finddir_loop fs.nodes name max_entries (fs.content block) 0)
unfolding ramfs_finddir
ramfs_finddir_at fs parent block name dir at low =
    let there : (block == no_block) ≡ false = ground (arith, low) in
    let inside : leb max_blocks block ≡ false = ground (arith, low) in
    rw (dir, at, there, inside) refl

add_to_parent_at :
    (fs : Ramfs) (parent block v i : ℕ) (name : List ℕ)
    → (fs.nodes parent).first_block ≡ block
    → block < max_blocks
    → find_entry max_entries (fs.content block) 0 ≡ some i
    → add_to_parent fs parent name v ≡ ok (put_entry fs parent name v (some i))
unfolding add_to_parent
add_to_parent_at fs parent block v i name at low found =
    let there : (block == no_block) ≡ false = ground (arith, low) in
    let inside : leb max_blocks block ≡ false = ground (arith, low) in
    rw (at, there, inside, found) (rw at refl)

-- A directory with room: `node` is the first free node, `i` the first free entry, and no entry in use has
-- the name.
pub record HasRoom (fs : Ramfs) (parent : ℕ) (name : List ℕ) (block node i : ℕ) : Type 0 where
  pub dir : is_dir (fs.nodes parent).type ≡ true
  pub in_use : (fs.nodes parent).inode_num ≢ 0
  pub block_at : (fs.nodes parent).first_block ≡ block
  pub block_low : block < max_blocks
  pub node_low : node < max_files
  pub node_free : (fs.nodes node).inode_num ≡ 0
  pub node_first : (j : ℕ) → j < node → (fs.nodes j).inode_num ≢ 0
  pub entry_low : i < max_entries
  pub entry_free : inode_at (fs.content block) i ≡ 0
  pub entry_first : (j : ℕ) → j < i → inode_at (fs.content block) j ≢ 0
  pub unlisted :
      (j : ℕ)
      → j < max_entries
      → (not (inode_at (fs.content block) j == 0)
          && same_name name (j * dirent_size) (fs.content block))
        ≡ false

-- The inode number that is given next is one, and no node has it.
pub record FreshInode (fs : Ramfs) : Type 0 where
  pub nonzero : fs.next_inode ≢ 0
  pub small : fs.next_inode < 2 ^ 32
  pub unused : (j : ℕ) → j < max_files → (fs.nodes j).inode_num ≢ fs.next_inode

-- The node of the new file, and the state with it.
abbrev new_file : Ramfs → List ℕ → Node
new_file fs name = record {
  name = name;
  type = type_file;
  size = 0;
  permissions = 6;
  first_block = no_block;
  inode_num = fs.next_inode;
}

abbrev with_node : Ramfs → ℕ → List ℕ → Ramfs
with_node fs node name =
    set_node (record fs { next_inode = (fs.next_inode + 1) % 2 ^ 32 }) node (new_file fs name)

abbrev with_file : Ramfs → ℕ → List ℕ → ℕ → ℕ → Ramfs
with_file fs parent name node i =
    put_entry (with_node fs node name) parent name fs.next_inode (some i)

create_run :
    (fs : Ramfs) (parent node : ℕ) (name : List ℕ) (q : Ramfs)
    → is_dir (fs.nodes parent).type ≡ true
    → find_node fs.nodes 0 max_files 0 ≡ some node
    → leb filename_max (length name) ≡ false
    → add_to_parent (with_node fs node name) parent name fs.next_inode ≡ ok q
    → ramfs_create_file fs parent name ≡ ok (some node, q)
unfolding ramfs_create_file create_file_at new_node
create_run fs parent node name q dir found short added = rw (dir, found, short, added) refl

module _ (fs : Ramfs) (parent : ℕ) (name : List ℕ) (block node i : ℕ)
    (room : HasRoom fs parent name block node i) where
  parent_kept : (with_node fs node name).nodes parent ≡ fs.nodes parent
  parent_kept =
      let off : (parent == node) ≡ false = ground (
        arith,
        room.in_use,
        room.node_free,
        ap (λ k. (fs.nodes k).inode_num) {x = parent} {y = node},
      ) in
      rw off refl

  created :
      length name < filename_max
      → ramfs_create_file fs parent name ≡ ok (some node, with_file fs parent name node i)
  created short =
      create_run fs parent node name (with_file fs parent name node i) room.dir
        (find_node_first fs.nodes 0 max_files 0 node (omega arith) room.node_low room.node_free
          (λ j _ l. room.node_first j l))
        (ground (arith, short))
        (add_to_parent_at (with_node fs node name) parent block fs.next_inode i name
          (ap (λ n. n.first_block) parent_kept ∙ room.block_at) room.block_low
          (find_entry_first (fs.content block) max_entries 0 i (omega arith) room.entry_low
            room.entry_free (λ j _ l. room.entry_first j l)))

  parent_now :
      (with_file fs parent name node i).nodes parent
      ≡ record (fs.nodes parent) { size = ((fs.nodes parent).size + 1) % 2 ^ 32 }
  parent_now =
      let self : (parent == parent) ≡ true = ground arith in
      let bump : Node → Node = λ n. record n { size = (n.size + 1) % 2 ^ 32 } in
      rw self (ap bump parent_kept)

  content_now :
      (with_file fs parent name node i).content block
      ≡ write_entry name fs.next_inode i (fs.content block)
  content_now =
      let at : ((with_node fs node name).nodes parent).first_block ≡ block =
        ap (λ n. n.first_block) parent_kept ∙ room.block_at in
      let self : (block == block) ≡ true = ground arith in rw at (rw self refl)

  -- The other nodes keep their inode numbers.
  inode_kept :
      (j : ℕ)
      → j ≢ node
      → ((with_file fs parent name node i).nodes j).inode_num ≡ (fs.nodes j).inode_num
  inode_kept j h = elim (Bool-cases (j == parent)) [
    | inl e ↦ let at : j ≡ parent = ground (arith, e) in rw at (ap (λ n. n.inode_num) parent_now)
    | inr e ↦ let off : (j == node) ≡ false = ground (arith, h) in rw (e, off) refl
  ]

  inode_new : ((with_file fs parent name node i).nodes node).inode_num ≡ fs.next_inode
  inode_new =
      let off : (node == parent) ≡ false = ground (
        arith,
        room.in_use,
        room.node_free,
        ap (λ k. (fs.nodes k).inode_num) {x = parent} {y = node},
      ) in
      let self : (node == node) ≡ true = ground arith in rw (off, self) refl

  found_node :
      FreshInode fs
      → find_node (with_file fs parent name node i).nodes fs.next_inode max_files 0 ≡ some node
  found_node f =
      find_node_first (with_file fs parent name node i).nodes fs.next_inode max_files 0 node
        (omega arith) room.node_low inode_new
        (λ j _ l e.
          f.unused j (omega (arith, l, room.node_low)) (sym (inode_kept j (omega (arith, l))) ∙ e))

finddir_loop-none :
    (nodes : ℕ → Node) (name : List ℕ) (d : ℕ → ℕ) (n s : ℕ)
    → ((j : ℕ)
        → j < s + n
        → (not (inode_at d j == 0) && same_name name (j * dirent_size) d) ≡ false)
    → finddir_loop nodes name n d s ≡ none
unfolding finddir_loop
finddir_loop-none nodes name d zero s h = refl
finddir_loop-none nodes name d (suc n) s h =
    let miss = h s (omega arith) in
    rw miss (finddir_loop-none nodes name d n (s + 1) (λ j l. h j (omega (arith, l))))

-- Before, no file of the name is found.
pub ramfs_finddir-none :
    (fs : Ramfs) (parent : ℕ) (name : List ℕ) (block node i : ℕ)
    → HasRoom fs parent name block node i
    → ramfs_finddir fs parent name ≡ ok none
ramfs_finddir-none fs parent name block node i room =
    ramfs_finddir_at fs parent block name room.dir room.block_at room.block_low
    ∙ ap ok (
        finddir_loop-none fs.nodes name (fs.content block) max_entries 0 (λ j l. room.unlisted j l))

-- In a directory with room, `ramfs_create_file` with a name that fits makes the first free node an empty
-- file, takes no block, and `ramfs_finddir` finds the node by the name there.
pub ramfs_finddir-ramfs_create_file :
    (fs : Ramfs) (parent : ℕ) (name : List ℕ) (block node i : ℕ)
    → HasRoom fs parent name block node i
    → FreshInode fs
    → length name < filename_max
    → (q : Ramfs) × (ramfs_create_file fs parent name ≡ ok (some node, q))
      × (is_file (q.nodes node).type ≡ true)
      × ((q.nodes node).size ≡ 0)
      × ((q.nodes node).first_block ≡ no_block)
      × (q.free_blocks ≡ fs.free_blocks)
      × (ramfs_finddir q parent name ≡ ok (some node))
ramfs_finddir-ramfs_create_file fs parent name block node i room f short =
    let q = with_file fs parent name node i in
    let d = fs.content block in
    let now = parent_now fs parent name block node i room in
    let off : (node == parent) ≡ false = ground (
      arith,
      room.in_use,
      room.node_free,
      ap (λ k. (fs.nodes k).inode_num) {x = parent} {y = node},
    ) in
    let self : (node == node) ≡ true = ground arith in
    let listed =
      finddir_loop-first q.nodes name (write_entry name fs.next_inode i d) fs.next_inode node
        max_entries 0 i (omega arith) room.entry_low f.nonzero
        (inode_at-here name fs.next_inode i d short f.small)
        (same_name-here name fs.next_inode i d short f.small)
        (found_node fs parent name block node i room f)
        (λ j _ l.
          let before : j ≢ i = omega (arith, l) in
          rw
            (
              inode_at-beside name fs.next_inode i d short f.small j before,
              same_name-beside name fs.next_inode i d short f.small j before,
            )
            (room.unlisted j (omega (arith, l, room.entry_low)))) in
    (
      q,
      created fs parent name block node i room short,
      rw (off, self) refl,
      rw (off, self) refl,
      rw (off, self) refl,
      refl,
      ramfs_finddir_at q parent block name (ap (λ n. is_dir n.type) now ∙ room.dir)
            (ap (λ n. n.first_block) now ∙ room.block_at) room.block_low
          ∙ ap ok (
              ap (λ c. finddir_loop q.nodes name max_entries c 0)
                (content_now fs parent name block node i room)
              ∙ listed),
    )
