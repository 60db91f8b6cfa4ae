-- ===== src/Fs/Ready.antt =====
-- Small file systems, for the tests of this part and of its clients.
use simple_os.Prelude.{refl, ◌==◌, if◌then◌else◌, [], ◌∷◌, replicate, arith}
use simple_os.Fs.{Ramfs, type_file, type_dir, no_block}
use simple_os.Fs.Read.{FileAt}
use simple_os.Fs.Dir.{HasRoom, FreshInode}
use simple_os.Fs.Create.{hello_name}

-- Node 1 is a file without blocks.
abbrev pub one_file : Ramfs
one_file = record {
  nodes = λ i. record {
    name = [];
    type = if i == 1 then type_file else type_dir;
    size = 0;
    permissions = 6;
    first_block = no_block;
    inode_num = i;
  };
  content = λ b i. 0;
  next_block = λ b. 0;
  free_blocks = replicate 32 0;
  next_inode = 7;
}

pub one_file-FileAt : FileAt one_file 1 []
one_file-FileAt = record { file = refl; chained = refl; covered = omega arith }

-- Node 0 is an empty directory with block 0, and no other node is in use.
abbrev pub one_dir : Ramfs
one_dir = record {
  nodes = λ i. record {
    name = [];
    type = type_dir;
    size = 0;
    permissions = 7;
    first_block = 0;
    inode_num = if i == 0 then 1 else 0;
  };
  content = λ b i. 0;
  next_block = λ b. no_block;
  free_blocks = 1 ∷ replicate 31 0;
  next_inode = 2;
}

pub one_dir-HasRoom : HasRoom one_dir 0 hello_name 0 1 0
one_dir-HasRoom = record {
  dir = refl;
  in_use = omega arith;
  block_at = refl;
  block_low = omega arith;
  node_low = omega arith;
  node_free = refl;
  node_first = λ j l. ground (arith, l);
  entry_low = omega arith;
  entry_free = refl;
  entry_first = λ j l. absurd (omega (arith, l));
  unlisted = λ j l. refl;
}

pub one_dir-FreshInode : FreshInode one_dir
one_dir-FreshInode = record {
  nonzero = omega arith;
  small = omega arith;
  unused = λ j l. ground arith;
}
