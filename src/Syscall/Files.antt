-- ===== src/Syscall/Files.antt =====
-- Reads and writes of files through descriptors.
use simple_os.Prelude.{
  ℕ, zero, suc, ◌+◌, ◌%◌, ◌^◌, ◌≤◌, ◌<◌, ◌≡◌, ◌≢◌, refl, sym, ap, subst, ◌∙◌, ◌⊎◌, inl, inr, ◌==◌,
  ltb, ◌&&◌, Bool-cases, true, false, List, [], ◌∷◌, length, take, Option, none, some, arith, ok,
}
use simple_os.Fs.{Ramfs, ramfs_write, ramfs_read}
use simple_os.Fs.Read.{FileAt}
use simple_os.Fs.Grow.{Full}
use simple_os.Fs.Touched.{Saved}
use simple_os.Fs.File.{ramfs_write_lem, ramfs_read-ramfs_write}
use simple_os.Lifecycle.{FdEntry, max_fds}
use simple_os.Syscall.{
  Os, returns, minus_one, as_int, get_fd_table, fd_at, set_fd, moved, wrote_file, read_file,
  write_node, read_node, sys_write, sys_read,
}

-- Descriptor `fd` of the current process stands at `offset` of the file `node`.
pub record IsFile (os : Os) (fd node offset : ℕ) : Type 0 where
  pub past_standard : 2 < fd
  pub inside : fd < max_fds
  pub has_table : get_fd_table os ≢ 0
  pub no_pipe : (fd_at os (get_fd_table os) fd).is_pipe ≡ false
  pub at_node : (fd_at os (get_fd_table os) fd).node ≡ some node
  pub at_offset : (fd_at os (get_fd_table os) fd).offset ≡ offset

as_int-small : (n : ℕ) → n < 2 ^ 31 → as_int n ≡ n
as_int-small n h =
    let low : ltb (n % 2 ^ 32) (2 ^ 31) ≡ true = ground (arith, h) in rw low (omega arith)

write_to_file :
    (os : Os) (fd node offset buf_ptr : ℕ) (buf : List ℕ) (o : Option ℕ) (q : Ramfs)
    → IsFile os fd node offset
    → buf_ptr ≢ 0
    → length buf ≢ 0
    → take (length buf % 2 ^ 32) buf ≡ buf
    → ramfs_write os.fs node offset buf ≡ ok (o, q)
    → sys_write os fd buf_ptr buf ≡ ok (wrote_file (record os { fs = q }) (get_fd_table os) fd o)
unfolding sys_write write_node
write_to_file os fd node offset buf_ptr buf o q f p nz whole w =
    let p0 : (buf_ptr == 0) ≡ false = ground (arith, p) in
    let l0 : (length buf == 0) ≡ false = ground (arith, nz) in
    let f1 : (fd == 1) ≡ false = ground (arith, f.past_standard) in
    let f2 : (fd == 2) ≡ false = ground (arith, f.past_standard) in
    let t0 : (get_fd_table os == 0) ≡ false = ground (arith, f.has_table) in
    let low : ltb fd max_fds ≡ true = ground (arith, f.inside) in
    rw (p0, l0, f1, f2, t0, low, f.no_pipe) (rw (f.at_node, whole, f.at_offset) (rw w refl))

read_from_file :
    (os : Os) (fd node offset buf_ptr count : ℕ) (o : Option (List ℕ))
    → IsFile os fd node offset
    → buf_ptr ≢ 0
    → count ≢ 0
    → count < 2 ^ 32
    → ramfs_read os.fs node offset count ≡ ok o
    → sys_read os fd buf_ptr count ≡ ok (read_file os (get_fd_table os) fd o)
unfolding sys_read read_node
read_from_file os fd node offset buf_ptr count o f p nz small r =
    let p0 : (buf_ptr == 0) ≡ false = ground (arith, p) in
    let l0 : (count == 0) ≡ false = ground (arith, nz) in
    let f0 : (fd == 0) ≡ false = ground (arith, f.past_standard) in
    let t0 : (get_fd_table os == 0) ≡ false = ground (arith, f.has_table) in
    let low : ltb fd max_fds ≡ true = ground (arith, f.inside) in
    let same : count % 2 ^ 32 ≡ count = omega arith in
    rw (p0, l0, f0, t0, low, f.no_pipe) (rw (f.at_node, same, f.at_offset) (rw r refl))

-- A change of the file system alone.
pub fs-IsFile :
    (os : Os) (fd node offset : ℕ) (q : Ramfs)
    → IsFile os fd node offset
    → IsFile (record os { fs = q }) fd node offset
unfolding get_fd_table
fs-IsFile os fd node offset q f = record {
  past_standard = f.past_standard;
  inside = f.inside;
  has_table = f.has_table;
  no_pipe = f.no_pipe;
  at_node = f.at_node;
  at_offset = f.at_offset;
}

set_fd-IsFile :
    (os : Os) (fd node offset : ℕ) (e : FdEntry)
    → IsFile os fd node offset
    → e.is_pipe ≡ false
    → e.node ≡ some node
    → IsFile (set_fd os (get_fd_table os) fd e) fd node e.offset
unfolding get_fd_table
set_fd-IsFile os fd node offset e f pipe at =
    let t : ℕ = get_fd_table os in
    let table : (t == t) ≡ true = ground arith in
    let self : (fd == fd) ≡ true = ground arith in
    record {
      past_standard = f.past_standard;
      inside = f.inside;
      has_table = f.has_table;
      no_pipe = rw table (rw self pipe);
      at_node = rw table (rw self at);
      at_offset = rw table (rw self refl);
    }

pub other-IsFile :
    (os : Os) (fd a node offset : ℕ) (e : FdEntry)
    → fd ≢ a
    → IsFile os fd node offset
    → IsFile (set_fd os (get_fd_table os) a e) fd node offset
unfolding get_fd_table
other-IsFile os fd a node offset e off f =
    let t : ℕ = get_fd_table os in
    let table : (t == t) ≡ true = ground arith in
    let miss : (fd == a) ≡ false = ground (arith, off) in
    record {
      past_standard = f.past_standard;
      inside = f.inside;
      has_table = f.has_table;
      no_pipe = rw table (rw miss f.no_pipe);
      at_node = rw table (rw miss f.at_node);
      at_offset = rw table (rw miss f.at_offset);
    }

-- What a descriptor moves by.
moved-IsFile :
    (os : Os) (fd node offset k : ℕ)
    → k < 2 ^ 31
    → offset + k < 2 ^ 32
    → IsFile os fd node offset
    → IsFile (moved os (get_fd_table os) fd k) fd node (offset + k)
      × ((b : ℕ)
          → b ≢ fd
          → (at : ℕ) → IsFile os b node at
          → IsFile (moved os (get_fd_table os) fd k) b node at)
moved-IsFile os fd node offset k small fits f =
    elim (Bool-cases (ltb 0 (k % 2 ^ 32) && ltb (k % 2 ^ 32) (2 ^ 31))) [
      | inl e ↦
          let now : ((fd_at os (get_fd_table os) fd).offset + k) % 2 ^ 32 ≡ offset + k =
            ap (λ o. (o + k) % 2 ^ 32) f.at_offset ∙ omega arith in
          let new : FdEntry = record (fd_at os (get_fd_table os) fd) {
            offset = ((fd_at os (get_fd_table os) fd).offset + k) % 2 ^ 32;
          } in
          rw e (
            subst (IsFile (set_fd os (get_fd_table os) fd new) fd node) now
                (set_fd-IsFile os fd node offset new f f.no_pipe f.at_node),
            λ b off at g. other-IsFile os b fd node at new off g,
          )
      | inr e ↦
          let none_moved : k ≡ 0 = ground (arith, e) in
          rw e (
            subst (IsFile os fd node) (let s : offset ≡ offset + k = omega (arith, none_moved) in s)
                f,
            λ b off at g. g,
          )
    ]

length-take : (k : ℕ) (xs : List ℕ) → k ≤ length xs → length (take k xs) ≡ k
length-take zero xs h = refl
length-take (suc k) [] h = absurd (omega arith)
length-take (suc k) (x ∷ xs) h = omega (arith, length-take k xs (omega arith))

take-length : (xs : List ℕ) → take (length xs) xs ≡ xs
take-length [] = refl
take-length (x ∷ xs) = ap (λ z. x ∷ z) (take-length xs)

moved-fs : (os : Os) (table fd n : ℕ) → (moved os table fd n).fs ≡ os.fs
moved-fs os table fd n = elim (Bool-cases (ltb 0 (n % 2 ^ 32) && ltb (n % 2 ^ 32) (2 ^ 31))) [
  | inl e ↦ rw e refl
  | inr e ↦ rw e refl
]

-- The read of `k` bytes, which may be none.
read_back :
    (os : Os) (b node offset read_ptr k : ℕ) (buf : List ℕ)
    → IsFile os b node offset
    → read_ptr ≢ 0
    → k < 2 ^ 31
    → offset + k < 2 ^ 32
    → k ≤ length buf
    → ramfs_read os.fs node offset k ≡ ok (some (take k buf))
    → (r : Os) × (sys_read os b read_ptr k ≡ ok (returns k (take k buf) r))
      × IsFile r b node (offset + k)
      × ((c : ℕ) → c ≢ b → (at : ℕ) → IsFile os c node at → IsFile r c node at)
unfolding sys_read
read_back os b node offset read_ptr zero buf f p small fits h r =
    let p0 : (read_ptr == 0) ≡ false = ground (arith, p) in
    (
      os,
      rw p0 refl,
      subst (IsFile os b node) (let s : offset ≡ offset + 0 = omega arith in s) f,
      λ c off at g. g,
    )
read_back os b node offset read_ptr (suc k) buf f p small fits h r =
    let long : length (take (suc k) buf) ≡ suc k = length-take (suc k) buf h in
    let (here, others) = moved-IsFile os b node offset (suc k) small fits f in
    (
      moved os (get_fd_table os) b (suc k),
      read_from_file os b node offset read_ptr (suc k) (some (take (suc k) buf)) f p (omega arith)
            (omega (arith, small)) r
          ∙ ap (λ n. ok (returns (as_int n) (take (suc k) buf) (moved os (get_fd_table os) b n)))
              long
          ∙ ap (λ n. ok (returns n (take (suc k) buf) (moved os (get_fd_table os) b (suc k))))
              (as_int-small (suc k) small),
      here,
      others,
    )

-- Two descriptors of a process at the same place of a file: a write through the one returns -1, only if no
-- block is left, or the number of bytes it has written, all unless no block is left; as many bytes read
-- through the other are those that were written, and both have moved by them.
pub sys_read-sys_write :
    (os : Os) (a b node offset buf_ptr read_ptr : ℕ) (bs buf : List ℕ)
    → a ≢ b
    → IsFile os a node offset
    → IsFile os b node offset
    → FileAt os.fs node bs
    → length os.fs.free_blocks ≡ 32
    → buf_ptr ≢ 0
    → read_ptr ≢ 0
    → length buf ≢ 0
    → length buf < 2 ^ 31
    → offset + length buf < 2 ^ 32
    → ((q : Os) × (sys_write os a buf_ptr buf ≡ ok (returns minus_one [] q)) × Full q.fs)
      ⊎ ((k : ℕ) × (q r : Os) × (sys_write os a buf_ptr buf ≡ ok (returns k [] q))
          × ((k ≡ length buf) ⊎ Full q.fs)
          × (sys_read q b read_ptr k ≡ ok (returns k (take k buf) r))
          × IsFile r a node (offset + k)
          × IsFile r b node (offset + k))
unfolding get_fd_table
sys_read-sys_write os a b node offset buf_ptr read_ptr bs buf apart fa fb f w p1 p2 nz small fits =
    let (o, q, ext, e, t, saved) = ramfs_write_lem os.fs node bs offset buf w fits f in
    let same : length buf % 2 ^ 32 ≡ length buf = omega (arith, small) in
    let whole : take (length buf % 2 ^ 32) buf ≡ buf =
      ap (λ n. take n buf) same ∙ take-length buf in
    done o q ext e saved (write_to_file os a node offset buf_ptr buf o q fa p1 nz whole e)
  where
    done :
        (o : Option ℕ) (q : Ramfs) (ext : List ℕ)
        → ramfs_write os.fs node offset buf ≡ ok (o, q)
        → Saved os.fs node bs offset buf o q ext
        → sys_write os a buf_ptr buf ≡ ok (wrote_file (record os { fs = q }) (get_fd_table os) a o)
        → ((q : Os) × (sys_write os a buf_ptr buf ≡ ok (returns minus_one [] q)) × Full q.fs)
          ⊎ ((k : ℕ) × (q r : Os) × (sys_write os a buf_ptr buf ≡ ok (returns k [] q))
              × ((k ≡ length buf) ⊎ Full q.fs)
              × (sys_read q b read_ptr k ≡ ok (returns k (take k buf) r))
              × IsFile r a node (offset + k)
              × IsFile r b node (offset + k))
    done none q ext e saved run = inl (record os { fs = q }, run, saved.0)
    done (some k) q ext e saved run =
        let low : k < 2 ^ 31 = omega (arith, saved.0) in
        let top : offset + k < 2 ^ 32 = omega (arith, saved.0) in
        let p : Os = record os { fs = q } in
        let m : Os = moved p (get_fd_table p) a k in
        let kept : m.fs ≡ q = moved-fs p (get_fd_table p) a k in
        let (here, others) =
          moved-IsFile p a node offset k low top (fs-IsFile os a node offset q fa) in
        let there = others b (λ same. apart (sym same)) offset (fs-IsFile os b node offset q fb) in
        let back : ramfs_read m.fs node offset k ≡ ok (some (take k buf)) =
          ap (λ g. ramfs_read g node offset k) kept
          ∙ ramfs_read-ramfs_write os.fs node bs offset buf k q w fits f e in
        let (r, read, at_b, keep) =
          read_back m b node offset read_ptr k buf there p2 low top saved.0 back in
        inr (
          k,
          m,
          r,
          run ∙ ap (λ n. ok (returns n [] m)) (as_int-small k low),
          elim saved.1 [ inl all ↦ inl all | inr full ↦ inr (subst Full (sym kept) full) ],
          read,
          keep a apart (offset + k) here,
          at_b,
        )
