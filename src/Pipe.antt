-- ===== src/Pipe.antt =====
-- src/ipc/pipe.c: a ring of PIPE_SIZE bytes between a reader and a writer. `kmalloc` panics where it
-- has no memory, so `pipe_create` starts from the block it returns. The two loops spin where the
-- pipe is empty or full, until another context changes it; such a wait is the result `blocked`,
-- with the pipe and what is left to do.
pub mod Fifo
pub mod Bytes
mod Tests
use simple_os.Prelude.{
  ℕ, zero, suc, ◌+◌, ◌-◌, ◌%◌, ◌==◌, if◌then◌else◌, ◌||◌, Bool, true, false, List, [], ◌∷◌, ◌++◌,
  get_or, set,
}

abbrev pub pipe_size : ℕ
pipe_size = 4096

pub record Pipe : Type 0 where
  pub buffer : List ℕ
  pub read_pos : ℕ
  pub write_pos : ℕ
  pub count : ℕ
  pub reader_closed : Bool
  pub writer_closed : Bool

-- What a read or a write comes to: -1, the return with the bytes moved, or a wait with the bytes
-- moved so far.
pub data Transfer : Type 0 where
  error : Transfer
  returned : List ℕ → Pipe → Transfer
  blocked : List ℕ → Pipe → Transfer

-- `buffer` is what the memory from `kmalloc` holds.
unfoldable pub pipe_create : List ℕ → Pipe
pipe_create buffer = record {
  buffer = buffer;
  read_pos = 0;
  write_pos = 0;
  count = 0;
  reader_closed = false;
  writer_closed = false;
}

unfoldable pub pipe_destroy : Pipe → Pipe
pipe_destroy p = record p { reader_closed = true; writer_closed = true }

-- One round of the loop of `pipe_read` that takes a byte.
unfoldable pub take_byte : Pipe → Pipe
take_byte p = record p { read_pos = (p.read_pos + 1) % pipe_size; count = p.count - 1 }

-- The loop with `n` bytes still wanted and `out` read. `count` is not 0 where it goes down.
unfoldable pub read_loop : ℕ → List ℕ → Pipe → Transfer
read_loop zero out p = returned out p
read_loop (suc n) out p =
    let rest = read_loop n (out ++ get_or p.buffer p.read_pos 0 ∷ []) (take_byte p) in
    if p.count == 0 then (if p.writer_closed then returned out p else blocked out p) else rest

unfoldable pub pipe_read : Pipe → ℕ → Transfer
pipe_read p n = if p.reader_closed then error else read_loop n [] p

unfoldable pub put_byte : Pipe → ℕ → Pipe
put_byte p b = record p {
  buffer = set p.buffer p.write_pos b;
  write_pos = (p.write_pos + 1) % pipe_size;
  count = p.count + 1;
}

-- The loop over the bytes that are still to be written, with `out` written.
unfoldable pub write_loop : List ℕ → List ℕ → Pipe → Transfer
write_loop [] out p = returned out p
write_loop (b ∷ bs) out p =
    let rest = write_loop bs (out ++ b ∷ []) (put_byte p b) in
    if p.count == pipe_size then blocked out p else rest

unfoldable pub pipe_write : Pipe → List ℕ → Transfer
pipe_write p bytes = if p.writer_closed || p.reader_closed then error else write_loop bytes [] p
