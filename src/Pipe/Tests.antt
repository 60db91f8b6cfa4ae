-- ===== src/Pipe/Tests.antt =====
-- An empty pipe whose next byte goes to the last place of the ring.
use simple_os.Prelude.{
  ℕ, ◌-◌, ◌≡◌, refl, if◌then◌else◌, ◌||◌, false, List, [], ◌∷◌, ◌++◌, replicate, length-replicate,
  take, drop, leb, arith,
}
use simple_os.Pipe.{
  Pipe, pipe_size, pipe_create, pipe_destroy, error, returned, blocked, pipe_read, read_loop,
  pipe_write,
}
use simple_os.Pipe.Fifo.{IsValid, contents}
use simple_os.Pipe.Bytes.{pipe_read_lem, pipe_write_lem, pipe_read-pipe_write}

abbrev last_place : Pipe
last_place = record {
  buffer = replicate 4096 0;
  read_pos = 4095;
  write_pos = 4095;
  count = 0;
  reader_closed = false;
  writer_closed = false;
}

last_place-IsValid : IsValid last_place
last_place-IsValid = record {
  full_size = length-replicate 4096 (let z : ℕ = 0 in z);
  read_in = omega arith;
  write_at = refl;
  fits = omega arith;
}

abbrev word : List ℕ
word = 104 ∷ 105 ∷ []

destroy_read : pipe_read (pipe_destroy (pipe_create (replicate 4096 0))) 1 ≡ error
unfolding pipe_read pipe_destroy pipe_create
destroy_read = refl

empty_wait : pipe_read last_place 1 ≡ blocked [] last_place
unfolding pipe_read read_loop
empty_wait = refl

pipe_write_lem_example :
    (q : Pipe) × (pipe_write last_place word ≡ (
      if false || false
      then error
      else (if leb 2 (pipe_size - 0)
          then returned (take (pipe_size - 0) word) q
          else blocked (take (pipe_size - 0) word) q)))
    × IsValid q
    × (contents q ≡ contents last_place ++ take (pipe_size - 0) word)
    × (q.reader_closed ≡ false)
pipe_write_lem_example = pipe_write_lem last_place word last_place-IsValid

pipe_read_lem_example :
    (q : Pipe) × (pipe_read last_place 2 ≡ (
      if false
      then error
      else (if false || leb 2 0
          then returned (take 2 (contents last_place)) q
          else blocked (take 2 (contents last_place)) q)))
    × IsValid q
    × (contents q ≡ drop 2 (contents last_place))
pipe_read_lem_example = pipe_read_lem last_place 2 last_place-IsValid

pipe_read-pipe_write_example :
    (q r : Pipe) × (pipe_write last_place word ≡ returned word q)
    × (pipe_read q 2 ≡ returned (contents last_place ++ word) r)
    × (contents r ≡ [])
    × IsValid r
pipe_read-pipe_write_example =
    pipe_read-pipe_write last_place word last_place-IsValid refl refl (omega arith)
