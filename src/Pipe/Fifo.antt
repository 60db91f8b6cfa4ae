-- ===== src/Pipe/Fifo.antt =====
-- The bytes that a pipe holds, oldest first, and what one byte in or out does to them.
use simple_os.Prelude.{
  ℕ, zero, suc, ◌+◌, ◌-◌, ◌%◌, ◌≤◌, ◌<◌, ◌≡◌, refl, ◌∙◌, ap, ap₂, List, [], ◌∷◌, ◌++◌, length,
  get_or, set, length-set, get_or-set_self, get_or-set_ne, arith,
}
use simple_os.Pipe.{Pipe, pipe_size, take_byte, put_byte}

pub record IsValid (p : Pipe) : Type 0 where
  pub full_size : length p.buffer ≡ pipe_size
  pub read_in : p.read_pos < pipe_size
  pub write_at : p.write_pos ≡ (p.read_pos + p.count) % pipe_size
  pub fits : p.count ≤ pipe_size

-- The `n` bytes of the ring from position `i` on; positions count on past the end.
abbrev pub ring : List ℕ → ℕ → ℕ → List ℕ
ring buf i zero = []
ring buf i (suc n) = get_or buf (i % pipe_size) 0 ∷ ring buf (i + 1) n

unfoldable pub contents : Pipe → List ℕ
contents p = ring p.buffer p.read_pos p.count

length-ring : (buf : List ℕ) (i n : ℕ) → length (ring buf i n) ≡ n
length-ring buf i zero = refl
length-ring buf i (suc n) = ap suc (length-ring buf (i + 1) n)

pub length-contents : (p : Pipe) → length (contents p) ≡ p.count
unfolding contents
length-contents p = length-ring p.buffer p.read_pos p.count

-- Only the position in the ring matters.
ring_shift :
    (buf : List ℕ) (n i j : ℕ) → i % pipe_size ≡ j % pipe_size → ring buf i n ≡ ring buf j n
ring_shift buf zero i j e = refl
ring_shift buf (suc n) i j e =
    ap₂ ◌∷◌ (ap (λ k. get_or buf k 0) e) (ring_shift buf n (i + 1) (j + 1) (omega arith))

-- A byte written past `n` bytes of the ring, where there is room, follows them.
ring_put :
    (n : ℕ) (buf : List ℕ) (i w b : ℕ)
    → length buf ≡ pipe_size
    → n < pipe_size
    → w ≡ (i + n) % pipe_size
    → ring (set buf w b) i (suc n) ≡ ring buf i n ++ b ∷ []
ring_put zero buf i w b len room at =
    ap (λ x. x ∷ [])
      (ap (λ k. get_or (set buf w b) k 0) (omega arith) ∙ get_or-set_self buf w b 0 (omega arith))
ring_put (suc n) buf i w b len room at =
    ap₂ ◌∷◌ (get_or-set_ne buf w (i % pipe_size) b 0 (omega arith))
      (ring_put n buf (i + 1) w b len (omega arith) (omega arith))

pub take_byte-IsValid : {p : Pipe} → IsValid p → 0 < p.count → IsValid (take_byte p)
unfolding take_byte
take_byte-IsValid v h = omega arith

pub put_byte-IsValid : {p : Pipe} (b : ℕ) → IsValid p → p.count < pipe_size → IsValid (put_byte p b)
unfolding put_byte
put_byte-IsValid {p} b v h = record {
  full_size = length-set p.buffer p.write_pos b ∙ v.full_size;
  read_in = v.read_in;
  write_at = omega arith;
  fits = omega arith;
}

pub contents-put_byte :
    {p : Pipe} (b : ℕ)
    → IsValid p
    → p.count < pipe_size
    → contents (put_byte p b) ≡ contents p ++ b ∷ []
unfolding put_byte contents
contents-put_byte {p} b v h =
    ap (ring (set p.buffer p.write_pos b) p.read_pos)
      (let e : p.count + 1 ≡ suc p.count = omega arith in e)
    ∙ ring_put p.count p.buffer p.read_pos p.write_pos b v.full_size h v.write_at

pub contents-take_byte :
    {p : Pipe}
    → IsValid p
    → 0 < p.count
    → contents p ≡ get_or p.buffer p.read_pos 0 ∷ contents (take_byte p)
unfolding take_byte contents
contents-take_byte {p} v h =
    ap (ring p.buffer p.read_pos) (let e : p.count ≡ suc (p.count - 1) = omega arith in e)
    ∙ ap₂ ◌∷◌
        (ap (λ k. get_or p.buffer k 0)
          (let e : p.read_pos % pipe_size ≡ p.read_pos = omega (arith, v.read_in) in e))
        (ring_shift p.buffer (p.count - 1) (p.read_pos + 1) ((p.read_pos + 1) % pipe_size)
          (omega arith))
