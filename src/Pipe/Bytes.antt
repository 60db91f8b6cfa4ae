-- ===== src/Pipe/Bytes.antt =====
-- `pipe_read` and `pipe_write` move the bytes of a first-in first-out queue.
use simple_os.Prelude.{
  ℕ, zero, suc, ◌+◌, ◌-◌, ◌≤◌, ◌<◌, ◌≡◌, refl, ◌∙◌, ap, ap₂, sym, ◌==◌, if◌then◌else◌, ◌||◌, Bool,
  true, false, List, [], ◌∷◌, ◌++◌, length, length-append, get_or, take, drop, arith, Bool-cases,
  inl, inr, leb,
}
use mathlib.Core.List.{append_assoc, append-nil}
use simple_os.Pipe.{
  Pipe, pipe_size, Transfer, error, returned, blocked, take_byte, read_loop, pipe_read, put_byte,
  write_loop, pipe_write,
}
use simple_os.Pipe.Fifo.{
  IsValid, contents, length-contents, take_byte-IsValid, put_byte-IsValid, contents-take_byte,
  contents-put_byte,
}

empty_lem : (n : ℕ) (xs : List ℕ) → length xs ≡ 0 → (take n xs ≡ []) × (drop n xs ≡ xs)
empty_lem zero [] h = (refl, refl)
empty_lem (suc n) [] h = (refl, refl)
empty_lem n (x ∷ xs) h = absurd (omega arith)

contents_empty :
    (p : Pipe) (n : ℕ)
    → p.count ≡ 0
    → (take n (contents p) ≡ []) × (drop n (contents p) ≡ contents p)
contents_empty p n h = empty_lem n (contents p) (length-contents p ∙ h)

-- What a read of `n` bytes comes to: `xs` and the pipe after it, returned or still waiting.
abbrev finish : Bool → List ℕ → Pipe → Transfer
finish done xs q = if done then returned xs q else blocked xs q

-- Taking one byte and then `n` is taking `n + 1`.
read_step :
    (n : ℕ) (out : List ℕ) (p : Pipe)
    → IsValid p
    → 0 < p.count
    → (out ++ take (suc n) (contents p)
        ≡ (out ++ get_or p.buffer p.read_pos 0 ∷ []) ++ take n (contents (take_byte p)))
      × (drop (suc n) (contents p) ≡ drop n (contents (take_byte p)))
read_step n out p v h =
    let e = contents-take_byte v h in
    (
      ap (λ xs. out ++ take (suc n) xs) e
          ∙ sym (
              append_assoc out (get_or p.buffer p.read_pos 0 ∷ [])
                (take n (contents (take_byte p)))),
      ap (drop (suc n)) e,
    )

read_loop_lem :
    (n : ℕ) (out : List ℕ) (p : Pipe)
    → IsValid p
    → (q : Pipe) × (read_loop n out p
        ≡ finish (p.writer_closed || leb n p.count) (out ++ take n (contents p)) q)
      × IsValid q
      × (contents q ≡ drop n (contents p))
unfolding read_loop take_byte
read_loop_lem zero out p v = (
  p,
  sym (
      ap₂ (λ c xs. finish c xs p)
        (let c : (p.writer_closed || leb 0 p.count) ≡ true = ground arith in c) (append-nil out)),
  v,
  refl,
)
read_loop_lem (suc n) out p v = elim (Bool-cases (p.count == 0)) [
  | inl e ↦
      let (t, d) = contents_empty p (suc n) (ground arith) in
      let c : (p.writer_closed || leb (suc n) p.count) ≡ p.writer_closed = ground arith in
      (
        p,
        ap
              (λ c.
                if c
                then (if p.writer_closed then returned out p else blocked out p)
                else read_loop n (out ++ get_or p.buffer p.read_pos 0 ∷ []) (take_byte p))
              e
            ∙ sym (ap₂ (λ c xs. finish c xs p) c (ap (λ xs. out ++ xs) t ∙ append-nil out)),
        v,
        sym d,
      )
  | inr e ↦
      let h : 0 < p.count = ground arith in
      let (q, f, w, l) =
        read_loop_lem n (out ++ get_or p.buffer p.read_pos 0 ∷ []) (take_byte p)
          (take_byte-IsValid v h) in
      let (t, d) = read_step n out p v h in
      let c : leb (suc n) p.count ≡ leb n (p.count - 1) = ground arith in
      (
        q,
        ap
              (λ c.
                if c
                then (if p.writer_closed then returned out p else blocked out p)
                else read_loop n (out ++ get_or p.buffer p.read_pos 0 ∷ []) (take_byte p))
              e
            ∙ f
            ∙ sym (ap₂ (λ c xs. finish (p.writer_closed || c) xs q) c t),
        w,
        l ∙ sym d,
      )
]

-- Putting one byte and then more.
write_step :
    (b : ℕ) (bs out : List ℕ) (p : Pipe)
    → IsValid p
    → p.count < pipe_size
    → (out ++ take (pipe_size - p.count) (b ∷ bs)
        ≡ (out ++ b ∷ []) ++ take (pipe_size - (p.count + 1)) bs)
      × (contents p ++ take (pipe_size - p.count) (b ∷ bs)
          ≡ contents (put_byte p b) ++ take (pipe_size - (p.count + 1)) bs)
write_step b bs out p v h =
    let k : pipe_size - p.count ≡ suc (pipe_size - (p.count + 1)) = omega arith in
    let rest = take (pipe_size - (p.count + 1)) bs in
    (
      ap (λ k. out ++ take k (b ∷ bs)) k ∙ sym (append_assoc out (b ∷ []) rest),
      ap (λ k. contents p ++ take k (b ∷ bs)) k
          ∙ sym (append_assoc (contents p) (b ∷ []) rest)
          ∙ ap (λ xs. xs ++ rest) (sym (contents-put_byte b v h)),
    )

write_loop_lem :
    (bs out : List ℕ) (p : Pipe)
    → IsValid p
    → (q : Pipe) × (write_loop bs out p
        ≡ finish (leb (length bs) (pipe_size - p.count)) (out ++ take (pipe_size - p.count) bs) q)
      × IsValid q
      × (contents q ≡ contents p ++ take (pipe_size - p.count) bs)
      × (q.reader_closed ≡ p.reader_closed)
unfolding write_loop put_byte
write_loop_lem [] out p v =
    let (t, _) = empty_lem (pipe_size - p.count) [] refl in
    let c : leb 0 (pipe_size - p.count) ≡ true = ground arith in
    (
      p,
      sym (ap₂ (λ c xs. finish c xs p) c (ap (λ xs. out ++ xs) t ∙ append-nil out)),
      v,
      sym (ap (λ xs. contents p ++ xs) t ∙ append-nil (contents p)),
      refl,
    )
write_loop_lem (b ∷ bs) out p v = elim (Bool-cases (p.count == pipe_size)) [
  | inl e ↦
      let t : take (pipe_size - p.count) (b ∷ bs) ≡ [] =
        ap (λ k. take k (b ∷ bs)) (let k : pipe_size - p.count ≡ 0 = ground arith in k) in
      let c : leb (suc (length bs)) (pipe_size - p.count) ≡ false = ground arith in
      (
        p,
        ap (λ c. if c then blocked out p else write_loop bs (out ++ b ∷ []) (put_byte p b)) e
            ∙ sym (ap₂ (λ c xs. finish c xs p) c (ap (λ xs. out ++ xs) t ∙ append-nil out)),
        v,
        sym (ap (λ xs. contents p ++ xs) t ∙ append-nil (contents p)),
        refl,
      )
  | inr e ↦
      let h : p.count < pipe_size = ground (arith, v.fits) in
      let (q, f, w, l, r) =
        write_loop_lem bs (out ++ b ∷ []) (put_byte p b) (put_byte-IsValid b v h) in
      let (t, d) = write_step b bs out p v h in
      let c : leb (suc (length bs)) (pipe_size - p.count)
          ≡ leb (length bs) (pipe_size - (p.count + 1)) =
        ground arith in
      (
        q,
        ap (λ c. if c then blocked out p else write_loop bs (out ++ b ∷ []) (put_byte p b)) e
            ∙ f
            ∙ sym (ap₂ (λ c xs. finish c xs q) c t),
        w,
        l ∙ sym d,
        r,
      )
]

-- A read of `n` bytes gives the oldest `n` bytes of the pipe, or all it holds where it holds fewer,
-- and leaves the others in order. It returns where the pipe held enough, or where the writer has
-- closed, and waits otherwise. With the reader closed it is an error.
pub pipe_read_lem :
    (p : Pipe) (n : ℕ)
    → IsValid p
    → (q : Pipe) × (pipe_read p n ≡ (
        if p.reader_closed
        then error
        else (if p.writer_closed || leb n p.count
            then returned (take n (contents p)) q
            else blocked (take n (contents p)) q)))
      × IsValid q
      × (contents q ≡ drop n (contents p))
unfolding pipe_read
pipe_read_lem p n v =
    let (q, f, w, l) = read_loop_lem n [] p v in
    (q, ap (λ t. if p.reader_closed then error else t) f, w, l)

-- A write puts the bytes after those that the pipe holds, as many as there is room for. It returns
-- where all fitted, and waits otherwise. With either end closed it is an
-- error. The reader's end stays as it was.
pub pipe_write_lem :
    (p : Pipe) (bytes : List ℕ)
    → IsValid p
    → (q : Pipe) × (pipe_write p bytes ≡ (
        if p.writer_closed || p.reader_closed
        then error
        else (if leb (length bytes) (pipe_size - p.count)
            then returned (take (pipe_size - p.count) bytes) q
            else blocked (take (pipe_size - p.count) bytes) q)))
      × IsValid q
      × (contents q ≡ contents p ++ take (pipe_size - p.count) bytes)
      × (q.reader_closed ≡ p.reader_closed)
unfolding pipe_write
pipe_write_lem p bytes v =
    let (q, f, w, l, r) = write_loop_lem bytes [] p v in
    (q, ap (λ t. if p.writer_closed || p.reader_closed then error else t) f, w, l, r)

take-length : (xs : List ℕ) (n : ℕ) → length xs ≤ n → (take n xs ≡ xs) × (drop n xs ≡ [])
take-length [] zero h = (refl, refl)
take-length [] (suc n) h = (refl, refl)
take-length (x ∷ xs) zero h = absurd (omega arith)
take-length (x ∷ xs) (suc n) h =
    let (t, d) = take-length xs n (omega arith) in (ap (λ ys. x ∷ ys) t, d)

-- With both ends open, bytes that fit are written, and a read of as many bytes as the pipe then
-- holds gives what it held before, followed by those bytes, and leaves it empty.
pub pipe_read-pipe_write :
    (p : Pipe) (bytes : List ℕ)
    → IsValid p
    → p.reader_closed ≡ false
    → p.writer_closed ≡ false
    → p.count + length bytes ≤ pipe_size
    → (q r : Pipe) × (pipe_write p bytes ≡ returned bytes q)
      × (pipe_read q (p.count + length bytes) ≡ returned (contents p ++ bytes) r)
      × (contents r ≡ [])
      × IsValid r
pipe_read-pipe_write p bytes v open_r open_w fits =
    let (q, f, w, l, c) = pipe_write_lem p bytes v in
    let (r, g, x, d) = pipe_read_lem q (p.count + length bytes) w in
    let (t, _) = take-length bytes (pipe_size - p.count) (omega arith) in
    let held : contents q ≡ contents p ++ bytes = l ∙ ap (λ xs. contents p ++ xs) t in
    let size : q.count ≡ p.count + length bytes =
      sym (length-contents q)
      ∙ ap length held
      ∙ length-append (contents p) bytes
      ∙ ap (λ n. n + length bytes) (length-contents p) in
    let (t', d') =
      take-length (contents q) (p.count + length bytes) (omega (arith, size, length-contents q)) in
    let ends : (p.writer_closed || p.reader_closed) ≡ false = ground arith in
    let room : leb (length bytes) (pipe_size - p.count) ≡ true = ground arith in
    let enough : (q.writer_closed || leb (p.count + length bytes) q.count) ≡ true = ground arith in
    let end : q.reader_closed ≡ false = c ∙ open_r in
    (q, r, rw (f, ends, room, t) refl, rw (g, end, enough, t', held) refl, d ∙ d', x)
