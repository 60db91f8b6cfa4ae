-- ===== src/Vt/Text.antt =====
-- Text written to a terminal stays in its buffer, but for what follows a backspace.
use simple_os.Prelude.{
  ℕ, ◌+◌, ◌*◌, ◌/◌, ◌%◌, ◌^◌, bit_or, get_or-set_self, get_or-set_ne, ◌<◌, ◌≡◌, ◌≢◌, refl, sym, ◌∙◌,
  inl, inr, ◌==◌, ==_iff, ltb, leb, ◌&&◌, true, false, List, [], ◌∷◌, drop, length, length-set,
  length-append, length-drop, length-replicate, replicate, get_or, set, ok, fault, ◌>>=◌, arith,
  Bool-cases,
}
use simple_os.Vt.{
  VirtualTerminal, Console, cells, num_virtual_terminals, put_in, put_regular, wrap, settle,
  put_cell, scroll, blank, terminal_at, blank_terminal, set_terminal, set_cursor, vt_refresh,
  vt_putchar, vt_writestring,
}

-- A terminal has its 2000 cells.
abbrev pub IsFull : VirtualTerminal → Type 0
IsFull vt = length vt.buffer ≡ cells

scroll-IsFull : (vt : VirtualTerminal) → IsFull vt → IsFull (scroll vt)
unfolding scroll
scroll-IsFull vt f = omega (
  arith,
  f,
  length-append (drop 80 vt.buffer) (replicate 80 (blank vt)),
  length-drop 80 vt.buffer,
  length-replicate 80 (blank vt),
)

wrap-IsFull : (vt : VirtualTerminal) → IsFull vt → IsFull (wrap vt) × ((wrap vt).cursor_x < 80)
unfolding wrap
wrap-IsFull vt f = elim (Bool-cases (leb 80 vt.cursor_x)) [
  | inl e ↦ rw e (f, omega arith)
  | inr e ↦ rw e (f, ground (arith, e))
]

settle-IsFull :
    (vt : VirtualTerminal)
    → IsFull vt
    → IsFull (settle vt) × ((settle vt).cursor_y < 25) × ((settle vt).cursor_x ≡ vt.cursor_x)
unfolding settle scroll
settle-IsFull vt f = elim (Bool-cases (leb 25 vt.cursor_y)) [
  | inl e ↦ rw e (scroll-IsFull vt f, omega arith, refl)
  | inr e ↦ rw e (f, ground (arith, e), refl)
]

put_regular_lem :
    (vt : VirtualTerminal) (c : ℕ)
    → IsFull vt
    → (q : VirtualTerminal) × (put_regular vt c ≡ ok q) × IsFull q
unfolding put_regular put_cell
put_regular_lem vt c f =
    let (w, x) = wrap-IsFull vt f in
    let (s, y, same) = settle-IsFull (wrap vt) w in
    let here = settle (wrap vt) in
    let inside : ltb (here.cursor_y * 80 + here.cursor_x) cells ≡ true =
      ground (arith, x, y, same) in
    let at = here.cursor_y * 80 + here.cursor_x in
    let v = bit_or c (here.color * 2 ^ 8) in
    (
      record here { buffer = set here.buffer at v; cursor_x = (here.cursor_x + 1) % 2 ^ 16 },
      rw inside refl,
      length-set here.buffer at v ∙ s,
    )

-- A character other than \b is written within the buffer, wherever the cursor stands.
pub put_in_lem :
    (vt : VirtualTerminal) (c : ℕ)
    → IsFull vt
    → c ≢ 8
    → (q : VirtualTerminal) × (put_in vt c ≡ ok q) × IsFull q
unfolding put_in
put_in_lem vt c f other =
    let no_back : (c == 8) ≡ false = ground (arith, other) in
    elim (Bool-cases (c == 10)) [
      | inl e ↦ (record vt { cursor_x = 0; cursor_y = (vt.cursor_y + 1) % 2 ^ 16 }, rw e refl, f)
      | inr e ↦ elim (Bool-cases (c == 13)) [
        | inl e1 ↦ (record vt { cursor_x = 0 }, rw (e, e1) refl, f)
        | inr e1 ↦ elim (Bool-cases (c == 9)) [
          | inl e2 ↦ (
            record vt { cursor_x = (vt.cursor_x + 8) / 8 * 8 % 2 ^ 16 },
            rw (e, e1, no_back, e2) refl,
            f,
          )
          | inr e2 ↦ elim (Bool-cases (leb 32 c && ltb c 127)) [
            | inl e3 ↦
                let (q, g, h) = put_regular_lem vt c f in (q, rw (e, e1, no_back, e2, e3) g, h)
            | inr e3 ↦ (vt, rw (e, e1, no_back, e2, e3) refl, f)
          ]
        ]
      ]
    ]

-- Four terminals of 2000 cells each, one of them current.
pub record IsConsole (k : Console) : Type 0 where
  pub four : length k.terminals ≡ num_virtual_terminals
  pub current_in : k.current_terminal < num_virtual_terminals
  pub full : (i : ℕ) → i < num_virtual_terminals → IsFull (get_or k.terminals i blank_terminal)

-- The current terminal of `q` is the one of `k`, and the other terminals are the same.
pub record KeepsOthers (k q : Console) : Type 0 where
  pub current : q.current_terminal ≡ k.current_terminal
  pub others :
      (i : ℕ)
      → i ≢ k.current_terminal
      → get_or q.terminals i blank_terminal ≡ get_or k.terminals i blank_terminal

set_terminal-IsConsole :
    (k : Console) (vt : VirtualTerminal) → IsConsole k → IsFull vt → IsConsole (set_terminal k vt)
set_terminal-IsConsole k vt v f = record {
  four = length-set k.terminals k.current_terminal vt ∙ v.four;
  current_in = v.current_in;
  full = λ i h. elim (Bool-cases (i == k.current_terminal)) [
    | inl e ↦
        (let here = (==_iff i k.current_terminal).0 e in
          rw
            (
              here,
              get_or-set_self k.terminals k.current_terminal vt blank_terminal
                  (omega (arith, v.four, v.current_in)),
            )
            f)
    | inr e ↦
        rw (get_or-set_ne k.terminals k.current_terminal i vt blank_terminal (ground (arith, e)))
          (v.full i h)
  ];
}

vt_putchar_lem :
    (k : Console) (c : ℕ)
    → IsConsole k
    → c ≢ 8
    → (q : Console) × (vt_putchar k c ≡ ok q) × IsConsole q × KeepsOthers k q
unfolding vt_putchar vt_refresh
vt_putchar_lem k c v other =
    let (vt, e, f) = put_in_lem (terminal_at k) c (v.full k.current_terminal v.current_in) other in
    let w = set_terminal-IsConsole k vt v f in
    (
      set_cursor (vt_refresh (set_terminal k vt)),
      rw e refl,
      record { four = w.four; current_in = w.current_in; full = w.full },
      record {
        current = refl;
        others = λ i h.
            get_or-set_ne k.terminals k.current_terminal i vt blank_terminal (λ e. h (sym e));
      },
    )

-- The text has no \b.
abbrev pub HasNoBackspace : List ℕ → Type 0
HasNoBackspace [] = Unit
HasNoBackspace (c ∷ cs) = (c ≢ 8) × HasNoBackspace cs

-- A text without \b, of any length and from any place of the cursor, is written within the buffer
-- of the current terminal. The terminals keep their sizes, the current one stays current, and the
-- others are unchanged.
pub vt_writestring_lem :
    (cs : List ℕ) (k : Console)
    → IsConsole k
    → HasNoBackspace cs
    → (q : Console) × (vt_writestring cs k ≡ ok q) × IsConsole q × KeepsOthers k q
unfolding vt_writestring
vt_writestring_lem [] k v h = (k, refl, v, record { current = refl; others = λ i e. refl })
vt_writestring_lem (c ∷ cs) k v h =
    let (q, e, w, o) = vt_putchar_lem k c v h.0 in
    let (r, f, u, p) = vt_writestring_lem cs q w h.1 in
    (
      r,
      rw e f,
      u,
      record {
        current = p.current ∙ o.current;
        others = λ i n. p.others i (λ e. n (e ∙ o.current)) ∙ o.others i n;
      },
    )

-- With the cursor in the last row, a newline, a tab and a backspace make the terminal write past
-- the end of its buffer: a newline does not scroll.
pub put_in_past :
    (vt : VirtualTerminal)
    → vt.cursor_y ≡ 24
    → (put_in vt 10 >>= λ q. put_in q 9 >>= λ r. put_in r 8) ≡ fault
unfolding put_in put_cell
put_in_past vt last =
    let low : (vt.cursor_y + 1) % 2 ^ 16 ≡ 25 = omega arith in
    let out : ltb ((vt.cursor_y + 1) % 2 ^ 16 * 80 + 7) cells ≡ false = ground (arith, low) in
    rw out refl
