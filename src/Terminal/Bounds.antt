-- ===== src/Terminal/Bounds.antt =====
-- The cursor of the text terminal stays on the screen.
use simple_os.Prelude.{
  ℕ, ◌+◌, ◌-◌, ◌*◌, ◌<◌, ◌≡◌, refl, ◌==◌, ltb, true, false, List, [], ◌∷◌, drop, replicate, set,
  length, length-set, length-append, length-drop, length-replicate, ok, arith, Bool-cases, inl, inr,
  ◌∙◌,
}
use simple_os.Terminal.{
  Terminal, vga_width, vga_height, entry, char16, set_vga, put_vga, terminal_scroll, new_line,
  advance, put_text, terminal_putchar, terminal_write,
}

-- The screen has its cells, the cursor is on it, and the virtual terminals are off.
pub record IsOnScreen (t : Terminal) : Type 0 where
  pub full : length t.console.vga_buffer ≡ vga_height * vga_width
  pub row : t.terminal_row < vga_height
  pub column : t.terminal_column < vga_width
  pub off : t.vt_enabled ≡ false

new_line-IsOnScreen : (t : Terminal) → IsOnScreen t → IsOnScreen (new_line t)
unfolding new_line terminal_scroll
new_line-IsOnScreen t v = elim (Bool-cases (t.terminal_row + 1 == vga_height)) [
  | inl e ↦ rw e (record {
    full = omega (
      arith,
      v.full,
      length-append (drop vga_width t.console.vga_buffer) (replicate vga_width (entry t 32)),
      length-drop vga_width t.console.vga_buffer,
      length-replicate vga_width (entry t 32),
    );
    row = omega arith;
    column = omega arith;
    off = v.off;
  })
  | inr e ↦
      rw e (record {
        full = v.full;
        row = ground (arith, e, v.row);
        column = omega arith;
        off = v.off;
      })
]

advance-IsOnScreen : (t : Terminal) → IsOnScreen t → IsOnScreen (advance t)
unfolding advance
advance-IsOnScreen t v = elim (Bool-cases (t.terminal_column + 1 == vga_width)) [
  | inl e ↦ rw e (new_line-IsOnScreen t v)
  | inr e ↦
      rw e
        (record { full = v.full; row = v.row; column = ground (arith, e, v.column); off = v.off })
]

put_vga_lem :
    (t : Terminal) (i c : ℕ)
    → IsOnScreen t
    → i < vga_height * vga_width
    → (q : Terminal) × (put_vga t i c ≡ ok q) × IsOnScreen q
unfolding put_vga
put_vga_lem t i c v h =
    let inside : ltb i (vga_height * vga_width) ≡ true = ground arith in
    (
      set_vga t (set t.console.vga_buffer i c),
      rw inside refl,
      record {
        full = length-set t.console.vga_buffer i c ∙ v.full;
        row = v.row;
        column = v.column;
        off = v.off;
      },
    )

put_text_lem :
    (t : Terminal) (c : ℕ) → IsOnScreen t → (q : Terminal) × (put_text t c ≡ ok q) × IsOnScreen q
unfolding put_text
put_text_lem t c v =
    let at = t.terminal_row * vga_width + t.terminal_column in
    elim (Bool-cases (c == 10)) [
      | inl e ↦ (new_line t, rw e refl, new_line-IsOnScreen t v)
      | inr e ↦ elim (Bool-cases (c == 13)) [
        | inl e1 ↦ (
          record t { terminal_column = 0 },
          rw (e, e1) refl,
          record { full = v.full; row = v.row; column = omega arith; off = v.off },
        )
        | inr e1 ↦ elim (Bool-cases (c == 8)) [
          | inl e2 ↦ elim (Bool-cases (ltb 0 t.terminal_column)) [
            | inl e3 ↦
                let back = record t { terminal_column = t.terminal_column - 1 } in
                let (q, f, w) =
                  put_vga_lem back (t.terminal_row * vga_width + (t.terminal_column - 1))
                    (entry t 32)
                    (record {
                      full = v.full;
                      row = v.row;
                      column = omega (arith, v.column);
                      off = v.off;
                    })
                    (omega (arith, v.row, v.column)) in
                (q, rw (e, e1, e2, e3) f, w)
            | inr e3 ↦ (t, rw (e, e1, e2, e3) refl, v)
          ]
          | inr e2 ↦
              let (q, f, w) =
                put_vga_lem t at (entry t (char16 c)) v (omega (arith, v.row, v.column)) in
              (advance q, rw (e, e1, e2, f) refl, advance-IsOnScreen q w)
        ]
      ]
    ]

terminal_putchar_lem :
    (t : Terminal) (c : ℕ)
    → IsOnScreen t
    → (q : Terminal) × (terminal_putchar t c ≡ ok q) × IsOnScreen q
unfolding terminal_putchar
terminal_putchar_lem t c v =
    let (q, e, w) = put_text_lem t c v in
    let text : terminal_putchar t c ≡ put_text t c = ground (arith, v.off) in (q, text ∙ e, w)

-- With the virtual terminals off and the cursor on the screen, any text is written within the 2000
-- cells of the VGA memory, and leaves the cursor on the screen.
pub terminal_write_lem :
    (cs : List ℕ) (t : Terminal)
    → IsOnScreen t
    → (q : Terminal) × (terminal_write cs t ≡ ok q) × IsOnScreen q
unfolding terminal_write
terminal_write_lem [] t v = (t, refl, v)
terminal_write_lem (c ∷ cs) t v =
    let (q, e, w) = terminal_putchar_lem t c v in
    let (r, f, u) = terminal_write_lem cs q w in (r, rw e f, u)
