-- ===== src/Terminal.antt =====
-- src/drivers/terminal.c: text on the VGA memory, or on the current virtual terminal where those are
-- enabled. The port output of `terminal_set_cursor` is left out.
pub mod Bounds
mod Tests
use simple_os.Prelude.{
  ℕ, ◌+◌, ◌-◌, ◌*◌, ◌^◌, bit_or, ◌==◌, ltb, leb, if◌then◌else◌, Bool, true, false, List, [], ◌∷◌,
  ◌++◌, drop, replicate, set, Run, ok, fault, ◌>>=◌,
}
use simple_os.Vt.{Console, vt_putchar}

abbrev pub vga_width : ℕ
vga_width = 80

abbrev pub vga_height : ℕ
vga_height = 25

-- The VGA memory is the one of the virtual terminals.
pub record Terminal : Type 0 where
  pub console : Console
  pub terminal_row : ℕ
  pub terminal_column : ℕ
  pub terminal_color : ℕ
  pub vt_enabled : Bool

abbrev pub entry : Terminal → ℕ → ℕ
entry t c = bit_or c (t.terminal_color * 2 ^ 8)

abbrev pub set_vga : Terminal → List ℕ → Terminal
set_vga t cells = record t { console = record t.console { vga_buffer = cells } }

-- A `char` made a `uint16_t`: the sign is extended.
abbrev pub char16 : ℕ → ℕ
char16 c = if leb 128 c then c + 0xFF00 else c

-- A write to the VGA memory.
unfoldable pub put_vga : Terminal → ℕ → ℕ → Run Terminal
put_vga t i v =
    if ltb i (vga_height * vga_width) then ok (set_vga t (set t.console.vga_buffer i v)) else fault

unfoldable pub terminal_scroll : Terminal → Terminal
terminal_scroll t =
    record (set_vga t (drop vga_width t.console.vga_buffer ++ replicate vga_width (entry t 32))) {
      terminal_row = vga_height - 1;
    }

-- Column 0 of the next row.
unfoldable pub new_line : Terminal → Terminal
new_line t =
    let down = record t { terminal_column = 0; terminal_row = t.terminal_row + 1 } in
    if t.terminal_row + 1 == vga_height then terminal_scroll down else down

-- The cursor moves on after a character.
unfoldable pub advance : Terminal → Terminal
advance t =
    if t.terminal_column + 1 == vga_width
    then new_line t
    else record t { terminal_column = t.terminal_column + 1 }

-- 10, 13 and 8 are \n, \r and \b.
unfoldable pub put_text : Terminal → ℕ → Run Terminal
put_text t c =
    if c == 10
    then ok (new_line t)
    else if c == 13
    then ok (record t { terminal_column = 0 })
    else if c == 8
    then (if ltb 0 t.terminal_column
        then put_vga (record t { terminal_column = t.terminal_column - 1 })
            (t.terminal_row * vga_width + (t.terminal_column - 1)) (entry t 32)
        else ok t)
    else put_vga t (t.terminal_row * vga_width + t.terminal_column) (entry t (char16 c)) >>= λ u.
        ok (advance u)

unfoldable pub terminal_putchar : Terminal → ℕ → Run Terminal
terminal_putchar t c =
    if t.vt_enabled
    then (vt_putchar t.console c >>= λ k. ok (record t { console = k }))
    else put_text t c

unfoldable pub terminal_write : List ℕ → Terminal → Run Terminal
terminal_write [] t = ok t
terminal_write (c ∷ cs) t = terminal_putchar t c >>= terminal_write cs

-- The bytes of a string before its 0, as `strlen` counts them.
unfoldable pub before_zero : List ℕ → List ℕ
before_zero [] = []
before_zero (c ∷ cs) = let rest = before_zero cs in if c == 0 then [] else c ∷ rest

unfoldable pub terminal_writestring : List ℕ → Terminal → Run Terminal
terminal_writestring data_bytes t = terminal_write (before_zero data_bytes) t

unfoldable pub init_vga : Terminal → Terminal
init_vga t =
    let u = record t { terminal_row = 0; terminal_column = 0; terminal_color = 7 } in
    set_vga u (replicate (vga_height * vga_width) (entry u 32))

unfoldable pub terminal_enable_vt : Terminal → Terminal
terminal_enable_vt t = record t { vt_enabled = true }
