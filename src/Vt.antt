-- ===== src/Vt.antt =====
-- src/drivers/vt.c: four virtual terminals of 80 columns and 25 rows, one of them on the screen. The
-- cursor's coordinates are numbers without the bound of `int`. `terminal_set_cursor`, which is
-- another driver's, is recorded as the place of the hardware cursor.
pub mod Text
mod Tests
use simple_os.Prelude.{
  ℕ, ◌+◌, ◌-◌, ◌*◌, ◌/◌, ◌%◌, ◌^◌, bit_or, ◌==◌, ltb, leb, if◌then◌else◌, ◌&&◌, ◌||◌, Bool, true,
  false, List, [], ◌∷◌, ◌++◌, drop, replicate, get_or, get_elem?, set, Option, none, some, Run, ok,
  fault, ◌>>=◌,
}

abbrev pub num_virtual_terminals : ℕ
num_virtual_terminals = 4

abbrev pub cells : ℕ
cells = 80 * 25

-- `virtual_terminal_t`; the process of its shell is left out, as only other files use it.
pub record VirtualTerminal : Type 0 where
  pub buffer : List ℕ
  pub cursor_x : ℕ
  pub cursor_y : ℕ
  pub color : ℕ
  pub active : Bool

-- The static variables, the cells of the VGA memory on display and the hardware cursor.
pub record Console : Type 0 where
  pub terminals : List VirtualTerminal
  pub current_terminal : ℕ
  pub vga_buffer : List ℕ
  pub cursor : ℕ × ℕ

abbrev pub blank_terminal : VirtualTerminal
blank_terminal = record {
  buffer = replicate cells (bit_or 32 (0x0F * 2 ^ 8));
  cursor_x = 0;
  cursor_y = 0;
  color = 0x0F;
  active = false;
}

abbrev pub terminal_at : Console → VirtualTerminal
terminal_at k = get_or k.terminals k.current_terminal blank_terminal

-- A blank in the terminal's color.
abbrev pub blank : VirtualTerminal → ℕ
blank vt = bit_or 32 (vt.color * 2 ^ 8)

-- A write to the buffer of a terminal.
unfoldable pub put_cell : VirtualTerminal → ℕ → ℕ → Run VirtualTerminal
put_cell vt i v = if ltb i cells then ok (record vt { buffer = set vt.buffer i v }) else fault

unfoldable pub scroll : VirtualTerminal → VirtualTerminal
scroll vt = record vt { buffer = drop 80 vt.buffer ++ replicate 80 (blank vt); cursor_y = 24 }

-- The case of a regular character: wrap, scroll, write, advance.
unfoldable pub wrap : VirtualTerminal → VirtualTerminal
wrap vt =
    if leb 80 vt.cursor_x
    then record vt { cursor_x = 0; cursor_y = (vt.cursor_y + 1) % 2 ^ 16 }
    else vt

unfoldable pub settle : VirtualTerminal → VirtualTerminal
settle vt = if leb 25 vt.cursor_y then scroll vt else vt

unfoldable pub put_regular : VirtualTerminal → ℕ → Run VirtualTerminal
put_regular vt c =
    let here = settle (wrap vt) in
    put_cell here (here.cursor_y * 80 + here.cursor_x) (bit_or c (here.color * 2 ^ 8)) >>= λ vt1.
    ok (record vt1 { cursor_x = (vt1.cursor_x + 1) % 2 ^ 16 })

-- What a character does to the current terminal: 10, 13, 8 and 9 are \n, \r, \b and \t.
unfoldable pub put_in : VirtualTerminal → ℕ → Run VirtualTerminal
put_in vt c =
    if c == 10
    then ok (record vt { cursor_x = 0; cursor_y = (vt.cursor_y + 1) % 2 ^ 16 })
    else if c == 13
    then ok (record vt { cursor_x = 0 })
    else if c == 8
    then (if ltb 0 vt.cursor_x
        then put_cell (record vt { cursor_x = vt.cursor_x - 1 })
            (vt.cursor_y * 80 + (vt.cursor_x - 1)) (blank vt)
        else ok vt)
    else if c == 9
    then ok (record vt { cursor_x = (vt.cursor_x + 8) / 8 * 8 % 2 ^ 16 })
    else if leb 32 c && ltb c 127
    then put_regular vt c
    else ok vt

-- The cell of the screen that shows a character of the indicator, white on blue.
abbrev pub indicator_cell : ℕ → ℕ
indicator_cell c = bit_or c (0x1F * 2 ^ 8)

-- The text [F1] to [F4] in the last four columns of the first row.
unfoldable pub vt_refresh : Console → Console
vt_refresh k =
    let f1 = set (terminal_at k).buffer 76 (indicator_cell 91) in
    let f2 = set f1 77 (indicator_cell 70) in
    let f3 = set f2 78 (indicator_cell (49 + k.current_terminal)) in
    record k { vga_buffer = set f3 79 (indicator_cell 93) }

abbrev pub set_cursor : Console → Console
set_cursor k = record k { cursor = ((terminal_at k).cursor_x, (terminal_at k).cursor_y) }

abbrev pub set_terminal : Console → VirtualTerminal → Console
set_terminal k vt = record k { terminals = set k.terminals k.current_terminal vt }

unfoldable pub vt_putchar : Console → ℕ → Run Console
vt_putchar k c = put_in (terminal_at k) c >>= λ vt. ok (set_cursor (vt_refresh (set_terminal k vt)))

unfoldable pub vt_writestring : List ℕ → Console → Run Console
vt_writestring [] k = ok k
vt_writestring (c ∷ cs) k = vt_putchar k c >>= vt_writestring cs

unfoldable pub vt_switch : Console → ℕ → Console
vt_switch k terminal =
    if leb num_virtual_terminals terminal || terminal == k.current_terminal
    then k
    else let k1 = record k { current_terminal = terminal } in
      set_cursor (vt_refresh (set_terminal k1 (record (terminal_at k1) { active = true })))

unfoldable pub vt_clear : Console → Console
vt_clear k =
    let vt = terminal_at k in
    set_cursor (
      vt_refresh (
        set_terminal k
          (record vt { buffer = replicate cells (blank vt); cursor_x = 0; cursor_y = 0 })))

unfoldable pub vt_init : Console → Console
vt_init k =
    let first = record blank_terminal { active = true } in
    vt_refresh (record k { terminals = first ∷ replicate 3 blank_terminal })

unfoldable pub vt_get : Console → ℕ → Option VirtualTerminal
vt_get k terminal =
    if leb num_virtual_terminals terminal then none else get_elem? k.terminals terminal
