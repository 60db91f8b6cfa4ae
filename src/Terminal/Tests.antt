-- ===== src/Terminal/Tests.antt =====
-- The screen after `init_vga`, over cells of any content before.
use simple_os.Prelude.{ℕ, ◌≡◌, refl, false, [], ◌∷◌, replicate, length-replicate, arith, ok}
use simple_os.Vt.{blank_terminal}
use simple_os.Terminal.{Terminal, init_vga, terminal_write}
use simple_os.Terminal.Bounds.{IsOnScreen, terminal_write_lem}

abbrev screen : Terminal
screen = record {
  console = record {
    terminals = replicate 4 blank_terminal;
    current_terminal = 0;
    vga_buffer = [];
    cursor = (0, 0);
  };
  terminal_row = 24;
  terminal_column = 79;
  terminal_color = 0;
  vt_enabled = false;
}

init_vga-IsOnScreen : IsOnScreen (init_vga screen)
unfolding init_vga
init_vga-IsOnScreen = record {
  full = length-replicate 2000 (let n : ℕ = 1824 in n);
  row = omega arith;
  column = omega arith;
  off = refl;
}

terminal_write_lem_example :
    (q : Terminal) × (terminal_write (72 ∷ 8 ∷ 10 ∷ []) (init_vga screen) ≡ ok q) × IsOnScreen q
terminal_write_lem_example =
    terminal_write_lem (72 ∷ 8 ∷ 10 ∷ []) (init_vga screen) init_vga-IsOnScreen
