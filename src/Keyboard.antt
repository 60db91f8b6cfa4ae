-- ===== src/Keyboard.antt =====
-- src/drivers/keyboard.c: the interrupt handler, with the terminals and the processes that it acts on, and
-- the ring of characters that it fills. The scancode read from the port is an argument.
pub mod Ring
mod Tests
use simple_os.Prelude.{
  ℕ, zero, suc, ◌+◌, ◌-◌, ◌*◌, ◌%◌, ◌^◌, ◌==◌, ltb, leb, if◌then◌else◌, not, ◌||◌, ◌&&◌, Bool, true,
  false, List, [], ◌∷◌, length, get_or, set, Run, ok, ◌>>=◌,
}
use simple_os.Process.{Kernel, is_null, process_get_current}
use simple_os.Signal.{signal_send, sigint}
use simple_os.Terminal.{Terminal, terminal_putchar, terminal_writestring}
use simple_os.Vt.{Console, vt_switch}

-- The static variables; the positions are bytes.
pub record Keyboard : Type 0 where
  pub kbd_buffer : List ℕ
  pub kbd_read_pos : ℕ
  pub kbd_write_pos : ℕ
  pub ctrl_pressed : Bool
  pub alt_pressed : Bool

pub record Machine : Type 0 where
  pub keys : Keyboard
  pub screen : Terminal
  pub kernel : Kernel

abbrev pub key_up : ℕ
key_up = 0x48

abbrev pub key_down : ℕ
key_down = 0x50

abbrev pub key_left : ℕ
key_left = 0x4B

abbrev pub key_right : ℕ
key_right = 0x4D

abbrev pub key_tab : ℕ
key_tab = 0x0F

abbrev pub key_ctrl : ℕ
key_ctrl = 0x1D

abbrev pub key_ctrl_release : ℕ
key_ctrl_release = 0x9D

abbrev pub key_alt : ℕ
key_alt = 0x38

abbrev pub key_alt_release : ℕ
key_alt_release = 0xB8

abbrev pub key_f1 : ℕ
key_f1 = 0x3B

abbrev pub key_f4 : ℕ
key_f4 = 0x3E

-- The characters of the scancodes; the rest of the array is 0.
abbrev pub kbd_us : List ℕ
kbd_us =
    0 ∷ 27 ∷ 49 ∷ 50 ∷ 51 ∷ 52 ∷ 53 ∷ 54 ∷ 55 ∷ 56 ∷ 57 ∷ 48 ∷ 45 ∷ 61 ∷ 8 ∷ 9 ∷ 113 ∷ 119 ∷ 101
    ∷ 114 ∷ 116 ∷ 121 ∷ 117 ∷ 105 ∷ 111 ∷ 112 ∷ 91 ∷ 93 ∷ 10 ∷ 0 ∷ 97 ∷ 115 ∷ 100 ∷ 102 ∷ 103 ∷ 104
    ∷ 106 ∷ 107 ∷ 108 ∷ 59 ∷ 39 ∷ 96 ∷ 0 ∷ 92 ∷ 122 ∷ 120 ∷ 99 ∷ 118 ∷ 98 ∷ 110 ∷ 109 ∷ 44 ∷ 46 ∷ 47
    ∷ 0 ∷ 42 ∷ 0 ∷ 32 ∷ 0 ∷ 0 ∷ 0 ∷ 0 ∷ 0 ∷ 0 ∷ 0 ∷ 0 ∷ 0 ∷ 0 ∷ 0 ∷ 0 ∷ 0 ∷ 0 ∷ 0 ∷ 0 ∷ 45 ∷ 0 ∷ 0
    ∷ 0 ∷ 43 ∷ []

-- One character into the ring, unless it is full: "if (next_write != kbd_read_pos)".
unfoldable pub store_char : Keyboard → ℕ → Keyboard
store_char k c =
    let next_write = (k.kbd_write_pos + 1) % 256 in
    if next_write == k.kbd_read_pos
    then k
    else record k { kbd_buffer = set k.kbd_buffer k.kbd_write_pos c; kbd_write_pos = next_write }

-- Is there room for a character?
abbrev pub has_room : Keyboard → Bool
has_room k = not ((k.kbd_write_pos + 1) % 256 == k.kbd_read_pos)

abbrev pub arrow_char : ℕ → ℕ
arrow_char scancode =
    if scancode == key_down
    then 66
    else if scancode == key_right
    then 67
    else if scancode == key_left
    then 68
    else 65

-- ESC, `[` and a letter, as far as there is room.
unfoldable pub store_arrow : Keyboard → ℕ → Keyboard
store_arrow k scancode =
    let k1 = store_char k 27 in
    let k2 = store_char k1 91 in
    if not (has_room k)
    then k
    else if not (has_room k1)
    then k1
    else if not (has_room k2)
    then k2
    else store_char k2 (arrow_char scancode)

abbrev pub set_keys : Machine → Keyboard → Machine
set_keys m k = record m { keys = k }

module _ (process_find_by_pid : Kernel → ℕ → ℕ) where
  -- Ctrl+C: SIGINT to the current process, unless it is init.
  unfoldable pub interrupt : Machine → Run Machine
  interrupt m =
      let current = process_get_current m.kernel in
      let pid = (m.kernel.block current).pid in
      terminal_writestring (94 ∷ 67 ∷ 10 ∷ []) m.screen >>= λ screen.
      let kernel =
        if not (is_null current) && not (pid == 1)
        then signal_send process_find_by_pid m.kernel pid sigint
        else m.kernel in
      ok (record m { screen = screen; kernel = kernel })

  -- A character key.
  unfoldable pub press_char : Machine → ℕ → Run Machine
  press_char m c =
      if c == 0
      then ok m
      else if m.keys.ctrl_pressed && (c == 99 || c == 67)
      then interrupt m
      else if c == 27
      then ok (set_keys m (store_char m.keys c))
      else terminal_putchar m.screen c >>= λ screen.
          ok (record m { keys = store_char m.keys c; screen = screen })

  unfoldable pub keyboard_callback : Machine → ℕ → Run Machine
  keyboard_callback m scancode =
      let k = m.keys in
      if scancode == key_ctrl
      then ok (set_keys m (record k { ctrl_pressed = true }))
      else if scancode == key_ctrl_release
      then ok (set_keys m (record k { ctrl_pressed = false }))
      else if scancode == key_alt
      then ok (set_keys m (record k { alt_pressed = true }))
      else if scancode == key_alt_release
      then ok (set_keys m (record k { alt_pressed = false }))
      else if k.alt_pressed && leb key_f1 scancode && leb scancode key_f4
      then ok (record m {
        screen = record m.screen { console = vt_switch m.screen.console (scancode - key_f1) };
      })
      else if leb 128 scancode
      then ok m
      else if scancode == key_up
          || scancode == key_down
          || scancode == key_left
          || scancode == key_right
      then ok (set_keys m (store_arrow k scancode))
      else if scancode == key_tab
      then ok (set_keys m (store_char k 9))
      else press_char m (get_or kbd_us scancode 0)

unfoldable pub keyboard_has_char : Keyboard → Bool
keyboard_has_char k = not (k.kbd_read_pos == k.kbd_write_pos)

unfoldable pub keyboard_getchar : Keyboard → ℕ × Keyboard
keyboard_getchar k = if k.kbd_read_pos == k.kbd_write_pos then (0, k) else (
  get_or k.kbd_buffer k.kbd_read_pos 0,
  record k { kbd_read_pos = (k.kbd_read_pos + 1) % 256 },
)

unfoldable pub init_keyboard : Keyboard → Keyboard
init_keyboard k = record k { kbd_read_pos = 0; kbd_write_pos = 0 }
