-- ===== src/Keyboard/Tests.antt =====
-- The theorems on keyboard.c at a ring whose last place is written next.
use simple_os.Prelude.{
  ℕ, ◌≡◌, ◌-◌, take, false, [], ◌∷◌, ◌++◌, length, replicate, length-replicate, arith,
}
use simple_os.Keyboard.{Keyboard, store_arrow}
use simple_os.Keyboard.Ring.{IsRing, pending, Arrow, store_arrow_lem}

-- One character waits, at 254.
abbrev one_char : Keyboard
one_char = record {
  kbd_buffer = replicate 256 97;
  kbd_read_pos = 254;
  kbd_write_pos = 255;
  ctrl_pressed = false;
  alt_pressed = false;
}

one_char-IsRing : IsRing one_char
one_char-IsRing = record {
  size = length-replicate {A = ℕ} 256 97;
  read_low = omega arith;
  write_low = omega arith;
}

store_arrow_lem_example :
    IsRing (store_arrow one_char 0x4D)
    × (pending (store_arrow one_char 0x4D)
        ≡ pending one_char ++ take (255 - length (pending one_char)) (27 ∷ 91 ∷ 67 ∷ []))
store_arrow_lem_example = store_arrow_lem one_char 0x4D 67 one_char-IsRing Arrow.right
