-- ===== src/Vt/Tests.antt =====
-- A console of blank terminals, the second of them current.
use simple_os.Prelude.{
  ℕ, zero, suc, ◌*◌, ◌^◌, bit_or, get_or, ◌≡◌, refl, [], ◌∷◌, replicate, length-replicate, arith,
  ok, fault, ◌>>=◌,
}
use simple_os.Vt.{VirtualTerminal, put_in, Console, blank_terminal, vt_writestring}
use simple_os.Vt.Text.{IsConsole, KeepsOthers, vt_writestring_lem, put_in_past}

abbrev console : Console
console = record {
  terminals = replicate 4 blank_terminal;
  current_terminal = 1;
  vga_buffer = [];
  cursor = (0, 0);
}

get_or-replicate : (n i : ℕ) → get_or (replicate n blank_terminal) i blank_terminal ≡ blank_terminal
get_or-replicate zero i = refl
get_or-replicate (suc n) zero = refl
get_or-replicate (suc n) (suc i) = get_or-replicate n i

console-IsConsole : IsConsole console
console-IsConsole = record {
  four = refl;
  current_in = omega arith;
  full = λ i h. rw (get_or-replicate 4 i) (length-replicate 2000 (bit_or 32 (0x0F * 2 ^ 8)));
}

vt_writestring_lem_example :
    (q : Console) × (vt_writestring (72 ∷ 105 ∷ 10 ∷ []) console ≡ ok q)
    × IsConsole q
    × KeepsOthers console q
vt_writestring_lem_example =
    vt_writestring_lem (72 ∷ 105 ∷ 10 ∷ []) console console-IsConsole
      (omega arith, (omega arith, (omega arith, tt)))

abbrev bottom : VirtualTerminal
bottom = record blank_terminal { cursor_y = 24 }

put_in_past_example : (put_in bottom 10 >>= λ q. put_in q 9 >>= λ r. put_in r 8) ≡ fault
put_in_past_example = put_in_past bottom refl
