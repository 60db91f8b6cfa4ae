-- ===== src/Programs/Tests.antt =====
-- Runs of the programs.
use simple_os.Prelude.{◌≤◌, ◌≡◌, [], ◌∷◌, length, arith}
use simple_os.Programs.Count.{newlines, words_of, text_of, wc_main, wc_main_lem}
use simple_os.Programs.Match.{lines_of, grep_main, Prints}
use simple_os.Programs.Grep.{grep_main_lem}
use simple_os.Programs.Decimal.{AreDigits, number_from, int_to_string, number_from-int_to_string}

-- "a b", a newline, "b" in two reads.
wc_main_lem_example : wc_main ((97 ∷ 32 ∷ []) ∷ (98 ∷ 10 ∷ 98 ∷ []) ∷ []) ≡ (
  newlines (text_of ((97 ∷ 32 ∷ []) ∷ (98 ∷ 10 ∷ 98 ∷ []) ∷ [])),
  length (words_of (text_of ((97 ∷ 32 ∷ []) ∷ (98 ∷ 10 ∷ 98 ∷ []) ∷ []))),
  length (text_of ((97 ∷ 32 ∷ []) ∷ (98 ∷ 10 ∷ 98 ∷ []) ∷ [])),
)
unfolding text_of
wc_main_lem_example = wc_main_lem ((97 ∷ 32 ∷ []) ∷ (98 ∷ 10 ∷ 98 ∷ []) ∷ []) (omega arith)

grep_main_lem_example :
    Prints
      (98 ∷ [])
      (lines_of (97 ∷ 98 ∷ 10 ∷ 99 ∷ 10 ∷ 98 ∷ []))
      (grep_main (98 ∷ []) (97 ∷ 98 ∷ 10 ∷ 99 ∷ 10 ∷ 98 ∷ []))
grep_main_lem_example = grep_main_lem (98 ∷ []) (97 ∷ 98 ∷ 10 ∷ 99 ∷ 10 ∷ 98 ∷ [])

number_from-int_to_string_example :
    (number_from 0 (int_to_string 1024) ≡ 1024)
    × AreDigits (int_to_string 1024)
    × (length (int_to_string 1024) ≤ 10)
number_from-int_to_string_example = number_from-int_to_string 1024 (omega arith)
