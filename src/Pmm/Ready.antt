-- ===== src/Pmm/Ready.antt =====
-- The allocator after `pmm_init` with 4 MB and 16 KB, for the tests of this part and of its clients.
use simple_os.Prelude.{◌≡◌, refl, [], ◌∷◌, replicate, arith, ok, ◌++◌, subst}
use simple_os.Pmm.{Pmm, init, init_free, fill_ones, bitmap_clear}
use simple_os.Pmm.Inv.{IsValid}
use simple_os.Pmm.Init.{init_lem}

abbrev pub blank : Pmm
blank = record {
  bitmap = replicate 33 0;
  total_pages = 0;
  free_pages = 0;
  reserved_pages = 0;
  memory = λ a. a;
}

-- Four pages are free.
abbrev pub ready : Pmm
ready = record {
  bitmap = replicate 32 0xFFFFFFFF ++ (0xFFFFFFF0 ∷ []);
  total_pages = 1028;
  free_pages = 4;
  reserved_pages = 1024;
  memory = λ a. a;
}

init-ready : init blank 0x404000 ≡ ok ready
unfolding init init_free fill_ones bitmap_clear
init-ready = refl

pub ready-IsValid : IsValid ready
ready-IsValid =
    let (q, e, v, _, _, _) = init_lem blank 0x404000 (omega arith) (omega arith) in
    let same : q ≡ ready = cc init-ready in subst IsValid same v
