-- ===== src/Keyboard/Ring.antt =====
-- The ring of characters is a queue of at most 255.
use simple_os.Prelude.{
  ℕ, zero, suc, ◌+◌, ◌-◌, ◌%◌, ◌≤◌, ◌<◌, ◌≡◌, refl, sym, ap, ap₂, ◌∙◌, ◌⊎◌, inl, inr, ◌==◌,
  if◌then◌else◌, not, true, false, List, [], ◌∷◌, ◌++◌, length, length-append, append_assoc,
  append_nil, take, take-nil, length-set, get_or, set, get_or-set_self, get_or-set_ne, arith,
  Bool-cases,
}
use simple_os.Keyboard.{
  Keyboard, store_char, has_room, arrow_char, store_arrow, keyboard_getchar, keyboard_has_char,
}

-- `n` characters from position `i` on.
window : List ℕ → ℕ → ℕ → List ℕ
window buf i zero = []
window buf i (suc n) = get_or buf i 0 ∷ window buf ((i + 1) % 256) n

-- How many characters wait, and which.
abbrev pub waiting : Keyboard → ℕ
waiting k = (k.kbd_write_pos + 256 - k.kbd_read_pos) % 256

pub record IsRing (k : Keyboard) : Type 0 where
  pub size : length k.kbd_buffer ≡ 256
  pub read_low : k.kbd_read_pos < 256
  pub write_low : k.kbd_write_pos < 256

pub pending : Keyboard → List ℕ
pending k = window k.kbd_buffer k.kbd_read_pos (waiting k)

length-window : (buf : List ℕ) (i n : ℕ) → length (window buf i n) ≡ n
unfolding window
length-window buf i zero = refl
length-window buf i (suc n) = ap suc (length-window buf ((i + 1) % 256) n)

-- The last of the characters.
window-snoc :
    (buf : List ℕ) (i n : ℕ)
    → i < 256
    → window buf i (suc n) ≡ window buf i n ++ (get_or buf ((i + n) % 256) 0 ∷ [])
unfolding window
window-snoc buf i zero h = let at : (i + 0) % 256 ≡ i = omega arith in rw at refl
window-snoc buf i (suc n) h =
    let at : (i + suc n) % 256 ≡ ((i + 1) % 256 + n) % 256 = omega arith in
    rw at (ap (λ rest. get_or buf i 0 ∷ rest) (window-snoc buf ((i + 1) % 256) n (omega arith)))

-- A write behind the window is not seen in it.
window-set :
    (buf : List ℕ) (i n w c : ℕ)
    → i < 256
    → n < 256
    → w ≡ (i + n) % 256
    → window (set buf w c) i n ≡ window buf i n
unfolding window
window-set buf i zero w c h l e = refl
window-set buf i (suc n) w c h l e =
    ap₂ (λ x xs. x ∷ xs) (get_or-set_ne buf w i c 0 (omega (arith, e)))
      (window-set buf ((i + 1) % 256) n w c (omega arith) (omega arith) (omega (arith, e)))

-- A character is put behind those that wait, and is dropped exactly where 255 wait.
pub store_char_lem :
    (k : Keyboard) (c : ℕ)
    → IsRing k
    → IsRing (store_char k c)
      × (length (pending k) ≤ 255)
      × (pending (store_char k c)
          ≡ (if length (pending k) == 255 then pending k else pending k ++ (c ∷ [])))
unfolding store_char pending
store_char_lem k c r =
    let r0 = k.kbd_read_pos in
    let w = k.kbd_write_pos in
    let n = waiting k in
    let len = length-window k.kbd_buffer r0 n in
    elim (Bool-cases ((w + 1) % 256 == r0)) [
      | inl e ↦
          let full : n ≡ 255 = ground (arith, e, r.read_low, r.write_low) in
          rw (e, len) (r, omega arith, rw full refl)
      | inr e ↦
          let room : n < 255 = ground (arith, e, r.read_low, r.write_low) in
          let open_end : (n == 255) ≡ false = ground (arith, room) in
          let more : ((w + 1) % 256 + 256 - r0) % 256 ≡ suc n =
            ground (arith, e, r.read_low, r.write_low) in
          let at : w ≡ (r0 + n) % 256 = omega (arith, r.read_low, r.write_low) in
          let there : get_or (set k.kbd_buffer w c) ((r0 + n) % 256) 0 ≡ c =
            rw (sym at) (get_or-set_self k.kbd_buffer w c 0 (omega (arith, r.size, r.write_low))) in
          let after = set k.kbd_buffer w c in
          rw (e, len, open_end)
            (
              record {
                size = length-set k.kbd_buffer w c ∙ r.size;
                read_low = r.read_low;
                write_low = omega arith;
              },
              omega (arith, room),
              ap (window after r0) more
                  ∙ window-snoc after r0 n r.read_low
                  ∙ ap₂ (λ xs x. xs ++ (x ∷ []))
                      (window-set k.kbd_buffer r0 n w c r.read_low (omega (arith, room)) at) there,
            )
    ]

-- `keyboard_getchar` takes the character that has waited longest, and gives 0 and changes nothing where none
-- waits; `keyboard_has_char` tells which.
pub keyboard_getchar_lem :
    (k : Keyboard)
    → IsRing k
    → ((pending k ≡ []) × (keyboard_has_char k ≡ false) × (keyboard_getchar k ≡ (0, k)))
      ⊎ ((c : ℕ) × (q : Keyboard) × (keyboard_getchar k ≡ (c, q))
          × (keyboard_has_char k ≡ true)
          × IsRing q
          × (pending k ≡ c ∷ pending q))
unfolding keyboard_getchar keyboard_has_char pending window
keyboard_getchar_lem k r =
    let r0 = k.kbd_read_pos in
    let w = k.kbd_write_pos in
    elim (Bool-cases (r0 == w)) [
      | inl e ↦
          let empty : waiting k ≡ 0 = ground (arith, e, r.read_low) in
          inl (rw empty refl, rw e refl, rw e refl)
      | inr e ↦
          let q : Keyboard = record k { kbd_read_pos = (r0 + 1) % 256 } in
          let one : waiting k ≡ suc (waiting q) = ground (arith, e, r.read_low, r.write_low) in
          inr (
            get_or k.kbd_buffer r0 0,
            q,
            rw e refl,
            rw e refl,
            record { size = r.size; read_low = omega arith; write_low = r.write_low },
            ap (window k.kbd_buffer r0) one,
          )
    ]

has_room-pending : (k : Keyboard) → IsRing k → has_room k ≡ not (length (pending k) == 255)
unfolding pending
has_room-pending k r =
    let len = length-window k.kbd_buffer k.kbd_read_pos (waiting k) in
    rw len (ground (arith, r.read_low, r.write_low))

-- With room, one more character waits.
stored :
    (k : Keyboard) (c : ℕ)
    → IsRing k
    → has_room k ≡ true
    → IsRing (store_char k c)
      × (pending (store_char k c) ≡ pending k ++ (c ∷ []))
      × (length (pending (store_char k c)) ≡ length (pending k) + 1)
      × (length (pending k) < 255)
stored k c r h =
    let s = store_char_lem k c r in
    let open_end : (length (pending k) == 255) ≡ false = ground (arith, h, has_room-pending k r) in
    let added : pending (store_char k c) ≡ pending k ++ (c ∷ []) = s.2 ∙ rw open_end refl in
    (
      s.0,
      added,
      ap length added ∙ length-append (pending k) (c ∷ []),
      ground (arith, open_end, s.1),
    )

no_room : (k : Keyboard) → IsRing k → has_room k ≡ false → 255 - length (pending k) ≡ 0
no_room k r h = ground (arith, h, has_room-pending k r)

-- The sequences of a terminal: the scancode of the key and the letter that ends it.
pub data Arrow : ℕ → ℕ → Type 0 where
  up : Arrow 0x48 65
  down : Arrow 0x50 66
  right : Arrow 0x4D 67
  left : Arrow 0x4B 68

Arrow-letter : (scancode letter : ℕ) → Arrow scancode letter → arrow_char scancode ≡ letter
Arrow-letter _ _ up = refl
Arrow-letter _ _ down = refl
Arrow-letter _ _ right = refl
Arrow-letter _ _ left = refl

stored_arrow :
    (k : Keyboard) (scancode : ℕ)
    → IsRing k
    → IsRing (store_arrow k scancode)
      × (pending (store_arrow k scancode)
          ≡ pending k ++ take (255 - length (pending k)) (27 ∷ 91 ∷ arrow_char scancode ∷ []))
unfolding store_arrow
stored_arrow k scancode r = elim (Bool-cases (has_room k)) [
  | inr e ↦ (let z = no_room k r e in rw (e, z) (r, sym (append_nil (pending k))))
  | inl e ↦
      let k1 = store_char k 27 in
      let (r1, p1, l1, b1) = stored k 27 r e in
      elim (Bool-cases (has_room k1)) [
        | inr e1 ↦
            let z : 255 - length (pending k) ≡ 1 = omega (arith, no_room k1 r1 e1, l1, b1) in
            rw (e, e1, z) (r1, p1)
        | inl e1 ↦
            let k2 = store_char k1 91 in
            let (r2, p2, l2, b2) = stored k1 91 r1 e1 in
            let two : pending k2 ≡ pending k ++ (27 ∷ 91 ∷ []) =
              p2 ∙ ap (λ xs. xs ++ (91 ∷ [])) p1 ∙ append_assoc (pending k) (27 ∷ []) (91 ∷ []) in
            elim (Bool-cases (has_room k2)) [
              | inr e2 ↦
                  let z : 255 - length (pending k) ≡ 2 =
                    omega (arith, no_room k2 r2 e2, l1, l2, b2) in
                  rw (e, e1, e2, z) (r2, two)
              | inl e2 ↦
                  let (r3, p3, l3, b3) = stored k2 (arrow_char scancode) r2 e2 in
                  let z : 255 - length (pending k) ≡ suc (suc (suc (252 - length (pending k)))) =
                    omega (arith, b3, l1, l2) in
                  rw (e, e1, e2, z)
                    (
                      r3,
                      p3
                          ∙ ap (λ xs. xs ++ (arrow_char scancode ∷ [])) two
                          ∙ append_assoc (pending k) (27 ∷ 91 ∷ []) (arrow_char scancode ∷ [])
                          ∙ ap (λ rest. pending k ++ (27 ∷ 91 ∷ arrow_char scancode ∷ rest))
                              (sym (take-nil (252 - length (pending k)))),
                    )
            ]
      ]
]

-- An arrow key puts ESC, `[` and a letter behind the characters that wait, as many of the three as there is
-- room for; the letter is A for up (scancode 0x48), B for down (0x50), C for right (0x4D), D for left (0x4B).
pub store_arrow_lem :
    (k : Keyboard) (scancode letter : ℕ)
    → IsRing k
    → Arrow scancode letter
    → IsRing (store_arrow k scancode)
      × (pending (store_arrow k scancode)
          ≡ pending k ++ take (255 - length (pending k)) (27 ∷ 91 ∷ letter ∷ []))
store_arrow_lem k scancode letter r arrow =
    let (ring, text) = stored_arrow k scancode r in
    (
      ring,
      text
          ∙ ap (λ c. pending k ++ take (255 - length (pending k)) (27 ∷ 91 ∷ c ∷ []))
              (Arrow-letter scancode letter arrow),
    )
