-- ===== src/Keyboard/Keys.antt =====
-- What a key of a US keyboard types, key by key, by the codes of the Linux input events, and what an
-- event does: an account of its own, that the maps and branches of `virtio_input_poll` are held to.
use native.Mathlib.Decide.{ℕ_discrete, dec_lt}
use ai_os_exchange.Prelude.{
  ℕ, ◌≡◌, ◌≢◌, ◌⊎◌, ◌<◌, inl, inr, refl, List, [], ◌∷◌, if◌then◌else◌, ◌==◌, ◌||◌, ltb, Bool, true,
  false, get_or, every, every_lem, arith, ==_of_eq, ==_of_ne, lt→ltb, ltb_of_not-lt,
}
use ai_os_exchange.Keyboard.{InputEvent, keymap_us_lower, keymap_us_upper, ascii_of, shift_after}

-- A key: its code, and its character without and with shift.
abbrev Key : Type 0
Key = ℕ × ℕ × ℕ

abbrev us_keys : List Key
us_keys =
    (1, 27, 27)
    ∷ (2, b'1', b'!')
    ∷ (3, b'2', b'@')
    ∷ (4, b'3', b'#')
    ∷ (5, b'4', b'$')
    ∷ (6, b'5', b'%')
    ∷ (7, b'6', b'^')
    ∷ (8, b'7', b'&')
    ∷ (9, b'8', b'*')
    ∷ (10, b'9', b'(')
    ∷ (11, b'0', b')')
    ∷ (12, b'-', b'_')
    ∷ (13, b'=', b'+')
    ∷ (14, 8, 8)
    ∷ (15, 9, 9)
    ∷ (16, b'q', b'Q')
    ∷ (17, b'w', b'W')
    ∷ (18, b'e', b'E')
    ∷ (19, b'r', b'R')
    ∷ (20, b't', b'T')
    ∷ (21, b'y', b'Y')
    ∷ (22, b'u', b'U')
    ∷ (23, b'i', b'I')
    ∷ (24, b'o', b'O')
    ∷ (25, b'p', b'P')
    ∷ (26, b'[', b'{')
    ∷ (27, b']', b'}')
    ∷ (28, 10, 10)
    ∷ (30, b'a', b'A')
    ∷ (31, b's', b'S')
    ∷ (32, b'd', b'D')
    ∷ (33, b'f', b'F')
    ∷ (34, b'g', b'G')
    ∷ (35, b'h', b'H')
    ∷ (36, b'j', b'J')
    ∷ (37, b'k', b'K')
    ∷ (38, b'l', b'L')
    ∷ (39, b';', b':')
    ∷ (40, 39, 34)
    ∷ (41, 96, 126)
    ∷ (43, 92, b'|')
    ∷ (44, b'z', b'Z')
    ∷ (45, b'x', b'X')
    ∷ (46, b'c', b'C')
    ∷ (47, b'v', b'V')
    ∷ (48, b'b', b'B')
    ∷ (49, b'n', b'N')
    ∷ (50, b'm', b'M')
    ∷ (51, b',', b'<')
    ∷ (52, b'.', b'>')
    ∷ (53, b'/', b'?')
    ∷ (55, b'*', b'*')
    ∷ (57, b' ', b' ')
    ∷ []

lookup : Bool → ℕ → List Key → ℕ
lookup shift code [] = 0
lookup shift code (k ∷ ks) =
    if code == k.0 then (if shift then k.2 else k.1) else lookup shift code ks

-- The character of a key, 0 for a key without one; no key behind the space bar has one.
unfoldable pub us_char : Bool → ℕ → ℕ
unfolding lookup
us_char shift code = if ltb 57 code then 0 else lookup shift code us_keys

-- The shift keys, which type nothing.
abbrev pub IsShiftKey : ℕ → Type 0
IsShiftKey code = (code ≡ 42) ⊎ (code ≡ 54)

-- An event in a shift state: the character that it types, 0 for none, and the shift state after it.
pub data Types (shift : Bool) (evt : InputEvent) : ℕ → Bool → Type 0 where
  no_key : evt.type ≢ 1 → Types shift evt 0 shift
  shift_down : evt.type ≡ 1 → IsShiftKey evt.code → evt.value ≡ 1 → Types shift evt 0 true
  shift_up : evt.type ≡ 1 → IsShiftKey evt.code → evt.value ≢ 1 → Types shift evt 0 false
  key_up :
      evt.type ≡ 1
      → ¬ IsShiftKey evt.code
      → ¬ ((evt.value ≡ 1) ⊎ (evt.value ≡ 2))
      → Types shift evt 0 shift
  key_down :
      evt.type ≡ 1
      → ¬ IsShiftKey evt.code
      → (evt.value ≡ 1) ⊎ (evt.value ≡ 2)
      → Types shift evt (us_char shift evt.code) shift

-- The maps and the account agree on the 128 codes, by evaluation.
abbrev of_map : Bool → ℕ → ℕ
of_map shift code = if shift then get_or keymap_us_upper code 0 else get_or keymap_us_lower code 0

plain_keys : every (λ c. of_map false c == us_char false c) 128 ≡ true
unfolding every keymap_us_lower keymap_us_upper us_char
plain_keys = refl

shifted_keys : every (λ c. of_map true c == us_char true c) 128 ≡ true
unfolding every keymap_us_lower keymap_us_upper us_char
shifted_keys = refl

eq_of : (a b : ℕ) → (a == b) ≡ true → a ≡ b
eq_of a b h = ground arith

of_map-us_char : (shift : Bool) (code : ℕ) → code < 128 → of_map shift code ≡ us_char shift code
of_map-us_char false code h =
    eq_of _ _ (every_lem (λ c. of_map false c == us_char false c) 128 h plain_keys)
of_map-us_char true code h =
    eq_of _ _ (every_lem (λ c. of_map true c == us_char true c) 128 h shifted_keys)

code_char :
    (shift : Bool) (code : ℕ) → (if ltb code 128 then of_map shift code else 0) ≡ us_char shift code
unfolding us_char
code_char shift code = elim (dec_lt code 128) [
  | yes low ↦ rw (lt→ltb code 128 low) (of_map-us_char shift code low)
  | no high ↦ rw (ltb_of_not-lt code 128 high, lt→ltb 57 code (omega arith)) refl
]

-- The tests of the code, and what they find.
shift_test :
    (code : ℕ)
    → (IsShiftKey code × ((code == 42 || code == 54) ≡ true))
      ⊎ ((¬ IsShiftKey code) × ((code == 42 || code == 54) ≡ false))
shift_test code = elim (ℕ_discrete code 42) [
  | yes left ↦ inl (inl left, rw (==_of_eq code 42 left) refl)
  | no not_left ↦ elim (ℕ_discrete code 54) [
    | yes right ↦ inl (inr right, rw (==_of_ne code 42 not_left, ==_of_eq code 54 right) refl)
    | no not_right ↦ inr (
      λ k. elim k [ inl e ↦ not_left e | inr e ↦ not_right e ],
      rw (==_of_ne code 42 not_left, ==_of_ne code 54 not_right) refl,
    )
  ]
]

down_test :
    (value : ℕ)
    → (((value ≡ 1) ⊎ (value ≡ 2)) × ((value == 1 || value == 2) ≡ true))
      ⊎ ((¬ ((value ≡ 1) ⊎ (value ≡ 2))) × ((value == 1 || value == 2) ≡ false))
down_test value = elim (ℕ_discrete value 1) [
  | yes one ↦ inl (inl one, rw (==_of_eq value 1 one) refl)
  | no not_one ↦ elim (ℕ_discrete value 2) [
    | yes two ↦ inl (inr two, rw (==_of_ne value 1 not_one, ==_of_eq value 2 two) refl)
    | no not_two ↦ inr (
      λ k. elim k [ inl e ↦ not_one e | inr e ↦ not_two e ],
      rw (==_of_ne value 1 not_one, ==_of_ne value 2 not_two) refl,
    )
  ]
]

pub ascii_of-Types :
    (shift : Bool) (evt : InputEvent) → Types shift evt (ascii_of shift evt) (shift_after shift evt)
unfolding ascii_of shift_after
ascii_of-Types shift evt = elim (ℕ_discrete evt.type 1) [
  | no other ↦ rw (==_of_ne evt.type 1 other) (no_key other)
  | yes key ↦ elim (shift_test evt.code) [
    | inl (is, test) ↦ elim (ℕ_discrete evt.value 1) [
      | yes down ↦
          rw (==_of_eq evt.type 1 key, test, ==_of_eq evt.value 1 down) (shift_down key is down)
      | no up ↦ rw (==_of_eq evt.type 1 key, test, ==_of_ne evt.value 1 up) (shift_up key is up)
    ]
    | inr (is_not, test) ↦ elim (down_test evt.value) [
      | inl (down, on) ↦
          rw (==_of_eq evt.type 1 key, test, on, code_char shift evt.code)
            (key_down key is_not down)
      | inr (up, off) ↦ rw (==_of_eq evt.type 1 key, test, off) (key_up key is_not up)
    ]
  ]
]
