-- ===== src/Terminal/Scroll.antt =====
-- What scrolling does to the screen: every row of pixels moves up by the height of a character.
use native.Mathlib.Decide.{ℕ_discrete, dec_lt}
use native.Mathlib.Nat.{mul-add}
use ai_os_exchange.Prelude.{
  ℕ, zero, suc, ◌+◌, ◌-◌, ◌*◌, ◌^◌, ◌≤◌, ◌<◌, ◌≡◌, ◌≢◌, ◌⊎◌, inl, inr, refl, sym, ◌∙◌, ap,
  if◌then◌else◌, ltb, lt→ltb, ltb→lt, Bool-cases, ltb_of_not-lt, u32, sub32, arith, ==_of_eq,
  ==_of_ne,
}
use ai_os_exchange.Terminal.{Terminal, color_bg, poke, fill, move, term_scroll, term_clear_screen}

poke_self : (i v : ℕ) (fb : ℕ → ℕ) → poke i v fb i ≡ v
unfolding poke
poke_self i v fb = rw (==_of_eq i i refl)

pub poke_ne : (i v : ℕ) (fb : ℕ → ℕ) (j : ℕ) → j ≢ i → poke i v fb j ≡ fb j
unfolding poke
poke_ne i v fb j ne = rw (==_of_ne j i ne)

-- The filled words, and the others.
fill_out : (n i : ℕ) (fb : ℕ → ℕ) (j : ℕ) → (j < i) ⊎ (i + n ≤ j) → fill n i fb j ≡ fb j
unfolding fill
fill_out zero i fb j out = refl
fill_out (suc n) i fb j out =
    fill_out n (i + 1) _ j (ground arith) ∙ poke_ne i color_bg fb j (ground arith)

fill_in : (n i : ℕ) (fb : ℕ → ℕ) (j : ℕ) → i ≤ j → j < i + n → fill n i fb j ≡ color_bg
unfolding fill
fill_in zero i fb j a b = absurd (omega arith)
fill_in (suc n) i fb j a b = elim (ℕ_discrete j i) [
  | yes e ↦
      fill_out n (i + 1) _ j (inl (omega arith))
      ∙ ap (poke i color_bg fb) e
      ∙ poke_self i color_bg fb
  | no ne ↦ fill_in n (i + 1) _ j (omega arith) (omega arith)
]

-- The moved words, and the others: the source is read before it is written over.
move_out : (n i by : ℕ) (fb : ℕ → ℕ) (j : ℕ) → (j < i) ⊎ (i + n ≤ j) → move n i by fb j ≡ fb j
unfolding move
move_out zero i by fb j out = refl
move_out (suc n) i by fb j out =
    move_out n (i + 1) by _ j (ground arith) ∙ poke_ne i (fb (i + by)) fb j (ground arith)

move_in : (n i by : ℕ) (fb : ℕ → ℕ) (j : ℕ) → i ≤ j → j < i + n → move n i by fb j ≡ fb (j + by)
unfolding move
move_in zero i by fb j a b = absurd (omega arith)
move_in (suc n) i by fb j a b = elim (ℕ_discrete j i) [
  | yes e ↦
      move_out n (i + 1) by _ j (inl (omega arith))
      ∙ ap (poke i (fb (i + by)) fb) e
      ∙ poke_self i (fb (i + by)) fb
      ∙ ap (λ k. fb (k + by)) (sym e)
  | no ne ↦
      move_in n (i + 1) by _ j (omega arith) (omega arith)
      ∙ poke_ne i (fb (i + by)) fb (j + by) (omega arith)
]

-- The words of a screen and of its rows, without wrapping.
module _ (w h : ℕ) (low : 16 ≤ h) (high : h < 2 ^ 31) (area : w * h < 2 ^ 32) where
  abbrev last : ℕ
  last = w * (h - 16)

  last_row : last + w * 16 ≡ w * h
  last_row =
      let e : h - 16 + 16 ≡ h = omega arith in sym (mul-add w (h - 16) 16) ∙ ap (λ n. w * n) e

  words_to_move : u32 (w * sub32 h 16) ≡ last
  words_to_move =
      let e : sub32 h 16 ≡ h - 16 = omega arith in ap (λ n. u32 (w * n)) e ∙ omega (arith, last_row)

  scrolled :
      (fb : ℕ → ℕ) (j : ℕ)
      → fill (w * h - last) last (move last 0 (w * 16) fb) j
        ≡ (if ltb j last then fb (j + w * 16) else if ltb j (w * h) then color_bg else fb j)
  scrolled fb j = elim (dec_lt j last) [
    | yes moved ↦ rw (lt→ltb j last moved) (
        fill_out (w * h - last) last _ j (inl moved)
        ∙ move_in last 0 (w * 16) fb j (omega arith) (omega arith))
    | no rest ↦ rw (ltb_of_not-lt j last rest) (elim (dec_lt j (w * h)) [
      | yes on ↦
          rw (lt→ltb j (w * h) on)
            (fill_in (w * h - last) last _ j (omega arith) (omega (arith, last_row)))
      | no off ↦ rw (ltb_of_not-lt j (w * h) off) (
          fill_out (w * h - last) last _ j (inr (omega (arith, last_row)))
          ∙ move_out last 0 (w * 16) fb j (inr (omega arith)))
    ])
  ]

-- On a screen of at least 16 rows and of less than 2 ^ 32 pixels, a scroll moves the text up by
-- 16 rows, clears the last 16, and leaves the memory behind the framebuffer. The height is
-- below 2 ^ 31.
pub term_scroll_lem :
    (t : Terminal) (j : ℕ)
    → 16 ≤ t.screen_height
    → t.screen_height < 2 ^ 31
    → t.screen_width * t.screen_height < 2 ^ 32
    → (term_scroll t).framebuffer j ≡ (
        if ltb j (t.screen_width * (t.screen_height - 16))
        then t.framebuffer (j + t.screen_width * 16)
        else if ltb j (t.screen_width * t.screen_height)
        then color_bg
        else t.framebuffer j)
unfolding term_scroll
term_scroll_lem t j low high area =
    let w = t.screen_width in
    let h = t.screen_height in
    let all : u32 (w * h) ≡ w * h = omega arith in
    let row : u32 (w * 16) ≡ w * 16 = omega (arith, last_row w h low high area) in
    rw (all, row, words_to_move w h low high area) (scrolled w h low high area t.framebuffer j)

pub term_scroll_beyond :
    (t : Terminal) (j : ℕ)
    → 16 ≤ t.screen_height
    → t.screen_height < 2 ^ 31
    → t.screen_width * t.screen_height < 2 ^ 32
    → t.screen_width * t.screen_height ≤ j
    → (term_scroll t).framebuffer j ≡ t.framebuffer j
term_scroll_beyond t j low high area le =
    let w = t.screen_width in
    let h = t.screen_height in
    term_scroll_lem t j low high area
    ∙ rw (
      ltb_of_not-lt j (w * (h - 16)) (omega (arith, last_row w h low high area)),
      ltb_of_not-lt j (w * h) (omega arith),
    )

pub term_scroll_fields :
    (t : Terminal)
    → ((term_scroll t).screen_width ≡ t.screen_width)
      × ((term_scroll t).screen_height ≡ t.screen_height)
      × ((term_scroll t).cursor_x ≡ t.cursor_x)
      × ((term_scroll t).cursor_y ≡ sub32 t.cursor_y 16)
unfolding term_scroll
term_scroll_fields t = (refl, refl, refl, refl)

clear_word : (n : ℕ) (fb : ℕ → ℕ) (j : ℕ) → fill n 0 fb j ≡ (if ltb j n then color_bg else fb j)
clear_word n fb j = elim (Bool-cases (ltb j n)) [
  | inl inside ↦
      rw (inside) (fill_in n 0 fb j (omega arith) (let lt = ltb→lt j n inside in omega arith))
  | inr outside ↦ rw (outside) (fill_out n 0 fb j (inr (ground arith)))
]

-- Clearing a screen whose pixels a 32-bit number counts gives each of them the background colour,
-- and leaves the memory behind them.
pub term_clear_screen_lem :
    (t : Terminal) (j : ℕ)
    → t.screen_width * t.screen_height < 2 ^ 32
    → (term_clear_screen t).framebuffer j
      ≡ (if ltb j (t.screen_width * t.screen_height) then color_bg else t.framebuffer j)
unfolding term_clear_screen
term_clear_screen_lem t j area =
    let e : u32 (t.screen_width * t.screen_height) ≡ t.screen_width * t.screen_height =
      omega arith in
    ap (λ n. fill n 0 t.framebuffer j) e
    ∙ clear_word (t.screen_width * t.screen_height) t.framebuffer j
