-- ===== src/Maps/Patches.antt =====
-- internal/gw/maps.go: the pixels of a map after a frame.
use tachyne_gw_bedrock.Prelude.{
  ℕ, zero, suc, ◌+◌, ◌*◌, ◌≤◌, ◌<◌, ◌≡◌, ◌≢◌, refl, ◌∙◌, ◌⊎◌, inl, inr, List, arith, length, get_or,
  ℕ_discrete, length-set, get_or-set_self, get_or-set_ne,
}
use tachyne_gw_bedrock.Maps.{MapState, MapFrame, paint, paint_row, paint_rows, apply_frame}

module _ (colour : ℕ → ℕ) (e : MapFrame) where
  length-paint : (row col : ℕ) (px : List ℕ) → length (paint colour e row col px) ≡ length px
  unfolding paint
  length-paint row col px = ground (
    arith,
    length-set px ((e.top + row) * 128 + (e.left + col))
        (colour (get_or e.colors (row * e.width + col) 0)),
  )

  length-paint_row :
      (row n col : ℕ) (px : List ℕ) → length (paint_row colour e row n col px) ≡ length px
  unfolding paint_row
  length-paint_row row zero col px = refl
  length-paint_row row (suc n) col px =
      length-paint_row row n (suc col) (paint colour e row col px) ∙ length-paint row col px

  length-paint_rows : (n row : ℕ) (px : List ℕ) → length (paint_rows colour e n row px) ≡ length px
  unfolding paint_rows
  length-paint_rows zero row px = refl
  length-paint_rows (suc n) row px =
      length-paint_rows n (suc row) (paint_row colour e row e.width 0 px)
      ∙ length-paint_row row e.width 0 px

  paint-other :
      (row col x y : ℕ) (px : List ℕ)
      → x < 128
      → (x ≢ e.left + col) ⊎ (y ≢ e.top + row)
      → get_or (paint colour e row col px) (y * 128 + x) 0 ≡ get_or px (y * 128 + x) 0
  unfolding paint
  paint-other row col x y px h d = ground (
    arith,
    get_or-set_ne px ((e.top + row) * 128 + (e.left + col)) (y * 128 + x)
        (colour (get_or e.colors (row * e.width + col) 0)) 0,
  )

  paint_row-other :
      (row n col x y : ℕ) (px : List ℕ)
      → x < 128
      → (x < e.left + col) ⊎ ((e.left + col + n ≤ x) ⊎ (y ≢ e.top + row))
      → get_or (paint_row colour e row n col px) (y * 128 + x) 0 ≡ get_or px (y * 128 + x) 0
  unfolding paint_row
  paint_row-other row zero col x y px h d = refl
  paint_row-other row (suc n) col x y px h d =
      paint_row-other row n (suc col) x y (paint colour e row col px) h (omega (arith, d))
      ∙ paint-other row col x y px h (omega (arith, d))

  paint_rows-other :
      (n row x y : ℕ) (px : List ℕ)
      → x < 128
      → (x < e.left) ⊎ ((e.left + e.width ≤ x) ⊎ ((y < e.top + row) ⊎ (e.top + row + n ≤ y)))
      → get_or (paint_rows colour e n row px) (y * 128 + x) 0 ≡ get_or px (y * 128 + x) 0
  unfolding paint_rows
  paint_rows-other zero row x y px h d = refl
  paint_rows-other (suc n) row x y px h d =
      paint_rows-other n (suc row) x y (paint_row colour e row e.width 0 px) h (omega (arith, d))
      ∙ paint_row-other row e.width 0 x y px h (omega (arith, d))

  paint-at :
      (row col : ℕ) (px : List ℕ)
      → e.left + col < 128
      → e.top + row < 128
      → length px ≡ 16384
      → get_or (paint colour e row col px) ((e.top + row) * 128 + (e.left + col)) 0
        ≡ colour (get_or e.colors (row * e.width + col) 0)
  unfolding paint
  paint-at row col px a b l = ground (
    arith,
    get_or-set_self px ((e.top + row) * 128 + (e.left + col))
        (colour (get_or e.colors (row * e.width + col) 0)) 0,
  )

  paint_row-at :
      (row n col c : ℕ) (px : List ℕ)
      → col ≤ c
      → c < col + n
      → e.left + c < 128
      → e.top + row < 128
      → length px ≡ 16384
      → get_or (paint_row colour e row n col px) ((e.top + row) * 128 + (e.left + c)) 0
        ≡ colour (get_or e.colors (row * e.width + c) 0)
  unfolding paint_row
  paint_row-at row zero col c px p q a b l = absurd (omega arith)
  paint_row-at row (suc n) col c px p q a b l = elim (ℕ_discrete c col) [
    | yes s ↦ rw s (
        paint_row-other row n (suc col) (e.left + col) (e.top + row) (paint colour e row col px)
          (omega (arith, a, s)) (inl (omega arith))
        ∙ paint-at row col px (omega (arith, a, s)) b l)
    | no s ↦
        paint_row-at row n (suc col) c (paint colour e row col px) (omega arith) (omega arith) a b
          (length-paint row col px ∙ l)
  ]

  paint_rows-at :
      (n row r c : ℕ) (px : List ℕ)
      → row ≤ r
      → r < row + n
      → c < e.width
      → e.left + c < 128
      → e.top + r < 128
      → length px ≡ 16384
      → get_or (paint_rows colour e n row px) ((e.top + r) * 128 + (e.left + c)) 0
        ≡ colour (get_or e.colors (r * e.width + c) 0)
  unfolding paint_rows
  paint_rows-at zero row r c px p q w a b l = absurd (omega arith)
  paint_rows-at (suc n) row r c px p q w a b l = elim (ℕ_discrete r row) [
    | yes s ↦ rw s (
        paint_rows-other n (suc row) (e.left + c) (e.top + row)
          (paint_row colour e row e.width 0 px) a (inr (inr (inl (omega arith))))
        ∙ paint_row-at row e.width 0 c px (omega arith) (omega arith) a (omega (arith, b, s)) l)
    | no s ↦
        paint_rows-at n (suc row) r c (paint_row colour e row e.width 0 px) (omega arith)
          (omega arith) w a b (length-paint_row row e.width 0 px ∙ l)
  ]

  -- A frame's patch is what the map then shows: the pixel at column c and row r of a patch that the
  -- frame's colours fill, where it is on the map, is drawn from its own packed byte.
  pub apply_frame-at :
      (m : MapState) (r c : ℕ)
      → length m.pixels ≡ 16384
      → e.width * e.height ≤ length e.colors
      → r < e.height
      → c < e.width
      → e.left + c < 128
      → e.top + r < 128
      → get_or (apply_frame colour e m).pixels ((e.top + r) * 128 + (e.left + c)) 0
        ≡ colour (get_or e.colors (r * e.width + c) 0)
  unfolding apply_frame
  apply_frame-at m r c l f p w a b =
      ground (arith, paint_rows-at e.height 0 r c m.pixels (omega arith) (omega arith) w a b l)

  -- Whatever the frame holds, a pixel outside its rectangle is left as it was.
  pub apply_frame-other :
      (m : MapState) (x y : ℕ)
      → x < 128
      → (x < e.left) ⊎ ((e.left + e.width ≤ x) ⊎ ((y < e.top) ⊎ (e.top + e.height ≤ y)))
      → get_or (apply_frame colour e m).pixels (y * 128 + x) 0 ≡ get_or m.pixels (y * 128 + x) 0
  unfolding apply_frame
  apply_frame-other m x y h d =
      ground (arith, paint_rows-other e.height 0 x y m.pixels h (omega (arith, d)))
