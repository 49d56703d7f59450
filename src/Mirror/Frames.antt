-- ===== src/Mirror/Frames.antt =====
-- internal/gw/itemstack.go: what setAll leaves in a mirror and what playerView shows of it.
use tachyne_gw_bedrock.Prelude.{
  ℕ, zero, suc, ◌+◌, ◌-◌, ◌≤◌, ◌<◌, ◌≡◌, ◌≢◌, refl, sym, ap, ◌∙◌, List, false, [], ◌∷◌, ◌++◌, arith,
  length, get_or, set, take, drop, replicate, length-set, length-replicate, length-append,
  get_or-set_self, get_or-set_ne, eq_of_get_or, ℕ_discrete,
}
use mathlib.Core.List.{append_assoc}
use tachyne_gw_bedrock.Item.{ItemStack, no_item}
use tachyne_gw_bedrock.Mirror.{Mirror, fill_below, set_all, player_view, slice}
use tachyne_gw_bedrock.Mirror.Invariant.{IsMirror, length-fill_below}

-- Reading by index past an append.
get_or-append_left :
    (xs ys : List ItemStack) (i : ℕ)
    → i < length xs
    → get_or (xs ++ ys) i no_item ≡ get_or xs i no_item
get_or-append_left [] ys i h = absurd (omega arith)
get_or-append_left (x ∷ xs) ys zero h = refl
get_or-append_left (x ∷ xs) ys (suc i) h = get_or-append_left xs ys i (omega arith)

get_or-append_last :
    (xs : List ItemStack) (v : ItemStack) → get_or (xs ++ v ∷ []) (length xs) no_item ≡ v
get_or-append_last [] v = refl
get_or-append_last (x ∷ xs) v = get_or-append_last xs v

-- The slots that the loop of setAll has not reached keep what they hold.
fill_below-before :
    (c i : ℕ) (frame xs : List ItemStack) (j : ℕ)
    → j < i
    → get_or (fill_below c i frame xs) j no_item ≡ get_or xs j no_item
unfolding fill_below
fill_below-before c i [] xs j h = refl
fill_below-before c i (st ∷ frame) xs j h = ground (
  arith,
  fill_below-before c (suc i) frame (set xs i st) j,
  fill_below-before c (suc i) frame xs j,
  get_or-set_ne xs i j st no_item,
)

fill_below-at :
    (c i : ℕ) (frame xs : List ItemStack) (k j : ℕ)
    → i + k ≡ j
    → k < length frame
    → j < c
    → c ≤ length xs
    → get_or (fill_below c i frame xs) j no_item ≡ get_or frame k no_item
unfolding fill_below
fill_below-at c i [] xs k j e h b l = absurd (omega arith)
fill_below-at c i (st ∷ frame) xs zero j e h b l =
    ground
      (arith, fill_below-before c (suc i) frame (set xs i st) j, get_or-set_self xs j st no_item)
fill_below-at c i (st ∷ frame) xs (suc k) j e h b l =
    ground (arith, length-set xs i st, fill_below-at c (suc i) frame (set xs i st) k j)

-- A frame for the whole of a window in shape is what the mirror then holds, with the held stack
-- behind it.
pub set_all-slots :
    (m : Mirror) (frame : List ItemStack) (held : ItemStack)
    → IsMirror m
    → length frame ≡ m.cursor
    → (set_all m frame held).slots ≡ frame ++ held ∷ []
unfolding set_all
set_all-slots m frame held v e =
    eq_of_get_or _ _ no_item
      (omega (
        arith,
        length-set filled m.cursor held,
        length-filled,
        v.sized,
        length-append frame (held ∷ []),
      ))
      (λ i h. at i (omega (arith, h, length-set filled m.cursor held, length-filled)))
  where
    filled : List ItemStack
    filled = fill_below m.cursor 0 frame (replicate (length m.slots) no_item)

    length-filled : length filled ≡ length m.slots
    length-filled =
        length-fill_below m.cursor 0 frame (replicate (length m.slots) no_item)
        ∙ length-replicate (length m.slots) no_item

    at :
        (i : ℕ)
        → i < length m.slots
        → get_or (set filled m.cursor held) i no_item ≡ get_or (frame ++ held ∷ []) i no_item
    at i h = elim (ℕ_discrete i m.cursor) [
      | yes q ↦
          ap (λ k. get_or (set filled m.cursor held) k no_item) q
          ∙ get_or-set_self filled m.cursor held no_item (omega (arith, length-filled, v.sized))
          ∙ sym (get_or-append_last frame held)
          ∙ ap (λ k. get_or (frame ++ held ∷ []) k no_item) (e ∙ sym q)
      | no q ↦
          get_or-set_ne filled m.cursor i held no_item (λ r. q (sym r))
          ∙ fill_below-at m.cursor 0 frame (replicate (length m.slots) no_item) i i (omega arith)
              (omega (arith, v.sized)) (omega (arith, v.sized))
              (omega (arith, v.sized, length-replicate (length m.slots) no_item))
          ∙ sym (get_or-append_left frame (held ∷ []) i (omega (arith, v.sized)))
    ]

drop-of_append : (n : ℕ) (xs ys : List ItemStack) → length xs ≡ n → drop n (xs ++ ys) ≡ ys
drop-of_append zero [] ys e = refl
drop-of_append zero (x ∷ xs) ys e = absurd (omega arith)
drop-of_append (suc n) [] ys e = absurd (omega arith)
drop-of_append (suc n) (x ∷ xs) ys e = drop-of_append n xs ys (omega arith)

take-of_append : (n : ℕ) (xs ys : List ItemStack) → length xs ≡ n → take n (xs ++ ys) ≡ xs
take-of_append zero [] ys e = refl
take-of_append zero (x ∷ xs) ys e = absurd (omega arith)
take-of_append (suc n) [] ys e = absurd (omega arith)
take-of_append (suc n) (x ∷ xs) ys e = ap (◌∷◌ x) (take-of_append n xs ys (omega arith))

slice-of_append :
    (a b : ℕ) (xs ys zs : List ItemStack)
    → length xs ≡ a
    → a + length ys ≡ b
    → slice a b (xs ++ (ys ++ zs)) ≡ ys
slice-of_append a b xs ys zs e h =
    ap (take (b - a)) (drop-of_append a xs (ys ++ zs) e)
    ∙ take-of_append (b - a) ys zs (omega arith)

-- What playerView makes of the slots of a window whose contents, main rows, hotbar and the slots
-- behind them are known: it goes by the number of slots alone.
player_view-slots :
    (m : Mirror) (contents main hotbar rest : List ItemStack)
    → m.window ≢ 0
    → m.slots ≡ contents ++ (main ++ (hotbar ++ rest))
    → length main ≡ 27
    → length hotbar ≡ 9
    → length rest ≡ 1
    → player_view m ≡ replicate 9 no_item ++ (main ++ (hotbar ++ no_item ∷ []))
unfolding player_view
player_view-slots m contents main hotbar rest w e a b c = ground (
  arith,
  ap (slice size (size + 27)) e
      ∙ slice-of_append size (size + 27) contents main (hotbar ++ rest) at (omega (arith, a)),
  ap (slice (size + 27) (size + 36)) (e ∙ sym (append_assoc contents main (hotbar ++ rest)))
      ∙ slice-of_append (size + 27) (size + 36) (contents ++ main) hotbar rest
          (omega (arith, a, at, length-append contents main)) (omega (arith, b)),
)
  where
    size : ℕ
    size = length m.slots - 36 - 1

    at : length contents ≡ size
    at = omega (
      arith,
      ap length e,
      length-append contents (main ++ (hotbar ++ rest)),
      length-append main (hotbar ++ rest),
      length-append hotbar rest,
      a,
      b,
      c,
    )

-- The player's half of a container window in shape and without a tail, after a frame of the
-- world's for the whole window: playerView shows each of its 36 slots where it lies.
pub player_view-set_all :
    (m : Mirror) (contents main hotbar : List ItemStack) (held : ItemStack)
    → IsMirror m
    → m.window ≢ 0
    → m.own ≡ false
    → m.tail ≡ []
    → length contents ≡ length m.layout
    → length main ≡ 27
    → length hotbar ≡ 9
    → player_view (set_all m (contents ++ (main ++ hotbar)) held)
      ≡ replicate 9 no_item ++ (main ++ (hotbar ++ no_item ∷ []))
unfolding set_all
player_view-set_all m contents main hotbar held v w o t l a b =
    player_view-slots (set_all m (contents ++ (main ++ hotbar)) held) contents main hotbar
      (held ∷ []) w
      (set_all-slots m (contents ++ (main ++ hotbar)) held v (omega (arith, cursor, lengths))
        ∙ append_assoc contents (main ++ hotbar) (held ∷ [])
        ∙ ap (◌++◌ contents) (append_assoc main hotbar (held ∷ [])))
      a b refl
  where
    cursor : m.cursor ≡ length m.layout + 36
    cursor = ground (arith, v.shape, o, t)

    lengths : length (contents ++ (main ++ hotbar)) ≡ length m.layout + 36
    lengths =
        omega (arith, l, a, b, length-append contents (main ++ hotbar), length-append main hotbar)

-- The same for a window with one slot in its tail, as a crafter's, whose frame has that slot last:
-- the first slot of the player's half, `first`, is not shown, the others are shown one slot early,
-- and the tail's slot `out` is shown as the last of the hotbar.
pub player_view-set_all_tail :
    (m : Mirror) (contents main hotbar : List ItemStack) (first out held : ItemStack)
    → IsMirror m
    → m.window ≢ 0
    → m.own ≡ false
    → length m.tail ≡ 1
    → length contents ≡ length m.layout
    → length main ≡ 27
    → length hotbar ≡ 8
    → player_view (set_all m (contents ++ first ∷ (main ++ (hotbar ++ out ∷ []))) held)
      ≡ replicate 9 no_item ++ (main ++ ((hotbar ++ out ∷ []) ++ no_item ∷ []))
unfolding set_all
player_view-set_all_tail m contents main hotbar first out held v w o t l a b =
    player_view-slots (set_all m frame held) (contents ++ first ∷ []) main (hotbar ++ out ∷ [])
      (held ∷ []) w
      (set_all-slots m frame held v (omega (arith, cursor, lengths))
        ∙ append_assoc contents (first ∷ (main ++ (hotbar ++ out ∷ []))) (held ∷ [])
        ∙ ap (λ r. contents ++ first ∷ r) (append_assoc main (hotbar ++ out ∷ []) (held ∷ []))
        ∙ sym (append_assoc contents (first ∷ []) (main ++ ((hotbar ++ out ∷ []) ++ held ∷ []))))
      a (omega (arith, b, length-append hotbar (out ∷ []))) refl
  where
    frame : List ItemStack
    frame = contents ++ first ∷ (main ++ (hotbar ++ out ∷ []))

    cursor : m.cursor ≡ length m.layout + 37
    cursor = ground (arith, v.shape, o, t)

    lengths : length frame ≡ length m.layout + 37
    lengths = omega (
      arith,
      l,
      a,
      b,
      length-append contents (first ∷ (main ++ (hotbar ++ out ∷ []))),
      length-append main (hotbar ++ out ∷ []),
      length-append hotbar (out ∷ []),
    )
