-- ===== src/Mirror/Writes.antt =====
-- internal/gw/itemstack.go: setAll, setCursor and set stay inside a mirror in shape.
use tachyne_gw_bedrock.Prelude.{
  ℕ, suc, ◌<◌, ◌≤◌, ◌≡◌, refl, List, [], ◌∷◌, length, length-set, length-replicate, set, replicate,
  ltb, lt→ltb, Bool-cases, inl, inr, ok, arith,
}
use tachyne_gw_bedrock.Item.{ItemStack, no_item}
use tachyne_gw_bedrock.Mirror.{Mirror, put_at, fill_below, set_all, write_below, write_all}
use tachyne_gw_bedrock.Mirror.Invariant.{IsMirror, length-fill_below}

pub put_at-inside :
    (xs : List ItemStack) (i : ℕ) (v : ItemStack) → i < length xs → put_at xs i v ≡ ok (set xs i v)
unfolding put_at
put_at-inside xs i v h = rw (lt→ltb i (length xs) h) refl

write_below-fill_below :
    (c i : ℕ) (frame xs : List ItemStack)
    → c ≤ length xs
    → write_below c i frame xs ≡ ok (fill_below c i frame xs)
unfolding write_below fill_below
write_below-fill_below c i [] xs h = refl
write_below-fill_below c i (st ∷ frame) xs h = elim (Bool-cases (ltb i c)) [
  | inl q ↦
      rw (q, put_at-inside xs i st (ground arith))
        (write_below-fill_below c (suc i) frame (set xs i st)
          (omega (arith, h, length-set xs i st)))
  | inr q ↦ rw q (write_below-fill_below c (suc i) frame xs h)
]

-- Against a mirror in shape no write of setAll is out of range, whatever the frame's length.
pub write_all-set_all :
    (m : Mirror) (frame : List ItemStack) (held : ItemStack)
    → IsMirror m
    → write_all m frame held ≡ ok (set_all m frame held)
unfolding write_all set_all
write_all-set_all m frame held v =
    let blank = replicate (length m.slots) no_item in
    rw
      (
        write_below-fill_below m.cursor 0 frame blank
            (omega (arith, v.sized, length-replicate (length m.slots) no_item)),
        put_at-inside (fill_below m.cursor 0 frame blank) m.cursor held (
            omega (
              arith,
              v.sized,
              length-fill_below m.cursor 0 frame blank,
              length-replicate (length m.slots) no_item,
            )),
      )
      refl
