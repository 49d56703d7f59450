-- ===== src/Mirror/Invariant.antt =====
-- internal/gw/itemstack.go and crafter.go: the shape of a mirror, with its cursor, its result slot
-- and the slots that a client can name.
use tachyne_gw_bedrock.Prelude.{
  ℕ, suc, ◌+◌, ◌≤◌, ◌<◌, ◌^◌, ◌≡◌, refl, ◌⊎◌, inl, Bool, true, false, List, [], ◌∷◌, ◌++◌,
  replicate, set, some, arith, minus_one, length, length-set, length-append, length-replicate,
  length-take,
}
use tachyne_gw_bedrock.Item.{ItemStack, no_item}
use tachyne_gw_bedrock.Protocol.{Container}
use tachyne_gw_bedrock.Layouts.{WinSlot}
use tachyne_gw_bedrock.Slots.RoundTrip.{bedrock_to_java-le}
use tachyne_gw_bedrock.Mirror.{
  Mirror, new_inv_mirror, new_window_mirror, find_result, find_slot, window_map_in, map_in,
  set_tail, fill_below, set_all, resize,
}

-- What newInvMirror, newWindowMirror and setTail lay out.
abbrev pub Shape : Bool → Mirror → Type 0
Shape true m = (m.cursor ≡ 46) × (m.result ≡ 0)
Shape false m =
    (m.cursor ≡ length m.layout + 36 + length m.tail)
    × ((m.result ≡ minus_one) ⊎ (m.result < length m.layout))

-- The cursor is the last slot, and a window is smaller than an int32 can count.
pub record IsMirror (m : Mirror) : Type 0 where
  pub sized : length m.slots ≡ m.cursor + 1
  pub small : length m.slots < 2 ^ 31
  pub shape : Shape m.own m

find_slot-lt :
    (l : List WinSlot) (j : ℕ) (c : Container) (i k : ℕ)
    → find_slot l j c i ≡ some k
    → k < j + length l
unfolding find_slot
find_slot-lt [] j c i k h = cc
find_slot-lt (ws ∷ l) j c i k h = ground (arith, find_slot-lt l (suc j) c i k)

window_map_in-lt :
    (m : Mirror) (c : Container) (i j : ℕ)
    → Shape false m
    → length m.layout < 2 ^ 31
    → window_map_in m c i ≡ some j
    → j ≤ m.cursor
unfolding window_map_in
window_map_in-lt m Container.cursor i j s b h = ground arith
window_map_in-lt m c i j s b h = ground (arith, find_slot-lt m.layout 0 c i j)

-- Whatever slot a client names, the index that mapIn returns is inside the slots of a mirror in
-- shape.
pub map_in-lt :
    (m : Mirror) (c : Container) (i j : ℕ) → IsMirror m → map_in m c i ≡ some j → j < length m.slots
unfolding map_in
map_in-lt m c i j v h =
    ground (arith, window_map_in-lt m c i j, bedrock_to_java-le c i j, v.sized, v.small)

pub new_inv_mirror-IsMirror : IsMirror new_inv_mirror
unfolding new_inv_mirror
new_inv_mirror-IsMirror = record { sized = refl; small = omega arith; shape = (refl, refl) }

find_result-in :
    (l : List WinSlot) (j found : ℕ)
    → (find_result l j found ≡ found) ⊎ (find_result l j found < j + length l)
unfolding find_result
find_result-in [] j found = inl refl
find_result-in (ws ∷ l) j found =
    ground (arith, find_result-in l (suc j) j, find_result-in l (suc j) found)

length-resize : (n : ℕ) (xs : List ItemStack) → length (resize n xs) ≡ n
length-resize n xs = omega (
  arith,
  length-take n (xs ++ replicate n no_item),
  length-append xs (replicate n no_item),
  length-replicate n no_item,
)

-- newWindowMirror lays a mirror out in shape for every layout of fewer than 2 ^ 30 slots.
pub new_window_mirror-IsMirror :
    (id : ℕ) (l : List WinSlot) → length l < 2 ^ 30 → IsMirror (new_window_mirror id l)
unfolding new_window_mirror
new_window_mirror-IsMirror id l h = record {
  sized = omega (arith, length-replicate (length l + 36 + 1) no_item);
  small = omega (arith, length-replicate (length l + 36 + 1) no_item);
  shape = (omega arith, omega (arith, find_result-in l 0 minus_one));
}

pub set_tail-IsMirror :
    (m : Mirror) (t : List WinSlot)
    → IsMirror m
    → m.own ≡ false
    → length m.layout + length t < 2 ^ 30
    → IsMirror (set_tail m t)
unfolding set_tail
set_tail-IsMirror m t v e h = record {
  sized = length-resize _ m.slots;
  small = omega (arith, length-resize (length m.layout + 36 + length t + 1) m.slots);
  shape = ground arith;
}

Shape-slots :
    (b : Bool) (m : Mirror) (xs : List ItemStack) → Shape b m → Shape b (record m { slots = xs })
Shape-slots true m xs s = s
Shape-slots false m xs s = s

-- Only the number of slots counts, not what they hold.
pub with_slots-IsMirror :
    (m : Mirror) (xs : List ItemStack)
    → IsMirror m
    → length xs ≡ length m.slots
    → IsMirror (record m { slots = xs })
with_slots-IsMirror m xs v e = record {
  sized = omega (arith, v.sized);
  small = omega (arith, v.small);
  shape = Shape-slots m.own m xs v.shape;
}

pub length-fill_below :
    (c i : ℕ) (frame xs : List ItemStack) → length (fill_below c i frame xs) ≡ length xs
unfolding fill_below
length-fill_below c i [] xs = refl
length-fill_below c i (st ∷ frame) xs = ground (
  arith,
  length-set xs i st,
  length-fill_below c (suc i) frame (set xs i st),
  length-fill_below c (suc i) frame xs,
)

pub length-set_all :
    (m : Mirror) (frame : List ItemStack) (held : ItemStack)
    → length (set_all m frame held).slots ≡ length m.slots
unfolding set_all
length-set_all m frame held = omega (
  arith,
  length-set (fill_below m.cursor 0 frame (replicate (length m.slots) no_item)) m.cursor held,
  length-fill_below m.cursor 0 frame (replicate (length m.slots) no_item),
  length-replicate (length m.slots) no_item,
)
