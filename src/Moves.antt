-- ===== src/Moves.antt =====
-- internal/gw/itemstack.go: transfer, swap, shed and dropHeld, the moves of items between the
-- slots of a mirror. A move that the code refuses with false is none.
pub mod Totals
use tachyne_gw_bedrock.Prelude.{
  ℕ, ◌≤◌, ◌<◌, ◌^◌, ◌≡◌, ◌≢◌, inl, inr, arith, Option-cases, Bool, List, [], ◌∷◌, Option, none,
  some, not, ◌&&◌, ◌||◌, ◌==◌, leb, if◌then◌else◌, lt_i32, le_i32, add_i32, sub_i32, length, get_or,
  set,
}
use tachyne_gw_bedrock.Item.{ItemStack, no_item}
use tachyne_gw_bedrock.Protocol.{Container}
use tachyne_gw_bedrock.Mirror.{Mirror, map_in}

-- The guard `slot < 0 || int(slot) >= len(slots)`.
abbrev pub outside : List ItemStack → ℕ → Bool
outside slots slot = lt_i32 slot 0 || leb (length slots) slot

-- What transfer does to the two stacks, once the slots are known to be there. The count is the
-- byte of a take or place action, so that it is no negative int.
unfoldable pub move_stacks : ItemStack → ItemStack → ℕ → Option (ItemStack × ItemStack)
move_stacks src dst count =
    if le_i32 src.count 0 || (count == 0 || lt_i32 src.count count)
    then none
    else if lt_i32 0 dst.count && not (dst.id == src.id)
    then none
    else (let left = sub_i32 src.count count in
        let src' : ItemStack = record src { count = left } in
        let moved : ItemStack = record src' { count = count } in
        let merged : ItemStack = record dst { count = add_i32 dst.count count } in
        some
          (if le_i32 left 0 then no_item else src', if lt_i32 0 dst.count then merged else moved))

-- transfer
unfoldable pub transfer : List ItemStack → ℕ → ℕ → ℕ → Option (List ItemStack)
unfolding move_stacks
transfer slots from to count =
    if from == to || (outside slots from || outside slots to)
    then none
    else elim (move_stacks (get_or slots from no_item) (get_or slots to no_item) count) [
      | none ↦ none
      | some (src, dst) ↦ some (set (set slots from src) to dst)
    ]

-- swap
unfoldable pub swap_slots : List ItemStack → ℕ → ℕ → Option (List ItemStack)
swap_slots slots a b =
    if outside slots a || outside slots b
    then none
    else some (set (set slots a (get_or slots b no_item)) b (get_or slots a no_item))

-- A stack less a count, the empty stack when nothing is left.
unfoldable pub left_of : ItemStack → ℕ → ItemStack
left_of st count =
    let left = sub_i32 st.count count in if left == 0 then no_item else record st { count = left }

-- shed
unfoldable pub shed : List ItemStack → ℕ → ℕ → Option (List ItemStack)
shed slots slot count =
    if outside slots slot || (le_i32 count 0 || lt_i32 (get_or slots slot no_item).count count)
    then none
    else some (set slots slot (left_of (get_or slots slot no_item) count))

-- attach.WindowClick, with its changed slots and the cursor.
pub record WindowClick : Type 0 where
  pub window : ℕ
  pub slot : ℕ
  pub changed : List (ℕ × ItemStack)
  pub held : ItemStack

-- dropHeld: the mirror sheds, and the click declares the slot.
abbrev pub drop_found : Mirror → ℕ → Option (List ItemStack) → Option (Mirror × WindowClick)
drop_found m j none = none
drop_found m j (some xs) = some (
  record m { slots = xs },
  record {
    window = m.window;
    slot = j;
    changed = (j, get_or xs j no_item) ∷ [];
    held = get_or xs m.cursor no_item;
  },
)

unfoldable pub drop_mapped : Mirror → ℕ → Option ℕ → Option (Mirror × WindowClick)
drop_mapped m count none = none
drop_mapped m count (some j) = drop_found m j (shed m.slots j count)

unfoldable pub drop_held : Mirror → Container → ℕ → ℕ → Option (Mirror × WindowClick)
unfolding drop_mapped
drop_held m c slot count = drop_mapped m count (map_in m c slot)

-- What a transfer, an exchange and a shedding that the code does not refuse have done.
pub record Transferred (xs : List ItemStack) (from to count : ℕ) (ys : List ItemStack)
    : Type 0 where
  pub src : ItemStack
  pub dst : ItemStack
  pub apart : from ≢ to
  pub from_in : from < length xs
  pub to_in : to < length xs
  pub moved : move_stacks (get_or xs from no_item) (get_or xs to no_item) count ≡ some (src, dst)
  pub written : ys ≡ set (set xs from src) to dst

pub transfer-Transferred :
    (xs : List ItemStack) (from to count : ℕ) (ys : List ItemStack)
    → transfer xs from to count ≡ some ys
    → Transferred xs from to count ys
unfolding transfer
transfer-Transferred xs from to count ys e =
    elim (Option-cases (move_stacks (get_or xs from no_item) (get_or xs to no_item) count)) [
      | inl no_move ↦ absurd (ground (arith, no_move))
      | inr ((src, dst), move) ↦ record {
        src = src;
        dst = dst;
        apart = ground (arith, move);
        from_in = ground (arith, move);
        to_in = ground (arith, move);
        moved = move;
        written = ground (arith, move);
      }
    ]

pub swap_slots-written :
    (xs : List ItemStack) (a b : ℕ) (ys : List ItemStack)
    → swap_slots xs a b ≡ some ys
    → (a < length xs)
      × (b < length xs)
      × (ys ≡ set (set xs a (get_or xs b no_item)) b (get_or xs a no_item))
unfolding swap_slots
swap_slots-written xs a b ys e = ground arith

pub shed-written :
    (xs : List ItemStack) (slot count : ℕ) (ys : List ItemStack)
    → shed xs slot count ≡ some ys
    → (slot < length xs) × (ys ≡ set xs slot (left_of (get_or xs slot no_item) count))
unfolding shed
shed-written xs slot count ys e = ground arith

-- An int32 that is not above a stack's count, and not negative.
pub shed-le :
    (xs : List ItemStack) (slot count : ℕ) (ys : List ItemStack)
    → count < 2 ^ 32
    → (get_or xs slot no_item).count < 2 ^ 31
    → shed xs slot count ≡ some ys
    → count ≤ (get_or xs slot no_item).count
unfolding shed
shed-le xs slot count ys h q e = ground arith
