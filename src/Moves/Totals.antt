-- ===== src/Moves/Totals.antt =====
-- internal/gw/itemstack.go: the items that the slots hold, counted over transfer, swap and shed.
use tachyne_gw_bedrock.Prelude.{
  ℕ, zero, suc, ◌+◌, ◌≤◌, ◌<◌, ◌^◌, ◌≡◌, ◌≢◌, refl, ap, ℕ_discrete, List, [], ◌∷◌, some, arith,
  ◌==◌, if◌then◌else◌, length, get_or, set, get_or-set_ne, set-get_or_self, length-set,
}
use tachyne_gw_bedrock.Item.{ItemStack, no_item}
use tachyne_gw_bedrock.Moves.{
  move_stacks, transfer, swap_slots, shed, left_of, Transferred, transfer-Transferred,
  swap_slots-written, shed-written, shed-le,
}

-- How many of an item a stack holds, and how many a list of slots holds.
abbrev pub of_item : ℕ → ItemStack → ℕ
of_item id st = if st.id == id then st.count else 0

pub total : ℕ → List ItemStack → ℕ
total id [] = 0
total id (st ∷ xs) = of_item id st + total id xs

-- All the items in the slots.
unfoldable pub load : List ItemStack → ℕ
load [] = 0
load (st ∷ xs) = st.count + load xs

pub total-set :
    (id : ℕ) (xs : List ItemStack) (i : ℕ) (st : ItemStack)
    → i < length xs
    → total id (set xs i st) + of_item id (get_or xs i no_item) ≡ total id xs + of_item id st
unfolding total
total-set id [] i st h = absurd (omega arith)
total-set id (x ∷ xs) zero st h = omega arith
total-set id (x ∷ xs) (suc i) st h = omega (arith, total-set id xs i st)

pub load-set :
    (xs : List ItemStack) (i : ℕ) (st : ItemStack)
    → i < length xs
    → load (set xs i st) + (get_or xs i no_item).count ≡ load xs + st.count
unfolding load
load-set [] i st h = absurd (omega arith)
load-set (x ∷ xs) zero st h = omega arith
load-set (x ∷ xs) (suc i) st h = omega (arith, load-set xs i st)

pub count-le-load : (xs : List ItemStack) (i : ℕ) → (get_or xs i no_item).count ≤ load xs
unfolding load
count-le-load [] i = omega arith
count-le-load (x ∷ xs) zero = omega arith
count-le-load (x ∷ xs) (suc i) = omega (arith, count-le-load xs i)

-- Two different slots hold no more than all.
pub counts-le-load :
    (xs : List ItemStack) (i j : ℕ)
    → i ≢ j
    → (get_or xs i no_item).count + (get_or xs j no_item).count ≤ load xs
unfolding load
counts-le-load [] i j h = omega arith
counts-le-load (x ∷ xs) zero zero h = absurd (h refl)
counts-le-load (x ∷ xs) zero (suc j) h = omega (arith, count-le-load xs j)
counts-le-load (x ∷ xs) (suc i) zero h = omega (arith, count-le-load xs i)
counts-le-load (x ∷ xs) (suc i) (suc j) h =
    omega (arith, counts-le-load xs i j (λ e. h (omega (arith))))

-- The stacks that a move leaves hold what the two held, as long as their sum is an int32.
pub move_stacks-totals :
    (id : ℕ) (src dst : ItemStack) (count : ℕ) (a b : ItemStack)
    → src.count + dst.count < 2 ^ 31
    → count < 2 ^ 8
    → move_stacks src dst count ≡ some (a, b)
    → (of_item id a + of_item id b ≡ of_item id src + of_item id dst)
      × (a.count + b.count ≡ src.count + dst.count)
unfolding move_stacks
move_stacks-totals id src dst count a b h q e = ground arith

-- What an operation on the slots leaves as it was.
pub record Keeps (xs ys : List ItemStack) : Type 0 where
  pub size : length ys ≡ length xs
  pub items : (id : ℕ) → total id ys ≡ total id xs
  pub all : load ys ≡ load xs

-- Two slots written together, with the items of the two before.
set-set-Keeps :
    (xs : List ItemStack) (i j : ℕ) (a b : ItemStack)
    → i ≢ j
    → i < length xs
    → j < length xs
    → ((id : ℕ)
        → of_item id a + of_item id b
          ≡ of_item id (get_or xs i no_item) + of_item id (get_or xs j no_item))
    → a.count + b.count ≡ (get_or xs i no_item).count + (get_or xs j no_item).count
    → Keeps xs (set (set xs i a) j b)
set-set-Keeps xs i j a b ne hi hj items all = record {
  size = omega (arith, length-set (set xs i a) j b, length-set xs i a);
  items = λ id. omega (
    arith,
    total-set id xs i a hi,
    total-set id (set xs i a) j b (omega (arith, length-set xs i a)),
    items id,
    ap (of_item id) (get_or-set_ne xs i j a no_item ne),
  );
  all = omega (
    arith,
    load-set xs i a hi,
    load-set (set xs i a) j b (omega (arith, length-set xs i a)),
    all,
    ap (λ (s : ItemStack). s.count) (get_or-set_ne xs i j a no_item ne),
  );
}

-- A transfer of a byte's count that is not refused keeps the number of each item and of all, where
-- the slots hold an int32 of items.
pub transfer-Keeps :
    (xs : List ItemStack) (from to count : ℕ) (ys : List ItemStack)
    → load xs < 2 ^ 31
    → count < 2 ^ 8
    → transfer xs from to count ≡ some ys
    → Keeps xs ys
unfolding transfer
transfer-Keeps xs from to count ys h q e =
    rw t.written (
      set-set-Keeps xs from to t.src t.dst t.apart t.from_in t.to_in (λ id. (sums id).0) (sums 0).1)
  where
    t : Transferred xs from to count ys
    t = transfer-Transferred xs from to count ys e

    sums :
        (id : ℕ)
        → (of_item id t.src + of_item id t.dst
            ≡ of_item id (get_or xs from no_item) + of_item id (get_or xs to no_item))
          × (t.src.count + t.dst.count
              ≡ (get_or xs from no_item).count + (get_or xs to no_item).count)
    sums id =
        move_stacks-totals id (get_or xs from no_item) (get_or xs to no_item) count t.src t.dst
          (omega (arith, counts-le-load xs from to t.apart)) q t.moved

pub Keeps-refl : (xs : List ItemStack) → Keeps xs xs
Keeps-refl xs = record { size = refl; items = λ id. refl; all = refl }

-- swap keeps every item's number, a slot exchanged with itself included.
pub swap_slots-Keeps :
    (xs : List ItemStack) (a b : ℕ) (ys : List ItemStack)
    → swap_slots xs a b ≡ some ys
    → Keeps xs ys
swap_slots-Keeps xs a b ys e =
    let (ha, hb, w) = swap_slots-written xs a b ys e in
    elim (ℕ_discrete a b) [
      | yes same ↦
          (let same_stack : get_or xs b no_item ≡ get_or xs a no_item = rw same in
            rw
              (
                w,
                same_stack,
                set-get_or_self xs a no_item ha,
                same,
                set-get_or_self xs b no_item hb,
              )
              (Keeps-refl xs))
      | no apart ↦ rw w (
          set-set-Keeps xs a b (get_or xs b no_item) (get_or xs a no_item) apart ha hb
            (λ id. omega arith) (omega arith))
    ]

left_of-totals :
    (id : ℕ) (st : ItemStack) (count : ℕ)
    → st.count < 2 ^ 31
    → count ≤ st.count
    → (of_item id (left_of st count) ≤ of_item id st)
      × ((left_of st count).count + count ≡ st.count)
unfolding left_of
left_of-totals id st count h q = ground arith

-- What an operation may throw out of the slots.
pub record Sheds (xs ys : List ItemStack) : Type 0 where
  pub size : length ys ≡ length xs
  pub items : (id : ℕ) → total id ys ≤ total id xs
  pub all : load ys ≤ load xs

-- A shedding of a uint32 count that is not refused makes no item, where the slots hold an int32 of
-- items.
pub shed-Sheds :
    (xs : List ItemStack) (slot count : ℕ) (ys : List ItemStack)
    → count < 2 ^ 32
    → load xs < 2 ^ 31
    → shed xs slot count ≡ some ys
    → Sheds xs ys
shed-Sheds xs slot count ys q h e =
    let small : (get_or xs slot no_item).count < 2 ^ 31 = omega (arith, count-le-load xs slot) in
    let enough = shed-le xs slot count ys q small e in
    let (inside, w) = shed-written xs slot count ys e in
    let st = get_or xs slot no_item in
    let st' = left_of st count in
    let totals = λ (id : ℕ). left_of-totals id st count small enough in
    rw w (record {
      size = length-set xs slot st';
      items = λ id. omega (arith, total-set id xs slot st' inside, totals id);
      all = omega (arith, load-set xs slot st' inside, totals 0);
    })
