-- ===== src/Requests/Crafts/Takes.antt =====
-- internal/gw/crafting.go: what takeResult does to the slots and says to the world.
use native.Mathlib.Nat.{div-add-mod}
use mathlib.Core.List.{append-nil, append_assoc}
use tachyne_gw_bedrock.Prelude.{
  ◌⊎◌, inl, inr, ◌&&◌, not, ℕ, zero, suc, ◌+◌, ◌*◌, ◌/◌, ◌%◌, ◌<◌, ◌^◌, ◌≡◌, ◌≢◌, refl, sym, ap,
  ◌∙◌, Bool, true, false, Bool-cases, List, [], ◌∷◌, ◌++◌, some, arith, length, get_elem?, get_or,
  set, length-set, get_or-set_self, get_or-set_ne, Safe, Safe-bind, Safe-or_refuse, Safe-get_elem?,
  Safe-guard, Safe-weaken, lt_i32, ◌==◌, if◌then◌else◌,
}
use tachyne_gw_bedrock.Item.{ItemStack, no_item}
use tachyne_gw_bedrock.Protocol.{SlotInfo, Container, same}
use tachyne_gw_bedrock.Mirror.{Mirror, map_in}
use tachyne_gw_bedrock.Mirror.Invariant.{IsMirror, map_in-lt}
use tachyne_gw_bedrock.Recipes.{CraftOutput}
use tachyne_gw_bedrock.Requests.Steps.{Work, CraftStep, say, touch}
use tachyne_gw_bedrock.Requests.Crafts.{
  Craft, put_on, take_one, take_times, take_result, result_click, put_down_click,
}

-- How many of the steps click a slot.
abbrev clicks_on : ℕ → CraftStep → ℕ
clicks_on slot (CraftStep.click c) = if c.slot == slot then 1 else 0
clicks_on slot _ = 0

pub clicks : ℕ → List CraftStep → ℕ
clicks slot [] = 0
clicks slot (s ∷ rest) = clicks_on slot s + clicks slot rest

clicks-append :
    (slot : ℕ) (xs : List CraftStep) (s : CraftStep)
    → clicks slot (xs ++ s ∷ []) ≡ clicks slot xs + clicks_on slot s
unfolding clicks
clicks-append slot [] s = omega arith
clicks-append slot (x ∷ xs) s = omega (arith, clicks-append slot xs s)

get_or-get_elem? :
    (xs : List ItemStack) (i : ℕ) (st : ItemStack)
    → get_elem? xs i ≡ some st
    → get_or xs i no_item ≡ st
get_or-get_elem? [] i st e = cc
get_or-get_elem? (x ∷ xs) zero st e = cc
get_or-get_elem? (x ∷ xs) (suc i) st e = get_or-get_elem? xs i st e

-- The result put on a stack: its id, and the sum of the counts as int32s.
abbrev pub piled : ItemStack → ItemStack → ItemStack
piled st r = record st { id = r.id; count = (st.count + r.count) % 2 ^ 32 }

abbrev pub piles : ItemStack → ItemStack → ℕ → ItemStack
piles st r zero = st
piles st r (suc n) = piles (piled st r) r n

-- What n crafts onto a slot that holds st say: for each of them the recipe's placement when the client crafts by itself, a
-- click on the result that takes it up, and unless the slot is the cursor a click that puts it down there with what the slot
-- then holds.
pub words : Mirror → CraftOutput → Bool → ℕ → ℕ → ItemStack → List CraftStep
words m out auto dest zero st = []
words m out auto dest (suc n) st =
    (if auto then CraftStep.place m.window out.book_id ∷ [] else [])
    ++ (CraftStep.click
            (record { window = m.window; slot = m.result; changed = []; held = out.result })
          ∷ (if dest == m.cursor
              then []
              else CraftStep.click (record {
                window = m.window;
                slot = dest;
                changed = (dest, piled st out.result) ∷ [];
                held = no_item;
              })
                ∷ [])
        ++ words m out auto dest n (piled st out.result))

words-suc :
    (m : Mirror) (out : CraftOutput) (auto : Bool) (dest n : ℕ) (st : ItemStack)
    → words m out auto dest 1 st ++ words m out auto dest n (piled st out.result)
      ≡ words m out auto dest (suc n) st
unfolding words
words-suc m out true dest n st = elim (Bool-cases (dest == m.cursor)) [
  | inl h ↦ rw h refl
  | inr h ↦ rw h refl
]
words-suc m out false dest n st = elim (Bool-cases (dest == m.cursor)) [
  | inl h ↦ rw h refl
  | inr h ↦ rw h refl
]

-- The work after n crafts have been put on a slot.
pub record Took (m : Mirror) (out : CraftOutput) (auto : Bool) (dest n : ℕ) (w w' : Work)
    : Type 0 where
  pub size : length w'.slots ≡ length w.slots
  pub same : w'.touched ≡ w.touched
  pub other : (j : ℕ) → j ≢ dest → get_or w'.slots j no_item ≡ get_or w.slots j no_item
  pub said : w'.steps ≡ w.steps ++ words m out auto dest n (get_or w.slots dest no_item)
  pub held : get_or w'.slots dest no_item ≡ piles (get_or w.slots dest no_item) out.result n
  pub clicked : clicks m.result w'.steps ≡ clicks m.result w.steps + n
  pub amount :
      (get_or w'.slots dest no_item).count % 2 ^ 32
      ≡ ((get_or w.slots dest no_item).count + n * out.result.count) % 2 ^ 32
  pub item : ((n ≡ 0) × (w'.slots ≡ w.slots)) ⊎ ((get_or w'.slots dest no_item).id ≡ out.result.id)

module _ (m : Mirror) (out : CraftOutput) (auto : Bool) (dest : ℕ) where
  put_on-sum :
      (st r : ItemStack)
      → Safe
          (λ x. (x.id ≡ r.id) × (x.count ≡ (st.count + r.count) % 2 ^ 32) × (x ≡ piled st r))
          (put_on st r)
  unfolding put_on
  put_on-sum st r = ground arith

  -- The work that a round ends with.
  abbrev round : ItemStack → Work → Work
  round st w =
      let w1 = if auto then say w (CraftStep.place m.window out.book_id) else w in
      let w2 = say w1 (result_click m out.result) in
      let w3 : Work = record w2 { slots = set w.slots dest st } in
      if dest == m.cursor then w3 else say w3 (put_down_click m dest st)

  clicks-round :
      (st : ItemStack) (w : Work)
      → dest ≢ m.result
      → clicks m.result (round st w).steps ≡ clicks m.result w.steps + 1
  clicks-round st w ne = ground (
    arith,
    clicks-append m.result w.steps (result_click m out.result),
    clicks-append m.result w.steps (CraftStep.place m.window out.book_id),
    clicks-append m.result (w.steps ++ CraftStep.place m.window out.book_id ∷ [])
        (result_click m out.result),
    clicks-append m.result (w.steps ++ result_click m out.result ∷ []) (put_down_click m dest st),
    clicks-append m.result
        ((w.steps ++ CraftStep.place m.window out.book_id ∷ []) ++ result_click m out.result ∷ [])
        (put_down_click m dest st),
  )

  round-said :
      (st : ItemStack) (w : Work)
      → (round (piled st out.result) w).steps ≡ w.steps ++ words m out auto dest 1 st
  unfolding words
  round-said st w = elim (Bool-cases auto) [
    | inl a ↦ elim (Bool-cases (dest == m.cursor)) [
      | inl h ↦ rw (a, h) (simp append_assoc)
      | inr h ↦ rw (a, h) (simp append_assoc)
    ]
    | inr a ↦ elim (Bool-cases (dest == m.cursor)) [
      | inl h ↦ rw (a, h) refl
      | inr h ↦ rw (a, h) (simp append_assoc)
    ]
  ]

  round-slots :
      (st : ItemStack) (w : Work)
      → ((round st w).slots ≡ set w.slots dest st) × ((round st w).touched ≡ w.touched)
  round-slots st w = ground arith

  take_one-Took :
      (w : Work)
      → dest < length w.slots
      → dest ≢ m.result
      → Safe (Took m out auto dest 1 w) (take_one m out auto dest w)
  unfolding take_one
  take_one-Took w h ne = Safe-get_elem? _ w.slots dest _ h λ st e.
      Safe-bind _ _ (put_on st out.result) _ (put_on-sum st out.result) λ st' e' sum.
        let (slots, touched) = round-slots st' w in
        let old = get_or-get_elem? w.slots dest st e in
        let new : get_or (round st' w).slots dest no_item ≡ st' =
          rw slots (get_or-set_self w.slots dest st' no_item h) in
        record {
          size = ap length slots ∙ length-set w.slots dest st';
          same = touched;
          said = rw (sum.2, old) (round-said st w);
          held = new ∙ sum.2 ∙ ap (λ x. piled x out.result) (sym old);
          other = λ j q. rw slots (get_or-set_ne w.slots dest j st' no_item (λ p. q (sym p)));
          clicked = clicks-round st' w ne;
          amount = rw (new, old) (omega (arith, sum.1));
          item = inr (rw new sum.0);
        }

  Took-none : (w : Work) → Took m out auto dest 0 w w
  unfolding words
  Took-none w = record {
    size = refl;
    same = refl;
    said = sym (append-nil w.steps);
    held = refl;
    other = λ j q. refl;
    clicked = omega arith;
    amount = omega arith;
    item = inl (refl, refl);
  }

  first_item :
      (u v : Work)
      → ((◌≡◌ {A = ℕ} 1 0) × (v.slots ≡ u.slots))
        ⊎ ((get_or v.slots dest no_item).id ≡ out.result.id)
      → (get_or v.slots dest no_item).id ≡ out.result.id
  first_item u v (inl (e, q)) = absurd (omega arith)
  first_item u v (inr e) = e

  last_item :
      (n : ℕ) (v w : Work)
      → ((n ≡ 0) × (w.slots ≡ v.slots)) ⊎ ((get_or w.slots dest no_item).id ≡ out.result.id)
      → (get_or v.slots dest no_item).id ≡ out.result.id
      → (get_or w.slots dest no_item).id ≡ out.result.id
  last_item n v w (inl (e, q)) h = rw q h
  last_item n v w (inr e) h = e

  Took-next :
      (n : ℕ) {u v w : Work}
      → Took m out auto dest 1 u v
      → Took m out auto dest n v w
      → Took m out auto dest (suc n) u w
  Took-next n {u} {v} {w} a b = record {
    size = b.size ∙ a.size;
    same = b.same ∙ a.same;
    said =
        b.said
        ∙ ap (λ x. v.steps ++ words m out auto dest n x) a.held
        ∙ ap (λ xs. xs ++ words m out auto dest n (piled (get_or u.slots dest no_item) out.result))
            a.said
        ∙ append_assoc u.steps _ _
        ∙ ap (λ xs. u.steps ++ xs) (words-suc m out auto dest n (get_or u.slots dest no_item));
    held = b.held ∙ ap (λ x. piles x out.result n) a.held;
    other = λ j q. b.other j q ∙ a.other j q;
    clicked = omega (arith, b.clicked, a.clicked);
    amount = omega (arith, a.amount, b.amount);
    item = inr (last_item n v w b.item (first_item u v a.item));
  }

  take_times-Took :
      (n : ℕ) (w : Work)
      → dest < length w.slots
      → dest ≢ m.result
      → Safe (Took m out auto dest n w) (take_times m n out auto dest w)
  unfolding take_times
  take_times-Took zero w h ne = Took-none w
  take_times-Took (suc n) w h ne =
      Safe-bind _ (Took m out auto dest 1 w) (take_one m out auto dest w) _ (take_one-Took w h ne)
        λ v _ first.
          Safe-weaken _ (Took m out auto dest n v) (take_times m n out auto dest v)
            (take_times-Took n v (omega (arith, first.size, h)) ne)
            (λ w' later. Took-next n first later)

-- What takeResult does to the slots and says to the world: the slot that the client named holds
-- `count` more of the result, by the sum of int32s, after `times` crafts.
pub record Delivered (m : Mirror) (c : Craft) (dst : SlotInfo) (count : ℕ) (w : Work) : Type 0 where
  pub dest : ℕ
  pub place : map_in m dst.container dst.slot ≡ some dest
  pub times : ℕ
  pub whole : times * c.out.result.count ≡ count
  pub took : Took m c.out c.auto dest times c.work (record w { touched = c.work.touched })
  pub marked : w.touched ≡ touch dest c.work.touched

-- Against a mirror in shape, a take of a result that is not refused adds the count asked for, by
-- the sum of int32s, to the slot that the client named, which then holds the result's item, and
-- changes no other slot. What it says to the world is, for each whole result in turn, the recipe's
-- placement if the client crafts by itself, a click on the result and, unless the slot is the
-- cursor, a click that puts the result down with what the slot then holds, and nothing else.
pub take_result-Delivered :
    (m : Mirror) (c : Craft) (src dst : SlotInfo) (count : ℕ)
    → IsMirror m
    → length c.work.slots ≡ length m.slots
    → Safe (Delivered m c dst count) (take_result m c src dst count)
unfolding take_result
take_result-Delivered m c src dst count v size =
    Safe-guard _ (c.named && (same src.container Container.created_output && lt_i32 0 per)) _ λ g.
      Safe-or_refuse _ (map_in m dst.container dst.slot) _ λ dest e.
        Safe-guard _ (not (dest == m.result) && (not (count == 0) && count % per == 0)) _ λ g2.
          Safe-bind _ (Took m c.out c.auto dest (count / per) c.work)
            (take_times m (count / per) c.out c.auto dest c.work) _
            (take_times-Took m c.out c.auto dest (count / per) c.work
              (omega (arith, size, map_in-lt m dst.container dst.slot dest v e)) (ground arith))
            λ w _ t. record {
              dest = dest;
              place = e;
              times = count / per;
              whole = whole_count dest g2;
              took = record {
                size = t.size;
                same = refl;
                said = t.said;
                held = t.held;
                other = t.other;
                clicked = t.clicked;
                amount = t.amount;
                item = t.item;
              };
              marked = ap (touch dest) t.same;
            }
  where
    per : ℕ
    per = c.out.result.count

    whole_count :
        (dest : ℕ)
        → (not (dest == m.result) && (not (count == 0) && count % per == 0)) ≡ true
        → count / per * per ≡ count
    whole_count dest g2 = ground (arith, div-add-mod count per)
