-- ===== src/Requests/Creative/Safety.antt =====
-- internal/gw/creative.go: the slots that applyCreative writes and what it tells the world.
use tachyne_gw_bedrock.Prelude.{
  if◌then◌else◌, ℕ, ◌<◌, ◌≡◌, ◌≢◌, refl, sym, ◌∙◌, not, List, [], ◌∷◌, ◌++◌, ◌&&◌, ◌==◌, arith,
  length, set-of_le, get_or, set, Safe, Safe-bind, Safe-or_refuse, minus_one, Safe-get_elem?,
  Safe-guard, get_or-set_self, get_or-set_ne, ℕ_discrete, Bool-cases, inl, inr,
}
use tachyne_gw_bedrock.Item.{ItemStack, no_item}
use tachyne_gw_bedrock.Protocol.{
  SlotInfo, Action, take, place, drop, destroy, craft_creative, craft_results_deprecated, Container,
  same,
}
use tachyne_gw_bedrock.Mirror.{Mirror, map_in}
use tachyne_gw_bedrock.Mirror.Invariant.{IsMirror, map_in-lt}
use tachyne_gw_bedrock.Requests.Steps.{Work, CraftStep, start, say}
use tachyne_gw_bedrock.Requests.Frame.{Declares, start-Declares, set-Declares, steps-Declares}
use tachyne_gw_bedrock.Requests.Clicks.{replay_slots, length-replay_slots}
use tachyne_gw_bedrock.Requests.Crafts.{put_on}
use tachyne_gw_bedrock.Requests.Creative.{
  Stocking, creative_item, copies, declaration, write_slot, take_creative, creative_action,
  creative_actions, apply_creative,
}

-- The slots that a step sets outright, as the code says that the world takes them: in the player's window (0) those of a
-- creative slot set, and in a container those of a click declared for that window. A set of slot -1 is a drop, and is in
-- no window.
abbrev pub slots_set : ℕ → CraftStep → List (ℕ × ItemStack)
slots_set window (CraftStep.creative slot st) = if window == 0 then (slot, st) ∷ [] else []
slots_set window (CraftStep.click c) =
    if window == 0 then [] else if c.window == window then c.changed else []
slots_set window _ = []

-- What a window holds after the steps.
pub obey : ℕ → List CraftStep → List ItemStack → List ItemStack
obey window [] xs = xs
obey window (s ∷ rest) xs = obey window rest (replay_slots (slots_set window s) xs)

length-obey :
    (window : ℕ) (steps : List CraftStep) (xs : List ItemStack)
    → length (obey window steps xs) ≡ length xs
unfolding obey
length-obey window [] xs = refl
length-obey window (s ∷ rest) xs =
    length-obey window rest _ ∙ length-replay_slots (slots_set window s) xs

obey-append :
    (window : ℕ) (steps : List CraftStep) (s : CraftStep) (xs : List ItemStack)
    → obey window (steps ++ s ∷ []) xs ≡ replay_slots (slots_set window s) (obey window steps xs)
unfolding obey
obey-append window [] s xs = refl
obey-append window (x ∷ rest) s xs =
    obey-append window rest s (replay_slots (slots_set window x) xs)

put_on-refuses : (st r : ItemStack) → Safe (λ x. Unit {0}) (put_on st r)
unfolding put_on
put_on-refuses st r = ground arith

module _ (m : Mirror) (v : IsMirror m) where
  -- Every changed slot is touched, and the world's window after the steps so far differs from the
  -- mirror's slots at the cursor at most.
  pub record Told (w : Work) : Type 0 where
    pub declares : Declares m.slots w
    pub told :
        (j : ℕ)
        → j ≢ m.cursor
        → get_or (obey m.window w.steps m.slots) j no_item ≡ get_or w.slots j no_item

  declaration-slots_set :
      (xs : List ItemStack) (slot : ℕ)
      → slots_set m.window (declaration m xs slot) ≡ (slot, get_or xs slot no_item) ∷ []
  declaration-slots_set xs slot = ground arith

  say-Told :
      (w : Work) (xs : List ItemStack) (slot : ℕ) (st : ItemStack)
      → slot < length m.slots
      → Told w
      → xs ≡ set w.slots slot st
      → (j : ℕ) → j ≢ m.cursor
      → get_or (obey m.window (w.steps ++ declaration m xs slot ∷ []) m.slots) j no_item
        ≡ get_or xs j no_item
  unfolding replay_slots
  say-Told w xs slot st h d e j ne =
      rw
        (
          obey-append m.window w.steps (declaration m xs slot) m.slots,
          declaration-slots_set xs slot,
          replay_slots,
        )
        (elim (ℕ_discrete j slot) [
          | yes here ↦ rw here (
              get_or-set_self (obey m.window w.steps m.slots) slot _ no_item
                (omega (arith, length-obey m.window w.steps m.slots, h)))
          | no off ↦
              get_or-set_ne (obey m.window w.steps m.slots) slot j _ no_item (λ p. off (sym p))
              ∙ d.told j ne
              ∙ rw e (sym (get_or-set_ne w.slots slot j st no_item (λ p. off (sym p))))
        ])

  write_slot-Told :
      (w : Work) (slot : ℕ) (st : ItemStack)
      → slot < length m.slots
      → Told w
      → Told (write_slot m w slot st)
  unfolding write_slot
  write_slot-Told w slot st h d = elim (Bool-cases (slot == m.cursor)) [
    | inl held ↦ rw held (record {
      declares = set-Declares m.slots w slot st d.declares;
      told = λ j ne. d.told j ne ∙ sym (get_or-set_ne w.slots slot j st no_item (ground arith));
    })
    | inr free ↦ rw free (record {
      declares = steps-Declares m.slots _ _ (set-Declares m.slots w slot st d.declares);
      told = say-Told w (set w.slots slot st) slot st h d refl;
    })
  ]

  take_creative-Told :
      (c : Stocking) (src dst : SlotInfo) (count : ℕ)
      → Told c.work
      → Safe Told (take_creative m c src dst count)
  unfolding take_creative
  take_creative-Told c src dst count d =
      Safe-guard _
        (not (c.item == 0) && (not (count == 0) && same src.container Container.created_output)) _
        λ _. Safe-or_refuse _ (map_in m dst.container dst.slot) _ λ dest e.
          Safe-guard _ (not (dest == m.result)) _ λ _.
            let inside = map_in-lt m dst.container dst.slot dest v e in
            Safe-get_elem? _ c.work.slots dest _ (omega (arith, d.declares.size, inside)) λ st _.
              Safe-bind _ (λ x. Unit {0}) (put_on st (copies c.item count)) _
                (put_on-refuses st (copies c.item count))
                λ st' _ _. write_slot-Told c.work dest st' inside d

  drop-Told : (w : Work) (st : ItemStack) → Told w → Told (say w (CraftStep.creative minus_one st))
  unfolding replay_slots
  drop-Told w st d = record {
    declares = steps-Declares m.slots w _ d.declares;
    told = λ j ne.
        rw (obey-append m.window w.steps (CraftStep.creative minus_one st) m.slots)
          (unwritten j ne);
  }
    where
      unwritten :
          (j : ℕ)
          → j ≢ m.cursor
          → get_or
              (replay_slots
                (slots_set m.window (CraftStep.creative minus_one st))
                (obey m.window w.steps m.slots))
              j
              no_item
            ≡ get_or w.slots j no_item
      unwritten j ne = elim (Bool-cases (m.window == 0)) [
        | inl h ↦ rw h (
            rw
              (set-of_le (obey m.window w.steps m.slots) minus_one st
                (omega (arith, length-obey m.window w.steps m.slots, v.small)))
              (d.told j ne))
        | inr h ↦ rw h (d.told j ne)
      ]

  creative_action-Told :
      (listing : List ℕ) (c : Stocking) (a : Action)
      → Told c.work
      → Safe (λ x. Told x.work) (creative_action m listing c a)
  unfolding creative_action
  creative_action-Told listing c (craft_creative id) d =
      Safe-or_refuse _ (creative_item listing id) _ λ item _. Safe-guard _ (c.item == 0) _ λ _. d
  creative_action-Told listing c craft_results_deprecated d = d
  creative_action-Told listing c (destroy src count) d =
      Safe-or_refuse _ (map_in m src.container src.slot) _ λ slot e.
        let inside = map_in-lt m src.container src.slot slot v e in
        Safe-get_elem? _ c.work.slots slot _ (omega (arith, d.declares.size, inside))
          λ st _. write_slot-Told c.work slot no_item inside d
  creative_action-Told listing c (take src dst count) d =
      Safe-bind _ Told (take_creative m c src dst count) _ (take_creative-Told c src dst count d)
        λ w _ d'. d'
  creative_action-Told listing c (place src dst count) d =
      Safe-bind _ Told (take_creative m c src dst count) _ (take_creative-Told c src dst count d)
        λ w _ d'. d'
  creative_action-Told listing c (drop src count) d =
      Safe-guard _
        (not (c.item == 0) && (same src.container Container.created_output && m.window == 0)) _
        λ _. drop-Told c.work (copies c.item count) d
  creative_action-Told listing c _ d = tt

  creative_actions-Told :
      (listing : List ℕ) (c : Stocking) (acts : List Action)
      → Told c.work
      → Safe (λ x. Told x.work) (creative_actions m listing c acts)
  unfolding creative_actions
  creative_actions-Told listing c [] d = d
  creative_actions-Told listing c (a ∷ rest) d =
      Safe-bind _ (λ x. Told x.work) (creative_action m listing c a) _
        (creative_action-Told listing c a d) λ c' _ d'. creative_actions-Told listing c' rest d'

  start-Told : Told (start m.slots)
  unfolding obey
  start-Told = record { declares = start-Declares m.slots; told = λ j ne. refl }

  pub apply_creative-Told :
      (listing : List ℕ) (acts : List Action) → Safe Told (apply_creative m listing acts)
  unfolding apply_creative
  apply_creative-Told listing acts =
      Safe-bind _ (λ x. Told x.work)
        (creative_actions m listing (record { work = start m.slots; item = 0 }) acts) _
        (creative_actions-Told listing _ acts start-Told) λ c _ d. d
