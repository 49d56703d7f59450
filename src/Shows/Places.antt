-- ===== src/Shows/Places.antt =====
-- internal/gw/window.go and itemstack.go: the places that sendWindowSlot and respondStackRequest
-- name, next to mapIn.
use tachyne_gw_bedrock.Prelude.{
  ℕ, ◌+◌, ◌<◌, ◌≡◌, refl, ap, ◌∙◌, true, false, List, [], ◌∷◌, inr, ◌⊎◌, some, none, arith, length,
  get_elem?, lt→ltb, inl, get_or, ◌==◌, ◌^◌, ◌%◌, ok,
}
use tachyne_gw_bedrock.Item.{ItemStack, no_item}
use tachyne_gw_bedrock.Protocol.{Container}
use tachyne_gw_bedrock.Layouts.{WinSlot}
use tachyne_gw_bedrock.Mirror.{Mirror, map_in, map_out, tail_slot}
use tachyne_gw_bedrock.Mirror.Mapping.{
  is_plain, map_in-map_out, get_elem?-lt, find_slot-get_elem?, is_plain-get_elem?,
  window_map_in-in_layout,
}
use tachyne_gw_bedrock.Shows.{one, Answer, home_of, window_slot_at, send_window_slot, answers}

tail_slot-none : (m : Mirror) (slot : ℕ) → slot < length m.layout → tail_slot m slot ≡ none
unfolding tail_slot
tail_slot-none m slot h = ground arith

-- Each changed container slot of a container window is shown by one packet, and the container and
-- index that the packet names are those by which a request finds the slot, if the layout's entries
-- are places of their own.
pub send_window_slot-map_in :
    (m : Mirror) (slot : ℕ) (st : ItemStack)
    → m.own ≡ false
    → is_plain m.layout ≡ true
    → slot < length m.layout
    → (c : Container) × (i : ℕ) × (send_window_slot m slot st
        ≡ ok (one (home_of m c) i (some c) st ∷ []))
      × (map_in m c i ≡ some slot)
unfolding send_window_slot map_in
send_window_slot-map_in m slot st o p h =
    let (ws, e) = get_elem?-lt m.layout slot h in
    let (plain, mapped) = is_plain-get_elem? m.layout slot ws p e in
    (
      ws.container,
      ws.idx,
      ap (window_slot_at m slot st) (tail_slot-none m slot h) ∙ shown ws e,
      ground (
        arith,
        window_map_in-in_layout m ws.container ws.idx plain mapped,
        find_slot-get_elem? m.layout 0 slot ws p e,
      ),
    )
  where
    shown :
        (ws : WinSlot)
        → get_elem? m.layout slot ≡ some ws
        → window_slot_at m slot st none
          ≡ ok (one (home_of m ws.container) ws.idx (some ws.container) st ∷ [])
    shown ws e = rw (lt→ltb slot (length m.layout) h, e) refl

-- The slot is the cursor, or it has a place with a byte for its index.
abbrev pub Placed : Mirror → ℕ → Type 0
Placed m slot =
    (slot ≡ m.cursor)
    ⊎ ((slot < length m.layout + 36)
        × (c : Container) × (i : ℕ) × (map_out m slot ≡ some (c, i))
        × (i < 2 ^ 8))

abbrev pub AllPlaced : Mirror → List ℕ → Type 0
AllPlaced m [] = Unit
AllPlaced m (slot ∷ changed) = Placed m slot × AllPlaced m changed

-- The answer names the place at which requests find the slot, and what the slot holds.
abbrev pub Names : Mirror → ℕ → Answer → Type 0
Names m slot a =
    (map_in m a.container a.slot ≡ some slot)
    × (a.count ≡ (get_or m.slots slot no_item).count % 2 ^ 8)

-- One answer for each slot, in their order.
abbrev pub NamesAll : Mirror → List ℕ → List Answer → Type 0
NamesAll m [] [] = Unit
NamesAll m (slot ∷ changed) (a ∷ rest) = Names m slot a × NamesAll m changed rest
NamesAll m _ _ = ⊥

-- The answers to an accepted request name every changed slot of a container window, one answer for each, by the place
-- at which requests find it, the cursor among them; where each other slot's index at its place is a byte.
pub answers-map_in :
    (m : Mirror) (changed : List ℕ)
    → m.own ≡ false
    → m.cursor ≡ length m.layout + 36 + length m.tail
    → is_plain m.layout ≡ true
    → AllPlaced m changed
    → NamesAll m changed (answers m changed)
unfolding answers map_in
answers-map_in m [] o k p h = tt
answers-map_in m (slot ∷ changed) o k p (inl e, h) =
    let at_cursor : (slot == m.cursor) ≡ true = ground arith in
    rw at_cursor ((rw (o, e) refl, refl), answers-map_in m changed o k p h)
answers-map_in m (slot ∷ changed) o k p (inr (inside, c, i, e, b), h) =
    let elsewhere : (slot == m.cursor) ≡ false = ground arith in
    let whole : i % 2 ^ 8 ≡ i = omega (arith, b) in
    rw (elsewhere, e)
      (
        (rw whole (rw e at (map_in-map_out m slot o k p (inl inside))), refl),
        answers-map_in m changed o k p h,
      )
