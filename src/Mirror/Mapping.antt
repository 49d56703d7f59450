-- ===== src/Mirror/Mapping.antt =====
-- internal/gw/itemstack.go and crafter.go: mapIn and mapOut of a container window.
use tachyne_gw_bedrock.Prelude.{
  ℕ, zero, suc, ◌+◌, ◌≤◌, ◌<◌, ◌≡◌, ◌≢◌, refl, ◌⊎◌, dec_lt, Bool, true, false, not, List, [], ◌∷◌,
  some, arith, and_then, ◌&&◌, ◌==◌, length, get_elem?,
}
use tachyne_gw_bedrock.Protocol.{Container, same}
use tachyne_gw_bedrock.Layouts.{WinSlot, horse_unmapped}
use tachyne_gw_bedrock.Mirror.{Mirror, find_slot, window_map_in, map_in, window_map_out, map_out}

-- A container that mapIn looks for in the layout.
abbrev pub in_layout : Container → Bool
in_layout Container.cursor = false
in_layout Container.inventory = false
in_layout Container.hot_bar = false
in_layout Container.combined_hot_bar_and_inventory = false
in_layout Container.created_output = false
in_layout _ = true

-- No entry of the layout is the given place.
abbrev pub absent : List WinSlot → Container → ℕ → Bool
absent [] c i = true
absent (ws ∷ l) c i = not (same c ws.container && i == ws.idx) && absent l c i

-- Every entry is a place of its own, that mapIn looks for.
abbrev pub is_plain : List WinSlot → Bool
is_plain [] = true
is_plain (ws ∷ l) =
    in_layout ws.container
    && not (ws.idx == horse_unmapped)
    && absent l ws.container ws.idx
    && is_plain l

absent-get_elem? :
    (l : List WinSlot) (c : Container) (i k : ℕ) (ws : WinSlot)
    → absent l c i ≡ true
    → get_elem? l k ≡ some ws
    → (same c ws.container && i == ws.idx) ≡ false
absent-get_elem? [] c i k ws a h = cc
absent-get_elem? (w ∷ l) c i zero ws a h = let e : w ≡ ws = cc in rw (← e) (ground arith)
absent-get_elem? (w ∷ l) c i (suc k) ws a h = absent-get_elem? l c i k ws (ground arith) h

pub find_slot-get_elem? :
    (l : List WinSlot) (j k : ℕ) (ws : WinSlot)
    → is_plain l ≡ true
    → get_elem? l k ≡ some ws
    → find_slot l j ws.container ws.idx ≡ some (j + k)
unfolding find_slot
find_slot-get_elem? [] j k ws p h = cc
find_slot-get_elem? (w ∷ l) j zero ws p h = let e : w ≡ ws = cc in rw (← e) (ground arith)
find_slot-get_elem? (w ∷ l) j (suc k) ws p h =
    ground (arith, absent-get_elem? l w.container w.idx k ws, find_slot-get_elem? l (suc j) k ws)

pub is_plain-get_elem? :
    (l : List WinSlot) (k : ℕ) (ws : WinSlot)
    → is_plain l ≡ true
    → get_elem? l k ≡ some ws
    → (in_layout ws.container ≡ true) × (ws.idx ≢ horse_unmapped)
is_plain-get_elem? [] k ws p h = cc
is_plain-get_elem? (w ∷ l) zero ws p h = let e : w ≡ ws = cc in rw (← e) (ground arith)
is_plain-get_elem? (w ∷ l) (suc k) ws p h = is_plain-get_elem? l k ws (ground arith) h

pub window_map_in-in_layout :
    (m : Mirror) (c : Container) (i : ℕ)
    → in_layout c ≡ true
    → i ≢ horse_unmapped
    → window_map_in m c i ≡ find_slot m.layout 0 c i
unfolding window_map_in
window_map_in-in_layout m Container.cursor i p q = cc
window_map_in-in_layout m _ i p q = ground arith

pub get_elem?-lt {ℓ} :
    {A : Type ℓ} (xs : List A) (i : ℕ) → i < length xs → (x : A) × (get_elem? xs i ≡ some x)
get_elem?-lt [] i h = absurd (omega arith)
get_elem?-lt (x ∷ xs) zero h = (x, refl)
get_elem?-lt (x ∷ xs) (suc i) h = get_elem?-lt xs i (omega arith)

window_map_in-window_map_out :
    (m : Mirror) (slot : ℕ)
    → is_plain m.layout ≡ true
    → (slot < length m.layout + 36) ⊎ ((slot ≡ m.cursor) × (length m.layout + 36 ≤ slot))
    → and_then (window_map_out m slot) (λ (c, i). window_map_in m c i) ≡ some slot
unfolding window_map_out
window_map_in-window_map_out m slot p h = elim (dec_lt slot (length m.layout)) [
  | yes q ↦
      (let (ws, e) = get_elem?-lt m.layout slot q in
        let (plain, mapped) = is_plain-get_elem? m.layout slot ws p e in
        ground (
          arith,
          window_map_in-in_layout m ws.container ws.idx plain mapped,
          find_slot-get_elem? m.layout 0 slot ws p e,
        ))
  | no q ↦ unfold window_map_in in ground arith
]

-- Every slot of a container window but those of the tail has a place on Bedrock's side that leads
-- back to it: a container slot where the layout says, if the layout's entries are places of their
-- own, then the player's inventory and hotbar, and the cursor.
pub map_in-map_out :
    (m : Mirror) (slot : ℕ)
    → m.own ≡ false
    → m.cursor ≡ length m.layout + 36 + length m.tail
    → is_plain m.layout ≡ true
    → (slot < length m.layout + 36) ⊎ (slot ≡ m.cursor)
    → and_then (map_out m slot) (λ (c, i). map_in m c i) ≡ some slot
unfolding map_in map_out
map_in-map_out m slot o c p h = ground (arith, window_map_in-window_map_out m slot p)
