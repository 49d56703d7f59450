-- ===== src/Windows/Menus.antt =====
-- internal/gw/window.go: the windows that menuWindows opens.
use tachyne_gw_bedrock.Prelude.{
  ℕ, ◌+◌, ◌<◌, ◌≡◌, refl, inl, Bool, true, false, List, [], ◌∷◌, some, arith, length, and_then,
  ◌&&◌, ◌==◌, ltb, if◌then◌else◌, Bool-cases, inr,
}
use mathlib.Core.Option.{some-injective}
use tachyne_gw_bedrock.Layouts.{
  WinSlot, WindowType, MenuWindow, menu_windows, find_menu, same_type, crafter_tail,
}
use tachyne_gw_bedrock.Mirror.{Mirror, set_tail, map_in, map_out}
use tachyne_gw_bedrock.Mirror.Invariant.{Shape}
use tachyne_gw_bedrock.Mirror.Mapping.{is_plain, map_in-map_out}
use tachyne_gw_bedrock.Windows.Invariant.{IsWindow, opened-IsWindow}
use tachyne_gw_bedrock.Windows.{WinState, typed, opened}

-- Every menu's entries are places of their own, and few.
abbrev all_plain : List (ℕ × MenuWindow) → Bool
all_plain [] = true
all_plain ((k, mw) ∷ ms) = is_plain mw.layout && ltb (length mw.layout) 100 && all_plain ms

find_menu-plain :
    (ms : List (ℕ × MenuWindow)) (id : ℕ) (mw : MenuWindow)
    → all_plain ms ≡ true
    → find_menu ms id ≡ some mw
    → (is_plain mw.layout ≡ true) × (length mw.layout < 100)
unfolding find_menu
find_menu-plain [] id mw a h = cc
find_menu-plain ((k, x) ∷ ms) id mw a h = elim (Bool-cases (k == id)) [
  | inl q ↦ let e : x ≡ mw = some-injective _ _ (rw q at h) in rw (← e) (ground arith)
  | inr q ↦ find_menu-plain ms id mw (ground arith) (rw q at h)
]

pub menu_windows-plain :
    (id : ℕ) (mw : MenuWindow)
    → find_menu menu_windows id ≡ some mw
    → (is_plain mw.layout ≡ true) × (length mw.layout < 100)
menu_windows-plain id mw h = find_menu-plain menu_windows id mw refl h

Shape-cursor :
    (b : Bool) (m : Mirror)
    → b ≡ false
    → Shape b m
    → m.cursor ≡ length m.layout + 36 + length m.tail
Shape-cursor true m e s = cc
Shape-cursor false m e s = s.0

opened-layout :
    (w : WinState) (id : ℕ) (l : List WinSlot) (ctype : WindowType)
    → (opened w id l ctype).layout ≡ l
unfolding opened
opened-layout w id l ctype = by (same_type ctype WindowType.crafter)
  where
    by :
        (b : Bool)
        → (if b then set_tail (typed w id l ctype) crafter_tail else typed w id l ctype).layout ≡ l
    by true = refl
    by false = refl

-- In the window that any menu of menuWindows opens, each container slot that Java numbers before
-- the player's inventory, and each slot of the inventory and hotbar, has a place on Bedrock's side
-- at which mapIn finds it again.
pub map_in-map_out-opened :
    (w : WinState) (menu id : ℕ) (mw : MenuWindow) (slot : ℕ)
    → find_menu menu_windows menu ≡ some mw
    → slot < length mw.layout + 36
    → and_then
        (map_out (opened w id mw.layout mw.ctype) slot)
        (λ (c, i). map_in (opened w id mw.layout mw.ctype) c i)
      ≡ some slot
map_in-map_out-opened w menu id mw slot h b =
    map_in-map_out m slot v.container (Shape-cursor m.own m v.container v.mirror.shape)
      (rw e plain.0) (inl (rw e b))
  where
    m : Mirror
    m = opened w id mw.layout mw.ctype

    plain : (is_plain mw.layout ≡ true) × (length mw.layout < 100)
    plain = menu_windows-plain menu mw h

    e : m.layout ≡ mw.layout
    e = opened-layout w id mw.layout mw.ctype

    v : IsWindow m
    v = opened-IsWindow w id mw.layout mw.ctype (omega (arith, plain.1))
