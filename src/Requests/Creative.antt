-- ===== src/Requests/Creative.antt =====
-- internal/gw/creative.go: applyCreative and takeCreative.
pub mod Safety
use tachyne_gw_bedrock.Prelude.{
  ℕ, ◌-◌, ◌<◌, Bool, not, List, [], ◌∷◌, Option, none, some, ◌&&◌, ◌==◌, if◌then◌else◌, minus_one,
  get_elem?, get_or, set, Res, ok, refuse, ◌>>=◌, ◌>>◌, guard, or_refuse, or_panic,
}
use tachyne_gw_bedrock.Item.{ItemStack, no_item}
use tachyne_gw_bedrock.Protocol.{
  SlotInfo, Action, take, place, drop, destroy, craft_creative, craft_results_deprecated, Container,
  same,
}
use tachyne_gw_bedrock.Mirror.{Mirror, map_in}
use tachyne_gw_bedrock.Requests.Steps.{Work, CraftStep, start, say, touch}
use tachyne_gw_bedrock.Requests.Steps
use tachyne_gw_bedrock.Requests.Crafts.{put_on, put_down_click}

-- The work so far, and the canonical item that the request named (0 before it has).
pub record Stocking : Type 0 where
  pub work : Work
  pub item : ℕ

-- creativeItem, over the listing creativeItems.
unfoldable pub creative_item : List ℕ → ℕ → Option ℕ
creative_item listing net_id = if net_id == 0 then none else get_elem? listing (net_id - 1)

abbrev copies : ℕ → ℕ → ItemStack
copies item count = record { id = item; count = count; components = [] }

module _ (m : Mirror) where
  -- What tells the world of a slot's new content: a creative slot set on the player's own window,
  -- a declared click inside a container.
  abbrev pub declaration : List ItemStack → ℕ → CraftStep
  declaration slots slot =
      if m.window == 0
      then CraftStep.creative slot (get_or slots slot no_item)
      else CraftStep.click (record {
        window = m.window;
        slot = slot;
        changed = (slot, get_or slots slot no_item) ∷ [];
        held = get_or slots m.cursor no_item;
      })

  -- A slot written: touched, and declared unless it is the cursor.
  unfoldable pub write_slot : Work → ℕ → ItemStack → Work
  write_slot w slot st =
      let xs = set w.slots slot st in
      let w' : Work = record w { slots = xs; touched = touch slot w.touched } in
      if slot == m.cursor then w' else say w' (declaration xs slot)

  -- takeCreative
  unfoldable pub take_creative : Stocking → SlotInfo → SlotInfo → ℕ → Res Work
  unfolding write_slot put_on
  take_creative c src dst count = do
    guard (not (c.item == 0) && (not (count == 0) && same src.container Container.created_output))
    dest ← or_refuse (map_in m dst.container dst.slot)
    guard (not (dest == m.result))
    d ← or_panic (get_elem? c.work.slots dest)
    d' ← put_on d (copies c.item count)
    ok (write_slot c.work dest d')

  -- The cases of applyCreative's loop.
  unfoldable pub creative_action : List ℕ → Stocking → Action → Res Stocking
  unfolding creative_item take_creative write_slot
  creative_action listing c (craft_creative id) = do
    item ← or_refuse (creative_item listing id)
    guard (c.item == 0)
    ok (record c { item = item })
  creative_action listing c craft_results_deprecated = ok c
  creative_action listing c (destroy src count) = do
    slot ← or_refuse (map_in m src.container src.slot)
    _ ← or_panic (get_elem? c.work.slots slot)
    ok (record c { work = write_slot c.work slot no_item })
  creative_action listing c (take src dst count) = do
    w ← take_creative c src dst count
    ok (record c { work = w })
  creative_action listing c (place src dst count) = do
    w ← take_creative c src dst count
    ok (record c { work = w })
  creative_action listing c (drop src count) = do
    guard (not (c.item == 0) && (same src.container Container.created_output && m.window == 0))
    ok (record c { work = say c.work (CraftStep.creative minus_one (copies c.item count)) })
  creative_action listing c _ = refuse

  unfoldable pub creative_actions : List ℕ → Stocking → List Action → Res Stocking
  unfolding creative_action
  creative_actions listing c [] = ok c
  creative_actions listing c (a ∷ rest) = do
    c' ← creative_action listing c a
    creative_actions listing c' rest

  -- applyCreative
  unfoldable pub apply_creative : List ℕ → List Action → Res Work
  unfolding creative_actions
  apply_creative listing acts = do
    c ← creative_actions listing (record { work = start m.slots; item = 0 }) acts
    ok c.work
