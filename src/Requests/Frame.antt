-- ===== src/Requests/Frame.antt =====
-- internal/gw/itemstack.go and crafting.go: the slots that a walk over a request touches.
use tachyne_gw_bedrock.Prelude.{
  ℕ, ◌≡◌, ◌≢◌, refl, sym, ap, ◌∙◌, true, false, List, arith, length, get_or, set, length-set,
  get_or-set_ne,
}
use tachyne_gw_bedrock.Item.{ItemStack, no_item}
use tachyne_gw_bedrock.Requests.Steps.{CraftStep, Work, start, elem, touch}

pub touch-untouched :
    (j k : ℕ) (t : List ℕ) → elem j (touch k t) ≡ false → (elem j t ≡ false) × (j ≢ k)
unfolding touch elem
touch-untouched j k t h = ground (arith, λ (e : j ≡ k). ap (λ i. elem i t) e)

pub touched-elem : (j k : ℕ) (t : List ℕ) → elem j t ≡ true → elem j (touch k t) ≡ true
unfolding touch elem
touched-elem j k t h = ground arith

-- The slots outside `touched` hold what they held at first.
pub record Declares (base : List ItemStack) (w : Work) : Type 0 where
  pub size : length w.slots ≡ length base
  pub untouched :
      (j : ℕ) → elem j w.touched ≡ false → get_or w.slots j no_item ≡ get_or base j no_item

pub start-Declares : (base : List ItemStack) → Declares base (start base)
start-Declares base = record { size = refl; untouched = λ j h. refl }

-- A slot written is a slot touched.
pub set-Declares :
    (base : List ItemStack) (w : Work) (k : ℕ) (st : ItemStack)
    → Declares base w
    → Declares base (record w { slots = set w.slots k st; touched = touch k w.touched })
set-Declares base w k st d = record {
  size = length-set w.slots k st ∙ d.size;
  untouched = λ j h.
      let (old, other) = touch-untouched j k w.touched h in
      get_or-set_ne w.slots k j st no_item (λ e. other (sym e)) ∙ d.untouched j old;
}

pub set-set-Declares :
    (base : List ItemStack) (w : Work) (a b : ℕ) (s t : ItemStack)
    → Declares base w
    → Declares base
        (record w { slots = set (set w.slots a s) b t; touched = touch b (touch a w.touched) })
set-set-Declares base w a b s t d =
    set-Declares base (record w { slots = set w.slots a s; touched = touch a w.touched }) b t
      (set-Declares base w a s d)

-- Steps for the world change no slot.
pub steps-Declares :
    (base : List ItemStack) (w : Work) (more : List CraftStep)
    → Declares base w
    → Declares base (record w { steps = more })
steps-Declares base w more d = record { size = d.size; untouched = d.untouched }
