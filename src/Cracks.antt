-- ===== src/Cracks.antt =====
-- internal/gw/blockcrack.go: the tracker of block-break progress.
pub mod Laws
use tachyne_gw_bedrock.Prelude.{
  ℕ, ◌-◌, ◌+◌, ◌*◌, ◌/◌, ◌%◌, ◌^◌, Bool, true, false, not, List, [], ◌∷◌, Option, none, some, ◌&&◌,
  ◌||◌, ◌==◌, ltb, if◌then◌else◌, lt_i32, le_i32, sub_i32,
}

-- crackKey
abbrev pub CrackKey : Type 0
CrackKey = ℕ × ℕ × ℕ

abbrev pub same_key : CrackKey → CrackKey → Bool
same_key (x, y, z) (x', y', z') = x == x' && (y == y' && z == z')

-- crackStage: the tick of the client's clock, and the stage.
pub record CrackStage : Type 0 where
  pub tick : ℕ
  pub stage : ℕ

-- blockCrackTracker: one estimate per cracked block.
abbrev pub Tracker : Type 0
Tracker = List (CrackKey × CrackStage)

pub find_crack : Tracker → CrackKey → Option CrackStage
find_crack [] key = none
find_crack ((k, s) ∷ t) key = if same_key k key then some s else find_crack t key

pub forget : Tracker → CrackKey → Tracker
forget [] key = []
forget ((k, s) ∷ t) key = if same_key k key then forget t key else (k, s) ∷ forget t key

abbrev pub remember : Tracker → CrackKey → CrackStage → Tracker
remember t key s = (key, s) ∷ forget t key

-- The level events: stop, start, and update with the pace.
pub data CrackEvent : Type 0 where
  stop_cracking : CrackEvent
  start_cracking update_cracking : ℕ → CrackEvent

-- The ticks that a stage takes, at least one. The clock's difference is an int32, and a stage that is
-- not above the one before leaves it undivided; a negative quotient counts as one.
unfoldable pub ticks_per_stage : CrackStage → ℕ → ℕ → ℕ
ticks_per_stage prev now progress =
    let ticks = (now + 2 ^ 64 - prev.tick) % 2 ^ 32 in
    let each = if ltb prev.stage progress then ticks / (progress - prev.stage) else ticks in
    if lt_i32 ticks 1 || lt_i32 each 1 then 1 else each

-- The data of an update, an int32.
unfoldable pub pace : ℕ → ℕ → ℕ
pace progress ticks =
    let remaining = if ltb (10 - progress) 1 then 1 else 10 - progress in
    65535 / remaining * ticks % 2 ^ 32

abbrev pub paced : Option CrackStage → ℕ → ℕ → CrackEvent
paced none now progress = start_cracking (65535 / 6000)
paced (some prev) now progress = update_cracking (pace progress (ticks_per_stage prev now progress))

-- packet: a stage below 0 or above 9 ends the crack. `progress` is an int32's bit pattern.
unfoldable pub crack_packet : Tracker → CrackKey → ℕ → ℕ → Tracker × CrackEvent
unfolding find_crack forget ticks_per_stage pace
crack_packet t key progress now =
    if lt_i32 progress 0 || lt_i32 9 progress then (forget t key, stop_cracking) else (
      remember t key (record { tick = now; stage = progress }),
      paced (find_crack t key) now progress,
    )
