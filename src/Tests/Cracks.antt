-- ===== src/Tests/Cracks.antt =====
-- Two blocks that are being broken.
use tachyne_gw_bedrock.Prelude.{◌-◌, ◌^◌, ◌≡◌, List, [], ◌∷◌, arith, if◌then◌else◌, ltb}
use tachyne_gw_bedrock.Cracks.{CrackKey, stop_cracking, paced, crack_packet}
use tachyne_gw_bedrock.Cracks.Laws.{Progress, after, latest, crack_packet-latest}

abbrev stone : CrackKey
stone = (1, 2, 3)

abbrev dirt : CrackKey
dirt = (1, 5, 3)

-- The last frame first: the dirt is left at -1, after the stone's second stage.
abbrev frames : List Progress
frames =
    record { block = dirt; stage = 2 ^ 32 - 1; tick = 30 }
    ∷ record { block = stone; stage = 1; tick = 20 }
    ∷ record { block = dirt; stage = 0; tick = 10 }
    ∷ []

abbrev next_stage : Progress
next_stage = record { block = stone; stage = 2; tick = 35 }

crack_packet-latest_example :
    (crack_packet (after frames) stone 2 35).1
    ≡ (if ltb 2 10 then paced (latest frames stone) 35 2 else stop_cracking)
crack_packet-latest_example =
    crack_packet-latest frames next_stage (omega arith, (omega arith, (omega arith, tt)))
      (omega arith)
