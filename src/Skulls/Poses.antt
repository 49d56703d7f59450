-- ===== src/Skulls/Poses.antt =====
-- internal/gw/skulls.go: headPose. Block states are uint32; an angle is given in half degrees, which makes
-- the code's float32 arithmetic exact.
use tachyne_gw_bedrock.Prelude.{
  ℕ, ◌+◌, ◌-◌, ◌*◌, ◌/◌, ◌%◌, Bool, true, false, [], ◌∷◌, Option, none, some, ◌&&◌, if◌then◌else◌,
  ltb, leb, get_or,
}

pub record Pose : Type 0 where
  pub wall : Bool
  pub yaw : ℕ
  pub facing : ℕ

-- 180 + rotation × 22.5 degrees, less a full turn.
unfoldable pub floor_yaw : ℕ → ℕ
floor_yaw rotation = let yaw = 360 + rotation * 45 in if leb 720 yaw then yaw - 720 else yaw

-- playerHeadFirst and playerWallHeadFirst come from the shared block table.
module _ (head_first wall_head_first : ℕ) where
  unfoldable pub head_pose : ℕ → Option Pose
  unfolding floor_yaw
  head_pose state =
      let facing = (state - wall_head_first) / 2 in
      if leb head_first state && ltb state (head_first + 32)
      then some (record { wall = false; yaw = floor_yaw ((state - head_first) % 16); facing = 0 })
      else if leb wall_head_first state && ltb state (wall_head_first + 8)
      then some (record {
        wall = true;
        yaw = get_or (360 ∷ 0 ∷ 180 ∷ 540 ∷ []) facing 0;
        facing = facing;
      })
      else none
