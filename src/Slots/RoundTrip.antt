-- ===== src/Slots/RoundTrip.antt =====
-- internal/gw/inventory.go and itemstack.go: the two numberings of the player's window side by
-- side.
use tachyne_gw_bedrock.Prelude.{ℕ, ◌<◌, ◌≤◌, ◌≡◌, some, none, arith, and_then}
use tachyne_gw_bedrock.Protocol.{Container}
use tachyne_gw_bedrock.Slots.{
  java_window_size, java_cursor_slot, java_to_bedrock_slot, bedrock_to_java_slot,
}

-- Every slot of the player's window has a place on Bedrock's side, and bedrockToJavaSlot leads
-- from that place back to the slot.
pub bedrock_to_java-java_to_bedrock :
    (slot : ℕ)
    → slot < java_window_size
    → and_then (java_to_bedrock_slot slot) (λ (c, i). bedrock_to_java_slot c i) ≡ some slot
unfolding java_to_bedrock_slot bedrock_to_java_slot
bedrock_to_java-java_to_bedrock slot h = ground arith

-- Any other number has none.
pub java_to_bedrock-none : (slot : ℕ) → java_window_size ≤ slot → java_to_bedrock_slot slot ≡ none
unfolding java_to_bedrock_slot
java_to_bedrock-none slot h = ground arith

-- Whatever container and slot byte a client names, the answer is a slot of the mirror.
pub bedrock_to_java-le :
    (c : Container) (i j : ℕ) → bedrock_to_java_slot c i ≡ some j → j ≤ java_cursor_slot
unfolding bedrock_to_java_slot
bedrock_to_java-le Container.cursor i j h = ground arith
bedrock_to_java-le _ i j h = ground arith
