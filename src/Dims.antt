-- ===== src/Dims.antt =====
-- internal/gw/dims.go: which Bedrock dimension an engine dimension shows as. The table is made of the
-- world's names elsewhere.
use tachyne_gw_bedrock.Prelude.{ℕ, List, Option, none, some}
use tachyne_gw_bedrock.Recipes.{find}

-- packet.DimensionOverworld and packet.DimensionNether, as symbols, and any other.
pub data Dim : Type 0 where
  overworld nether : Dim
  other : ℕ → Dim

abbrev or_overworld : Option Dim → Dim
or_overworld none = overworld
or_overworld (some d) = d

-- bedrock: an unknown id shows as the overworld.
unfoldable pub bedrock : List (ℕ × Dim) → ℕ → Dim
bedrock table id = or_overworld (find table id)

-- temporaryDim
unfoldable pub temporary_dim : Dim → Dim
temporary_dim overworld = nether
temporary_dim _ = overworld
