-- ===== src/Item.antt =====
-- attach.ItemStack, as the files under internal/gw read and write it.
use tachyne_gw_bedrock.Prelude.{ℕ, List, []}

-- The id and the count are int32 patterns; the components are bytes that are only passed on.
pub record ItemStack : Type 0 where
  pub id : ℕ
  pub count : ℕ
  pub components : List ℕ

-- attach.ItemStack{}
abbrev pub no_item : ItemStack
no_item = record { id = 0; count = 0; components = [] }
