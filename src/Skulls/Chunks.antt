-- ===== src/Skulls/Chunks.antt =====
-- internal/gw/skulls.go: chunkSkulls and profileProps, with blockIndex of blockentities.go: the owned heads of a chunk.
use tachyne_gw_bedrock.Prelude.{
  ℕ, zero, suc, ◌+◌, ◌-◌, ◌*◌, ◌/◌, ◌%◌, ◌^◌, List, [], ◌∷◌, Option, none, some, ◌||◌,
  if◌then◌else◌, ltb, ◌==◌, lt_i32, le_i32, sub_i32, get_or, ◌++◌,
}
use Prim.Native.String.{String}
use tachyne_gw_bedrock.Nbt.Reader.{Read, done, fail, stuck, ◌>>=◌, read_byte, big_endian}
use tachyne_gw_bedrock.Nbt.Read.{
  Value, Values, Fields, text, list, compound, no_values, value, no_fields, field, same_text,
  read_full, read_nbt,
}
use tachyne_gw_bedrock.Skulls.Poses.{Pose, head_pose}
use tachyne_gw_bedrock.Skulls.Cache.{Pos}

-- attach.Property
pub record Property : Type 0 where
  pub name : List ℕ
  pub payload : List ℕ
  pub signature : List ℕ

-- m[name] of a Go map: nil when it has no such key.
unfoldable pub get_field : List ℕ → Fields → Option Value
get_field name no_fields = none
get_field name (field other v fs) = if same_text name other then some v else get_field name fs

-- v.(string), with "" where it is none.
abbrev pub text_or_empty : Option Value → List ℕ
text_or_empty (some (text s)) = s
text_or_empty _ = []

abbrev key_name : List ℕ
key_name = b'n' ∷ b'a' ∷ b'm' ∷ b'e' ∷ []

abbrev key_value : List ℕ
key_value = b'v' ∷ b'a' ∷ b'l' ∷ b'u' ∷ b'e' ∷ []

abbrev key_signature : List ℕ
key_signature = b's' ∷ b'i' ∷ b'g' ∷ b'n' ∷ b'a' ∷ b't' ∷ b'u' ∷ b'r' ∷ b'e' ∷ []

abbrev key_properties : List ℕ
key_properties = b'p' ∷ b'r' ∷ b'o' ∷ b'p' ∷ b'e' ∷ b'r' ∷ b't' ∷ b'i' ∷ b'e' ∷ b's' ∷ []

abbrev pub key_profile : List ℕ
key_profile = b'p' ∷ b'r' ∷ b'o' ∷ b'f' ∷ b'i' ∷ b'l' ∷ b'e' ∷ []

unfoldable pub properties_in : Values → List Property
unfolding get_field
properties_in no_values = []
properties_in (value (compound m) vs) =
    record {
      name = text_or_empty (get_field key_name m);
      payload = text_or_empty (get_field key_value m);
      signature = text_or_empty (get_field key_signature m);
    }
    ∷ properties_in vs
properties_in (value v vs) = properties_in vs

abbrev in_list : Option Value → List Property
in_list (some (list vs)) = properties_in vs
in_list _ = []

unfoldable pub profile_props : Option Value → List Property
unfolding properties_in get_field
profile_props (some (compound m)) = in_list (get_field key_properties m)
profile_props _ = []

-- int32(int16(n)), as a bit pattern.
abbrev pub sign_extend : ℕ → ℕ
sign_extend n = if ltb n 0x8000 then n else n + (2 ^ 32 - 0x10000)

-- -64, as a bit pattern.
abbrev pub min_y : ℕ
min_y = 2 ^ 32 - 64

-- blockIndex; none is -1.
unfoldable pub block_index : ℕ → ℕ → ℕ → Option ℕ
block_index lx y lz =
    let above = sub_i32 y min_y in
    if lt_i32 y min_y then none else some (above / 16 * 4096 + (above % 16 * 16 + lz) * 16 + lx)

-- skullAt
pub record SkullAt : Type 0 where
  pub pos : Pos
  pub state : ℕ
  pub url : String

-- One block entity of a chunk's section.
pub record BlockEntity : Type 0 where
  pub xz : ℕ
  pub y : ℕ
  pub kind : ℕ
  pub tag : Fields

abbrev pub block_entity_skull : ℕ
block_entity_skull = 16

-- head.CX and head.CZ are int32; `states` is the chunk's body, if it has one.
module _ (head_first wall_head_first : ℕ) (skin_url : List Property → String) (cx cz : ℕ)
    (states : Option (List ℕ)) where
  abbrev pub state_in : Option (List ℕ) → Option ℕ → ℕ
  state_in (some body) (some index) = get_or body index 0
  state_in _ _ = 0

  abbrev pub head_with : Option Pose → BlockEntity → ℕ → List SkullAt
  head_with none e state = []
  head_with (some pose) e state =
      record {
        pos = record {
          x = (cx * 16 + e.xz / 16) % 2 ^ 32;
          y = e.y;
          z = (cz * 16 + e.xz % 16) % 2 ^ 32;
        };
        state = state;
        url = skin_url (profile_props (get_field key_profile e.tag));
      }
      ∷ []

  unfoldable pub heads_of : BlockEntity → List SkullAt
  unfolding head_pose block_index profile_props get_field
  heads_of e =
      let state = state_in states (block_index (e.xz / 16) e.y (e.xz % 16)) in
      if e.kind == block_entity_skull
      then head_with (head_pose head_first wall_head_first state) e state
      else []

  unfoldable pub all_heads : List BlockEntity → List SkullAt
  unfolding heads_of
  all_heads [] = []
  all_heads (e ∷ es) = heads_of e ++ all_heads es

abbrev and_on : Read BlockEntity → (List ℕ → List BlockEntity) → List BlockEntity
and_on (done e rest) go = e ∷ go rest
and_on fail go = []
and_on stuck go = []

-- tproto.ReadVarInt is the shared protocol library's; it gives an int32 and what is left, or an error.
module _ (read_var_int : List ℕ → Read ℕ) where
  unfoldable pub read_entity : List ℕ → Read BlockEntity
  read_entity bs = do
    (xz, rest) ← read_byte bs
    (yb, rest) ← read_full 2 rest
    (kind, rest) ← read_var_int rest
    (tag, rest) ← read_nbt rest
    done (record { xz = xz; y = sign_extend (big_endian yb); kind = kind; tag = tag }) rest

  -- The loop ends at the first entity that cannot be read, with those before it.
  unfoldable pub walk : ℕ → List ℕ → List BlockEntity
  walk zero bs = []
  walk (suc n) bs = and_on (read_entity bs) (walk n)

  -- What chunkSkulls makes of the entities, once they are counted.
  module _ (heads : List BlockEntity → List SkullAt) where
    abbrev pub counted : Read ℕ → List SkullAt
    counted (done n rest) = if le_i32 n 0 || lt_i32 4096 n then [] else heads (walk n rest)
    counted _ = []

    abbrev pub unless_empty : List ℕ → List SkullAt
    unless_empty [] = []
    unless_empty (b ∷ bs) = counted (read_var_int (b ∷ bs))

  unfoldable pub chunk_skulls :
      ℕ → ℕ → (List Property → String) → ℕ → ℕ → Option (List ℕ) → List ℕ → List SkullAt
  unfolding walk all_heads
  chunk_skulls head_first wall_head_first skin_url cx cz states bs =
      unless_empty (all_heads head_first wall_head_first skin_url cx cz states) bs
