-- ===== src/Skulls/Standing.antt =====
-- Where the block entities of a chunk stand, and the heads among them (chunkSkulls of internal/gw/skulls.go).
use tachyne_gw_bedrock.Prelude.{
  ℕ, ◌+◌, ◌*◌, ◌/◌, ◌%◌, ◌-◌, none, some, true, if◌then◌else◌, get_or, ℕ_discrete, sub_i32, ◌==◌,
  ◌^◌, ◌<◌, ◌≡◌, refl, ap, ◌∙◌, false, List, [], ◌∷◌, ◌++◌, map, Option, lt_i32, length, arith,
}
use Prim.Native.String.{String}
use tachyne_gw_bedrock.Nbt.Reader.{done}
use mathlib.Core.Path.{ap₂}
use tachyne_gw_bedrock.Nbt.Read.{Fields, no_fields, read_nbt}
use tachyne_gw_bedrock.Skulls.Poses.{Pose, head_pose}
use tachyne_gw_bedrock.Nbt.Written.{Entries, compound_of, emit, fields_of, Fits}
use tachyne_gw_bedrock.Nbt.RoundTrip.{read_nbt-emit}
use tachyne_gw_bedrock.Skulls.Chunks.{
  Property, BlockEntity, SkullAt, profile_props, get_field, key_profile, min_y, block_index,
  heads_of, head_with, state_in, sign_extend, all_heads,
}

-- A block entity: where it stands in its column of blocks, how far above the bottom of the world (-64), what it is, and its
-- tag, which may be none.
pub record WrittenEntity : Type 0 where
  pub lx : ℕ
  pub lz : ℕ
  pub above : ℕ
  pub kind : ℕ
  pub tag : Option Entries

abbrev pub tag_fields : Option Entries → Fields
tag_fields none = no_fields
tag_fields (some entries) = fields_of no_fields entries

abbrev pub entity_of : WrittenEntity → BlockEntity
entity_of e = record {
  xz = e.lx * 16 + e.lz;
  y = sign_extend ((e.above + (2 ^ 16 - 64)) % 2 ^ 16);
  kind = e.kind;
  tag = tag_fields e.tag;
}

abbrev pub TagFits : Option Entries → Type 0
TagFits none = Unit
TagFits (some entries) = Fits 33 (compound_of entries)

abbrev pub EntityFits : WrittenEntity → Type 0
EntityFits e = (e.lx < 16) × (e.lz < 16) × (e.above < 2 ^ 15) × (e.kind < 2 ^ 32) × TagFits e.tag

abbrev pub AllFit : List WrittenEntity → Type 0
AllFit [] = Unit
AllFit (e ∷ es) = EntityFits e × AllFit es

-- A tag as the world writes it; none is a lone end.
abbrev pub put_tag : Option Entries → List ℕ
put_tag none = 0 ∷ []
put_tag (some entries) = 10 ∷ emit (compound_of entries)

pub read_nbt-put_tag :
    (tag : Option Entries) (rest : List ℕ)
    → TagFits tag
    → read_nbt (put_tag tag ++ rest) ≡ done (tag_fields tag) rest
unfolding read_nbt
read_nbt-put_tag none rest f = refl
read_nbt-put_tag (some entries) rest f = read_nbt-emit entries rest f

pub tag_written : (tag : Option Entries) (rest : List ℕ) → 0 < length (put_tag tag ++ rest)
tag_written none rest = omega arith
tag_written (some _) rest = omega arith

-- The heads of the entities, by where they stand: a head at its place in the world, with the state of the block there.
module _ (head_first wall_head_first : ℕ) (skin_url : List Property → String) (cx cz : ℕ)
    (states : Option (List ℕ)) where
  abbrev pub state_at : WrittenEntity → ℕ
  state_at e = elim states [
    | none ↦ 0
    | some body ↦ get_or body (e.above / 16 * 4096 + (e.above % 16 * 16 + e.lz) * 16 + e.lx) 0
  ]

  abbrev pub head_at : WrittenEntity → Option Pose → List SkullAt
  head_at e none = []
  head_at e (some pose) =
      record {
        pos = record {
          x = (cx * 16 + e.lx) % 2 ^ 32;
          y = (e.above + (2 ^ 32 - 64)) % 2 ^ 32;
          z = (cz * 16 + e.lz) % 2 ^ 32;
        };
        state = state_at e;
        url = skin_url (profile_props (get_field key_profile (tag_fields e.tag)));
      }
      ∷ []

  -- An entity of kind 16 is a head where its block is one; no other entity is.
  abbrev pub heads_at : WrittenEntity → List SkullAt
  heads_at e = elim (ℕ_discrete e.kind 16) [
    | yes q ↦ head_at e (head_pose head_first wall_head_first (state_at e))
    | no n ↦ []
  ]

  unfoldable pub heads_written : List WrittenEntity → List SkullAt
  heads_written [] = []
  heads_written (e ∷ es) = heads_at e ++ heads_written es

  column : (lx lz : ℕ) → lz < 16 → ((lx * 16 + lz) / 16 ≡ lx) × ((lx * 16 + lz) % 16 ≡ lz)
  column lx lz h = omega arith

  height :
      (above : ℕ)
      → above < 2 ^ 15
      → sign_extend ((above + (2 ^ 16 - 64)) % 2 ^ 16) ≡ (above + (2 ^ 32 - 64)) % 2 ^ 32
  height above h = ground arith

  index :
      (lx lz above : ℕ)
      → above < 2 ^ 15
      → block_index lx ((above + (2 ^ 32 - 64)) % 2 ^ 32) lz
        ≡ some (above / 16 * 4096 + (above % 16 * 16 + lz) * 16 + lx)
  unfolding block_index
  index lx lz above h =
      let raised : sub_i32 ((above + (2 ^ 32 - 64)) % 2 ^ 32) min_y ≡ above = ground arith in
      let not_below : lt_i32 ((above + (2 ^ 32 - 64)) % 2 ^ 32) min_y ≡ false = ground arith in
      rw (raised, not_below) refl

  abbrev stood : WrittenEntity → ℕ
  stood e =
      let b = entity_of e in
      state_in head_first wall_head_first skin_url cx cz states states
        (block_index (b.xz / 16) b.y (b.xz % 16))

  stood-state_at : (e : WrittenEntity) → EntityFits e → stood e ≡ state_at e
  stood-state_at e f =
      rw
        (
          (column e.lx e.lz f.1).0,
          (column e.lx e.lz f.1).1,
          height e.above f.2,
          index e.lx e.lz e.above f.2,
        )
        (in_body states)
    where
      in_body :
          (o : Option (List ℕ))
          → state_in head_first wall_head_first skin_url cx cz states o
              (some (e.above / 16 * 4096 + (e.above % 16 * 16 + e.lz) * 16 + e.lx))
            ≡ elim o [
              | none ↦ 0
              | some body ↦
                  get_or body (e.above / 16 * 4096 + (e.above % 16 * 16 + e.lz) * 16 + e.lx) 0
            ]
      in_body none = refl
      in_body (some body) = refl

  head_with-head_at :
      (e : WrittenEntity) (o : Option Pose)
      → EntityFits e
      → head_with head_first wall_head_first skin_url cx cz states o (entity_of e) (state_at e)
        ≡ head_at e o
  head_with-head_at e none f = refl
  head_with-head_at e (some pose) f =
      rw ((column e.lx e.lz f.1).0, (column e.lx e.lz f.1).1, height e.above f.2) refl

  heads_of-entity_of :
      (e : WrittenEntity)
      → EntityFits e
      → heads_of head_first wall_head_first skin_url cx cz states (entity_of e) ≡ heads_at e
  unfolding heads_of
  heads_of-entity_of e f =
      ap
        (λ n.
          if e.kind == 16
          then head_with head_first wall_head_first skin_url cx cz states
              (head_pose head_first wall_head_first n) (entity_of e) n
          else [])
        (stood-state_at e f)
      ∙ by_kind (ℕ_discrete e.kind 16)
    where
      by_kind :
          (d : Dec (e.kind ≡ 16))
          → (if e.kind == 16
              then head_with head_first wall_head_first skin_url cx cz states
                  (head_pose head_first wall_head_first (state_at e))
                  (entity_of e)
                  (state_at e)
              else [])
            ≡ elim d [
              | yes q ↦ head_at e (head_pose head_first wall_head_first (state_at e))
              | no n ↦ []
            ]
      by_kind (yes q) =
          let is_head : (e.kind == 16) ≡ true = ground (arith, q) in
          rw is_head (head_with-head_at e (head_pose head_first wall_head_first (state_at e)) f)
      by_kind (no n) = let is_not : (e.kind == 16) ≡ false = ground (arith, n) in rw is_not refl

  pub all_heads-entity_of :
      (es : List WrittenEntity)
      → AllFit es
      → all_heads head_first wall_head_first skin_url cx cz states (map entity_of es)
        ≡ heads_written es
  unfolding all_heads heads_written
  all_heads-entity_of [] f = refl
  all_heads-entity_of (e ∷ es) f = ap₂ ◌++◌ (heads_of-entity_of e f.0) (all_heads-entity_of es f.1)
