-- ===== src/Skulls/Written.antt =====
-- The block entities of a chunk as the world writes them, read by chunkSkulls (internal/gw/skulls.go).
use tachyne_gw_bedrock.Prelude.{
  ℕ, ◌+◌, ◌*◌, ◌%◌, ◌-◌, ◌^◌, ◌<◌, ◌≤◌, ◌≡◌, refl, ap, ◌∙◌, false, List, [], ◌∷◌, ◌++◌, map, Option,
  ◌||◌, le_i32, lt_i32, length, length-append, arith,
}
use mathlib.Core.List.{append_assoc}
use Prim.Native.String.{String}
use tachyne_gw_bedrock.Nbt.Reader.{
  Read, done, put_big_endian, big_endian-put_big_endian, length-put_big_endian,
}
use tachyne_gw_bedrock.Nbt.Exact.{read_full-append}
use tachyne_gw_bedrock.Skulls.Chunks.{
  Property, sign_extend, read_entity, walk, all_heads, counted, chunk_skulls,
}
use tachyne_gw_bedrock.Skulls.Standing.{
  WrittenEntity, tag_fields, entity_of, put_tag, EntityFits, AllFit, heads_written,
  read_nbt-put_tag, tag_written, all_heads-entity_of,
}

-- Of the shared library's VarInts only this is used: what is written is read back.
module _ (read_var_int : List ℕ → Read ℕ) (put_var_int : ℕ → List ℕ)
    (read_put : (v : ℕ) (rest : List ℕ)
      → v < 2 ^ 32
      → read_var_int (put_var_int v ++ rest) ≡ done v rest) where
  unfoldable pub emit_entity : WrittenEntity → List ℕ
  emit_entity e =
      (e.lx * 16 + e.lz) ∷ put_big_endian 2 ((e.above + (2 ^ 16 - 64)) % 2 ^ 16)
      ++ (put_var_int e.kind ++ put_tag e.tag)

  unfoldable pub emit_entities : List WrittenEntity → List ℕ
  emit_entities [] = []
  emit_entities (e ∷ es) = emit_entity e ++ emit_entities es

  read_entity-emit :
      (e : WrittenEntity) (rest : List ℕ)
      → EntityFits e
      → read_entity read_var_int (emit_entity e ++ rest) ≡ done (entity_of e) rest
  unfolding read_entity emit_entity
  read_entity-emit e rest f =
      let y = (e.above + (2 ^ 16 - 64)) % 2 ^ 16 in
      rw
        (
          regroup (put_big_endian 2 y) (put_var_int e.kind) (put_tag e.tag) rest,
          read_full-append 2 (put_big_endian 2 y) (put_var_int e.kind ++ (put_tag e.tag ++ rest))
              (length-put_big_endian 2 y)
              (omega (
                arith,
                length-append (put_var_int e.kind) (put_tag e.tag ++ rest),
                tag_written e.tag rest,
              )),
          read_put e.kind (put_tag e.tag ++ rest) f.3,
          read_nbt-put_tag e.tag rest f.4,
        )
        (ap
          (λ n.
            done
              (record {
                xz = e.lx * 16 + e.lz;
                y = sign_extend n;
                kind = e.kind;
                tag = tag_fields e.tag;
              })
              rest)
          (big_endian-put_big_endian 2 y (omega arith)))
    where
      regroup : (a b c d : List ℕ) → (a ++ (b ++ c)) ++ d ≡ a ++ (b ++ (c ++ d))
      regroup a b c d = simp append_assoc

  walk-emit :
      (es : List WrittenEntity)
      → AllFit es
      → walk read_var_int (length es) (emit_entities es) ≡ map entity_of es
  unfolding walk emit_entities
  walk-emit [] f = refl
  walk-emit (e ∷ es) f =
      rw (read_entity-emit e (emit_entities es) f.0) (ap (◌∷◌ (entity_of e)) (walk-emit es f.1))

  -- A chunk's section of block entities, as the world writes it with 1 to 4096 of them less than 2 ^ 15 above the bottom, gives
  -- the heads among them in their order: those of kind 16 whose block is a head, each at its place in the world with the
  -- state of the block there and its skin, and nothing of the other entities. An entity may have no tag.
  pub chunk_skulls-emit :
      (head_first wall_head_first : ℕ) (skin_url : List Property → String) (cx cz : ℕ)
      (states : Option (List ℕ)) (es : List WrittenEntity)
      → 0 < length es
      → length es ≤ 4096
      → AllFit es
      → chunk_skulls read_var_int head_first wall_head_first skin_url cx cz states
          (put_var_int (length es) ++ emit_entities es)
        ≡ heads_written head_first wall_head_first skin_url cx cz states es
  unfolding chunk_skulls emit_entity emit_entities
  chunk_skulls-emit head_first wall_head_first skin_url cx cz states es some_left few f =
      heads_counted (put_var_int (length es) ++ emit_entities es) (
        omega
          (arith, length-append (put_var_int (length es)) (emit_entities es), emitted es some_left))
      ∙ rw
          (
            read_put (length es) (emit_entities es) (omega arith),
            within_count (length es) some_left few,
          )
          (ap (all_heads head_first wall_head_first skin_url cx cz states) (walk-emit es f)
            ∙ all_heads-entity_of head_first wall_head_first skin_url cx cz states es f)
    where
      heads_counted :
          (bs : List ℕ)
          → 0 < length bs
          → chunk_skulls read_var_int head_first wall_head_first skin_url cx cz states bs
            ≡ counted read_var_int
                (all_heads head_first wall_head_first skin_url cx cz states)
                (read_var_int bs)
      heads_counted [] h = absurd (omega arith)
      heads_counted (b ∷ bs) h = refl

      within_count : (n : ℕ) → 0 < n → n ≤ 4096 → (le_i32 n 0 || lt_i32 4096 n) ≡ false
      within_count n h k = ground arith

      emitted : (es : List WrittenEntity) → 0 < length es → 0 < length (emit_entities es)
      emitted [] h = h
      emitted (e ∷ es) h =
          omega (arith, length-append (emit_entity e) (emit_entities es), entity_emitted e)
        where
          entity_emitted : (e : WrittenEntity) → 0 < length (emit_entity e)
          entity_emitted e = omega arith
