-- ===== src/Tests/Skulls.antt =====
-- Runs of the cache of player heads.
use tachyne_gw_bedrock.Prelude.{
  none, ◌-◌, ℕ_discrete, ℕ, ◌+◌, ◌*◌, ◌^◌, ◌<◌, ◌≤◌, ◌≡◌, refl, true, false, List, [], ◌∷◌, ◌++◌,
  some, ◌==◌, arith,
}
use Prim.Native.String.{String}
use tachyne_gw_bedrock.Skulls.Poses.{head_pose}
use tachyne_gw_bedrock.Skulls.Cache.{
  Pos, Skull, add_player, fetch_skin, list_add, list_remove, set_visible, Cache, new_cache,
  max_visible_skulls, dress, apply_skin, spawn, free, find_skin, is_pending, set_head, set_skin,
  drop_pending,
}
use tachyne_gw_bedrock.Skulls.Visible.{sift, sort_by_distance, show_nearest, cull}
use tachyne_gw_bedrock.Skulls.Steps
use tachyne_gw_bedrock.Skulls.Steps.{Outside, find_skull}
use tachyne_gw_bedrock.Skulls.Players.{players, wearing}
use tachyne_gw_bedrock.Skulls.Heads.{worn}
use tachyne_gw_bedrock.Skulls.Nearest.{Culled, cull-Nearest}
use tachyne_gw_bedrock.Nbt.Reader.{read_byte}
use tachyne_gw_bedrock.Nbt.Written.{no_entries, entry, compound_of}
use tachyne_gw_bedrock.Skulls.Chunks.{SkullAt, profile_props, get_field, chunk_skulls, key_profile}
use tachyne_gw_bedrock.Skulls.Poses.{head_pose}
use tachyne_gw_bedrock.Skulls.Standing.{WrittenEntity, heads_written}
use tachyne_gw_bedrock.Skulls.Written.{emit_entities, chunk_skulls-emit}
use tachyne_gw_bedrock.Skulls.Reach.{start, next, put, moved, fetched, reached-players}

-- The player stands on a line with the heads.
abbrev on_a_line : Outside ℕ String
on_a_line = record {
  new_uuid = λ n. n;
  dist2 = λ at p. p.x + at;
  forget_limit = 512 * 512;
  render_limit = 32 * 32;
  head_first = 9000;
  wall_head_first = 9100;
  close = λ a b. a == b;
  skin_url = λ url. url;
}

abbrev at_x : ℕ → Pos
at_x n = record { x = n; y = 64; z = 0 }

abbrev begun : Cache ℕ
begun = Steps.moved on_a_line 7 (new_cache true)

abbrev one_head : Cache ℕ
one_head = Steps.put on_a_line (at_x 3) 9016 "skin" begun

abbrev dressed_head : Cache ℕ
dressed_head = Steps.fetched on_a_line "skin" (some (1 ∷ [])) one_head

abbrev first_id : ℕ
first_id = 2 ^ 40 + 0x7ff00000 + 1

-- A head in range gets a fake player and its skin is fetched, then shown.
one_head_sent :
    dressed_head.sent
    ≡ set_visible first_id true
      ∷ list_remove first_id
      ∷ list_add first_id first_id "skin" (1 ∷ [])
      ∷ fetch_skin "skin"
      ∷ add_player first_id first_id (at_x 3) 9016
      ∷ []
unfolding Steps.put Steps.put_found Steps.fetched Steps.dress_all Steps.moved new_cache cull dress
    spawn free find_skin is_pending find_skull set_head set_skin drop_pending apply_skin sift
    sort_by_distance show_nearest
one_head_sent = refl

-- The wall head to the east faces there.
wall_head : head_pose 9000 9100 9107 ≡ some (record { wall = true; yaw = 540; facing = 3 })
unfolding head_pose
wall_head = refl

reached-players_example :
    ((id : ℕ) → 0 < id → wearing id dressed_head.skulls ≡ players id dressed_head.sent)
    × (worn dressed_head.skulls ≤ max_visible_skulls)
reached-players_example = reached-players on_a_line dressed_head (
    next (next (next (start true) (moved (new_cache true) 7)) (put begun (at_x 3) 9016 "skin"))
      (fetched one_head "skin" (some (1 ∷ []))))

abbrev waiting : Skull
waiting = record { pos = at_x 3; state = 9016; url = "skin"; id = 0; uid = 0; dist2 = 0 }

abbrev crowd : Cache ℕ
crowd = record {
  sent = [];
  can_fetch = false;
  skulls = waiting ∷ record waiting { pos = at_x 2000 } ∷ [];
  heads = [];
  skins = [];
  pending = [];
  next_id = 5;
  at = some 7;
}

cull-Nearest_example :
    Culled on_a_line.new_uuid on_a_line.dist2
      (512 * 512)
      (32 * 32)
      7
      crowd.skulls
      (cull on_a_line.new_uuid on_a_line.dist2 (512 * 512) (32 * 32) crowd).skulls
cull-Nearest_example =
    cull-Nearest on_a_line.new_uuid on_a_line.dist2 (512 * 512) (32 * 32) crowd 7 refl

-- A number as one element of the input, in place of the shared library's VarInts.
abbrev put_number : ℕ → List ℕ
put_number v = v ∷ []

-- A floor head at the bottom of the world, with an empty profile, and a chest with no tag.
abbrev written : List WrittenEntity
written =
    record {
      lx = 0;
      lz = 0;
      above = 0;
      kind = 16;
      tag = some (entry key_profile (compound_of no_entries) no_entries);
    }
    ∷ record { lx = 2; lz = 5; above = 100; kind = 1; tag = none }
    ∷ []

abbrev head_at_bottom : List ℕ
head_at_bottom = 9004 ∷ []

abbrev bottom_head : SkullAt
bottom_head = record {
  pos = record { x = 16; y = 2 ^ 32 - 64; z = 32 };
  state = 9004;
  url = "skin";
}

one_head_written :
    heads_written 9000 9100 (λ ps. "skin") 1 2 (some head_at_bottom) written ≡ bottom_head ∷ []
unfolding heads_written ℕ_discrete head_pose profile_props get_field
one_head_written = refl

chunk_skulls-emit_example :
    chunk_skulls read_byte 9000 9100
      (λ ps. "skin")
      1
      2
      (some head_at_bottom)
      (put_number 2 ++ emit_entities read_byte put_number (λ v rest h. refl) written)
    ≡ heads_written 9000 9100 (λ ps. "skin") 1 2 (some head_at_bottom) written
chunk_skulls-emit_example =
    chunk_skulls-emit read_byte put_number (λ v rest h. refl) 9000 9100 (λ ps. "skin") 1 2
      (some head_at_bottom) written (omega arith) (omega arith)
      (
        (omega arith, omega arith, omega arith, omega arith, omega arith),
        ((omega arith, omega arith, omega arith, omega arith, tt), tt),
      )
