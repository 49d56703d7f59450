-- ===== src/Skulls/Kept.antt =====
-- What each method of the head cache keeps (internal/gw/skulls.go).
use tachyne_gw_bedrock.Prelude.{
  ℕ, ◌≤◌, ◌≡◌, refl, ap, sym, false, not, List, [], ◌∷◌, Option, none, some, if◌then◌else◌, ◌==◌,
  ◌&&◌, Bool-cases, inl, inr, arith,
}
use Prim.Native.String.{String}
use text.Mathlib.Text.{◌==◌ as str_eq}
use tachyne_gw_bedrock.Skulls.Poses.{Pose, head_pose}
use tachyne_gw_bedrock.Skulls.Cache.{
  Pos, Skull, set_visible, Cache, set_head, drop_head, send, apply_skin, dress, max_visible_skulls,
}
use tachyne_gw_bedrock.Skulls.Nearest.{cull-Nearest, cull-none}
use tachyne_gw_bedrock.Skulls.Steps
use tachyne_gw_bedrock.Skulls.Steps.{
  Outside, Display, find_skull, drop_skull, store_skull, blank_skull,
}
use tachyne_gw_bedrock.Skulls.Players.{
  wearing, Agree, Agree-eq, Quiet, free-Agree, free-one, free-skulls, Quiet-trans, Quiet-if,
  apply_skin-Quiet, dress-Quiet, place-Quiet,
}
use tachyne_gw_bedrock.Skulls.Culls.{cull-Agree}
use tachyne_gw_bedrock.Skulls.Heads.{
  worn, Worn, worn-append, worn-le, worn-drop, none_worn, find_skull-pos, find_skull-wearing,
  Worn-Quiet, stored-Worn, Quiet-refl, heads-Quiet, set_visible-Quiet,
}

module _ {At P : Type 0} (w : Outside At P) where
  culled-Worn : (c : Cache At) → Worn c → Worn (Steps.culled w c)
  culled-Worn c a = record {
    shown = cull-Agree w.new_uuid w.dist2 w.forget_limit w.render_limit c a.shown;
    few = by_place c.at refl;
  }
    where
      by_place : (o : Option At) → c.at ≡ o → worn (Steps.culled w c).skulls ≤ max_visible_skulls
      by_place none e =
          omega
            (arith, a.few, ap worn (cull-none w.new_uuid w.dist2 w.forget_limit w.render_limit c e))
      by_place (some at) e =
          let (shown, rest, split, in_range, few, left) =
            (cull-Nearest w.new_uuid w.dist2 w.forget_limit w.render_limit c at e).0 in
          omega (arith, ap worn split, worn-append shown rest, worn-le shown, none_worn rest _ left)

  remove_found-Worn :
      (o : Option Skull) (pos : Pos) (c : Cache At)
      → find_skull pos c.skulls ≡ o
      → Worn c
      → Worn (Steps.remove_found w o pos c)
  unfolding Steps.remove_found
  remove_found-Worn none pos c e a = a
  remove_found-Worn (some s) pos c e a =
      let freed =
        free-Agree w.new_uuid s (λ id. wearing id (drop_skull pos c.skulls)) c
          (Agree-eq _ _ c (λ id. sym (find_skull-wearing pos c.skulls s id e)) a.shown) in
      let dropped = ap (drop_skull pos) (free-skulls w.new_uuid s c) in
      culled-Worn _ (record {
        shown = record {
          agrees = λ id p.
              omega
                (arith, freed.agrees id p, free-one w.new_uuid s c id p, ap (wearing id) dropped);
          unused = freed.unused;
        };
        few = omega (arith, ap worn dropped, worn-drop pos c.skulls, a.few);
      })

  remove-Worn : (pos : Pos) (c : Cache At) → Worn c → Worn (Steps.remove w pos c)
  unfolding Steps.remove
  remove-Worn pos c a = remove_found-Worn (find_skull pos c.skulls) pos c refl a

  put_found-Worn :
      (o : Option Skull) (pos : Pos) (state : ℕ) (url : String) (c : Cache At)
      → find_skull pos c.skulls ≡ o
      → Worn c
      → Worn (Steps.put_found w o pos state url c)
  unfolding Steps.put_found
  put_found-Worn none pos state url c e a = culled-Worn _ (record {
    shown = record {
      agrees = λ id p. unfold wearing in ground (arith, a.shown.agrees id p);
      unused = a.shown.unused;
    };
    few = unfold worn in ground (arith, a.few);
  })
  put_found-Worn (some s) pos state url c e a =
      let s' = record s { state = state; url = url } in
      let c' = record c { skulls = store_skull s' c.skulls } in
      let kept = stored-Worn s s' pos c e refl (find_skull-pos pos c.skulls s e) a in
      let hidden = send w.new_uuid (set_visible s.id false) c' in
      let redressed = if str_eq s.url url then c' else dress w.new_uuid s' hidden in
      let quiet : Quiet c' redressed = Quiet-if (str_eq s.url url) c' c' _ (Quiet-refl c') (
        Quiet-trans c' hidden _ (set_visible-Quiet s.id false c')
          (dress-Quiet w.new_uuid s' hidden)) in
      elim (Bool-cases (s.id == 0)) [
        | inl h ↦ rw h (culled-Worn c' kept)
        | inr h ↦ rw h (
            Worn-Quiet c' _ kept
              (Quiet-trans c' redressed _ quiet (place-Quiet w.new_uuid s' redressed)))
      ]

  pub put-Worn :
      (pos : Pos) (state : ℕ) (url : String) (c : Cache At)
      → Worn c
      → Worn (Steps.put w pos state url c)
  unfolding Steps.put
  put-Worn pos state url c a =
      let c' = record c { heads = set_head pos state c.heads } in
      let kept = Worn-Quiet c c' a (heads-Quiet c (set_head pos state c.heads)) in
      elim (Bool-cases (str_eq url "")) [
        | inl h ↦ rw h (remove-Worn pos c' kept)
        | inr h ↦ rw h (put_found-Worn (find_skull pos c.skulls) pos state url c' refl kept)
      ]

  pub display-Worn : (e : Display P) (c : Cache At) → Worn c → Worn (Steps.display w e c)
  unfolding Steps.display
  display-Worn e c a = elim (Bool-cases e.is_skull) [
    | inl h ↦ rw h (put-Worn e.pos _ _ c a)
    | inr h ↦ rw h a
  ]

  turn_found-Worn :
      (o : Option Skull) (pos : Pos) (state : ℕ) (c : Cache At)
      → find_skull pos c.skulls ≡ o
      → Worn c
      → Worn (Steps.turn_found w o state c)
  unfolding Steps.turn_found
  turn_found-Worn none pos state c e a = a
  turn_found-Worn (some s) pos state c e a =
      let s' = record s { state = state } in
      let c' = record c { skulls = store_skull s' c.skulls } in
      let kept = stored-Worn s s' pos c e refl (find_skull-pos pos c.skulls s e) a in
      elim (Bool-cases (s.state == state)) [
        | inl h ↦ rw h a
        | inr h ↦ rw h (elim (Bool-cases (s.id == 0)) [
          | inl q ↦ rw q kept
          | inr q ↦ rw q (Worn-Quiet c' _ kept (place-Quiet w.new_uuid s' c'))
        ])
      ]

  pub block_set_as-Worn :
      (o : Option Pose) (pos : Pos) (state : ℕ) (c : Cache At)
      → Worn c
      → Worn (Steps.block_set_as w o pos state c)
  unfolding Steps.block_set_as
  block_set_as-Worn none pos state c a =
      remove-Worn pos _ (Worn-Quiet c _ a (heads-Quiet c (drop_head pos c.heads)))
  block_set_as-Worn (some pose) pos state c a =
      turn_found-Worn (find_skull pos c.skulls) pos state _ refl
        (Worn-Quiet c _ a (heads-Quiet c (set_head pos state c.heads)))

  pub block_set-Worn :
      (pos : Pos) (state : ℕ) (c : Cache At) → Worn c → Worn (Steps.block_set w pos state c)
  unfolding Steps.block_set
  block_set-Worn pos state c a =
      block_set_as-Worn (head_pose w.head_first w.wall_head_first state) pos state c a

  pub moved-Worn : (p : At) (c : Cache At) → Worn c → Worn (Steps.moved w p c)
  unfolding Steps.moved
  moved-Worn p c a = elim (Bool-cases (Steps.still_near w c.at p)) [
    | inl h ↦ rw h a
    | inr h ↦ rw h (
        culled-Worn _ (record {
          shown = record { agrees = a.shown.agrees; unused = a.shown.unused };
          few = a.few;
        }))
  ]

  free_all-Agree :
      (ss : List Skull) (c : Cache At)
      → Agree (λ id. wearing id ss) c
      → Agree (λ id. 0) (Steps.free_all w ss c)
  unfolding Steps.free_all wearing
  free_all-Agree [] c a = a
  free_all-Agree (s ∷ ss) c a =
      let freed = free-Agree w.new_uuid s (λ id. wearing id ss) c a in
      free_all-Agree ss _ (record {
        agrees = λ id p. omega (arith, freed.agrees id p, free-one w.new_uuid s c id p);
        unused = freed.unused;
      })

  pub clear-Worn : (c : Cache At) → Worn c → Worn (Steps.clear w c)
  unfolding Steps.clear wearing worn
  clear-Worn c a =
      let cleared = free_all-Agree c.skulls c a.shown in
      record {
        shown = record { agrees = cleared.agrees; unused = cleared.unused };
        few = omega arith;
      }

  dress_all-Quiet :
      (url : String) (rgba : List ℕ) (ss : List Skull) (c : Cache At)
      → Quiet c (Steps.dress_all w url rgba ss c)
  unfolding Steps.dress_all
  dress_all-Quiet url rgba [] c = Quiet-refl c
  dress_all-Quiet url rgba (s ∷ ss) c =
      let dressed =
        if str_eq s.url url && not (s.id == 0) then apply_skin w.new_uuid s rgba c else c in
      Quiet-trans c dressed _
        (Quiet-if (str_eq s.url url && not (s.id == 0)) c _ c (apply_skin-Quiet w.new_uuid s rgba c)
          (Quiet-refl c))
        (dress_all-Quiet url rgba ss dressed)

  pub fetched-Worn :
      (url : String) (o : Option (List ℕ)) (c : Cache At) → Worn c → Worn (Steps.fetched w url o c)
  unfolding Steps.fetched
  fetched-Worn url none c a = record {
    shown = record { agrees = a.shown.agrees; unused = a.shown.unused };
    few = a.few;
  }
  fetched-Worn url (some rgba) c a =
      Worn-Quiet _ _
        (record {
          shown = record { agrees = a.shown.agrees; unused = a.shown.unused };
          few = a.few;
        })
        (dress_all-Quiet url rgba c.skulls _)
