-- ===== src/Requests/Transfers/Items.antt =====
-- internal/gw/itemstack.go: the items that a request which crafts nothing moves or throws out.
use tachyne_gw_bedrock.Prelude.{
  ◌<◌, ◌^◌, ◌≡◌, refl, ◌∙◌, List, [], ◌∷◌, ◌||◌, ok, ok-injective, >>=-eq-ok, arith, Bool, false,
}
use tachyne_gw_bedrock.Item.{ItemStack}
use tachyne_gw_bedrock.Protocol.{Action, take, place, swap, drop}
use tachyne_gw_bedrock.Mirror.{Mirror}
use tachyne_gw_bedrock.Moves.Totals.{
  Keeps-refl, Keeps, Sheds, load, transfer-Keeps, swap_slots-Keeps, shed-Sheds,
}
use tachyne_gw_bedrock.Requests.Steps.{Work}
use tachyne_gw_bedrock.Requests.Frame.{Declares}
use tachyne_gw_bedrock.Requests.Transfers.{apply_action, apply_actions}
use tachyne_gw_bedrock.Requests.Transfers.Walk.{
  IsByteCounted, AreByteCounted, throws, apply_transfer-moved, apply_swap-moved, apply_drop-moved,
  apply_action-Declares,
}

abbrev pub throws_any : List Action → Bool
throws_any [] = false
throws_any (a ∷ rest) = throws a || throws_any rest

Sheds-of_Keeps : (xs ys : List ItemStack) → Keeps xs ys → Sheds xs ys
Sheds-of_Keeps xs ys k = record {
  size = k.size;
  items = λ id. omega (arith, k.items id);
  all = omega (arith, k.all);
}

Keeps-trans : {xs ys zs : List ItemStack} → Keeps xs ys → Keeps ys zs → Keeps xs zs
Keeps-trans k l = record {
  size = l.size ∙ k.size;
  items = λ id. l.items id ∙ k.items id;
  all = l.all ∙ k.all;
}

Sheds-trans : {xs ys zs : List ItemStack} → Sheds xs ys → Sheds ys zs → Sheds xs zs
Sheds-trans k l = record {
  size = l.size ∙ k.size;
  items = λ id. omega (arith, l.items id, k.items id);
  all = omega (arith, l.all, k.all);
}

module _ (m : Mirror) where
  apply_action-Keeps :
      (w : Work) (a : Action) (w' : Work)
      → load w.slots < 2 ^ 31
      → IsByteCounted a
      → throws a ≡ false
      → apply_action m w a ≡ ok w'
      → Keeps w.slots w'.slots
  unfolding apply_action
  apply_action-Keeps w (take from to count) w' h b n e =
      let (src, dst, xs, moved, r) = apply_transfer-moved m w from to count w' e in
      rw r (transfer-Keeps w.slots src dst count xs h b moved)
  apply_action-Keeps w (place from to count) w' h b n e =
      let (src, dst, xs, moved, r) = apply_transfer-moved m w from to count w' e in
      rw r (transfer-Keeps w.slots src dst count xs h b moved)
  apply_action-Keeps w (swap from to) w' h b n e =
      let (src, dst, xs, moved, r) = apply_swap-moved m w from to w' e in
      rw r (swap_slots-Keeps w.slots src dst xs moved)
  apply_action-Keeps w (drop from count) w' h b n e = cc
  apply_action-Keeps w _ w' h b n e = cc

  apply_action-Sheds :
      (w : Work) (a : Action) (w' : Work)
      → load w.slots < 2 ^ 31
      → IsByteCounted a
      → apply_action m w a ≡ ok w'
      → Sheds w.slots w'.slots
  unfolding apply_action
  apply_action-Sheds w (drop from count) w' h b e =
      let (slot, xs, moved, r) = apply_drop-moved m w from count w' e in
      rw r (shed-Sheds w.slots slot count xs (omega arith) h moved)
  apply_action-Sheds w (take from to count) w' h b e =
      Sheds-of_Keeps _ _ (apply_action-Keeps w (take from to count) w' h b refl e)
  apply_action-Sheds w (place from to count) w' h b e =
      Sheds-of_Keeps _ _ (apply_action-Keeps w (place from to count) w' h b refl e)
  apply_action-Sheds w (swap from to) w' h b e =
      Sheds-of_Keeps _ _ (apply_action-Keeps w (swap from to) w' h b refl e)
  apply_action-Sheds w _ w' h b e = cc

  pub apply_actions-Sheds :
      (w : Work) (acts : List Action) (w' : Work)
      → load w.slots < 2 ^ 31
      → AreByteCounted acts
      → apply_actions m w acts ≡ ok w'
      → Sheds w.slots w'.slots
  unfolding apply_actions
  apply_actions-Sheds w [] w' h b e =
      rw (← ok-injective e) (Sheds-of_Keeps w.slots w.slots (Keeps-refl w.slots))
  apply_actions-Sheds w (a ∷ rest) w' h b e =
      let (v, e1, e2) = >>=-eq-ok (apply_action m w a) (λ u. apply_actions m u rest) e in
      let s = apply_action-Sheds w a v h b.0 e1 in
      Sheds-trans s (apply_actions-Sheds v rest w' (omega (arith, s.all)) b.1 e2)

  pub apply_actions-Keeps :
      (w : Work) (acts : List Action) (w' : Work)
      → load w.slots < 2 ^ 31
      → AreByteCounted acts
      → throws_any acts ≡ false
      → apply_actions m w acts ≡ ok w'
      → Keeps w.slots w'.slots
  unfolding apply_actions
  apply_actions-Keeps w [] w' h b n e = rw (← ok-injective e) (Keeps-refl w.slots)
  apply_actions-Keeps w (a ∷ rest) w' h b n e =
      let (v, e1, e2) = >>=-eq-ok (apply_action m w a) (λ u. apply_actions m u rest) e in
      let k = apply_action-Keeps w a v h b.0 (ground arith) e1 in
      Keeps-trans k (apply_actions-Keeps v rest w' (omega (arith, k.all)) b.1 (ground arith) e2)

  pub apply_actions-Declares :
      (base : List ItemStack) (w : Work) (acts : List Action) (w' : Work)
      → Declares base w
      → apply_actions m w acts ≡ ok w'
      → Declares base w'
  unfolding apply_actions
  apply_actions-Declares base w [] w' d e = rw (← ok-injective e) d
  apply_actions-Declares base w (a ∷ rest) w' d e =
      let (w1, e1, e2) = >>=-eq-ok (apply_action m w a) (λ v. apply_actions m v rest) e in
      apply_actions-Declares base w1 rest w' (apply_action-Declares m base w a w1 d e1) e2
