-- ===== src/Cracks/Laws.antt =====
-- internal/gw/blockcrack.go: the estimates of several blocks in one tracker.
use tachyne_gw_bedrock.Prelude.{
  ℕ, ◌<◌, ◌^◌, ◌≢◌, ◌||◌, not, ◌∙◌, subst, Bool, List, lt_i32, ltb, if◌then◌else◌, Bool-cases, inl,
  inr, ◌≡◌, refl, true, false, [], ◌∷◌, Option, none, some, arith,
}
use tachyne_gw_bedrock.Cracks.{
  CrackStage, stop_cracking, paced, CrackKey, same_key, Tracker, find_crack, forget, crack_packet,
}

find_crack-forget_self : (t : Tracker) (key : CrackKey) → find_crack (forget t key) key ≡ none
unfolding find_crack forget
find_crack-forget_self [] key = refl
find_crack-forget_self ((k, s) ∷ t) key = ground (arith, find_crack-forget_self t key)

same_key-false :
    (k a b : CrackKey) → same_key a b ≡ false → same_key k a ≡ true → same_key k b ≡ false
same_key-false (x, y, z) (x1, y1, z1) (x2, y2, z2) h e = ground arith

find_crack-forget_other :
    (t : Tracker) (a b : CrackKey)
    → same_key a b ≡ false
    → find_crack (forget t a) b ≡ find_crack t b
unfolding find_crack forget
find_crack-forget_other [] a b h = refl
find_crack-forget_other ((k, s) ∷ t) a b h =
    ground (arith, find_crack-forget_other t a b h, same_key-false k a b h)

same_key_iff : (a b : CrackKey) → ((same_key a b ≡ true) → a ≡ b) × (a ≡ b → same_key a b ≡ true)
same_key_iff (x, y, z) (x1, y1, z1) = (
  λ h. pairs (ground arith) (ground arith) (ground arith),
  λ e. subst (λ (k : CrackKey). same_key (x, y, z) k ≡ true) e (ground arith),
)
  where
    pairs : x ≡ x1 → y ≡ y1 → z ≡ z1 → ◌≡◌ {A = CrackKey} (x, y, z) (x1, y1, z1)
    pairs p q r = rw (p, q, r) refl

key_discrete : (a b : CrackKey) → Dec (a ≡ b)
key_discrete a b = elim (Bool-cases (same_key a b)) [
  | inl h ↦ yes ((same_key_iff a b).0 h)
  | inr h ↦ no (λ e. absurd_of_both (same_key a b) ((same_key_iff a b).1 e) h)
]
  where
    absurd_of_both : (x : Bool) → x ≡ true → x ≡ false → ⊥
    absurd_of_both x p q = cc

-- A frame of the world's: the block, the stage (an int32's bit pattern) and the clock's tick at which it came.
pub record Progress : Type 0 where
  pub block : CrackKey
  pub stage : ℕ
  pub tick : ℕ

-- The tracker after frames, the last of them first.
unfoldable pub after : List Progress → Tracker
after [] = []
after (f ∷ earlier) = (crack_packet (after earlier) f.block f.stage f.tick).0

-- What a block's last frame says: none where there was no frame for it, or where its stage is not one of 0 to 9.
abbrev estimate : Progress → Option CrackStage
estimate f = if ltb f.stage 10 then some (record { tick = f.tick; stage = f.stage }) else none

pub latest : List Progress → CrackKey → Option CrackStage
latest [] key = none
latest (f ∷ earlier) key = elim (key_discrete f.block key) [
  | yes e ↦ estimate f
  | no n ↦ latest earlier key
]

in_range : (stage : ℕ) → stage < 2 ^ 32 → (lt_i32 stage 0 || lt_i32 9 stage) ≡ not (ltb stage 10)
in_range stage h = ground arith

abbrev pub AllInt : List Progress → Type 0
AllInt [] = Unit
AllInt (f ∷ earlier) = (f.stage < 2 ^ 32) × AllInt earlier

differ : (a b : CrackKey) → a ≢ b → same_key a b ≡ false
differ a b n = elim (Bool-cases (same_key a b)) [
  | inl h ↦ absurd (n ((same_key_iff a b).0 h))
  | inr h ↦ h
]

-- What comes for one block leaves the estimate of every other as it was.
crack_packet-other :
    (t : Tracker) (a b : CrackKey) (progress now : ℕ)
    → a ≢ b
    → find_crack (crack_packet t a progress now).0 b ≡ find_crack t b
unfolding crack_packet find_crack
crack_packet-other t a b progress now n =
    let h = differ a b n in
    elim (Bool-cases (lt_i32 progress 0 || lt_i32 9 progress)) [
      | inl q ↦ rw q (find_crack-forget_other t a b h)
      | inr q ↦ rw (q, h) (find_crack-forget_other t a b h)
    ]

crack_packet_self :
    (t : Tracker) (f : Progress)
    → f.stage < 2 ^ 32
    → find_crack (crack_packet t f.block f.stage f.tick).0 f.block ≡ estimate f
unfolding crack_packet find_crack
crack_packet_self t f h = rw (in_range f.stage h) (elim (Bool-cases (ltb f.stage 10)) [
  | inl q ↦ rw (q, (same_key_iff f.block f.block).1 refl) refl
  | inr q ↦ rw q (find_crack-forget_self t f.block)
])

after-latest :
    (fs : List Progress) (key : CrackKey) → AllInt fs → find_crack (after fs) key ≡ latest fs key
unfolding after latest find_crack
after-latest [] key h = refl
after-latest (f ∷ earlier) key h =
    elim (key_discrete f.block key)
      as (λ d.
        find_crack (after (f ∷ earlier)) key
        ≡ elim d [ yes e ↦ estimate f | no n ↦ latest earlier key ]) [
          | yes e ↦
              subst (λ k. find_crack (after (f ∷ earlier)) k ≡ estimate f) e
                (crack_packet_self (after earlier) f h.0)
          | no n ↦
              crack_packet-other (after earlier) f.block key f.stage f.tick n
              ∙ after-latest earlier key h.1
        ]

-- After any frames of the world's, a block's next frame with a stage of 0 to 9 starts a crack when the block's last
-- frame before it had no such stage or there was none, and else paces the crack by that last frame's stage and tick;
-- the frame for any other stage stops the crack.
pub crack_packet-latest :
    (fs : List Progress) (f : Progress)
    → AllInt fs
    → f.stage < 2 ^ 32
    → (crack_packet (after fs) f.block f.stage f.tick).1
      ≡ (if ltb f.stage 10 then paced (latest fs f.block) f.tick f.stage else stop_cracking)
unfolding crack_packet
crack_packet-latest fs f h k =
    rw (in_range f.stage k, after-latest fs f.block h)
      (elim (Bool-cases (ltb f.stage 10)) [ inl q ↦ rw q refl | inr q ↦ rw q refl ])
