-- ===== src/Interaction/Lists.antt =====
-- The operations on the list of interactions.
use lobaro_coap.Common.{
  ℕ, inl, inr, Bool-cases, All-append, ◌≡◌, ◌≢◌, refl, ap, false, List, [], ◌∷◌, ◌++◌, some, ◌==◌,
  arith, All,
}
use lobaro_coap.Interaction.{
  Interaction, unlink_interaction_from_list, append_interaction_to_list,
  move_interaction_to_list_end,
}

pub append_interaction_to_list-end :
    (xs : List Interaction) (x : Interaction) → append_interaction_to_list xs x ≡ xs ++ (x ∷ [])
unfolding append_interaction_to_list
append_interaction_to_list-end [] x = refl
append_interaction_to_list-end (y ∷ ys) x = ap (λ t. y ∷ t) (append_interaction_to_list-end ys x)

-- No node before a place of the list has the address.
abbrev pub NotThere : ℕ → List Interaction → Type 0
NotThere address xs = All (λ x. x.address ≢ address) xs

unlink-there :
    (before : List Interaction) (x : Interaction) (after : List Interaction)
    → NotThere x.address before
    → unlink_interaction_from_list (before ++ (x ∷ after)) x.address ≡ (before ++ after, some x)
unfolding unlink_interaction_from_list
unlink-there [] x after h = ground arith
unlink-there (y ∷ before) x after h =
    let other : (y.address == x.address) ≡ false = ground (arith, h.0) in
    rw (unlink-there before x after h.1, other) refl

-- CoAP_MoveInteractionToListEnd takes the interaction from its place to the end of the list and
-- keeps the order of all others, so that the longest waiting one comes first.
pub move_interaction_to_list_end-there :
    (before : List Interaction) (x : Interaction) (after : List Interaction)
    → NotThere x.address before
    → move_interaction_to_list_end (before ++ (x ∷ after)) x ≡ (before ++ after) ++ (x ∷ [])
unfolding move_interaction_to_list_end
move_interaction_to_list_end-there before x after h =
    rw (unlink-there before x after h) (append_interaction_to_list-end (before ++ after) x)

-- Taking a node out and putting one last keep what holds of all nodes.
pub All-unlink {κ} :
    (P : Interaction → Type κ) (xs : List Interaction) (address : ℕ)
    → All P xs
    → All P (unlink_interaction_from_list xs address).0
unfolding unlink_interaction_from_list
All-unlink P [] address a = tt
All-unlink P (x ∷ xs) address a = elim (Bool-cases (x.address == address)) [
  | inl here ↦ rw here a.1
  | inr there ↦ rw there (a.0, All-unlink P xs address a.1)
]

pub All-append_interaction_to_list {κ} :
    (P : Interaction → Type κ) (xs : List Interaction) (x : Interaction)
    → All P xs
    → P x
    → All P (append_interaction_to_list xs x)
All-append_interaction_to_list P xs x a p =
    rw (append_interaction_to_list-end xs x) (All-append P xs (x ∷ []) a (p, tt))

pub All-move {κ} :
    (P : Interaction → Type κ) (xs : List Interaction) (x : Interaction)
    → All P xs
    → P x
    → All P (move_interaction_to_list_end xs x)
unfolding move_interaction_to_list_end
All-move P xs x a p = All-append_interaction_to_list P _ x (All-unlink P xs x.address a) p
