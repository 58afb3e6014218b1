-- ===== src/Observer/Places.antt =====
-- No two observers of a resource are at one socket and endpoint.
use lobaro_coap.Common.{
  ℕ, ◌≡◌, ◌≢◌, ◌⊎◌, ◌∙◌, refl, true, false, List, [], ◌∷◌, ◌++◌, none, some, ◌==◌, arith, All, inl,
  inr, Bool-cases, Option-cases, All-append,
}
use mathlib.Core.Path.{subst}
use mathlib.Core.Option.{some-injective}
use lobaro_coap.Platform.{Mem}
use lobaro_coap.Endpoint.{Endpoint}
use lobaro_coap.Endpoint.Equal.{ep_are_equal_comm, ep_are_equal_iff}
use lobaro_coap.Observer.{
  Observer, append_observer_to_list, unlink_observer_from_list, is_at, find_same_observer,
  delete_same_observer,
}

-- Two nodes that are different and at different places.
abbrev pub Apart : Observer → Observer → Type 0
Apart x y = (x.address ≢ y.address) × (is_at x.socket_handle x.ep y ≡ false)

-- All nodes of a list are apart.
abbrev pub OneEach : List Observer → Type 0
OneEach [] = Unit {0}
OneEach (x ∷ xs) = All (λ y. Apart x y) xs × OneEach xs

append-end : (xs : List Observer) (x : Observer) → append_observer_to_list xs x ≡ xs ++ (x ∷ [])
unfolding append_observer_to_list
append-end [] x = refl
append-end (y ∷ ys) x = rw (append-end ys x) refl

OneEach-end :
    (xs : List Observer) (y : Observer)
    → All (λ x. Apart x y) xs
    → OneEach xs
    → OneEach (xs ++ (y ∷ []))
OneEach-end [] y h d = (tt, tt)
OneEach-end (x ∷ xs) y h d =
    (All-append (λ z. Apart x z) xs (y ∷ []) d.0 (h.0, tt), OneEach-end xs y h.1 d.1)

All-unlink {κ} :
    (P : Observer → Type κ) (xs : List Observer) (address : ℕ) (m : Mem)
    → All P xs
    → All P (unlink_observer_from_list xs address m).0
unfolding unlink_observer_from_list
All-unlink P [] address m a = tt
All-unlink P (x ∷ xs) address m a = elim (Bool-cases (x.address == address)) [
  | inl here ↦ rw here a.1
  | inr there ↦ rw there (a.0, All-unlink P xs address m a.1)
]

-- Taking a node out keeps the others apart.
pub unlink_observer_from_list-OneEach :
    (xs : List Observer) (address : ℕ) (m : Mem)
    → OneEach xs
    → OneEach (unlink_observer_from_list xs address m).0
unfolding unlink_observer_from_list
unlink_observer_from_list-OneEach [] address m d = tt
unlink_observer_from_list-OneEach (x ∷ xs) address m d = elim (Bool-cases (x.address == address)) [
  | inl here ↦ rw here d.1
  | inr there ↦ rw there (
    All-unlink (λ y. Apart x y) xs address m d.0,
    unlink_observer_from_list-OneEach xs address m d.1,
  )
]

is_at_comm : (x y : Observer) → is_at x.socket_handle x.ep y ≡ is_at y.socket_handle y.ep x
is_at_comm x y = ground (arith, ep_are_equal_comm x.ep y.ep)

-- What is at the place of an observer is apart from no other one there.
is_at_elsewhere :
    (socket : ℕ) (ep : Endpoint) (x y : Observer)
    → is_at socket ep x ≡ true
    → is_at x.socket_handle x.ep y ≡ false
    → is_at socket ep y ≡ false
is_at_elsewhere socket ep x y here apart =
    ground (arith, ep_are_equal_iff ep x.ep, ep_are_equal_iff ep y.ep, ep_are_equal_iff x.ep y.ep)

All-elsewhere :
    (socket : ℕ) (ep : Endpoint) (x : Observer) (ys : List Observer)
    → is_at socket ep x ≡ true
    → All (λ y. Apart x y) ys
    → All (λ y. is_at socket ep y ≡ false) ys
All-elsewhere socket ep x [] here a = tt
All-elsewhere socket ep x (y ∷ ys) here a =
    (is_at_elsewhere socket ep x y here a.0.1, All-elsewhere socket ep x ys here a.1)

found-All {κ} :
    (P : Observer → Type κ) (xs : List Observer) (socket : ℕ) (ep : Endpoint) (y : Observer)
    → find_same_observer xs socket ep ≡ some y
    → All P xs
    → P y
unfolding find_same_observer
found-All P [] socket ep y e a = absurd (cc e)
found-All P (x ∷ xs) socket ep y e a = elim (Bool-cases (is_at socket ep x)) [
  | inl here ↦
      let same : some x ≡ some y = rw (here, find_same_observer) at e in
      subst P (some-injective x y same) a.0
  | inr there ↦ found-All P xs socket ep y (rw (there, find_same_observer) at e) a.1
]

-- Where all nodes are apart, the deletion leaves no observer at the place.
delete_same_observer-clear :
    (xs : List Observer) (socket : ℕ) (ep : Endpoint) (m : Mem)
    → OneEach xs
    → All (λ y. is_at socket ep y ≡ false) (delete_same_observer xs socket ep m).0
unfolding delete_same_observer find_same_observer unlink_observer_from_list
delete_same_observer-clear [] socket ep m d = tt
delete_same_observer-clear (x ∷ xs) socket ep m d = elim (Bool-cases (is_at socket ep x)) [
  | inl here ↦
      let self : (x.address == x.address) ≡ true = ground arith in
      rw (here, self, delete_same_observer) (All-elsewhere socket ep x xs here d.0)
  | inr there ↦
      let rest = delete_same_observer-clear xs socket ep m d.1 in
      elim (Option-cases (find_same_observer xs socket ep)) [
        | inl nobody ↦
            rw (there, nobody, delete_same_observer)
              (there, rw (nobody, delete_same_observer) at rest)
        | inr (y, found) ↦
            let other : (x.address == y.address) ≡ false =
              ground (arith, (found-All (λ z. Apart x z) xs socket ep y found d.0).0) in
            rw (there, found, other, delete_same_observer)
              (there, rw (found, delete_same_observer) at rest)
      ]
]

Apart-new :
    (xs : List Observer) (x : Observer)
    → All (λ y. y.address ≢ x.address) xs
    → All (λ y. is_at x.socket_handle x.ep y ≡ false) xs
    → All (λ y. Apart y x) xs
Apart-new [] x a b = tt
Apart-new (y ∷ ys) x a b = ((a.0, is_at_comm y x ∙ b.0), Apart-new ys x a.1 b.1)

-- Where no two observers of a resource are at one socket and endpoint, a registration, which
-- deletes the observer at the place of the new one and appends that, keeps it so.
pub append_observer_to_list-OneEach :
    (xs : List Observer) (x : Observer) (m : Mem)
    → OneEach xs
    → All (λ y. y.address ≢ x.address) xs
    → OneEach (append_observer_to_list (delete_same_observer xs x.socket_handle x.ep m).0 x)
unfolding delete_same_observer
append_observer_to_list-OneEach xs x m d new =
    let kept = delete_same_observer xs x.socket_handle x.ep m in
    rw (append-end kept.0 x) (
      OneEach-end kept.0 x
        (Apart-new kept.0 x (survive (λ y. y.address ≢ x.address) new)
          (delete_same_observer-clear xs x.socket_handle x.ep m d))
        (whole (Option-cases (find_same_observer xs x.socket_handle x.ep))))
  where
    survive :
        (P : Observer → Type 0)
        → All P xs
        → All P (delete_same_observer xs x.socket_handle x.ep m).0
    survive P a = elim (Option-cases (find_same_observer xs x.socket_handle x.ep)) [
      | inl nobody ↦ rw (nobody, delete_same_observer) a
      | inr (y, found) ↦ rw (found, delete_same_observer) (All-unlink P xs y.address m a)
    ]

    whole :
        (find_same_observer xs x.socket_handle x.ep ≡ none)
          ⊎ ((y : Observer) × (find_same_observer xs x.socket_handle x.ep ≡ some y))
        → OneEach (delete_same_observer xs x.socket_handle x.ep m).0
    whole (inl nobody) = rw (nobody, delete_same_observer) d
    whole (inr (y, found)) =
        rw (found, delete_same_observer) (unlink_observer_from_list-OneEach xs y.address m d)
