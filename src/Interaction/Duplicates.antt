-- ===== src/Interaction/Duplicates.antt =====
-- The duplicate detection of CoAP_StartNewServerInteraction.
use lobaro_coap.Common.{
  ℕ, ◌≡◌, ◌∙◌, refl, sym, true, false, ◌&&◌, List, [], ◌∷◌, ◌++◌, none, some, ◌⊎◌, ap, ◌==◌, arith,
  All, inl, inr, Bool-cases,
}
use mathlib.Core.Option.{some-injective}
use lobaro_coap.Message.{Message}
use lobaro_coap.Endpoint.{Endpoint, ep_are_equal}
use lobaro_coap.Endpoint.Equal.{identity, ep_are_equal_iff}
use lobaro_coap.Interaction.{
  Interaction, InteractionRole, role_server, is_server, is_duplicate, find_duplicate,
}

-- A server's interaction that serves the request of a message id from an endpoint at a socket.
pub record Serves (id socket : ℕ) (ep : Endpoint) (x : Interaction) : Type 0 where
  pub by_server : x.role ≡ role_server
  pub at_socket : x.socket_handle ≡ socket
  pub request : Message
  pub request_there : x.req_msg ≡ some request
  pub same_id : request.message_id ≡ id
  pub same_endpoint : identity x.remote_ep ≡ identity ep

-- The first interaction of the list that serves the request.
pub record ServedFirst (id socket : ℕ) (ep : Endpoint) (xs : List Interaction) (x : Interaction)
    : Type 0 where
  pub front : List Interaction
  pub back : List Interaction
  pub in_list : xs ≡ front ++ (x ∷ back)
  pub none_before : All (λ y. ¬ Serves id socket ep y) front
  pub serves : Serves id socket ep x

-- A server's interaction has its request.
abbrev pub HasRequest : Interaction → Type 0
HasRequest x = x.role ≡ role_server → (req : Message) × (x.req_msg ≡ some req)

server_role : (role : InteractionRole) → is_server role ≡ true → role ≡ role_server
server_role role_server h = refl
server_role _ h = absurd (cc h)

not_mine :
    (x : Interaction) (socket : ℕ)
    → (is_server x.role && (x.socket_handle == socket)) ≡ false
    → x.role ≡ role_server
    → ¬ (x.socket_handle ≡ socket)
not_mine x socket other role at_socket = ground (arith, other, role, at_socket)

is_duplicate-Serves :
    (x : Interaction) (id socket : ℕ) (ep : Endpoint)
    → HasRequest x
    → ((is_duplicate x id socket ep ≡ some true) × Serves id socket ep x)
      ⊎ ((is_duplicate x id socket ep ≡ some false) × (¬ Serves id socket ep x))
unfolding is_duplicate
is_duplicate-Serves x id socket ep has =
    elim (Bool-cases (is_server x.role && (x.socket_handle == socket))) [
      | inr other ↦
          inr (rw (other, is_duplicate) refl, λ s. not_mine x socket other s.by_server s.at_socket)
      | inl mine ↦
          let by_server : x.role ≡ role_server = server_role x.role (ground (arith, mine)) in
          let at_socket : x.socket_handle ≡ socket = ground (arith, mine) in
          let (req, there) = has by_server in
          elim (Bool-cases ((req.message_id == id) && ep_are_equal x.remote_ep ep)) [
            | inl twin ↦ inl (
              rw (mine, there, twin, is_duplicate) refl,
              record {
                by_server = by_server;
                at_socket = at_socket;
                request = req;
                request_there = there;
                same_id = ground (arith, twin);
                same_endpoint = (ep_are_equal_iff x.remote_ep ep).0 (ground (arith, twin));
              },
            )
            | inr other ↦ inr (
              rw (mine, there, other, is_duplicate) refl,
              λ s.
                  let same : req ≡ s.request =
                    some-injective req s.request (sym there ∙ s.request_there) in
                  let near = (ep_are_equal_iff x.remote_ep ep).1 s.same_endpoint in
                  let id_same : req.message_id ≡ id =
                    ap (λ (m : Message). m.message_id) same ∙ s.same_id in
                  ground (arith, other, near, id_same),
            )
          ]
    ]

pub find_duplicate-cases :
    (xs : List Interaction) (id socket : ℕ) (ep : Endpoint)
    → All HasRequest xs
    → ((x : Interaction) × (find_duplicate xs id socket ep ≡ some (some x))
        × ServedFirst id socket ep xs x)
      ⊎ ((find_duplicate xs id socket ep ≡ some none) × All (λ y. ¬ Serves id socket ep y) xs)
unfolding find_duplicate
find_duplicate-cases [] id socket ep a = inr (refl, tt)
find_duplicate-cases (x ∷ xs) id socket ep (has, a) =
    elim (is_duplicate-Serves x id socket ep has) [
      | inl (equal, twin) ↦ inl (
        x,
        rw (equal, find_duplicate) refl,
        record { front = []; back = xs; in_list = refl; none_before = tt; serves = twin },
      )
      | inr (differs, other) ↦ elim (find_duplicate-cases xs id socket ep a) [
        | inl (y, found, first) ↦ inl (
          y,
          rw (differs, found, find_duplicate) refl,
          record {
            front = x ∷ first.front;
            back = first.back;
            in_list = ap (λ ys. x ∷ ys) first.in_list;
            none_before = (other, first.none_before);
            serves = first.serves;
          },
        )
        | inr (nobody, fresh) ↦ inr (rw (differs, nobody, find_duplicate) refl, (other, fresh))
      ]
    ]
