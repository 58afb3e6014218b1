-- ===== src/Send/Sockets.antt =====
-- The socket table.
use lobaro_coap.Common.{
  ℕ, ◌+◌, ◌≤◌, ◌≡◌, ◌≢◌, ◌↔◌, true, false, List, [], ◌∷◌, none, some, length, arith, inl, inr,
  Option-cases,
}
use lobaro_coap.Send.{Socket, alloc_socket, retrieve_socket}

-- The places of the table that are taken.
abbrev pub count_alive : List Socket → ℕ
count_alive [] = 0
count_alive (s ∷ ss) = (elim s.alive [ true ↦ 1 | false ↦ 0 ]) + count_alive ss

-- A socket that was allocated takes one more place, is found by its handle where no socket had
-- the handle before, and leaves what is found by any other handle as it was.
pub alloc_socket-retrieve_socket :
    (handle other : ℕ) (table table' : List Socket)
    → alloc_socket handle table ≡ some table'
    → retrieve_socket table handle ≡ none
    → other ≢ handle
    → (count_alive table' ≡ count_alive table + 1)
      × ((retrieve_socket table' handle
            ≡ some (record { handle = handle; has_tx = false; alive = true }))
          × (retrieve_socket table' other ≡ retrieve_socket table other))
unfolding alloc_socket retrieve_socket
alloc_socket-retrieve_socket handle other [] table' e h o = absurd (cc e)
alloc_socket-retrieve_socket handle other (s ∷ ss) table' e h o =
    elim (Option-cases (alloc_socket handle ss)) [
      | inl full ↦ ground (arith, full)
      | inr (ss', free) ↦
          ground (arith, free, alloc_socket-retrieve_socket handle other ss ss' free)
    ]

count_alive_bound : (table : List Socket) → count_alive table ≤ length table
count_alive_bound [] = ground arith
count_alive_bound (s ∷ ss) = ground (arith, count_alive_bound ss)

-- Allocation fails exactly where every place of the table is taken.
pub alloc_socket_full :
    (handle : ℕ) (table : List Socket)
    → (alloc_socket handle table ≡ none) ↔ (count_alive table ≡ length table)
unfolding alloc_socket
alloc_socket_full handle [] = ground arith
alloc_socket_full handle (s ∷ ss) = elim (Option-cases (alloc_socket handle ss)) [
  | inl full ↦ ground (arith, full, alloc_socket_full handle ss, count_alive_bound ss)
  | inr (ss', free) ↦ ground (arith, free, alloc_socket_full handle ss, count_alive_bound ss)
]
