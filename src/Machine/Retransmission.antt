-- ===== src/Machine/Retransmission.antt =====
-- A confirmable request that nobody answers: CoAP_doWork sends it again at each timeout, at most
-- three times, and then calls the client back.
use lobaro_coap.Common.{
  ℕ, zero, suc, ◌+◌, ◌*◌, ◌%◌, ◌^◌, ◌==◌, ltb, ◌≤◌, ◌<◌, ◌≡◌, ◌⊎◌, ◌∙◌, refl, sym, ap, true, false,
  [], ◌∷◌, Option, none, some, arith, inl, inr, Bool-cases,
}
use mathlib.Core.Path.{subst}
use lobaro_coap.Platform.{malloc, free}
use lobaro_coap.Time.{u32, time_after}
use lobaro_coap.OptionWire.{is_ok}
use lobaro_coap.Endpoint.{Endpoint}
use lobaro_coap.Message.{con, Message, build_datagram}
use lobaro_coap.Send.{System, World, send_msg, hand_over, alloc_buffer, free_buffer}
use lobaro_coap.Interaction.{
  Interaction, role_client, waiting_response, unconfirmed, unlink_interaction_from_list,
}
use lobaro_coap.Machine.{
  Coap, Callback, backoff, enable_ack_timeout, store_interaction, delete_interaction,
  free_interaction, next_attempt, check_req_status, request_status,
}
use lobaro_coap.Machine.Client.{
  call_back, retry_request, on_request_status, handle_client_interaction,
}
use lobaro_coap.Machine.Work.{handle_interaction, do_work}

-- A client's interaction that waits for a response to the request `msg`, with `k` retransmissions
-- so far, the timeout `t` and the callback `f`.
abbrev pub asking : Interaction → Message → ℕ → ℕ → ℕ → Interaction
asking x msg f k t = record x {
  role = role_client;
  state = waiting_response;
  retrans_counter = k;
  ack_timeout = t;
  sleep_until = 0;
  req_msg = some msg;
  req_confirm_state = unconfirmed;
  resp_cb = some f;
}

-- An interaction that is alone in the list.
abbrev pub only : Coap → Interaction → Coap
only c x = record c { interactions = x ∷ [] }

-- CoAP_doWork at the timeout of the first interaction, if there is one.
abbrev pub expire : System → Coap → Option Coap
expire sys c = elim c.interactions [
  | [] ↦ some c
  | x ∷ xs ↦ do_work sys (record c { world = record c.world { now = x.ack_timeout } })
]

-- The same for a number of timeouts, one after the other.
unfoldable pub expirations : System → ℕ → Coap → Option Coap
expirations sys zero c = some c
expirations sys (suc n) c = elim (expire sys c) [ none ↦ none | some c' ↦ expirations sys n c' ]

-- The interaction is gone, and its client was told that there is no response.
pub record GaveUp (f : ℕ) (c c' : Coap) : Type 0 where
  pub call : Callback
  pub gone : c'.interactions ≡ []
  pub called : c'.callbacks ≡ call ∷ c.callbacks
  pub to_client : call.callback ≡ f
  pub without_response : call.resp ≡ none

-- The request was sent once more, and the timeout is twice as long.
pub record SentAgain (x : Interaction) (f k t : ℕ) (c c' : Coap) : Type 0 where
  pub msg : Message
  pub rest : Coap
  pub confirmable : msg.type ≡ con
  pub left : c' ≡ only rest (asking x msg f (k + 1) (u32 (t + backoff (k + 1) 8)))
  pub not_called : rest.callbacks ≡ c.callbacks

send_msg-type :
    (sys : System) (msg : Message) (socket : ℕ) (ep : Endpoint) (w : World)
    → ((send_msg sys msg socket ep w).1.type ≡ msg.type)
      × ((send_msg sys msg socket ep w).2.now ≡ w.now)
unfolding send_msg hand_over alloc_buffer free_buffer malloc free build_datagram
send_msg-type sys msg socket ep w = ground arith

-- An interaction that is alone is deleted.
delete_alone :
    (c : Coap) (y z : Interaction)
    → y.address ≡ z.address
    → delete_interaction (only c y) z ≡ record c {
      interactions = [];
      world = record c.world { mem = free_interaction z c.world.mem };
    }
unfolding delete_interaction
delete_alone c y z same =
    let here : unlink_interaction_from_list (y ∷ []) z.address ≡ ([], some y) =
      unfold unlink_interaction_from_list in ground (arith, same) in
    rw (ap (λ p. p.1) here, delete_interaction, ap (λ p. p.0) here) refl

module _ (sys : System) (c : Coap) (x : Interaction) (msg : Message) (f k t : ℕ) where
  -- CoAP_doWork at the timeout handles the next attempt.
  do_work_at_timeout :
      msg.type ≡ con
      → 0 < t
      → t < 2 ^ 31
      → expire sys (only c (asking x msg f k t))
        ≡ on_request_status sys
            (only (record c { world = record c.world { now = t } }) (asking x msg f k t))
            (asking x msg f k t)
            (next_attempt (asking x msg f k t))
  unfolding do_work handle_interaction handle_client_interaction check_req_status request_status
      time_after
  do_work_at_timeout confirmable running early =
      let awake : time_after 0 t ≡ false = unfold time_after in ground (arith, running, early) in
      let over : time_after t t ≡ true = unfold time_after in ground (arith, running, early) in
      rw (awake, confirmable, over, request_status) refl

  -- The call that tells the client that there is no response.
  abbrev no_answer : Interaction → Callback
  no_answer y = record { callback = f; resp = none; req = y.req_msg; sender = y.remote_ep }

  -- The state after the client was told and the interaction deleted.
  told : Interaction → World → Coap
  told y w = record c {
    interactions = [];
    world = record w { mem = free_interaction y w.mem };
    callbacks = no_answer y ∷ c.callbacks;
  }

  told-GaveUp : (y : Interaction) (w : World) → GaveUp f c (told y w)
  unfolding told
  told-GaveUp y w = record {
    call = no_answer y;
    gone = refl;
    called = refl;
    to_client = refl;
    without_response = refl;
  }

  -- One timeout: where the request was sent again three times, or cannot be sent, the client is
  -- told; else it is sent once more.
  expire-asking :
      msg.type ≡ con
      → 0 < t
      → t < 2 ^ 31
      → k ≤ 3
      → (c' : Coap) × (expire sys (only c (asking x msg f k t)) ≡ some c')
        × (GaveUp f c c' ⊎ ((k < 3) × SentAgain x f k t c c'))
  unfolding told on_request_status retry_request call_back store_interaction enable_ack_timeout
  expire-asking confirmable running early few =
      let c0 : Coap = record c { world = record c.world { now = t } } in
      let (r, msg', w) = send_msg sys msg x.socket_handle x.remote_ep c0.world in
      let self : (x.address == x.address) ≡ true = ground arith in
      let kept = send_msg-type sys msg x.socket_handle x.remote_ep c0.world in
      let now = asking x msg f k t in
      let unsent : Interaction = record now { req_msg = some msg' } in
      let again : Interaction = record now {
        req_msg = some msg';
        retrans_counter = (k + 1) % 256;
        ack_timeout = u32 (w.now + backoff ((k + 1) % 256) 8);
      } in
      elim (Bool-cases (ltb 3 (k + 1))) [
        | inl last ↦ (
          told now c0.world,
          do_work_at_timeout confirmable running early
              ∙ rw (last, on_request_status)
                  (ap some (
                    delete_alone (record c0 { callbacks = no_answer now ∷ c.callbacks }) now now
                      refl)),
          inl (told-GaveUp now c0.world),
        )
        | inr more ↦ elim (Bool-cases (is_ok r)) [
          | inl sent ↦ (
            only (record c0 { world = w }) again,
            do_work_at_timeout confirmable running early
                ∙ rw (more, on_request_status, sent, retry_request, self, store_interaction) refl,
            inr (
              ground (arith, more),
              record {
                msg = msg';
                rest = record c0 { world = w };
                confirmable = kept.0 ∙ confirmable;
                left =
                    (let small : (k + 1) % 256 ≡ k + 1 = omega (arith, few) in
                      rw (small, kept.1) refl);
                not_called = refl;
              },
            ),
          )
          | inr failed ↦ (
            told unsent w,
            do_work_at_timeout confirmable running early
                ∙ rw (more, on_request_status, failed, retry_request)
                    (ap some (
                      delete_alone
                        (record c0 { world = w; callbacks = no_answer unsent ∷ c.callbacks }) now
                        unsent refl)),
            inl (told-GaveUp unsent w),
          )
        ]
      ]

backoff_bounds : (k : ℕ) → k < 3 → (0 < backoff (k + 1) 8) × (backoff (k + 1) 8 ≤ 64)
unfolding backoff
backoff_bounds zero h = ground arith
backoff_bounds (suc zero) h = ground arith
backoff_bounds (suc (suc zero)) h = ground arith
backoff_bounds (suc (suc (suc k))) h = omega (arith, h)

expirations_idle :
    (n : ℕ) (sys : System) (c : Coap)
    → expirations sys n (record c { interactions = [] }) ≡ some (record c { interactions = [] })
unfolding expirations
expirations_idle zero sys c = refl
expirations_idle (suc n) sys c = expirations_idle n sys c

expirations-empty :
    (n : ℕ) (sys : System) (c : Coap) → c.interactions ≡ [] → expirations sys n c ≡ some c
expirations-empty n sys c e =
    let same : record c { interactions = [] } ≡ c =
      ap (λ xs. record c { interactions = xs }) (sym e) in
    subst (λ d. expirations sys n d ≡ some d) same (expirations_idle n sys c)

-- A client's interaction that is alone and waits for the answer to a confirmable request, which was
-- sent again `k` times, comes to its end within 4 - k timeouts if no answer arrives: it is deleted,
-- and its callback is called exactly once, with NULL for the response, whether the transmissions
-- succeed or not. The clock stays below 2^31.
pub expirations-GaveUp :
    (n : ℕ) (sys : System) (c : Coap) (x : Interaction) (msg : Message) (f k t : ℕ)
    → msg.type ≡ con
    → k ≤ 3
    → k + n ≡ 4
    → 0 < t
    → t + 64 * n < 2 ^ 31
    → (c' : Coap) × (expirations sys n (only c (asking x msg f k t)) ≡ some c') × GaveUp f c c'
unfolding expirations
expirations-GaveUp zero sys c x msg f k t confirmable few sum running early =
    absurd (omega (arith, few, sum))
expirations-GaveUp (suc n) sys c x msg f k t confirmable few sum running early =
    let (c', first, outcome) =
      expire-asking sys c x msg f k t confirmable running (omega (arith, early)) few in
    elim outcome [
      | inl over ↦ (c', rw (first, expirations) (expirations-empty n sys c' over.gone), over)
      | inr (more, again) ↦
          let t' = u32 (t + backoff (k + 1) 8) in
          let bounds = backoff_bounds k more in
          let later : (0 < t') × (t' + 64 * n < 2 ^ 31) = ground (arith, bounds, early, running) in
          let (last, rest, over) =
            expirations-GaveUp n sys again.rest x again.msg f (k + 1) t' again.confirmable
              (omega (arith, more)) (omega (arith, sum)) later.0 later.1 in
          (
            last,
            rw (first, again.left, expirations) rest,
            record {
              call = over.call;
              gone = over.gone;
              called = over.called ∙ ap (λ l. over.call ∷ l) again.not_called;
              to_client = over.to_client;
              without_response = over.without_response;
            },
          )
    ]
