-- ===== src/Server/Requests/Answered.antt =====
-- Which messages a socket answers.
use iot_edge_opc_proxy.Base.{
  ℕ, ◌≡◌, inl, inr, refl, sym, ap, ap₂, subst, ==_iff, ◌∙◌, Bool, true, false, Bool-cases, not,
  ◌&&◌, ◌||◌, ◌==◌, [], ◌∷◌, ◌++◌, some, if◌then◌else◌,
}
use iot_edge_opc_proxy.Error.{Error, is_ok}
use iot_edge_opc_proxy.Dlist.{Dlist}
use iot_edge_opc_proxy.Wire.Message.{as_response}
use iot_edge_opc_proxy.Wire.Content.{
  type_close, type_open, type_getopt, type_setopt, type_poll, type_data,
}
use iot_edge_opc_proxy.Server.{
  Socket, Queued, World, Sent, collect, listener, next_answer, send, respond, ask, run_worker,
  shutdown, is_ending,
}
use iot_edge_opc_proxy.Server.Requests.{
  Outside, Handled, as_open, open_result, open_response, with_error, close_answer, set_option,
  option_of, get_option, getopt_answer, asked_option, is_opened, refuse, reply, handle_openrequest,
  handle_datamessage, handle_pollrequest, handle_closerequest, handle_setoptrequest,
  handle_getoptrequest, control_handler,
}

-- To show something of what becomes of a message, one shows it of each handler.
pub control-cases :
    (d : Dlist Queued) (p : Outside) (now : ℕ) (q : Queued) (s : Socket) (w : World)
    (P : Handled → Type 0)
    → ((q.message.type == type_close) ≡ true → P (handle_closerequest now (some listener) q s w))
    → ((q.message.type == type_open) ≡ true → P (handle_openrequest p now (some listener) q s w))
    → ((q.message.type == type_getopt) ≡ true
        → P (handle_getoptrequest p now (some listener) q s w))
    → ((q.message.type == type_setopt) ≡ true
        → P (handle_setoptrequest p now (some listener) q s w))
    → ((q.message.type == type_poll) ≡ true → P (handle_pollrequest d p now (some listener) q s w))
    → ((q.message.type == type_data) ≡ true → P (handle_datamessage d p (some listener) q s w))
    → ((q.message.type == type_close) ≡ false
        → (q.message.type == type_open) ≡ false
        → (q.message.type == type_getopt) ≡ false
        → (q.message.type == type_setopt) ≡ false
        → (q.message.type == type_poll) ≡ false
        → (q.message.type == type_data) ≡ false
        → P (Error.not_supported, s, w))
    → P (control_handler d p now q s w)
unfolding control_handler
control-cases d p now q s w P on_close on_open on_getopt on_setopt on_poll on_data other =
    let t = q.message.type in
    elim (Bool-cases (t == type_close)) [
      | inl h ↦ rw h (on_close h)
      | inr e1 ↦ elim (Bool-cases (t == type_open)) [
        | inl h ↦ rw (e1, h) (on_open h)
        | inr e2 ↦ elim (Bool-cases (t == type_getopt)) [
          | inl h ↦ rw (e1, e2, h) (on_getopt h)
          | inr e3 ↦ elim (Bool-cases (t == type_setopt)) [
            | inl h ↦ rw (e1, e2, e3, h) (on_setopt h)
            | inr e4 ↦ elim (Bool-cases (t == type_poll)) [
              | inl h ↦ rw (e1, e2, e3, e4, h) (on_poll h)
              | inr e5 ↦ elim (Bool-cases (t == type_data)) [
                | inl h ↦ rw (e1, e2, e3, e4, e5, h) (on_data h)
                | inr e6 ↦ rw (e1, e2, e3, e4, e5, e6) (other e1 e2 e3 e4 e5 e6)
              ]
            ]
          ]
        ]
      ]
    ]

-- The messages that are answered at once: a request for the control of the socket, and data or a poll for
-- a socket that is polled but not opened.
abbrev pub is_answered : Socket → ℕ → Bool
is_answered s type =
    if type == type_close || type == type_open || type == type_getopt || type == type_setopt
    then true
    else if type == type_poll || type == type_data
    then not (is_opened s.state) && s.polled
    else false

-- A response to a message: with its correlation id and its type, from where the message went.
pub record IsResponseTo (q q' : Queued) : Type 0 where
  pub same_id : q'.correlation_id ≡ q.correlation_id
  pub is_response_lem : q'.message.is_response ≡ true
  pub same_type : q'.message.type ≡ q.message.type
  pub back : q'.message.source_id ≡ (as_response q.message).source_id

-- What is sent: one response over the listener, or nothing.
abbrev pub Sends : Bool → Queued → World → World → Type 0
Sends false q w w' = w'.sent ≡ w.sent
Sends true q w w' =
    (e : Sent) × (w'.sent ≡ w.sent ++ (e ∷ []))
    × (e.connection ≡ listener)
    × IsResponseTo q e.queued

sends :
    (q q' : Queued) (w w1 : World)
    → w1.sent ≡ w.sent
    → IsResponseTo q q'
    → Sends true q w (send (some listener) q' w1).1
unfolding send
sends q q' w w1 h r =
    let e : Sent = record { connection = listener; queued = q'; result = next_answer w1.answers } in
    (e, ap (λ x. x ++ (e ∷ [])) h, refl, r)

respond-IsResponseTo : (e : Error) (q : Queued) → IsResponseTo q (respond e q)
unfolding respond as_response
respond-IsResponseTo e q = record {
  same_id = refl;
  is_response_lem = refl;
  same_type = refl;
  back = refl;
}

asked_only : (b : Bool) (w : World) → (if b then w else ask run_worker w).sent ≡ w.sent
unfolding ask
asked_only true w = refl
asked_only false w = refl

asked_close :
    (b : Bool) (w : World) → (if b then w else ask run_worker (ask shutdown w)).sent ≡ w.sent
unfolding ask
asked_close true w = refl
asked_close false w = refl

open-Sends :
    (p : Outside) (now : ℕ) (q : Queued) (s : Socket) (w : World)
    → Sends true q w (handle_openrequest p now (some listener) q s w).2
unfolding handle_openrequest open_response as_response
open-Sends p now q s w =
    let r = open_result p now (as_open q.message.content) s in
    sends q (open_response r.0 (if is_ok r.0 then r.1 else record r.1 { state = collect }) q) w _
      (asked_only (is_ok r.0) w)
      (record { same_id = refl; is_response_lem = refl; same_type = refl; back = refl })

close-Sends :
    (now : ℕ) (q : Queued) (s : Socket) (w : World)
    → Sends true q w (handle_closerequest now (some listener) q s w).2
unfolding handle_closerequest reply as_response
close-Sends now q s w =
    let answer = close_answer now s (if is_ending s.state then Error.closed else Error.ok) in
    sends q
      (record q {
        message = with_error Error.ok (record (as_response q.message) { content = answer });
      })
      w _ (asked_close (is_ending s.state) w)
      (record { same_id = refl; is_response_lem = refl; same_type = refl; back = refl })

setopt-Sends :
    (p : Outside) (now : ℕ) (q : Queued) (s : Socket) (w : World)
    → Sends true q w (handle_setoptrequest p now (some listener) q s w).2
unfolding handle_setoptrequest reply
setopt-Sends p now q s w =
    let r = set_option p now (option_of q.message.content) s in
    sends q (respond r.0 q) w w refl (respond-IsResponseTo r.0 q)

getopt-Sends :
    (p : Outside) (now : ℕ) (q : Queued) (s : Socket) (w : World)
    → Sends true q w (handle_getoptrequest p now (some listener) q s w).2
unfolding handle_getoptrequest getopt_answer as_response
getopt-Sends p now q s w =
    let r = get_option p (asked_option q.message.content) s in
    sends q (getopt_answer r.0 r.1 r.2 q) w w refl
      (record { same_id = refl; is_response_lem = refl; same_type = refl; back = refl })

refuse-Sends :
    (q : Queued) (s : Socket) (w : World) → Sends s.polled q w (refuse (some listener) q s w).2
unfolding refuse
refuse-Sends q s w = elim (Bool-cases s.polled) [
  | inl h ↦ rw h (sends q (respond Error.closed q) w w refl (respond-IsResponseTo Error.closed q))
  | inr h ↦ rw h refl
]

data-Sends :
    (d : Dlist Queued) (p : Outside) (q : Queued) (s : Socket) (w : World)
    → Sends
        (not (is_opened s.state) && s.polled)
        q
        w
        (handle_datamessage d p (some listener) q s w).2
unfolding handle_datamessage ask
data-Sends d p q s w = elim (Bool-cases (is_opened s.state)) [
  | inl h ↦ rw h (elim (Bool-cases (is_ok p.clone)) [ inl k ↦ rw k refl | inr k ↦ rw k refl ])
  | inr h ↦ rw h (refuse-Sends q s w)
]

poll-Sends :
    (d : Dlist Queued) (p : Outside) (now : ℕ) (q : Queued) (s : Socket) (w : World)
    → is_opened s.state ≡ false
    → Sends s.polled q w (handle_pollrequest d p now (some listener) q s w).2
unfolding handle_pollrequest
poll-Sends d p now q s w h = rw h (refuse-Sends q s w)

-- A message that a socket takes from the listener, unless it is a poll and the socket is opened, is
-- answered by one response over the listener, whether or not what it asks for succeeds: a request for
-- the control of the socket always, and data or a poll if the socket is polled and not opened. Otherwise
-- nothing is sent. What was sent before stays.
pub control_handler-answers :
    (d : Dlist Queued) (p : Outside) (now : ℕ) (q : Queued) (s : Socket) (w : World)
    → (is_opened s.state && (q.message.type == type_poll)) ≡ false
    → Sends (is_answered s q.message.type) q w (control_handler d p now q s w).2
control_handler-answers d p now q s w no_poll =
    let t = q.message.type in
    let at : (n : ℕ) (b : Bool) (out : Handled)
        → is_answered s n ≡ b
        → Sends b q w out.2
        → (t == n) ≡ true
        → Sends (is_answered s t) q w out.2 =
      λ n b out e x h.
        subst (λ y. Sends y q w out.2) (sym (ap (is_answered s) ((==_iff t n).0 h) ∙ e)) x in
    control-cases d p now q s w (λ out. Sends (is_answered s t) q w out.2)
      (at type_close true (handle_closerequest now (some listener) q s w) refl
        (close-Sends now q s w))
      (at type_open true (handle_openrequest p now (some listener) q s w) refl
        (open-Sends p now q s w))
      (at type_getopt true (handle_getoptrequest p now (some listener) q s w) refl
        (getopt-Sends p now q s w))
      (at type_setopt true (handle_setoptrequest p now (some listener) q s w) refl
        (setopt-Sends p now q s w))
      (λ h. elim (Bool-cases (is_opened s.state)) [
        | inl o ↦ absurd (let k : true ≡ false = sym (ap₂ ◌&&◌ o h) ∙ no_poll in cc)
        | inr o ↦
            at type_poll s.polled (handle_pollrequest d p now (some listener) q s w)
              (ap (λ b. not b && s.polled) o) (poll-Sends d p now q s w o) h
      ])
      (at type_data _ (handle_datamessage d p (some listener) q s w) refl (data-Sends d p q s w))
      (λ e1 e2 e3 e4 e5 e6. rw (e1, e2, e3, e4, e5, e6) refl)
