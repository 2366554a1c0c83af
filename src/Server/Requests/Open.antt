-- ===== src/Server/Requests/Open.antt =====
-- When a socket opens, and which state a message leaves it in.
use iot_edge_opc_proxy.Base.{
  ℕ, ◌≡◌, inl, inr, refl, sym, ap, subst, ◌∙◌, ==_iff, Bool, true, false, Bool-cases, ◌&&◌, ◌||◌,
  ◌==◌, [], ◌∷◌, ◌++◌, Option, none, some, if◌then◌else◌,
}
use iot_edge_opc_proxy.Base.Int.{pos, eqb_ℤ}
use iot_edge_opc_proxy.Error.{Error, is_ok, code}
use iot_edge_opc_proxy.Wire.Message.{as_response}
use iot_edge_opc_proxy.Dlist.{Dlist}
use iot_edge_opc_proxy.Wire.Payload.{OpenRequest}
use iot_edge_opc_proxy.Wire.Content.{
  type_close, type_open, type_getopt, type_setopt, type_poll, type_data,
}
use iot_edge_opc_proxy.Server.{
  State, created, opened, collect, closing, closed, Socket, Queued, World, Sent, Connection,
  listener, own_stream, is_ending, next_answer, send, ask, run_worker,
}
use iot_edge_opc_proxy.Server.Deliver.Kept.{deliver_results-IsKept}
use iot_edge_opc_proxy.Server.Requests.{
  Outside, as_open, is_text, is_opened, is_timeout, is_group, is_known, option_of, try_open,
  open_result, open_response, set_option, take_poll, refuse, handle_openrequest, handle_datamessage,
  handle_pollrequest, handle_closerequest, handle_setoptrequest, handle_getoptrequest,
  control_handler,
}
use iot_edge_opc_proxy.Server.Requests.Answered.{control-cases}

-- An open request can be met: either it has a connection string, and a connection of the socket's own can
-- be made, which needs websockets if it is not polled; or it has none, and the socket is polled.
abbrev pub can_open : Outside → OpenRequest → Bool
can_open p o =
    is_ok p.factory
    && (if is_text o.connection_string
        then eqb_ℤ o.type (pos 0)
          && is_ok p.connection_string
          && is_ok p.entry
          && (o.polled || p.has_wsclient)
          && is_ok p.transport
        else o.polled)
    && is_ok p.receiving

-- What an open request comes to.
abbrev pub Opens : Bool → ℕ → OpenRequest → Error × Socket → Type 0
Opens true now o (r, s) =
    (is_ok r ≡ true)
    × (s.state ≡ opened)
    × (s.stream ≡ some (if is_text o.connection_string then own_stream else listener))
    × (s.polled ≡ o.polled)
    × (s.last_activity ≡ now)
Opens false now o (r, s) = is_ok r ≡ false

pub try_open-Opens :
    (p : Outside) (now : ℕ) (o : OpenRequest) (s : Socket)
    → Opens (can_open p o) now o (try_open p now o s)
unfolding try_open is_ok
try_open-Opens p now o s = elim (Bool-cases (is_ok p.factory)) [
  | inr h ↦ rw h h
  | inl f ↦ elim (Bool-cases (is_text o.connection_string)) [
    | inr t ↦ elim (Bool-cases o.polled) [
      | inr h ↦ rw (f, t, h) refl
      | inl y ↦ elim (Bool-cases (is_ok p.receiving)) [
        | inr h ↦ rw (f, t, y, h) h
        | inl h ↦ rw (f, t, y, h) (refl, refl, rw t refl, refl, refl)
      ]
    ]
    | inl t ↦ elim (Bool-cases (eqb_ℤ o.type (pos 0))) [
      | inr h ↦ rw (f, t, h) refl
      | inl e ↦ elim (Bool-cases (is_ok p.connection_string)) [
        | inr h ↦ rw (f, t, e, h) (rw h h)
        | inl g ↦ elim (Bool-cases (is_ok p.entry)) [
          | inr h ↦ rw (f, t, e, g, h) (rw h h)
          | inl k ↦ elim (Bool-cases (o.polled || p.has_wsclient)) [
            | inr h ↦ rw (f, t, e, g, k, h) refl
            | inl y ↦ elim (Bool-cases (is_ok p.transport)) [
              | inr h ↦ rw (f, t, e, g, k, y, h) (rw h refl)
              | inl z ↦ elim (Bool-cases (is_ok p.receiving)) [
                | inr h ↦ rw (f, t, e, g, k, y, z, h) h
                | inl h ↦ rw (f, t, e, g, k, y, z, h) (refl, refl, rw t refl, refl, refl)
              ]
            ]
          ]
        ]
      ]
    ]
  ]
]

-- What an open request leaves of a socket in a state.
abbrev pub opened_from : Bool → State → State
opened_from can created = if can then opened else collect
opened_from can x = collect

-- The state that a message of a type leaves.
abbrev pub state_after : Bool → State → ℕ → State
state_after can state type =
    if type == type_close
    then if is_ending state then state else collect
    else if type == type_open
    then opened_from can state
    else state

abbrev pub next_state : Outside → Queued → Socket → State
next_state p q s = state_after (can_open p (as_open q.message.content)) s.state q.message.type

from_state :
    (st : State) (p : Outside) (now : ℕ) (c : Option Connection) (q : Queued) (s : Socket)
    (w : World)
    → (handle_openrequest p now c q (record s { state = st }) w).1.state
      ≡ opened_from (can_open p (as_open q.message.content)) st
unfolding handle_openrequest open_result is_ok
from_state created p now c q s w =
    let o = as_open q.message.content in
    let s0 : Socket = record s { state = created } in
    let x = try_open-Opens p now o s0 in
    elim (Bool-cases (can_open p o)) [
      | inl h ↦ let y = subst (λ b. Opens b now o (try_open p now o s0)) h x in rw (h, y.0) y.1
      | inr h ↦ let y = subst (λ b. Opens b now o (try_open p now o s0)) h x in rw (h, y) refl
    ]
from_state opened p now c q s w = refl
from_state collect p now c q s w = refl
from_state closing p now c q s w = refl
from_state closed p now c q s w = refl

-- What the state diagram is about.
abbrev pub core : Socket → State × Option Connection
core s = (s.state, s.stream)

pub close-core :
    (st : State) (now : ℕ) (c : Option Connection) (q : Queued) (s : Socket) (w : World)
    → core (handle_closerequest now c q (record s { state = st }) w).1
      ≡ (if is_ending st then st else collect, s.stream)
unfolding handle_closerequest
close-core created now c q s w = refl
close-core opened now c q s w = refl
close-core collect now c q s w = refl
close-core closing now c q s w = refl
close-core closed now c q s w = refl

pub setopt-core :
    (p : Outside) (now : ℕ) (c : Option Connection) (q : Queued) (s : Socket) (w : World)
    → core (handle_setoptrequest p now c q s w).1 ≡ core s
unfolding handle_setoptrequest set_option
setopt-core p now c q s w =
    let o = option_of q.message.content in
    elim (Bool-cases (is_ending s.state)) [
      | inl h ↦ rw h refl
      | inr h ↦ elim (Bool-cases (is_group o.type)) [
        | inl g ↦ rw (h, g) refl
        | inr g ↦ elim (Bool-cases (is_timeout o.type)) [
          | inl t ↦ rw (h, g, t) refl
          | inr t ↦ elim (Bool-cases (is_known o.type)) [
            | inl k ↦ rw (h, g, t, k) refl
            | inr k ↦ rw (h, g, t, k) refl
          ]
        ]
      ]
    ]

pub getopt-core :
    (p : Outside) (now : ℕ) (c : Option Connection) (q : Queued) (s : Socket) (w : World)
    → core (handle_getoptrequest p now c q s w).1 ≡ core s
unfolding handle_getoptrequest
getopt-core p now none q s w = refl
getopt-core p now (some c) q s w = elim (Bool-cases (is_ending s.state)) [
  | inl h ↦ rw h refl
  | inr h ↦ rw h refl
]

refuse-same : (c : Option Connection) (q : Queued) (s : Socket) (w : World) → (refuse c q s w).1 ≡ s
unfolding refuse
refuse-same c q s w = elim (Bool-cases s.polled) [ inl h ↦ rw h refl | inr h ↦ rw h refl ]

pub data-core :
    (d : Dlist Queued) (p : Outside) (c : Option Connection) (q : Queued) (s : Socket) (w : World)
    → core (handle_datamessage d p c q s w).1 ≡ core s
unfolding handle_datamessage
data-core d p c q s w = elim (Bool-cases (is_opened s.state)) [
  | inr h ↦ rw h (ap core (refuse-same c q s w))
  | inl h ↦ elim (Bool-cases (is_ok p.clone)) [ inl k ↦ rw (h, k) refl | inr k ↦ rw (h, k) refl ]
]

pub poll-core :
    (d : Dlist Queued) (p : Outside) (now : ℕ) (c : Option Connection) (q : Queued) (s : Socket)
    (w : World)
    → core (handle_pollrequest d p now c q s w).1 ≡ core s
unfolding handle_pollrequest take_poll
poll-core d p now c q s w = elim (Bool-cases (is_opened s.state)) [
  | inr h ↦ rw h (ap core (refuse-same c q s w))
  | inl h ↦ elim (Bool-cases (is_ok p.clone)) [
    | inl k ↦ rw (h, k) (ap core (deliver_results-IsKept d (take_poll d now q s) w))
    | inr k ↦ rw (h, k) refl
  ]
]

-- The state of a socket after any message from the listener is the one that the state diagram says: a close
-- request makes a socket whose end has not begun one to collect. An open request opens a socket that was
-- created if it can be met, and makes any other one to collect, also one that is closing or closed.
-- No other message changes the state.
pub control_handler-state :
    (d : Dlist Queued) (p : Outside) (now : ℕ) (q : Queued) (s : Socket) (w : World)
    → (control_handler d p now q s w).1.state ≡ next_state p q s
control_handler-state d p now q s w =
    let t = q.message.type in
    let can = can_open p (as_open q.message.content) in
    let at : (n : ℕ) (st : State)
        → st ≡ state_after can s.state n
        → (t == n) ≡ true
        → st ≡ next_state p q s =
      λ n st e h. e ∙ sym (ap (state_after can s.state) ((==_iff t n).0 h)) in
    control-cases d p now q s w (λ out. out.1.state ≡ next_state p q s)
      (at type_close _ (ap (λ x. x.0) (close-core s.state now (some listener) q s w)))
      (at type_open _ (from_state s.state p now (some listener) q s w))
      (at type_getopt _ (ap (λ x. x.0) (getopt-core p now (some listener) q s w)))
      (at type_setopt _ (ap (λ x. x.0) (setopt-core p now (some listener) q s w)))
      (at type_poll _ (ap (λ x. x.0) (poll-core d p now (some listener) q s w)))
      (at type_data _ (ap (λ x. x.0) (data-core d p (some listener) q s w)))
      (λ e1 e2 e3 e4 e5 e6. rw (e1, e2) refl)

tried :
    (st : State) (p : Outside) (now : ℕ) (o : OpenRequest) (s : Socket)
    → st ≡ created
    → open_result p now o (record s { state = st }) ≡ try_open p now o (record s { state = st })
unfolding open_result
tried created p now o s e = refl
tried opened p now o s e = absurd cc
tried collect p now o s e = absurd cc
tried closing p now o s e = absurd cc
tried closed p now o s e = absurd cc

-- A socket that opened, and the response that says so, sent over a connection with whatever result.
abbrev pub TellsOpened :
    ℕ → OpenRequest → Connection → Queued → World → Error × Socket × World → Type 0
TellsOpened now o c q w (result, s', w') =
    (e : Sent) × (w'.sent ≡ w.sent ++ (e ∷ []))
    × (e.connection ≡ c)
    × (e.result ≡ result)
    × (e.queued.correlation_id ≡ q.correlation_id)
    × (e.queued.message.is_response ≡ true)
    × (e.queued.message.type ≡ q.message.type)
    × (e.queued.message.error_code ≡ code Error.ok)
    × (s'.state ≡ opened)
    × (s'.stream ≡ some (if is_text o.connection_string then own_stream else listener))
    × (s'.polled ≡ o.polled)
    × (s'.last_activity ≡ now)

finish :
    (r : Error) (now : ℕ) (o : OpenRequest) (s : Socket) (c : Connection) (q : Queued) (w : World)
    → is_ok r ≡ true
    → Opens true now o (r, s)
    → let s2 = if is_ok r then s else record s { state = collect } in
      let w1 = if is_ok r then w else ask run_worker w in
      let (sent, w2) = send (some c) (open_response r s2 q) w1 in
      TellsOpened now o c q w (sent, s2, w2)
unfolding is_ok send open_response as_response
finish Error.ok now o s c q w k y = (
  record { connection = c; queued = open_response Error.ok s q; result = next_answer w.answers },
  refl,
  refl,
  refl,
  refl,
  refl,
  refl,
  refl,
  y.1,
  y.2,
  y.3,
  y.4,
)
finish r now o s c q w k y = absurd cc

-- An open request that can be met, to a socket that was created, opens it: its stream is the listener or
-- a connection of its own as the request has a connection string, it is polled as the request says, and
-- it counts as active from then on. One response is sent over the connection of the responder, which
-- carries the request's correlation id and type and says er_ok; and what the request returns is the result
-- of sending it, which may be an error although the socket is open.
pub handle_openrequest-opens :
    (p : Outside) (now : ℕ) (c : Connection) (q : Queued) (s : Socket) (w : World)
    → s.state ≡ created
    → can_open p (as_open q.message.content) ≡ true
    → TellsOpened now (as_open q.message.content) c q w (handle_openrequest p now (some c) q s w)
unfolding handle_openrequest open_result
handle_openrequest-opens p now c q s w e h =
    let o = as_open q.message.content in
    let y = subst (λ b. Opens b now o (try_open p now o s)) h (try_open-Opens p now o s) in
    let z = subst (λ x. Opens true now o x) (sym (tried s.state p now o s e)) y in
    let out = open_result p now o s in finish out.0 now o out.1 c q w z.0 z
