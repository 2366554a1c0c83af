-- ===== src/Server/Worker/Diagram.antt =====
-- The state diagram of a socket of the server, and that each of its operations follows it.
use iot_edge_opc_proxy.Base.{
  ℕ, ◌≡◌, inl, inr, refl, sym, ap, subst, Bool, true, Bool-cases, not, ◌&&◌, ◌||◌, ◌==◌, List, [],
  ◌∷◌, Option, none, some, if◌then◌else◌,
}
use iot_edge_opc_proxy.Error.{Error, is_ok}
use iot_edge_opc_proxy.Dlist.{Dlist}
use iot_edge_opc_proxy.Wire.Address.{Address}
use iot_edge_opc_proxy.Server.{
  State, created, opened, collect, closing, closed, Socket, Queued, World, Connection, listener,
  is_ending,
}
use iot_edge_opc_proxy.Server.Requests.{
  Outside, as_open, try_open, open_result, handle_openrequest, handle_closerequest, control_handler,
  stream_handler,
}
use iot_edge_opc_proxy.Server.Requests.Answered.{control-cases}
use iot_edge_opc_proxy.Server.Requests.Open.{
  Opens, can_open, try_open-Opens, core, close-core, setopt-core, getopt-core, data-core, poll-core,
}
use iot_edge_opc_proxy.Wire.Content.{type_close, type_poll, type_data}
use iot_edge_opc_proxy.Server.Transfer.{is_aborted, is_retry, end_receive, begin_send, end_send}
use iot_edge_opc_proxy.Server.Deliver.{is_nil}
use iot_edge_opc_proxy.Server.Deliver.Kept.{deliver_results-IsKept, manage_read_queue-kept}
use iot_edge_opc_proxy.Server.Worker.{
  Opened, open_error, set_sizes, open_complete, close_request, start_close, say_close,
  visit_collect, visit_created, visit_opened, visit, is_timedout, remove,
}

-- The state diagram, with the stream of the socket: it opens, with a stream, when it was created; it is
-- as created again when it has told its peer that it closes; and its end begins, or goes on.
pub data Next : State × Option Connection → State × Option Connection → Type 0 where
  stays : {x : State × Option Connection} → Next x x
  opens : {c : Option Connection} (c' : Connection) → Next (created, c) (opened, some c')
  tells : {c : Option Connection} → Next (opened, c) (created, c)
  ends : {x y : State × Option Connection} → is_ending y.0 ≡ true → Next x y

abbrev pub NextIn : State × Option Connection → Option Socket → Type 0
NextIn x none = Unit
NextIn x (some s) = Next x (core s)

pub same : (x y : State × Option Connection) → y ≡ x → Next x y
same x y e = subst (λ z. Next x z) (sym e) stays

close_next :
    (st : State) (c : Option Connection) → Next (st, c) (if is_ending st then st else collect, c)
close_next created c = ends refl
close_next opened c = ends refl
close_next collect c = ends refl
close_next closing c = ends refl
close_next closed c = ends refl

-- The requests.
close-Next :
    (now : ℕ) (c : Option Connection) (q : Queued) (s : Socket) (w : World)
    → Next (core s) (core (handle_closerequest now c q s w).1)
close-Next now c q s w =
    subst (λ z. Next (core s) z) (sym (close-core s.state now c q s w))
      (close_next s.state s.stream)

open_at :
    (st : State) (p : Outside) (now : ℕ) (c : Option Connection) (q : Queued) (s : Socket)
    (w : World)
    → Next (st, s.stream) (core (handle_openrequest p now c q (record s { state = st }) w).1)
unfolding handle_openrequest open_result is_ok
open_at created p now c q s w =
    let o = as_open q.message.content in
    let s0 : Socket = record s { state = created } in
    let x = try_open-Opens p now o s0 in
    elim (Bool-cases (can_open p o)) [
      | inl h ↦
          let y = subst (λ b. Opens b now o (try_open p now o s0)) h x in
          rw (y.0, y.1, y.2) (opens _)
      | inr h ↦ let y = subst (λ b. Opens b now o (try_open p now o s0)) h x in rw y (ends refl)
    ]
open_at opened p now c q s w = ends refl
open_at collect p now c q s w = ends refl
open_at closing p now c q s w = ends refl
open_at closed p now c q s w = ends refl

pub listener-Next :
    (d : Dlist Queued) (p : Outside) (now : ℕ) (q : Queued) (s : Socket) (w : World)
    → Next (core s) (core (control_handler d p now q s w).1)
listener-Next d p now q s w =
    control-cases d p now q s w (λ out. Next (core s) (core out.1))
      (λ h. close-Next now (some listener) q s w) (λ h. open_at s.state p now (some listener) q s w)
      (λ h. same _ _ (getopt-core p now (some listener) q s w))
      (λ h. same _ _ (setopt-core p now (some listener) q s w))
      (λ h. same _ _ (poll-core d p now (some listener) q s w))
      (λ h. same _ _ (data-core d p (some listener) q s w)) (λ e1 e2 e3 e4 e5 e6. stays)

pub stream-Next :
    (d : Dlist Queued) (p : Outside) (now : ℕ) (q : Queued) (s : Socket) (w : World)
    → Next (core s) (core (stream_handler d p now q s w).1)
unfolding stream_handler
stream-Next d p now q s w =
    let t = q.message.type in
    elim (Bool-cases (t == type_close)) [
      | inl h ↦ rw h (close-Next now none q s w)
      | inr e1 ↦ elim (Bool-cases (t == type_poll)) [
        | inl h ↦ rw (e1, h) (same _ _ (poll-core d p now none q s w))
        | inr e2 ↦ elim (Bool-cases (t == type_data)) [
          | inl h ↦ rw (e1, e2, h) (same _ _ (data-core d p none q s w))
          | inr e3 ↦ rw (e1, e2, e3) stays
        ]
      ]
    ]

-- A visit of the worker.
start_close-core :
    (d : Dlist Queued) (now : ℕ) (s : Socket) (w : World)
    → core (start_close d now s w).0 ≡ (closing, s.stream)
unfolding start_close
start_close-core d now s w =
    let s1 : Socket = record s { timeout = 300000; last_activity = now; state = closing } in
    ap core (manage_read_queue-kept d true now s1 w)

ends_by : (x y : State × Option Connection) (c : Option Connection) → y ≡ (closing, c) → Next x y
ends_by x y c e = subst (λ z. Next x z) (sym e) (ends refl)

collect-Next :
    (d : Dlist Queued) (x : State × Option Connection) (exit timedout : Bool) (now : ℕ) (s : Socket)
    (w : World)
    → is_ending s.state ≡ true
    → Next x (core (visit_collect d exit timedout now s w).0)
unfolding visit_collect
collect-Next d x exit timedout now s w e = elim (Bool-cases s.has_sock) [
  | inr h ↦ rw h (ends refl)
  | inl h ↦
      elim (Bool-cases
        ((not (is_nil s.send_queue) || not (is_nil s.recv_queue)) && not timedout && not exit)) [
          | inl k ↦ rw (h, k) (ends e)
          | inr k ↦
              rw (h, k)
                (ends_by x _ s.stream (start_close-core d now (record s { has_sock = true }) w))
        ]
]

created-Next :
    (d : Dlist Queued) (exit timedout : Bool) (now : ℕ) (x : State × Option Connection) (s : Socket)
    (w : World)
    → Next x (core s)
    → Next x (core (visit_created d exit timedout now s w).0)
unfolding visit_created
created-Next d exit timedout now x s w n =
    let s1 : Socket = record s { state = collect; send_queue = []; recv_queue = [] } in
    elim (Bool-cases (not timedout && not exit)) [
      | inl h ↦ rw h n
      | inr h ↦ rw h (collect-Next d x exit timedout now s1 w refl)
    ]

say_close-core :
    (d : Dlist Queued) (now : ℕ) (s : Socket) (w : World)
    → core (say_close d now s w).0 ≡ (created, s.stream)
unfolding say_close
say_close-core d now s w =
    let s1 : Socket = record s {
      state = created;
      recv_queue = d.insert_tail s.recv_queue (close_request s);
    } in
    ap core (deliver_results-IsKept d s1 w)

opened-Next :
    (d : Dlist Queued) (m : Error) (exit timedout : Bool) (now : ℕ) (s : Socket) (w : World)
    → s.state ≡ opened
    → Next (opened, s.stream) (core (visit_opened d m exit timedout now s w).0)
unfolding visit_opened
opened-Next d m exit timedout now s w e = elim (Bool-cases (not timedout && not exit)) [
  | inl h ↦ rw h (same _ _ (ap (λ x. (x, s.stream)) e))
  | inr h ↦ elim (Bool-cases (timedout && not exit && is_ok m)) [
    | inl k ↦
        rw (h, k) (subst (λ z. Next (opened, s.stream) z) (sym (say_close-core d now s w)) tells)
    | inr k ↦
        rw (h, k)
          (collect-Next d (opened, s.stream) exit timedout now
            (record s { state = collect; send_queue = []; recv_queue = [] }) w refl)
  ]
]

pub visit-Next :
    (st : State) (d : Dlist Queued) (m : Error) (exit : Bool) (now : ℕ) (s : Socket) (w : World)
    → NextIn (st, s.stream) (visit d m exit now (record s { state = st }) w).0
unfolding visit remove is_timedout
visit-Next created d m exit now s w =
    created-Next d exit (is_timedout now s) now _ (record s { state = created }) w stays
visit-Next opened d m exit now s w =
    opened-Next d m exit (is_timedout now s) now (record s { state = opened }) w refl
visit-Next collect d m exit now s w =
    collect-Next d _ exit (is_timedout now s) now (record s { state = collect }) w refl
visit-Next closing d m exit now s w = elim (Bool-cases (is_timedout now s)) [
  | inl h ↦ rw h tt
  | inr h ↦ rw h stays
]
visit-Next closed d m exit now s w = tt

pub link-Next :
    (o : Opened) (c : Option Connection) (q : Queued) (s : Socket) (w : World)
    → Next (core s) (core (open_complete o c q s w).0)
unfolding open_complete set_sizes
link-Next o c q s w = elim (Bool-cases (is_ok (open_error o))) [
  | inr h ↦ rw h (ends refl)
  | inl h ↦ elim (Bool-cases (is_ok o.result)) [ inl k ↦ rw (h, k) stays | inr k ↦ rw (h, k) stays ]
]

pub receive-Next :
    (d : Dlist Queued) (r : Error) (now n : ℕ) (a : Option Address) (q : Queued) (s : Socket)
    (w : World)
    → Next (core s) (core (end_receive d r now n a q s w).0)
unfolding end_receive
receive-Next d r now n a q s w = elim (Bool-cases (is_aborted r || is_retry r)) [
  | inl h ↦ rw h stays
  | inr h ↦ rw h stays
]

pub begin_at :
    (d : Dlist Queued) (l : List Queued) (s : Socket)
    → Next (core s) (core (begin_send d (record s { send_queue = l })).1)
unfolding begin_send
begin_at d [] s = stays
begin_at d (q ∷ qs) s = stays

pub sent-Next :
    (d : Dlist Queued) (r : Error) (now : ℕ) (q : Queued) (s : Socket) (w : World)
    → Next (core s) (core (end_send d r now q s w).0)
unfolding end_send
sent-Next d r now q s w = elim (Bool-cases (is_retry r)) [
  | inl h ↦ rw h stays
  | inr h ↦ elim (Bool-cases (is_ok r)) [
    | inl k ↦ elim (Bool-cases s.polled) [ inl y ↦ rw (h, k, y) stays | inr y ↦ rw (h, k, y) stays ]
    | inr k ↦ elim (Bool-cases (is_aborted r)) [
      | inl a ↦ elim (Bool-cases s.polled) [
        | inl y ↦ rw (h, k, a, y) stays
        | inr y ↦ rw (h, k, a, y) stays
      ]
      | inr a ↦ rw (h, k, a) stays
    ]
  ]
]
