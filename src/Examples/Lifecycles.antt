-- ===== src/Examples/Lifecycles.antt =====
-- The ends of workers, of the cleanup and of calls, and the options of a socket.
use rapid_proxy.Prelude.{
  ℕ, zero, suc, ◌≡◌, ◌≢◌, ◌↔◌, refl, sym, ap, ◌∙◌, arith, true, false, Option, none, some, [], ◌∷◌,
  ◌==◌, if◌then◌else◌, Bool-cases, inl, inr, sum_by,
}
use rapid_proxy.Worker.Queue.{Queue, SubmitBlocking, sends}
use rapid_proxy.Worker.Shutdown.{
  Crew, Reach, starts, next, turns, stops, on_job, entering, looping, start, worker_turn, stop_step,
  joining, stopped, present,
}
use rapid_proxy.Worker.Shutdown.Return.{Returns, stop-Returns}
use rapid_proxy.Manager.Lifecycle
use rapid_proxy.Manager.Lifecycle.Return
use rapid_proxy.Manager.Lifecycle.Return.{close-Returns}
use rapid_proxy.Manager.Lifecycle.{
  Lifecycle, start_cleanup, close_step, fresh, waiting, panicked, closed, selecting,
}
use rapid_proxy.Transport.{
  SocketOption, tcp_nodelay, so_keepalive, tcp_keepidle, tcp_keepintvl, tcp_keepcnt, so_reuseaddr,
  socket_control,
}
use rapid_proxy.Transport.Sockets.{Sets, socket_control_lem}

-- Two workers, one of which has entered its loop, and a `Stop` that waits for them.
abbrev crew : Crew ℕ
crew = record {
  queue = record { jobs = []; capacity = 4; closed = true; ctx_done = true };
  workers = looping ∷ entering ∷ [];
  wg = 2;
  active = 1;
  stopper = joining;
}

crew-Reach : Reach 2 4 crew
unfolding start worker_turn stop_step
crew-Reach = next (next (next starts (turns on_job 0 entering refl refl)) (stops refl)) (stops refl)

stop-Returns_example :
    (crew.stopper ≡ joining → Returns crew)
    × (crew.stopper ≡ stopped → (crew.active ≡ 0) × (sum_by present crew.workers ≡ 0))
stop-Returns_example = stop-Returns crew-Reach

-- A `Close` that waits for the cleanup goroutine.
abbrev closing : Lifecycle
closing = record {
  has_ticker = true;
  ticker_stopped = true;
  tick_pending = true;
  done_closed = true;
  ctx_done = true;
  wg = 1;
  loop = selecting;
  closer = waiting;
}

closing-Reach : Lifecycle.Reach 120000000000 closing
unfolding start_cleanup close_step
closing-Reach =
    Lifecycle.next
      (Lifecycle.next
        (Lifecycle.next (Lifecycle.next Lifecycle.starts (Lifecycle.fires refl refl))
          (Lifecycle.closes refl))
        (Lifecycle.closes refl))
      (Lifecycle.closes refl)

close-Returns_example :
    (closing.closer ≡ waiting → Return.Returns closing)
    × (closing.closer ≢ panicked)
    × (closing.closer ≡ closed → closing.loop ≢ selecting)
close-Returns_example = close-Returns closing-Reach

abbrev queue : Queue ℕ
queue = record { jobs = 6 ∷ []; capacity = 2; closed = false; ctx_done = false }

abbrev room : SubmitBlocking {E = ℕ} none queue
room = sends refl (omega arith)

abbrev code : SocketOption → ℕ
code tcp_nodelay = 0
code so_keepalive = 1
code tcp_keepidle = 2
code tcp_keepintvl = 3
code tcp_keepcnt = 4
code so_reuseaddr = 5

abbrev decode : ℕ → SocketOption
decode zero = tcp_nodelay
decode (suc zero) = so_keepalive
decode (suc (suc zero)) = tcp_keepidle
decode (suc (suc (suc zero))) = tcp_keepintvl
decode (suc (suc (suc (suc zero)))) = tcp_keepcnt
decode _ = so_reuseaddr

decode-code : (o : SocketOption) → decode (code o) ≡ o
decode-code tcp_nodelay = refl
decode-code so_keepalive = refl
decode-code tcp_keepidle = refl
decode-code tcp_keepintvl = refl
decode-code tcp_keepcnt = refl
decode-code so_reuseaddr = refl

abbrev Options : Type 0
Options = ℕ → Option ℕ

-- A system that refuses `TCP_KEEPIDLE`.
abbrev setsockopt : ℕ → SocketOption → ℕ → Options → Options × Option ℕ
setsockopt fd tcp_keepidle v w = (w, some 22)
setsockopt fd o v w = (λ k. if code o == k then some v else w k, none)

abbrev read : Options → SocketOption → Option ℕ
read w o = w (code o)

setsockopt-stored :
    (fd : ℕ) (o : SocketOption) (v : ℕ) (w : Options)
    → (setsockopt fd o v w).1 ≡ none
    → read (setsockopt fd o v w).0 o ≡ some v
setsockopt-stored fd tcp_nodelay v w h = refl
setsockopt-stored fd so_keepalive v w h = refl
setsockopt-stored fd tcp_keepidle v w h = cc
setsockopt-stored fd tcp_keepintvl v w h = refl
setsockopt-stored fd tcp_keepcnt v w h = refl
setsockopt-stored fd so_reuseaddr v w h = refl

written-kept :
    (o o' : SocketOption) (v : ℕ) (w : Options)
    → o ≢ o'
    → (if code o == code o' then some v else w (code o')) ≡ w (code o')
written-kept o o' v w ne = elim (Bool-cases (code o == code o')) [
  | inl h ↦
      let same : code o ≡ code o' = ground arith in
      absurd (ne (sym (decode-code o) ∙ (ap decode same ∙ decode-code o')))
  | inr h ↦ rw h refl
]

setsockopt-kept :
    (fd : ℕ) (o o' : SocketOption) (v : ℕ) (w : Options)
    → o ≢ o'
    → read (setsockopt fd o v w).0 o' ≡ read w o'
setsockopt-kept fd tcp_nodelay o' v w ne = written-kept tcp_nodelay o' v w ne
setsockopt-kept fd so_keepalive o' v w ne = written-kept so_keepalive o' v w ne
setsockopt-kept fd tcp_keepidle o' v w ne = refl
setsockopt-kept fd tcp_keepintvl o' v w ne = written-kept tcp_keepintvl o' v w ne
setsockopt-kept fd tcp_keepcnt o' v w ne = written-kept tcp_keepcnt o' v w ne
setsockopt-kept fd so_reuseaddr o' v w ne = written-kept so_reuseaddr o' v w ne

setsockopt-Sets : Sets setsockopt read
setsockopt-Sets = record { stored = setsockopt-stored; kept = setsockopt-kept }

-- `Control` on the open descriptor 3.
abbrev control : (ℕ → Options → Options × Option ℕ) → Options → Options × Option ℕ × Option ℕ
control f w = ((f 3 w).0, (f 3 w).1, none)

abbrev unset : Options
unset k = none

socket_control_lem_example :
    let (w', err) = socket_control setsockopt control unset in
    (err ≡ none ↔ (◌≡◌ {A = Option ℕ} none none) × (◌≡◌ {A = Option ℕ} none none))
    × (err ≡ none → (read w' tcp_nodelay ≡ some 1) × (read w' so_keepalive ≡ some 1))
socket_control_lem_example =
    socket_control_lem setsockopt read control 3 unset setsockopt-Sets (λ f. refl)
