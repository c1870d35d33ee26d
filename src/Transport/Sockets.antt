-- ===== src/Transport/Sockets.antt =====
-- What `socketControl` leaves on a socket.
use rapid_proxy.Prelude.{
  ℕ, ◌≡◌, ◌≢◌, ◌↔◌, refl, ap, ◌∙◌, Option, none, some, Option-cases, inl, inr,
}
use rapid_proxy.Transport.{
  SocketOption, tcp_nodelay, so_keepalive, tcp_keepidle, tcp_keepintvl, tcp_keepcnt, so_reuseaddr,
  tune, set_options, socket_control,
}

module _ {W E : Type 0} (setsockopt : ℕ → SocketOption → ℕ → W → W × Option E) where
  -- What `setsockopt` promises of the options that `get` reads: a call without an error has set its
  -- option, and no call changes another one.
  pub record Sets (get : W → SocketOption → Option ℕ) : Type 0 where
    pub stored :
        (fd : ℕ) (o : SocketOption) (v : ℕ) (w : W)
        → (setsockopt fd o v w).1 ≡ none
        → get (setsockopt fd o v w).0 o ≡ some v
    pub kept :
        (fd : ℕ) (o o' : SocketOption) (v : ℕ) (w : W)
        → o ≢ o'
        → get (setsockopt fd o v w).0 o' ≡ get w o'

  tune-kept :
      (get : W → SocketOption → Option ℕ) (fd : ℕ) (w : W) (o : SocketOption)
      → Sets get
      → tcp_keepidle ≢ o
      → tcp_keepintvl ≢ o
      → tcp_keepcnt ≢ o
      → so_reuseaddr ≢ o
      → get (tune setsockopt fd w) o ≡ get w o
  unfolding tune
  tune-kept get fd w o s a b c d =
      s.kept fd so_reuseaddr o 1 _ d
      ∙ (s.kept fd tcp_keepcnt o 3 _ c
          ∙ (s.kept fd tcp_keepintvl o 10 _ b ∙ s.kept fd tcp_keepidle o 30 w a))

  -- The same on what the function does.
  set_options_lem :
      (get : W → SocketOption → Option ℕ) (fd : ℕ) (w : W)
      → Sets get
      → let (w1, no_delay) = setsockopt fd tcp_nodelay 1 w in
        let (w', err) = set_options setsockopt fd w in
        (err ≡ none ↔ (no_delay ≡ none) × ((setsockopt fd so_keepalive 1 w1).1 ≡ none))
        × (err ≡ none → (get w' tcp_nodelay ≡ some 1) × (get w' so_keepalive ≡ some 1))
  unfolding set_options
  set_options_lem get fd w s =
      let w1 = (setsockopt fd tcp_nodelay 1 w).0 in
      let w2 = (setsockopt fd so_keepalive 1 w1).0 in
      elim (Option-cases (setsockopt fd tcp_nodelay 1 w).1) [
        | inr (e, p) ↦ rw (p, set_options) ((λ q. cc, λ q. cc), λ q. cc)
        | inl p ↦ elim (Option-cases (setsockopt fd so_keepalive 1 w1).1) [
          | inr (e, q) ↦ rw (p, q, set_options) ((λ x. cc, λ x. cc), λ x. cc)
          | inl q ↦
              rw (p, q, set_options)
                (
                  (λ x. (refl, refl), λ x. refl),
                  λ x. (
                    tune-kept get fd w2 tcp_nodelay s (λ y. cc) (λ y. cc) (λ y. cc) (λ y. cc)
                        ∙ (s.kept fd so_keepalive tcp_nodelay 1 w1 (λ y. cc)
                            ∙ s.stored fd tcp_nodelay 1 w p),
                    tune-kept get fd w2 so_keepalive s (λ y. cc) (λ y. cc) (λ y. cc) (λ y. cc)
                        ∙ s.stored fd so_keepalive 1 w1 q,
                  ),
                )
        ]
      ]

  socket_control-runs :
      (control : (ℕ → W → W × Option E) → W → W × Option E × Option E) (fd : ℕ) (w : W)
      → ((f : ℕ → W → W × Option E) → control f w ≡ ((f fd w).0, (f fd w).1, none))
      → socket_control setsockopt control w ≡ set_options setsockopt fd w
  unfolding socket_control
  socket_control-runs control fd w runs =
      let r = runs (set_options setsockopt) in rw (r, socket_control) (ap (λ x. (x.0, x.1)) r)

  -- Where `Control` runs its function on `fd` and `setsockopt` keeps its promise, `socketControl`
  -- succeeds exactly if the first two options can be set, whatever becomes of the other four, and
  -- then both of them are on.
  pub socket_control_lem :
      (get : W → SocketOption → Option ℕ)
      (control : (ℕ → W → W × Option E) → W → W × Option E × Option E) (fd : ℕ) (w : W)
      → Sets get
      → ((f : ℕ → W → W × Option E) → control f w ≡ ((f fd w).0, (f fd w).1, none))
      → let (w1, no_delay) = setsockopt fd tcp_nodelay 1 w in
        let (w', err) = socket_control setsockopt control w in
        (err ≡ none ↔ (no_delay ≡ none) × ((setsockopt fd so_keepalive 1 w1).1 ≡ none))
        × (err ≡ none → (get w' tcp_nodelay ≡ some 1) × (get w' so_keepalive ≡ some 1))
  socket_control_lem get control fd w s runs =
      rw (socket_control-runs control fd w runs) (set_options_lem get fd w s)
