-- ===== src/Client/Slots.antt =====
-- The concurrency slots of a client.
use mathlib.Core.Option
use rapid_proxy.Prelude.{
  ◌∙◌, ℕ, zero, suc, ◌≤◌, ◌≡◌, refl, arith, Bool, true, false, Option, none, some, List, [], ◌∷◌,
  Int64, ltb, Option-cases, inl, inr, ◌+◌, ◌<◌, if◌then◌else◌, ◌⊎◌,
}
use rapid_proxy.Client.{
  ProxyClient, Semaphore, try_acquire_concurrency, release_concurrency, receive,
  set_concurrency_semaphore,
}

-- A channel never holds more than its capacity.
abbrev pub IsBounded : Option Semaphore → Type 0
IsBounded none = Unit {0}
IsBounded (some sem) = sem.used ≤ sem.capacity

abbrev pub has_slot : Option Semaphore → Bool
has_slot none = true
has_slot (some sem) = ltb sem.used sem.capacity

module _ {L B E : Type 0} where
  -- A client with a free slot gives it, and a release right after leaves the client as it was.
  pub acquire-release :
      (c : ProxyClient L B E)
      → has_slot c.concurrency_sem ≡ true
      → ((try_acquire_concurrency c).1 ≡ true)
        × (release_concurrency (try_acquire_concurrency c).0 ≡ some c)
  unfolding try_acquire_concurrency release_concurrency
  acquire-release c h = elim (Option-cases c.concurrency_sem) [
    | inl e ↦ ground arith
    | inr (sem, e) ↦ ground arith
  ]

  -- A client with no free slot refuses and stays as it is.
  pub acquire-full :
      (c : ProxyClient L B E)
      → has_slot c.concurrency_sem ≡ false
      → try_acquire_concurrency c ≡ (c, false)
  unfolding try_acquire_concurrency
  acquire-full c h = elim (Option-cases c.concurrency_sem) [
    | inl e ↦ ground arith
    | inr (sem, e) ↦ ground arith
  ]

  released :
      (c c' : ProxyClient L B E) (capacity used : ℕ)
      → used ≤ capacity
      → receive c capacity used ≡ some c'
      → IsBounded c'.concurrency_sem
  unfolding receive
  released c c' capacity zero h e = cc
  released c c' capacity (suc n) h e = ground arith

  try_acquire_concurrency-IsBounded :
      (c : ProxyClient L B E)
      → IsBounded c.concurrency_sem
      → IsBounded (try_acquire_concurrency c).0.concurrency_sem
  unfolding try_acquire_concurrency
  try_acquire_concurrency-IsBounded c b = elim (Option-cases c.concurrency_sem) [
    | inl e ↦ ground arith
    | inr (sem, e) ↦ ground arith
  ]

  -- A release that would block is left waiting: it changes nothing.
  abbrev pub or_wait : ProxyClient L B E → Option (ProxyClient L B E) → ProxyClient L B E
  or_wait c none = c
  or_wait c (some c') = c'

  release_concurrency-IsBounded :
      (c : ProxyClient L B E)
      → IsBounded c.concurrency_sem
      → IsBounded (or_wait c (release_concurrency c)).concurrency_sem
  unfolding release_concurrency receive
  release_concurrency-IsBounded c b = elim (Option-cases c.concurrency_sem) [
    | inl e ↦ ground arith
    | inr (sem, e) ↦ elim (Option-cases (receive c sem.capacity sem.used)) [
      | inl n ↦ rw (e, n, release_concurrency) (rw e at b)
      | inr (c', n) ↦
          rw (e, n, release_concurrency) (released c c' sem.capacity sem.used (ground arith) n)
    ]
  ]

  -- Attempts (`true`) and releases (`false`), in order.
  unfoldable pub use_slots : List Bool → ProxyClient L B E → ProxyClient L B E
  use_slots [] c = c
  use_slots (true ∷ ops) c = use_slots ops (try_acquire_concurrency c).0
  use_slots (false ∷ ops) c = use_slots ops (or_wait c (release_concurrency c))

  use_slots-kept :
      (ops : List Bool) (c : ProxyClient L B E)
      → IsBounded c.concurrency_sem
      → IsBounded (use_slots ops c).concurrency_sem
  unfolding use_slots
  use_slots-kept [] c b = b
  use_slots-kept (true ∷ ops) c b = use_slots-kept ops _ (try_acquire_concurrency-IsBounded c b)
  use_slots-kept (false ∷ ops) c b = use_slots-kept ops _ (release_concurrency-IsBounded c b)

  -- On a client with no semaphore, `SetConcurrencySemaphore(capacity)` bounds the slots in use by
  -- the channel's capacity, through any attempts and releases in any order.
  pub use_slots-IsBounded :
      (ops : List Bool) (capacity : Int64) (c : ProxyClient L B E)
      → c.concurrency_sem ≡ none
      → IsBounded (use_slots ops (set_concurrency_semaphore capacity c)).concurrency_sem
  unfolding set_concurrency_semaphore
  use_slots-IsBounded ops capacity c e = use_slots-kept ops _ (ground arith)

  -- A release gives back what leaves the client with the slots `sem`.
  abbrev pub Holding : Option Semaphore → ProxyClient L B E → Type 0
  Holding sem c = Option.map (λ d. d.concurrency_sem) (release_concurrency c) ≡ some sem

  receive-same :
      (c d : ProxyClient L B E) (capacity used : ℕ)
      → Option.map (λ x. x.concurrency_sem) (receive d capacity used)
        ≡ Option.map (λ x. x.concurrency_sem) (receive c capacity used)
  unfolding receive
  receive-same c d capacity zero = refl
  receive-same c d capacity (suc n) = refl

  -- Only the channel decides what a release does to it.
  pub Holding-same :
      (sem : Option Semaphore) (c d : ProxyClient L B E)
      → d.concurrency_sem ≡ c.concurrency_sem
      → Holding sem c
      → Holding sem d
  unfolding release_concurrency
  Holding-same sem c d e h = elim (Option-cases c.concurrency_sem) [
    | inl n ↦ ground arith
    | inr (s, n) ↦
        rw (e, n, release_concurrency)
          (receive-same c d s.capacity s.used ∙ (rw (n, release_concurrency) at h))
  ]

-- What becomes of a semaphore when a user of it that held `h` slots then holds `h'`.
abbrev pub Kept : ℕ → ℕ → Option Semaphore → Option Semaphore → Type 0
Kept h h' none none = Unit {0}
Kept h h' (some s) (some s') =
    (s'.capacity ≡ s.capacity)
    × (s'.used + h ≡ s.used + h')
    × ((s'.used ≤ s'.capacity) ⊎ (s'.used ≤ s.used))
Kept h h' _ _ = ⊥

pub Kept-same : (h h' : ℕ) (sem sem' : Option Semaphore) → sem' ≡ sem → h' ≡ h → Kept h h' sem sem'
Kept-same h h' none none e q = tt
Kept-same h h' (some s) (some s') e q = ground arith
Kept-same h h' none (some s') e q = cc
Kept-same h h' (some s) none e q = cc

module _ {L B E : Type 0} where
  pub acquire-Kept :
      (c : ProxyClient L B E) (h h' : ℕ)
      → h ≡ 0
      → h' ≡ (if (try_acquire_concurrency c).1 then 1 else 0)
      → Kept h h' c.concurrency_sem (try_acquire_concurrency c).0.concurrency_sem
  unfolding try_acquire_concurrency
  acquire-Kept c h h' z q = elim (Option-cases c.concurrency_sem) [
    | inl e ↦ ground arith
    | inr (sem, e) ↦ ground arith
  ]

  pub release-Kept :
      (c c' : ProxyClient L B E) (h h' : ℕ)
      → h ≡ 1
      → h' ≡ 0
      → release_concurrency c ≡ some c'
      → Kept h h' c.concurrency_sem c'.concurrency_sem
  unfolding release_concurrency receive
  release-Kept c c' h h' o z e = ground arith

  receive-some :
      (c : ProxyClient L B E) (capacity used : ℕ)
      → 0 < used
      → (c' : ProxyClient L B E) × (receive c capacity used ≡ some c')
  unfolding receive
  receive-some c capacity zero h = absurd (omega arith)
  receive-some c capacity (suc n) h = (_, refl)

  -- A release blocks only if no slot is in use.
  pub release-some :
      (c : ProxyClient L B E)
      → ((sem : Semaphore) → c.concurrency_sem ≡ some sem → 0 < sem.used)
      → (c' : ProxyClient L B E) × (release_concurrency c ≡ some c')
  unfolding release_concurrency
  release-some c h = elim (Option-cases c.concurrency_sem) [
    | inl e ↦ (c, ground arith)
    | inr (sem, e) ↦
        let (c', q) = receive-some c sem.capacity sem.used (h sem e) in (c', ground arith)
  ]

-- With `h` slots in use, which are within the capacity.
abbrev pub Within : ℕ → Option Semaphore → Type 0
Within h none = Unit {0}
Within h (some s) = (s.used ≡ h) × (s.used ≤ s.capacity)

abbrev pub capacity_of : Option Semaphore → Option ℕ
capacity_of none = none
capacity_of (some s) = some s.capacity

-- A step of one of the users of a semaphore, among users that hold `n` slots.
pub Kept-Within :
    (h h' n n' : ℕ) (sem sem' : Option Semaphore)
    → Kept h h' sem sem'
    → n' + h ≡ n + h'
    → Within n sem
    → Within n' sem' × (capacity_of sem' ≡ capacity_of sem)
Kept-Within h h' n n' none none k e w = (tt, refl)
Kept-Within h h' n n' (some s) (some s') k e w = ground arith
Kept-Within h h' n n' none (some s') k e w = absurd k
Kept-Within h h' n n' (some s) none k e w = absurd k
