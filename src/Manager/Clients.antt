-- ===== src/Manager/Clients.antt =====
-- What `NewManager` builds, and the lookup by URL.
use Prim.Native.String.{String}
use text.Mathlib.Text.{◌==◌ as str_eq}
use text.Mathlib.TextEquality.{eq_iff}
use mathlib.Core.List.{append-nil}
use rapid_proxy.Prelude.{
  get_elem?-append_cases, ℕ, zero, suc, ◌+◌, ◌≡◌, ◌≢◌, refl, sym, ap, ◌∙◌, arith, Bool, true, false,
  ◌||◌, Option, none, some, List, [], ◌∷◌, ◌++◌, map, Clock, ◌==◌, Map, lookup, insert,
  lookup-insert, length, get_elem?, Option-cases, Bool-cases, ◌↔◌, inl, inr, ◌⊎◌,
}
use rapid_proxy.Transport.{new_transport}
use rapid_proxy.Client.{ProxyClient, new_proxy_client}
use rapid_proxy.Manager.{Manager, Config, ok, init_clients, new_manager, get_client}

get_elem?-append_last :
    {A : Type 0} (xs : List A) (x : A) → get_elem? (xs ++ x ∷ []) (length xs) ≡ some x
get_elem?-append_last [] x = refl
get_elem?-append_last (y ∷ ys) x = get_elem?-append_last ys x

get_elem?-append :
    {A : Type 0} (xs ys : List A) (i : ℕ) (x : A)
    → get_elem? xs i ≡ some x
    → get_elem? (xs ++ ys) i ≡ some x
get_elem?-append [] ys i x e = cc
get_elem?-append (y ∷ xs) ys zero x e = e
get_elem?-append (y ∷ xs) ys (suc i) x e = get_elem?-append xs ys i x e

abbrev pub listed : String → List String → Bool
listed url [] = false
listed url (u ∷ us) = str_eq u url || listed url us

carried :
    (u url : String) (us : List String) (n : ℕ) (m : Map ℕ)
    → (listed u (url ∷ us) ≡ true) ⊎ (lookup u m ≢ none)
    → (listed u us ≡ true) ⊎ (lookup u (insert url n m) ≢ none)
carried u url us n m q = elim (Bool-cases (str_eq url u)) [
  | inl y ↦ inr (rw (lookup-insert url u n m, y) (λ e. cc))
  | inr n' ↦ rw (lookup-insert url u n m, n') (rw n' at q)
]

module _ {L B E : Type 0} where
  -- Every entry of the map leads to a client with that URL.
  pub record IsIndexed (m : Manager L B E) : Type 0 where
    pub indexed :
        (url : String) (i : ℕ)
        → lookup url m.clients_map ≡ some i
        → (c : ProxyClient L B E) × (get_elem? m.clients i ≡ some c) × (c.proxy_url ≡ url)

  abbrev pub urls : List (ProxyClient L B E) → List String
  urls cs = map (λ c. c.proxy_url) cs

  add : String → ProxyClient L B E → Manager L B E → Manager L B E
  add url c m = record m {
    clients = m.clients ++ c ∷ [];
    clients_map = insert url (length m.clients) m.clients_map;
  }

  add-IsIndexed :
      (url : String) (c : ProxyClient L B E) (m : Manager L B E)
      → c.proxy_url ≡ url
      → IsIndexed m
      → IsIndexed (add url c m)
  unfolding add
  add-IsIndexed url c m e v = record { indexed = λ u i h. found u i h (eq_iff url u) }
    where
      found :
          (u : String) (i : ℕ)
          → lookup u (insert url (length m.clients) m.clients_map) ≡ some i
          → ((str_eq url u ≡ true) ↔ (url ≡ u))
          → (d : ProxyClient L B E) × (get_elem? (m.clients ++ c ∷ []) i ≡ some d)
            × (d.proxy_url ≡ u)
      found u i h q = elim (Bool-cases (str_eq url u)) [
        | inl y ↦ (
          c,
          ground (
            arith,
            lookup-insert url u (length m.clients) m.clients_map,
            get_elem?-append_last m.clients c,
          ),
          e ∙ q.0 y,
        )
        | inr n ↦
            let (d, at, same) =
              v.indexed u i
                (ground (arith, lookup-insert url u (length m.clients) m.clients_map)) in
            (d, get_elem?-append m.clients (c ∷ []) i d at, same)
      ]

  urls-append :
      (xs : List (ProxyClient L B E)) (c : ProxyClient L B E) (us : List String)
      → urls (xs ++ c ∷ []) ++ us ≡ urls xs ++ c.proxy_url ∷ us
  urls-append [] c us = refl
  urls-append (x ∷ xs) c us = ap (λ (t : List String). x.proxy_url ∷ t) (urls-append xs c us)

  -- The parse of the first URL decides whether the loop goes on.
  init_step :
      (parse : String → Option E) (url : String) (rest : List String) (t : Clock)
      (m m' : Manager L B E)
      → init_clients parse (url ∷ rest) t m ≡ ok m'
      → init_clients parse rest
          (λ k. t (k + 1))
          (add url
            (new_proxy_client url
              (some (new_transport url m.config.transport_config))
              m.config.request_timeout
              (t 0))
            m)
        ≡ ok m'
  unfolding init_clients add
  init_step parse url rest t m m' h = elim (Option-cases (parse url)) [
    | inr (e, p) ↦ cc (rw (p, init_clients) at h)
    | inl p ↦ rw (p, init_clients) at h
  ]

  init_clients-IsIndexed :
      (parse : String → Option E) (us : List String) (t : Clock) (m m' : Manager L B E)
      → init_clients parse us t m ≡ ok m'
      → IsIndexed m
      → IsIndexed m'
        × (urls m'.clients ≡ urls m.clients ++ us)
        × ((u : String)
            → (listed u us ≡ true) ⊎ (lookup u m.clients_map ≢ none)
            → lookup u m'.clients_map ≢ none)
  unfolding init_clients add new_proxy_client
  init_clients-IsIndexed parse [] t m m' h v =
      let e : m ≡ m' = cc in rw (← e) (v, sym (append-nil (urls m.clients)), λ u q. ground arith)
  init_clients-IsIndexed parse (url ∷ rest) t m m' h v =
      let c =
        new_proxy_client url (some (new_transport url m.config.transport_config))
          m.config.request_timeout (t 0) in
      let (v', all, kept) =
        init_clients-IsIndexed parse rest (λ k. t (k + 1)) (add url c m) m'
          (init_step parse url rest t m m' h) (add-IsIndexed url c m refl v) in
      (
        v',
        all ∙ urls-append m.clients c rest,
        λ u q. kept u (carried u url rest (length m.clients) m.clients_map q),
      )

  found_url :
      (url : String) (m : Manager L B E) (c : ProxyClient L B E)
      → IsIndexed m
      → get_client url m ≡ some c
      → c.proxy_url ≡ url
  unfolding get_client
  found_url url m c v g = elim (Option-cases (lookup url m.clients_map)) [
    | inl e ↦ cc (rw (e, get_client) at g)
    | inr (i, e) ↦
        let (d, at, same) = v.indexed url i e in let q : d ≡ c = ground arith in rw (← q) same
  ]

  found_any :
      (url : String) (m : Manager L B E)
      → IsIndexed m
      → lookup url m.clients_map ≢ none
      → get_client url m ≢ none
  unfolding get_client
  found_any url m v ne g = elim (Option-cases (lookup url m.clients_map)) [
    | inl e ↦ ne e
    | inr (i, e) ↦ let (d, at, same) = v.indexed url i e in ground arith
  ]

  init_clients-free :
      (parse : String → Option E) (us : List String) (t : Clock) (m m' : Manager L B E)
      → init_clients parse us t m ≡ ok m'
      → ((k : ℕ) (c : ProxyClient L B E)
          → get_elem? m.clients k ≡ some c
          → c.concurrency_sem ≡ none)
      → (k : ℕ) (c : ProxyClient L B E) → get_elem? m'.clients k ≡ some c
      → c.concurrency_sem ≡ none
  unfolding init_clients add new_proxy_client
  init_clients-free parse [] t m m' h v k c g = let e : m ≡ m' = cc in v k c (rw e g)
  init_clients-free parse (url ∷ rest) t m m' h v k c g =
      let c0 =
        new_proxy_client url (some (new_transport url m.config.transport_config))
          m.config.request_timeout (t 0) in
      init_clients-free parse rest (λ i. t (i + 1)) (add url c0 m) m'
        (init_step parse url rest t m m' h)
        (λ i d at. elim (get_elem?-append_cases m.clients c0 i d at) [
          | inl at' ↦ v i d at'
          | inr (p, e) ↦ ap (λ (x : ProxyClient L B E). x.concurrency_sem) (sym e)
        ])
        k c g

  pub new_manager-free :
      (parse : String → Option E) (config : Config) (t : Clock) (m : Manager L B E)
      → new_manager parse config t ≡ ok m
      → (k : ℕ) (c : ProxyClient L B E) → get_elem? m.clients k ≡ some c
      → c.concurrency_sem ≡ none
  unfolding new_manager
  new_manager-free parse config t m h = elim (Bool-cases (length config.proxy_urls == 0)) [
    | inl z ↦ cc (rw (z, new_manager) at h)
    | inr z ↦
        init_clients-free parse config.proxy_urls t _ m (rw (z, new_manager) at h) (λ k c g. cc)
  ]

  pub new_manager-kept :
      (parse : String → Option E) (config : Config) (t : Clock) (m : Manager L B E)
      → new_manager parse config t ≡ ok m
      → IsIndexed m
        × (urls m.clients ≡ config.proxy_urls)
        × ((u : String)
            → (listed u config.proxy_urls ≡ true) ⊎ (lookup {V = ℕ} u [] ≢ none)
            → lookup u m.clients_map ≢ none)
  unfolding new_manager lookup
  new_manager-kept parse config t m h = elim (Bool-cases (length config.proxy_urls == 0)) [
    | inl z ↦ cc (rw (z, new_manager) at h)
    | inr z ↦
        let start : Manager L B E = record { config = config; clients = []; clients_map = [] } in
        init_clients-IsIndexed parse config.proxy_urls t start m (rw (z, new_manager) at h)
          (record { indexed = λ u i e. cc })
  ]

  -- A manager that `NewManager` returns has one client for each URL, in their order.
  pub new_manager-urls :
      (parse : String → Option E) (config : Config) (t : Clock) (m : Manager L B E)
      → new_manager parse config t ≡ ok m
      → urls m.clients ≡ config.proxy_urls
  new_manager-urls parse config t m h = (new_manager-kept parse config t m h).1

  -- What a manager that `NewManager` returns finds by a URL is a client with that URL.
  pub get_client-url :
      (parse : String → Option E) (config : Config) (t : Clock) (m : Manager L B E) (url : String)
      (c : ProxyClient L B E)
      → new_manager parse config t ≡ ok m
      → get_client url m ≡ some c
      → c.proxy_url ≡ url
  get_client-url parse config t m url c h g =
      found_url url m c (new_manager-kept parse config t m h).0 g

  -- A manager that `NewManager` returns finds a client by every URL of its configuration.
  pub get_client-listed :
      (parse : String → Option E) (config : Config) (t : Clock) (m : Manager L B E) (url : String)
      → new_manager parse config t ≡ ok m
      → listed url config.proxy_urls ≡ true
      → get_client url m ≢ none
  get_client-listed parse config t m url h l =
      let (v, all, kept) = new_manager-kept parse config t m h in
      found_any url m v (kept url (inl l))
