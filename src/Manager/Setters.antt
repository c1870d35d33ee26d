-- ===== src/Manager/Setters.antt =====
-- `SetRateLimiter`, `SetRateLimiters` and their counterparts for circuit breakers, read back by URL.
use Prim.Native.String.{String}
use text.Mathlib.Text.{◌==◌ as str_eq}
use text.Mathlib.TextEquality.{eq_iff}
use native.Mathlib.Decide.{ℕ_discrete}
use rapid_proxy.Prelude.{
  ℕ, ◌≡◌, ◌≢◌, ◌⊎◌, refl, sym, ap, ◌∙◌, Bool, true, false, Option, none, some, [], ◌∷◌, Map, lookup,
  get_elem?, get_elem?-set_self, get_elem?-set_ne, set, some_injective, Option-cases, Bool-cases,
  inl, inr,
}
use rapid_proxy.Client.{ProxyClient, set_rate_limiter}
use rapid_proxy.Selector.Frame.{get_elem?-lt}
use rapid_proxy.Manager.{
  Manager, ok, error, proxy_not_found, get_client, change_client, or_same, set_client_rate_limiter,
}
use rapid_proxy.Manager.Clients.{IsIndexed}

-- The keys of a Go map.
abbrev pub IsDistinct : {V : Type 0} → Map V → Type 0
IsDistinct [] = Unit {0}
IsDistinct (entry ∷ rest) = (lookup entry.0 rest ≡ none) × IsDistinct rest

module _ {L B E : Type 0} where
  -- A found client with the change.
  abbrev pub changed :
      Bool
      → (ProxyClient L B E → ProxyClient L B E)
      → Option (ProxyClient L B E)
      → Option (ProxyClient L B E)
  changed true f (some c) = some (f c)
  changed b f o = o

  abbrev KeepsUrl : (ProxyClient L B E → ProxyClient L B E) → Type 0
  KeepsUrl f = (c : ProxyClient L B E) → (f c).proxy_url ≡ c.proxy_url

  changed-none : (b : Bool) (f : ProxyClient L B E → ProxyClient L B E) → changed b f none ≡ none
  changed-none true f = refl
  changed-none false f = refl

  get_client-lookup :
      (u : String) (m : Manager L B E) (i : ℕ)
      → lookup u m.clients_map ≡ some i
      → get_client u m ≡ get_elem? m.clients i
  unfolding get_client
  get_client-lookup u m i e = rw (e, get_client) refl

  get_client-missing :
      (u : String) (m : Manager L B E) → lookup u m.clients_map ≡ none → get_client u m ≡ none
  unfolding get_client
  get_client-missing u m e = rw (e, get_client) refl

  -- The manager with client `i` written.
  abbrev written : ℕ → ProxyClient L B E → Manager L B E → Manager L B E
  written i c m = record m { clients = set m.clients i c }

  written-get_client :
      (url u : String) (f : ProxyClient L B E → ProxyClient L B E) (m : Manager L B E) (i : ℕ)
      (c : ProxyClient L B E)
      → IsIndexed m
      → lookup url m.clients_map ≡ some i
      → get_elem? m.clients i ≡ some c
      → c.proxy_url ≡ url
      → get_client u (written i (f c) m) ≡ changed (str_eq url u) f (get_client u m)
  written-get_client url u f m i c v e g same = elim (Option-cases (lookup u m.clients_map)) [
    | inl n ↦
        get_client-missing u (written i (f c) m) n
        ∙ sym (ap (changed (str_eq url u) f) (get_client-missing u m n) ∙ changed-none _ f)
    | inr (k, p) ↦ elim (ℕ_discrete i k) [
      | yes q ↦
          let (d, at, same') = v.indexed u k p in
          let one = some_injective d c (sym at ∙ ap (get_elem? m.clients) (sym q) ∙ g) in
          let equal : url ≡ u =
            sym same ∙ ap (λ (x : ProxyClient L B E). x.proxy_url) (sym one) ∙ same' in
          let yes_eq : str_eq url u ≡ true = (eq_iff url u).1 equal in
          get_client-lookup u (written i (f c) m) k p
          ∙ ap (get_elem? (set m.clients i (f c))) (sym q)
          ∙ get_elem?-set_self m.clients i (f c) (get_elem?-lt m.clients i c g)
          ∙ sym (
              ap (changed (str_eq url u) f)
                (get_client-lookup u m k p ∙ ap (get_elem? m.clients) (sym q) ∙ g)
              ∙ ap (λ (b : Bool). changed b f (some c)) yes_eq)
      | no q ↦
          let no_eq : str_eq url u ≡ false = elim (Bool-cases (str_eq url u)) [
            | inl y ↦
                let equal = (eq_iff url u).0 y in
                absurd (
                  q (
                    some_injective i k
                      (sym e ∙ ap (λ (x : String). lookup x m.clients_map) equal ∙ p)))
            | inr n ↦ n
          ] in
          get_client-lookup u (written i (f c) m) k p
          ∙ get_elem?-set_ne m.clients (f c) q
          ∙ sym (get_client-lookup u m k p)
          ∙ sym (ap (λ (b : Bool). changed b f (get_client u m)) no_eq)
    ]
  ]

  written-IsIndexed :
      (f : ProxyClient L B E → ProxyClient L B E) (m : Manager L B E) (i : ℕ)
      (c : ProxyClient L B E)
      → KeepsUrl f
      → IsIndexed m
      → get_elem? m.clients i ≡ some c
      → IsIndexed (written i (f c) m)
  written-IsIndexed f m i c keeps v g = record {
    indexed = λ u k p.
        let (d, at, same) = v.indexed u k p in
        elim (ℕ_discrete i k) [
          | yes q ↦
              let one = some_injective d c (sym at ∙ ap (get_elem? m.clients) (sym q) ∙ g) in
              (
                f c,
                ap (get_elem? (set m.clients i (f c))) (sym q)
                    ∙ get_elem?-set_self m.clients i (f c) (get_elem?-lt m.clients i c g),
                keeps c ∙ ap (λ (x : ProxyClient L B E). x.proxy_url) (sym one) ∙ same,
              )
          | no q ↦ (d, get_elem?-set_ne m.clients (f c) q ∙ at, same)
        ];
  }

  -- A change by URL, whether there is such a client or not.
  change-get_client :
      (url : String) (f : ProxyClient L B E → ProxyClient L B E) (m : Manager L B E)
      → KeepsUrl f
      → IsIndexed m
      → IsIndexed (or_same m (change_client url f m))
        × ((u : String)
            → get_client u (or_same m (change_client url f m))
              ≡ changed (str_eq url u) f (get_client u m))
  change-get_client url f m keeps v = elim (Option-cases (lookup url m.clients_map)) [
    | inl n ↦ rw (n, change_client) (v, λ u. missing n u)
    | inr (i, e) ↦
        let (c, g, same) = v.indexed url i e in
        rw (e, g, change_client)
          (written-IsIndexed f m i c keeps v g, λ u. written-get_client url u f m i c v e g same)
  ]
    where
      missing :
          lookup url m.clients_map ≡ none
          → (u : String) → get_client u m ≡ changed (str_eq url u) f (get_client u m)
      missing n u = elim (Bool-cases (str_eq url u)) [
        | inl y ↦
            let equal = (eq_iff url u).0 y in
            let none_there =
              get_client-missing u m
                (ap (λ (x : String). lookup x m.clients_map) (sym equal) ∙ n) in
            none_there ∙ sym (ap (changed (str_eq url u) f) none_there ∙ changed-none _ f)
        | inr q ↦ sym (ap (λ (b : Bool). changed b f (get_client u m)) q)
      ]

  -- A found client with the limiter that the map has for its URL.
  abbrev pub updated : Option (Option L) → Option (ProxyClient L B E) → Option (ProxyClient L B E)
  updated none o = o
  updated (some l) o = changed true (set_rate_limiter l) o

  -- `SetRateLimiter` fails exactly for a URL that no lookup finds; otherwise the lookup of that URL
  -- finds the same client with the limiter, and every other lookup what it found before.
  pub set_client_rate_limiter-get_client :
      (url : String) (l : Option L) (m : Manager L B E)
      → IsIndexed m
      → ((get_client url m ≡ none)
          × (set_client_rate_limiter url l m ≡ error (proxy_not_found url)))
        ⊎ ((m' : Manager L B E) × (set_client_rate_limiter url l m ≡ ok m')
            × IsIndexed m'
            × (get_client url m ≢ none)
            × ((u : String)
                → get_client u m' ≡ changed (str_eq url u) (set_rate_limiter l) (get_client u m)))
  unfolding set_client_rate_limiter set_rate_limiter
  set_client_rate_limiter-get_client url l m v = elim (Option-cases (lookup url m.clients_map)) [
    | inl n ↦ inl (get_client-missing url m n, rw (n, set_client_rate_limiter, change_client) refl)
    | inr (i, e) ↦
        let (c, g, same) = v.indexed url i e in
        let (v', each) = change-get_client url (set_rate_limiter l) m (λ c. refl) v in
        inr (
          written i (set_rate_limiter l c) m,
          rw (e, g, set_client_rate_limiter, change_client) refl,
          written-IsIndexed (set_rate_limiter l) m i c (λ c. refl) v g,
          λ z. cc (sym (get_client-lookup url m i e ∙ g) ∙ z),
          λ u. written-get_client url u (set_rate_limiter l) m i c v e g same,
        )
  ]
