-- ===== src/Prelude/Maps.antt =====
-- Go's maps from strings as association lists: a write replaces the entry of its key.
use Prim.Native.String.{String}
use text.Mathlib.Text.{◌==◌ as str_eq}
use text.Mathlib.TextEquality.{eq_iff}
use mathlib.Core.Path.{◌≡◌, refl}
use mathlib.Core.Option.{Option, none, some}
use mathlib.Core.List.{List, [], ◌∷◌, map}
use native.Mathlib.Omega.{arith}
use rapid_proxy.Prelude.Tests.{if◌then◌else◌}

abbrev pub Map : Type 0 → Type 0
Map V = List (String × V)

module _ {V : Type 0} where
  -- `m[key]` with its second result: the first entry of the key.
  unfoldable pub lookup : String → Map V → Option V
  lookup key [] = none
  lookup key (entry ∷ rest) =
      let further = lookup key rest in if str_eq entry.0 key then some entry.1 else further

  -- `m[key] = value`.
  unfoldable pub insert : String → V → Map V → Map V
  insert key value [] = (key, value) ∷ []
  insert key value (entry ∷ rest) =
      let further = entry ∷ insert key value rest in
      if str_eq entry.0 key then (key, value) ∷ rest else further

  -- A read after a write.
  pub lookup-insert :
      (key asked : String) (value : V) (m : Map V)
      → lookup asked (insert key value m)
        ≡ (if str_eq key asked then some value else lookup asked m)
  unfolding lookup insert
  lookup-insert key asked value [] = refl
  lookup-insert key asked value (entry ∷ rest) =
      let later = lookup-insert key asked value rest in
      ground (arith, later, eq_iff entry.0 asked, eq_iff key asked, eq_iff entry.0 key)

abbrev pub keys : {V : Type 0} → Map V → List String
keys m = map (λ e. e.0) m
