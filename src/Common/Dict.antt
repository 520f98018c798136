-- ===== src/Common/Dict.antt =====
-- Go's `map[string]V` and `sync.Map` with string keys, as an association list. The order of the
-- list is the order in which `range` visits the entries, which Go leaves open: a theorem for every
-- list holds for every order.
use Prim.Native.String.{String}
use mathlib.Core.Path.{◌≡◌, refl}
use mathlib.Core.Option.{Option, none, some}
use mathlib.Core.List.{List, [], ◌∷◌}
use native.Mathlib.Omega.{arith}
use text.Mathlib.Text.{◌==◌ as str_eq}
use text.Mathlib.TextEquality.{eq_iff}
use hash_router.Common.Tests.{if◌then◌else◌}

abbrev pub Dict {ℓ} : Type ℓ → Type ℓ
Dict V = List (String × V)

module _ {ℓ} {V : Type ℓ} where
  -- m[k]
  unfoldable pub get : Dict V → String → Option V
  get [] k = none
  get ((j, v) ∷ m) k = if str_eq j k then some v else get m k

  -- m[k] = v
  unfoldable pub put : Dict V → String → V → Dict V
  put [] k v = (k, v) ∷ []
  put ((j, w) ∷ m) k v = if str_eq j k then (j, v) ∷ m else (j, w) ∷ put m k v

  -- delete(m, k)
  unfoldable pub delete : Dict V → String → Dict V
  delete [] k = []
  delete ((j, w) ∷ m) k = let rest = delete m k in if str_eq j k then rest else (j, w) ∷ rest

  pub get-put :
      (m : Dict V) (k j : String) (v : V)
      → get (put m k v) j ≡ (if str_eq k j then some v else get m j)
  unfolding get put
  get-put [] k j v = refl
  get-put ((i, w) ∷ m) k j v = ground (arith, eq_iff k j, eq_iff i k, eq_iff i j, get-put m k j v)

  pub get-delete :
      (m : Dict V) (k j : String) → get (delete m k) j ≡ (if str_eq k j then none else get m j)
  unfolding get delete
  get-delete [] k j = ground arith
  get-delete ((i, w) ∷ m) k j = ground (arith, eq_iff k j, eq_iff i k, eq_iff i j, get-delete m k j)

module _ {ℓ} {V : Type ℓ} where
  -- m[k], or an empty map where the key is missing
  unfoldable pub get_or_empty : Dict (Dict V) → String → Dict V
  get_or_empty m k = elim (get m k) [ none ↦ [] | some c ↦ c ]

  -- The entry of a map of maps.
  unfoldable pub get_nested : Dict (Dict V) → String → String → Option V
  get_nested m k j = elim (get m k) [ none ↦ none | some c ↦ get c j ]

  pub get-get_or_empty :
      (m : Dict (Dict V)) (k j : String) → get (get_or_empty m k) j ≡ get_nested m k j
  unfolding get_or_empty get_nested get
  get-get_or_empty m k j = ground arith

  pub get_nested-put :
      (m : Dict (Dict V)) (k k' j : String) (c : Dict V)
      → get_nested (put m k c) k' j ≡ (if str_eq k k' then get c j else get_nested m k' j)
  unfolding get_nested
  get_nested-put m k k' j c = rw (get_nested, get-put m k k' c) (ground arith)

  -- Making sure that a map is there changes no entry.
  pub get_nested-put_same :
      (m : Dict (Dict V)) (k k' j : String)
      → get_nested (put m k (get_or_empty m k)) k' j ≡ get_nested m k' j
  get_nested-put_same m k k' j =
      ground
        (arith, get_nested-put m k k' j (get_or_empty m k), get-get_or_empty m k j, eq_iff k k')

  -- Writing one entry of a map of maps.
  pub get_nested-put-put :
      (m : Dict (Dict V)) (k j k' j' : String) (v : V)
      → get_nested (put m k (put (get_or_empty m k) j v)) k' j' ≡ (
          if str_eq k k'
          then (if str_eq j j' then some v else get_nested m k' j')
          else get_nested m k' j')
  get_nested-put-put m k j k' j' v = ground (
    arith,
    get_nested-put m k k' j' (put (get_or_empty m k) j v),
    get-put (get_or_empty m k) j j' v,
    get-get_or_empty m k j',
    eq_iff k k',
  )

pub ruleset dict_laws =
    (get-put, get-delete, get-get_or_empty, get_nested-put, get_nested-put_same, get_nested-put-put)
