-- ===== src/Library/Endian.antt =====
-- lib/endian.go: a text of hexadecimal bytes in the opposite order. A text is the list of its bytes, two
-- of which write one byte.
use hash_router.Common.{ℕ, Option, none, some, List, [], ◌∷◌}

-- The loop of `SwitchEndian`; a slice beyond the end of an odd text panics, `none`.
unfoldable pub switch_loop : List ℕ → List ℕ → Option (List ℕ)
switch_loop [] result = some result
switch_loop (x ∷ []) result = none
switch_loop (x ∷ y ∷ l) result = switch_loop l (x ∷ y ∷ result)

unfoldable pub switch_endian : List ℕ → Option (List ℕ)
unfolding switch_loop
switch_endian input = switch_loop input []
