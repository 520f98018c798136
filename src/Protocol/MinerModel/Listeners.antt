-- ===== src/Protocol/MinerModel/Listeners.antt =====
-- protocol/stratum_v1_miner_model.go: listeners of accepted shares, and the handles to remove them.
use hash_router.Common.{
  ℕ, zero, suc, ◌<◌, ◌≡◌, refl, ap, String, false, Option, none, some, List, [], ◌∷◌, ◌++◌, arith,
  length, set, ltb, map, sym, ◌∙◌, append-nil, append_assoc, length-append,
}
use hash_router.Common.Int.{ℤ}
use hash_router.Protocol.MinerModel.{
  MinerModel, on_submit_listener, remove_listener, submit_result, call_listeners,
}

length-snoc : (l : List (Option String)) (c : Option String) → length (l ++ c ∷ []) ≡ suc (length l)
length-snoc [] c = refl
length-snoc (x ∷ l) c = ap suc (length-snoc l c)

not-below_self : (n : ℕ) → ltb n n ≡ false
not-below_self n = ground arith

call_listeners-nil :
    (l : List (Option String)) (h : ℕ) (d : ℤ)
    → h < length l
    → call_listeners (set l h none) d ≡ none
unfolding call_listeners
call_listeners-nil [] h d below = ground arith
call_listeners-nil (c ∷ l) zero d below = refl
call_listeners-nil (none ∷ l) (suc h) d below = refl
call_listeners-nil (some c ∷ l) (suc h) d below = rw (call_listeners-nil l h d (omega arith)) refl

-- The handle that `OnSubmit` returns counts from 1, and `RemoveListener` from 0: removing the
-- listener that was registered last panics.
pub remove_listener-panics :
    (s : MinerModel) (cb : String)
    → let (s', handle) = on_submit_listener s cb in remove_listener s' handle ≡ none
unfolding on_submit_listener remove_listener
remove_listener-panics s cb = rw (not-below_self (length (s.on_submit ++ some cb ∷ []))) refl

-- A number of registrations, one after the other.
unfoldable pub register_all : MinerModel → List String → MinerModel
unfolding on_submit_listener
register_all s [] = s
register_all s (cb ∷ rest) = register_all (on_submit_listener s cb).0 rest

register_all-on_submit :
    (s : MinerModel) (l : List String)
    → register_all s l ≡ record s { on_submit = s.on_submit ++ map some l }
unfolding register_all on_submit_listener
register_all-on_submit s [] = ap (λ x. record s { on_submit = x }) (sym (append-nil s.on_submit))
register_all-on_submit s (cb ∷ rest) =
    register_all-on_submit (record s { on_submit = s.on_submit ++ some cb ∷ [] }) rest
    ∙ ap (λ x. record s { on_submit = x }) (append_assoc s.on_submit (some cb ∷ []) (map some rest))

-- Removing a listener by its handle when one or more others were registered after it goes through,
-- and then every accepted share panics, at a listener that is nil.
pub remove_listener-then_share_panics :
    (s : MinerModel) (cb next : String) (later : List String)
    → let (s', handle) = on_submit_listener s cb in
      let s'' = register_all s' (next ∷ later) in
      (removed : MinerModel) × (remove_listener s'' handle ≡ some removed)
      × (submit_result removed false ≡ none)
unfolding on_submit_listener remove_listener submit_result register_all
remove_listener-then_share_panics s cb next later =
    let first = s.on_submit ++ some cb ∷ [] in
    let both = first ++ map some (next ∷ later) in
    let below : length first < length both =
      omega (arith, length-append first (map some (next ∷ later))) in
    (
      record s { on_submit = set both (length first) none },
      rw (register_all-on_submit (record s { on_submit = first }) (next ∷ later)) (ground arith),
      call_listeners-nil both (length first) s.difficulty below,
    )
