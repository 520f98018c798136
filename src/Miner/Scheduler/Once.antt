-- ===== src/Miner/Scheduler/Once.antt =====
-- miner/on_demand_miner_scheduler.go: `Deallocate` on a miner that serves a contract at most once.
use mathlib.Core.List.{append-nil, append_assoc}
use hash_router.Common.{
  ℕ, zero, suc, ◌-◌, ◌≤◌, ◌≡◌, refl, ap, sym, ◌∙◌, ◌⊎◌, inl, inr, String, Bool, true, false, none,
  List, [], ◌∷◌, ◌++◌, arith, str_eq, ltb, length, length-append, take, Bool-cases,
  take-length_append, take-length_le,
}
use hash_router.Float.{Float64}
use hash_router.Miner.DestSplit.{Split, remove_by_id, get_by_id}
use hash_router.Miner.Scheduler.{
  Scheduler, DeallocateReply, done, delete_cell, deallocate_loop, deallocate, is_at,
}
use hash_router.Miner.Scheduler.Deallocate.{delete_cell-first, is_at-append}

module _ (f : Float64) where
  loop-idle :
      (rounds i len : ℕ) (cells : List (Split f)) (id : String) (found : Bool)
      → ((j : ℕ) → i ≤ j → is_at f cells j id ≡ false)
      → deallocate_loop f rounds i cells len id found ≡ (take len cells, done found)
  unfolding deallocate_loop
  loop-idle zero i len cells id found quiet = refl
  loop-idle (suc rounds) i len cells id found quiet =
      rw (quiet i (omega arith))
        (loop-idle rounds (suc i) len cells id found (λ j h. quiet j (omega arith)))

  is_at-quiet :
      (pre rest : List (Split f)) (id : String) (j : ℕ)
      → get_by_id f rest id ≡ none
      → length pre ≤ j
      → is_at f (pre ++ rest) j id ≡ false
  unfolding get_by_id
  is_at-quiet (p ∷ pre) rest id zero h k = absurd (omega arith)
  is_at-quiet (p ∷ pre) rest id (suc j) h k = is_at-quiet pre rest id j h (omega arith)
  is_at-quiet [] [] id zero h k = refl
  is_at-quiet [] [] id (suc j) h k = refl
  is_at-quiet [] (s ∷ rest) id zero h k = ground arith
  is_at-quiet [] (s ∷ rest) id (suc j) h k = is_at-quiet [] rest id j (ground arith) (omega arith)

  get_by_id-again :
      (mid : List (Split f)) (z : Split f) (id : String)
      → get_by_id f (mid ++ z ∷ []) id ≡ none
      → get_by_id f ((mid ++ z ∷ []) ++ z ∷ []) id ≡ none
  unfolding get_by_id
  get_by_id-again [] z id h = ground arith
  get_by_id-again (s ∷ mid) z id h = ground (arith, get_by_id-again mid z id)

  snoc-cases :
      (xs : List (Split f))
      → (xs ≡ []) ⊎ ((mid : List (Split f)) × (z : Split f) × (xs ≡ mid ++ z ∷ []))
  snoc-cases [] = inl refl
  snoc-cases (x ∷ xs) = elim (snoc-cases xs) [
    | inl e ↦ inr ([], x, ap (◌∷◌ x) e)
    | inr (mid, z, e) ↦ inr (x ∷ mid, z, ap (◌∷◌ x) e)
  ]

  -- The removal of the last split.
  loop-removed_last :
      (pre : List (Split f)) (s : Split f) (id : String)
      → let cells = pre ++ s ∷ [] in
        deallocate_loop f 0
          (suc (length pre))
          (delete_cell f cells (length cells) (length pre))
          (length cells - 1)
          id
          true
        ≡ (pre, done true)
  unfolding deallocate_loop delete_cell
  loop-removed_last pre s id =
      let cells : List (Split f) = pre ++ s ∷ [] in
      let n : length cells - 1 ≡ length pre = omega (arith, length-append pre (s ∷ [])) in
      rw (n, take-length_append pre (s ∷ []), append_assoc)
        (ap (λ l. (l, done true)) (take-length_append pre _))

  -- The removal of another split.
  loop-removed_inner :
      (pre : List (Split f)) (s : Split f) (mid : List (Split f)) (z : Split f) (id : String)
      → get_by_id f (mid ++ z ∷ []) id ≡ none
      → let cells = pre ++ s ∷ (mid ++ z ∷ []) in
        (rounds : ℕ)
        → deallocate_loop f rounds
            (suc (length pre))
            (delete_cell f cells (length cells) (length pre))
            (length cells - 1)
            id
            true
          ≡ (pre ++ (mid ++ z ∷ []), done true)
  loop-removed_inner pre s mid z id h rounds =
      let rest : List (Split f) = mid ++ z ∷ [] in
      let n : length (pre ++ s ∷ rest) - 1 ≡ length (pre ++ rest) =
        omega (arith, length-append pre (s ∷ rest), length-append pre rest) in
      let quiet : (j : ℕ) → suc (length pre) ≤ j → is_at f ((pre ++ rest) ++ z ∷ []) j id ≡ false =
        λ j k.
          rw (append_assoc pre rest (z ∷ []))
            (is_at-quiet pre (rest ++ z ∷ []) id j (get_by_id-again mid z id h) (omega arith)) in
      rw
        (
          delete_cell-first f pre s mid z,
          n,
          loop-idle rounds (suc (length pre)) (length (pre ++ rest)) ((pre ++ rest) ++ z ∷ []) id
              true quiet,
        )
        (ap (λ l. (l, done true)) (take-length_append (pre ++ rest) (z ∷ [])))

  -- The rounds that are left after the first removal.
  loop-removed :
      (pre : List (Split f)) (s : Split f) (rest : List (Split f)) (id : String)
      → get_by_id f rest id ≡ none
      → let cells = pre ++ s ∷ rest in
        deallocate_loop f
          (length rest)
          (suc (length pre))
          (delete_cell f cells (length cells) (length pre))
          (length cells - 1)
          id
          true
        ≡ (pre ++ rest, done true)
  loop-removed pre s rest id h = elim (snoc-cases rest) [
    | inl e ↦ rw e (rw append-nil (loop-removed_last pre s id))
    | inr (mid, z, e) ↦
        rw e (loop-removed_inner pre s mid z id (rw e at h) (length (mid ++ z ∷ [])))
  ]

  loop-once :
      (pre suf : List (Split f)) (id : String)
      → get_by_id f (remove_by_id f suf id).0 id ≡ none
      → (cells : List (Split f)) → cells ≡ pre ++ suf
      → deallocate_loop f (length suf) (length pre) cells (length cells) id false
        ≡ (pre ++ (remove_by_id f suf id).0, done (remove_by_id f suf id).1)
  unfolding deallocate_loop remove_by_id get_by_id
  loop-once pre [] id h cells e =
      ap (λ l. (l, done false)) (take-length_le (length cells) cells (omega arith) ∙ e)
  loop-once pre (s ∷ rest) id h cells e = elim (Bool-cases (str_eq s.id id)) [
    | inl hit ↦ rw (at ∙ hit, hit, inside) (rw e (loop-removed pre s rest id (rw hit at h)))
    | inr miss ↦
        rw (at ∙ miss, miss)
          (passed (λ shift. loop-once (pre ++ s ∷ []) rest id (ground arith) cells shift))
  ]
    where
      at : is_at f cells (length pre) id ≡ str_eq s.id id
      at = rw e (is_at-append f pre s rest id)

      inside : ltb (length cells) (suc (length pre)) ≡ false
      inside = ground (arith, ap length e, length-append pre (s ∷ rest))

      passed :
          (cells ≡ (pre ++ s ∷ []) ++ rest
            → deallocate_loop f (length rest) (length (pre ++ s ∷ [])) cells (length cells) id false
              ≡ ((pre ++ s ∷ []) ++ (remove_by_id f rest id).0, done (remove_by_id f rest id).1))
          → deallocate_loop f (length rest) (suc (length pre)) cells (length cells) id false
            ≡ (pre ++ s ∷ (remove_by_id f rest id).0, done (remove_by_id f rest id).1)
      passed ih =
          let one_more : suc (length pre) ≡ length (pre ++ s ∷ []) =
            omega (arith, length-append pre (s ∷ [])) in
          rw (one_more, ← append_assoc pre (s ∷ []) (remove_by_id f rest id).0)
            (ih (e ∙ sym (append_assoc pre (s ∷ []) rest)))

  -- Where no second split of the contract is there, `Deallocate` is `RemoveByID` on the miner's
  -- splits: it takes the one split out, keeps the others in order, and says whether there was one.
  pub deallocate-eq-remove_by_id :
      (m : Scheduler f) (id : String)
      → get_by_id f (remove_by_id f m.dest_split id).0 id ≡ none
      → deallocate f m id ≡ (
        record m { dest_split = (remove_by_id f m.dest_split id).0 },
        done (remove_by_id f m.dest_split id).1,
      )
  unfolding deallocate
  deallocate-eq-remove_by_id m id h =
      ap
        (λ (r : List (Split f) × DeallocateReply).
          let m' : Scheduler f = record m { dest_split = r.0 } in
          let out : Scheduler f × DeallocateReply = (m', r.1) in out)
        (loop-once [] m.dest_split id h m.dest_split refl)
