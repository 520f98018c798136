-- ===== src/Miner/Scheduler/Deallocate.antt =====
-- miner/on_demand_miner_scheduler.go: `Deallocate` on a miner that serves a contract once, and on
-- one that serves it more than once.
use mathlib.Core.List.{append_assoc}
use hash_router.Common.{
  ℕ, zero, suc, ◌+◌, ◌-◌, ◌≤◌, ◌≡◌, refl, ap, sym, ◌∙◌, ◌≢◌, inl, inr, String, Bool, true, false,
  none, List, [], ◌∷◌, ◌++◌, arith, str_eq, eq_iff, ltb, length, length-append, take, drop,
  Bool-cases, take-length_append, drop-length_append, drop-append_le, take-length_le,
  length-take_le, length-drop,
}
use hash_router.Float.{Float64}
use hash_router.Miner.DestSplit.{Split, DestSplit, get_by_id}
use hash_router.Miner.Scheduler.{Scheduler, panic, delete_cell, deallocate_loop, deallocate, is_at}

module _ (f : Float64) where
  drop-suc_append :
      (pre : List (Split f)) (s : Split f) (rest : List (Split f))
      → drop (suc (length pre)) (pre ++ s ∷ rest) ≡ rest
  drop-suc_append [] s rest = refl
  drop-suc_append (p ∷ pre) s rest = drop-suc_append pre s rest

  kept_cells :
      (pre : List (Split f)) (s : Split f) (rest : List (Split f))
      → take
          (length (pre ++ s ∷ rest) - suc (length pre))
          (drop (suc (length pre)) (pre ++ s ∷ rest))
        ≡ rest
  kept_cells pre s rest =
      rw (drop-suc_append pre s rest)
        (take-length_le _ rest (omega (arith, length-append pre (s ∷ rest))))

  last_cell :
      (pre : List (Split f)) (s : Split f) (mid : List (Split f)) (z : Split f)
      → drop (length (pre ++ s ∷ (mid ++ z ∷ [])) - 1) (pre ++ s ∷ (mid ++ z ∷ [])) ≡ z ∷ []
  last_cell pre s mid z =
      let whole : pre ++ s ∷ (mid ++ z ∷ []) ≡ (pre ++ s ∷ mid) ++ z ∷ [] =
        sym (append_assoc pre (s ∷ mid) (z ∷ [])) in
      let n : length (pre ++ s ∷ (mid ++ z ∷ [])) - 1 ≡ length (pre ++ s ∷ mid) =
        omega (arith, ap length whole, length-append (pre ++ s ∷ mid) (z ∷ [])) in
      rw (n, whole) (drop-length_append (pre ++ s ∷ mid) (z ∷ []))

  -- The first removal, at the cell behind `pre`.
  pub delete_cell-first :
      (pre : List (Split f)) (s : Split f) (mid : List (Split f)) (z : Split f)
      → delete_cell f
          (pre ++ s ∷ (mid ++ z ∷ []))
          (length (pre ++ s ∷ (mid ++ z ∷ [])))
          (length pre)
        ≡ (pre ++ (mid ++ z ∷ [])) ++ z ∷ []
  unfolding delete_cell
  delete_cell-first pre s mid z =
      let rest : List (Split f) = mid ++ z ∷ [] in
      cc (take-length_append pre (s ∷ rest), kept_cells pre s rest, last_cell pre s mid z)

  -- A later removal leaves the last cell of the array as it is.
  delete_cell-last :
      (body : List (Split f)) (z : Split f) (len i : ℕ)
      → suc i ≤ len
      → len ≤ length body
      → (body' : List (Split f)) × (delete_cell f (body ++ z ∷ []) len i ≡ body' ++ z ∷ [])
        × (length body' ≡ length body)
  unfolding delete_cell
  delete_cell-last body z len i h k =
      let cells : List (Split f) = body ++ z ∷ [] in
      let size : length cells ≡ suc (length body) = omega (arith, length-append body (z ∷ [])) in
      let moved : List (Split f) = take i cells ++ take (len - suc i) (drop (suc i) cells) in
      (
        moved ++ drop (len - 1) body,
        rw (drop-append_le (len - 1) body (z ∷ []) (omega arith))
            (sym (append_assoc moved (drop (len - 1) body) (z ∷ []))),
        omega (
          arith,
          length-append moved (drop (len - 1) body),
          length-append (take i cells) (take (len - suc i) (drop (suc i) cells)),
          length-take_le i cells (omega arith),
          length-take_le (len - suc i) (drop (suc i) cells)
              (omega (arith, length-drop (suc i) cells)),
          length-drop (len - 1) body,
        ),
      )

  pub is_at-append :
      (pre : List (Split f)) (s : Split f) (rest : List (Split f)) (id : String)
      → is_at f (pre ++ s ∷ rest) (length pre) id ≡ str_eq s.id id
  is_at-append [] s rest id = refl
  is_at-append (p ∷ pre) s rest id = is_at-append pre s rest id

  loop-panics :
      (rounds i len : ℕ) (body : List (Split f)) (z : Split f) (id : String) (found : Bool)
      → str_eq z.id id ≡ true
      → len ≤ length body
      → suc rounds + i ≡ suc (length body)
      → (deallocate_loop f (suc rounds) i (body ++ z ∷ []) len id found).1 ≡ panic
  unfolding deallocate_loop
  loop-panics zero i len body z id found hit h e =
      let at_end : i ≡ length body = omega arith in
      let beyond : ltb len (suc i) ≡ true = ground arith in
      let at : is_at f (body ++ z ∷ []) i id ≡ true = rw at_end (is_at-append body z [] id ∙ hit) in
      rw (at, beyond)
  loop-panics (suc rounds) i len body z id found hit h e =
      elim (Bool-cases (is_at f (body ++ z ∷ []) i id)) [
        | inr miss ↦ rw miss (loop-panics rounds (suc i) len body z id found hit h (omega arith))
        | inl at ↦ rw at (elim (Bool-cases (ltb len (suc i))) [
          | inl beyond ↦ rw beyond
          | inr inside ↦ rw inside (
              later inside (λ body' size.
                loop-panics rounds (suc i) (len - 1) body' z id true hit (ground arith)
                  (omega arith)))
        ])
      ]
    where
      later :
          ltb len (suc i) ≡ false
          → ((body' : List (Split f))
              → length body' ≡ length body
              → (deallocate_loop f (suc rounds) (suc i) (body' ++ z ∷ []) (len - 1) id true).1
                ≡ panic)
          → (deallocate_loop f
              (suc rounds)
              (suc i)
              (delete_cell f (body ++ z ∷ []) len i)
              (len - 1)
              id
              true).1
            ≡ panic
      later inside rest =
          let (body', moved, size) = delete_cell-last body z len i (ground arith) h in
          rw moved (rest body' size)

  -- Up to the first split of the contract the loop changes nothing.
  loop-passes :
      (pre mid : List (Split f)) (z : Split f) (id : String)
      → get_by_id f mid id ≢ none
      → str_eq z.id id ≡ true
      → (cells : List (Split f)) → cells ≡ pre ++ (mid ++ z ∷ [])
      → (deallocate_loop f (length (mid ++ z ∷ [])) (length pre) cells (length cells) id false).1
        ≡ panic
  unfolding deallocate_loop get_by_id
  loop-passes pre [] z id earlier hit cells e = absurd (earlier refl)
  loop-passes pre (s ∷ mid) z id earlier hit cells e = elim (Bool-cases (str_eq s.id id)) [
    | inr miss ↦ rw (at ∙ miss) (
        passed (λ shift.
          loop-passes (pre ++ s ∷ []) mid z id (λ none_there. earlier (rw miss none_there)) hit
            cells shift))
    | inl found ↦ rw (at ∙ found, inside) (first found)
  ]
    where
      at : is_at f cells (length pre) id ≡ str_eq s.id id
      at = rw e (is_at-append pre s (mid ++ z ∷ []) id)

      size : length cells ≡ length pre + suc (suc (length mid))
      size =
          omega (
            arith,
            ap length e,
            length-append pre (s ∷ (mid ++ z ∷ [])),
            length-append mid (z ∷ []),
          )

      inside : ltb (length cells) (suc (length pre)) ≡ false
      inside = ground (arith, size)

      passed :
          (cells ≡ (pre ++ s ∷ []) ++ (mid ++ z ∷ [])
            → (deallocate_loop f
                (length (mid ++ z ∷ []))
                (length (pre ++ s ∷ []))
                cells
                (length cells)
                id
                false).1
              ≡ panic)
          → (deallocate_loop f
              (length (mid ++ z ∷ []))
              (suc (length pre))
              cells
              (length cells)
              id
              false).1
            ≡ panic
      passed ih =
          let one_more : suc (length pre) ≡ length (pre ++ s ∷ []) =
            omega (arith, length-append pre (s ∷ [])) in
          rw one_more (ih (e ∙ sym (append_assoc pre (s ∷ []) (mid ++ z ∷ []))))

      first :
          str_eq s.id id ≡ true
          → (deallocate_loop f
              (length (mid ++ z ∷ []))
              (suc (length pre))
              (delete_cell f cells (length cells) (length pre))
              (length cells - 1)
              id
              true).1
            ≡ panic
      first found =
          let moved : delete_cell f cells (length cells) (length pre)
              ≡ (pre ++ (mid ++ z ∷ [])) ++ z ∷ [] =
            rw e (delete_cell-first pre s mid z) in
          let left : length (mid ++ z ∷ []) ≡ suc (length mid) =
            omega (arith, length-append mid (z ∷ [])) in
          let body : length (pre ++ (mid ++ z ∷ [])) ≡ length pre + suc (length mid) =
            omega (arith, length-append pre (mid ++ z ∷ []), left) in
          rw (moved, left)
            (loop-panics (length mid) (suc (length pre)) (length cells - 1) (pre ++ (mid ++ z ∷ []))
              z id true hit (omega (arith, size)) (omega arith))

  -- `Deallocate` panics whenever the oldest split of the miner is of the contract and another one
  -- is too: the range goes on over the array from which a split was removed.
  pub deallocate_panics :
      (m : Scheduler f) (newer : DestSplit f) (oldest : Split f) (id : String)
      → m.dest_split ≡ newer ++ oldest ∷ []
      → oldest.id ≡ id
      → get_by_id f newer id ≢ none
      → (deallocate f m id).1 ≡ panic
  unfolding deallocate
  deallocate_panics m newer oldest id e at earlier =
      rw e (loop-passes [] newer oldest id earlier ((eq_iff oldest.id id).1 at) _ refl)
