-- ===== src/Hashrate/Merkle/Slots.antt =====
-- hashrate/utils.go: the array of `ConvertMerkleBranchesToRoot`: what its loops read and write.
use hash_router.Common.{
  ℕ, zero, suc, ◌+◌, ◌<◌, ◌≡◌, refl, ap, ap₂, sym, subst, ◌∙◌, Option, none, some, List, [], ◌∷◌,
  ◌++◌, map, length, get_elem?, ltb, length-append, append-nil, append_assoc, zero-add, arith,
  String, Result, ok, All, true, false,
}
use hash_router.Hashrate.Merkle.{
  replicate, write_at, parent, merkle_round, merkle_loop, read_branches,
}
use hash_router.Hashrate.Merkle.Levels.{twice, queue_root}

module _ {A : Type 0} where
  pub get-append : (d xs : List A) (x : A) → get_elem? (d ++ x ∷ xs) (length d) ≡ some x
  get-append [] xs x = refl
  get-append (y ∷ d) xs x = get-append d xs x

  get-append_next :
      (d xs : List A) (x y : A) → get_elem? (d ++ x ∷ y ∷ xs) (suc (length d)) ≡ some y
  get-append_next [] xs x y = refl
  get-append_next (z ∷ d) xs x y = get-append_next d xs x y

  write_at-append :
      (d xs : List A) (x v : A) → write_at (d ++ x ∷ xs) (length d) v ≡ some (d ++ v ∷ xs)
  write_at-append [] xs x v = refl
  write_at-append (y ∷ d) xs x v = rw (write_at-append d xs x v) refl

module _ {H : Type 0} (hash : H → H → H) where
  -- A round takes two slots from the queue, which stands after those done, and writes their parent
  -- after it.
  merkle_round_queue :
      (d q xs : List (Option H)) (a b x : Option H)
      → merkle_round hash (length d) (length d + length (a ∷ b ∷ q)) (d ++ (a ∷ b ∷ q) ++ (x ∷ xs))
        ≡ some (d ++ (a ∷ b ∷ q) ++ (parent hash a b ∷ xs))
  unfolding merkle_round
  merkle_round_queue d q xs a b x =
      let slots : List (Option H) = d ++ (a ∷ b ∷ q) ++ (x ∷ xs) in
      let split = append_assoc d (a ∷ b ∷ q) (x ∷ xs) in
      let first : get_elem? slots (length d) ≡ some a =
        ap (λ s. get_elem? s (length d)) split ∙ get-append d _ a in
      let second : get_elem? slots (suc (length d)) ≡ some b =
        ap (λ s. get_elem? s (suc (length d))) split ∙ get-append_next d _ a b in
      rw (first, merkle_round)
        (rw second (
          subst
            (λ n.
              write_at slots n (parent hash a b)
              ≡ some (d ++ (a ∷ b ∷ q) ++ (parent hash a b ∷ xs)))
            (length-append d (a ∷ b ∷ q))
            (write_at-append (d ++ (a ∷ b ∷ q)) xs x (parent hash a b))))

  merkle_loop_more :
      (fuel last i offset : ℕ) (slots slots' : List (Option H))
      → ltb i last ≡ true
      → merkle_round hash i offset slots ≡ some slots'
      → merkle_loop hash (suc fuel) last i offset slots
        ≡ merkle_loop hash fuel last (suc (suc i)) (suc offset) slots'
  unfolding merkle_loop
  merkle_loop_more fuel last i offset slots slots' more e = rw (more, merkle_loop) (rw e refl)

  merkle_loop_done :
      (fuel last i offset : ℕ) (slots : List (Option H))
      → ltb i last ≡ false
      → merkle_loop hash (suc fuel) last i offset slots ≡ some slots
  unfolding merkle_loop
  merkle_loop_done fuel last i offset slots done = rw (done, merkle_loop) refl

  -- The array after a round, with the two slots among those done and the parent in the queue.
  next_queue :
      (d q xs : List (Option H)) (a b p : Option H)
      → d ++ (a ∷ b ∷ q) ++ (p ∷ xs) ≡ d ++ (a ∷ b ∷ []) ++ (q ++ (p ∷ [])) ++ xs
  next_queue d q xs a b p =
      sym (append_assoc (d ++ (a ∷ b ∷ q)) (p ∷ []) xs)
      ∙ ap (λ l. l ++ xs) (append_assoc d (a ∷ b ∷ q) (p ∷ []))
      ∙ ap (λ l. l ++ xs) (sym (append_assoc d (a ∷ b ∷ []) (q ++ (p ∷ []))))

  -- From a queue of `m + 1` slots the loop ends with the root of the queue in the last slot.
  pub merkle_loop_queue :
      (m fuel : ℕ) (d q : List (Option H)) (last i offset : ℕ) (slots : List (Option H))
      → m < fuel
      → length q ≡ suc m
      → i ≡ length d
      → offset ≡ length d + length q
      → last ≡ length d + twice m
      → slots ≡ d ++ q ++ replicate m none
      → (d' : List (Option H)) × (merkle_loop hash fuel last i offset slots
          ≡ some (d' ++ (queue_root hash m q ∷ [])))
        × (length d' ≡ last)
  unfolding queue_root
  merkle_loop_queue m zero d q last i offset slots f e ei eo el es = absurd (omega arith)
  merkle_loop_queue zero (suc fuel) d [] last i offset slots f e ei eo el es = absurd (omega arith)
  merkle_loop_queue zero (suc fuel) d (x ∷ y ∷ q) last i offset slots f e ei eo el es =
      absurd (omega arith)
  merkle_loop_queue (suc m) (suc fuel) d [] last i offset slots f e ei eo el es =
      absurd (omega arith)
  merkle_loop_queue (suc m) (suc fuel) d (x ∷ []) last i offset slots f e ei eo el es =
      absurd (omega arith)
  merkle_loop_queue zero (suc fuel) d (x ∷ []) last i offset slots f e ei eo el es = (
    d,
    merkle_loop_done fuel last i offset slots (ground arith)
        ∙ ap some (es ∙ append-nil (d ++ (x ∷ []))),
    omega arith,
  )
  merkle_loop_queue (suc m) (suc fuel) d (a ∷ b ∷ q) last i offset slots f e ei eo el es =
      let p = parent hash a b in
      let d2 : List (Option H) = d ++ (a ∷ b ∷ []) in
      let q2 : List (Option H) = q ++ (p ∷ []) in
      let dl = length-append d (a ∷ b ∷ []) in
      let ql = length-append q (p ∷ []) in
      let round : merkle_round hash i offset slots ≡ some (d2 ++ q2 ++ replicate m none) =
        ap (λ n. merkle_round hash n offset slots) ei
        ∙ ap₂ (merkle_round hash (length d)) eo es
        ∙ merkle_round_queue d q (replicate m none) a b none
        ∙ ap some (next_queue d q (replicate m none) a b p) in
      let (d', done, dlast) =
        merkle_loop_queue m fuel d2 q2 last (suc (suc i)) (suc offset) _ (omega arith)
          (omega (arith, ql)) (omega (arith, dl)) (omega (arith, dl, ql)) (omega (arith, dl))
          refl in
      (d', merkle_loop_more fuel last i offset slots _ (ground arith) round ∙ done, dlast)

  -- Reading branches that are all hashes fills the slots from the front.
  pub read_branches_fill :
      {E : Type 0} (new_hash_from_str : String → Result E H) (decode : String → H)
      (d : List (Option H)) (branches : List String) (n j i : ℕ)
      → All (λ b. new_hash_from_str b ≡ ok (decode b)) branches
      → n ≡ length branches + j
      → i ≡ length d
      → read_branches hash new_hash_from_str i (d ++ replicate n none) branches
        ≡ some (ok (d ++ map (λ b. some (decode b)) branches ++ replicate j none))
  unfolding read_branches
  read_branches_fill new_hash decode d [] n j i h e ei =
      ap₂ (λ l m. some (ok (l ++ replicate m none))) (sym (append-nil d)) (e ∙ zero-add j)
  read_branches_fill new_hash decode d (branch ∷ rest) zero j i h e ei = absurd (omega arith)
  read_branches_fill new_hash decode d (branch ∷ rest) (suc n) j i h e ei =
      let v : Option H = some (decode branch) in
      let d2 : List (Option H) = d ++ (v ∷ []) in
      let written : write_at (d ++ replicate (suc n) none) i v ≡ some (d2 ++ replicate n none) =
        ap (λ x. write_at (d ++ replicate (suc n) none) x v) ei
        ∙ write_at-append d (replicate n none) none v
        ∙ ap some (sym (append_assoc d (v ∷ []) (replicate n none))) in
      let read_rest =
        read_branches_fill new_hash decode d2 rest n j (suc i) h.1 (omega arith)
          (omega (arith, length-append d (v ∷ []))) in
      rw (h.0, read_branches)
        (rw written (
          read_rest
          ∙ ap (λ l. some (ok (l ++ replicate j none)))
              (append_assoc d (v ∷ []) (map (λ b. some (decode b)) rest))))
