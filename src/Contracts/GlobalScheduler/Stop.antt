-- ===== src/Contracts/GlobalScheduler/Stop.antt =====
-- contractmanager/global_scheduler_service.go: `DeallocateContract`, which takes a contract off its
-- miners.
use hash_router.Common.{
  ◌≡◌, refl, ap, ◌∙◌, ◌≢◌, String, Option, none, some, List, [], ◌∷◌, ◌++◌, arith, if◌then◌else◌,
  str_eq, eq_iff, eq_refl, All, Bool-cases, Option-cases, inl, inr,
}
use hash_router.Common.Dict.{Dict, get, put, get-put}
use hash_router.Float.{Float64}
use hash_router.Miner.DestSplit.{Split, DestSplit, get_by_id, remove_by_id}
use hash_router.Miner.Scheduler.{Scheduler, DeallocateReply}
use hash_router.Miner.Scheduler.Deallocate.{deallocate_panics}
use hash_router.Miner.Scheduler.Once.{deallocate-eq-remove_by_id}
use hash_router.Contracts.GlobalScheduler.{deallocate_contract}

module _ (f : Float64) where
  -- No miner has two splits of the contract.
  abbrev pub IsServedOnce : Dict (Scheduler f) → String → Type 0
  IsServedOnce miners c =
      (j : String) (m : Scheduler f)
      → get miners j ≡ some m
      → get_by_id f (remove_by_id f m.dest_split c).0 c ≡ none

  -- The split of the contract that a miner has.
  unfoldable pub serves : Dict (Scheduler f) → String → String → Option (Split f)
  serves miners j c = elim (get miners j) [ none ↦ none | some m ↦ get_by_id f m.dest_split c ]

  remove_by_id-absent :
      (d : DestSplit f) (c : String) → get_by_id f d c ≡ none → (remove_by_id f d c).0 ≡ d
  unfolding get_by_id remove_by_id
  remove_by_id-absent [] c h = refl
  remove_by_id-absent (s ∷ d) c h = ground (arith, remove_by_id-absent d c)

  -- One miner taken off the contract.
  abbrev released : Scheduler f → String → Scheduler f
  released m c = record m { dest_split = (remove_by_id f m.dest_split c).0 }

  serves-put :
      (miners : Dict (Scheduler f)) (i j c : String) (m : Scheduler f)
      → serves (put miners i m) j c
        ≡ (if str_eq i j then get_by_id f m.dest_split c else serves miners j c)
  unfolding serves
  serves-put miners i j c m = rw (get-put miners i j m, serves) (ground arith)

  released-IsServedOnce :
      (miners : Dict (Scheduler f)) (i c : String) (m : Scheduler f)
      → get miners i ≡ some m
      → IsServedOnce miners c
      → IsServedOnce (put miners i (released m c)) c
  released-IsServedOnce miners i c m there once j n found = elim (Bool-cases (str_eq i j)) [
    | inr other ↦ once j n (ground (arith, get-put miners i j (released m c)))
    | inl same ↦
        let off : get_by_id f (remove_by_id f m.dest_split c).0 c ≡ none = once i m there in
        let it : released m c ≡ n = ground (arith, get-put miners i j (released m c)) in
        rw (← it) (rw (remove_by_id-absent (remove_by_id f m.dest_split c).0 c off) off)
  ]

  abbrev Stopped : Dict (Scheduler f) → List String → String → Type 0
  Stopped miners ids c =
      (miners' : Dict (Scheduler f)) × (deallocate_contract f miners ids c ≡ some miners')
      × All (λ j. serves miners' j c ≡ none) ids
      × ((j : String) → All (λ i. i ≢ j) ids → get miners' j ≡ get miners j)
      × ((j : String) → serves miners j c ≡ none → serves miners' j c ≡ none)

  deallocate_contract-step :
      (miners : Dict (Scheduler f)) (i c : String) (m : Scheduler f) (ids : List String)
      → get miners i ≡ some m
      → IsServedOnce miners c
      → deallocate_contract f miners (i ∷ ids) c
        ≡ deallocate_contract f (put miners i (released m c)) ids c
  unfolding deallocate_contract
  deallocate_contract-step miners i c m ids there once =
      rw (there, deallocate_contract, deallocate-eq-remove_by_id f m c (once i m there))
        (ap (λ (x : Scheduler f × DeallocateReply). deallocate_contract f (put miners i x.0) ids c)
          (deallocate-eq-remove_by_id f m c (once i m there)))

  deallocate_contract-Stopped :
      (miners : Dict (Scheduler f)) (ids : List String) (c : String)
      → IsServedOnce miners c
      → Stopped miners ids c
  unfolding deallocate_contract serves
  deallocate_contract-Stopped miners [] c once = (miners, refl, tt, λ j h. refl, λ j h. h)
  deallocate_contract-Stopped miners (i ∷ ids) c once = elim (Option-cases (get miners i)) [
    | inl gone ↦
        let (miners', e, off, others, stays) = deallocate_contract-Stopped miners ids c once in
        (
          miners',
          rw (gone, deallocate_contract) e,
          (stays i (rw (gone, serves)), off),
          λ j h. others j h.1,
          stays,
        )
    | inr (m, there) ↦
        let (miners', e, off, others, stays) =
          deallocate_contract-Stopped (put miners i (released m c)) ids c
            (released-IsServedOnce miners i c m there once) in
        let off_i : (j : String)
            → serves miners j c ≡ none
            → serves (put miners i (released m c)) j c ≡ none =
          λ j h. ground (arith, serves-put miners i j c (released m c), once i m there) in
        (
          miners',
          deallocate_contract-step miners i c m ids there once ∙ e,
          (
            stays i
                (ground (arith, serves-put miners i i c (released m c), once i m there, eq_refl i)),
            off,
          ),
          λ j h. others j h.1 ∙ ground (arith, get-put miners i j (released m c), eq_iff i j, h.0),
          λ j h. stays j (off_i j h),
        )
  ]

  -- Where no miner has two splits of the contract, deallocating it from some miners goes through.
  -- None of those miners serves it afterwards, and every other miner is as it was.
  pub deallocate_contract-stops :
      (miners : Dict (Scheduler f)) (ids : List String) (c : String)
      → IsServedOnce miners c
      → (miners' : Dict (Scheduler f)) × (deallocate_contract f miners ids c ≡ some miners')
        × All (λ j. serves miners' j c ≡ none) ids
        × ((j : String) → All (λ i. i ≢ j) ids → get miners' j ≡ get miners j)
  deallocate_contract-stops miners ids c once =
      let (miners', e, off, others, stays) = deallocate_contract-Stopped miners ids c once in
      (miners', e, off, others)

  -- Where the first of those miners serves the contract twice, once by its oldest split, the whole
  -- call panics.
  pub deallocate_contract-panics :
      (miners : Dict (Scheduler f)) (i c : String) (ids : List String) (m : Scheduler f)
      (newer : DestSplit f) (oldest : Split f)
      → get miners i ≡ some m
      → m.dest_split ≡ newer ++ oldest ∷ []
      → oldest.id ≡ c
      → get_by_id f newer c ≢ none
      → deallocate_contract f miners (i ∷ ids) c ≡ none
  unfolding deallocate_contract
  deallocate_contract-panics miners i c ids m newer oldest there e at earlier =
      rw (there, deallocate_contract, deallocate_panics f m newer oldest c e at earlier)
