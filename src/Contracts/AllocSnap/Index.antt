-- ===== src/Contracts/AllocSnap/Index.antt =====
-- contractmanager/alloc_snap.go: the two indexes of a snapshot hold the same items.
use hash_router.Common.{
  ◌≡◌, refl, inl, inr, String, Option, some, List, [], ◌∷◌, arith, str_eq, if◌then◌else◌,
  Bool-cases,
}
use hash_router.Common.Int.{ℤ}
use hash_router.Common.Dict.{
  Dict, get, put, get_nested, get_or_empty, get_nested-put_same, get_nested-put-put,
}
use hash_router.Float.{Float64}
use hash_router.Miner.DestSplit.{DestSplit}
use hash_router.Miner.Scheduler.{Scheduler, is_vetted}
use hash_router.Contracts.AllocSnap.{
  AllocItem, AllocCollection, AllocSnap, new_alloc_snap, set_miner, set_item, get_item, set_splits,
  add_miners, create_miner_snapshot,
}

module _ (f : Float64) where
  -- The item of a miner in the index by contracts.
  unfoldable pub get_by_contract : AllocSnap f → String → String → Option (AllocItem f)
  get_by_contract m contract_id miner_id = get_nested m.contract_miners contract_id miner_id

  get_item-set_miner :
      (s : AllocSnap f) (m m' c : String) (ghs : ℤ)
      → (get_item f (set_miner f s m ghs) m' c ≡ get_item f s m' c)
        × (get_by_contract (set_miner f s m ghs) c m' ≡ get_by_contract s c m')
  unfolding set_miner get_item get_by_contract
  get_item-set_miner s m m' c ghs = (get_nested-put_same s.miner_contracts m m' c, refl)

  -- After `Set` both indexes give the new item for its miner and contract, and what they gave for
  -- every other pair.
  pub get_item-set_item :
      (s : AllocSnap f) (m c m' c' : String) (x : f.Number) (ghs : ℤ)
      → let item : AllocItem f = record {
        miner_id = m;
        contract_id = c;
        fraction = x;
        total_ghs = ghs;
      } in
        (get_item f (set_item f s m c x ghs) m' c' ≡ (
          if str_eq m m'
          then (if str_eq c c' then some item else get_item f s m' c')
          else get_item f s m' c'))
        × (get_by_contract (set_item f s m c x ghs) c' m' ≡ (
            if str_eq c c'
            then (if str_eq m m' then some item else get_by_contract s c' m')
            else get_by_contract s c' m'))
  unfolding set_item set_miner get_item get_by_contract
  get_item-set_item s m c m' c' x ghs =
      let item : AllocItem f = record {
        miner_id = m;
        contract_id = c;
        fraction = x;
        total_ghs = ghs;
      } in
      let miners : Dict (AllocCollection f) =
        put s.miner_contracts m (get_or_empty s.miner_contracts m) in
      (
        ground (
          arith,
          get_nested-put-put miners m c m' c' item,
          get_nested-put_same s.miner_contracts m m' c',
        ),
        get_nested-put-put s.contract_miners c m c' m' item,
      )

  -- The two indexes agree on every miner and contract.
  abbrev pub IsConsistent : AllocSnap f → Type 0
  IsConsistent s = (m c : String) → get_item f s m c ≡ get_by_contract s c m

  set_item-IsConsistent :
      (s : AllocSnap f) (m c : String) (x : f.Number) (ghs : ℤ)
      → IsConsistent s
      → IsConsistent (set_item f s m c x ghs)
  set_item-IsConsistent s m c x ghs h m' c' =
      ground (arith, get_item-set_item s m c m' c' x ghs, h m' c')

  set_splits-IsConsistent :
      (s : AllocSnap f) (m : String) (ghs : ℤ) (d : DestSplit f)
      → IsConsistent s
      → IsConsistent (set_splits f s m ghs d)
  unfolding set_splits
  set_splits-IsConsistent s m ghs [] h = h
  set_splits-IsConsistent s m ghs (item ∷ rest) h =
      set_splits-IsConsistent (set_item f s m item.id item.percentage ghs) m ghs rest
        (set_item-IsConsistent s m item.id item.percentage ghs h)

  set_miner-IsConsistent :
      (s : AllocSnap f) (m : String) (ghs : ℤ) → IsConsistent s → IsConsistent (set_miner f s m ghs)
  set_miner-IsConsistent s m ghs h m' c = ground (arith, get_item-set_miner s m m' c ghs, h m' c)

  add_miners-IsConsistent :
      (now : ℤ) (s : AllocSnap f) (ms : List (Scheduler f))
      → IsConsistent s
      → IsConsistent (add_miners f now s ms)
  unfolding add_miners
  add_miners-IsConsistent now s [] h = h
  add_miners-IsConsistent now s (m ∷ ms) h = elim (Bool-cases (is_vetted f now m)) [
    | inl vetted ↦ rw vetted (
        add_miners-IsConsistent now
          (set_splits f (set_miner f s m.id m.hashrate_ghs) m.id m.hashrate_ghs m.dest_split) ms
          (set_splits-IsConsistent (set_miner f s m.id m.hashrate_ghs) m.id m.hashrate_ghs
            m.dest_split (set_miner-IsConsistent s m.id m.hashrate_ghs h)))
    | inr vetting ↦ rw vetting (add_miners-IsConsistent now s ms h)
  ]

  -- In the snapshot of any miners, the index by miners and the index by contracts give the same
  -- item for every miner and contract.
  pub create_miner_snapshot-IsConsistent :
      (now : ℤ) (miners : List (Scheduler f)) → IsConsistent (create_miner_snapshot f now miners)
  unfolding create_miner_snapshot
  create_miner_snapshot-IsConsistent now miners =
      add_miners-IsConsistent now (new_alloc_snap f) miners
        (unfold get_item get_by_contract get_nested get in λ m c. refl)
