-- ===== src/Contracts/Manager/Served.antt =====
-- contractmanager/contract_manager_v2.go: which contracts are taken up.
use hash_router.Common.{
  ◌≡◌, refl, subst, ◌∙◌, String, Bool, true, false, Option, some, List, [], ◌∷◌, arith, str_eq,
  eq_iff, Option-cases, Bool-cases, inl, inr,
}
use hash_router.Common.Dict.{get, put, get-put}
use hash_router.Contracts.Contract.{
  ContractData, Contract, new_contract, ignore, is_bc_available, is_bc_running,
}
use hash_router.Contracts.Manager.{
  ContractManager, zero_dest, new_contract_manager, handle_contract, run_existing_contracts,
  FactoryEvent, contract_created, clonefactory_contract_purchased, other_factory_event,
  handle_factory_event, run_manager_events, run_manager,
}

-- What a node takes up: a buyer's node the contracts that its wallet has bought, to one destination,
-- and a seller's node the contracts that its wallet sells, unless they run already.
abbrev pub IsEligible : Bool → String → String → Contract → Type 0
IsEligible true wallet_addr dest c =
    (c.info.buyer ≡ wallet_addr) × (is_bc_available c.info.bc_state ≡ false) × (c.info.dest ≡ dest)
IsEligible false wallet_addr dest c =
    (c.info.seller ≡ wallet_addr) × (is_bc_running c.info.bc_state ≡ false)

abbrev IsServedBy : ContractManager → Contract → Type 0
IsServedBy m c = (c.is_buyer ≡ m.is_buyer) × IsEligible m.is_buyer m.wallet_addr m.default_dest c

-- Every contract of the collection stands at its address and is one that the node serves.
abbrev IsOurs : ContractManager → Type 0
IsOurs m =
    (a : String) (c : Contract) → get m.contracts a ≡ some c → (c.info.addr ≡ a) × IsServedBy m c

-- What `Ignore` lets through.
ignore-IsServedBy :
    (m : ContractManager) (info : ContractData)
    → (ignore (new_contract info m.is_buyer) m.wallet_addr m.default_dest).1 ≡ false
    → let c = (ignore (new_contract info m.is_buyer) m.wallet_addr m.default_dest).0 in
      (c.info.addr ≡ info.addr) × IsServedBy m c
unfolding ignore new_contract
ignore-IsServedBy m info h = elim (Bool-cases m.is_buyer) [
  | inl buyer ↦
      let same : str_eq info.buyer m.wallet_addr ≡ true = ground arith in
      let off : is_bc_available info.bc_state ≡ false = ground arith in
      rw (buyer, off, same)
        (refl, (refl, (ground (arith, eq_iff info.buyer m.wallet_addr), off, refl)))
  | inr seller ↦
      let same : str_eq info.seller m.wallet_addr ≡ true = ground arith in
      let off : is_bc_running info.bc_state ≡ false = ground arith in
      rw (seller, off, same) (refl, (refl, (ground (arith, eq_iff info.seller m.wallet_addr), off)))
]

put-IsOurs :
    (m : ContractManager) (x : Contract)
    → IsServedBy m x
    → IsOurs m
    → IsOurs (record m { contracts = put m.contracts x.info.addr x })
put-IsOurs m x served ours a c h = elim (Bool-cases (str_eq x.info.addr a)) [
  | inl same ↦
      let it : x ≡ c = ground (arith, get-put m.contracts x.info.addr a x) in
      let at : x.info.addr ≡ a = ground (arith, eq_iff x.info.addr a) in rw (← it) (at, served)
  | inr other ↦ ours a c (ground (arith, get-put m.contracts x.info.addr a x))
]

handle_contract-IsOurs :
    (read : String → Option ContractData) (m : ContractManager) (address : String)
    → IsOurs m
    → IsOurs (handle_contract read m address).0
unfolding handle_contract
handle_contract-IsOurs read m address ours = elim (Option-cases (read address)) [
  | inl gone ↦ rw (gone, handle_contract) ours
  | inr (info, there) ↦
      elim (Bool-cases (ignore (new_contract info m.is_buyer) m.wallet_addr m.default_dest).1) [
        | inl skipped ↦ rw (there, handle_contract, skipped) ours
        | inr taken ↦
            rw (there, handle_contract, taken)
              (put-IsOurs m (ignore (new_contract info m.is_buyer) m.wallet_addr m.default_dest).0
                (ignore-IsServedBy m info taken).1 ours)
      ]
]

-- The configuration of a node, and what holds of it.
abbrev Keeps : ContractManager → ContractManager → Type 0
Keeps m m' =
    (IsOurs m → IsOurs m')
    × (m'.is_buyer ≡ m.is_buyer)
    × (m'.wallet_addr ≡ m.wallet_addr)
    × (m'.default_dest ≡ m.default_dest)

handle_contract-Keeps :
    (read : String → Option ContractData) (m : ContractManager) (address : String)
    → Keeps m (handle_contract read m address).0
unfolding handle_contract
handle_contract-Keeps read m address =
    (handle_contract-IsOurs read m address, ground arith, ground arith, ground arith)

Keeps-trans : (m m' m'' : ContractManager) → Keeps m m' → Keeps m' m'' → Keeps m m''
Keeps-trans m m' m'' (h, b, w, d) (h', b', w', d') = (λ o. h' (h o), b' ∙ b, w' ∙ w, d' ∙ d)

run_existing_contracts-Keeps :
    (read : String → Option ContractData) (m : ContractManager) (existing : List String)
    → Keeps m (run_existing_contracts read m existing)
unfolding run_existing_contracts
run_existing_contracts-Keeps read m [] = (λ h. h, refl, refl, refl)
run_existing_contracts-Keeps read m (a ∷ rest) =
    Keeps-trans m (handle_contract read m a).0
      (run_existing_contracts read (handle_contract read m a).0 rest)
      (handle_contract-Keeps read m a)
      (run_existing_contracts-Keeps read (handle_contract read m a).0 rest)

handle_factory_event-Keeps :
    (read : String → Option ContractData) (m : ContractManager) (e : FactoryEvent)
    → Keeps m (handle_factory_event read m e)
unfolding handle_factory_event
handle_factory_event-Keeps read m (contract_created a) = handle_contract-Keeps read m a
handle_factory_event-Keeps read m (clonefactory_contract_purchased a) =
    handle_contract-Keeps read m a
handle_factory_event-Keeps read m other_factory_event = (λ h. h, refl, refl, refl)

run_manager_events-Keeps :
    (m : ContractManager) (es : List ((String → Option ContractData) × FactoryEvent))
    → Keeps m (run_manager_events m es)
unfolding run_manager_events
run_manager_events-Keeps m [] = (λ h. h, refl, refl, refl)
run_manager_events-Keeps m ((read, e) ∷ es) =
    Keeps-trans m (handle_factory_event read m e)
      (run_manager_events (handle_factory_event read m e) es) (handle_factory_event-Keeps read m e)
      (run_manager_events-Keeps (handle_factory_event read m e) es)

-- Moving eligibility along the node's configuration.
eligible :
    (b b' : Bool) (w w' d d' : String) (c : Contract)
    → b ≡ b'
    → w ≡ w'
    → d ≡ d'
    → IsEligible b w d c
    → IsEligible b' w' d' c
eligible b b' w w' d d' c eb ew ed h =
    subst (λ x. IsEligible x w' d' c) eb
      (subst (λ x. IsEligible b x d' c) ew (subst (λ x. IsEligible b w x c) ed h))

-- Whatever contracts exist, whatever events come and whatever the blockchain answers, every contract
-- that a node takes up is one of its wallet: a buyer's has been bought, a seller's is not being run,
-- and a buyer's is sent to the zero destination, whatever default destination the node was given.
pub run_manager-IsServedBy :
    (wallet_addr default_dest : String) (is_buyer : Bool) (read : String → Option ContractData)
    (existing : List String) (es : List ((String → Option ContractData) × FactoryEvent))
    (a : String) (c : Contract)
    → let m = new_contract_manager wallet_addr is_buyer default_dest in
      get (run_manager read existing es m).contracts a ≡ some c
      → (c.info.addr ≡ a) × (c.is_buyer ≡ is_buyer) × IsEligible is_buyer wallet_addr zero_dest c
unfolding run_manager new_contract_manager get
run_manager-IsServedBy wallet_addr default_dest is_buyer read existing es a c h =
    let m : ContractManager = new_contract_manager wallet_addr is_buyer default_dest in
    let n : ContractManager = run_existing_contracts read m existing in
    let (ours, b, w, d) =
      Keeps-trans m n (run_manager_events n es) (run_existing_contracts-Keeps read m existing)
        (run_manager_events-Keeps n es) in
    let (at, served) = ours (λ i x absurd. ground arith) a c h in
    (at, served.0 ∙ b, eligible _ _ _ _ _ _ c b w d served.1)
