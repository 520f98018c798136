-- ===== src/Contracts/Manager.antt =====
-- contractmanager/contract_manager_v2.go: which contracts of the marketplace this node serves. What
-- the blockchain answers to `ReadContract` is an argument; `none` is an error. The collection of
-- contracts is a `Dict` by address, since `GetID` is the address.
pub mod Served
use hash_router.Common.{
  ◌≡◌, refl, subst, ◌∙◌, String, Bool, true, false, Option, none, some, List, [], ◌∷◌, arith,
  if◌then◌else◌, str_eq, eq_iff, Option-cases, Bool-cases, inl, inr,
}
use hash_router.Common.Dict.{Dict, get, put, get-put}
use hash_router.Contracts.Contract.{
  ContractData, Contract, new_contract, ignore, is_bc_available, is_bc_running,
}

pub record ContractManager : Type 0 where
  pub is_buyer : Bool
  pub claim_funds : Bool
  pub wallet_addr : String
  pub default_dest : String
  pub contracts : Dict Contract

-- The zero value of `lib.Dest`, as text.
abbrev pub zero_dest : String
zero_dest = ""

-- `NewContractManager`, which is given a default destination and leaves the field at its zero
unfoldable pub new_contract_manager : String → Bool → String → ContractManager
new_contract_manager wallet_addr is_buyer default_dest = record {
  is_buyer = is_buyer;
  claim_funds = false;
  wallet_addr = wallet_addr;
  default_dest = zero_dest;
  contracts = [];
}

-- The second field says whether the contract could be read.
unfoldable pub handle_contract :
    (String → Option ContractData) → ContractManager → String → ContractManager × Bool
unfolding new_contract ignore
handle_contract read m address = elim (read address) [
  | none ↦ (m, false)
  | some info ↦
      let (c, ignored) = ignore (new_contract info m.is_buyer) m.wallet_addr m.default_dest in
      if ignored then (m, true) else (record m { contracts = put m.contracts c.info.addr c }, true)
]

-- The loop of `runExistingContracts`, over what `ReadContracts` lists: a contract that cannot be
-- read is skipped.
unfoldable pub run_existing_contracts :
    (String → Option ContractData) → ContractManager → List String → ContractManager
unfolding handle_contract
run_existing_contracts read m [] = m
run_existing_contracts read m (a ∷ rest) =
    run_existing_contracts read (handle_contract read m a).0 rest

-- The topics that `Run` tells apart, with the address in their second word.
pub data FactoryEvent : Type 0 where
  contract_created clonefactory_contract_purchased : String → FactoryEvent
  other_factory_event : FactoryEvent

unfoldable pub handle_factory_event :
    (String → Option ContractData) → ContractManager → FactoryEvent → ContractManager
unfolding handle_contract
handle_factory_event read m (contract_created a) = (handle_contract read m a).0
handle_factory_event read m (clonefactory_contract_purchased a) = (handle_contract read m a).0
handle_factory_event read m other_factory_event = m

-- `Run`: the contracts that exist, and then the events, each with the blockchain of its time.
unfoldable pub run_manager_events :
    ContractManager → List ((String → Option ContractData) × FactoryEvent) → ContractManager
unfolding handle_factory_event
run_manager_events m [] = m
run_manager_events m ((read, e) ∷ es) = run_manager_events (handle_factory_event read m e) es

unfoldable pub run_manager :
    (String → Option ContractData)
    → List String
    → List ((String → Option ContractData) × FactoryEvent)
    → ContractManager
    → ContractManager
unfolding run_existing_contracts run_manager_events
run_manager read existing es m = run_manager_events (run_existing_contracts read m existing) es
