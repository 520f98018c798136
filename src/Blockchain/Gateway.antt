-- ===== src/Blockchain/Gateway.antt =====
-- blockchain/ethereum_gateway.go: what is read of the contracts, and the transaction that closes one
-- out. The client, the bindings of the contracts and the keys are no code of the repository's own:
-- their answers are fields of `Chain`, each of them `none` or `false` for an error.
pub mod Owned
use hash_router.Common.{
  ◌≡◌, refl, sym, ap, ◌∙◌, arith, ℕ, zero, suc, ◌+◌, ◌^◌, ◌%◌, String, Bool, true, false, Option,
  none, some, List, [], ◌∷◌, ◌++◌, if◌then◌else◌, str_eq, Result, ok, err, All,
}
use hash_router.Common.Int.{ℤ, pos}
use hash_router.Contracts.Contract.{
  ContractData, BlockchainState, bc_available, bc_running, bc_other,
}
use hash_router.Blockchain.Retry.{wrap_int64}

-- What GetPublicVariables returns of a contract.
pub record PublicVariables : Type 0 where
  pub state : ℕ
  pub price : ℤ
  pub limit : ℤ
  pub speed : ℤ
  pub contract_length : ℤ
  pub starting_block_timestamp : ℤ
  pub buyer : String
  pub seller : String

-- The transaction of a close-out, with the options that are set.
pub record Transaction : Type 0 where
  pub contract : String
  pub nonce : ℤ
  pub gas_limit : ℕ
  pub value : ℕ
  pub closeout_type : ℤ

pub record Chain : Type 0 where
  pub get_contract_list : Option (List String)
  pub new_implementation : String → Bool
  pub buyer : String → Option String
  pub seller : String → Option String
  pub encrypted_pool_data : String → Option String
  -- lib.ParseDest
  pub parse_dest : String → Option String
  pub get_public_variables : String → Option PublicVariables
  -- crypto.HexToECDSA and bind.NewKeyedTransactorWithChainID for the seller's key
  pub private_key_ok : Bool
  pub chain_id_ok : Bool
  pub pending_nonce_at : String → Option ℕ
  pub transactor_ok : Bool
  pub accepts : Transaction → Bool

pub data GatewayError : Type 0 where
  list_failed key_failed chain_id_failed nonce_failed transactor_failed : GatewayError
  implementation_failed owner_failed pool_data_failed dest_invalid variables_failed send_failed :
      String → GatewayError

-- ContractBlockchainState(state)
unfoldable pub to_blockchain_state : ℕ → BlockchainState
to_blockchain_state zero = bc_available
to_blockchain_state (suc zero) = bc_running
to_blockchain_state (suc (suc n)) = bc_other (n + 2)

module _ (chain : Chain) where
  unfoldable pub read_contract : String → Result GatewayError ContractData
  unfolding wrap_int64 to_blockchain_state
  read_contract addr =
      if chain.new_implementation addr
      then elim (chain.encrypted_pool_data addr) [
        | none ↦ err (pool_data_failed addr)
        | some url ↦ elim (chain.parse_dest url) [
          | none ↦ err (dest_invalid addr)
          | some dest ↦ elim (chain.get_public_variables addr) [
            | none ↦ err (variables_failed addr)
            | some v ↦ ok (record {
              addr = addr;
              buyer = v.buyer;
              seller = v.seller;
              bc_state = to_blockchain_state v.state;
              price = wrap_int64 v.price;
              limit = wrap_int64 v.limit;
              speed = wrap_int64 v.speed;
              contract_length = wrap_int64 v.contract_length;
              starting_block_timestamp = wrap_int64 v.starting_block_timestamp;
              dest = dest;
            })
          ]
        ]
      ]
      else err (implementation_failed addr)

  -- Buyer or Seller of a contract.
  abbrev pub owner : Bool → String → Option String
  owner is_buyer addr = if is_buyer then chain.buyer addr else chain.seller addr

  -- The loop of `ReadContracts`: the first error ends it without any contract.
  unfoldable pub read_owned :
      String → Bool → List String → List String → Result GatewayError (List String)
  read_owned wallet is_buyer [] found = ok found
  read_owned wallet is_buyer (addr ∷ rest) found =
      let kept = read_owned wallet is_buyer rest (found ++ addr ∷ []) in
      let left = read_owned wallet is_buyer rest found in
      if chain.new_implementation addr
      then elim (owner is_buyer addr) [
        | none ↦ err (owner_failed addr)
        | some o ↦ if str_eq o wallet then kept else left
      ]
      else err (implementation_failed addr)

  unfoldable pub read_contracts : String → Bool → Result GatewayError (List String)
  unfolding read_owned
  read_contracts wallet is_buyer = elim chain.get_contract_list [
    | none ↦ err list_failed
    | some l ↦ read_owned wallet is_buyer l []
  ]

  -- `setContractCloseOut`: the transaction that the chain has taken
  unfoldable pub set_contract_close_out : String → String → ℤ → Result GatewayError Transaction
  unfolding wrap_int64
  set_contract_close_out from_address contract_address closeout_type =
      if chain.new_implementation contract_address
      then if chain.private_key_ok
        then if chain.chain_id_ok
          then elim (chain.pending_nonce_at from_address) [
            | none ↦ err nonce_failed
            | some nonce ↦
                let tx : Transaction = record {
                  contract = contract_address;
                  nonce = wrap_int64 (pos nonce);
                  gas_limit = 3000000;
                  value = 0;
                  closeout_type = closeout_type;
                } in
                if chain.transactor_ok
                then if chain.accepts tx then ok tx else err (send_failed contract_address)
                else err transactor_failed
          ]
          else err chain_id_failed
        else err key_failed
      else err (implementation_failed contract_address)
