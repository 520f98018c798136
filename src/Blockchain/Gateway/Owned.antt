-- ===== src/Blockchain/Gateway/Owned.antt =====
-- blockchain/ethereum_gateway.go, `ReadContracts`: the contracts of a wallet.
use hash_router.Common.{
  ◌≡◌, refl, sym, ap, arith, String, Bool, true, false, none, some, List, [], ◌∷◌, ◌++◌,
  if◌then◌else◌, str_eq, Result, ok, err, append-nil, append_assoc,
}
use hash_router.Blockchain.Gateway.{Chain, GatewayError, owner, read_owned, read_contracts}

unfoldable pub is_ok : {A : Type 0} → Result GatewayError A → Bool
is_ok (ok a) = true
is_ok (err e) = false

-- The first result of `ReadContracts`, nil with an error.
unfoldable pub value_or_nil : Result GatewayError (List String) → List String
value_or_nil (ok l) = l
value_or_nil (err e) = []

module _ (chain : Chain) where
  -- Every contract can be read.
  unfoldable pub readable : Bool → List String → Bool
  readable is_buyer [] = true
  readable is_buyer (addr ∷ rest) =
      if chain.new_implementation addr
      then elim (owner chain is_buyer addr) [ none ↦ false | some o ↦ readable is_buyer rest ]
      else false

  -- The contracts of the list whose owner is the wallet.
  unfoldable pub owned : String → Bool → List String → List String
  owned wallet is_buyer [] = []
  owned wallet is_buyer (addr ∷ rest) = elim (owner chain is_buyer addr) [
    | none ↦ owned wallet is_buyer rest
    | some o ↦
        if str_eq o wallet then addr ∷ owned wallet is_buyer rest else owned wallet is_buyer rest
  ]

  read_owned-owned :
      (wallet : String) (is_buyer : Bool) (l found : List String)
      → readable is_buyer l ≡ true
      → read_owned chain wallet is_buyer l found ≡ ok (found ++ owned wallet is_buyer l)
  unfolding read_owned owned readable
  read_owned-owned wallet is_buyer [] found h = ap ok (sym (append-nil found))
  read_owned-owned wallet is_buyer (addr ∷ rest) found h = ground (
    arith,
    read_owned-owned wallet is_buyer rest found,
    read_owned-owned wallet is_buyer rest (found ++ addr ∷ []),
    append_assoc found (addr ∷ []) (owned wallet is_buyer rest),
  )

  read_owned-is_ok :
      (wallet : String) (is_buyer : Bool) (l found : List String)
      → is_ok (read_owned chain wallet is_buyer l found) ≡ readable is_buyer l
  unfolding read_owned readable is_ok
  read_owned-is_ok wallet is_buyer [] found = refl
  read_owned-is_ok wallet is_buyer (addr ∷ rest) found = ground (
    arith,
    read_owned-is_ok wallet is_buyer rest found,
    read_owned-is_ok wallet is_buyer rest (found ++ addr ∷ []),
  )

  -- `ReadContracts` gives the contracts of the list whose owner is the wallet, in order, if every
  -- contract of the list can be read; one that cannot makes it an error without any contract.
  pub read_contracts-owned :
      (wallet : String) (is_buyer : Bool) (l : List String)
      → chain.get_contract_list ≡ some l
      → (is_ok (read_contracts chain wallet is_buyer) ≡ readable is_buyer l)
        × (value_or_nil (read_contracts chain wallet is_buyer)
            ≡ (if readable is_buyer l then owned wallet is_buyer l else []))
  unfolding read_contracts value_or_nil is_ok
  read_contracts-owned wallet is_buyer l e =
      ground
        (arith, e, read_owned-is_ok wallet is_buyer l [], read_owned-owned wallet is_buyer l [])
