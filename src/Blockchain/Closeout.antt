-- ===== src/Blockchain/Closeout.antt =====
-- blockchain/ethereum_gateway.go, `SetContractCloseOut` and the goroutine that `NewEthereumGateway`
-- starts: the calls wait for their turn on one channel without a buffer and for their result on
-- another.
use hash_router.Common.{
  ◌≡◌, refl, arith, String, Option, none, some, List, [], ◌∷◌, ◌++◌, All, Result,
}
use hash_router.Common.Int.{ℤ}
use hash_router.Blockchain.Gateway.{Chain, GatewayError, Transaction, set_contract_close_out}

-- The struct closeout, with the caller that sends it.
pub record Request : Type 0 where
  pub caller : String
  pub from_address : String
  pub contract_address : String
  pub closeout_type : ℤ

-- A result, with the caller that receives it, the request and what the chain answered in its turn.
pub record Answer : Type 0 where
  pub receiver : String
  pub request : Request
  pub chain : Chain
  pub result : Result GatewayError Transaction

pub record Turns : Type 0 where
  -- the calls before the send on startCloseout
  pub calling : List Request
  -- the request that the goroutine has, if it is not waiting for one
  pub serving : Option Request
  -- the callers before the receive on endCloseout
  pub waiting : List String
  -- what was received, the last first
  pub answers : List Answer

unfoldable pub idle : Turns
idle = record { calling = []; serving = none; waiting = []; answers = [] }

-- The moves. A channel picks any of those that wait. The chain answers for the time of the move.
pub data Step (s : Turns) : Turns → Type 0 where
  call : (r : Request) → Step s (record s { calling = r ∷ s.calling })
  start :
      (r : Request) (before after : List Request)
      → s.calling ≡ before ++ r ∷ after
      → s.serving ≡ none
      → Step s
          (record s { calling = before ++ after; serving = some r; waiting = r.caller ∷ s.waiting })
  finish :
      (chain : Chain) (r : Request) (receiver : String) (before after : List String)
      → s.serving ≡ some r
      → s.waiting ≡ before ++ receiver ∷ after
      → Step s (record s {
        serving = none;
        waiting = before ++ after;
        answers =
            record {
              receiver = receiver;
              request = r;
              chain = chain;
              result =
                  set_contract_close_out chain r.from_address r.contract_address r.closeout_type;
            }
            ∷ s.answers;
      })

pub data Reach : Turns → Type 0 where
  here : Reach idle
  next : {s t : Turns} → Reach s → Step s t → Reach t

-- The answer went to the caller of its request, and is what the chain answered to the close-out of the
-- request's contract, on the request's account and with the request's type.
abbrev pub IsFaithful : Answer → Type 0
IsFaithful a =
    (a.receiver ≡ a.request.caller)
    × (a.result
        ≡ set_contract_close_out a.chain a.request.from_address a.request.contract_address
            a.request.closeout_type)

-- Only the caller of the request in work waits for a result, and who received one had called.
abbrev IsInTurn : Turns → Type 0
IsInTurn s =
    (s.waiting ≡ elim s.serving [ none ↦ [] | some r ↦ r.caller ∷ [] ]) × All IsFaithful s.answers

only_member :
    (before : List String) (x : String) (after : List String) (y : String)
    → y ∷ [] ≡ before ++ x ∷ after
    → (before ++ after ≡ []) × (x ≡ y)
only_member [] x after y e = ground (arith, e)
only_member (z ∷ []) x after y e = ground (arith, e)
only_member (z ∷ w ∷ before) x after y e = ground (arith, e)

Step-IsInTurn : {s t : Turns} → IsInTurn s → Step s t → IsInTurn t
Step-IsInTurn h (call r) = h
Step-IsInTurn h (start r before after e free) = (ground (arith, h.0, free), h.1)
Step-IsInTurn h (finish chain r receiver before after e w) =
    let (rest, same) = only_member before receiver after r.caller (ground (arith, h.0, e, w)) in
    (rest, ((same, refl), h.1))

Reach-IsInTurn : {s : Turns} → Reach s → IsInTurn s
unfolding idle
Reach-IsInTurn here = (refl, tt)
Reach-IsInTurn (next h st) = Step-IsInTurn (Reach-IsInTurn h) st

-- However the calls come and whichever waiting call a channel picks, each result goes to the caller of
-- its request, and is what the chain of its time answers to the close-out with the account, the contract
-- and the type of that request. At most the caller of the close-out in work waits for a result.
pub Reach-own_result :
    (s : Turns)
    → Reach s
    → (s.waiting ≡ elim s.serving [ none ↦ [] | some r ↦ r.caller ∷ [] ]) × All IsFaithful s.answers
Reach-own_result s h = Reach-IsInTurn h
