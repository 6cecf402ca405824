-- ===== src/Mempool/Error.antt =====
-- mempool/src/error.rs: the errors of the mempool. Those of the store do not arise in the model, whose
-- store is a map.
use gnosis.Prelude.{Bool, true, false}
use gnosis.Crypto.{PublicKey}

pub data MempoolError : Type 0 where
  unknown_authority : PublicKey → MempoolError
  invalid_signature : MempoolError
  payload_too_big : MempoolError
  mempool_full : MempoolError
  not_in_committee : PublicKey → MempoolError
  serialization_error : MempoolError

pub data MempoolResult (A : Type 0) : Type 0 where
  ok : A → MempoolResult A
  err : MempoolError → MempoolResult A

abbrev pub ensure : Bool → MempoolError → MempoolResult (Unit {0})
ensure true why = ok tt
ensure false why = err why

infixl 5 ◌>>=◌
abbrev pub ◌>>=◌ : {A B : Type 0} → MempoolResult A → (A → MempoolResult B) → MempoolResult B
ok x >>= next = next x
err why >>= next = err why
