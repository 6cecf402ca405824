-- ===== src/Mempool/Handlers.antt =====
-- The handlers of `Core` in mempool/src/core.rs and its loop. The messages logged are left out.
use gnosis.Prelude.Words.{u64_mod}
use gnosis.Prelude.Map.{insert, add, Map, lookup, contains_key, discard_all}
use gnosis.Messages.{Block, opt, pes}
use gnosis.Mempool.Error.{
  MempoolResult, ok, err, invalid_signature, unknown_authority, mempool_full, payload_too_big,
  serialization_error,
}
use gnosis.Mempool.Payload.{Payload, payload_digest, make_payload, answered, payload_size}
use gnosis.Prelude.{
  ℕ, Option, List, [], Bool, ◌*◌, ◌++◌, length, ◌∷◌, nat_eq, ◌%◌, some, take, if◌then◌else◌, none,
  ◌/◌, is_empty, ltb, nat_eqb, ◌&&◌, leb, true, ◌||◌, false,
}
use gnosis.Crypto.{PublicKey, Digest}
use gnosis.Mempool.Config
use gnosis.Mempool.State.{
  Env, Core, M, MempoolMessage, payload, lift, modify, done, ◌>>=◌, get, clean, ◌>>◌, guard, pure,
  sync, payload_entry, Entry, block_entry,
}
use gnosis.Error
use gnosis.Crypto

module _ (env : Env) where
  open env use {crypto, payload_in, with_capacity, reserve, iter}

  digest : Payload → Digest
  digest p = payload_digest crypto p.author p.transactions

  -- Core::new
  unfoldable pub new_core : PublicKey → Config.Committee → Config.Parameters → Core
  new_core name committee parameters = record {
    name = name;
    committee = committee;
    parameters = parameters;
    store = [];
    synchronizer = [];
    payload_maker = record {
      transactions = [];
      size = 0;
      max_size = parameters.max_payload_size;
      name = name;
    };
    network_channel = [];
    opt_queue = [];
    pes_queue = [];
    opt_capacity = with_capacity parameters.queue_capacity;
    pes_capacity = with_capacity ((parameters.queue_capacity * 3) % u64_mod / 2);
  }

  unfoldable pub store_payload : Digest → Payload → Core → Core
  store_payload d p s = record s { store = insert d (payload_entry p) s.store }

  -- Core::transmit and Synchronizer::transmit: to one authority, or to all others.
  unfoldable pub transmit : MempoolMessage → Option PublicKey → M (Unit {0})
  transmit message none = modify (λ s. record s {
    network_channel =
        s.network_channel ++ (message, Config.broadcast_addresses s.committee s.name) ∷ [];
  })
  transmit message (some to) = do
    s ← get
    address ← lift (Config.mempool_address s.committee to)
    modify (λ s. record s { network_channel = s.network_channel ++ (message, address ∷ []) ∷ [] })

  unfoldable pub process_own_payload : Digest → Payload → M (Unit {0})
  process_own_payload d p = do
    s ← get
    guard (ltb (length s.opt_queue) s.opt_capacity && ltb (length s.pes_queue) s.pes_capacity)
        mempool_full
    modify (store_payload d p)
    transmit (payload p) none

  -- The digest is put in both queues.
  unfoldable pub enqueue : Digest → Core → Core
  enqueue d s =
      let opt_queue : List Digest = add d s.opt_queue in
      let pes_queue : List Digest = add d s.pes_queue in
      record s {
        opt_queue = opt_queue;
        pes_queue = pes_queue;
        opt_capacity = reserve s.opt_capacity (length opt_queue);
        pes_capacity = reserve s.pes_capacity (length pes_queue);
      }

  unfoldable pub handle_own_payload : Payload → M (Unit {0})
  unfolding digest
  handle_own_payload p = do
    s ← get
    guard (ltb (length s.opt_queue) s.parameters.queue_capacity) mempool_full
    process_own_payload (digest p) p
    modify (enqueue (digest p))

  signed : Error.Outcome (Unit {0}) → MempoolResult (Unit {0})
  signed (Error.ok u) = ok u
  signed _ = err invalid_signature

  unfoldable pub handle_others_payload : Payload → M (Unit {0})
  unfolding digest signed
  handle_others_payload p = do
    s ← get
    guard (Config.exists s.committee p.author) (unknown_authority p.author)
    guard (leb (payload_size p) s.parameters.max_payload_size) payload_too_big
    lift (signed (Crypto.verify crypto p.signature (digest p) p.author))
    modify (store_payload (digest p) p)
    modify (enqueue (digest p))

  -- `bincode::deserialize` of what is stored, as a payload.
  unfoldable pub deserialized : Entry → MempoolResult Payload
  deserialized (payload_entry p) = ok p
  deserialized (block_entry b) = elim (payload_in b) [
    | none ↦ err serialization_error
    | some p ↦ ok p
  ]

  unfoldable pub handle_request : List Digest → PublicKey → M (Unit {0})
  unfolding deserialized
  handle_request [] requestor = done
  handle_request (d ∷ digests) requestor =
      let rest = handle_request digests requestor in
      do
        s ← get
        elim (lookup d s.store) [
          | none ↦ done
          | some e ↦ do p ← lift (deserialized e); transmit (payload p) (some requestor)
        ]
        rest

  -- A payload made on request, which is stored and sent but not put in a queue.
  unfoldable pub make_own : M (List Digest)
  unfolding digest
  make_own = do
    s ← get
    let (runner, made) = make_payload crypto s.payload_maker
    modify (λ s. record s { payload_maker = runner })
    elim (answered made) [
      | none ↦ pure []
      | some p ↦ do process_own_payload (digest p) p; pure (digest p ∷ [])
    ]

  unfoldable pub get_payload : (max tag : ℕ) → M (List Digest)
  unfolding make_own
  get_payload max tag = do
    s ← get
    let from_opt : List Digest = take (max / 32) (iter s.opt_queue)
    let from_pes : List Digest = take (max / 32) (iter s.pes_queue)
    if nat_eqb tag opt && is_empty s.opt_queue || nat_eqb tag pes && is_empty s.pes_queue
        then make_own
        else if nat_eqb tag opt
        then (do
          modify (λ s. record s { opt_queue = discard_all from_opt s.opt_queue })
          pure from_opt)
        else (do
          modify (λ s. record s { pes_queue = discard_all from_pes s.pes_queue })
          pure from_pes)

  -- The digests of a block that are not stored.
  unfoldable pub missing_of : List Digest → Map Digest Entry → List Digest
  missing_of [] store = []
  missing_of (d ∷ digests) store =
      let rest = missing_of digests store in if contains_key d store then rest else add d rest

  -- Synchronizer::verify_payload
  unfoldable pub verify_payload : Block → (tag : ℕ) → M Bool
  unfolding missing_of
  verify_payload block tag = do
    s ← get
    let missing : List Digest = missing_of block.payload s.store
    if is_empty missing then pure true else (do
      modify (λ s. record s { synchronizer = s.synchronizer ++ sync missing block tag ∷ [] })
      pure false)

  -- Core::cleanup and Synchronizer::cleanup
  unfoldable pub clean_up : List Digest → (round : ℕ) → M (Unit {0})
  clean_up digests round = modify (λ s. record s {
    synchronizer = s.synchronizer ++ clean round ∷ [];
    opt_queue = discard_all digests s.opt_queue;
    pes_queue = discard_all digests s.pes_queue;
  })
