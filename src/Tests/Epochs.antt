-- ===== src/Tests/Epochs.antt =====
-- An example about the start of an epoch, after the first block of the one before.
use gnosis.Prelude.{◌≡◌, refl}
use gnosis.Core.Epochs.Fresh.{taken_over, epoch_init-run}
use gnosis.Core.Loop.{run}
use gnosis.Core.Round.{epoch_init, new_core, update_smvba_state, update_prepare_state}
use gnosis.Core.State.{Core}
use gnosis.Tests.Toy.{env, node, proposals}

abbrev later : Core
later = run env 5 proposals node

node-length : node.fallback_length ≡ node.parameters.fallback_length
unfolding new_core update_smvba_state update_prepare_state
node-length = refl

epoch_init-run_example :
    epoch_init 1 later
    ≡ taken_over 1 later
        (new_core node.name node.committee node.parameters later.store node.opt_path node.pes_path)
epoch_init-run_example = epoch_init-run env 5 1 proposals node node-length
