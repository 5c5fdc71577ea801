-- ===== src/Engine/Pipeline/InMemory.antt =====
-- The in-memory store of src/prooflens/engine/hashstore.py keeps the interface's promises.
use prooflens.Engine.HashStore.{Store}
use prooflens.Engine.HashStore.{nearest, remember}
use prooflens.Engine.HashStore.Nearest.{nearest-remember}
use prooflens.Engine.Pipeline.{HashStore}

abbrev pub in_memory : HashStore
in_memory = record {
  Store = Store;
  nearest = nearest;
  remember = remember;
  found_again = λ tenant_id r s. (nearest-remember tenant_id r s).0;
  isolated = λ tenant_id r s other h ne. (nearest-remember tenant_id r s).1 other h ne;
}
