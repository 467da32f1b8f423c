-- ===== src/Network/Peers/Examples.antt =====
-- The theorems on scores at concrete peers.
use blq_node.Base.{arith, []}
use blq_node.Base.Int.{pos}
use blq_node.Network.Peers.{observe_valid, penalize, get}
use blq_node.Network.Peers.Bans.{IsSound, started, stepped, observed, penalized, Reachable-IsSound}
use blq_node.Samples.{target}

Reachable-IsSound_example :
    IsSound (get target (penalize (pos 250) 5 5 target (observe_valid target [])))
Reachable-IsSound_example =
    Reachable-IsSound
      (stepped (stepped started (observed target)) (penalized (pos 250) 5 5 target (omega arith)))
      target
