-- ===== src/Udp/Collect.antt =====
-- src/udp_proxy.c: the sweeps of the garbage collection, with the sessions that they close. The test
-- `now - last_active >= timeout` on doubles is an argument.
pub mod Linked
mod Tests
use tproxy2ss.Base.{ℕ, ◌+◌, Bool, Option, none, some, List, [], ◌∷◌, if◌then◌else◌}
use tproxy2ss.Lru.Defs.{Clock, Entry}
use tproxy2ss.Udp.Replies.{UdpTable}
use tproxy2ss.Udp.Session.{Sessions, close_indexed}

module _ {K T Table : Type 0} (clock : Clock T) (table : UdpTable K T Table) (maxsize : ℕ) (now : T)
    (is_idle : T → Bool) where
  -- The loop over the nodes that the table had: the sessions left, and `evicted`
  unfoldable pub sweep_sessions_from :
      List (Entry K T) → Sessions Table → ℕ → Option (Sessions Table × ℕ)
  sweep_sessions_from [] st evicted = some (st, evicted)
  sweep_sessions_from (cur ∷ l) st evicted =
      if is_idle cur.last_active
      then elim (close_indexed clock table maxsize now cur st) [
        | none ↦ none
        | some st' ↦ sweep_sessions_from l st' (evicted + 1)
      ]
      else sweep_sessions_from l st evicted

  -- `udp_gc_sweep_fullcone_sessions` and `udp_gc_sweep_symmetric_sessions`
  unfoldable pub sweep_sessions : Sessions Table → Option (Sessions Table × ℕ)
  sweep_sessions st = sweep_sessions_from (table.hash.entries st.nodes) st 0
