-- ===== src/Udp/Flush.antt =====
-- src/udp_proxy.c, `udp_tproxy_flush_client_sends`: the replies of a batch are given to one call of
-- `sendmmsg` for each socket. A message is the number of its slot in `batch_sends`; `entry_of` is
-- the address in `source_entry` of the slot.
pub mod Arrange
pub mod Gather
pub mod Groups
mod Tests
use tproxy2ss.Base.{
  ℕ, zero, suc, ◌+◌, ◌-◌, Bool, true, false, Option, none, some, List, [], ◌∷◌, ◌++◌, get_or, set,
  take, drop, ltb, ◌==◌, if◌then◌else◌,
}

-- `indices[k] = k` for the numbers from `i` on
unfoldable pub slots_from : ℕ → ℕ → List ℕ
slots_from zero i = []
slots_from (suc n) i = i ∷ slots_from n (i + 1)

-- A call of `sendmmsg`: the entry, the messages that it is given, and its answer
abbrev pub Call : Type 0
Call = ℕ × List ℕ × Option ℕ

-- What of the group went out, and what was dropped
unfoldable pub sent_of : List ℕ → Option ℕ → List ℕ
sent_of group none = []
sent_of group (some sent) = take sent group

unfoldable pub dropped_of : List ℕ → Option ℕ → List ℕ
dropped_of group none = group
dropped_of group (some sent) = drop sent group

unfoldable pub swap : List ℕ → ℕ → ℕ → List ℕ
swap indices i j = set (set indices i (get_or indices j 0)) j (get_or indices i 0)

module _ (entry_of : ℕ → ℕ) where
  -- The loop over `j`, by the rounds that are left: the indices and `group_count`
  unfoldable pub gather : ℕ → ℕ → ℕ → ℕ → ℕ → List ℕ → List ℕ × ℕ
  gather zero entry i j group_count indices = (indices, group_count)
  gather (suc left) entry i j group_count indices =
      if entry_of (get_or indices j 0) == entry
      then gather left entry i (j + 1) (group_count + 1)
          (if j == i + group_count then indices else swap indices (i + group_count) j)
      else gather left entry i (j + 1) group_count indices

  module _ (answers : ℕ → Option ℕ) where
    -- The loop over `i`. `answers i` is what `sendmmsg` answers to the group that begins at `i`, after
    -- those that EINTR ended: the number of messages that it sent, or `none` for any other error. It
    -- is logged, and changes nothing of the loop: what was not sent is dropped.
    unfoldable pub flush_from : ℕ → ℕ → ℕ → List ℕ → List Call
    flush_from zero i send_count indices = []
    flush_from (suc fuel) i send_count indices =
        let entry = entry_of (get_or indices i 0) in
        let r = gather (send_count - i) entry i i 0 indices in
        let rest = flush_from fuel (i + r.1) send_count r.0 in
        if ltb i send_count then (entry, take r.1 (drop i r.0), answers i) ∷ rest else []

    -- Each round of the loop over `i` takes a message, so `send_count` rounds are enough.
    unfoldable pub flush_client_sends : ℕ → List Call
    flush_client_sends send_count = flush_from send_count 0 send_count (slots_from send_count 0)
