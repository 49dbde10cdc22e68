-- ===== src/Udp/Flush/Tests.antt =====
-- The theorem on `udp_tproxy_flush_client_sends` of src/udp_proxy.c at four replies from two entries.
use mathlib.Core.List.{Perm}
use tproxy2ss.Base.{ℕ, ◌≡◌, refl, Option, none, some, [], ◌∷◌, ◌++◌, get_or, ◌==◌, if◌then◌else◌}
use tproxy2ss.Udp.Flush.{sent_of, slots_from, swap, gather, flush_from, flush_client_sends}
use tproxy2ss.Udp.Flush.Groups.{given_to, sent_by, dropped_by, AreGroups, flush_client_sends-groups}

abbrev entry_at : ℕ → ℕ
entry_at k = get_or (5 ∷ 7 ∷ 7 ∷ 5 ∷ []) k 0

-- The first call sends one message of two, the second fails.
abbrev answers : ℕ → Option ℕ
answers i = if i == 0 then some 1 else none

-- The second reply of the second entry is given in front of its first.
flushed :
    flush_client_sends entry_at answers 4 ≡ (5, 0 ∷ 3 ∷ [], some 1) ∷ (7, 2 ∷ 1 ∷ [], none) ∷ []
unfolding flush_client_sends flush_from gather swap slots_from
flushed = refl

one_sent : sent_by (flush_client_sends entry_at answers 4) ≡ 0 ∷ []
unfolding flush_client_sends flush_from gather swap slots_from sent_by sent_of
one_sent = refl

flush_client_sends-groups_example :
    let calls = flush_client_sends entry_at answers 4 in
    Perm (given_to calls) (slots_from 4 0)
    × AreGroups entry_at calls
    × Perm (sent_by calls ++ dropped_by calls) (slots_from 4 0)
flush_client_sends-groups_example = flush_client_sends-groups entry_at answers 4
