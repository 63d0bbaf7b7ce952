-- ===== src/Examples/Sweeping.antt =====
-- The sweeps on the leased row, when its lease has run out.
use cyberwithsteve_acop.State.Sound.{IsSound}
use cyberwithsteve_acop.Reaper.{reap_one, reap_expired_leases}
use cyberwithsteve_acop.Reaper.Outcome.{closed_state, closing_set, Reaped, reap_one_outcome}
use cyberwithsteve_acop.Reaper.Sweeps.{reap_expired_leases-IsSound}
use cyberwithsteve_acop.Examples.{leased, leased_tables}
use cyberwithsteve_acop.Examples.Histories.{leased-HasHistory, leased-AllChecked}

reap_one_outcome_example :
    Reaped leased
      (closed_state leased)
      (closing_set leased 1000)
      leased_tables
      (reap_one leased 1000 leased_tables)
reap_one_outcome_example = reap_one_outcome leased 1000 leased_tables

leased-IsSound : IsSound leased_tables
leased-IsSound = record { has_history = leased-HasHistory; all_checked = leased-AllChecked }

reap_expired_leases-IsSound_example : IsSound (reap_expired_leases 1000 50 leased_tables).1
reap_expired_leases-IsSound_example =
    reap_expired_leases-IsSound 1000 50 leased_tables leased-IsSound
