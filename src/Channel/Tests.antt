-- ===== src/Channel/Tests.antt =====
-- A channel that is watched, and the same channel removed.
use reactor_server.Base.{ℕ, ◌≡◌, ◌≢◌, refl, ok, fault, exits}
use reactor_server.Channel.Sync.{
  write_on, change, wanted, IsWatched, change-IsWatched, change-stale,
}
use reactor_server.Epoll.Table.{Table, table, table_laws, empty_table}
use reactor_server.Samples.{channel_7, watching_7, IsWatched-channel_7}

change-IsWatched_example :
    (s' : Table) × (change table write_on (channel_7 1) (watching_7 1)
      ≡ ok (wanted write_on (channel_7 1), s'))
    × IsWatched table table_laws (wanted write_on (channel_7 1)) s'
    × ((j : ℕ) → j ≢ 7 → s'.list j ≡ (watching_7 1).list j)
change-IsWatched_example =
    change-IsWatched table table_laws write_on (channel_7 1) (watching_7 1) (IsWatched-channel_7 1)

change-stale_example : change table write_on (channel_7 0) empty_table ≡ fault exits
change-stale_example =
    change-stale table table_laws write_on (channel_7 0) empty_table
      (record { flagged = refl; unlisted = refl })
