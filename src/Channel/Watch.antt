-- ===== src/Channel/Watch.antt =====
-- The methods that change the events a channel is watched for. `loop_` is not null.
use reactor_server.Base.{Outcome, ◌>>=◌}
use reactor_server.Channel.State.{Channel, with_bit, without_bit, epollin, epollout}
use reactor_server.Epoll.Kernel.{Kernel}
use reactor_server.Epoll.Defs.{updatechannel, removechannel}

module _ (k : Kernel) where
  unfoldable pub enablereading : Channel → k.State → Outcome (Channel × k.State)
  enablereading ch = updatechannel k (record ch { events = with_bit ch.events epollin })

  unfoldable pub disablereading : Channel → k.State → Outcome (Channel × k.State)
  disablereading ch = updatechannel k (record ch { events = without_bit ch.events epollin })

  unfoldable pub enablewriting : Channel → k.State → Outcome (Channel × k.State)
  enablewriting ch = updatechannel k (record ch { events = with_bit ch.events epollout })

  unfoldable pub disablewriting : Channel → k.State → Outcome (Channel × k.State)
  disablewriting ch = updatechannel k (record ch { events = without_bit ch.events epollout })

  unfoldable pub disableall : Channel → k.State → Outcome (Channel × k.State)
  disableall ch = updatechannel k (record ch { events = 0 })

  unfoldable pub remove : Channel → k.State → Outcome (Channel × k.State)
  unfolding disableall
  remove ch s = do (ch', s') ← disableall ch s; removechannel k ch' s'
