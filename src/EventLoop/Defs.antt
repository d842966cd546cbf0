-- ===== src/EventLoop/Defs.antt =====
-- The methods of `EventLoop` that need no connection: construction, the task queue, the wakeup.
use reactor_server.Base.{
  ℕ, Bool, true, false, Option, [], ◌∷◌, ◌++◌, ◌==◌, Outcome, ok, ◌>>=◌, insert,
}
use reactor_server.Channel.State.{create}
use reactor_server.Channel.Watch.{enablereading}
use reactor_server.Epoll.Defs as Epoll
use reactor_server.Epoll.Kernel.{Kernel}
use reactor_server.World.{Task, Loop}

module _ (k : Kernel) where
  -- What the kernel gives to a new loop: the state of an epoll instance, unless `epoll_create` fails,
  -- and the descriptors of an eventfd and a timerfd.
  pub record Given : Type 0 where
    pub epoll : Option k.State
    pub wakeupfd : ℕ
    pub timerfd : ℕ

  -- `createtimerfd`, less the creation of the timer
  unfoldable pub createtimerfd : ℕ → k.State → k.State
  createtimerfd sec s = k.arm_timer sec s

  -- The constructor.
  unfoldable pub create_loop : Bool → ℕ → ℕ → Given → Outcome (Loop k)
  unfolding create Epoll.create createtimerfd
  create_loop mainloop timetvl timeout given = do
    s ← Epoll.create k given.epoll
    (wake, s₁) ← enablereading k (create given.wakeupfd) (createtimerfd timeout s)
    (timer, s₂) ← enablereading k (create given.timerfd) s₁
    ok (record {
      timetvl = timetvl;
      timeout = timeout;
      kernel = s₂;
      threadid = 0;
      taskqueue = [];
      wakechannel = wake;
      timerchannel = timer;
      mainloop = mainloop;
      conns = [];
      stop = false;
    })

module _ {k : Kernel} where
  -- `thread` is the thread that calls.
  unfoldable pub isinloopthread : ℕ → Loop k → Bool
  isinloopthread thread x = x.threadid == thread

  unfoldable pub wakeup : Loop k → Loop k
  wakeup x = record x { kernel = k.write_event x.kernel }

  unfoldable pub queueinloop : Task → Loop k → Loop k
  unfolding wakeup
  queueinloop fn x = wakeup (record x { taskqueue = x.taskqueue ++ fn ∷ [] })

  unfoldable pub stop : Loop k → Loop k
  unfolding wakeup
  stop x = wakeup (record x { stop = true })

  -- `conns_[conn->fd()] = conn`
  unfoldable pub newconnection : ℕ → ℕ → Loop k → Loop k
  newconnection fd p x = record x { conns = insert fd p x.conns }
