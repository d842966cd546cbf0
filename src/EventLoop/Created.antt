-- ===== src/EventLoop/Created.antt =====
-- The constructor of a loop.
use reactor_server.Base.{
  ℕ, ◌≡◌, refl, ◌∙◌, Bool, false, Option-cases, ◌⊎◌, inl, inr, [], ok, fault, exits,
}
use reactor_server.Channel.Added.{reading, enablereading-added}
use reactor_server.Channel.Sync.{IsWatched}
use reactor_server.Epoll.Defs as Epoll
use reactor_server.Epoll.Kernel.{Kernel, Laws}
use reactor_server.EventLoop.Defs.{Given, createtimerfd, create_loop}
use reactor_server.World.{Loop}

module _ (k : Kernel) (laws : Laws k) where
  open laws use {armed}

  -- A loop that waits for its first event.
  pub record IsReady (mainloop : Bool) (timetvl timeout : ℕ) (x : Loop k) : Type 0 where
    pub wakes : IsWatched k laws x.wakechannel x.kernel
    pub ticks : IsWatched k laws x.timerchannel x.kernel
    -- its timer goes off after the time-out, and then at the interval
    pub first_tick : armed x.kernel ≡ timeout
    pub interval : x.timetvl ≡ timetvl
    pub kind : x.mainloop ≡ mainloop
    pub idle : x.taskqueue ≡ []
    pub empty : x.conns ≡ []
    pub goes_on : x.stop ≡ false

  -- The constructor ends the process, or the loop is ready.
  pub create_loop-IsReady :
      (mainloop : Bool) (timetvl timeout : ℕ) (given : Given k)
      → (create_loop k mainloop timetvl timeout given ≡ fault exits)
        ⊎ ((x : Loop k) × (create_loop k mainloop timetvl timeout given ≡ ok x)
            × IsReady mainloop timetvl timeout x)
  unfolding create_loop createtimerfd Epoll.create
  create_loop-IsReady mainloop timetvl timeout given = elim (Option-cases given.epoll) [
    | inl failed ↦ inl (rw (create_loop, failed))
    | inr (s, made) ↦ elim (enablereading-added k laws given.wakeupfd (k.arm_timer timeout s)) [
      | inl no_room ↦ inl (rw (create_loop, made, no_room))
      | inr (s₁, woken, wakes, others, same) ↦ elim (enablereading-added k laws given.timerfd s₁) [
        | inl no_room ↦ inl (rw (create_loop, made, woken, no_room))
        | inr (s₂, timed, ticks, others', same') ↦ inr (
          record {
            timetvl = timetvl;
            timeout = timeout;
            kernel = s₂;
            threadid = 0;
            taskqueue = [];
            wakechannel = reading given.wakeupfd;
            timerchannel = reading given.timerfd;
            mainloop = mainloop;
            conns = [];
            stop = false;
          },
          rw (create_loop, made, woken, timed) refl,
          record {
            wakes = others' (reading given.wakeupfd) wakes;
            ticks = ticks;
            first_tick = same' ∙ same ∙ laws.arm_armed timeout s;
            interval = refl;
            kind = refl;
            idle = refl;
            empty = refl;
            goes_on = refl;
          },
        )
      ]
    ]
  ]
