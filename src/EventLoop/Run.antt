-- ===== src/EventLoop/Run.antt =====
-- The methods of `EventLoop` that run callbacks: tasks, timer, and the loop itself.
use reactor_server.Base.{
  ℕ, List, [], ◌∷◌, ◌==◌, if◌then◌else◌, Outcome, ok, fault, undefined, out_of_fuel, ◌>>=◌, erase,
}
use reactor_server.Channel.State.{setrevents, handleevent, no_callbacks, setreadcallback}
use reactor_server.Connection.Defs.{Handlers, Answers, sendinloop, timeout, handle}
use reactor_server.Epoll.Defs.{Wait, loop}
use reactor_server.Epoll.Kernel.{Kernel}
use reactor_server.World.{Task, World, Call, invoke, put_conn, put_loop}

module _ {k : Kernel} {S : Type 0} where
  -- `while(taskqueue_.size() > 0)`, with the queue that is left. The mutex is held all the time, so no
  -- other thread adds a task.
  unfoldable pub run_tasks : List Task → ℕ → World k S → Outcome (World k S)
  run_tasks [] l w = ok w
  run_tasks (fn ∷ q) l w = do
    w' ← sendinloop fn.target fn.block fn.size (put_loop l (record (w.loops l) { taskqueue = q }) w)
    run_tasks q l w'

  unfoldable pub handlewakeup : ℕ → World k S → Outcome (World k S)
  unfolding run_tasks
  handlewakeup l w =
      run_tasks (w.loops l).taskqueue l
        (put_loop l (record (w.loops l) { kernel = k.read_event (w.loops l).kernel }) w)

  -- `for(auto aa:conns_)`; `cb` is TcpServer::removeconn. An entry that is erased takes the loop's
  -- iterator with it, so that the step to the next entry has no meaning.
  unfoldable pub sweep : Call k S → ℕ → List (ℕ × ℕ) → ℕ → World k S → Outcome (World k S)
  sweep cb now [] l w = ok w
  sweep cb now ((fd, p) ∷ rest) l w =
      let others = sweep cb now rest l w in
      if fd == 0
      then others
      else if timeout now (w.loops l).timeout (w.objs p)
      then (do
        w' ← invoke cb fd (put_loop l (record (w.loops l) { conns = erase fd (w.loops l).conns }) w)
        fault undefined)
      else others

  unfoldable pub handletimer : Call k S → ℕ → ℕ → World k S → Outcome (World k S)
  unfolding sweep
  handletimer cb now l w =
      let x = w.loops l in
      let w' = put_loop l (record x { kernel = k.arm_timer x.timetvl x.kernel }) w in
      if x.mainloop then ok w' else sweep cb now x.conns l w'

-- The channels that the epoll of a loop knows.
pub data Source : Type 0 where
  wake timer : Source
  client : ℕ → Source

module _ {k : Kernel} {S : Type 0} where
  -- `ch->setrevents(ev)`
  unfoldable pub put_revents : ℕ → Source → ℕ → World k S → World k S
  unfolding setrevents
  put_revents l wake ev w =
      put_loop l (record (w.loops l) { wakechannel = setrevents (w.loops l).wakechannel ev }) w
  put_revents l timer ev w =
      put_loop l (record (w.loops l) { timerchannel = setrevents (w.loops l).timerchannel ev }) w
  put_revents l (client p) ev w =
      put_conn p (record (w.objs p) { channel = setrevents (w.objs p).channel ev }) w

  module _ (h : Handlers k S) (cb idle : Call k S) where
    -- `ch->handleevent()`, for each kind of channel.
    unfoldable pub handle_source : Answers → ℕ → Source → World k S → Outcome (World k S)
    unfolding handleevent setreadcallback no_callbacks
    handle_source a l wake w =
        handleevent (w.loops l).wakechannel (setreadcallback no_callbacks (handlewakeup l)) w
    handle_source a l timer w =
        handleevent (w.loops l).timerchannel
          (setreadcallback no_callbacks (handletimer cb (a.clock 0) l)) w
    handle_source a l (client p) w = handle h a p w

    unfoldable pub handle_all :
        (Source → Answers) → ℕ → List Source → World k S → Outcome (World k S)
    handle_all a l [] w = ok w
    handle_all a l (src ∷ srcs) w = do w' ← handle_source (a src) l src w; handle_all a l srcs w'

    -- One round of `run`, behind `epoll_wait`.
    unfoldable pub round : (Source → Answers) → ℕ → Wait Source → World k S → Outcome (World k S)
    unfolding loop
    round a l wait w = do
      (w', channels) ← loop (put_revents l) wait w
      elim channels [ [] ↦ invoke idle l w' | src ∷ srcs ↦ handle_all a l (src ∷ srcs) w' ]

    -- A script that ends leaves the thread in `epoll_wait`.
    unfoldable pub rounds :
        ℕ → List ((Source → Answers) × Wait Source) → World k S → Outcome (World k S)
    rounds l [] w = if (w.loops l).stop then ok w else fault out_of_fuel
    rounds l ((a, wait) ∷ rest) w =
        if (w.loops l).stop then ok w else (do w' ← round a l wait w; rounds l rest w')

    unfoldable pub run :
        ℕ → ℕ → List ((Source → Answers) × Wait Source) → World k S → Outcome (World k S)
    unfolding rounds
    run thread l script w =
        rounds l script (put_loop l (record (w.loops l) { threadid = thread }) w)
