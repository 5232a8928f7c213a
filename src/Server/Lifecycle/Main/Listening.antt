-- ===== src/Server/Lifecycle/Main/Listening.antt =====
-- C/source/production/server.c, `main`: what holds when the threads are started.
use edaf55_project.Base.{
  List, [], ◌∷◌, Bool, true, false, ℤ, pos, is_nonzero, ◌≡◌, if-cases, if-absurd, is_nonzero-pos,
  is_nonzero-negsuc, ◌∙◌, arith,
}
use edaf55_project.Os.{
  Os, Call, Gave, here, there, made, fails, SetsErrno, call, bind, listen, port_of, pthread_create,
  bg_task, main_task,
}
use edaf55_project.Server.{GlobalState}
use edaf55_project.Server.Lifecycle.{
  init_global_state, create_socket, bind_and_listen, create_threads,
}
use edaf55_project.Server.Lifecycle.Main.{start, run_threads, close_listenfd, join_bg_thread}

-- The call starts a thread.
unfoldable pub starts_thread : Call → Bool
starts_thread (pthread_create t) = true
starts_thread _ = false

-- The descriptor is bound to the port, and listens.
abbrev pub Listens : Os → ℤ → ℤ → List Call → Type 0
Listens os fd port log =
    Gave os (bind fd (port_of port)) (pos 0) log × Gave os (listen fd 10) (pos 0) log

-- `bind_and_listen` gives 0 only if the descriptor listens then.
bind_and_listen-Listens :
    (os : Os)
    → SetsErrno os
    → (fd port : ℤ) (log : List Call) → is_nonzero (bind_and_listen os fd port log).0 ≡ false
    → Listens os fd port (bind_and_listen os fd port log).1
unfolding bind_and_listen call fails
bind_and_listen-Listens os lawful fd port log =
    if-cases P (is_nonzero (os.result log b))
      (λ bad ok. elim (is_nonzero-negsuc _ (lawful.on_failure log b bad) ok) [ ])
      (λ good.
        if-cases P (is_nonzero (os.result (b ∷ log) l))
          (λ bad ok. elim (is_nonzero-negsuc _ (lawful.on_failure (b ∷ log) l bad) ok) [ ])
          (λ fine ok. (there (here (is_nonzero-pos _ good)), here (is_nonzero-pos _ fine))))
  where
    b : Call
    b = bind fd (port_of port)

    l : Call
    l = listen fd 10

    P : ℤ × List Call → Type 0
    P p = is_nonzero p.0 ≡ false → Listens os fd port p.1

made-bind_and_listen :
    (os : Os) (fd port : ℤ) (log : List Call)
    → made starts_thread (bind_and_listen os fd port log).1 ≡ made starts_thread log
unfolding bind_and_listen call made starts_thread
made-bind_and_listen os fd port log = ground arith

made-create_socket :
    (os : Os) (state : GlobalState) → made starts_thread (create_socket os state []).2 ≡ false
unfolding create_socket call made starts_thread
made-create_socket os state = ground arith

-- What a call gave stays in the log.
Gave-bind_and_listen :
    (os : Os) (c : Call) (r : ℤ) (fd port : ℤ) (log : List Call)
    → Gave os c r log
    → Gave os c r (bind_and_listen os fd port log).1
unfolding bind_and_listen call
Gave-bind_and_listen os c r fd port log g =
    if-cases P (is_nonzero (os.result log b)) (λ _. there g)
      (λ _.
        if-cases P (is_nonzero (os.result (b ∷ log) (listen fd 10))) (λ _. there (there g))
          (λ _. there (there g)))
  where
    b : Call
    b = bind fd (port_of port)

    P : ℤ × List Call → Type 0
    P p = Gave os c r p.1

Gave-create_threads :
    (os : Os) (c : Call) (r : ℤ) (state : GlobalState) (log : List Call)
    → Gave os c r log
    → Gave os c r (create_threads os state log).2
unfolding create_threads call
Gave-create_threads os c r state log g =
    if-cases P (is_nonzero (os.result log b)) (λ _. there g)
      (λ _.
        if-cases P (is_nonzero (os.result (b ∷ log) (pthread_create main_task)))
          (λ _. there (there g)) (λ _. there (there g)))
  where
    b : Call
    b = pthread_create bg_task

    P : ℤ × GlobalState × List Call → Type 0
    P p = Gave os c r p.2

Gave-run_threads :
    (os : Os) (c : Call) (r : ℤ) (state : GlobalState) (log : List Call)
    → Gave os c r log
    → Gave os c r (run_threads os state log).2
unfolding run_threads close_listenfd join_bg_thread call
Gave-run_threads os c r state log g =
    if-cases {A = ℤ × GlobalState × List Call} (λ p. Gave os c r p.2)
      (is_nonzero (create_threads os state log).0) (λ _. there h)
      (λ _. there (there (there (there h))))
  where
    h : Gave os c r (create_threads os state log).2
    h = Gave-create_threads os c r state log g

-- If `main` starts a thread, then the picture socket is bound to the first port and the mode socket
-- to the second one, and both listen; given that failed calls set `errno`.
pub start-Listens :
    (os : Os)
    → SetsErrno os
    → (port1 port2 : ℤ) (fresh : GlobalState)
    → made starts_thread (start os port1 port2 fresh).2 ≡ true
    → Listens os
        (create_socket os (init_global_state fresh) []).1.listenfd
        port1
        (start os port1 port2 fresh).2
      × Listens os
          (create_socket os (init_global_state fresh) []).1.modefd
          port2
          (start os port1 port2 fresh).2
unfolding start close_listenfd made starts_thread call
start-Listens os lawful port1 port2 fresh =
    if-cases P (is_nonzero made_sockets.0) (λ _ p. if-absurd _ p none_made)
      (λ _.
        if-cases P (is_nonzero l.0) (λ _ p. if-absurd _ p none_made_l)
          (λ good.
            if-cases P (is_nonzero m.0)
              (λ _ p. if-absurd _ p (made-bind_and_listen os _ port2 _ ∙ none_made_l))
              (λ fine p. (
                (both (first good).0, both (first good).1),
                (keep (second fine).0, keep (second fine).1),
              ))))
  where
    made_sockets : ℤ × GlobalState × List Call
    made_sockets = create_socket os (init_global_state fresh) []

    l : ℤ × List Call
    l = bind_and_listen os made_sockets.1.listenfd port1 made_sockets.2

    m : ℤ × List Call
    m = bind_and_listen os made_sockets.1.modefd port2 l.1

    P : ℤ × GlobalState × List Call → Type 0
    P p =
        made starts_thread p.2 ≡ true
        → Listens os made_sockets.1.listenfd port1 p.2 × Listens os made_sockets.1.modefd port2 p.2

    none_made : made starts_thread made_sockets.2 ≡ false
    none_made = made-create_socket os (init_global_state fresh)

    none_made_l : made starts_thread l.1 ≡ false
    none_made_l = made-bind_and_listen os _ port1 _ ∙ none_made

    first : is_nonzero l.0 ≡ false → Listens os made_sockets.1.listenfd port1 l.1
    first = bind_and_listen-Listens os lawful _ port1 _

    second : is_nonzero m.0 ≡ false → Listens os made_sockets.1.modefd port2 m.1
    second = bind_and_listen-Listens os lawful _ port2 _

    keep :
        {c : Call}
        → Gave os c (pos 0) m.1
        → Gave os c (pos 0) (run_threads os (record (made_sockets.1) { running = true }) m.1).2
    keep g = Gave-run_threads os _ (pos 0) _ _ g

    both :
        {c : Call}
        → Gave os c (pos 0) l.1
        → Gave os c (pos 0) (run_threads os (record (made_sockets.1) { running = true }) m.1).2
    both g = keep (Gave-bind_and_listen os _ (pos 0) _ port2 _ g)
