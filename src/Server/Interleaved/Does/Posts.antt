-- ===== src/Server/Interleaved/Does/Posts.antt =====
-- The steps of a post for a connection, taken by one thread that is not interrupted, against `PostAcceptEx`
-- of Server/Iocp.
use amsserver.Server.Interleaved.Does.{Does, Does-if, Does-call, Does-gives, Does-bind}
use amsserver.Io.Buffer.{accept_posted, PerIoData, prepare, reset_io_buf}
use amsserver.Base.{ℕ, ◌==◌, none, some, inl, inr, Bool-cases, Option}
use amsserver.Server.Interleaved.Steps.{
  Steps, gives, breaks, waits, calls, call, pure, wait_mutex, run, locked, goes,
}
use amsserver.Server.Interleaved.Steps
use amsserver.Server.Interleaved.Handlers.{
  start_accept, accept_or_close_steps, post_accept_ex_steps,
}
use amsserver.Server.Iocp.{accept_or_close, post_accept_ex, close_socket}
use amsserver.Io.World.{M, give, ◌>>=◌, ◌>>◌, Answers, load, store}

module _ (a : Answers) where
  abbrev closed_socket : ℕ → M (Unit {0})
  closed_socket p =
      close_socket a.wsa_socket >> (load p >>= λ d. store p (record d { acceptsocket = none }))

  Does-closed :
      (p : ℕ)
      → Does
          (Steps.◌>>◌
            (call (close_socket a.wsa_socket))
            (Steps.◌>>=◌ (call (load p)) λ d. call (store p (record d { acceptsocket = none }))))
          (closed_socket p)
  Does-closed p = Does-bind _ _ _ _ (Does-call (close_socket a.wsa_socket)) λ x.
      Does-bind _ _ _ _ (Does-call (load p))
        λ d. Does-call (store p (record d { acceptsocket = none }))

  Does-accept_or_close : (p : ℕ) → Does (accept_or_close_steps a p) (accept_or_close a p)
  unfolding accept_or_close_steps accept_or_close
  Does-accept_or_close p w = elim (Bool-cases a.accept_ex) [
    | inl e ↦ rw e (Does-call (start_accept p) w)
    | inr e ↦ rw e (Does-closed p w)
  ]

  pub Does-post_accept_ex : (p : ℕ) → Does (post_accept_ex_steps a p) (post_accept_ex a p)
  unfolding post_accept_ex_steps post_accept_ex
  Does-post_accept_ex p = Does-if (p == 0) _ _ _ _ (Does-gives tt) (
      Does-bind _ _ _ _ (Does-call (load p)) λ d.
        Does-bind _ _ _ _ (Does-call (store p (record d { acceptsocket = a.wsa_socket })))
          λ x. opened d a.wsa_socket)
    where
      opened :
          (d : PerIoData) (o : Option ℕ)
          → Does
              (elim o as (λ _. Steps (Unit {0})) [
                | none ↦ gives tt
                | some s ↦
                    Steps.◌>>◌
                      (call (
                        store p (
                          prepare accept_posted
                            (reset_io_buf (record d { acceptsocket = some s })))))
                      (accept_or_close_steps a p)
              ])
              (elim o as (λ _. M (Unit {0})) [
                | none ↦ give tt
                | some s ↦
                    store p
                      (prepare accept_posted (reset_io_buf (record d { acceptsocket = some s })))
                    >> accept_or_close a p
              ])
      opened d none = Does-gives tt
      opened d (some s) =
          Does-bind _ _ _ _
            (Does-call
              (store p (prepare accept_posted (reset_io_buf (record d { acceptsocket = some s })))))
            λ x. Does-accept_or_close p
