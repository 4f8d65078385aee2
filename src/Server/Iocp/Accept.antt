-- ===== src/Server/Iocp/Accept.antt =====
-- What handling an accept leads to.
use amsserver.Io.World.{
  Answers, World, update, new_handle, load, store, new_socket_handle, store_handle, get_new_io_data,
  load_handle, start_operation, remove_io_data,
}
use amsserver.Io.Buffer.{recv_posted, accept_posted, PerIoData, prepare, new_io}
use amsserver.Base.{◌∷◌, none, some, true, false, suc, done, ℕ, ◌≡◌, ◌≢◌, ◌<◌, arith, refl, Returns}
use amsserver.Server.Iocp.{do_accept_ex, post_recv, post_accept_ex}

-- A new connection has its handle and a pending receive, and a new accept stands in for the one
-- that was handled, whose io is released.
pub record Accepted (a : Answers) (p s : ℕ) (d : PerIoData) (w v : World) : Type 0 where
  pub connection :
      v.handles w.next_handle ≡ some (record { ssocket = d.acceptsocket; ssocketaddr = a.remote })
  pub operations :
      v.pending
      ≡ record { key = w.listenhandle; io = suc w.next_io; kind = accept_posted }
        ∷ record { key = w.next_handle; io = w.next_io; kind = recv_posted }
        ∷ w.pending
  pub receive_io : v.ios w.next_io ≡ some (prepare recv_posted new_io)
  pub accept_io :
      v.ios (suc w.next_io) ≡ some (prepare accept_posted (record new_io { acceptsocket = some s }))
  pub released : v.ios p ≡ none
  pub unlocked : v.heap_locked ≡ false
  pub kept : (q : ℕ) → q ≢ p → q < w.next_io → v.ios q ≡ w.ios q

abbrev after_accept : Answers → ℕ → ℕ → PerIoData → World → World
after_accept a p s d w = record w {
  handles =
      update (update w.handles w.next_handle (some new_handle)) w.next_handle
        (some (record { ssocket = d.acceptsocket; ssocketaddr = a.remote }));
  next_handle = suc w.next_handle;
  heap_locked = false;
  pending =
      record { key = w.listenhandle; io = suc w.next_io; kind = accept_posted }
      ∷ record { key = w.next_handle; io = w.next_io; kind = recv_posted }
      ∷ w.pending;
  next_io = suc (suc w.next_io);
  ios =
      update
        (update
          (update
            (update
              (update (update w.ios w.next_io (some new_io)) w.next_io
                (some (prepare recv_posted new_io)))
              p none)
            (suc w.next_io) (some new_io))
          (suc w.next_io) (some (record new_io { acceptsocket = some s })))
        (suc w.next_io) (some (prepare accept_posted (record new_io { acceptsocket = some s })));
}

module _ (a : Answers) (w : World) (p s : ℕ) (d : PerIoData) (hp : p ≢ 0) (older : p < w.next_io)
    (hh : w.next_handle ≢ 0) (live : w.ios p ≡ some d) (associated : a.associate ≡ true)
    (receives : a.wsa_recv ≡ true) (accepts : a.accept_ex ≡ true)
    (socket : a.wsa_socket ≡ some s) where
  do_accept_ex-after : do_accept_ex a p w ≡ done (true, after_accept a p s d w)
  unfolding do_accept_ex load store new_socket_handle store_handle get_new_io_data post_recv
      load_handle start_operation remove_io_data post_accept_ex
  do_accept_ex-after = ground arith

  after-Accepted : Accepted a p s d w (after_accept a p s d w)
  after-Accepted = record {
    connection = ground arith;
    operations = refl;
    receive_io = ground arith;
    accept_io = ground arith;
    released = ground arith;
    unlocked = refl;
    kept = λ q n l. ground arith;
  }

  -- Where the system grants each call, the handler of an accept returns TRUE: the connection has
  -- the accepted socket and a pending receive in a clean io, one new accept is pending, and of the
  -- older ios only that of the handled accept is released.
  pub do_accept_ex-Accepted :
      Returns (do_accept_ex a p w) (λ (r, v). (r ≡ true) × Accepted a p s d w v)
  do_accept_ex-Accepted = rw do_accept_ex-after (refl, after-Accepted)
