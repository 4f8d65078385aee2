-- ===== src/Server/System/Starts.antt =====
-- `Start` on a world that keeps the invariant.
use amsserver.Base.{
  refl, ◌∷◌, none, some, true, false, zero, suc, Option, ℕ, not, ◌&&◌, ◌≢◌, Bool, arith,
}
use amsserver.Server.System.Owned.{AreBacked-handles, with_new_io}
use amsserver.Server.System.Posts.{post_accept_ex-Safe}
use amsserver.Server.System.Safe.{Safe, Safe-bind, Safe-if, Safe-load_handle}
use amsserver.Server.System.Sound.{Sound, Since-new, some_of_ne, Since-other}
use amsserver.Server.Iocp.{close_socket, post_accept_ex}
use amsserver.Server.Lifecycle.{
  StartAnswers, IocpServer, initialize_iocp, prepare_listen, initialize_socket,
  get_accept_ex_fuction, post_accepts, start_listen, start_server, max_post_accept,
}
use amsserver.Io.World.{
  World, Answers, SocketHandle, update, store_handle, get_new_io_data, give, M,
}

close_socket-Safe : (o : Option ℕ) (w : World) → Sound w → Safe Sound (close_socket o w)
unfolding close_socket
close_socket-Safe none w s = s
close_socket-Safe (some l) w s =
    (Since-other w (record w { closed = l ∷ w.closed }) refl refl refl refl refl refl 0 s).sound

-- The listening handle is stored.
store_handle-Safe :
    (h : SocketHandle) (w : World) → Sound w → Safe Sound (store_handle w.listenhandle h w)
unfolding store_handle
store_handle-Safe h w s =
    let (g, f) = some_of_ne (w.handles w.listenhandle) s.listener_there in
    rw (f, Safe)
      (record {
        next_io_given = s.next_io_given;
        next_handle_given = s.next_handle_given;
        listener_given = s.listener_given;
        listener_there = stay w.listenhandle s.listener_there;
        backed = AreBacked-handles w (stored h w) w.pending refl refl stay s.backed;
        apart = s.apart;
      })
  where
    stored : SocketHandle → World → World
    stored h w = record w { handles = update w.handles w.listenhandle (some h) }

    stay : (k : ℕ) → w.handles k ≢ none → update w.handles w.listenhandle (some h) k ≢ none
    stay k n = ground (arith, n)

-- `Start` keeps what posting an accept and the calls on the listening socket keep.
module _ (P : World → Type 0)
    (closes : (o : Option ℕ) (w : World) → P w → Safe P (close_socket o w))
    (stores : (h : SocketHandle) (w : World) → P w → Safe P (store_handle w.listenhandle h w))
    (there : (w : World) → P w → w.handles w.listenhandle ≢ none)
    (posts : (a : Answers) (w : World)
      → P w
      → Safe P (post_accept_ex a w.next_io (with_new_io w))) where
  prepare_listen-Safe :
      (a : StartAnswers) (o : Option ℕ) (w : World) → P w → Safe P (prepare_listen a o w)
  unfolding prepare_listen
  prepare_listen-Safe a o w s = Safe-if P (not a.associate_listen) (give false) _ w s (
      Safe-if P (a.set_reuse_addr && (a.bind_port && a.listen_started)) (give true) _ w s
        (Safe-bind P P (close_socket o) _ w (closes o w s) (λ x v t. t)))

  initialize_socket-Safe : (a : StartAnswers) (w : World) → P w → Safe P (initialize_socket a w)
  unfolding initialize_socket
  initialize_socket-Safe a w s =
      let (h, f) = some_of_ne (w.handles w.listenhandle) (there w s) in
      Safe-load_handle P w.listenhandle _ w h f (
        Safe-bind P P (store_handle w.listenhandle (record h { ssocket = a.listen_socket })) _ w
          (stores (record h { ssocket = a.listen_socket }) w s)
          (λ x v t. opened a.listen_socket v t))
    where
      opened :
          (o : Option ℕ) (v : World)
          → P v
          → Safe P
              (elim o as (λ _. M Bool) [ none ↦ give false | some l ↦ prepare_listen a (some l) ] v)
      opened none v t = t
      opened (some l) v t = prepare_listen-Safe a (some l) v t

  post_accepts-Safe :
      (answers : ℕ → Answers) (n : ℕ) (w : World) → P w → Safe P (post_accepts answers n w)
  unfolding post_accepts get_new_io_data
  post_accepts-Safe answers zero w s = s
  post_accepts-Safe answers (suc n) w s =
      Safe-bind P P (post_accept_ex (answers n) w.next_io) _ (with_new_io w) (posts (answers n) w s)
        (λ _ v t. post_accepts-Safe answers n v t)

  start_listen-Safe :
      (a : StartAnswers) (s : IocpServer) (w : World) → P w → Safe P (start_listen a s w)
  unfolding start_listen
  start_listen-Safe a s w h =
      Safe-bind P P (initialize_socket a) _ w (initialize_socket-Safe a w h) λ i v t.
        Safe-if P (not i) (give (s, false)) _ v t (
          let (g, f) = some_of_ne (v.handles v.listenhandle) (there v t) in
          Safe-load_handle P v.listenhandle _ v g f (
            Safe-if P (not (get_accept_ex_fuction a s g.ssocket).1)
              (give ((get_accept_ex_fuction a s g.ssocket).0, false)) _ v t
              (Safe-bind P P (post_accepts a.accepts max_post_accept) _ v
                (post_accepts-Safe a.accepts max_post_accept v t) (λ x u k. k))))

  pub start_server-keeps :
      (a : StartAnswers) (s : IocpServer) (w : World) → P w → Safe P (start_server a s w)
  unfolding start_server
  start_server-keeps a s w h =
      Safe-if P (not (initialize_iocp a s).1) (give ((initialize_iocp a s).0, false)) _ w h
        (start_listen-Safe a (initialize_iocp a s).0 w h)

-- `Start` on a world with the invariant accesses no released object and keeps the invariant, whichever
-- calls the system refuses, those of the accepts included.
pub start_server-Safe :
    (a : StartAnswers) (s : IocpServer) (w : World) → Sound w → Safe Sound (start_server a s w)
start_server-Safe =
    start_server-keeps Sound close_socket-Safe store_handle-Safe (λ w s. s.listener_there)
      λ a w s.
        let (x, h) = Since-new w s in post_accept_ex-Safe a w.next_io (with_new_io w) x.sound h
