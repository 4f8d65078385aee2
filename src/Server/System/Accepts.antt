-- ===== src/Server/System/Accepts.antt =====
-- Handling an accept.
use mathlib.Core.Path.{subst}
use amsserver.Server.System.Posts.{post_recv-Safe, remove_io_data-Safe, post_accept_ex-Safe}
use amsserver.Server.System.Owned.{AreBacked-handles, with_new_io}
use amsserver.Server.Iocp.{do_accept_ex, post_recv, post_accept_ex, derive_accept_ex}
use amsserver.Base.{
  refl, ◌≡◌, none, some, true, false, suc, ℕ, ◌≢◌, arith, if◌then◌else◌, Bool, sym, ◌&&◌,
}
use amsserver.Server.System.Safe.{Safe, Safe-bind, Safe-if, Safe-load}
use amsserver.Server.System.Sound.{Sound, Held, Since, Since-new, some_of_ne}
use amsserver.Io.World.{
  World, M, Answers, give, ◌>>=◌, ◌>>◌, SocketHandle, get_new_io_data, update, new_socket_handle,
  new_handle, store_handle, remove_io_data, wait_heap_protect_mutex, release_heap_protect_mutex,
}

-- A new handle, stored at once.
abbrev with_handle : SocketHandle → World → World
with_handle h w = record w {
  handles = update (update w.handles w.next_handle (some new_handle)) w.next_handle (some h);
  next_handle = suc w.next_handle;
  heap_locked = false;
}

with_handle-Since : (c : ℕ) (h : SocketHandle) (w : World) → Sound w → Since c w (with_handle h w)
with_handle-Since c h w s = record {
  sound = record {
    next_io_given = s.next_io_given;
    next_handle_given = omega arith;
    listener_given = s.listener_given;
    listener_there = stay w.listenhandle s.listener_there;
    backed = AreBacked-handles w (with_handle h w) w.pending refl refl stay s.backed;
    apart = s.apart;
  };
  handles_stay = stay;
  held_stay = λ q n g. record { given = g.given; made = g.made; free = g.free; there = g.there };
}
  where
    stay : (k : ℕ) → w.handles k ≢ none → (with_handle h w).handles k ≢ none
    stay k n = ground (arith, n)

-- The rest of the handler, once the connection has its handle `k`.
accept_connection-Safe :
    (a : Answers) (p k : ℕ) (w : World)
    → Sound w
    → Held p w
    → k ≢ 0
    → w.handles k ≢ none
    → Safe Sound (
        (get_new_io_data >>= λ c.
        post_recv a.wsa_recv k c
        >> (remove_io_data p >> (get_new_io_data >>= λ n. post_accept_ex a n >> give true)))
          w)
unfolding get_new_io_data
accept_connection-Safe a p k w s h n t =
    let (x, c) = Since-new w s in
    Safe-bind (Since w.next_io (with_new_io w)) Sound (post_recv a.wsa_recv k w.next_io) _
      (with_new_io w)
      (post_recv-Safe a.wsa_recv k w.next_io (with_new_io w) x.sound c n (x.handles_stay k t))
      λ _ u y.
        Safe-bind (Since p u) Sound (remove_io_data p) _ u
          (remove_io_data-Safe p u y.sound
            (y.held_stay p (omega (arith, h.made)) (x.held_stay p (omega (arith, h.made)) h)))
          λ _ v z.
            let (q, d) = Since-new v z.sound in
            Safe-bind Sound Sound (post_accept_ex a v.next_io) _ (with_new_io v)
              (post_accept_ex-Safe a v.next_io (with_new_io v) q.sound d) (λ _ r e. e)

with_handle-made :
    (h : SocketHandle) (m : ℕ → M Bool) (w : World)
    → (wait_heap_protect_mutex
          >> (new_socket_handle >>= λ k. release_heap_protect_mutex >> (store_handle k h >> m k)))
        w
      ≡ m w.next_handle (with_handle h w)
unfolding new_socket_handle store_handle
with_handle-made h m w = ground arith

-- With any answers of the system, the handler of an accept accesses no released object and keeps the
-- invariant.
pub do_accept_ex-Safe :
    (a : Answers) (p : ℕ) (w : World) → Sound w → Held p w → Safe Sound (do_accept_ex a p w)
unfolding do_accept_ex
do_accept_ex-Safe a p w s h =
    let (d, e) = some_of_ne (w.ios p) h.there in
    let g : SocketHandle = record { ssocket = d.acceptsocket; ssocketaddr = a.remote } in
    let x = with_handle-Since p g w s in
    Safe-load Sound p _ w d e (
      subst (Safe Sound)
        (sym (
          with_handle-made g
            (λ k.
              if a.associate && derive_accept_ex p
              then (get_new_io_data >>= λ c.
                  post_recv a.wsa_recv k c
                  >> (remove_io_data p
                      >> (get_new_io_data >>= λ n. post_accept_ex a n >> give true)))
              else give false)
            w))
        (Safe-if Sound (a.associate && derive_accept_ex p) _ (give false) (with_handle g w)
          (accept_connection-Safe a p w.next_handle (with_handle g w) x.sound
            (record { given = h.given; made = h.made; free = h.free; there = h.there })
            s.next_handle_given (ground arith))
          x.sound))
