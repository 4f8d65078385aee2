-- ===== src/Server/Worker/Calls.antt =====
-- The calls on the shared state, and the handlers made of them, keep handles and sockets.
use amsserver.Server.Iocp.{close_socket, accept_or_close, post_accept_ex}
use amsserver.Io.Buffer.{accept_posted, PerIoData, prepare, reset_io_buf}
use amsserver.Base.{
  refl, ◌≡◌, none, some, inl, inr, ℕ, arith, Option, Option-cases, ◌==◌, sym, use_after_free, ◌∙◌,
  ap,
}
use amsserver.Server.Worker.Kept.{
  Kept, Keeps, Kept-refl, Keeps-bind, Keeps-then, Keeps-give, Keeps-if, Keeps-lift, Kept-same,
  After,
}
use amsserver.Io.World.{
  Answers, give, ◌>>◌, load, load_handle, store, get_new_io_data, wait_heap_protect_mutex,
  release_heap_protect_mutex, delete_io, remove_io_data, start_operation, new_socket_handle,
  store_handle, Pending, or_fault, SocketHandle,
}

module _ (a : Answers) where
  pub load-Keeps : (p : ℕ) → Keeps a (load p)
  unfolding load
  load-Keeps p w = Keeps-lift a (or_fault use_after_free (w.ios p)) w

  pub load_handle-Keeps : (p : ℕ) → Keeps a (load_handle p)
  unfolding load_handle
  load_handle-Keeps p w = Keeps-lift a (or_fault use_after_free (w.handles p)) w

  pub store-Keeps : (p : ℕ) (d : PerIoData) → Keeps a (store p d)
  unfolding store
  store-Keeps p d w = elim (Option-cases (w.ios p)) [
    | inl e ↦ rw (e, After) tt
    | inr (x, e) ↦ rw (e, After) (Kept-same a _ _ refl refl refl)
  ]

  pub get_new_io_data-Keeps : Keeps a get_new_io_data
  unfolding get_new_io_data
  get_new_io_data-Keeps w = Kept-same a _ _ refl refl refl

  pub wait-Keeps : Keeps a wait_heap_protect_mutex
  wait-Keeps w = Kept-same a _ _ refl refl refl

  pub release-Keeps : Keeps a release_heap_protect_mutex
  release-Keeps w = Kept-same a _ _ refl refl refl

  delete_io-Keeps : (p : ℕ) → Keeps a (delete_io p)
  unfolding delete_io
  delete_io-Keeps p w = elim (Option-cases (w.ios p)) [
    | inl e ↦ rw (e, After) tt
    | inr (x, e) ↦ rw (e, After) (Kept-same a _ _ refl refl refl)
  ]

  pub remove_io_data-Keeps : (p : ℕ) → Keeps a (remove_io_data p)
  unfolding remove_io_data
  remove_io_data-Keeps p = Keeps-if a (p == 0) _ _ (Keeps-give a tt) (
      Keeps-then a wait_heap_protect_mutex (delete_io p >> release_heap_protect_mutex) wait-Keeps
        (Keeps-then a (delete_io p) release_heap_protect_mutex (delete_io-Keeps p) release-Keeps))

  pub start_operation-Keeps : (p : Pending) → Keeps a (start_operation p)
  unfolding start_operation
  start_operation-Keeps p w = Kept-same a _ _ refl refl refl

  pub new_socket_handle-Keeps : Keeps a new_socket_handle
  unfolding new_socket_handle
  new_socket_handle-Keeps w = record {
    handles_stay = λ q h. ground (arith, h);
    listener = refl;
    closed_new = λ s h. inl h;
  }

  pub store_handle-Keeps : (p : ℕ) (h : SocketHandle) → Keeps a (store_handle p h)
  unfolding store_handle
  store_handle-Keeps p h w = elim (Option-cases (w.handles p)) [
    | inl e ↦ rw (e, After) tt
    | inr (x, e) ↦
        rw (e, After)
          (record {
            handles_stay = λ q n. ground (arith, n);
            listener = refl;
            closed_new = λ s i. inl i;
          })
  ]

  -- The socket that WSASocket has just made.
  close_new-Keeps : Keeps a (close_socket a.wsa_socket)
  close_new-Keeps w = close a.wsa_socket refl
    where
      close : (o : Option ℕ) → o ≡ a.wsa_socket → After (close_socket o w) (Kept a w)
      close none e = unfold close_socket in Kept-refl a w
      close (some x) e =
          unfold close_socket in
          record {
            handles_stay = λ q h. h;
            listener = refl;
            closed_new = λ s i. elim i [ inl f ↦ inr (sym e ∙ ap some (sym f)) | inr h ↦ inl h ];
          }

  accept_or_close-Keeps : (p : ℕ) → Keeps a (accept_or_close a p)
  unfolding accept_or_close
  accept_or_close-Keeps p w =
      Keeps-if a a.accept_ex _ _ (start_operation-Keeps _)
        (Keeps-then a _ _ close_new-Keeps (Keeps-bind a _ _ (load-Keeps p) (λ d. store-Keeps p _)))
        w

  pub post_accept_ex-Keeps : (p : ℕ) → Keeps a (post_accept_ex a p)
  unfolding post_accept_ex
  post_accept_ex-Keeps p = Keeps-if a (p == 0) _ _ (Keeps-give a tt) (
      Keeps-bind a _ _ (load-Keeps p)
        (λ d. Keeps-then a _ _ (store-Keeps p _) (opened d a.wsa_socket)))
    where
      opened :
          (d : PerIoData) (o : Option ℕ)
          → Keeps a (elim o [
            | none ↦ give tt
            | some s ↦
                store p (prepare accept_posted (reset_io_buf (record d { acceptsocket = some s })))
                >> accept_or_close a p
          ])
      opened d none = Keeps-give a tt
      opened d (some s) = Keeps-then a _ _ (store-Keeps p _) (accept_or_close-Keeps p)
