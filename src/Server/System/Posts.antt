-- ===== src/Server/System/Posts.antt =====
-- Posting a receive and an accept on a held io, and releasing one.
use mathlib.Core.Path.{subst}
use amsserver.Server.Iocp.{wsa_recv_from, post_recv, accept_or_close, close_socket, post_accept_ex}
use amsserver.Io.Buffer.{recv_posted, PerIoData, prepare, accept_posted, reset_io_buf}
use amsserver.Base.{
  refl, ◌≡◌, none, some, crash, Bool, ℕ, ◌≢◌, ◌==◌, overrun, ◌||◌, arith, ◌∷◌, true, false, done,
  Option, sym,
}
use amsserver.Server.System.Safe.{
  Safe, Safe-bind, Safe-if, Safe-load, Safe-load_handle, Safe-store, with_io, Safe-mono,
}
use amsserver.Server.System.Sound.{
  Sound, Held, Since, Since-refl, Since-trans, Since-store, Since-release, Since-start, some_of_ne,
  Since-other, Held-other,
}
use amsserver.Io.World.{
  World, M, Answers, give, lift, ◌>>◌, remove_io_data, start_operation, delete_io, store, >>=-done,
  release_heap_protect_mutex,
}

wsa_recv_from-Safe :
    (started : Bool) (k c : ℕ) (w : World) (d : PerIoData)
    → Sound w
    → Held c w
    → k ≢ 0
    → w.handles k ≢ none
    → w.ios c ≡ some (prepare recv_posted d)
    → Safe (Since c w) (wsa_recv_from started k c d w)
unfolding wsa_recv_from start_operation
wsa_recv_from-Safe started k c w d s h n t e =
    Safe-if (Since c w) (d.bytestransfer == 0) _ (lift (crash overrun)) w
      (Safe-if (Since c w) started
        (start_operation (record { key = k; io = c; kind = recv_posted })) (give tt) w
        (Since-start (record { key = k; io = c; kind = recv_posted }) w s
          (n, h.given, t, (h.made, (prepare recv_posted d, e, refl))) h.free)
        (Since-refl c w s))
      (λ x. cc)

pub post_recv-Safe :
    (started : Bool) (k c : ℕ) (w : World)
    → Sound w
    → Held c w
    → k ≢ 0
    → w.handles k ≢ none
    → Safe (Since c w) (post_recv started k c w)
unfolding post_recv
post_recv-Safe started k c w s h n t =
    let (d, e) = some_of_ne (w.ios c) h.there in
    let (g, f) = some_of_ne (w.handles k) t in
    let v : World = with_io c (some (prepare recv_posted d)) w in
    let (a, i) = Since-store c (prepare recv_posted d) w s h in
    Safe-if (Since c w) (k == 0 || c == 0) (give tt) _ w (Since-refl c w s) (
      Safe-load (Since c w) c _ w d e (
        Safe-store (Since c w) c (prepare recv_posted d) _ w d e (
          Safe-load_handle (Since c w) k _ v g f (
            Safe-mono (Since c v) (Since c w) (wsa_recv_from started k c d v)
              (wsa_recv_from-Safe started k c v d a.sound i n t (ground arith))
              (λ u b. Since-trans c w v u a b)))))

delete_io-released :
    (p : ℕ) (w : World) (d : PerIoData)
    → w.ios p ≡ some d
    → delete_io p w ≡ done (tt, with_io p none w)
unfolding delete_io
delete_io-released p w d e = ground (arith, e)

pub remove_io_data-Safe :
    (p : ℕ) (w : World) → Sound w → Held p w → Safe (Since p w) (remove_io_data p w)
unfolding remove_io_data
remove_io_data-Safe p w s h =
    let (d, e) = some_of_ne (w.ios p) h.there in
    let locked : World = record w { heap_locked = true } in
    let a = Since-other w locked refl refl refl refl refl refl p s in
    let b =
      Since-release p locked a.sound (Held-other w locked refl refl refl refl refl refl p h) in
    let released : World = with_io p none locked in
    Safe-if (Since p w) (p == 0) (give tt) _ w (Since-refl p w s) (
      subst (Safe (Since p w))
        (sym (
          >>=-done (delete_io p) (λ _. release_heap_protect_mutex) locked released tt
            (delete_io-released p locked d e)))
        (Since-trans p w locked (record released { heap_locked = false }) a
          (Since-trans p locked released (record released { heap_locked = false }) b
            (Since-other released (record released { heap_locked = false }) refl refl refl refl refl
              refl p b.sound))))

accept_or_close-Safe :
    (a : Answers) (c : ℕ) (w : World) (d : PerIoData)
    → Sound w
    → Held c w
    → w.ios c ≡ some (prepare accept_posted d)
    → Safe Sound (accept_or_close a c w)
unfolding accept_or_close start_operation close_socket
accept_or_close-Safe a c w d s h e =
    Safe-if Sound a.accept_ex
      (start_operation (record { key = w.listenhandle; io = c; kind = accept_posted })) _ w
      (Since-start (record { key = w.listenhandle; io = c; kind = accept_posted }) w s
        (s.listener_given, h.given, s.listener_there, (h.made, (prepare accept_posted d, e, refl)))
        h.free).sound
      (Safe-bind (λ v. Sound v × Held c v) Sound (close_socket a.wsa_socket) _ w
        (closing a.wsa_socket)
        λ x v (t, g).
          let (f, i) = some_of_ne (v.ios c) g.there in
          Safe-load Sound c _ v f i (after_load v t g f i))
  where
    closing : (o : Option ℕ) → Safe (λ v. Sound v × Held c v) (close_socket o w)
    closing none = (s, h)
    closing (some l) =
        let v : World = record w { closed = l ∷ w.closed } in
        (
          (Since-other w v refl refl refl refl refl refl c s).sound,
          Held-other w v refl refl refl refl refl refl c h,
        )

    after_load :
        (v : World)
        → Sound v
        → Held c v
        → (f : PerIoData) → v.ios c ≡ some f
        → Safe Sound (store c (record f { acceptsocket = none }) v)
    after_load v t g f i =
        unfold store in
        rw (i, Safe) (Since-store c (record f { acceptsocket = none }) v t g).0.sound

pub post_accept_ex-Safe :
    (a : Answers) (c : ℕ) (w : World) → Sound w → Held c w → Safe Sound (post_accept_ex a c w)
unfolding post_accept_ex
post_accept_ex-Safe a c w s h =
    let (d, e) = some_of_ne (w.ios c) h.there in
    let b : PerIoData = record d { acceptsocket = a.wsa_socket } in
    let v : World = with_io c (some b) w in
    let (q, g) = Since-store c b w s h in
    Safe-if Sound (c == 0) (give tt) _ w s
      (Safe-load Sound c _ w d e (Safe-store Sound c b _ w d e (opened d v q.sound g a.wsa_socket)))
  where
    opened :
        (d : PerIoData) (v : World)
        → Sound v
        → Held c v
        → (o : Option ℕ)
        → Safe Sound (
            elim o as (λ _. M (Unit {0})) [
              | none ↦ give tt
              | some l ↦
                  store c
                    (prepare accept_posted (reset_io_buf (record d { acceptsocket = some l })))
                  >> accept_or_close a c
            ]
              v)
    opened d v t g none = t
    opened d v t g (some l) =
        let x : PerIoData = reset_io_buf (record d { acceptsocket = some l }) in
        let (f, i) = some_of_ne (v.ios c) g.there in
        let (q, j) = Since-store c (prepare accept_posted x) v t g in
        Safe-store Sound c (prepare accept_posted x) (accept_or_close a c) v f i (
          accept_or_close-Safe a c (with_io c (some (prepare accept_posted x)) v) x q.sound j
            (ground arith))
