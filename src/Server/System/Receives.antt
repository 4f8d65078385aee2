-- ===== src/Server/System/Receives.antt =====
-- Handling a receive.
use amsserver.Crt.Text.{strstr}
use amsserver.HttpData.Tame.{store_token-IsTame, new-IsTame}
use amsserver.Server.System.Tame.{build_send-IsTame, read_text-IsTame, check_recv_buf_end-IsTame}
use amsserver.HttpData.Tame.{ams_dbug_log-IsTame}
use amsserver.Log.{ams_dbug_log, received_line}
use amsserver.Server.Response.{build_send}
use amsserver.Server.Http.{http_get_length, check_recv_buf_end}
use amsserver.Server.System.Posts.{post_recv-Safe}
use amsserver.Crt.Scan.{store_token, scan_query}
use amsserver.Server.System.Owned.{with_new_io}
use amsserver.HttpData.State.{HttpData, new}
use mathlib.Core.Path.{subst}
use amsserver.Server.HttpRecv.{http_post_send, post_new_recv, answer_get, http_do_recv}
use amsserver.Server.Iocp.{send_and_remove, post_recv}
use amsserver.Io.Buffer.{send_posted, sent_bytes, PerIoData, reset_io_buf, prepare, read_text}
use amsserver.Base.{
  refl, ◌≡◌, none, true, false, ℕ, ◌≢◌, Bool, ◌∷◌, [], some, done, arith, Bytes, sym, length, ◌==◌,
  Option, ◌||◌, codes,
}
use amsserver.Server.System.Safe.{
  Safe, Safe-bind, Safe-if, Safe-lift, Safe-load, Safe-load_handle, Safe-store, with_io,
}
use amsserver.Server.System.Sound.{
  Sound, Held, Since, Since-store, Since-release, Since-new, Since-start, Since-other, Held-other,
  with_operation, some_of_ne,
}
use amsserver.Io.World.{
  World, M, Answers, give, lift, ◌>>=◌, ◌>>◌, start_operation, remove_io_data, delete_io,
  get_new_io_data, load_handle,
}

-- The invariant, and the handles of the world before.
abbrev After : World → World → Type 0
After w v = Sound v × ((k : ℕ) → w.handles k ≢ none → v.handles k ≢ none)

after_of : (c : ℕ) (w v : World) → Since c w v → After w v
after_of c w v a = (a.sound, a.handles_stay)

-- The world after the send: it is pending, and its io is released.
abbrev with_send : ℕ → ℕ → World → World
with_send k p w =
    with_operation (record { key = k; io = p; kind = send_posted })
      (record (with_io p none w) { heap_locked = false })

with_send-After :
    (k p : ℕ) (w : World)
    → Sound w
    → Held p w
    → k ≢ 0
    → w.handles k ≢ none
    → After w (with_send k p w)
with_send-After k p w s h n t =
    let a = Since-release p w s h in
    let v : World = record (with_io p none w) { heap_locked = false } in
    let b = Since-other (with_io p none w) v refl refl refl refl refl refl p a.sound in
    let c =
      Since-start (record { key = k; io = p; kind = send_posted }) v b.sound
        (n, h.given, t, (h.made, ground arith)) h.free in
    (c.sound, λ q i. i)

send_started :
    (k p : ℕ) (w : World) (d : PerIoData)
    → p ≢ 0
    → w.ios p ≡ some d
    → (start_operation (record { key = k; io = p; kind = send_posted })
          >> (remove_io_data p >> give true))
        w
      ≡ done (true, with_send k p w)
unfolding start_operation remove_io_data delete_io
send_started k p w d n e = ground (arith, e)

send_and_remove-Safe :
    (started : Bool) (k p : ℕ) (w : World)
    → Sound w
    → Held p w
    → k ≢ 0
    → w.handles k ≢ none
    → Safe (After w) (send_and_remove started k p w)
unfolding send_and_remove
send_and_remove-Safe started k p w s h n t =
    let (d, e) = some_of_ne (w.ios p) h.there in
    let (g, f) = some_of_ne (w.handles k) t in
    let v : World = record w { sent = (g.ssocket, sent_bytes d) ∷ w.sent } in
    let (x, y) =
      with_send-After k p v (Since-other w v refl refl refl refl refl refl p s).sound
        (Held-other w v refl refl refl refl refl refl p h) n t in
    Safe-load (After w) p _ w d e (
      Safe-load_handle (After w) k _ w g f (
        Safe-if (After w) started _ (give false) w
          (subst (Safe (After w)) (sym (send_started k p v d h.given e)) (x, y)) (s, λ q i. i)))

http_post_send-Safe :
    (sizes : Bytes → ℕ) (a : Answers) (k p : ℕ) (x : HttpData) (w : World)
    → Sound w
    → Held p w
    → k ≢ 0
    → w.handles k ≢ none
    → Safe (After w) (http_post_send sizes a k p x w)
unfolding http_post_send
http_post_send-Safe sizes a k p x w s h n t =
    let (d, e) = some_of_ne (w.ios p) h.there in
    Safe-if (After w) (k == 0 || p == 0) (give false) _ w (s, λ q i. i)
      (Safe-load (After w) p _ w d e (
        Safe-lift (After w) (build_send sizes (prepare send_posted d) x) _ w
          (build_send-IsTame sizes (prepare send_posted d) x)
          λ (b, r).
            let (y, g) = Since-store p b w s h in
            Safe-store (After w) p b _ w d e (
              Safe-if (After w) r _ (give false) (with_io p (some b) w)
                (Safe-lift (After w) (read_text b) _ (with_io p (some b) w) (read_text-IsTame b)
                  λ z. send_and_remove-Safe a.wsa_send k p (with_io p (some b) w) y.sound g n t)
                (y.sound, λ q i. i))))

post_new_recv-Safe :
    (a : Answers) (k : ℕ) (w : World)
    → Sound w
    → k ≢ 0
    → w.handles k ≢ none
    → Safe Sound (post_new_recv a k w)
unfolding post_new_recv get_new_io_data
post_new_recv-Safe a k w s n t =
    let (x, c) = Since-new w s in
    Safe-bind (Since w.next_io (with_new_io w)) Sound (post_recv a.wsa_recv k w.next_io) _
      (with_new_io w) (post_recv-Safe a.wsa_recv k w.next_io (with_new_io w) x.sound c n t)
      (λ _ v y. y.sound)

answer_get-Safe :
    (sizes : Bytes → ℕ) (a : Answers) (k p : ℕ) (d : PerIoData) (t : Bytes) (w : World)
    → Sound w
    → Held p w
    → k ≢ 0
    → w.handles k ≢ none
    → Safe Sound (answer_get sizes a k p d t w)
unfolding answer_get
answer_get-Safe sizes a k p d t w s h n l =
    let (e, f) = some_of_ne (w.ios p) h.there in
    let (y, g) = Since-store p (reset_io_buf d) w s h in
    Safe-lift Sound (store_token http_get_length (sizes (codes "GET")) [] (scan_query t)) _ w
      (store_token-IsTame http_get_length (sizes (codes "GET")) [] (scan_query t))
      λ q. Safe-lift Sound (new q) _ w (new-IsTame q) λ x.
        Safe-store Sound p (reset_io_buf d) _ w e f (
          Safe-bind (After (with_io p (some (reset_io_buf d)) w)) Sound
            (http_post_send sizes a k p x) _ (with_io p (some (reset_io_buf d)) w)
            (http_post_send-Safe sizes a k p x (with_io p (some (reset_io_buf d)) w) y.sound g n l)
            (λ _ v (z, i). post_new_recv-Safe a k v z n (i k l)))

-- With any answers of the system, and any message in the io, the handler of a receive accesses no
-- released object and keeps the invariant.
pub http_do_recv-Safe :
    (sizes : Bytes → ℕ) (a : Answers) (k p : ℕ) (w : World)
    → Sound w
    → Held p w
    → k ≢ 0
    → w.handles k ≢ none
    → Safe Sound (http_do_recv sizes a k p w)
unfolding http_do_recv
http_do_recv-Safe sizes a k p w s h n l =
    let (d, e) = some_of_ne (w.ios p) h.there in
    Safe-if Sound (k == 0 || p == 0) (give false) _ w s (
      Safe-load Sound p _ w d e (
        Safe-lift Sound (read_text d) _ w (read_text-IsTame d) λ t.
          Safe-store Sound p (record d { bytestransfer = length t }) _ w d e
            (Safe-lift Sound (check_recv_buf_end (length t) t) _ (counted d t)
              (check_recv_buf_end-IsTame (length t) t)
              λ c. Safe-if Sound c _ _ (counted d t) (whole d t) (partial d t))))
  where
    counted : PerIoData → Bytes → World
    counted d t = with_io p (some (record d { bytestransfer = length t })) w

    found :
        (d : PerIoData) (t : Bytes) (o : Option Bytes)
        → Safe Sound (
            elim o as (λ _. M Bool) [ none ↦ give false | some g ↦ answer_get sizes a k p d t ]
              (counted d t))
    found d t none = (Since-store p (record d { bytestransfer = length t }) w s h).0.sound
    found d t (some g) =
        let (y, i) = Since-store p (record d { bytestransfer = length t }) w s h in
        answer_get-Safe sizes a k p d t (counted d t) y.sound i n l

    whole :
        (d : PerIoData) (t : Bytes)
        → Safe Sound (
            (load_handle k >>= λ g. lift (ams_dbug_log (received_line g.ssocketaddr t)) >>= λ _.
            elim (strstr t (codes "GET")) as (λ _. M Bool) [
              | none ↦ give false
              | some g ↦ answer_get sizes a k p d t
            ])
              (counted d t))
    whole d t =
        let (g, f) = some_of_ne (w.handles k) l in
        Safe-load_handle Sound k _ (counted d t) g f (
          Safe-lift Sound (ams_dbug_log (received_line g.ssocketaddr t)) _ (counted d t)
            (ams_dbug_log-IsTame (received_line g.ssocketaddr t))
            λ _. found d t (strstr t (codes "GET")))

    partial :
        (d : PerIoData) (t : Bytes)
        → Safe Sound ((post_recv a.wsa_recv_again k p >> post_new_recv a k) (counted d t))
    partial d t =
        let (y, i) = Since-store p (record d { bytestransfer = length t }) w s h in
        Safe-bind (Since p (counted d t)) Sound (post_recv a.wsa_recv_again k p) _ (counted d t)
          (post_recv-Safe a.wsa_recv_again k p (counted d t) y.sound i n l)
          (λ _ v z. post_new_recv-Safe a k v z.sound n (z.handles_stay k l))
