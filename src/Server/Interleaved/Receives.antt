-- ===== src/Server/Interleaved/Receives.antt =====
-- The answer to a request and the handler of a receive, step by step.
use amsserver.Server.Interleaved.Built.{build_send-kind}
use amsserver.Crt.Scan.{scan_query}
use amsserver.Server.Response.{build_send}
use amsserver.Server.Http.{http_get_length}
use amsserver.HttpData.Tame.{store_token-IsTame, new-IsTame}
use amsserver.Server.System.Tame.{read_text-IsTame, build_send-IsTame}
use amsserver.HttpData.State.{HttpData, new}
use amsserver.Io.World.{Answers}
use amsserver.Io.Buffer.{send_posted, PerIoData, read_text, prepare, reset_io_buf}
use amsserver.Server.Interleaved.Claims.{assign, replace_self}
use amsserver.Server.Interleaved.Starts.{Keeps-wsa_send}
use amsserver.Server.Interleaved.Calls.{
  Keeps-load, Keeps-load_handle, Keeps-new, Keeps-store_send, Keeps-store_held,
}
use amsserver.Server.Interleaved.Rules.{
  Keeps, Tame, Keeps-if, Keeps-bind, Keeps-gives, Keeps-pure, Keeps-mono,
}
use amsserver.Server.Interleaved.Handlers.{
  send_and_remove_steps, remove_io_data_steps, http_post_send_steps, post_new_recv_steps,
  answer_get_steps, post_recv_steps,
}
use amsserver.Base.{
  ◌≡◌, if◌then◌else◌, true, false, inr, Bool, ℕ, ◌≢◌, [], inl, Bytes, ◌==◌, ◌∙◌, ◌||◌, codes,
}
use amsserver.Server.Interleaved.Steps.{◌>>=◌, ◌>>◌, gives, pure}
use amsserver.Server.Interleaved.Own.{Own, holds, sends, leaves}
use amsserver.Server.Interleaved.Posts.{
  Still, remove-Keeps, Still-after, Still-refl, post_recv-Keeps,
}

send_and_remove-Keeps :
    (started : Bool) (k p : ℕ) (r : Own)
    → r.role p ≡ sends
    → r.knows k ≡ true
    → k ≢ 0
    → r.locks ≡ false
    → Keeps Tame r (send_and_remove_steps started k p) (λ x s. Still p r s)
unfolding send_and_remove_steps
send_and_remove-Keeps started k p r h m n l =
    Keeps-load r (λ x s. Still p r s) p _ (inr h)
      λ d.
        Keeps-load_handle r (λ x s. Still p r s) k _ m
          λ g.
            Keeps-if Tame r started _ (gives false) (λ x s. Still p r s)
              (Keeps-wsa_send r (λ x s. Still p r s) g d k p _ h m n
                (Keeps-bind Tame (assign p leaves r) (remove_io_data_steps p) _
                  (λ x s. Still p (assign p leaves r) s) (λ x s. Still p r s)
                  (remove-Keeps p (assign p leaves r) (inr (replace_self r.role p leaves)) l)
                  λ x s t.
                    Keeps-gives Tame s true (λ x s. Still p r s) (Still-after p leaves r s t)))
              (Keeps-gives Tame r false (λ x s. Still p r s) (Still-refl p r))

-- Of a response that was built whole, the send is started and the io released.
sent-Keeps :
    (a : Answers) (k p : ℕ) (b : PerIoData) (q : Bool) (r : Own)
    → r.role p ≡ sends
    → r.knows k ≡ true
    → k ≢ 0
    → r.locks ≡ false
    → Keeps Tame r
        (if q
          then (pure (read_text b) >>= λ _. send_and_remove_steps a.wsa_send k p)
          else gives false)
        (λ x s. Still p r s)
sent-Keeps a k p b q r h m n l =
    Keeps-if Tame r q _ (gives false) (λ x s. Still p r s)
      (Keeps-pure r (read_text b) _ (λ x s. Still p r s) (read_text-IsTame b) l
        λ t e. send_and_remove-Keeps a.wsa_send k p r h m n l)
      (Keeps-gives Tame r false (λ x s. Still p r s) (Still-refl p r))

http_post_send-Keeps :
    (sizes : Bytes → ℕ) (a : Answers) (k p : ℕ) (x : HttpData) (r : Own)
    → r.role p ≡ holds
    → r.knows k ≡ true
    → k ≢ 0
    → r.locks ≡ false
    → Keeps Tame r (http_post_send_steps sizes a k p x) (λ b s. Still p r s)
unfolding http_post_send_steps
http_post_send-Keeps sizes a k p x r h m n l =
    Keeps-if Tame r (k == 0 || p == 0) (gives false) _ (λ b s. Still p r s)
      (Keeps-gives Tame r false (λ b s. Still p r s) (Still-refl p r))
      (Keeps-load r (λ b s. Still p r s) p _ (inl h)
        λ d.
          Keeps-pure r (build_send sizes (prepare send_posted d) x) _ (λ b s. Still p r s)
            (build_send-IsTame sizes (prepare send_posted d) x) l
            λ b e.
              Keeps-store_send r (λ b s. Still p r s) p b.0 _ (inl h)
                (build_send-kind sizes (prepare send_posted d) b.0 x b.1 e)
                (Keeps-mono Tame (assign p sends r) _ (λ y s. Still p (assign p sends r) s)
                  (λ y s. Still p r s)
                  (sent-Keeps a k p b.0 b.1 (assign p sends r) (replace_self r.role p sends) m n l)
                  λ y s t. Still-after p sends r s t))

-- A handler has ended: its thread does not have the mutex, and still knows the handle.
abbrev pub Answered : ℕ → Bool → Own → Type 0
Answered k b s = (s.locks ≡ false) × (s.knows k ≡ true)

post_new_recv-Keeps :
    (a : Answers) (k : ℕ) (r : Own)
    → r.knows k ≡ true
    → k ≢ 0
    → r.locks ≡ false
    → Keeps Tame r (post_new_recv_steps a k) (Answered k)
unfolding post_new_recv_steps
post_new_recv-Keeps a k r m n l = Keeps-new r (Answered k) _ λ c g e.
    Keeps-bind Tame (assign c holds r) (post_recv_steps a.wsa_recv k c) _
      (λ x s. Still c (assign c holds r) s) (Answered k)
      (post_recv-Keeps a.wsa_recv k c (assign c holds r) (replace_self r.role c holds) m n l)
      λ x s t. Keeps-gives Tame s true (Answered k) (t.locks ∙ l, t.knows k m)

pub answer_get-Keeps :
    (sizes : Bytes → ℕ) (a : Answers) (k p : ℕ) (d : PerIoData) (t : Bytes) (r : Own)
    → r.role p ≡ holds
    → r.knows k ≡ true
    → k ≢ 0
    → r.locks ≡ false
    → Keeps Tame r (answer_get_steps sizes a k p d t) (Answered k)
unfolding answer_get_steps
answer_get-Keeps sizes a k p d t r h m n l =
    Keeps-pure r _ _ (Answered k)
      (store_token-IsTame http_get_length (sizes (codes "GET")) [] (scan_query t)) l
      λ g e. Keeps-pure r (new g) _ (Answered k) (new-IsTame g) l λ x f.
        Keeps-store_held r (Answered k) p (reset_io_buf d) _ (inl h) (
          Keeps-bind Tame (assign p holds r) (http_post_send_steps sizes a k p x) _
            (λ b s. Still p (assign p holds r) s) (Answered k)
            (http_post_send-Keeps sizes a k p x (assign p holds r) (replace_self r.role p holds) m n
              l)
            λ b s v. post_new_recv-Keeps a k s (v.knows k m) n (v.locks ∙ l))

-- The rest of a request is awaited.
pub recv_again-Keeps :
    (a : Answers) (k p : ℕ) (r : Own)
    → r.role p ≡ holds
    → r.knows k ≡ true
    → k ≢ 0
    → r.locks ≡ false
    → Keeps Tame r (post_recv_steps a.wsa_recv_again k p >> post_new_recv_steps a k) (Answered k)
recv_again-Keeps a k p r h m n l =
    Keeps-bind Tame r (post_recv_steps a.wsa_recv_again k p) _ (λ x s. Still p r s) (Answered k)
      (post_recv-Keeps a.wsa_recv_again k p r h m n l)
      λ x s t. post_new_recv-Keeps a k s (t.knows k m) n (t.locks ∙ l)
