-- ===== src/Server/Interleaved/Rounds.antt =====
-- A round of a worker, step by step.
use amsserver.Server.Http.{check_recv_buf_end}
use amsserver.Server.Interleaved.Claims.{assign, replace_self}
use amsserver.Server.System.Tame.{read_text-IsTame, check_recv_buf_end-IsTame}
use amsserver.HttpData.Tame.{ams_dbug_log-IsTame}
use amsserver.Crt.Text.{strstr}
use amsserver.Server.Interleaved.Calls.{Keeps-load_handle, Keeps-load, Keeps-look, Keeps-store_held}
use amsserver.Log.{ams_dbug_log, received_line}
use amsserver.Server.Interleaved.Accepts.{Unlocked, do_accept_ex-Keeps}
use amsserver.Server.Interleaved.Rules.{Tame, Keeps, Keeps-if, Keeps-bind, Keeps-gives, Keeps-pure}
use amsserver.Server.Worker.{Completion, is_recv_or_send}
use amsserver.Io.World.{Answers, load_handle}
use amsserver.Server.Interleaved.Handlers.{
  http_do_recv_steps, handle_recv_steps, dispatch_steps, worker_round_steps, do_accept_ex_steps,
  answer_get_steps,
}
use amsserver.Io.Buffer.{
  send_posted, accept_posted, recv_posted, null_posted, OperationType, PerIoData, read_text,
}
use amsserver.Base.{
  none, some, true, false, inl, Bytes, ℕ, Fault, ◌≡◌, ◌≢◌, ◌==◌, not, ◌||◌, ◌&&◌, codes, Bool,
  Option, length,
}
use amsserver.Server.Interleaved.Steps.{Steps, ◌>>=◌, call, gives, pure}
use amsserver.Server.Interleaved.Own.{Own, holds, looks}
use amsserver.Server.Interleaved.Receives.{Answered, recv_again-Keeps, answer_get-Keeps}

-- A whole request is logged, and answered if it has the text GET.
complete-Keeps :
    (sizes : Bytes → ℕ) (a : Answers) (k p : ℕ) (d : PerIoData) (t : Bytes) (r : Own)
    → r.role p ≡ holds
    → r.knows k ≡ true
    → k ≢ 0
    → r.locks ≡ false
    → Keeps Tame r
        (call (load_handle k) >>= λ h. pure (ams_dbug_log (received_line h.ssocketaddr t)) >>= λ _.
          elim (strstr t (codes "GET")) as (λ _. Steps Bool) [
            | none ↦ gives false
            | some _ ↦ answer_get_steps sizes a k p d t
          ])
        (Answered k)
complete-Keeps sizes a k p d t r h m n l = Keeps-load_handle r (Answered k) k _ m λ g.
    Keeps-pure r (ams_dbug_log (received_line g.ssocketaddr t)) _ (Answered k)
      (ams_dbug_log-IsTame (received_line g.ssocketaddr t)) l λ x e. found (strstr t (codes "GET"))
  where
    found :
        (o : Option Bytes)
        → Keeps Tame r
            (elim o as (λ _. Steps Bool) [
              | none ↦ gives false
              | some _ ↦ answer_get_steps sizes a k p d t
            ])
            (Answered k)
    found none = Keeps-gives Tame r false (Answered k) (l, m)
    found (some u) = answer_get-Keeps sizes a k p d t r h m n l

http_do_recv-Keeps :
    (sizes : Bytes → ℕ) (a : Answers) (k p : ℕ) (r : Own)
    → r.role p ≡ holds
    → r.knows k ≡ true
    → k ≢ 0
    → r.locks ≡ false
    → Keeps Tame r (http_do_recv_steps sizes a k p) (Answered k)
unfolding http_do_recv_steps
http_do_recv-Keeps sizes a k p r h m n l =
    Keeps-if Tame r (k == 0 || p == 0) (gives false) _ (Answered k)
      (Keeps-gives Tame r false (Answered k) (l, m))
      (Keeps-load r (Answered k) p _ (inl h) λ d.
        Keeps-pure r (read_text d) _ (Answered k) (read_text-IsTame d) l λ t e.
          Keeps-store_held r (Answered k) p (record d { bytestransfer = length t }) _ (inl h)
            (Keeps-pure (assign p holds r) (check_recv_buf_end (length t) t) _ (Answered k)
              (check_recv_buf_end-IsTame (length t) t) l
              λ c f.
                Keeps-if Tame (assign p holds r) c _ _ (Answered k)
                  (complete-Keeps sizes a k p d t (assign p holds r) (replace_self r.role p holds) m
                    n l)
                  (recv_again-Keeps a k p (assign p holds r) (replace_self r.role p holds) m n l)))

handle_recv-Keeps :
    (sizes : Bytes → ℕ) (a : Answers) (k p : ℕ) (r : Own)
    → r.role p ≡ holds
    → r.knows k ≡ true
    → k ≢ 0
    → r.locks ≡ false
    → Keeps Tame r (handle_recv_steps sizes a k p) Unlocked
unfolding handle_recv_steps
handle_recv-Keeps sizes a k p r h m n l =
    Keeps-bind Tame r (http_do_recv_steps sizes a k p) _ (Answered k) Unlocked
      (http_do_recv-Keeps sizes a k p r h m n l)
      λ b s (u, v).
        Keeps-if Tame s b (gives true) _ Unlocked (Keeps-gives Tame s true Unlocked u)
          (Keeps-load_handle s Unlocked k _ v λ g. Keeps-gives Tame s true Unlocked u)

-- Whatever kind the io says that it has.
dispatch-Keeps :
    (sizes : Bytes → ℕ) (a : Answers) (k p : ℕ) (o : OperationType) (r : Own)
    → r.role p ≡ holds
    → r.knows k ≡ true
    → k ≢ 0
    → r.locks ≡ false
    → Keeps Tame r (dispatch_steps sizes a k p o) Unlocked
unfolding dispatch_steps
dispatch-Keeps sizes a k p accept_posted r h m n l =
    Keeps-bind Tame r (do_accept_ex_steps a p) _ Unlocked Unlocked (do_accept_ex-Keeps a p r h l)
      λ b s u. Keeps-gives Tame s true Unlocked u
dispatch-Keeps sizes a k p recv_posted r h m n l = handle_recv-Keeps sizes a k p r h m n l
dispatch-Keeps sizes a k p send_posted r h m n l = Keeps-gives Tame r true Unlocked l
dispatch-Keeps sizes a k p null_posted r h m n l = Keeps-gives Tame r true Unlocked l

-- The round of a completion whose io is the thread's.
pub worker_round-Keeps :
    (sizes : Bytes → ℕ) (a : Answers) (c : Completion) (r : Own)
    → r.role c.io ≡ holds
    → r.knows c.key ≡ true
    → c.key ≢ 0
    → r.locks ≡ false
    → Keeps Tame r (worker_round_steps sizes a c) Unlocked
unfolding worker_round_steps
worker_round-Keeps sizes a c r h m n l =
    Keeps-if Tame r (not c.ok) (gives true) _ Unlocked (Keeps-gives Tame r true Unlocked l) (
      Keeps-if Tame r (c.key == 0) (gives false) _ Unlocked (Keeps-gives Tame r false Unlocked l) (
        Keeps-if Tame r (c.io == 0) (gives true) _ Unlocked (Keeps-gives Tame r true Unlocked l) (
          Keeps-load r Unlocked c.io _ (inl h) λ d.
            Keeps-if Tame r (c.bytes == 0 && is_recv_or_send d.operationtype) (gives true) _
              Unlocked (Keeps-gives Tame r true Unlocked l)
              (dispatch-Keeps sizes a c.key c.io d.operationtype r h m n l))))

-- The faults that a round may have: those of a completed send are of any kind.
abbrev pub Allows : OperationType → Fault → Type 0
Allows send_posted e = Unit {0}
Allows _ e = Tame e

sent_dispatch-Keeps :
    (sizes : Bytes → ℕ) (a : Answers) (k p : ℕ) (o : OperationType) (r : Own)
    → r.locks ≡ false
    → o ≡ send_posted
    → Keeps (λ e. Unit {0}) r (dispatch_steps sizes a k p o) Unlocked
unfolding dispatch_steps
sent_dispatch-Keeps sizes a k p accept_posted r l e = cc
sent_dispatch-Keeps sizes a k p recv_posted r l e = cc
sent_dispatch-Keeps sizes a k p send_posted r l e = Keeps-gives (λ e. Unit {0}) r true Unlocked l
sent_dispatch-Keeps sizes a k p null_posted r l e = cc

-- The round of a completed send ends when it has looked at the kind of its io.
pub sent_round-Keeps :
    (sizes : Bytes → ℕ) (a : Answers) (c : Completion) (r : Own)
    → r.role c.io ≡ looks
    → r.locks ≡ false
    → Keeps (λ e. Unit {0}) r (worker_round_steps sizes a c) Unlocked
unfolding worker_round_steps
sent_round-Keeps sizes a c r h l =
    Keeps-if (λ e. Unit {0}) r (not c.ok) (gives true) _ Unlocked
      (Keeps-gives (λ e. Unit {0}) r true Unlocked l)
      (Keeps-if (λ e. Unit {0}) r (c.key == 0) (gives false) _ Unlocked
        (Keeps-gives (λ e. Unit {0}) r false Unlocked l)
        (Keeps-if (λ e. Unit {0}) r (c.io == 0) (gives true) _ Unlocked
          (Keeps-gives (λ e. Unit {0}) r true Unlocked l)
          (Keeps-look r Unlocked c.io _ h l λ d o.
            Keeps-if (λ e. Unit {0}) r (c.bytes == 0 && is_recv_or_send d.operationtype)
              (gives true) _ Unlocked (Keeps-gives (λ e. Unit {0}) r true Unlocked l)
              (sent_dispatch-Keeps sizes a c.key c.io d.operationtype r l o))))
