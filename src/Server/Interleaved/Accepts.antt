-- ===== src/Server/Interleaved/Accepts.antt =====
-- The handler of an accepted connection, step by step.
use amsserver.Server.Interleaved.Posts.{Still, remove-Keeps, post_recv-Keeps, post_accept_ex-Keeps}
use amsserver.Server.Interleaved.Handles.{
  Keeps-new_handle, learn, Keeps-release, Keeps-store_handle,
}
use amsserver.Server.Interleaved.Calls.{Keeps-load, Keeps-new}
use amsserver.Server.Interleaved.Steps.{◌>>=◌, ◌>>◌, call, gives}
use amsserver.Server.Interleaved.Rules.{Keeps, Tame, Keeps-waits, Keeps-bind, Keeps-if, Keeps-gives}
use amsserver.Server.Interleaved.Handlers.{
  do_accept_ex_steps, remove_io_data_steps, post_accept_ex_steps, post_recv_steps,
}
use amsserver.Io.World.{Answers, get_new_io_data}
use amsserver.Base.{refl, ◌≡◌, true, false, inl, Bool, ℕ, ◌≢◌, sym, ◌∙◌, ap, arith}
use amsserver.Server.Interleaved.Own.{Own, holds, none_of}
use amsserver.Server.Interleaved.Claims.{assign, replace_self, replace_ne}

-- A round that has ended does not have the mutex.
abbrev pub Unlocked : Bool → Own → Type 0
Unlocked b s = s.locks ≡ false

-- The io that the thread held is another than the new one.
pub held_ne : (p q : ℕ) (r : Own) → r.role p ≡ holds → r.role q ≡ none_of → p ≢ q
held_ne p q r h n e = absurd (holds_ne (sym h ∙ ap r.role e ∙ n))
  where
    holds_ne : holds ≡ none_of → ⊥
    holds_ne e = cc

-- After the receive on the new connection: the release, and the accept that takes its place.
renew-Keeps :
    (a : Answers) (p : ℕ) (r : Own)
    → r.role p ≡ holds
    → r.locks ≡ false
    → Keeps Tame r
        (remove_io_data_steps p
          >> (call get_new_io_data >>= λ n. post_accept_ex_steps a n >> gives true))
        Unlocked
renew-Keeps a p r h l =
    Keeps-bind Tame r (remove_io_data_steps p) _ (λ x s. Still p r s) Unlocked
      (remove-Keeps p r (inl h) l)
      λ x s t. Keeps-new s Unlocked _ λ n g m.
        Keeps-bind Tame (assign n holds s) (post_accept_ex_steps a n) _
          (λ x u. Still n (assign n holds s) u) Unlocked
          (post_accept_ex-Keeps a n (assign n holds s) (replace_self s.role n holds))
          λ y u v. Keeps-gives Tame u true Unlocked (v.locks ∙ t.locks ∙ l)

serve-Keeps :
    (a : Answers) (p k : ℕ) (r : Own)
    → r.role p ≡ holds
    → r.knows k ≡ true
    → k ≢ 0
    → r.locks ≡ false
    → Keeps Tame r
        (call get_new_io_data >>= λ c.
          post_recv_steps a.wsa_recv k c
          >> (remove_io_data_steps p
              >> (call get_new_io_data >>= λ n. post_accept_ex_steps a n >> gives true)))
        Unlocked
serve-Keeps a p k r h m n l = Keeps-new r Unlocked _ λ c g e.
    let s : Own = assign c holds r in
    Keeps-bind Tame s (post_recv_steps a.wsa_recv k c) _ (λ x u. Still c s u) Unlocked
      (post_recv-Keeps a.wsa_recv k c s (replace_self r.role c holds) m n l)
      λ x u t.
        renew-Keeps a p u
          (t.role p (held_ne p c r h e) ∙ replace_ne r.role c p holds (held_ne p c r h e) ∙ h)
          (t.locks ∙ l)

pub do_accept_ex-Keeps :
    (a : Answers) (p : ℕ) (r : Own)
    → r.role p ≡ holds
    → r.locks ≡ false
    → Keeps Tame r (do_accept_ex_steps a p) Unlocked
unfolding do_accept_ex_steps
do_accept_ex-Keeps a p r h l = Keeps-load r Unlocked p _ (inl h) λ d. Keeps-waits r _ Unlocked l (
    Keeps-new_handle (record r { locks = true }) Unlocked _
      λ k n.
        let s : Own = record (learn k (record r { locks = true })) { locks = false } in
        Keeps-release (learn k (record r { locks = true })) Unlocked _ refl (
          Keeps-store_handle s Unlocked k _ _ (ground arith) (
            Keeps-if Tame s _ _ (gives false) Unlocked (serve-Keeps a p k s h (ground arith) n refl)
              (Keeps-gives Tame s false Unlocked refl))))
