-- ===== src/Server/Interleaved/Posts.antt =====
-- Posting a receive and an accept, and the release, step by step.
use amsserver.Io.Buffer.{recv_posted, accept_posted, PerIoData, prepare, reset_io_buf}
use amsserver.Base.{
  refl, ◌≡◌, none, some, true, false, inl, ℕ, Bool, ◌≢◌, ◌∙◌, ◌==◌, sym, ◌||◌, Option, overrun,
}
use amsserver.Server.Interleaved.Own.{Role, none_of, holds, Own}
use amsserver.Server.Interleaved.Claims.{assign, replace_self, replace_ne}
use amsserver.Server.Interleaved.Rules.{
  Keeps, Tame, Keeps-if, Keeps-gives, Keeps-waits, Keeps-breaks,
}
use amsserver.Server.Interleaved.Calls.{Keeps-load_handle, Keeps-load, Keeps-store_held}
use amsserver.Server.Interleaved.Starts.{Keeps-start_recv, Keeps-start_accept, Keeps-delete, IsDue}
use amsserver.Server.Interleaved.Handles.{Keeps-close_socket, Keeps-release}
use amsserver.Server.Interleaved.Handlers.{
  remove_io_data_steps, accept_or_close_steps, post_accept_ex_steps, post_recv_steps,
}
use amsserver.Server.Interleaved.Steps.{Steps, gives, call, ◌>>◌}
use amsserver.Io.World.{Answers, store}

-- What stays of what a thread owns but for the io `c`.
pub record Still (c : ℕ) (r s : Own) : Type 0 where
  pub role : (q : ℕ) → q ≢ c → s.role q ≡ r.role q
  pub knows : (k : ℕ) → r.knows k ≡ true → s.knows k ≡ true
  pub locks : s.locks ≡ r.locks

pub Still-refl : (c : ℕ) (r : Own) → Still c r r
Still-refl c r = record { role = λ q n. refl; knows = λ k e. e; locks = refl }

pub Still-assign : (c : ℕ) (x : Role) (r s : Own) → Still c r s → Still c r (assign c x s)
Still-assign c x r s t = record {
  role = λ q n. replace_ne s.role c q x n ∙ t.role q n;
  knows = t.knows;
  locks = t.locks;
}

-- What stays after the io was given a role stays of what there was before.
pub Still-after : (c : ℕ) (x : Role) (r s : Own) → Still c (assign c x r) s → Still c r s
Still-after c x r s t = record {
  role = λ q n. t.role q n ∙ replace_ne r.role c q x n;
  knows = t.knows;
  locks = t.locks;
}

pub remove-Keeps :
    (c : ℕ) (r : Own)
    → IsDue (r.role c)
    → r.locks ≡ false
    → Keeps Tame r (remove_io_data_steps c) (λ x s. Still c r s)
unfolding remove_io_data_steps
remove-Keeps c r d l =
    let q : Own = record r { locks = true } in
    Keeps-if Tame r (c == 0) (gives tt) _ (λ x s. Still c r s)
      (Keeps-gives Tame r tt (λ x s. Still c r s) (Still-refl c r))
      (Keeps-waits r _ (λ x s. Still c r s) l
        (Keeps-delete q (λ x s. Still c r s) c _ d
          (Keeps-release (assign c none_of q) (λ x s. Still c r s) _ refl
            (Keeps-gives Tame (record (assign c none_of q) { locks = false }) tt
              (λ x s. Still c r s)
              (record {
                role = λ p n. replace_ne r.role c p none_of n;
                knows = λ k e. e;
                locks = sym l;
              })))))

pub post_recv-Keeps :
    (started : Bool) (k c : ℕ) (r : Own)
    → r.role c ≡ holds
    → r.knows k ≡ true
    → k ≢ 0
    → r.locks ≡ false
    → Keeps Tame r (post_recv_steps started k c) (λ x s. Still c r s)
unfolding post_recv_steps
post_recv-Keeps started k c r h m n l =
    let s : Own = assign c holds r in
    let t : Still c r s = Still-assign c holds r r (Still-refl c r) in
    Keeps-if Tame r (k == 0 || c == 0) (gives tt) _ (λ x s. Still c r s)
      (Keeps-gives Tame r tt (λ x s. Still c r s) (Still-refl c r))
      (Keeps-load r (λ x s. Still c r s) c _ (inl h)
        λ d.
          Keeps-store_held r (λ x s. Still c r s) c (prepare recv_posted d) _ (inl h)
            (Keeps-load_handle s (λ x s. Still c r s) k _ m
              λ g.
                Keeps-if Tame s (d.bytestransfer == 0) _ _ (λ x s. Still c r s)
                  (Keeps-if Tame s started _ (gives tt) (λ x s. Still c r s)
                    (Keeps-start_recv s (λ x s. Still c r s) k c _
                      (inl (replace_self r.role c holds)) m n
                      (Keeps-gives Tame (assign c none_of s) tt (λ x s. Still c r s)
                        (Still-assign c none_of r s t)))
                    (Keeps-gives Tame s tt (λ x s. Still c r s) t))
                  (Keeps-breaks s overrun (λ x s. Still c r s) (λ e. cc) l)))

accept_or_close-Keeps :
    (a : Answers) (c : ℕ) (r s : Own)
    → s.role c ≡ holds
    → Still c r s
    → Keeps Tame s (accept_or_close_steps a c) (λ x s. Still c r s)
unfolding accept_or_close_steps
accept_or_close-Keeps a c r s h t =
    Keeps-if Tame s a.accept_ex _ _ (λ x s. Still c r s)
      (Keeps-start_accept s (λ x s. Still c r s) c _ (inl h)
        (Keeps-gives Tame (assign c none_of s) tt (λ x s. Still c r s)
          (Still-assign c none_of r s t)))
      (Keeps-close_socket s (λ x s. Still c r s) a.wsa_socket _
        (Keeps-load s (λ x s. Still c r s) c _ (inl h)
          λ d.
            Keeps-store_held s (λ x s. Still c r s) c (record d { acceptsocket = none }) _ (inl h)
              (Keeps-gives Tame (assign c holds s) tt (λ x s. Still c r s)
                (Still-assign c holds r s t))))

pub post_accept_ex-Keeps :
    (a : Answers) (c : ℕ) (r : Own)
    → r.role c ≡ holds
    → Keeps Tame r (post_accept_ex_steps a c) (λ x s. Still c r s)
unfolding post_accept_ex_steps
post_accept_ex-Keeps a c r h =
    Keeps-if Tame r (c == 0) (gives tt) _ (λ x s. Still c r s)
      (Keeps-gives Tame r tt (λ x s. Still c r s) (Still-refl c r))
      (Keeps-load r (λ x s. Still c r s) c _ (inl h)
        λ d.
          Keeps-store_held r (λ x s. Still c r s) c (record d { acceptsocket = a.wsa_socket }) _
            (inl h) (opened d a.wsa_socket))
  where
    opened :
        (d : PerIoData) (o : Option ℕ)
        → Keeps Tame
            (assign c holds r)
            (elim o as (λ _. Steps (Unit {0})) [
              | none ↦ gives tt
              | some l ↦
                  call (
                    store c
                      (prepare accept_posted (reset_io_buf (record d { acceptsocket = some l }))))
                  >> accept_or_close_steps a c
            ])
            (λ x s. Still c r s)
    opened d none =
        Keeps-gives Tame (assign c holds r) tt (λ x s. Still c r s)
          (Still-assign c holds r r (Still-refl c r))
    opened d (some l) =
        Keeps-store_held (assign c holds r) (λ x s. Still c r s) c
          (prepare accept_posted (reset_io_buf (record d { acceptsocket = some l }))) _
          (inl (replace_self r.role c holds))
          (accept_or_close-Keeps a c r (assign c holds (assign c holds r))
            (replace_self (assign c holds r).role c holds)
            (Still-assign c holds r (assign c holds r) (Still-assign c holds r r (Still-refl c r))))
