-- ===== src/Server/HttpRecv/Fatal.antt =====
-- Exactly which receives end the process, and what the others lead to.
use amsserver.Crt.Equality.{equal_iff}
use mathlib.Core.Path.{subst}
use native.Mathlib.Decide.{dec_lt}
use amsserver.Server.HttpRecv.Steps.{reaches_answer}
use amsserver.Server.Http.{http_get_length}
use amsserver.Crt.Text.{strstr, equal}
use amsserver.Log.{received_line, one_log_len}
use amsserver.Crt.Scan.{store_token, before, scan_query}
use amsserver.Server.HttpRecv.{http_do_recv}
use amsserver.Io.World.{SocketHandle, Answers, World}
use amsserver.Io.Buffer.{PerIoData, buffersize, read_text}
use amsserver.Base.{
  refl, ◌≡◌, if◌then◌else◌, [], none, some, true, inl, inr, done, crash, Bytes, ℕ, Fault, ◌≢◌, ◌≤◌,
  ◌⊎◌, length, Returns, Option, ◌↔◌, overrun, ◌<◌, codes, ltb, underrun, arith, Returns-mono, false,
  Bool, Bool-cases, sym, take, ◌∙◌, drop, Outcome, ◌-◌,
}
use amsserver.Server.HttpRecv.Faults.{
  EndsRequest, Holds, incomplete_faults, long_query_faults, long_message_faults, full_buffer_faults,
  no_get_refused,
}
use amsserver.Server.HttpRecv.Answer.{answer-Effect, Effect}
use amsserver.Io.World.{update}

ends_or_not : (t : Bytes) → EndsRequest t ⊎ (¬ EndsRequest t)
ends_or_not t = elim (dec_lt (length t) 4) [
  | yes l ↦ inr (λ e. absurd (omega (arith, l, e.0)))
  | no l ↦ elim (Bool-cases (equal (take 4 (drop (length t - 4) t)) (codes "\r\n\r\n"))) [
    | inl b ↦ inl (omega arith, (equal_iff _ _).0 b)
    | inr b ↦ inr (λ e. not_both b ((equal_iff _ _).1 e.1))
  ]
]
  where
    not_both : {b : Bool} → b ≡ false → b ≡ true → ⊥
    not_both f g = cc

-- What a receive may bring that the handler does not survive, and the fault.
pub data Fatal (sizes : Bytes → ℕ) (d : PerIoData) (h : SocketHandle) : Fault → Type 0 where
  full_buffer : buffersize ≤ length (before 0 d.buf) → Fatal sizes d h overrun
  incomplete :
      (t : Bytes)
      → read_text d ≡ done t
      → ¬ EndsRequest t
      → Fatal sizes d h (if ltb (length t) 4 then underrun else overrun)
  long_message :
      (t : Bytes)
      → read_text d ≡ done t
      → EndsRequest t
      → one_log_len ≤ length (received_line h.ssocketaddr t)
      → Fatal sizes d h overrun
  long_query :
      (t g q : Bytes)
      → read_text d ≡ done t
      → EndsRequest t
      → length (received_line h.ssocketaddr t) < one_log_len
      → strstr t (codes "GET") ≡ some g
      → scan_query t ≡ some q
      → http_get_length ≤ length q
      → length q < sizes (codes "GET")
      → Fatal sizes d h overrun

-- What a receive that the handler survives leads to: `DoRecv` returns `r` and leaves the world `v`. A
-- request with GET has its query answered, or passed over in silence, and a new receive is posted. One with
-- no GET is refused: the number of its bytes is stored in the io, and that is all.
pub data Treated (sizes : Bytes → ℕ) (d : PerIoData) (h : SocketHandle) (k p : ℕ) (w : World)
    (r : Bool) (v : World) : Type 0 where
  asked :
      (t g q : Bytes)
      → read_text d ≡ done t
      → EndsRequest t
      → strstr t (codes "GET") ≡ some g
      → store_token http_get_length (sizes (codes "GET")) [] (scan_query t) ≡ done q
      → r ≡ true
      → Effect sizes q k p h w v
      → Treated sizes d h k p w r v
  refused :
      (t : Bytes)
      → read_text d ≡ done t
      → EndsRequest t
      → strstr t (codes "GET") ≡ none
      → r ≡ false
      → v ≡ record w { ios = update w.ios p (some (record d { bytestransfer = length t })) }
      → Treated sizes d h k p w r v

module _ (sizes : Bytes → ℕ) (a : Answers) (w : World) (k p : ℕ) (d : PerIoData) (h : SocketHandle)
    (hk : k ≢ 0) (hp : p ≢ 0) (live : w.ios p ≡ some d) (there : w.handles k ≡ some h) where
  held : (t : Bytes) → read_text d ≡ done t → Holds w k p d h t
  held t r = record {
    key_given = hk;
    io_given = hp;
    io_live = live;
    handle_live = there;
    reads = r;
  }

  pub Fatal-faults : (e : Fault) → Fatal sizes d h e → http_do_recv sizes a k p w ≡ crash e
  Fatal-faults e (full_buffer n) = full_buffer_faults sizes a w k p d hk hp live n
  Fatal-faults e (incomplete t r n) = incomplete_faults sizes a w k p d h t (held t r) n
  Fatal-faults e (long_message t r n l) = long_message_faults sizes a w k p d h t (held t r) n l
  Fatal-faults e (long_query t g q r n l s u m o) =
      long_query_faults sizes a w k p d h t (held t r) g q n l s u m o

  module _ (hn : w.next_io ≢ 0) (fresh : p ≢ w.next_io) (recv_starts : a.wsa_recv ≡ true)
      (send_starts : a.wsa_send ≡ true) where
    -- The handler faults in one of these ways, or it returns.
    abbrev pub Settled : Type 0
    Settled =
        ((e : Fault) × Fatal sizes d h e)
        ⊎ Returns (http_do_recv sizes a k p w) (λ (r, v). Treated sizes d h k p w r v)

    answers :
        (t g q : Bytes)
        → read_text d ≡ done t
        → EndsRequest t
        → length (received_line h.ssocketaddr t) < one_log_len
        → strstr t (codes "GET") ≡ some g
        → store_token http_get_length (sizes (codes "GET")) [] (scan_query t) ≡ done q
        → length q < 980
        → Settled
    answers t g q i n l s u m = inr (
        rw (reaches_answer sizes a w k p d h hk hp live there t g i n l s) (
          Returns-mono _ _ (λ (r, v). Treated sizes d h k p w r v)
            (answer-Effect sizes a w k p d h hk hp hn fresh live there recv_starts send_starts
              (length t) t q u m)
            (λ r e. asked t g q i n s u e.0 e.1)))

    -- A request with GET, by the query that is scanned.
    scanned :
        (t g : Bytes)
        → read_text d ≡ done t
        → EndsRequest t
        → length (received_line h.ssocketaddr t) < one_log_len
        → strstr t (codes "GET") ≡ some g
        → (o : Option Bytes) → scan_query t ≡ o
        → Settled
    unfolding store_token
    scanned t g r n l s none u = answers t g [] r n l s (rw u refl) (omega arith)
    scanned t g r n l s (some q) u = elim (dec_lt (length q) (sizes (codes "GET"))) [
      | no c ↦ answers t g [] r n l s (rw u (ground arith)) (omega arith)
      | yes c ↦ elim (dec_lt (length q) http_get_length) [
        | yes m ↦ answers t g q r n l s (rw u (ground arith)) (omega arith)
        | no m ↦ inl (overrun, long_query t g q r n l s u (omega arith) c)
      ]
    ]

    -- A whole request, by its line for the log and its text.
    whole :
        (t : Bytes)
        → read_text d ≡ done t
        → EndsRequest t
        → (o : Option Bytes) → strstr t (codes "GET") ≡ o
        → Settled
    whole t r n o s = elim (dec_lt (length (received_line h.ssocketaddr t)) one_log_len) [
      | no l ↦ inl (overrun, long_message t r n (omega arith))
      | yes l ↦ logged l o s
    ]
      where
        logged :
            length (received_line h.ssocketaddr t) < one_log_len
            → (o : Option Bytes) → strstr t (codes "GET") ≡ o
            → Settled
        logged l none s =
            inr
              (rw (no_get_refused sizes a w k p d h t (held t r) n l s) (refused t r n s refl refl))
        logged l (some g) s = scanned t g r n l s (scan_query t) refl

    pub settled : Settled
    unfolding read_text
    settled = elim (dec_lt (length (before 0 d.buf)) buffersize) [
      | no l ↦ inl (overrun, full_buffer (omega arith))
      | yes l ↦ read (before 0 d.buf) (ground arith)
    ]
      where
        read : (t : Bytes) → read_text d ≡ done t → Settled
        read t r = elim (ends_or_not t) [
          | inr n ↦ inl (if ltb (length t) 4 then underrun else overrun, incomplete t r n)
          | inl n ↦ whole t r n (strstr t (codes "GET")) refl
        ]

    -- On a live io, which is not the next new one, and a live handle, where the system starts the send and the
    -- new receive: the handler faults exactly if the receive has filled the buffer with no NUL, the text does
    -- not end a request, its line for the log has 1000 bytes or more, or its query, which sscanf_s reads, has
    -- 256 bytes or more, and with the fault that is due.
    pub crashes_iff : (e : Fault) → (http_do_recv sizes a k p w ≡ crash e) ↔ Fatal sizes d h e
    crashes_iff e = (of_crash settled, Fatal-faults e)
      where
        same : (f : Fault) → ◌≡◌ {A = Outcome (Bool × World)} (crash f) (crash e) → f ≡ e
        same f c = cc

        of_crash : Settled → http_do_recv sizes a k p w ≡ crash e → Fatal sizes d h e
        of_crash (inl (f, x)) c = subst (Fatal sizes d h) (same f (sym (Fatal-faults f x) ∙ c)) x
        of_crash (inr r) c = absurd (
            subst
              (λ (o : Outcome (Bool × World)). Returns o (λ (r, v). Treated sizes d h k p w r v)) c
              r)
