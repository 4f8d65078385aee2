-- ===== src/Io/Texts.antt =====
-- Appending to a buffer that holds a text and no older bytes behind it.
use amsserver.Crt.Bounds.{strcat_s-done}
use amsserver.Crt.Search.{Lacks, before_all}
use amsserver.Base.{
  refl, ◌≡◌, ◌∷◌, [], suc, done, Bytes, ◌++◌, length, ◌≤◌, ◌<◌, ◌+◌, drop, arith, replicate,
  drop_all, ◌-◌, length-append, ℕ, take_all, length-replicate,
}
use amsserver.Io.Buffer.{PerIoData, over, buffersize, read_text, append_text, sent_bytes}

-- No byte is NUL.
abbrev pub IsText : Bytes → Type 0
IsText = Lacks 0

pub IsText-append : (s t : Bytes) → IsText s → IsText t → IsText (s ++ t)
IsText-append [] t a b = b
IsText-append (x ∷ s) t a b = (a.0, IsText-append s t a.1 b)

pub over-nil : (s old : Bytes) → length old ≤ length s → over s (drop (suc (length s)) old) ≡ s
unfolding over
over-nil s old h = rw (drop_all (suc (length s)) old (omega arith)) refl

-- A buffer that was cleared and then only appended to.
pub record IsClean (d : PerIoData) : Type 0 where
  pub text : IsText d.buf
  pub room : d.len ≡ buffersize

pub read_text-clean :
    (d : PerIoData) → IsText d.buf → length d.buf < buffersize → read_text d ≡ done d.buf
unfolding read_text
read_text-clean d t h = rw (before_all 0 d.buf t) (ground arith)

pub append_text-clean :
    (d : PerIoData) (more : Bytes)
    → IsClean d
    → length d.buf + length more < buffersize
    → append_text d more ≡ done (record d { buf = d.buf ++ more })
unfolding append_text
append_text-clean d more c h = rw (
  read_text-clean d c.text (omega arith),
  c.room,
  strcat_s-done buffersize buffersize d.buf more h h,
  over-nil (d.buf ++ more) d.buf (omega (arith, length-append d.buf more)),
)

length-pad : (n : ℕ) (s : Bytes) → length s ≤ n → length (s ++ replicate (n - length s) 0) ≡ n
length-pad n s h =
    omega (
      arith,
      length-append s (replicate (n - length s) 0),
      length-replicate {A = ℕ} (n - length s) 0,
    )

-- The system sends the whole buffer, not the text: the text comes first and zeros fill the rest.
pub sent_bytes-padded :
    (d : PerIoData)
    → d.len ≡ buffersize
    → length d.buf ≤ buffersize
    → (sent_bytes d ≡ d.buf ++ replicate (buffersize - length d.buf) 0)
      × (length (sent_bytes d) ≡ buffersize)
unfolding sent_bytes
sent_bytes-padded d e h = (
  rw (e, take_all buffersize d.buf h),
  rw (e, take_all buffersize d.buf h) (length-pad buffersize d.buf h),
)
