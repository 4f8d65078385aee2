-- ===== src/Log.antt =====
-- `AMS_DBUG_LOG` of AMSServer/src/AMSServer.cpp, and the class `FileLog` of FileLog.cpp.
use amsserver.Base.{
  Bytes, if◌then◌else◌, ◌∷◌, [], true, false, done, crash, ℕ, Outcome, codes, Bool, List, leb, ◌++◌,
  not, ◌&&◌, ◌≡◌, length, overrun, refl, sym, append-nil, arith, ◌∙◌, ap, append_assoc, ◌>>=◌, inl,
  inr, Bool-cases,
}

-- The bytes of `templog`.
abbrev pub one_log_len : ℕ
one_log_len = 1000

-- One line for the log. vsprintf_s is given the length of the line for the size of `templog`.
unfoldable pub ams_dbug_log : Bytes → Outcome (Unit {0})
ams_dbug_log line = if leb one_log_len (length line) then crash overrun else done tt

-- The line that a handler writes for a message: the sender as "address:port", and the message.
abbrev pub received_line : Bytes → Bytes → Bytes
received_line sender message =
    codes "receive from " ++ (sender ++ (codes ", message:\n" ++ (message ++ codes "\n")))

-- The log file: its handle, whether the mutex is held, and the bytes of the file.
pub record FileLog : Type 0 where
  pub logfd : Bool
  pub locked : Bool
  pub content : Bytes

-- What the system answers to `OpenLogFile`: each is whether the call succeeds.
pub record PathAnswers : Type 0 where
  pub module_file_name : Bool
  pub remove_file_spec : Bool
  pub combine : Bool
  pub create_file : Bool

unfoldable pub open_log_file : PathAnswers → FileLog → FileLog × Bool
open_log_file a f =
    if not a.module_file_name
    then (f, false)
    else if not a.remove_file_spec
    then (f, false)
    else if not a.combine
    then (f, false)
    else if not a.create_file
    then (record f { logfd = false }, false)
    else (record f { logfd = true }, true)

abbrev wait_mutex : FileLog → FileLog
wait_mutex f = record f { locked = true }

abbrev release_mutex : FileLog → FileLog
release_mutex f = record f { locked = false }

-- SetFilePointer to the end and WriteFile; `written` is whether the system writes the bytes.
unfoldable pub append_file : Bool → Bytes → FileLog → FileLog
append_file written logstring f =
    if f.logfd && written then record f { content = f.content ++ logstring } else f

-- The name is the source's.
unfoldable pub wirte_log_file : Bool → Bytes → FileLog → FileLog
unfolding append_file
wirte_log_file written logstring f = release_mutex (append_file written logstring (wait_mutex f))

unfoldable pub write_all : FileLog → List Bytes → FileLog
write_all f [] = f
write_all f (line ∷ lines) = write_all (wirte_log_file true line f) lines

abbrev pub joined : List Bytes → Bytes
joined [] = []
joined (line ∷ lines) = line ++ joined lines

-- Once the file is open, the lines that the system writes stand in it in order, behind what was
-- there, and the mutex is free again.
pub write_all-content :
    (f : FileLog) (lines : List Bytes)
    → f.logfd ≡ true
    → f.locked ≡ false
    → ((write_all f lines).content ≡ f.content ++ joined lines)
      × ((write_all f lines).locked ≡ false)
unfolding write_all
write_all-content f [] o l = (sym (append-nil f.content), l)
write_all-content f (line ∷ lines) o l =
    let (c, u) = write_all-content (wirte_log_file true line f) lines (kept o) (freed f line) in
    (c ∙ ap (λ b. b ++ joined lines) (written o) ∙ append_assoc f.content line (joined lines), u)
  where
    kept : f.logfd ≡ true → (wirte_log_file true line f).logfd ≡ true
    kept e = unfold wirte_log_file in ground arith

    written : f.logfd ≡ true → (wirte_log_file true line f).content ≡ f.content ++ line
    written e = unfold wirte_log_file in ground arith

    freed : (g : FileLog) (t : Bytes) → (wirte_log_file true t g).locked ≡ false
    freed g t = unfold wirte_log_file in refl

-- `AMS_DBUG_LOG` to the end: the line goes to the file. `written` is whether the system writes the bytes.
unfoldable pub log_line : Bool → Bytes → FileLog → Outcome FileLog
unfolding ams_dbug_log wirte_log_file
log_line written line f = do _ ← ams_dbug_log line; done (wirte_log_file written line f)

unfoldable pub log_all : List (Bool × Bytes) → FileLog → Outcome FileLog
unfolding log_line
log_all [] f = done f
log_all ((written, line) ∷ lines) f = do g ← log_line written line f; log_all lines g

abbrev pub are_short : List (Bool × Bytes) → Bool
are_short [] = true
are_short ((written, line) ∷ lines) = not (leb one_log_len (length line)) && are_short lines

-- What gets into the file of the lines, `is_open` telling whether it is open.
abbrev pub kept_lines : Bool → List (Bool × Bytes) → Bytes
kept_lines is_open [] = []
kept_lines is_open ((written, line) ∷ lines) =
    (if is_open && written then line else []) ++ kept_lines is_open lines

wirte_log_file-appends :
    (written : Bool) (line : Bytes) (f : FileLog)
    → wirte_log_file written line f ≡ record f {
      locked = false;
      content = f.content ++ (if f.logfd && written then line else []);
    }
unfolding wirte_log_file append_file
wirte_log_file-appends written line f = elim (Bool-cases (f.logfd && written)) [
  | inl e ↦ rw e refl
  | inr e ↦ rw e (ap (λ c. record f { locked = false; content = c }) (sym (append-nil f.content)))
]

-- Lines for the log of fewer than 1000 bytes each go to the file in order, behind what was there: those that
-- the system writes, if the file is open. The mutex is free then, as it was. A longer line overruns the
-- buffer.
pub log_all-content :
    (lines : List (Bool × Bytes)) (f : FileLog)
    → f.locked ≡ false
    → log_all lines f ≡ (
        if are_short lines
        then done (record f { content = f.content ++ kept_lines f.logfd lines })
        else crash overrun)
unfolding log_all log_line ams_dbug_log
log_all-content [] f l =
    ap (λ (g : FileLog). done g) (ap (λ c. record f { content = c }) (sym (append-nil f.content)))
log_all-content ((written, line) ∷ lines) f l = elim (Bool-cases (leb one_log_len (length line))) [
  | inl e ↦ rw (e, log_line, ams_dbug_log) refl
  | inr e ↦
      rw (e, log_line, ams_dbug_log)
        (goes_on (
          log_all-content lines
            (record f {
              locked = false;
              content = f.content ++ (if f.logfd && written then line else []);
            })
            refl))
]
  where
    added : Bytes
    added = if f.logfd && written then line else []

    goes_on :
        log_all lines (record f { locked = false; content = f.content ++ added }) ≡ (
          if are_short lines
          then done (record f {
            locked = false;
            content = (f.content ++ added) ++ kept_lines f.logfd lines;
          })
          else crash overrun)
        → log_all lines (wirte_log_file written line f) ≡ (
            if are_short lines
            then done (record f { content = f.content ++ (added ++ kept_lines f.logfd lines) })
            else crash overrun)
    goes_on rest =
        ap (log_all lines) (wirte_log_file-appends written line f)
        ∙ rest
        ∙ ap
            (λ c.
              if are_short lines
              then done (record f { locked = false; content = c })
              else crash overrun)
            (append_assoc f.content added (kept_lines f.logfd lines))
        ∙ ap
            (λ k.
              if are_short lines
              then done (record f {
                locked = k;
                content = f.content ++ (added ++ kept_lines f.logfd lines);
              })
              else crash overrun)
            (sym l)
