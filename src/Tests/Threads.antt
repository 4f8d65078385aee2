-- ===== src/Tests/Threads.antt =====
-- Tests of the workers as threads: two handle an accept each, and a third the completion of a send.
use mathlib.Core.WellFounded.{Acc}
use amsserver.Server.Interleaved.Finite.{Comes}
use amsserver.Server.Interleaved.Ends.{Later, HaveEnded, HasFault, rounds_end}
use amsserver.Server.Interleaved.Safety.{Reach-Steady, released_send, IsGoing, no_deadlock}
use amsserver.Server.Interleaved.Handlers.{worker_round_steps, dispatch_steps, do_accept_ex_steps}
use amsserver.Server.System.Taken.{store_received, without}
use amsserver.Tests.{large, with_io, willing}
use amsserver.Server.Interleaved.Steps.{Stepped, advance, goes, ended, faults, blocked}
use amsserver.Server.Worker.{Completion}
use amsserver.Server.Interleaved.Own.{Steady}
use amsserver.Io.World.{Pending, World, load}
use amsserver.Io.Buffer.{send_posted, accept_posted, PerIoData, prepare, new_io}
use amsserver.Base.{
  refl, ◌≡◌, if◌then◌else◌, ◌∷◌, [], none, some, true, ℕ, arith, List, Bool, ◌==◌, false, ◌<◌, ◌⊎◌,
  use_after_free,
}
use amsserver.Server.Interleaved.Pool.{
  Pool, Goes, goes_on, replace, Reach, steps, moves, begins, takes, idle,
}

abbrev accept_pending : ℕ → Pending
accept_pending p = record { key = 7; io = p; kind = accept_posted }

abbrev send_pending : Pending
send_pending = record { key = 7; io = 2; kind = send_posted }

abbrev accepting : PerIoData
accepting = record (prepare accept_posted new_io) { acceptsocket = some 9 }

-- The io of the send is released already.
abbrev listening : World
listening = record (with_io accepting) {
  ios = λ p. if p == 3 then some accepting else if p == 4 then some accepting else none;
  pending = accept_pending 3 ∷ accept_pending 4 ∷ send_pending ∷ [];
  listenhandle = 7;
}

listening-Steady : Steady listening
listening-Steady = record {
  next_io_given = ground arith;
  next_handle_given = ground arith;
  listener_given = ground arith;
  listener_there = ground arith;
  kept = (
    (ground arith, ground arith, ground arith, ground arith, ground arith),
    (
      (ground arith, ground arith, ground arith, ground arith, ground arith),
      ((ground arith, ground arith, ground arith, ground arith, tt), tt),
    ),
  );
  distinct = ((ground arith, (ground arith, tt)), ((ground arith, tt), (tt, tt)));
}

abbrev completes : ℕ → Completion
completes p = record { ok = true; key = 7; io = p; bytes = 0 }

abbrev sent : Completion
sent = record { ok = true; key = 7; io = 2; bytes = 1500 }

abbrev take : ℕ → Completion → Pending → List Pending → List Pending → Pool → Pool
take i c op before after s = record {
  world = store_received op.kind op.io [] (without before after s.world);
  thread =
      replace s.thread i (record { kind = op.kind; rest = worker_round_steps large willing c });
}

-- The next step of a thread, where it has one.
abbrev go_on : ℕ → Pool → Stepped Bool → Pool
go_on i s (goes q v) = record {
  world = v;
  thread = replace s.thread i (record { kind = (s.thread i).kind; rest = q });
}
go_on i s _ = s

abbrev step : ℕ → Pool → Pool
step i s = go_on i s (advance (s.thread i).rest s.world)

abbrev begun : Pool
begun = record { world = listening; thread = λ i. idle }

abbrev taken : Pool
taken = take 2 sent send_pending [] [] (
    take 1 (completes 4) (accept_pending 4) [] (send_pending ∷ [])
      (take 0 (completes 3) (accept_pending 3) [] (accept_pending 4 ∷ send_pending ∷ []) begun))

taken-Reach : Reach large 3 listening taken
taken-Reach =
    moves
      (moves
        (moves (begins begun refl) (
          takes 0 willing (completes 3) (accept_pending 3) [] (accept_pending 4 ∷ send_pending ∷ [])
            [] (ground arith) refl refl refl refl refl))
        (takes 1 willing (completes 4) (accept_pending 4) [] (send_pending ∷ []) [] (ground arith)
          refl refl refl refl refl))
      (takes 2 willing sent send_pending [] [] [] (ground arith) refl refl refl refl refl)

step-Goes :
    (n i : ℕ) (s : Pool) (o : Stepped Bool)
    → i < n
    → advance (s.thread i).rest s.world ≡ o
    → IsGoing o
    → Goes n s (go_on i s o)
step-Goes n i s (ended x) l e m = absurd m
step-Goes n i s blocked l e m = absurd m
step-Goes n i s (faults x) l e m = absurd m
step-Goes n i s (goes q v) l e m = goes_on i q v l e refl

step-Reach :
    (i : ℕ) (s : Pool)
    → i < 3
    → Reach large 3 listening s
    → IsGoing (advance (s.thread i).rest s.world)
    → Reach large 3 listening (step i s)
step-Reach i s l r m =
    moves r (steps (step-Goes 3 i s (advance (s.thread i).rest s.world) l refl m))

-- Both have read their io twice, and the first waits for the mutex and has it.
abbrev first_reads : Pool
unfolding advance
first_reads = step 0 (step 0 taken)

abbrev both_read : Pool
unfolding advance
both_read = step 1 (step 1 first_reads)

abbrev crowded : Pool
unfolding advance
crowded = step 0 both_read

both_read-Reach : Reach large 3 listening both_read
unfolding advance worker_round_steps dispatch_steps do_accept_ex_steps load
both_read-Reach =
    step-Reach 1 (step 1 first_reads) (ground arith)
      (step-Reach 1 first_reads (ground arith)
        (step-Reach 0 (step 0 taken) (ground arith)
          (step-Reach 0 taken (ground arith) taken-Reach tt) tt)
        tt)
      tt

crowded-Reach : Reach large 3 listening crowded
unfolding advance worker_round_steps dispatch_steps do_accept_ex_steps load
crowded-Reach = step-Reach 0 both_read (ground arith) both_read-Reach tt

second_waits : advance (crowded.thread 1).rest crowded.world ≡ blocked
unfolding advance worker_round_steps dispatch_steps do_accept_ex_steps load
second_waits = refl

third_faults : advance (crowded.thread 2).rest crowded.world ≡ faults use_after_free
unfolding advance worker_round_steps dispatch_steps do_accept_ex_steps load
third_faults = refl

Reach-Steady_example : Steady crowded.world
Reach-Steady_example = Reach-Steady large 3 listening crowded listening-Steady refl crowded-Reach

released_send_example : (crowded.thread 2).kind ≡ send_posted
released_send_example =
    released_send large 3 listening crowded listening-Steady refl crowded-Reach 2 third_faults

no_deadlock_example : (j : ℕ) × (j < 3) × IsGoing (advance (crowded.thread j).rest crowded.world)
no_deadlock_example =
    no_deadlock large 3 listening crowded listening-Steady refl crowded-Reach 1 second_waits

rounds_end_example :
    Acc (Comes 3) crowded
    × ((t : Pool) × Later 3 crowded t
        × ((HaveEnded 3 t × (t.world.heap_locked ≡ false)) ⊎ HasFault 3 t))
rounds_end_example = rounds_end large 3 listening listening-Steady refl crowded crowded-Reach
