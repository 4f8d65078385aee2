-- ===== src/Process.antt =====
-- The main function of AMSServer/src/AMSServer.cpp with `MFCAPP::InitInstance`: when the singletons are
-- made and deleted, and when they are used. A line of the log uses FileLog; where its static pointer is
-- NULL, the method is called on NULL. MFC is the user's actions, and the singletons that the handlers
-- of the main dialog and the workers of the server use while the object of the dialog is there. If the
-- dialog was ended with the server running, as by Return, the workers run on, and what they use later is
-- given too.
pub mod Ends
use amsserver.Singleton.{construct, destroy, get_singleton_instance}
use amsserver.Gui.Login.{LoginAction, opens_main}
use amsserver.Base.{
  ◌>>=◌, refl, ◌≡◌, if◌then◌else◌, ◌∷◌, [], done, crash, ℕ, Outcome, List, Bool, ◌≢◌, arith, ◌==◌,
  null_pointer, not, ◌&&◌, use_after_free, ◌⊎◌, inl, inr, Fault, true, false,
}

-- The classes with a static pointer.
pub data Class : Type 0 where
  file_log heap_protect_mutex iocp_server : Class

-- The static pointers.
pub record Instances : Type 0 where
  pub log : ℕ
  pub heap : ℕ
  pub server : ℕ

-- Before the main function runs.
abbrev pub no_instances : Instances
no_instances = record { log = 0; heap = 0; server = 0 }

abbrev pub pointer : Class → Instances → ℕ
pointer file_log s = s.log
pointer heap_protect_mutex s = s.heap
pointer iocp_server s = s.server

-- A method is called on what `GetSingletonInstance` returns.
unfoldable pub use_instance : Class → Instances → Outcome (Unit {0})
use_instance c s = if get_singleton_instance (pointer c s) == 0 then crash null_pointer else done tt

unfoldable pub use_all : List Class → Instances → Outcome (Unit {0})
unfolding use_instance
use_all [] s = done tt
use_all (c ∷ uses) s = do _ ← use_instance c s; use_all uses s

-- The constructor of IOCPServer, and its destructor, on the object at `this`.
unfoldable pub make_server : ℕ → Instances → Outcome Instances
unfolding use_instance
make_server this s = do
  _ ← use_instance file_log s
  done (record s { server = construct this s.server })

unfoldable pub delete_server : ℕ → Instances → Outcome Instances
unfolding use_instance
delete_server this s = do
  _ ← use_instance file_log s
  done (record s { server = destroy this s.server })

-- A worker uses the log and the mutex as the others do, but the server by the pointer that it was given.
unfoldable pub use_by_worker : Class → Instances → Outcome (Unit {0})
unfolding use_instance
use_by_worker iocp_server s = if s.server == 0 then crash use_after_free else done tt
use_by_worker c s = use_instance c s

unfoldable pub use_by_workers : List Class → Instances → Outcome (Unit {0})
unfolding use_by_worker
use_by_workers [] s = done tt
use_by_workers (c ∷ uses) s = do _ ← use_by_worker c s; use_by_workers uses s

-- What the workers that run on use when the server has been deleted, when the mutex has been too, and
-- when the log has been too.
pub record Late : Type 0 where
  pub server_gone : List Class
  pub heap_gone : List Class
  pub log_gone : List Class

abbrev pub no_workers : Late
no_workers = record { server_gone = []; heap_gone = []; log_gone = [] }

-- `InitInstance`. The object of the main dialog has the server, from its constructor to its destructor.
unfoldable pub init_instance : ℕ → List LoginAction → List Class → Instances → Outcome Instances
unfolding make_server delete_server use_all
init_instance server_at actions uses s = do
  _ ← use_instance file_log s
  if opens_main actions
      then (do
        t ← make_server server_at s
        _ ← use_instance file_log t
        _ ← use_all uses t
        delete_server server_at t)
      else done s

-- The constructor of HeapProtectMutex, and its destructor.
unfoldable pub make_heap_mutex : ℕ → Instances → Outcome Instances
unfolding use_instance
make_heap_mutex this s = do
  _ ← use_instance file_log s
  done (record s { heap = construct this s.heap })

unfoldable pub delete_heap_mutex : ℕ → Instances → Outcome Instances
unfolding use_instance
delete_heap_mutex this s = do
  _ ← use_instance file_log s
  done (record s { heap = destroy this s.heap })

-- Where `new` puts the three objects.
pub record Places : Type 0 where
  pub log_at : ℕ
  pub heap_at : ℕ
  pub server_at : ℕ

-- `_tmain`; `initialized` is what AfxWinInit returns, and `running` is whether the server runs when the
-- main dialog has been ended. The result has the exit code.
unfoldable pub tmain :
    Places
    → Bool
    → List LoginAction
    → List Class
    → Bool
    → Late
    → Instances
    → Outcome (Instances × ℕ)
unfolding init_instance make_heap_mutex delete_heap_mutex use_by_workers
tmain p initialized actions uses running late s = do
  let r : Instances = record s { log = construct p.log_at s.log }
  _ ← use_instance file_log r
  t ← make_heap_mutex p.heap_at r
  if not initialized then (do _ ← use_instance file_log t; done (t, 1)) else (do
    u ← init_instance p.server_at actions uses t
    let left : Late = if opens_main actions && running then late else no_workers
    _ ← use_by_workers left.server_gone u
    v ← delete_heap_mutex p.heap_at u
    _ ← use_by_workers left.heap_gone v
    let x : Instances = record v { log = destroy p.log_at v.log }
    _ ← use_by_workers left.log_gone x
    done (x, 0))
