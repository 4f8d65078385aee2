-- ===== src/Io/World.antt =====
-- The state of the server process that the handlers share, and a monad of state and faults over it.
-- Addresses are numbers, and 0 is the null pointer. What the system answers to each call of one
-- handler is an argument, `Answers`.
use amsserver.Base.{
  ◌∷◌, none, some, true, false, suc, done, crash, Option, ℕ, Outcome, Fault, List, Bool,
  if◌then◌else◌, use_after_free, Bytes, ◌==◌, ◌≡◌, [], refl,
}
use amsserver.Io.Buffer.{PerIoData, OperationType, new_io}

pub record SocketHandle : Type 0 where
  pub ssocket : Option ℕ
  -- The peer, as "address:port".
  pub ssocketaddr : Bytes

-- An overlapped operation that the system has started: the completion key is the address of the
-- handle, and the WSAOVERLAPPED is that of the io.
pub record Pending : Type 0 where
  pub key : ℕ
  pub io : ℕ
  pub kind : OperationType

pub record World : Type 0 where
  pub ios : ℕ → Option PerIoData
  pub next_io : ℕ
  pub handles : ℕ → Option SocketHandle
  pub next_handle : ℕ
  pub pending : List Pending
  -- Each WSASend: the socket, and the bytes that it was given.
  pub sent : List (Option ℕ × Bytes)
  pub closed : List ℕ
  pub heap_locked : Bool
  -- The address of the listening handle.
  pub listenhandle : ℕ

-- What the system's calls of one handler return.
pub record Answers : Type 0 where
  -- WSASocket; `none` is INVALID_SOCKET.
  pub wsa_socket : Option ℕ
  -- Whether AcceptEx, CreateIoCompletionPort, the two possible calls of WSARecv, and WSASend start
  -- or succeed (WSA_IO_PENDING counts as started).
  pub accept_ex : Bool
  pub associate : Bool
  pub wsa_recv : Bool
  pub wsa_recv_again : Bool
  pub wsa_send : Bool
  -- The remote address that GetAcceptExSockaddrs finds.
  pub remote : Bytes

abbrev pub M : Type 0 → Type 0
M A = World → Outcome (A × World)

abbrev pub give : {A : Type 0} → A → M A
give a w = done (a, w)

infixl 5 ◌>>=◌ ◌>>◌
abbrev pub ◌>>=◌ : {A B : Type 0} → M A → (A → M B) → M B
◌>>=◌ m f w = elim (m w) [ done (a, v) ↦ f a v | crash e ↦ crash e ]

abbrev pub ◌>>◌ : {B : Type 0} → M (Unit {0}) → M B → M B
m >> k = m >>= λ _. k

abbrev pub lift : {A : Type 0} → Outcome A → M A
lift m w = elim m [ done a ↦ done (a, w) | crash e ↦ crash e ]

abbrev pub modify : (World → World) → M (Unit {0})
modify f w = done (tt, f w)

abbrev pub or_fault : {A : Type 0} → Fault → Option A → Outcome A
or_fault e none = crash e
or_fault e (some a) = done a

abbrev pub update : {A : Type 0} → (ℕ → Option A) → ℕ → Option A → ℕ → Option A
update f p v q = if p == q then v else f q

-- An access to an object; its memory has to be there.
unfoldable pub load : ℕ → M PerIoData
load p w = lift (or_fault use_after_free (w.ios p)) w

unfoldable pub store : ℕ → PerIoData → M (Unit {0})
store p d w = elim (w.ios p) [
  | none ↦ crash use_after_free
  | some _ ↦ done (tt, record w { ios = update w.ios p (some d) })
]

unfoldable pub load_handle : ℕ → M SocketHandle
load_handle p w = lift (or_fault use_after_free (w.handles p)) w

abbrev pub wait_heap_protect_mutex : M (Unit {0})
wait_heap_protect_mutex = modify (λ w. record w { heap_locked = true })

abbrev pub release_heap_protect_mutex : M (Unit {0})
release_heap_protect_mutex = modify (λ w. record w { heap_locked = false })

-- `new PerIOData()` of `SocketHandle::GetNewIOData`
unfoldable pub get_new_io_data : M ℕ
get_new_io_data w =
    done
      (w.next_io, record w { ios = update w.ios w.next_io (some new_io); next_io = suc w.next_io })

-- `delete speriodata`
unfoldable pub delete_io : ℕ → M (Unit {0})
delete_io p w = elim (w.ios p) [
  | none ↦ crash use_after_free
  | some _ ↦ done (tt, record w { ios = update w.ios p none })
]

unfoldable pub remove_io_data : ℕ → M (Unit {0})
unfolding delete_io
remove_io_data p =
    if p == 0 then give tt else do wait_heap_protect_mutex; delete_io p; release_heap_protect_mutex

-- `new SocketHandle()`
abbrev pub new_handle : SocketHandle
new_handle = record { ssocket = none; ssocketaddr = [] }

unfoldable pub new_socket_handle : M ℕ
new_socket_handle w = done (
  w.next_handle,
  record w {
    handles = update w.handles w.next_handle (some new_handle);
    next_handle = suc w.next_handle;
  },
)

unfoldable pub store_handle : ℕ → SocketHandle → M (Unit {0})
store_handle p h w = elim (w.handles p) [
  | none ↦ crash use_after_free
  | some _ ↦ done (tt, record w { handles = update w.handles p (some h) })
]

unfoldable pub start_operation : Pending → M (Unit {0})
start_operation p w = done (tt, record w { pending = p ∷ w.pending })

pub >>=-done :
    {A B : Type 0} (m : M A) (f : A → M B) (w v : World) (a : A)
    → m w ≡ done (a, v)
    → (m >>= f) w ≡ f a v
>>=-done m f w v a e = rw (e, ◌>>=◌)

-- What a bind that returns did first.
pub >>=-done_inv :
    {A B : Type 0} (m : M A) (f : A → M B) (w v : World) (b : B)
    → (m >>= f) w ≡ done (b, v)
    → (a : A) × (u : World) × (m w ≡ done (a, u)) × (f a u ≡ done (b, v))
>>=-done_inv {A} {B} m f w v b e = go (m w) refl e
  where
    go :
        (o : Outcome (A × World))
        → m w ≡ o
        → ◌≡◌ {A = Outcome (B × World)}
            (elim o [ done (a, u) ↦ f a u | crash x ↦ crash x ])
            (done (b, v))
        → (a : A) × (u : World) × (m w ≡ done (a, u)) × (f a u ≡ done (b, v))
    go (done (a, u)) p q = (a, u, p, q)
    go (crash x) p q = cc
