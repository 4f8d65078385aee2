-- ===== src/Server/Worker/Released.antt =====
-- A round on the completion of an operation whose io is gone.
use amsserver.Server.HttpRecv.{http_do_recv}
use amsserver.Io.World.{load, Answers, World}
use amsserver.Base.{none, true, crash, Bytes, ℕ, ◌≡◌, ◌≢◌, use_after_free, arith}
use amsserver.Server.Worker.{worker_round, Completion}

pub worker_round-freed :
    (sizes : Bytes → ℕ) (a : Answers) (c : Completion) (v : World)
    → c.ok ≡ true
    → c.key ≢ 0
    → c.io ≢ 0
    → v.ios c.io ≡ none
    → worker_round (http_do_recv sizes) a c v ≡ crash use_after_free
unfolding worker_round load
worker_round-freed sizes a c v o k p f = ground arith
