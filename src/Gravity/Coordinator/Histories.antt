-- ===== src/Gravity/Coordinator/Histories.antt =====
-- What a coordinator goes through: its methods in any order, each with whatever the world answers; and
-- what several coordinators go through that share a seen-store.
use pyrxd.Common.{ℕ, List}
use pyrxd.Gravity.Record.{SwapRecord}
use pyrxd.Gravity.Coordinator.{Env, World}
use pyrxd.Gravity.Coordinator.Steps.{Op, perform}
use pyrxd.Gravity.Coordinator.Moves.{Move, Moves, stay, next}
use pyrxd.Gravity.Coordinator.Refines.{perform-Moves}

module _ {B E : Type 0} (sha256 : List ℕ → List ℕ) where
  pub data History (start : World B E) : World B E → Type 0 where
    begin : History start start
    does :
        {w : World B E} (env : Env B E) (op : Op)
        → History start w
        → History start (perform sha256 env op w).1

  -- Another coordinator takes its turn, with its own record and its own durable records.
  pub data Shared (start : World B E) : World B E → Type 0 where
    begin : Shared start start
    does :
        {w : World B E} (env : Env B E) (op : Op)
        → Shared start w
        → Shared start (perform sha256 env op w).1
    turn :
        {w : World B E} (r : SwapRecord B E) (d : List (SwapRecord B E))
        → Shared start w
        → Shared start (record w { current = r; durable = d })

  module _ {ℓ} (P : World B E → Type ℓ)
      (keep : (env : Env B E) (v u : World B E) → Move sha256 env v u → P v → P u) where
    pub Moves-keep : (env : Env B E) {w u : World B E} → Moves sha256 env w u → P w → P u
    Moves-keep env stay p = p
    Moves-keep env (next {v} {u} m s) p = keep env v u s (Moves-keep env m p)

    -- What every move keeps, holds throughout.
    pub History-keep : {start w : World B E} → P start → History start w → P w
    History-keep p begin = p
    History-keep p (does {w} env op h) =
        Moves-keep env (perform-Moves sha256 env w op) (History-keep p h)

    pub Shared-keep :
        {start w : World B E}
        → ((v : World B E) (r : SwapRecord B E) (d : List (SwapRecord B E))
            → P v
            → P (record v { current = r; durable = d }))
        → P start
        → Shared start w
        → P w
    Shared-keep other p begin = p
    Shared-keep other p (does {w} env op h) =
        Moves-keep env (perform-Moves sha256 env w op) (Shared-keep other p h)
    Shared-keep other p (turn {w} r d h) = other w r d (Shared-keep other p h)
