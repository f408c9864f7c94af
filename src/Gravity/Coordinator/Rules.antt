-- ===== src/Gravity/Coordinator/Rules.antt =====
-- Rules by which an action of the coordinator is seen to make allowed moves only.
use pyrxd.Common.{
  ℕ, ◌≡◌, refl, arith, Bool, true, false, not, ◌||◌, length, ◌==◌, List, ◌∷◌, Option, none, some,
  Result, ok, err, map_err,
}
use pyrxd.Gravity.Machine.{SwapState, SwapEvent, MachineError, state_eq, advance}
use pyrxd.Gravity.Record.{
  Locator, SwapRecord, RecordError, with_state, with_counter_lock, with_radiant_lock,
}
use pyrxd.Gravity.Record.Updates.{make_record_iff}
use pyrxd.Gravity.Coordinator.{
  Raised, Call, Env, CoordError, machine, has, World, Action, ◌>>=◌, ◌>>◌, lift, raise_if,
  get_record, get_seen, put_record, invoke, advance_by, note_write, persist_by, persist_record,
  reserve_if, reserve,
}
use pyrxd.Gravity.Coordinator.Parts.{finish}
use pyrxd.Gravity.Coordinator.Moves.{
  Move, persisted, advanced, Allows, Moves, stay, next, Moves-trans,
}

pub state_eq→eq : (s t : SwapState) → state_eq s t ≡ true → s ≡ t
state_eq→eq s t h = ground arith

module _ {B E : Type 0} where
  pub with_counter_lock-eq :
      (l : Locator B E) (r r' : SwapRecord B E)
      → with_counter_lock l r ≡ ok r'
      → r' ≡ record r { counterchain_locator = l }
  unfolding with_counter_lock
  with_counter_lock-eq l r r' h = ((make_record_iff _ r').0 h).1

  pub with_radiant_lock-eq :
      (outpoint spk : List ℕ) (r r' : SwapRecord B E)
      → with_radiant_lock outpoint spk r ≡ ok r'
      → r' ≡ record r {
        radiant_covenant_outpoint = some outpoint;
        radiant_covenant_spk_hex = some spk;
      }
  unfolding with_radiant_lock
  with_radiant_lock-eq outpoint spk r r' h = ((make_record_iff _ r').0 h).1

  pub with_state-eq :
      (s : SwapState) (r r' : SwapRecord B E) → with_state s r ≡ ok r' → r' ≡ record r { state = s }
  unfolding with_state
  with_state-eq s r r' h = ((make_record_iff _ r').0 h).1

module _ {B E : Type 0} (sha256 : List ℕ → List ℕ) (env : Env B E) where
  -- Running the action makes moves only.
  pub record Runs {A : Type 0} (w : World B E) (m : Action B E A) : Type 0 where
    pub moves : Moves sha256 env w (m w).1

module _ {B E : Type 0} {sha256 : List ℕ → List ℕ} {env : Env B E} where
  pub done-Runs :
      {A : Type 0} {w : World B E} (r : Result CoordError A) → Runs sha256 env w (lift r)
  unfolding lift
  done-Runs r = record { moves = stay }

  pub record-Runs : {w : World B E} → Runs sha256 env w get_record
  unfolding get_record
  record-Runs = record { moves = stay }

  pub get-Runs :
      {A : Type 0} {w : World B E} (f : SwapRecord B E → Action B E A)
      → Runs sha256 env w (f w.current)
      → Runs sha256 env w (get_record >>= f)
  unfolding get_record ◌>>=◌
  get-Runs f k = record { moves = k.moves }

  pub seen-Runs :
      {A : Type 0} {w : World B E} (f : List (List ℕ) → Action B E A)
      → Runs sha256 env w (f w.seen)
      → Runs sha256 env w (get_seen >>= f)
  unfolding get_seen ◌>>=◌
  seen-Runs f k = record { moves = k.moves }

  pub lift-Runs :
      {A C : Type 0} {w : World B E} (r : Result CoordError A) {f : A → Action B E C}
      → ((a : A) → r ≡ ok a → Runs sha256 env w (f a))
      → Runs sha256 env w (lift r >>= f)
  unfolding lift ◌>>=◌
  lift-Runs (ok a) k = record { moves = (k a refl).moves }
  lift-Runs (err e) k = record { moves = stay }

  pub check-Runs :
      {C : Type 0} {w : World B E} (r : Result CoordError (Unit {0})) {m : Action B E C}
      → (r ≡ ok tt → Runs sha256 env w m)
      → Runs sha256 env w (lift r >> m)
  unfolding lift ◌>>◌
  check-Runs (ok u) k = record { moves = (k refl).moves }
  check-Runs (err e) k = record { moves = stay }

  pub raise_if-Runs :
      {C : Type 0} {w : World B E} (bad : Bool) (e : CoordError) {m : Action B E C}
      → (bad ≡ false → Runs sha256 env w m)
      → Runs sha256 env w (raise_if bad e >> m)
  unfolding raise_if ◌>>◌
  raise_if-Runs true e k = record { moves = stay }
  raise_if-Runs false e k = record { moves = (k refl).moves }

  pub put-Runs :
      {C : Type 0} {w : World B E} (r : Result RecordError (SwapRecord B E)) {m : Action B E C}
      → ((r' : SwapRecord B E)
          → r ≡ ok r'
          → Move sha256 env w (record w { current = r' })
            × Runs sha256 env (record w { current = r' }) m)
      → Runs sha256 env w (put_record r >> m)
  unfolding put_record ◌>>◌
  put-Runs (ok r) k = record {
    moves = Moves-trans sha256 env (next stay (k r refl).0) (k r refl).1.moves;
  }
  put-Runs (err e) k = record { moves = stay }

  pub invoke-Runs :
      {A C : Type 0} {w : World B E} {c : Call B E} (r : Result Raised A) {f : A → Action B E C}
      → Move sha256 env w (record w { calls = c ∷ w.calls })
      → ((a : A) → r ≡ ok a → Runs sha256 env (record w { calls = c ∷ w.calls }) (f a))
      → Runs sha256 env w (invoke c r >>= f)
  unfolding invoke ◌>>=◌
  invoke-Runs (ok a) move k = record {
    moves = Moves-trans sha256 env (next stay move) (k a refl).moves;
  }
  invoke-Runs (err e) move k = record { moves = next stay move }

  pub act-Runs :
      {C : Type 0} {w : World B E} {c : Call B E} (r : Result Raised (Unit {0})) {m : Action B E C}
      → Move sha256 env w (record w { calls = c ∷ w.calls })
      → (r ≡ ok tt → Runs sha256 env (record w { calls = c ∷ w.calls }) m)
      → Runs sha256 env w (invoke c r >> m)
  unfolding invoke ◌>>◌
  act-Runs (ok u) move k = record { moves = Moves-trans sha256 env (next stay move) (k refl).moves }
  act-Runs (err e) move k = record { moves = next stay move }

  note_write-Moves :
      {C : Type 0} {w : World B E} (written : Result Raised (Unit {0})) {m : Action B E C}
      → Runs sha256 env (record w { durable = w.current ∷ w.durable }) m
      → Moves sha256 env w ((note_write written >> m) w).1
  unfolding note_write ◌>>◌
  note_write-Moves {w = w} (ok written) k = Moves-trans sha256 env (next stay (persisted w)) k.moves
  note_write-Moves (err e) k = stay

  -- The hook is absent, raises or writes the record in memory; what follows must do for all three.
  persist_by-Runs :
      {C : Type 0} {w : World B E} (hook : Option (SwapRecord B E → Result Raised (Unit {0})))
      {m : Action B E C}
      → ((d : List (SwapRecord B E)) → Runs sha256 env (record w { durable = d }) m)
      → Moves sha256 env w ((persist_by hook >> m) w).1
  unfolding persist_by ◌>>◌
  persist_by-Runs {w = w} none k = (k w.durable).moves
  persist_by-Runs {w = w} (some hook) k =
      unfold ◌>>◌ in note_write-Moves (hook w.current) (k (w.current ∷ w.durable))

  pub persist-Runs :
      {C : Type 0} {w : World B E} {m : Action B E C}
      → ((d : List (SwapRecord B E)) → Runs sha256 env (record w { durable = d }) m)
      → Runs sha256 env w (persist_record env >> m)
  unfolding persist_record
  persist-Runs k = record { moves = unfold ◌>>◌ in persist_by-Runs env.persist k }

  module _ {C : Type 0} {w : World B E} (e : SwapEvent) {m : Action B E C}
      (why : Allows sha256 env w e)
      (later : (r : SwapRecord B E) (s : SwapState)
        → advance w.current.state e ≡ ok s
        → with_state s w.current ≡ ok r
        → Runs sha256 env (record w { current = r }) m) where
    placed-Moves :
        (s : SwapState) (placed : Result RecordError (SwapRecord B E))
        → advance w.current.state e ≡ ok s
        → with_state s w.current ≡ placed
        → Moves sha256 env w ((put_record placed >> m) w).1
    unfolding ◌>>◌ put_record
    placed-Moves s (ok r) edge put =
        Moves-trans sha256 env (next stay (advanced w e s r edge put why))
          (later r s edge put).moves
    placed-Moves s (err bad) edge put = stay

    advance-Moves :
        (found : Result MachineError SwapState)
        → advance w.current.state e ≡ found
        → Moves sha256 env w
            (((lift (map_err machine found) >>= λ s. put_record (with_state s w.current)) >> m) w).1
    unfolding ◌>>=◌ ◌>>◌ lift
    advance-Moves (ok s) edge = placed-Moves s (with_state s w.current) edge refl
    advance-Moves (err bad) edge = stay

    pub advance-Runs : Runs sha256 env w (advance_by e >> m)
    unfolding advance_by get_record ◌>>=◌ ◌>>◌
    advance-Runs = record { moves = advance-Moves (advance w.current.state e) refl }

  pub finish-Runs :
      {w : World B E} (e : SwapEvent) → Allows sha256 env w e → Runs sha256 env w (finish env e)
  unfolding finish
  finish-Runs e why = advance-Runs e why λ r s edge put. persist-Runs λ d. record-Runs

  -- A hashlock is taken in and the leg is called with nothing between.
  module _ {A C : Type 0} {w : World B E} {c : Call B E} (h : List ℕ) (e : CoordError)
      {f : A → Action B E C} where
    reserve-Moves :
        (down old : Bool) (r : Result Raised A)
        → (old ≡ false → Move sha256 env w (record w { seen = h ∷ w.seen; calls = c ∷ w.calls }))
        → ((a : A)
            → r ≡ ok a
            → Runs sha256 env (record w { seen = h ∷ w.seen; calls = c ∷ w.calls }) (f a))
        → Moves sha256 env w
            ((reserve_if down old h >>= λ fresh. raise_if (not fresh) e >> (invoke c r >>= f)) w).1
    unfolding ◌>>=◌ ◌>>◌ reserve_if raise_if invoke
    reserve-Moves true old r move k = stay
    reserve-Moves false true r move k = stay
    reserve-Moves false false (err bad) move k = next stay (move refl)
    reserve-Moves false false (ok a) move k =
        Moves-trans sha256 env (next stay (move refl)) (k a refl).moves

    pub reserve-Runs :
        (r : Result Raised A)
        → (has w.seen h ≡ false
            → Move sha256 env w (record w { seen = h ∷ w.seen; calls = c ∷ w.calls }))
        → ((a : A)
            → r ≡ ok a
            → Runs sha256 env (record w { seen = h ∷ w.seen; calls = c ∷ w.calls }) (f a))
        → Runs sha256 env w
            (reserve env h >>= λ fresh. raise_if (not fresh) e >> (invoke c r >>= f))
    unfolding ◌>>=◌ reserve
    reserve-Runs r move k = record {
      moves =
          unfold ◌>>=◌ in
          reserve-Moves (env.store_down || not (length h == 32)) (has w.seen h) r move k;
    }
